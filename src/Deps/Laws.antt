-- ===== src/Deps/Laws.antt =====
-- What is proved of the dependency sets of conn_pool_dep.go.
use memsql_conn_pool.Base.{
  ℕ, ◌<◌, ◌≤◌, ==_refl, ◌≡◌, refl, if◌then◌else◌, true, false, Option, none, some, List, [], ◌∷◌,
  length, arith, is_some, update,
}
use memsql_conn_pool.Deps.{
  node_eq, contains_node, insert_node, delete_node, set_dep, dep_set, Closer, final_close_of,
  nothing, remove_from, remove_dep_locked,
}
use memsql_conn_pool.Runtime.{
  Env, World, Node, conn_node, stmt_node, rows_node, ok, panics, no_deps, no_such_dep, ◌>>=◌,
}

node_eq_refl : (x : Node) → node_eq x x ≡ true
node_eq_refl (conn_node a) = ==_refl a
node_eq_refl (stmt_node a) = ==_refl a
node_eq_refl (rows_node a) = ==_refl a

pub delete_node_absent :
    (d : Node) (xs : List Node) → contains_node d xs ≡ false → delete_node d xs ≡ xs
delete_node_absent d [] h = refl
delete_node_absent d (x ∷ xs) h = ground (arith, delete_node_absent d xs)

pub delete-insert_node :
    (d : Node) (xs : List Node) → contains_node d xs ≡ false → delete_node d (insert_node d xs) ≡ xs
delete-insert_node d xs h = rw (h, node_eq_refl d, delete_node_absent d xs h)

length-delete_node : (d : Node) (xs : List Node) → length (delete_node d xs) ≤ length xs
length-delete_node d [] = omega arith
length-delete_node d (x ∷ xs) = ground (arith, length-delete_node d xs)

shorter :
    (d : Node) (xs : List Node) → contains_node d xs ≡ true → length (delete_node d xs) < length xs
shorter d [] h = absurd (ground arith)
shorter d (x ∷ xs) h = ground (arith, shorter d xs, length-delete_node d xs)

-- What is to run when the last dependency of `x` is gone, and nothing before.
abbrev pub closer_for : Node → List Node → Closer
closer_for x [] = final_close_of x
closer_for x (_ ∷ _) = nothing

module _ {env : Env} where
  -- The dependencies of `y` in the pool `p`.
  abbrev pub deps : World env → ℕ → Node → List Node
  deps w p y = dep_set ((w.pools p).dep y)

  abbrev pub Removes : World env → ℕ → Node → Node → Type 0
  Removes w p x d =
      (w' : World env) × (remove_dep_locked p x d w
        ≡ ok (closer_for x (delete_node d (deps w p x))) w')
      × (deps w' p x ≡ delete_node d (deps w p x))
      × ((y : Node) → node_eq x y ≡ false → deps w' p y ≡ deps w p y)

  with_deps : World env → ℕ → Node → List Node → World env
  with_deps w p x [] =
      let s = w.pools p in
      record w { pools = update w.pools p (record s { dep = set_dep s.dep x none }) }
  with_deps w p x (y ∷ ys) =
      let s = w.pools p in
      record w { pools = update w.pools p (record s { dep = set_dep s.dep x (some (y ∷ ys)) }) }

  deps-with_deps :
      (w : World env) (p : ℕ) (x : Node) (rest : List Node) → deps (with_deps w p x rest) p x ≡ rest
  unfolding with_deps
  deps-with_deps w p x [] = ground (arith, node_eq_refl x)
  deps-with_deps w p x (y ∷ ys) = ground (arith, node_eq_refl x)

  deps-with_deps_ne :
      (w : World env) (p : ℕ) (x : Node) (rest : List Node) (y : Node)
      → node_eq x y ≡ false
      → deps (with_deps w p x rest) p y ≡ deps w p y
  unfolding with_deps
  deps-with_deps_ne w p x [] y h = ground arith
  deps-with_deps_ne w p x (z ∷ ys) y h = ground arith

  remove_from-rest :
      (w : World env) (p : ℕ) (x d : Node) (xs rest : List Node)
      → delete_node d xs ≡ rest
      → length rest < length xs
      → remove_from p x d xs w ≡ ok (closer_for x rest) (with_deps w p x rest)
  unfolding remove_from with_deps
  remove_from-rest w p x d xs [] e fewer = ground arith
  remove_from-rest w p x d xs (y ∷ ys) e fewer = ground arith

  -- `removeDepLocked` of a dependency that is there takes it out, leaves the dependencies of
  -- every other object alone, and gives the `finalClose` of the object exactly where no other
  -- dependency is left.
  pub remove_dep_locked-Removes :
      (w : World env) (p : ℕ) (x d : Node) → contains_node d (deps w p x) ≡ true → Removes w p x d
  unfolding remove_dep_locked
  remove_dep_locked-Removes w p x d held = go ((w.pools p).dep x) refl
    where
      go : (o : Option (List Node)) → (w.pools p).dep x ≡ o → Removes w p x d
      go none e = absurd (ground arith)
      go (some xs) e =
          let rest = delete_node d (deps w p x) in
          (
            with_deps w p x rest,
            rw (e, remove_dep_locked, ◌>>=◌)
                (remove_from-rest w p x d xs (delete_node d xs) refl (shorter d xs (ground arith))),
            deps-with_deps w p x rest,
            deps-with_deps_ne w p x rest,
          )

  -- `removeDepLocked` of a dependency that is not there, or of an object with none, panics, each
  -- with its own message.
  pub remove_dep_locked-unpaired :
      (w : World env) (p : ℕ) (x d : Node)
      → contains_node d (deps w p x) ≡ false
      → remove_dep_locked p x d w
        ≡ panics (if is_some ((w.pools p).dep x) then no_such_dep else no_deps)
  unfolding remove_dep_locked remove_from
  remove_dep_locked-unpaired w p x d absent = go ((w.pools p).dep x) refl
    where
      go :
          (o : Option (List Node))
          → (w.pools p).dep x ≡ o
          → remove_dep_locked p x d w
            ≡ panics (if is_some ((w.pools p).dep x) then no_such_dep else no_deps)
      go none e = ground arith
      go (some xs) e = ground (arith, delete_node_absent d xs)
