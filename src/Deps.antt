-- ===== src/Deps.antt =====
-- conn_pool_dep.go: which objects must be closed before a connection or a statement is finally
-- closed.
pub mod Laws
use memsql_conn_pool.Base.{
  ℕ, suc, ◌==◌, if◌then◌else◌, Bool, true, false, Option, none, some, List, [], ◌∷◌, length,
}
use memsql_conn_pool.Runtime.{
  Env, World, ConnPool, Node, conn_node, stmt_node, rows_node, M, ◌>>=◌, ◌>>◌, pure, panic, gets,
  set_pool, lock_pool, unlock_pool, no_deps, no_such_dep,
}

abbrev pub node_eq : Node → Node → Bool
node_eq (conn_node a) (conn_node b) = a == b
node_eq (stmt_node a) (stmt_node b) = a == b
node_eq (rows_node a) (rows_node b) = a == b
node_eq _ _ = false

abbrev pub contains_node : Node → List Node → Bool
contains_node d [] = false
contains_node d (x ∷ xs) = if node_eq x d then true else contains_node d xs

-- `xdep[dep] = true` and `delete(xdep, dep)` on a `depSet`.
abbrev pub insert_node : Node → List Node → List Node
insert_node d xs = if contains_node d xs then xs else d ∷ xs

abbrev pub delete_node : Node → List Node → List Node
delete_node d [] = []
delete_node d (x ∷ xs) = let rest = delete_node d xs in if node_eq x d then rest else x ∷ rest

abbrev pub DepMap : Type 0
DepMap = Node → Option (List Node)

abbrev pub set_dep : DepMap → Node → Option (List Node) → DepMap
set_dep m x v y = if node_eq x y then v else m y

abbrev pub dep_set : Option (List Node) → List Node
dep_set none = []
dep_set (some xs) = xs

-- The function that `removeDepLocked` and `closeDBLocked` return, for the caller to run once the
-- locks are free.
pub data Closer : Type 0 where
  final_close_of : Node → Closer
  nothing : Closer
  duplicate : Closer

module _ {env : Env} where
  unfoldable pub add_dep_locked : ℕ → Node → Node → M env (Unit {0})
  add_dep_locked p x d =
      set_pool p
        (λ s. record s { dep = set_dep s.dep x (some (insert_node d (dep_set (s.dep x)))) })

  unfoldable pub add_dep : ℕ → Node → Node → M env (Unit {0})
  unfolding add_dep_locked
  add_dep p x d = do lock_pool p; add_dep_locked p x d; unlock_pool p

  pub remove_from : ℕ → Node → Node → List Node → M env Closer
  remove_from p x d xdep =
      let rest = delete_node d xdep in
      if length rest == length xdep
      then panic no_such_dep
      else if length rest == 0
      then (set_pool p (λ s. record s { dep = set_dep s.dep x none }) >> pure (final_close_of x))
      else (set_pool p (λ s. record s { dep = set_dep s.dep x (some rest) }) >> pure nothing)

  unfoldable pub remove_dep_locked : ℕ → Node → Node → M env Closer
  remove_dep_locked p x d = do
    xdep ← gets (λ w. (w.pools p).dep x)
    elim xdep [ none ↦ panic no_deps | some xs ↦ remove_from p x d xs ]

  -- `removeDep` up to the call of the function that it gets.
  unfoldable pub remove_dep : ℕ → Node → Node → M env Closer
  unfolding remove_dep_locked
  remove_dep p x d = do lock_pool p; fn ← remove_dep_locked p x d; unlock_pool p; pure fn
