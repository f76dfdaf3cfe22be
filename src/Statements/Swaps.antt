-- ===== src/Statements/Swaps.antt =====
-- What `removeClosedStmtLocked` leaves of the driver's statements.
use memsql_conn_pool.Base.{
  ℕ, zero, suc, ◌+◌, ◌-◌, ◌≤◌, ◌<◌, ◌≡◌, refl, sym, ap, ◌∙◌, ltb, Bool, true, false, Option, some,
  List, [], ◌∷◌, ◌++◌, length, get_elem?, set, take, ◌^◌, arith, length-append, get_elem?-middle,
  set-middle, take-append, append_assoc, append-nil, ◌⊎◌, Bool-cases, ==_refl, inl, inr, subst,
}
use memsql_conn_pool.Closing.{u64}
use memsql_conn_pool.Runtime.{Env, World, Returns, ◌>>=◌}
use memsql_conn_pool.Statements.Bags.{
  count_if, IsBagOf, open_only, count_if-append, on_open, count_if-open_only, end_of,
}
use memsql_conn_pool.Statements.{
  ConnStmt, Stmt, swap_out, swapped, threshold, remove_closed_stmt_locked,
}

module _ (is_closed : ℕ → Bool) where
  in_bounds :
      (done : List ConnStmt) (v : ConnStmt) (rest : List ConnStmt)
      → ltb (length done) (length (done ++ v ∷ rest)) ≡ true
  in_bounds done v rest = ground (arith, length-append done (v ∷ rest))

  past_end : (fuel : ℕ) (css : List ConnStmt) → swap_out is_closed fuel (length css) css ≡ some css
  unfolding swap_out
  past_end zero css = ground arith
  past_end (suc fuel) css = ground arith

  at_open :
      (fuel : ℕ) (done : List ConnStmt) (v : ConnStmt) (rest : List ConnStmt)
      → is_closed v.dc ≡ false
      → swap_out is_closed (suc fuel) (length done) (done ++ v ∷ rest)
        ≡ swap_out is_closed fuel (length done + 1) (done ++ v ∷ rest)
  unfolding swap_out
  at_open fuel done v rest e = rw (in_bounds done v rest, get_elem?-middle done v rest, e) refl

  at_closed :
      (fuel : ℕ) (done : List ConnStmt) (v last : ConnStmt) (rest : List ConnStmt)
      → is_closed v.dc ≡ true
      → get_elem? (done ++ v ∷ rest) (length (done ++ v ∷ rest) - 1) ≡ some last
      → swap_out is_closed (suc fuel) (length done) (done ++ v ∷ rest)
        ≡ swap_out is_closed fuel
            (length done)
            (take (length (done ++ v ∷ rest) - 1) (set (done ++ v ∷ rest) (length done) last))
  unfolding swap_out
  at_closed fuel done v last rest e h =
      rw (in_bounds done v rest, get_elem?-middle done v rest, e, h) refl

  take-prefix : (xs ys : List ConnStmt) → take (length xs) (xs ++ ys) ≡ xs
  take-prefix xs ys =
      let e : length xs + 0 ≡ length xs = omega arith in
      subst (λ n. take n (xs ++ ys) ≡ xs) e (take-append xs ys 0 ∙ append-nil xs)

  -- What is left where the closed connection is the last one.
  cut_last :
      (done : List ConnStmt) (v : ConnStmt)
      → take (length (done ++ v ∷ []) - 1) (set (done ++ v ∷ []) (length done) v) ≡ done
  cut_last done v =
      let e : length (done ++ v ∷ []) - 1 ≡ length done =
        omega (arith, length-append done (v ∷ [])) in
      rw (e, set-middle done v v []) (take-prefix done (v ∷ []))

  -- And where it is not: the last entry takes its place.
  cut_middle :
      (done : List ConnStmt) (v : ConnStmt) (init : List ConnStmt) (last : ConnStmt)
      → let css = done ++ v ∷ (init ++ last ∷ []) in
        take (length css - 1) (set css (length done) last) ≡ done ++ last ∷ init
  cut_middle done v init last =
      let e : length (done ++ v ∷ (init ++ last ∷ [])) - 1 ≡ length (done ++ last ∷ init) = omega (
        arith,
        length-append done (v ∷ (init ++ last ∷ [])),
        length-append init (last ∷ []),
        length-append done (last ∷ init),
      ) in
      rw
        (
          e,
          set-middle done v last (init ++ last ∷ []),
          sym (append_assoc done (last ∷ init) (last ∷ [])),
        )
        (take-prefix (done ++ last ∷ init) (last ∷ []))

  last_here :
      (done : List ConnStmt) (v : ConnStmt)
      → get_elem? (done ++ v ∷ []) (length (done ++ v ∷ []) - 1) ≡ some v
  last_here done v =
      let e : length (done ++ v ∷ []) - 1 ≡ length done =
        omega (arith, length-append done (v ∷ [])) in
      rw e (get_elem?-middle done v [])

  last_there :
      (done : List ConnStmt) (v : ConnStmt) (init : List ConnStmt) (last : ConnStmt)
      → get_elem? (done ++ v ∷ (init ++ last ∷ [])) (length (done ++ v ∷ (init ++ last ∷ [])) - 1)
        ≡ some last
  last_there done v init last =
      let e : length (done ++ v ∷ (init ++ last ∷ [])) - 1 ≡ length (done ++ v ∷ init) = omega (
        arith,
        length-append done (v ∷ (init ++ last ∷ [])),
        length-append init (last ∷ []),
        length-append done (v ∷ init),
      ) in
      rw (e, sym (append_assoc done (v ∷ init) (last ∷ [])))
        (get_elem?-middle (done ++ v ∷ init) last [])

  -- The result of the loop from the end of `done`: what is done, and of the rest what is open.
  IsSwapped : List ConnStmt → List ConnStmt → Option (List ConnStmt) → Type 0
  IsSwapped done rest r =
      (out : List ConnStmt) × (r ≡ some out)
      × ((q : ConnStmt → Bool)
          → count_if q out ≡ count_if q done + count_if (on_open is_closed q) rest)

  nothing_left :
      (fuel : ℕ) (done : List ConnStmt)
      → IsSwapped done [] (swap_out is_closed fuel (length done) (done ++ []))
  unfolding IsSwapped
  nothing_left fuel done = (
    done,
    ap (swap_out is_closed fuel (length done)) (append-nil done) ∙ past_end fuel done,
    λ q. omega arith,
  )

  dropped_last :
      (fuel : ℕ) (done : List ConnStmt) (v : ConnStmt)
      → is_closed v.dc ≡ true
      → IsSwapped done (v ∷ []) (swap_out is_closed (suc fuel) (length done) (done ++ v ∷ []))
  unfolding IsSwapped
  dropped_last fuel done v closed = (
    done,
    at_closed fuel done v v [] closed (last_here done v)
        ∙ ap (swap_out is_closed fuel (length done)) (cut_last done v)
        ∙ past_end fuel done,
    λ q. rw closed (omega arith),
  )

  dropped_middle :
      (fuel : ℕ) (done : List ConnStmt) (v : ConnStmt) (init : List ConnStmt) (last : ConnStmt)
      → is_closed v.dc ≡ true
      → IsSwapped done (last ∷ init) (swap_out is_closed fuel (length done) (done ++ last ∷ init))
      → IsSwapped done
          (v ∷ (init ++ last ∷ []))
          (swap_out is_closed (suc fuel) (length done) (done ++ v ∷ (init ++ last ∷ [])))
  unfolding IsSwapped
  dropped_middle fuel done v init last closed (out, e, counts) = (
    out,
    at_closed fuel done v last (init ++ last ∷ []) closed (last_there done v init last)
        ∙ ap (swap_out is_closed fuel (length done)) (cut_middle done v init last)
        ∙ e,
    λ q.
        rw closed
          (ground (arith, counts q, count_if-append (on_open is_closed q) init (last ∷ []))),
  )

  kept_one :
      (fuel : ℕ) (done : List ConnStmt) (v : ConnStmt) (rest : List ConnStmt)
      → is_closed v.dc ≡ false
      → IsSwapped
          (done ++ v ∷ [])
          rest
          (swap_out is_closed fuel (length (done ++ v ∷ [])) ((done ++ v ∷ []) ++ rest))
      → IsSwapped done (v ∷ rest) (swap_out is_closed (suc fuel) (length done) (done ++ v ∷ rest))
  unfolding IsSwapped
  kept_one fuel done v rest opened (out, e, counts) =
      let i : length done + 1 ≡ length (done ++ v ∷ []) =
        omega (arith, length-append done (v ∷ [])) in
      (
        out,
        at_open fuel done v rest opened ∙ rw (i, sym (append_assoc done (v ∷ []) rest)) e,
        λ q. rw opened (ground (arith, counts q, count_if-append q done (v ∷ []))),
      )

  swap_out-IsSwapped :
      (fuel : ℕ) (done rest : List ConnStmt)
      → length rest ≤ fuel
      → IsSwapped done rest (swap_out is_closed fuel (length done) (done ++ rest))
  swap_out-IsSwapped fuel done [] enough = nothing_left fuel done
  swap_out-IsSwapped zero done (v ∷ rest) enough = absurd (omega (arith, enough))
  swap_out-IsSwapped (suc fuel) done (v ∷ rest) enough = elim (Bool-cases (is_closed v.dc)) [
    | inr opened ↦
        kept_one fuel done v rest opened
          (swap_out-IsSwapped fuel (done ++ v ∷ []) rest (omega (arith, enough)))
    | inl closed ↦ elim (end_of rest) [
      | inl e ↦
          subst
            (λ r.
              IsSwapped done (v ∷ r) (swap_out is_closed (suc fuel) (length done) (done ++ v ∷ r)))
            (sym e) (dropped_last fuel done v closed)
      | inr (init, last, e) ↦
          let fits : suc (length init) ≤ fuel =
            omega (arith, enough, ap length e, length-append init (last ∷ [])) in
          subst
            (λ r.
              IsSwapped done (v ∷ r) (swap_out is_closed (suc fuel) (length done) (done ++ v ∷ r)))
            (sym e)
            (dropped_middle fuel done v init last closed
              (swap_out-IsSwapped fuel done (last ∷ init) fits))
    ]
  ]

  -- With as many rounds as there are entries, the loop leaves those of open connections.
  swap_out-IsBagOf :
      (css : List ConnStmt)
      → (out : List ConnStmt) × (swap_out is_closed (length css) 0 css ≡ some out)
        × IsBagOf out (open_only is_closed css)
  unfolding IsSwapped
  swap_out-IsBagOf css =
      let (out, e, counts) = swap_out-IsSwapped (length css) [] css (omega arith) in
      (out, e, λ q. omega (arith, counts q, count_if-open_only is_closed q css))

-- A statement after `removeClosedStmtLocked`: as it was, while less than the threshold of
-- connections were closed since the last time, and else without those of closed connections.
abbrev pub IsTrimmed : {env : Env} → World env → Stmt → Stmt → Type 0
IsTrimmed w s s' =
    let closed_since = u64 ((w.pools s.db).num_closed + 2 ^ 64 - s.last_num_closed) in
    ((closed_since < threshold s.css) × (s' ≡ s))
    ⊎ ((threshold s.css ≤ closed_since)
        × IsBagOf s'.css (open_only (λ dc. (w.conns dc).dbmu_closed) s.css)
        × (s'.last_num_closed ≡ (w.pools s.db).num_closed))

-- `removeClosedStmtLocked` returns, if the pool's mutex is free, without a read out of bounds
-- and after at most as many rounds as there are entries: it leaves the statement as it is while
-- fewer connections than the threshold were closed since the last time, counted in unsigned 64
-- bits, and otherwise leaves the entries of open connections, each as often as before, in any
-- order, and notes the number of closed connections.
pub remove_closed_stmt_locked-IsTrimmed :
    {env : Env} (s : Stmt) (w : World env)
    → (w.pools s.db).mu ≡ false
    → Returns (remove_closed_stmt_locked s w) (λ s' w'. IsTrimmed w s s')
unfolding remove_closed_stmt_locked swapped
remove_closed_stmt_locked-IsTrimmed s w free =
    elim (Bool-cases
      (ltb (u64 ((w.pools s.db).num_closed + 2 ^ 64 - s.last_num_closed)) (threshold s.css))) [
        | inl few ↦ rw few (inl (ground (arith, few), refl))
        | inr many ↦
            let (out, e, bag) = swap_out-IsBagOf (λ dc. (w.conns dc).dbmu_closed) s.css in
            rw many (
              rw (free, ◌>>=◌, Returns)
                (rw e (rw (==_refl s.db) (inr (ground (arith, many), bag, refl)))))
      ]
