-- ===== src/Facade/RequestLaws.antt =====
-- What is proved of the choice of pools in conn_pool_facade.go.
use memsql_conn_pool.Base.{
  ℕ, suc, ◌+◌, ◌-◌, ◌≤◌, ◌<◌, ◌==◌, min, ◌≡◌, refl, if◌then◌else◌, true, false, List, [], ◌∷◌, ◌++◌,
  length, replicate, count, arith, update, All, Bool-cases, inl, inr, length-append,
  length-replicate, count-append, count-replicate_self, count-replicate_ne, append-nil,
  append_assoc,
}
use mathlib.Core.Path.{fun_ext}
use memsql_conn_pool.Base.Int.{pos, ◌-ℤ◌, -ℤ_pos}
use memsql_conn_pool.Facade.Requests.{
  get_wait_count, request_loop, min_ℤ, eq_ℤ, get_conn_pools_that_have_requested_new_connections,
}
use memsql_conn_pool.Runtime.{Env, Bytes, World, ◌>>=◌, ok, put_pool}

min_zero : (n : ℕ) → min n 0 ≡ 0
min_zero n = omega arith

min_of_zero : (n r : ℕ) → (n == 0) ≡ true → min n r ≡ 0
min_of_zero n r h = ground arith

min_ℤ_pos : (a b : ℕ) → min_ℤ (pos a) (pos b) ≡ pos (min a b)
min_ℤ_pos a b = ground arith

eq_ℤ_sub : (a b : ℕ) → b ≤ a → eq_ℤ (pos a -ℤ pos b) (pos 0) ≡ (a == b)
eq_ℤ_sub a b h = rw (-ℤ_pos a b h) (ground arith)

-- The specification: each pool in turn takes what it waits for, as far as the number reaches.
unfoldable pub shares : (ℕ → ℕ) → List (Bytes × ℕ) → ℕ → List ℕ
shares waits [] r = []
shares waits ((_, p) ∷ ps) r =
    replicate (min (waits p) r) p ++ shares waits ps (r - min (waits p) r)

module _ {env : Env} where
  abbrev pub wait_count : World env → ℕ → ℕ
  wait_count w p = length (w.pools p).conn_requests

  -- No mutex of the listed pools is held.
  abbrev pub AreFree : World env → List (Bytes × ℕ) → Type 0
  AreFree w = All (λ e. (w.pools e.1).mu ≡ false)

  abbrev pub total_waits : World env → List (Bytes × ℕ) → ℕ
  total_waits w [] = 0
  total_waits w ((_, p) ∷ ps) = wait_count w p + total_waits w ps

  relocked :
      (w : World env) (p : ℕ)
      → (w.pools p).mu ≡ false
      → put_pool
          (put_pool w p (let x = w.pools p in record x { mu = true }))
          p
          (let x = w.pools p in record x { mu = false })
        ≡ w
  relocked w p free = λ i. record w { pools = pools_eq i }
    where
      pools_eq :
          update
            (update w.pools p (let x = w.pools p in record x { mu = true }))
            p
            (let x = w.pools p in record x { mu = false })
          ≡ w.pools
      pools_eq = fun_ext λ q. ground (arith, free)

  pub get_wait_count-free :
      (w : World env) (p : ℕ) → (w.pools p).mu ≡ false → get_wait_count p w ≡ ok (wait_count w p) w
  unfolding get_wait_count
  get_wait_count-free w p free = ground (arith, relocked w p free)

  shares-zero : (w : World env) (ps : List (Bytes × ℕ)) → shares (wait_count w) ps 0 ≡ []
  unfolding shares
  shares-zero w [] = refl
  shares-zero w ((_, p) ∷ ps) = rw (min_zero (wait_count w p)) (shares-zero w ps)

  pub length-shares :
      (w : World env) (ps : List (Bytes × ℕ)) (r : ℕ)
      → r ≤ total_waits w ps
      → length (shares (wait_count w) ps r) ≡ r
  unfolding shares
  length-shares w [] r h = omega arith
  length-shares w ((_, p) ∷ ps) r h = omega (
    arith,
    length-append (replicate (min (wait_count w p) r) p)
        (shares (wait_count w) ps (r - min (wait_count w p) r)),
    length-replicate (min (wait_count w p) r) p,
    length-shares w ps (r - min (wait_count w p) r),
  )

  -- What the entries of the pool `q` wait for.
  abbrev pub count_waits : World env → ℕ → List (Bytes × ℕ) → ℕ
  count_waits w q [] = 0
  count_waits w q ((_, p) ∷ ps) = (if p == q then wait_count w p else 0) + count_waits w q ps

  count-shares :
      (w : World env) (q : ℕ) (ps : List (Bytes × ℕ)) (r : ℕ)
      → count q (shares (wait_count w) ps r) ≤ count_waits w q ps
  unfolding shares
  count-shares w q [] r = omega arith
  count-shares w q ((_, p) ∷ ps) r =
      let k = min (wait_count w p) r in
      ground (
        arith,
        count-append q (replicate k p) (shares (wait_count w) ps (r - k)),
        count-replicate_self q k,
        count-replicate_ne q p k,
        count-shares w q ps (r - k),
      )

  request_loop-shares :
      (w : World env) (ps : List (Bytes × ℕ)) (r : ℕ) (slice : List ℕ)
      → AreFree w ps
      → 0 < r
      → r ≤ total_waits w ps
      → request_loop ps (pos r) slice w ≡ ok (slice ++ shares (wait_count w) ps r) w
  unfolding request_loop shares
  request_loop-shares w [] r slice free some_left enough = absurd (omega arith)
  request_loop-shares w ((_, p) ∷ ps) r slice free some_left enough =
      rw (get_wait_count-free w p free.0, ◌>>=◌)
        (rw (get_wait_count-free w p free.0, ◌>>=◌)
          (elim (Bool-cases (wait_count w p == 0)) [
            | inl none_waits ↦ rw none_waits (
                ground (
                  arith,
                  request_loop-shares w ps r slice free.1 some_left,
                  min_of_zero (wait_count w p) r,
                ))
            | inr waiting ↦ rw waiting (
                rw (get_wait_count-free w p free.0, ◌>>=◌)
                  (rw
                    (
                      min_ℤ_pos (wait_count w p) r,
                      eq_ℤ_sub r (min (wait_count w p) r) (omega arith),
                    )
                    (elim (Bool-cases (r == min (wait_count w p) r)) [
                      | inl last ↦ rw last (
                          ground (
                            arith,
                            shares-zero w ps,
                            append-nil (replicate (min (wait_count w p) r) p),
                          ))
                      | inr more ↦ rw more (
                          rw (-ℤ_pos r (min (wait_count w p) r) (omega arith)) (
                            ground (
                              arith,
                              append_assoc slice (replicate (min (wait_count w p) r) p)
                                  (shares (wait_count w) ps (r - min (wait_count w p) r)),
                              request_loop-shares w ps (r - min (wait_count w p) r)
                                  (slice ++ replicate (min (wait_count w p) r) p) free.1
                                  (ground arith) (omega arith),
                            )))
                    ])))
          ]))

  -- Where the pools have at least `n` requests waiting and no mutex of theirs is held, the
  -- choice of pools gives exactly the specified shares: `n` in all, each pool at most what it
  -- waits for, in the order of the iteration, with nothing changed but the tick.
  pub requests_served :
      (w : World env) (n : ℕ)
      → AreFree w (env.cmap_iter w.tick w.facade.pools)
      → n ≤ total_waits w (env.cmap_iter w.tick w.facade.pools)
      → let out = shares (wait_count w) (env.cmap_iter w.tick w.facade.pools) n in
        (get_conn_pools_that_have_requested_new_connections (pos n) w
          ≡ ok out (if n == 0 then w else record w { tick = suc w.tick }))
        × (length out ≡ n)
        × ((q : ℕ) → count q out ≤ count_waits w q (env.cmap_iter w.tick w.facade.pools))
  unfolding get_conn_pools_that_have_requested_new_connections
  requests_served w n free enough = (served, length-shares w _ n enough, λ q. count-shares w q _ n)
    where
      ps : List (Bytes × ℕ)
      ps = env.cmap_iter w.tick w.facade.pools

      served :
          get_conn_pools_that_have_requested_new_connections (pos n) w
          ≡ ok (shares (wait_count w) ps n) (if n == 0 then w else record w { tick = suc w.tick })
      served = elim (Bool-cases (n == 0)) [
        | inl zero_asked ↦ ground (arith, shares-zero w ps)
        | inr some_asked ↦ ground (
          arith,
          request_loop-shares (record w { tick = suc w.tick }) ps n [] free (ground arith) enough,
        )
      ]
