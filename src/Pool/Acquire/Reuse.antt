-- ===== src/Pool/Acquire/Reuse.antt =====
-- The reuse of idle connections in `conn` of conn_pool.go.
use memsql_conn_pool.Base.{
  update, update_self, ap, ◌∙◌, ◌==◌, Bool-cases, inl, inr, ℕ, suc, ==_refl, ◌≡◌, refl, sym, ◌≢◌,
  true, false, Option, none, some, [], length, delete, arith, ltb,
}
use memsql_conn_pool.Base.Int.{ℤ, pos, leb_ℤ}
use memsql_conn_pool.Conn.{expired, reset_session}
use memsql_conn_pool.Pool.Acquire.{
  ConnResult, got, cached_or_new_conn, last_of, take_idle, conn_cached, pick_idle, unless_done,
}
use memsql_conn_pool.Runtime.{Env, World, Returns, Returns->>=, pure, ◌>>=◌}

module _ {env : Env} where
  -- What is used later of the pool and of the connection is as before.
  abbrev pub SameElse : World env → ℕ → ℕ → World env → Type 0
  SameElse w p dc w' =
      ((w'.pools p).closed ≡ (w.pools p).closed)
      × ((w'.pools p).conn_requests ≡ (w.pools p).conn_requests)
      × ((w'.pools p).max_lifetime ≡ (w.pools p).max_lifetime)
      × ((w'.conns dc).conn_pool ≡ (w.conns dc).conn_pool)
      × ((w'.conns dc).ci ≡ (w.conns dc).ci)
      × ((w'.conns dc).on_put ≡ (w.conns dc).on_put)

  -- The connection `dc` was idle in the pool `p`, and is in use; the cache of idle connections
  -- still holds it.
  abbrev pub Reused : World env → ℕ → ℕ → Option ConnResult → World env → Type 0
  Reused w p dc r w' =
      (r ≡ some (got dc))
      × ((w'.pools p).free_conn ≡ delete dc (w.pools p).free_conn)
      × ((w'.conns dc).in_use ≡ true)
      × ((w'.pools p).mu ≡ false)
      × ((w'.conns dc).mu ≡ false)
      × (w'.facade ≡ w.facade)
      × SameElse w p dc w'

  -- The objects that are no pool and no connection are as before.
  abbrev pub SameRest : World env → World env → Type 0
  SameRest w w' =
      (w'.facade ≡ w.facade)
      × (w'.stmts ≡ w.stmts)
      × (w'.next_pool ≡ w.next_pool)
      × (w'.next_conn ≡ w.next_conn)
      × (w'.next_stmt ≡ w.next_stmt)
      × (w'.drivers ≡ w.drivers)
      × (w'.cleaners ≡ w.cleaners)

  -- The connection `dc` is taken from the idle ones of `p`, which is `r`, and is in use; all other
  -- fields of the pool and of the connection, and all other objects, are as before, and only the
  -- calls of the environment are counted.
  abbrev pub Taken : World env → ℕ → ℕ → Option ConnResult → World env → Type 0
  Taken w p dc r w' =
      (r ≡ some (got dc))
      × ((q : ℕ)
          → w'.pools q
            ≡ update w.pools p (let s = w.pools p in record s { free_conn = delete dc s.free_conn })
                q)
      × ((k : ℕ)
          → w'.conns k ≡ update w.conns dc (let c = w.conns dc in record c { in_use = true }) k)
      × SameRest w w'

  take_idle-Returns :
      (fuel : ℕ) (w v : World env) (p dc : ℕ) (lifetime : ℤ)
      → (w.pools p).mu ≡ false
      → ((q : ℕ) → v.pools q ≡ update w.pools p (let s = w.pools p in record s { mu = true }) q)
      → v.conns ≡ w.conns
      → SameRest w v
      → (w.conns dc).mu ≡ false
      → (w.conns dc).need_reset ≡ false
      → leb_ℤ lifetime (pos 0) ≡ true
      → Returns (take_idle fuel p dc lifetime v) λ r w'. Taken w p dc (some r) w'
  unfolding take_idle expired reset_session
  take_idle-Returns fuel w v p dc lifetime unlocked pools conns rest free fresh unlimited =
      let at_p : v.pools p ≡ (let s = w.pools p in record s { mu = true }) =
        pools p ∙ rw (==_refl p) refl in
      rw (unlimited, ◌>>=◌, Returns)
        (rw (==_refl p, at_p, ◌>>=◌, Returns)
          (rw (==_refl dc, conns, ◌>>=◌, Returns)
            (rw (free, ◌>>=◌, Returns)
              (rw (==_refl dc, fresh, Returns)
                (rw (==_refl dc, ◌>>=◌, Returns)
                  (refl, (λ q. at_pool q), (λ k. at_conn k), rest))))))
    where
      same_pool :
          (let s = w.pools p in record s { mu = false; free_conn = delete dc s.free_conn })
          ≡ (let s = w.pools p in record s { free_conn = delete dc s.free_conn })
      same_pool = λ i.
          (let s = w.pools p in record s { mu = sym unlocked i; free_conn = delete dc s.free_conn })

      at_pool :
          (q : ℕ)
          → update
              (update v.pools p
                (let s = w.pools p in record s { mu = true; free_conn = delete dc s.free_conn }))
              p
              (let s = w.pools p in record s { mu = false; free_conn = delete dc s.free_conn })
              q
            ≡ update w.pools p
                (let s = w.pools p in record s { free_conn = delete dc s.free_conn })
                q
      at_pool q = elim (Bool-cases (p == q)) [
        | inl e ↦ rw e same_pool
        | inr e ↦ rw e (pools q ∙ rw e refl)
      ]

      at_conn :
          (k : ℕ)
          → update
              (update
                (update w.conns dc (
                  let c = w.conns dc in record c { mu = false; need_reset = false; in_use = true }))
                dc
                (let c = w.conns dc in record c { mu = true; need_reset = false; in_use = true }))
              dc
              (let c = w.conns dc in record c { mu = false; need_reset = false; in_use = true })
              k
            ≡ update w.conns dc
                (let c = w.conns dc in record c { mu = false; need_reset = false; in_use = true })
                k
      at_conn k = elim (Bool-cases (dc == k)) [ inl e ↦ rw e refl | inr e ↦ rw e refl ]

  -- On an open pool with an idle connection and no limit on the age of connections, while the
  -- context goes on and the mutexes are free, `conn` gives the connection that the iteration
  -- gives last, if its session needs no reset: it is idle no more and in use, and all other
  -- fields of the pool and of the connection, all other pools and connections, and the facade
  -- with its cache, the driver's statements, the registry and the cleaners are as before.
  pub conn_cached-reuses :
      (fuel ctx : ℕ) (w : World env) (p dc : ℕ)
      → (w.pools p).mu ≡ false
      → (w.pools p).closed ≡ false
      → (w.pools p).free_conn ≢ []
      → leb_ℤ (w.pools p).max_lifetime (pos 0) ≡ true
      → env.ctx_done w.tick ctx ≡ none
      → last_of (env.range (suc w.tick) (w.pools p).free_conn) ≡ some dc
      → (w.conns dc).mu ≡ false
      → (w.conns dc).need_reset ≡ false
      → Returns (conn_cached fuel ctx cached_or_new_conn p w) (Taken w p dc)
  unfolding conn_cached pick_idle unless_done
  conn_cached-reuses fuel ctx w p dc unlocked still_open some_idle unlimited going picked free
        fresh =
      let some_free : ltb 0 (length (w.pools p).free_conn) ≡ true = ground arith in
      rw (unlocked, Returns, ◌>>=◌)
        (rw (==_refl p) (
          rw (still_open, Returns)
            (rw (going, Returns)
              (rw (some_free) (
                rw (picked, Returns)
                  (Returns->>= (λ r w'. Taken w p dc (some r) w') (Taken w p dc)
                    (take_idle fuel p dc (w.pools p).max_lifetime) (λ r. pure (some r)) _
                    (take_idle-Returns fuel w _ p dc _ unlocked (λ q. locked q) refl
                      (refl, refl, refl, refl, refl, refl, refl) free fresh unlimited)
                    λ r w' h. h))))))
    where
      locked :
          (q : ℕ)
          → update w.pools p (let s = w.pools p in record s { mu = true; closed = false }) q
            ≡ update w.pools p (let s = w.pools p in record s { mu = true }) q
      locked q =
          ap (λ b. update w.pools p (let s = w.pools p in record s { mu = true; closed = b }) q)
            (sym still_open)

  -- What is needed of it where the connection is used.
  pub taken-Reused :
      (w : World env) (p dc : ℕ) (r : Option ConnResult) (w' : World env)
      → (w.pools p).mu ≡ false
      → (w.conns dc).mu ≡ false
      → Taken w p dc r w'
      → Reused w p dc r w'
  taken-Reused w p dc r w' unlocked free (is_got, pools, conns, rest) =
      let at_p : w'.pools p
          ≡ (let s = w.pools p in record s { free_conn = delete dc s.free_conn }) =
        pools p ∙ update_self w.pools p _ in
      let at_dc : w'.conns dc ≡ (let c = w.conns dc in record c { in_use = true }) =
        conns dc ∙ update_self w.conns dc _ in
      (
        is_got,
        ap (λ s. s.free_conn) at_p,
        ap (λ c. c.in_use) at_dc,
        ap (λ s. s.mu) at_p ∙ unlocked,
        ap (λ c. c.mu) at_dc ∙ free,
        rest.0,
        (
          ap (λ s. s.closed) at_p,
          ap (λ s. s.conn_requests) at_p,
          ap (λ s. s.max_lifetime) at_p,
          ap (λ c. c.conn_pool) at_dc,
          ap (λ c. c.ci) at_dc,
          ap (λ c. c.on_put) at_dc,
        ),
      )
