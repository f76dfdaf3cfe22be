-- ===== src/Closing/Eviction.antt =====
-- What eviction of idle connections does: conn_pool_facade_lru.go with driver_conn.go.
use memsql_conn_pool.Base.{
  ℕ, suc, ◌≤◌, ◌≡◌, refl, sym, subst, not, is_some, ◌≢◌, ◌⊎◌, inl, inr, Bool, true, false, List, [],
  ◌∷◌, count, contains, arith,
}
use memsql_conn_pool.Closing.{
  begin_close, close, evict, close_lru_idle_connections_locked_with,
  close_lru_idle_connections_locked,
}
use memsql_conn_pool.Facade.Lru.{remove_conn_from_lru, remove_conn_from_free}
use memsql_conn_pool.Runtime.{
  Env, LruLaws, World, Outcome, ok, panics, blocks, no_fuel, lru_missing, conn_mu, pool_mu,
  not_free, close_failed, when, panic, ◌>>◌, ◌>>=◌,
}

contains-of-count : (k : ℕ) (ks : List ℕ) → count k ks ≡ 0 → contains k ks ≡ false
contains-of-count k [] h = refl
contains-of-count k (x ∷ ks) h = ground (arith, contains-of-count k ks)

-- The goroutine panics or waits for ever: it neither returns nor runs out of fuel.
abbrev pub Halted : {env : Env} {A : Type 0} → Outcome env A → Type 0
Halted (ok _ _) = ⊥
Halted (panics _) = Unit
Halted (blocks _) = Unit
Halted no_fuel = ⊥

module _ {env : Env} (laws : LruLaws env) where
  -- `Close` of a connection that the cache does not hold gets no further than the cache.
  begin_close_missing :
      (w : World env) (dc : ℕ)
      → contains dc (env.lru_keys w.facade.lru_cache) ≡ false
      → (begin_close dc w ≡ blocks (conn_mu dc)) ⊎ (begin_close dc w ≡ panics lru_missing)
  unfolding begin_close remove_conn_from_lru
  begin_close_missing w dc absent = ground (arith, laws.present_remove dc w.facade.lru_cache)

  close_missing :
      (fuel : ℕ) (w : World env) (dc : ℕ)
      → contains dc (env.lru_keys w.facade.lru_cache) ≡ false
      → (close (suc fuel) dc w ≡ blocks (conn_mu dc)) ⊎ (close (suc fuel) dc w ≡ panics lru_missing)
  unfolding close
  close_missing fuel w dc absent = elim (begin_close_missing w dc absent) [
    | inl waits ↦ inl (rw (waits, ◌>>=◌))
    | inr fails ↦ inr (rw (fails, ◌>>=◌))
  ]

  abbrev FreeCases : World env → ℕ → ℕ → Type 0
  FreeCases w p dc =
      ((b : Bool) × (w' : World env) × (remove_conn_from_free p dc w ≡ ok b w')
        × (w'.facade ≡ w.facade))
      ⊎ (remove_conn_from_free p dc w ≡ blocks (pool_mu p))

  remove_conn_from_free-cases : (w : World env) (p dc : ℕ) → FreeCases w p dc
  unfolding remove_conn_from_free
  remove_conn_from_free-cases w p dc = go (remove_conn_from_free p dc w) refl
    where
      go : (o : Outcome env Bool) → remove_conn_from_free p dc w ≡ o → FreeCases w p dc
      go (ok b w') e = inl (b, w', e, ground arith)
      go (panics x) e = absurd (ground arith)
      go (blocks x) e = ground arith
      go no_fuel e = absurd (ground arith)

  evict-halts :
      (fuel : ℕ) (w : World env) (dc : ℕ) (cache : env.Lru)
      → contains dc (env.lru_keys cache) ≡ false
      → Halted (evict (close (suc fuel)) dc cache w)
  unfolding evict
  evict-halts fuel w dc cache absent = elim (remove_conn_from_free-cases w₁ p dc) [
    | inl (b, w', e, same) ↦
        rw (e, ◌>>=◌)
          (closing b w'
            (subst (λ f. contains dc (env.lru_keys f.lru_cache) ≡ false) (sym same) absent))
    | inr e ↦ rw (e, ◌>>=◌) tt
  ]
    where
      w₁ : World env
      w₁ = let f = w.facade in record w { facade = record f { lru_cache = cache } }

      p : ℕ
      p = (w.conns dc).conn_pool

      closing :
          (b : Bool) (w' : World env)
          → contains dc (env.lru_keys w'.facade.lru_cache) ≡ false
          → Halted (
              (when (not b) (panic not_free) >>= λ _.
              close (suc fuel) dc >>= λ e. when (is_some e) (panic close_failed))
                w')
      closing false w' missing = tt
      closing true w' missing = elim (close_missing fuel w' dc missing) [
        | inl e ↦ rw (e, ◌>>=◌) tt
        | inr e ↦ rw (e, ◌>>=◌) tt
      ]

  pub close_lru_with-halts :
      (fuel n : ℕ) (w : World env)
      → env.lru_keys w.facade.lru_cache ≢ []
      → Halted (close_lru_idle_connections_locked_with (close (suc fuel)) (suc n) w)
  unfolding close_lru_idle_connections_locked_with
  close_lru_with-halts fuel n w some_idle = go (env.lru_keys w.facade.lru_cache) refl
    where
      then_loop :
          (o : Outcome env (Unit {0}))
          → Halted o
          → (dc : ℕ) (cache : env.Lru) → evict (close (suc fuel)) dc cache w ≡ o
          → Halted (
              (evict (close (suc fuel)) dc cache
                  >> close_lru_idle_connections_locked_with (close (suc fuel)) n)
                w)
      then_loop (ok _ _) h dc cache e = absurd h
      then_loop (panics _) h dc cache e = rw (e, ◌>>=◌) tt
      then_loop (blocks _) h dc cache e = rw (e, ◌>>=◌) tt
      then_loop no_fuel h dc cache e = absurd h

      go :
          (ks : List ℕ)
          → env.lru_keys w.facade.lru_cache ≡ ks
          → Halted (close_lru_idle_connections_locked_with (close (suc fuel)) (suc n) w)
      go [] e = absurd (some_idle e)
      go (k ∷ ks) e =
          let (c', oldest, rest) = laws.oldest_some w.facade.lru_cache k ks e in
          let once : count k (k ∷ ks) ≤ 1 = rw e at (laws.keys_once k w.facade.lru_cache) in
          let absent : contains k (env.lru_keys c') ≡ false =
            rw rest (contains-of-count k ks (ground arith)) in
          rw (oldest, Halted) (then_loop _ (evict-halts fuel w k c' absent) k c' refl)

  -- The eviction of one or more connections from a cache that is not empty never returns, since
  -- `Close` finds its connection gone from the cache: it panics, or waits for a mutex for ever.
  pub close_lru-halts :
      (fuel n : ℕ) (w : World env)
      → env.lru_keys w.facade.lru_cache ≢ []
      → Halted (close_lru_idle_connections_locked (suc fuel) (suc n) w)
  unfolding close_lru_idle_connections_locked
  close_lru-halts fuel n w some_idle = close_lru_with-halts fuel n w some_idle
