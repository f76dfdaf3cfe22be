-- ===== src/Pool/Put/Idle.antt =====
-- A connection that is released without an error: `putConn` of conn_pool_put.go and `releaseConn`
-- of driver_conn.go.
use memsql_conn_pool.Base.{
  ℕ, ◌≡◌, refl, sym, ap, ◌∙◌, subst, update_self, ==_refl, true, false, none, some, [], ◌∷◌,
  contains, arith,
}
use memsql_conn_pool.Base.Int.{pos, leb_ℤ}
use memsql_conn_pool.Conn.{validate_connection, expired}
use memsql_conn_pool.Pool.Put.{
  release_conn, put_conn, validated, too_old, mark_returned, finish_put, put_locking,
  put_connection_conn_pool_locked,
}
use memsql_conn_pool.Pool.Put.Handover.{Saved, put_connection-saves}
use memsql_conn_pool.Runtime.{
  Env, World, ok, put_pool, for_each, Returns, Returns->>=, Returns-mono, ◌>>=◌,
}

module _ {env : Env} where
  -- The connection is idle again, and the mutexes are free.
  abbrev pub IsIdleAgain : World env → ℕ → ℕ → World env → Type 0
  IsIdleAgain w p dc w' =
      ((w'.pools p).free_conn ≡ dc ∷ (w.pools p).free_conn)
      × ((w'.conns dc).in_use ≡ false)
      × ((w'.pools p).mu ≡ false)
      × ((w'.conns dc).mu ≡ false)

  -- What a connection that is released needs to become idle.
  pub record CanBeIdle (w : World env) (p dc ci : ℕ) : Type 0 where
    pub pool_of : (w.conns dc).conn_pool ≡ p
    pub conn_free : (w.conns dc).mu ≡ false
    pub used : (w.conns dc).in_use ≡ true
    pub has_ci : (w.conns dc).ci ≡ some ci
    pub nothing_put_off : (w.conns dc).on_put ≡ []
    pub pool_free : (w.pools p).mu ≡ false
    pub still_open : (w.pools p).closed ≡ false
    pub none_waits : (w.pools p).conn_requests ≡ []
    pub unlimited : leb_ℤ (w.pools p).max_lifetime (pos 0) ≡ true
    pub absent : contains dc (w.pools p).free_conn ≡ false
    pub room : (env.lru_add dc w.facade.lru_cache).1 ≡ false

  validated-Returns :
      (w : World env) (p dc ci : ℕ)
      → CanBeIdle w p dc ci
      → env.is_validator ci ≡ false
      → Returns (validated dc none true w) λ e w₁.
        (e ≡ none)
        × (w₁.pools ≡ w.pools)
        × (w₁.facade ≡ w.facade)
        × ((w₁.conns dc).mu ≡ false)
        × ((w₁.conns dc).in_use ≡ true)
        × ((w₁.conns dc).on_put ≡ [])
  unfolding validated validate_connection
  validated-Returns w p dc ci h plain =
      ground (arith, h.conn_free, h.has_ci, h.used, h.nothing_put_off)

  mark_returned-Returns :
      (w : World env) (dc : ℕ)
      → (w.conns dc).on_put ≡ []
      → Returns (mark_returned dc w) λ _ w₁.
        (w₁.pools ≡ w.pools)
        × (w₁.facade ≡ w.facade)
        × ((w₁.conns dc).mu ≡ (w.conns dc).mu)
        × ((w₁.conns dc).in_use ≡ false)
  unfolding mark_returned for_each
  mark_returned-Returns w dc none_left =
      rw (==_refl dc, none_left, Returns) (refl, refl, rw (==_refl dc) refl, rw (==_refl dc) refl)

  -- With the pool's mutex held.
  finish_put-Returns :
      (fuel : ℕ) (w : World env) (p dc : ℕ)
      → (w.pools p).mu ≡ true
      → (w.pools p).closed ≡ false
      → (w.pools p).conn_requests ≡ []
      → contains dc (w.pools p).free_conn ≡ false
      → (env.lru_add dc w.facade.lru_cache).1 ≡ false
      → Returns (finish_put fuel p dc none w) λ _ w₁.
        ((w₁.pools p).free_conn ≡ dc ∷ (w.pools p).free_conn)
        × ((w₁.pools p).mu ≡ false)
        × (w₁.conns ≡ w.conns)
  unfolding finish_put
  finish_put-Returns fuel w p dc held still_open none_waits absent room =
      Returns->>= (Saved w p dc) _ (put_connection_conn_pool_locked p (some dc) none) _ w
        (put_connection-saves w p dc still_open none_waits absent room)
        λ added w₁ (yes_added, idle, cached, same, mu).
          let held₁ : (w₁.pools p).mu ≡ true = mu ∙ held in
          ground (arith, held₁, yes_added, idle, same)

  too_old-Returns :
      (w : World env) (p dc : ℕ)
      → leb_ℤ (w.pools p).max_lifetime (pos 0) ≡ true
      → too_old p dc none w ≡ ok none w
  unfolding too_old expired
  too_old-Returns w p dc unlimited = rw (unlimited, ◌>>=◌) refl

  put_locking-Returns :
      (fuel : ℕ) (w : World env) (p dc : ℕ)
      → (w.pools p).mu ≡ false
      → (w.pools p).closed ≡ false
      → (w.pools p).conn_requests ≡ []
      → leb_ℤ (w.pools p).max_lifetime (pos 0) ≡ true
      → contains dc (w.pools p).free_conn ≡ false
      → (env.lru_add dc w.facade.lru_cache).1 ≡ false
      → (w.conns dc).mu ≡ false
      → (w.conns dc).in_use ≡ true
      → (w.conns dc).on_put ≡ []
      → Returns (put_locking fuel p dc none w) (λ _ w'. IsIdleAgain w p dc w')
  unfolding put_locking
  put_locking-Returns fuel w p dc free still_open none_waits unlimited absent room conn_free used
        none_left =
      let w₁ : World env = put_pool w p (record (w.pools p) { mu = true }) in
      rw (free, ◌>>=◌, Returns)
        (rw (used, ◌>>=◌, Returns)
          (rw (too_old-Returns w₁ p dc (rw (==_refl p) unlimited), ◌>>=◌, Returns)
            (Returns->>= _ _ (mark_returned dc) _ w₁ (mark_returned-Returns w₁ dc none_left)
              λ _ w₂ (same, facade, mu, unused).
                let at_p : w₂.pools p ≡ record (w.pools p) { mu = true } =
                  ap (λ f. f p) same ∙ update_self w.pools p _ in
                Returns-mono (finish_put fuel p dc none w₂)
                  (finish_put-Returns fuel w₂ p dc (ap (λ s. s.mu) at_p)
                    (ap (λ s. s.closed) at_p ∙ still_open)
                    (ap (λ s. s.conn_requests) at_p ∙ none_waits)
                    (ap (λ s. contains dc s.free_conn) at_p ∙ absent)
                    (ap (λ f. (env.lru_add dc f.lru_cache).1) facade ∙ room))
                  λ _ w₃ _ (idle, unlocked, conns). (
                    idle ∙ ap (λ s. dc ∷ s.free_conn) at_p,
                    ap (λ f. (f dc).in_use) conns ∙ unused,
                    unlocked,
                    ap (λ f. (f dc).mu) conns ∙ mu ∙ conn_free,
                  ))))

  pub release_conn-idles :
      (fuel : ℕ) (w : World env) (p dc ci : ℕ)
      → CanBeIdle w p dc ci
      → env.is_validator ci ≡ false
      → Returns (release_conn fuel dc none w) (λ _ w'. IsIdleAgain w p dc w')
  unfolding release_conn put_conn
  release_conn-idles fuel w p dc ci h plain = rw h.pool_of (
      Returns->>= _ _ (validated dc none true) _ w (validated-Returns w p dc ci h plain)
        λ e w₁ (fine, same, facade, mu, used, none_left).
          let at_p : w₁.pools p ≡ w.pools p = ap (λ f. f p) same in
          subst (λ x. Returns (put_locking fuel p dc x w₁) (λ _ w'. IsIdleAgain w p dc w'))
            (sym fine)
            (Returns-mono (put_locking fuel p dc none w₁)
              (put_locking-Returns fuel w₁ p dc (ap (λ s. s.mu) at_p ∙ h.pool_free)
                (ap (λ s. s.closed) at_p ∙ h.still_open)
                (ap (λ s. s.conn_requests) at_p ∙ h.none_waits)
                (ap (λ s. leb_ℤ s.max_lifetime (pos 0)) at_p ∙ h.unlimited)
                (ap (λ s. contains dc s.free_conn) at_p ∙ h.absent)
                (ap (λ f. (env.lru_add dc f.lru_cache).1) facade ∙ h.room) mu used none_left)
              λ _ w₂ _ (idle, unused, unlocked, conn_mu).
                (idle ∙ ap (λ s. dc ∷ s.free_conn) at_p, unused, unlocked, conn_mu)))
