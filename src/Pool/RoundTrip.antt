-- ===== src/Pool/RoundTrip.antt =====
-- A connection that is taken from the idle ones and given back: `conn` of conn_pool.go, `putConn`
-- of conn_pool_put.go and `releaseConn` of driver_conn.go.
use memsql_conn_pool.Base.{
  ℕ, suc, ◌<◌, ◌≤◌, ◌≡◌, ap, ◌∙◌, true, false, Option, none, some, List, [], ◌∷◌, count, delete,
  contains, arith, contains-delete_self, count-delete,
}
use memsql_conn_pool.Base.Int.{pos, leb_ℤ}
use memsql_conn_pool.Pool.Acquire.{ConnResult, cached_or_new_conn, last_of, conn_cached}
use memsql_conn_pool.Pool.Acquire.Reuse.{Reused, conn_cached-reuses, taken-Reused}
use memsql_conn_pool.Pool.Put.{release_conn}
use memsql_conn_pool.Pool.Put.Idle.{release_conn-idles}
use memsql_conn_pool.Runtime.{Env, RangeLaws, World, Returns, Returns->>=, Returns-mono, ◌>>=◌}

count-last_of : (xs : List ℕ) (k : ℕ) → last_of xs ≡ some k → 0 < count k xs
unfolding last_of
count-last_of [] k h = absurd (ground arith)
count-last_of (x ∷ xs) k h = ground (arith, count-last_of xs k)

module _ {env : Env} where
  -- The idle connections are the same, in whatever order, `dc` is not in use, and the mutexes are
  -- free.
  abbrev pub IsRestored : World env → ℕ → ℕ → World env → Type 0
  IsRestored w p dc w' =
      ((k : ℕ) → count k (w'.pools p).free_conn ≡ count k (w.pools p).free_conn)
      × ((w'.conns dc).in_use ≡ false)
      × ((w'.pools p).mu ≡ false)
      × ((w'.conns dc).mu ≡ false)

  -- The pool is open, no request waits and no age limit is set; its idle connection `dc` is the
  -- one that `conn` takes, and needs no reset and no check; the mutexes are free.
  pub record IsReady (w : World env) (p dc ci ctx : ℕ) : Type 0 where
    pub pool_free : (w.pools p).mu ≡ false
    pub still_open : (w.pools p).closed ≡ false
    pub once : (k : ℕ) → count k (w.pools p).free_conn ≤ 1
    pub none_waits : (w.pools p).conn_requests ≡ []
    pub unlimited : leb_ℤ (w.pools p).max_lifetime (pos 0) ≡ true
    pub going : env.ctx_done w.tick ctx ≡ none
    pub picked : last_of (env.range (suc w.tick) (w.pools p).free_conn) ≡ some dc
    pub conn_free : (w.conns dc).mu ≡ false
    pub fresh : (w.conns dc).need_reset ≡ false
    pub pool_of : (w.conns dc).conn_pool ≡ p
    pub has_ci : (w.conns dc).ci ≡ some ci
    pub nothing_put_off : (w.conns dc).on_put ≡ []
    pub plain : env.is_validator ci ≡ false
    pub room : (env.lru_add dc w.facade.lru_cache).1 ≡ false

  module _ (laws : RangeLaws env) {w : World env} {p dc ci ctx : ℕ}
      (h : IsReady w p dc ci ctx) where
    is_idle : 0 < count dc (w.pools p).free_conn
    is_idle = omega (
      arith,
      count-last_of (env.range (suc w.tick) (w.pools p).free_conn) dc h.picked,
      laws.each_once (suc w.tick) dc (w.pools p).free_conn,
    )

    restored :
        (k : ℕ) (l : List ℕ)
        → l ≡ dc ∷ delete dc (w.pools p).free_conn
        → count k l ≡ count k (w.pools p).free_conn
    restored k l e =
        ground (arith, ap (count k) e, count-delete k dc (w.pools p).free_conn, h.once dc, is_idle)

    pub ready-Reused :
        (fuel : ℕ) → Returns (conn_cached fuel ctx cached_or_new_conn p w) (Reused w p dc)
    ready-Reused fuel =
        Returns-mono (conn_cached fuel ctx cached_or_new_conn p w)
          (conn_cached-reuses fuel ctx w p dc h.pool_free h.still_open
            (λ none_idle. absurd (ground (arith, ap (count dc) none_idle, is_idle))) h.unlimited
            h.going h.picked h.conn_free h.fresh)
          λ r w' _. taken-Reused w p dc r w' h.pool_free h.conn_free

    pub reused-IsRestored :
        (fuel : ℕ) (r : Option ConnResult) (w₁ : World env)
        → Reused w p dc r w₁
        → Returns (release_conn fuel dc none w₁) (λ _ w'. IsRestored w p dc w')
    reused-IsRestored fuel r w₁
          (_, idle, used, mu, conn_mu, facade, (closed, requests, lifetime, pool, same_ci, put)) =
        Returns-mono (release_conn fuel dc none w₁)
          (release_conn-idles fuel w₁ p dc ci
            (record {
              pool_of = pool ∙ h.pool_of;
              conn_free = conn_mu;
              used = used;
              has_ci = same_ci ∙ h.has_ci;
              nothing_put_off = put ∙ h.nothing_put_off;
              pool_free = mu;
              still_open = closed ∙ h.still_open;
              none_waits = requests ∙ h.none_waits;
              unlimited = ap (λ l. leb_ℤ l (pos 0)) lifetime ∙ h.unlimited;
              absent = ap (contains dc) idle ∙ contains-delete_self dc (w.pools p).free_conn;
              room = ap (λ f. (env.lru_add dc f.lru_cache).1) facade ∙ h.room;
            })
            h.plain)
          λ _ w₂ _ (back, unused, mu₂, conn_mu₂).
            (λ k. restored k _ (back ∙ ap (λ l. dc ∷ l) idle), unused, mu₂, conn_mu₂)

    -- A connection of an open pool that `conn` takes from the idle ones, and that is released
    -- without an error, is idle again, and so are all that were: both calls return, if the
    -- connection can be reused without a reset or a check, no age limit is set, no request
    -- waits, the cache takes it without evicting another, the mutexes are free, each idle
    -- connection is there once, and Go's iteration over a map gives each key once.
    pub conn_cached-released :
        (fuel : ℕ)
        → Returns
            ((conn_cached fuel ctx cached_or_new_conn p >>= λ _. release_conn fuel dc none) w)
            (λ _ w'. IsRestored w p dc w')
    conn_cached-released fuel =
        Returns->>= (Reused w p dc) _ (conn_cached fuel ctx cached_or_new_conn p) _ w
          (ready-Reused fuel) (reused-IsRestored fuel)
