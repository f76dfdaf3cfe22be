-- ===== src/Facade/Lru.antt =====
-- conn_pool_facade_lru.go: the cache of idle connections, but for `closeLruIdleConnectionsLocked`,
-- which is in module Closing.
use memsql_conn_pool.Base.{ℕ, if◌then◌else◌, Bool, contains, delete}
use memsql_conn_pool.Runtime.{
  Env, M, ◌>>=◌, ◌>>◌, pure, panic, gets, set_facade, set_pool, lock_pool, unlock_pool, lru_missing,
  lru_evicted,
}

module _ {env : Env} where
  unfoldable pub remove_conn_from_lru : ℕ → M env (Unit {0})
  remove_conn_from_lru dc = do
    c ← gets (λ w. w.facade.lru_cache)
    set_facade (λ f. record f { lru_cache = (env.lru_remove dc c).0 })
    if (env.lru_remove dc c).1 then pure tt else panic lru_missing

  unfoldable pub put_conn_to_lru : ℕ → M env (Unit {0})
  put_conn_to_lru dc = do
    c ← gets (λ w. w.facade.lru_cache)
    set_facade (λ f. record f { lru_cache = (env.lru_add dc c).0 })
    if (env.lru_add dc c).1 then panic lru_evicted else pure tt

  -- `ConnPool.removeConnFromFree` of conn_pool.go.
  unfoldable pub remove_conn_from_free : ℕ → ℕ → M env Bool
  remove_conn_from_free p dc = do
    lock_pool p
    free ← gets (λ w. (w.pools p).free_conn)
    set_pool p (λ s. record s { free_conn = delete dc free })
    unlock_pool p
    pure (contains dc free)
