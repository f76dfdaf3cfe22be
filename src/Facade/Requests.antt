-- ===== src/Facade/Requests.antt =====
-- `getConnPoolsThatHaveRequestedNewConnections` of conn_pool_facade.go: which pools get the
-- connections that may be opened.
use memsql_conn_pool.Base.{
  ℕ, ◌==◌, ◌+◌, if◌then◌else◌, Bool, List, [], ◌∷◌, ◌++◌, length, replicate,
}
use memsql_conn_pool.Base.Int.{ℤ, pos, ◌-ℤ◌, ltb_ℤ, pos_part, neg_part, rounds}
use memsql_conn_pool.Runtime.{
  Env, Bytes, M, ◌>>=◌, ◌>>◌, pure, panic, gets, ask, lock_pool, unlock_pool, bad_idle_count,
}

-- `min` of conn_pool_facade.go.
abbrev pub min_ℤ : ℤ → ℤ → ℤ
min_ℤ a b = if ltb_ℤ a b then a else b

abbrev pub eq_ℤ : ℤ → ℤ → Bool
eq_ℤ a b = pos_part a + neg_part b == pos_part b + neg_part a

module _ {env : Env} where
  -- `ConnPool.getWaitCount` of conn_pool.go.
  unfoldable pub get_wait_count : ℕ → M env ℕ
  get_wait_count p = do
    lock_pool p
    result ← gets (λ w. length (w.pools p).conn_requests)
    unlock_pool p
    pure result

  -- The loop over the pools; the first call of `getWaitCount` in each round is the one that is
  -- logged.
  unfoldable pub request_loop : List (Bytes × ℕ) → ℤ → List ℕ → M env (List ℕ)
  request_loop [] remaining slice = panic bad_idle_count
  request_loop ((_, p) ∷ ps) remaining slice = do
    _ ← get_wait_count p
    n ← get_wait_count p
    if n == 0 then request_loop ps remaining slice else (do
      n' ← get_wait_count p
      let num = min_ℤ (pos n') remaining
      let slice' = slice ++ replicate (rounds num) p
      let remaining' = remaining -ℤ num
      if eq_ℤ remaining' (pos 0) then pure slice' else request_loop ps remaining' slice')

  unfoldable pub get_conn_pools_that_have_requested_new_connections : ℤ → M env (List ℕ)
  get_conn_pools_that_have_requested_new_connections n = if eq_ℤ n (pos 0) then pure [] else (do
    m ← gets (λ w. w.facade.pools)
    ps ← ask (λ t. env.cmap_iter t m)
    request_loop ps n [])
