-- ===== src/Pool/Put.antt =====
-- conn_pool_put.go: a connection comes back, to a waiting request, to the idle connections, or to
-- be closed. `putConnHook` and the stack traces of `lastPut` are for tests and debugging.
pub mod Handover
pub mod Idle
use memsql_conn_pool.Base.{
  ℕ, suc, ◌+◌, ◌<◌, if◌then◌else◌, Bool, true, false, ◌&&◌, not, Option, none, some, List, [], ◌∷◌,
  length, delete, contains, update, ltb, is_some,
}
use memsql_conn_pool.Base.Int.{ℤ}
use memsql_conn_pool.Closing.{close, maybe_open_new_connections}
use memsql_conn_pool.Conn.{close_stmt, expired, validate_connection}
use memsql_conn_pool.Facade.Lru.{put_conn_to_lru}
use memsql_conn_pool.Pool.Cleaner.{start_cleaner_locked}
use memsql_conn_pool.Runtime.{
  Env, Err, bad_conn, is_bad_conn, World, ConnPool, ConnCreationResponse, M, ◌>>=◌, ◌>>◌, pure,
  panic, gets, ask, when, for_each, set_pool, set_conn, lock_pool, unlock_pool, already_free,
  never_out, return_to_nil, request_nil, nil_pointer,
}

module _ {env : Env} where
  unfoldable pub try_to_save_connection_as_idle_locked : ℕ → ℕ → M env Bool
  try_to_save_connection_as_idle_locked p dc = do
    put_conn_to_lru dc
    free ← gets (λ w. (w.pools p).free_conn)
    if contains dc free then panic already_free else (do
      set_pool p (λ s. record s { free_conn = dc ∷ free })
      start_cleaner_locked p
      pure true)

  unfoldable pub mark_in_use : Option ℕ → Option Err → M env (Unit {0})
  mark_in_use dc (some e) = pure tt
  mark_in_use none none = panic nil_pointer
  mark_in_use (some c) none = set_conn c (λ x. record x { in_use = true })

  -- The request is the first that Go's iteration gives.
  unfoldable pub serve : ℕ → Option ℕ → Option Err → List ℕ → M env Bool
  unfolding mark_in_use
  serve p dc err [] = panic request_nil
  serve p dc err (key ∷ _) = do
    set_pool p (λ s. record s { conn_requests = delete key s.conn_requests })
    mark_in_use dc err
    set_pool p (λ s. record s {
      responses = update s.responses key (some (record { conn = dc; err = err }));
    })
    pure true

  unfoldable pub return_connection_on_request_locked : ℕ → Option ℕ → Option Err → M env Bool
  unfolding serve
  return_connection_on_request_locked p dc err = do
    held ← gets (λ w. (w.pools p).conn_requests)
    when (not (ltb 0 (length held))) (panic return_to_nil)
    order ← ask (λ t. env.range t held)
    serve p dc err order

  unfoldable pub save_idle : ℕ → Option ℕ → Option Err → M env Bool
  unfolding try_to_save_connection_as_idle_locked
  save_idle p dc (some e) = pure false
  save_idle p none none = panic nil_pointer
  save_idle p (some c) none = try_to_save_connection_as_idle_locked p c

  unfoldable pub put_connection_conn_pool_locked : ℕ → Option ℕ → Option Err → M env Bool
  unfolding return_connection_on_request_locked save_idle
  put_connection_conn_pool_locked p dc err = do
    s ← gets (λ w. w.pools p)
    if s.closed
        then pure false
        else if ltb 0 (length s.conn_requests)
        then return_connection_on_request_locked p dc err
        else save_idle p dc err

  -- `validateConnection`, where the error is not already `ErrBadConn`.
  unfoldable pub validated : ℕ → Option Err → Bool → M env (Option Err)
  validated dc err reset =
      if is_bad_conn err
      then pure err
      else (do valid ← validate_connection dc reset; pure (if valid then err else some bad_conn))

  unfoldable pub too_old : ℕ → ℕ → Option Err → M env (Option Err)
  too_old p dc err = if is_bad_conn err then pure err else (do
    old ← (gets (λ w. (w.pools p).max_lifetime) >>= λ l. expired dc l)
    if old
        then (set_pool p (λ s. record s { max_lifetime_closed = s.max_lifetime_closed + 1 })
            >> pure (some bad_conn))
        else pure err)

  -- The end of `putConn`, with the pool's mutex held.
  unfoldable pub finish_put : ℕ → ℕ → ℕ → Option Err → M env (Unit {0})
  finish_put fuel p dc err =
      if is_bad_conn err
      then (do maybe_open_new_connections fuel; unlock_pool p; _ ← close fuel dc; pure tt)
      else (do
        added ← put_connection_conn_pool_locked p (some dc) none
        unlock_pool p
        when (not added) (close fuel dc >>= λ _. pure tt))

  -- The connection is in nobody's use, and what was put off until then is done.
  unfoldable pub mark_returned : ℕ → M env (Unit {0})
  mark_returned dc = do
    now ← ask env.now
    set_conn dc (λ c. record c { in_use = false; returned_at = now })
    fns ← gets (λ w. (w.conns dc).on_put)
    for_each (λ ds. close_stmt ds >>= λ _. pure tt) fns
    set_conn dc (λ c. record c { on_put = [] })

  -- `putConn` from its lock on.
  unfoldable pub put_locking : ℕ → ℕ → ℕ → Option Err → M env (Unit {0})
  unfolding too_old mark_returned finish_put
  put_locking fuel p dc err = do
    lock_pool p
    used ← gets (λ w. (w.conns dc).in_use)
    when (not used) (unlock_pool p >> panic never_out)
    err' ← too_old p dc err
    mark_returned dc
    finish_put fuel p dc err'

  unfoldable pub put_conn : ℕ → ℕ → ℕ → Option Err → Bool → M env (Unit {0})
  unfolding validated put_locking
  put_conn fuel p dc err reset = do err' ← validated dc err reset; put_locking fuel p dc err'

  -- `driverConn.releaseConn`.
  unfoldable pub release_conn : ℕ → ℕ → Option Err → M env (Unit {0})
  unfolding put_conn
  release_conn fuel dc err = do p ← gets (λ w. (w.conns dc).conn_pool); put_conn fuel p dc err true
