-- ===== src/Pool/Waiting.antt =====
-- `conn` of conn_pool.go as a whole, and the wait for a connection. While a goroutine waits, the
-- others run: `others` is what they do to the objects, and the outcome of the wait is read from
-- what they leave.
use memsql_conn_pool.Base.{
  ℕ, ◌+◌, if◌then◌else◌, Bool, false, Option, none, some, ◌∷◌, delete, update,
}
use memsql_conn_pool.Base.Int.{ℤ, ◌+ℤ◌, ◌-ℤ◌}
use memsql_conn_pool.Closing.{close, u64}
use memsql_conn_pool.Conn.{expired, reset_session}
use memsql_conn_pool.Facade.Counters.{can_add_new_conn}
use memsql_conn_pool.Pool.Put.{put_conn}
use memsql_conn_pool.Runtime.{
  Env, Err, bad_conn, is_bad_conn, World, ConnCreationResponse, ok, blocks, M, ◌>>=◌, ◌>>◌, pure,
  panic, gets, ask, modify, set_facade, set_pool, lock_facade, unlock_facade, lock_pool,
  unlock_pool, nil_pointer, request,
}
use memsql_conn_pool.Pool.Acquire.{
  ConnReuseStrategy, always_new_conn, cached_or_new_conn, ConnResult, failed, conn_cached, conn_new,
}

module _ {env : Env} where
  abbrev add_wait : ℕ → ℤ → M env (Unit {0})
  add_wait p start = do
    now ← ask env.now
    set_pool p (λ s. record s { wait_duration = s.wait_duration +ℤ (now -ℤ start) })

  -- `ret, ok := <-responseChan`: nothing closes the channel of a request, so `ok` holds.
  abbrev pub take_response : ℕ → ℕ → M env (Option ConnCreationResponse)
  take_response p key w = ok ((w.pools p).responses key) (
      let s = w.pools p in
      record w { pools = update w.pools p (record s { responses = update s.responses key none }) })

  give_back : ℕ → ℕ → Option ConnCreationResponse → M env (Unit {0})
  give_back fuel p none = pure tt
  give_back fuel p (some r) = elim r.conn [
    | none ↦ pure tt
    | some dc ↦ put_conn fuel p dc r.err false
  ]

  unfoldable pub cancel_request : ℕ → ℕ → M env (Unit {0})
  cancel_request p key = do
    lock_pool p
    set_pool p (λ s. record s { conn_requests = delete key s.conn_requests })
    unlock_pool p

  conn_expired_wait : ℕ → ℕ → ℕ → ℤ → Err → M env ConnResult
  unfolding give_back cancel_request
  conn_expired_wait fuel p key start e = do
    cancel_request p key
    add_wait p start
    late ← take_response p key
    give_back fuel p late
    pure (failed e)

  use_response : ℕ → Option ℕ → Option Err → M env ConnResult
  use_response fuel none err = pure (record { conn = none; err = err })
  use_response fuel (some dc) err = do
    e ← reset_session dc
    if is_bad_conn e
        then (do _ ← close fuel dc; pure (failed bad_conn))
        else pure (record { conn = some dc; err = err })

  response_expired : ℤ → Option ℕ → Option Err → ConnReuseStrategy → M env Bool
  response_expired lifetime dc (some e) strategy = pure false
  response_expired lifetime dc none always_new_conn = pure false
  response_expired lifetime none none cached_or_new_conn = panic nil_pointer
  response_expired lifetime (some dc) none cached_or_new_conn = expired dc lifetime

  close_response : ℕ → Option ℕ → M env (Option Err)
  close_response fuel none = panic nil_pointer
  close_response fuel (some dc) = close fuel dc

  conn_response : ℕ → ℕ → ConnReuseStrategy → ℤ → ℤ → ConnCreationResponse → M env ConnResult
  unfolding response_expired use_response close_response
  conn_response fuel p strategy lifetime start r = do
    add_wait p start
    old ← response_expired lifetime r.conn r.err strategy
    if old
        then (do
          lock_pool p
          set_pool p (λ s. record s { max_lifetime_closed = s.max_lifetime_closed + 1 })
          unlock_pool p
          _ ← close_response fuel r.conn
          pure (failed bad_conn))
        else use_response fuel r.conn r.err

  -- The choice of `select`: a case that is ready, either where both are.
  await : ℕ → ℕ → ℕ → ConnReuseStrategy → ℤ → ℕ → ℤ → M env ConnResult
  unfolding conn_expired_wait conn_response
  await fuel ctx p strategy lifetime key start = do
    done ← ask (λ t. env.ctx_done t ctx)
    sent ← gets (λ w. (w.pools p).responses key)
    prefer ← ask env.select
    elim done [
      | none ↦ elim sent [
        | none ↦ (λ w. blocks (request p key))
        | some r ↦ (do _ ← take_response p key; conn_response fuel p strategy lifetime start r)
      ]
      | some e ↦ elim sent [
        | none ↦ conn_expired_wait fuel p key start e
        | some r ↦
            if prefer
            then conn_expired_wait fuel p key start e
            else (do _ ← take_response p key; conn_response fuel p strategy lifetime start r)
      ]
    ]

  -- One more request in the facade's `waitCount`.
  unfoldable pub count_request : M env (Unit {0})
  count_request = do
    lock_facade
    set_facade (λ f. record f { wait_count = f.wait_count + 1 })
    unlock_facade

  unfoldable pub register : ℕ → M env ℕ
  unfolding count_request
  register p = do
    lock_pool p
    key ← gets (λ w. (w.pools p).next_request)
    set_pool p (λ s. record s {
      next_request = u64 (key + 1);
      conn_requests = key ∷ delete key s.conn_requests;
      responses = update s.responses key none;
    })
    unlock_pool p
    count_request
    pure key

  -- The part of `conn` that waits.
  unfoldable pub conn_wait :
      (World env → World env) → ℕ → ℕ → ConnReuseStrategy → ℤ → ℕ → M env ConnResult
  unfolding register await
  conn_wait others fuel ctx strategy lifetime p = do
    key ← register p
    start ← ask env.now
    modify others
    await fuel ctx p strategy lifetime key start

  unfoldable pub conn : (World env → World env) → ℕ → ℕ → ConnReuseStrategy → ℕ → M env ConnResult
  unfolding conn_cached conn_new conn_wait
  conn others fuel ctx strategy p = do
    lifetime ← gets (λ w. (w.pools p).max_lifetime)
    early ← conn_cached fuel ctx strategy p
    elim early [
      | some r ↦ pure r
      | none ↦ (do
        can ← can_add_new_conn
        if can then conn_new fuel p else conn_wait others fuel ctx strategy lifetime p)
    ]
