-- ===== src/Pool/Retry.antt =====
-- The attempts of `ExecContext`, `QueryContext`, `PrepareContext`, `BeginTx` and `PingContext`:
-- conn_pool_exec.go, conn_pool_query.go, conn_pool_prepare.go, conn_pool_begin.go,
-- conn_pool_ping.go. What is done with a connection once it is there is an argument.
pub mod Attempts
use memsql_conn_pool.Base.{ℕ, zero, suc, if◌then◌else◌, Bool, true, false, Option, none, some}
use memsql_conn_pool.Pool.Acquire.{
  ConnReuseStrategy, cached_or_new_conn, always_new_conn, ConnResult,
}
use memsql_conn_pool.Pool.Waiting.{conn}
use memsql_conn_pool.Runtime.{
  Env, Err, is_bad_conn, World, M, ◌>>=◌, ◌>>◌, pure, panic, gets, ask, lock_conn, unlock_conn,
  nil_pointer,
}

-- The two results of a call, the value and the error.
pub record Tried (A : Type 0) : Type 0 where
  pub value : Option A
  pub err : Option Err

abbrev pub max_bad_conn_retries : ℕ
max_bad_conn_retries = 2

module _ {env : Env} {A : Type 0} where
  -- The loop over `i < maxBadConnRetries`; `last` holds the results of the round before.
  unfoldable pub cached_attempts :
      ℕ → (ConnReuseStrategy → M env (Tried A)) → Tried A → M env (Tried A)
  cached_attempts zero attempt last w = pure last w
  cached_attempts (suc n) attempt last w =
      (do
        r ← attempt cached_or_new_conn
        if is_bad_conn r.err then cached_attempts n attempt r else pure r)
        w

  unfoldable pub retrying : (ConnReuseStrategy → M env (Tried A)) → M env (Tried A)
  unfolding cached_attempts
  retrying attempt = do
    r ← cached_attempts max_bad_conn_retries attempt (record { value = none; err = none })
    if is_bad_conn r.err then attempt always_new_conn else pure r

  -- `if err != nil { return nil, err }`, and the work on the connection.
  abbrev pub on_conn : (ℕ → M env (Tried A)) → Option ℕ → Option Err → M env (Tried A)
  on_conn work c (some e) = pure (record { value = none; err = some e })
  on_conn work (some dc) none = work dc
  on_conn work none none = panic nil_pointer

  module _ (others : World env → World env) (fuel ctx p : ℕ) where
    -- One attempt: `exec`, `query`, `prepare` and `begin` with the work of `execDC`, `queryDC`,
    -- `prepareDC` and `beginDC`.
    unfoldable pub exec : (ℕ → M env (Tried A)) → ConnReuseStrategy → M env (Tried A)
    exec exec_dc strategy = do r ← conn others fuel ctx strategy p; on_conn exec_dc r.conn r.err

    unfoldable pub query : (ℕ → M env (Tried A)) → ConnReuseStrategy → M env (Tried A)
    query query_dc strategy = do r ← conn others fuel ctx strategy p; on_conn query_dc r.conn r.err

    unfoldable pub prepare : (ℕ → M env (Tried A)) → ConnReuseStrategy → M env (Tried A)
    prepare prepare_dc strategy = do
      r ← conn others fuel ctx strategy p
      on_conn prepare_dc r.conn r.err

    unfoldable pub begin : (ℕ → M env (Tried A)) → ConnReuseStrategy → M env (Tried A)
    begin begin_dc strategy = do r ← conn others fuel ctx strategy p; on_conn begin_dc r.conn r.err

    unfoldable pub exec_context : (ℕ → M env (Tried A)) → M env (Tried A)
    unfolding retrying exec
    exec_context exec_dc = retrying (exec exec_dc)

    unfoldable pub query_context : (ℕ → M env (Tried A)) → M env (Tried A)
    unfolding retrying query
    query_context query_dc = retrying (query query_dc)

    unfoldable pub prepare_context : (ℕ → M env (Tried A)) → M env (Tried A)
    unfolding retrying prepare
    prepare_context prepare_dc = retrying (prepare prepare_dc)

    unfoldable pub begin_tx : (ℕ → M env (Tried A)) → M env (Tried A)
    unfolding retrying begin
    begin_tx begin_dc = retrying (begin begin_dc)

abbrev as_tried : ConnResult → Tried ℕ
as_tried r = record { value = r.conn; err = r.err }

module _ {env : Env} (is_pinger : ℕ → Bool) (ping : ℕ → ℕ → Option Err) where
  ping_locked : ℕ → Option ℕ → M env (Option Err)
  ping_locked dc none = pure none
  ping_locked dc (some ci) =
      if is_pinger ci
      then (do lock_conn dc; e ← ask (λ t. ping t ci); unlock_conn dc; pure e)
      else pure none

  unfoldable pub ping_dc : ℕ → (Option Err → M env (Unit {0})) → M env (Option Err)
  unfolding ping_locked
  ping_dc dc release = do
    ci ← gets (λ w. (w.conns dc).ci)
    err ← ping_locked dc ci
    release err
    pure err

  ping_result : (ℕ → Option Err → M env (Unit {0})) → Option ℕ → Option Err → M env (Option Err)
  unfolding ping_dc
  ping_result release c (some e) = pure (some e)
  ping_result release (some dc) none = ping_dc dc (release dc)
  ping_result release none none = panic nil_pointer

  unfoldable pub ping_context :
      (World env → World env) → ℕ → ℕ → ℕ → (ℕ → Option Err → M env (Unit {0})) → M env (Option Err)
  unfolding retrying ping_result
  ping_context others fuel ctx p release = do
    r ← retrying (λ s. conn others fuel ctx s p >>= λ c. pure (as_tried c))
    ping_result release r.value r.err
