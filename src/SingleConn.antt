-- ===== src/SingleConn.antt =====
-- Single connections: conn.go. A call on a connection takes its state and gives it back; `others`
-- is what other goroutines do to it while `closemu.Lock` waits for running queries. While the work on
-- its connection runs, the single connection stands in the world, where the release that the work is
-- given meets it.
pub mod Done
use memsql_conn_pool.Base.{
  ℕ, suc, ◌+◌, ◌-◌, ltb, if◌then◌else◌, Bool, true, false, Option, none, some, List,
}
use memsql_conn_pool.Arguments.{Arg}
use memsql_conn_pool.Pool.Put.{release_conn}
use memsql_conn_pool.Pool.Retry.{Tried, ping_dc}
use memsql_conn_pool.Rows.{Rows}
use memsql_conn_pool.Runtime.{
  Env, Err, conn_done, is_bad_conn, World, Bytes, blocks, conn_closemu, M, ◌>>=◌, ◌>>◌, pure, panic,
  gets, modify, Conn, lock_conn, unlock_conn, nil_pointer,
}
use memsql_conn_pool.Statements.{Stmt, PrepareDriver}
use memsql_conn_pool.Statements.Direct.{DirectDriver, exec_dc, query_dc, prepare_dc}
use memsql_conn_pool.Transaction.{Tx, TxDriver, TxOptions, begin_dc}

pinged : Option Err → Tried (Unit {0})
pinged e = record { value = none; err = e }

module _ {env : Env} (fuel : ℕ) (others : Conn → Conn) where
  unfoldable pub released : Option Err → Conn → Option ℕ → M env (Option Err × Conn)
  released err c none = panic nil_pointer
  released err c (some dc) =
      release_conn fuel dc err >> pure (err, record c { dc = none; db = none })

  -- What follows `closemu.Lock`, which waits while a call or rows hold it.
  unfoldable pub locked : Option Err → Conn → M env (Option Err × Conn)
  unfolding released
  locked err c w = if ltb 0 c.readers then blocks conn_closemu else released err c c.dc w

  -- `close`.
  unfoldable pub close_single : Option Err → Conn → M env (Option Err × Conn)
  unfolding locked
  close_single err c =
      if c.done then pure (some conn_done, c) else locked err (others (record c { done = true }))

  -- `closemuRUnlockCondReleaseConn`; what `close` returns is dropped.
  unfoldable pub closemu_r_unlock_cond_release_conn : Option Err → Conn → M env Conn
  unfolding close_single
  closemu_r_unlock_cond_release_conn err c =
      let c' = record c { readers = c.readers - 1 } in
      if is_bad_conn err then (close_single err c' >>= λ r. pure r.1) else pure c'

  -- `closemuRUnlockCondReleaseConn` of the connection on which a call runs.
  unfoldable pub release_single : Option Err → M env (Unit {0})
  unfolding closemu_r_unlock_cond_release_conn
  release_single err = do
    c ← gets (λ w. w.single)
    c' ← closemu_r_unlock_cond_release_conn err c
    modify (λ w. record w { single = c' })

  -- The work gets the connection and its release.
  module _ {A : Type 0} (work : (Option Err → M env (Unit {0})) → ℕ → M env (Tried A)) where
    unfoldable pub work_on : Conn → Option ℕ → M env (Tried A × Conn)
    unfolding release_single
    work_on c none = panic nil_pointer
    work_on c (some dc) = do
      modify (λ w. record w { single = record c { readers = c.readers + 1 } })
      r ← work release_single dc
      c' ← gets (λ w. w.single)
      pure (r, c')

    -- `grabConn`, which the calls of a connection begin with, and the work on what it gives.
    unfoldable pub grabbing : Conn → M env (Tried A × Conn)
    unfolding work_on
    grabbing c =
        if c.done then pure (record { value = none; err = some conn_done }, c) else work_on c c.dc

  module _ {V : Type 0} (p : PrepareDriver) (d : DirectDriver V) (ctx : ℕ) (query : Bytes) where
    unfoldable pub exec_single : List (Arg V) → Conn → M env (Tried ℕ × Conn)
    unfolding grabbing
    exec_single args = grabbing (λ free dc. exec_dc p d ctx dc query args free)

    unfoldable pub query_single : List (Arg V) → Conn → M env (Tried Rows × Conn)
    unfolding grabbing
    query_single args = grabbing (λ free dc. query_dc p d ctx dc query args free)

  unfoldable pub prepare_single :
      PrepareDriver → ℕ → ℕ → ℕ → Bytes → Conn → M env (Tried Stmt × Conn)
  unfolding grabbing
  prepare_single p self db ctx query =
      grabbing (λ free dc. prepare_dc p ctx dc query self db true free)

  unfoldable pub begin_single : TxDriver → ℕ → Option TxOptions → Conn → M env (Tried Tx × Conn)
  unfolding grabbing
  begin_single driver ctx opts = grabbing (λ free dc. begin_dc driver ctx opts dc free)

  unfoldable pub ping_single :
      (ℕ → Bool) → (ℕ → ℕ → Option Err) → Conn → M env (Tried (Unit {0}) × Conn)
  unfolding grabbing pinged
  ping_single is_pinger ping =
      grabbing (λ free dc. ping_dc is_pinger ping dc free >>= λ e. pure (pinged e))

  -- `Raw`, for a function that does not panic.
  raw_on :
      (Option ℕ → M env (Option Err))
      → (Option Err → M env (Unit {0}))
      → ℕ
      → M env (Tried (Unit {0}))
  raw_on f free dc = do
    lock_conn dc
    ci ← gets (λ w. (w.conns dc).ci)
    err ← f ci
    unlock_conn dc
    free err
    pure (record { value = none; err = err })

  unfoldable pub raw : (Option ℕ → M env (Option Err)) → Conn → M env (Tried (Unit {0}) × Conn)
  unfolding grabbing raw_on
  raw f = grabbing (raw_on f)
