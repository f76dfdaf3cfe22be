-- ===== src/Conn.antt =====
-- driver_conn.go and driver_stmt.go, without the closing of a connection (module Closing).
use memsql_conn_pool.Base.{ℕ, if◌then◌else◌, Bool, true, false, Option, none, some, delete}
use memsql_conn_pool.Base.Int.{ℤ, pos, ◌+ℤ◌, ltb_ℤ, leb_ℤ}
use memsql_conn_pool.Deps.{Closer, duplicate, remove_dep_locked}
use memsql_conn_pool.Runtime.{
  Env, Err, conn_node, M, ◌>>=◌, ◌>>◌, pure, gets, ask, when, set_conn, set_stmt, lock_conn,
  unlock_conn,
}

module _ {env : Env} where
  -- `driverStmt.Close`: a second call gives the error of the first.
  unfoldable pub close_stmt : ℕ → M env (Option Err)
  close_stmt ds = do
    dc ← gets (λ w. (w.stmts ds).locker)
    lock_conn dc
    was_closed ← gets (λ w. (w.stmts ds).closed)
    when (if was_closed then false else true) (do
      si ← gets (λ w. (w.stmts ds).si)
      e ← ask (λ t. env.si_close t si)
      set_stmt ds (λ s. record s { closed = true; close_err = e }))
    e ← gets (λ w. (w.stmts ds).close_err)
    unlock_conn dc
    pure e

  unfoldable pub remove_open_stmt : ℕ → ℕ → M env (Unit {0})
  remove_open_stmt dc ds = do
    lock_conn dc
    set_conn dc (λ c. record c { open_stmt = delete ds c.open_stmt })
    unlock_conn dc

  unfoldable pub expired : ℕ → ℤ → M env Bool
  expired dc timeout = if leb_ℤ timeout (pos 0) then pure false else (do
    created ← gets (λ w. (w.conns dc).created_at)
    now ← ask env.now
    pure (ltb_ℤ (created +ℤ timeout) now))

  reset_ci : Option ℕ → M env (Option Err)
  reset_ci none = pure none
  reset_ci (some ci) = if env.is_resetter ci then ask (λ t. env.reset_session t ci) else pure none

  unfoldable pub reset_session : ℕ → M env (Option Err)
  unfolding reset_ci
  reset_session dc = do
    lock_conn dc
    c ← gets (λ w. w.conns dc)
    e ← (if c.need_reset then reset_ci c.ci else pure none)
    unlock_conn dc
    pure e

  check_ci : Option ℕ → M env Bool
  check_ci none = pure true
  check_ci (some ci) = if env.is_validator ci then ask (λ t. env.is_valid t ci) else pure true

  unfoldable pub validate_connection : ℕ → Bool → M env Bool
  unfolding check_ci
  validate_connection dc needs_reset = do
    lock_conn dc
    when needs_reset (set_conn dc (λ c. record c { need_reset = true }))
    ci ← gets (λ w. (w.conns dc).ci)
    valid ← check_ci ci
    unlock_conn dc
    pure valid

  -- `closeDBLocked`: the function that the caller runs later.
  unfoldable pub close_db_locked : ℕ → M env Closer
  close_db_locked dc = do
    lock_conn dc
    c ← gets (λ w. w.conns dc)
    fn ←
        (if c.closed then pure duplicate else (do
          set_conn dc (λ c'. record c' { closed = true })
          remove_dep_locked c.conn_pool (conn_node dc) (conn_node dc)))
    unlock_conn dc
    pure fn
