-- ===== src/Pool/Shutdown.antt =====
-- `ConnPool.Close` and `noteUnusedDriverStatement` of conn_pool.go, and conn_pool_stats.go.
use memsql_conn_pool.Base.{
  ℕ, if◌then◌else◌, true, Option, none, some, List, [], ◌∷◌, ◌++◌, length, is_some, not,
}
use memsql_conn_pool.Base.Int.{ℤ}
use memsql_conn_pool.Closing.{run_closer, final_close}
use memsql_conn_pool.Conn.{close_db_locked, close_stmt}
use memsql_conn_pool.Deps.{Closer}
use memsql_conn_pool.Runtime.{
  Env, Err, M, ◌>>=◌, ◌>>◌, pure, gets, ask, when, set_pool, set_conn, lock_pool, unlock_pool,
  lock_conn, unlock_conn,
}

pub record ConnPoolStats : Type 0 where
  pub idle : ℕ
  pub wait_duration : ℤ
  pub max_idle_closed : ℕ
  pub max_idle_time_closed : ℕ
  pub max_lifetime_closed : ℕ

module _ {env : Env} where
  close_all : List ℕ → M env (List Closer)
  close_all [] w = pure [] w
  close_all (dc ∷ dcs) w = (do fn ← close_db_locked dc; fns ← close_all dcs; pure (fn ∷ fns)) w

  -- The error of the last function that fails.
  run_all : ℕ → List Closer → Option Err → M env (Option Err)
  run_all fuel [] err w = pure err w
  run_all fuel (fn ∷ fns) err w =
      (do e ← run_closer (final_close fuel) fn; run_all fuel fns (if is_some e then e else err)) w

  unfoldable pub close_pool : ℕ → ℕ → M env (Option Err)
  unfolding close_all run_all
  close_pool fuel p = do
    lock_pool p
    s ← gets (λ w. w.pools p)
    if s.closed then (unlock_pool p >> pure none) else (do
      when (is_some s.cleaner_ch) (set_pool p (λ s'. record s' { cleaner_ch = some true }))
      order ← ask (λ t. env.range t s.free_conn)
      fns ← close_all order
      set_pool p (λ s'. record s' { free_conn = []; closed = true })
      unlock_pool p
      err ← run_all fuel fns none
      set_pool p (λ s'. record s' { stopped = true })
      pure err)

  unfoldable pub note_unused_driver_statement : ℕ → ℕ → ℕ → M env (Unit {0})
  note_unused_driver_statement p c ds = do
    lock_pool p
    x ← gets (λ w. w.conns c)
    (if x.in_use then set_conn c (λ x'. record x' { on_put = x'.on_put ++ ds ∷ [] }) else (do
      lock_conn c
      fc ← gets (λ w. (w.conns c).final_closed)
      unlock_conn c
      when (not fc) (close_stmt ds >>= λ _. pure tt)))
    unlock_pool p

  unfoldable pub conn_pool_stats : ℕ → M env ConnPoolStats
  conn_pool_stats p = do
    wait ← gets (λ w. (w.pools p).wait_duration)
    lock_pool p
    s ← gets (λ w. w.pools p)
    unlock_pool p
    pure (record {
      idle = length s.free_conn;
      wait_duration = wait;
      max_idle_closed = s.max_idle_closed;
      max_idle_time_closed = s.max_idle_time_closed;
      max_lifetime_closed = s.max_lifetime_closed;
    })
