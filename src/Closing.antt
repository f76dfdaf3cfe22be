-- ===== src/Closing.antt =====
-- The closing of connections and what it sets off: driver_conn.go (`Close`, `finalClose`),
-- conn_pool_facade_lru.go (the eviction of idle connections), conn_pool_facade_opener.go. These
-- call one another in a cycle, so the cycle takes fuel.
pub mod Eviction
pub mod Chosen
pub mod Bound
pub mod Opening
use memsql_conn_pool.Base.{
  ℕ, zero, suc, ◌+◌, ◌%◌, ◌^◌, if◌then◌else◌, Bool, true, false, Option, none, some, is_some, not,
  List, [], ◌∷◌,
}
use memsql_conn_pool.Base.Int.{ℤ, pos, ◌-ℤ◌, ltb_ℤ, rounds}
use memsql_conn_pool.Conn.{close_stmt}
use memsql_conn_pool.Deps.{Closer, final_close_of, nothing, duplicate, remove_dep_locked}
use memsql_conn_pool.Facade.Counters.{
  decrement_num_opened, get_num_can_open_connections_locked, give_command_to_open_new_connections,
}
use memsql_conn_pool.Facade.Lru.{remove_conn_from_lru, remove_conn_from_free}
use memsql_conn_pool.Facade.Requests.{min_ℤ, get_conn_pools_that_have_requested_new_connections}
use memsql_conn_pool.Runtime.{
  Env, Err, World, conn_node, stmt_node, rows_node, M, ◌>>=◌, ◌>>◌, pure, panic, gets, ask, when,
  for_each, set_facade, set_pool, set_conn, lock_facade, unlock_facade, lock_pool, unlock_pool,
  lock_conn, unlock_conn, lru_no_oldest, ok, panics, not_free, close_failed, nil_pointer, no_fuel,
  duplicate_close,
}

-- An unsigned 64-bit counter.
abbrev pub u64 : ℕ → ℕ
u64 n = n % 2 ^ 64

module _ {env : Env} where
  -- The functions of this section take the `Close` that they call.
  module _ (close : ℕ → M env (Option Err)) where
    -- One round: the connection `dc`, taken out of the cache.
    evict : ℕ → env.Lru → M env (Unit {0})
    evict dc cache = do
      set_facade (λ f. record f { lru_cache = cache })
      p ← gets (λ w. (w.conns dc).conn_pool)
      was_free ← remove_conn_from_free p dc
      when (not was_free) (panic not_free)
      e ← close dc
      when (is_some e) (panic close_failed)

    pub close_lru_idle_connections_locked_with : ℕ → M env (Unit {0})
    close_lru_idle_connections_locked_with zero w = ok tt w
    close_lru_idle_connections_locked_with (suc n) w =
        elim (env.lru_remove_oldest w.facade.lru_cache) [
          | none ↦ panics lru_no_oldest
          | some (dc, cache) ↦ (evict dc cache >> close_lru_idle_connections_locked_with n) w
        ]

    maybe_close_idle_conn_locked_with : ℤ → M env (Unit {0})
    maybe_close_idle_conn_locked_with num = do
      idle ← gets (λ w. env.lru_len w.facade.lru_cache)
      close_lru_idle_connections_locked_with
          (rounds (if ltb_ℤ (pos idle) num then pos idle else num))

    pub maybe_open_new_connections_with : M env (Unit {0})
    maybe_open_new_connections_with = do
      lock_facade
      requested ← gets (λ w. pos w.facade.wait_count)
      can_open ← get_num_can_open_connections_locked
      when (ltb_ℤ can_open requested) (maybe_close_idle_conn_locked_with (requested -ℤ can_open))
      can_open' ← get_num_can_open_connections_locked
      ps ← get_conn_pools_that_have_requested_new_connections (min_ℤ requested can_open')
      give_command_to_open_new_connections ps
      unlock_facade

    final_close_with : ℕ → M env (Option Err)
    final_close_with dc = do
      lock_conn dc
      held ← gets (λ w. (w.conns dc).open_stmt)
      open_stmts ← ask (λ t. env.range t held)
      set_conn dc (λ c. record c { open_stmt = [] })
      unlock_conn dc
      for_each (λ ds. close_stmt ds >>= λ _. pure tt) open_stmts
      lock_conn dc
      set_conn dc (λ c. record c { final_closed = true })
      ci ← gets (λ w. (w.conns dc).ci)
      err ← elim ci [ none ↦ panic nil_pointer | some c ↦ ask (λ t. env.ci_close t c) ]
      set_conn dc (λ c. record c { ci = none })
      unlock_conn dc
      decrement_num_opened
      maybe_open_new_connections_with
      p ← gets (λ w. (w.conns dc).conn_pool)
      set_pool p (λ s. record s { num_closed = u64 (s.num_closed + 1) })
      pure err

  -- What runs of a `Close` before the function that `removeDepLocked` gives.
  begin_close : ℕ → M env (Option Closer)
  begin_close dc = do
    lock_conn dc
    remove_conn_from_lru dc
    c ← gets (λ w. w.conns dc)
    if c.closed then (unlock_conn dc >> pure none) else (do
      set_conn dc (λ c'. record c' { closed = true })
      unlock_conn dc
      lock_pool c.conn_pool
      set_conn dc (λ c'. record c' { dbmu_closed = true })
      fn ← remove_dep_locked c.conn_pool (conn_node dc) (conn_node dc)
      unlock_pool c.conn_pool
      pure (some fn))

  abbrev pub run_closer : (ℕ → M env (Option Err)) → Closer → M env (Option Err)
  run_closer final_close (final_close_of (conn_node dc)) = final_close dc
  run_closer final_close (final_close_of _) = pure none
  run_closer final_close nothing = pure none
  run_closer final_close duplicate = pure (some duplicate_close)

  -- `driverConn.Close`.
  unfoldable pub close : ℕ → ℕ → M env (Option Err)
  unfolding begin_close final_close_with evict close_lru_idle_connections_locked_with
      maybe_close_idle_conn_locked_with maybe_open_new_connections_with
  close zero dc w = no_fuel
  close (suc fuel) dc w =
      (do
        fn ← begin_close dc
        elim fn [
          | none ↦ pure (some duplicate_close)
          | some f ↦ run_closer (final_close_with (close fuel)) f
        ])
        w

  -- The other functions of the cycle, tied to `close`.
  unfoldable pub final_close : ℕ → ℕ → M env (Option Err)
  unfolding final_close_with evict close_lru_idle_connections_locked_with
      maybe_close_idle_conn_locked_with maybe_open_new_connections_with
  final_close fuel = final_close_with (close fuel)

  unfoldable pub maybe_open_new_connections : ℕ → M env (Unit {0})
  unfolding evict close_lru_idle_connections_locked_with maybe_close_idle_conn_locked_with
      maybe_open_new_connections_with
  maybe_open_new_connections fuel = maybe_open_new_connections_with (close fuel)

  unfoldable pub close_lru_idle_connections_locked : ℕ → ℕ → M env (Unit {0})
  unfolding evict close_lru_idle_connections_locked_with
  close_lru_idle_connections_locked fuel = close_lru_idle_connections_locked_with (close fuel)
