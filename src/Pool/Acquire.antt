-- ===== src/Pool/Acquire.antt =====
-- `conn` of conn_pool.go where it takes an idle connection or opens a new one.
pub mod Limit
pub mod Reuse
use memsql_conn_pool.Base.{
  ℕ, suc, ◌+◌, ◌<◌, ◌==◌, if◌then◌else◌, Bool, true, false, ◌&&◌, not, Option, none, some, List, [],
  ◌∷◌, ◌++◌, length, delete, update, ltb, is_some,
}
use memsql_conn_pool.Base.Int.{ℤ, ◌+ℤ◌, ◌-ℤ◌}
use memsql_conn_pool.Closing.{close, maybe_open_new_connections, u64}
use memsql_conn_pool.Conn.{expired, reset_session}
use memsql_conn_pool.Deps.{add_dep_locked}
use memsql_conn_pool.Facade.Counters.{increment_num_opened, decrement_num_opened, can_add_new_conn}
use memsql_conn_pool.Pool.Put.{put_conn}
use memsql_conn_pool.Runtime.{
  Env, Err, bad_conn, db_closed, is_bad_conn, World, ConnPool, DriverConn, ConnCreationResponse,
  Answer, gives, fails, conn_node, Outcome, ok, panics, blocks, no_fuel, M, ◌>>=◌, ◌>>◌, pure,
  panic, gets, ask, modify, when, set_facade, set_pool, set_conn, lock_facade, unlock_facade,
  lock_pool, unlock_pool, impossible, nil_pointer, request,
}

-- `connReuseStrategy` of sql.go.
pub data ConnReuseStrategy : Type 0 where
  always_new_conn cached_or_new_conn : ConnReuseStrategy

abbrev pub is_cached : ConnReuseStrategy → Bool
is_cached always_new_conn = false
is_cached cached_or_new_conn = true

-- `(*driverConn, error)`.
pub record ConnResult : Type 0 where
  pub conn : Option ℕ
  pub err : Option Err

abbrev pub got : ℕ → ConnResult
got dc = record { conn = some dc; err = none }

abbrev pub failed : Err → ConnResult
failed e = record { conn = none; err = some e }

-- `for dc := range connPool.freeConn { conn = dc }`.
unfoldable pub last_of : List ℕ → Option ℕ
last_of [] = none
last_of (x ∷ xs) = elim (last_of xs) [ none ↦ some x | some y ↦ some y ]

-- A connection as `conn` and `openNewConnection` make it.
abbrev pub new_driver_conn : ℕ → ℕ → ℤ → ℤ → Bool → DriverConn
new_driver_conn p ci created returned used = record {
  conn_pool = p;
  created_at = created;
  mu = false;
  ci = some ci;
  need_reset = false;
  closed = false;
  final_closed = false;
  open_stmt = [];
  in_use = used;
  returned_at = returned;
  on_put = [];
  dbmu_closed = false;
}

module _ {env : Env} where
  unfoldable pub take_out : ℕ → ℕ → M env (Unit {0})
  take_out p dc = do
    set_pool p (λ s. record s { free_conn = delete dc s.free_conn })
    set_conn dc (λ c. record c { in_use = true })

  -- What is done with an idle connection, with the pool's mutex held.
  unfoldable pub take_idle : ℕ → ℕ → ℕ → ℤ → M env ConnResult
  unfolding take_out
  take_idle fuel p dc lifetime = do
    take_out p dc
    old ← expired dc lifetime
    if old
        then (do
          set_pool p (λ s. record s { max_lifetime_closed = s.max_lifetime_closed + 1 })
          unlock_pool p
          _ ← close fuel dc
          pure (failed bad_conn))
        else (do
          unlock_pool p
          e ← reset_session dc
          if is_bad_conn e then (do _ ← close fuel dc; pure (failed bad_conn)) else pure (got dc))

  pick_idle : ℕ → ℕ → ℤ → Option ℕ → M env (Option ConnResult)
  pick_idle fuel p lifetime none = panic impossible
  pick_idle fuel p lifetime (some dc) = do r ← take_idle fuel p dc lifetime; pure (some r)

  unless_done : ℕ → ConnReuseStrategy → ℕ → ConnPool → Option Err → M env (Option ConnResult)
  unless_done fuel strategy p s (some e) = unlock_pool p >> pure (some (failed e))
  unless_done fuel strategy p s none =
      if is_cached strategy && ltb 0 (length s.free_conn)
      then (do
        order ← ask (λ t. env.range t s.free_conn)
        pick_idle fuel p s.max_lifetime (last_of order))
      else (unlock_pool p >> pure none)

  -- `conn` up to the second `Unlock`; `none` where it goes on.
  unfoldable pub conn_cached : ℕ → ℕ → ConnReuseStrategy → ℕ → M env (Option ConnResult)
  unfolding unless_done pick_idle
  conn_cached fuel ctx strategy p = do
    lock_pool p
    s ← gets (λ w. w.pools p)
    if s.closed
        then (unlock_pool p >> pure (some (failed db_closed)))
        else (do done ← ask (λ t. env.ctx_done t ctx); unless_done fuel strategy p s done)

  unfoldable pub make_conn : ℕ → ℕ → M env ConnResult
  make_conn p ci = do
    lock_pool p
    created ← ask env.now
    returned ← ask env.now
    dc ← gets (λ w. w.next_conn)
    modify (λ w. record w { next_conn = suc w.next_conn })
    set_conn dc (λ _. new_driver_conn p ci created returned true)
    add_dep_locked p (conn_node dc) (conn_node dc)
    unlock_pool p
    pure (got dc)

  -- The part of `conn` that opens a connection.
  unfoldable pub conn_new : ℕ → ℕ → M env ConnResult
  unfolding make_conn
  conn_new fuel p = do
    increment_num_opened
    c ← gets (λ w. (w.pools p).connector)
    answer ← ask (λ t. env.connect t c)
    elim answer [
      | fails e ↦ (do decrement_num_opened; maybe_open_new_connections fuel; pure (failed e))
      | gives ci ↦ make_conn p ci
    ]
