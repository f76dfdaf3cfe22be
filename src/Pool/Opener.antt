-- ===== src/Pool/Opener.antt =====
-- conn_pool_conn_opener.go and conn_pool_facade_conn_opener.go: the goroutine that opens the
-- connections that were asked for.
pub mod Failure
use memsql_conn_pool.Base.{ℕ, suc, if◌then◌else◌, false, Option, none, some, List, [], ◌∷◌}
use memsql_conn_pool.Closing.{maybe_open_new_connections}
use memsql_conn_pool.Deps.{add_dep_locked}
use memsql_conn_pool.Facade.Counters.{decrement_num_opened, stats}
use memsql_conn_pool.Pool.Acquire.{new_driver_conn}
use memsql_conn_pool.Pool.Put.{put_connection_conn_pool_locked}
use memsql_conn_pool.Runtime.{
  Env, Err, Answer, gives, fails, conn_node, M, ◌>>=◌, ◌>>◌, pure, gets, ask, modify, set_facade,
  set_conn, lock_pool, unlock_pool,
}

-- What a round of the opener's goroutine comes to: a command to open a connection of a pool, the end
-- of the facade's context, or that it goes on waiting.
pub data OpenerRound : Type 0 where
  opened : ℕ → OpenerRound
  opener_ends opener_waits : OpenerRound

module _ {env : Env} where
  unfoldable pub close_ci : ℕ → M env (Option Err)
  close_ci ci = ask (λ t. env.ci_close t ci)

  -- The connection exists: it goes to a request or to the idle ones, or is closed.
  unfoldable pub place_conn : ℕ → ℕ → M env (Unit {0})
  unfolding close_ci
  place_conn p ci = do
    created ← ask env.now
    returned ← ask env.now
    dc ← gets (λ w. w.next_conn)
    modify (λ w. record w { next_conn = suc w.next_conn })
    set_conn dc (λ _. new_driver_conn p ci created returned false)
    added ← put_connection_conn_pool_locked p (some dc) none
    if added
        then add_dep_locked p (conn_node dc) (conn_node dc)
        else (do decrement_num_opened; _ ← close_ci ci; pure tt)

  closed_pool : Answer → M env (Unit {0})
  unfolding close_ci
  closed_pool (gives ci) = do _ ← close_ci ci; decrement_num_opened
  closed_pool (fails e) = decrement_num_opened

  -- The branch of a failed `Connect` unlocks the pool itself.
  connect_failed : ℕ → ℕ → Err → M env (Unit {0})
  connect_failed fuel p e = do
    decrement_num_opened
    _ ← put_connection_conn_pool_locked p none (some e)
    unlock_pool p
    maybe_open_new_connections fuel

  -- The last `unlock_pool` is the deferred one.
  unfoldable pub open_new_connection : ℕ → ℕ → M env (Unit {0})
  unfolding closed_pool connect_failed place_conn
  open_new_connection fuel p = do
    c ← gets (λ w. (w.pools p).connector)
    answer ← ask (λ t. env.connect t c)
    lock_pool p
    is_closed ← gets (λ w. (w.pools p).closed)
    (if is_closed
        then closed_pool answer
        else elim answer [ fails e ↦ connect_failed fuel p e | gives ci ↦ place_conn p ci ])
    unlock_pool p

  open_commanded : ℕ → ℕ → List ℕ → M env OpenerRound
  unfolding open_new_connection stats
  open_commanded fuel p rest = do
    set_facade (λ f. record f { opener_channel = rest })
    _ ← stats
    open_new_connection fuel p
    pure (opened p)

  -- One round of `startCreatingConnections`: its `select` takes either case where both are ready.
  unfoldable pub opener_round : ℕ → M env OpenerRound
  unfolding open_commanded
  opener_round fuel = do
    f ← gets (λ w. w.facade)
    elim f.opener_channel [
      | [] ↦ pure (if f.cancelled then opener_ends else opener_waits)
      | p ∷ rest ↦
          if f.cancelled
          then (do
            ends ← ask env.select
            if ends then pure opener_ends else open_commanded fuel p rest)
          else open_commanded fuel p rest
    ]
