-- ===== src/Tests/OwnershipCalls.antt =====
-- The theorems on who has a pool's connections at concrete runs.
use memsql_conn_pool.Base.{ℕ, ◌≡◌, ◌≤◌, refl, true, count, none, some, [], ◌∷◌, arith}
use memsql_conn_pool.Facade.Pools.{open_db}
use memsql_conn_pool.Pool.Acquire.{make_conn, conn_cached, cached_or_new_conn, last_of}
use memsql_conn_pool.Pool.Ownership.Returned.{Settled, reach-puts}
use memsql_conn_pool.Pool.Ownership.Steps.{
  System, Reach, start, later, made, asked, put, received, Owned, reach-IsExclusive,
}
use memsql_conn_pool.Pool.RoundTrip.{IsReady, IsRestored, conn_cached-released}
use memsql_conn_pool.Pool.Put.{release_conn, mark_returned, put_connection_conn_pool_locked}
use memsql_conn_pool.Pool.Waiting.{register, take_response}
use memsql_conn_pool.Runtime.{World, Outcome, ok, Returns, ◌>>=◌}
use memsql_conn_pool.Tests.Instance.{world_of, small_env, small_world, small_range}

-- The pool 2 is made, and the connection 8 for a caller.
abbrev pub empty_cache : World small_env
empty_cache = record small_world { facade = record (small_world.facade) { lru_cache = none } }

abbrev with_pool : World small_env
with_pool = world_of (open_db 3 empty_cache)

abbrev with_conn : World small_env
with_conn = world_of (make_conn 2 5 with_pool)

abbrev one_held : System small_env
one_held = record { world = with_conn; held = 8 ∷ [] }

one_held_reached : Reach small_env 2 one_held
unfolding open_db make_conn memsql_conn_pool.Deps.add_dep_locked
one_held_reached = later (start empty_cache 3 refl) (made 5 refl)

reach-puts_example :
    ((with_conn.conns 8).in_use ≡ true)
    × Returns
        (put_connection_conn_pool_locked 2 (some 8) none (world_of (mark_returned 8 with_conn)))
        (Settled 2 8 [])
unfolding open_db make_conn mark_returned memsql_conn_pool.Runtime.for_each
    memsql_conn_pool.Deps.add_dep_locked
reach-puts_example =
    reach-puts small_range 8 {v = world_of (mark_returned 8 with_conn)} one_held_reached
      (omega arith) refl refl refl

-- The request 0 is made, the connection is put back, goes to the request, and is received.
abbrev with_request : World small_env
with_request = world_of (register 2 with_conn)

abbrev with_return : World small_env
with_return = world_of (mark_returned 8 with_request)

abbrev with_response : World small_env
with_response = world_of (put_connection_conn_pool_locked 2 (some 8) none with_return)

abbrev handed_over : System small_env
handed_over = record { world = world_of (take_response 2 0 with_response); held = 8 ∷ [] }

handed_over_reached : Reach small_env 2 handed_over
unfolding open_db make_conn register mark_returned put_connection_conn_pool_locked
    memsql_conn_pool.Deps.add_dep_locked memsql_conn_pool.Pool.Waiting.count_request
    memsql_conn_pool.Runtime.for_each memsql_conn_pool.Pool.Put.serve
    memsql_conn_pool.Pool.Put.return_connection_on_request_locked
handed_over_reached =
    later (later (later one_held_reached (asked refl)) (put 8 (omega arith) refl refl))
      (received 0 refl)

reach-IsExclusive_example : Owned 2 handed_over
reach-IsExclusive_example = reach-IsExclusive small_range 2 handed_over_reached

idle_once : (k : ℕ) → count k (7 ∷ []) ≤ 1
idle_once k = ground arith

pub idle-IsReady : IsReady empty_cache 0 7 5 0
unfolding last_of
idle-IsReady = record {
  pool_free = refl;
  still_open = refl;
  once = idle_once;
  none_waits = refl;
  unlimited = refl;
  going = refl;
  picked = refl;
  conn_free = refl;
  fresh = refl;
  pool_of = refl;
  has_ci = refl;
  nothing_put_off = refl;
  plain = refl;
  room = refl;
}

conn_cached-released_example :
    Returns
      ((conn_cached 1 0 cached_or_new_conn 0 >>= λ _. release_conn 1 7 none) empty_cache)
      (λ _ w'. IsRestored empty_cache 0 7 w')
conn_cached-released_example = conn_cached-released small_range idle-IsReady 1
