-- ===== src/Tests/Examples.antt =====
-- The theorems at concrete states of the small instance.
use memsql_conn_pool.Base.{ℕ, ◌+◌, ◌≡◌, refl, ◌≤◌, none, some, [], ◌∷◌, length, count, arith}
use memsql_conn_pool.Base.Int.{pos, ◌+ℤ◌}
use memsql_conn_pool.Closing.{close_lru_idle_connections_locked, maybe_open_new_connections}
use memsql_conn_pool.Closing.Bound.{IsBounded, maybe_open_new_connections-IsBounded}
use memsql_conn_pool.Closing.Opening.{opened, maybe_open_new_connections-opens}
use memsql_conn_pool.Closing.Eviction.{Halted, close_lru-halts}
use memsql_conn_pool.Deps.Laws.{remove_dep_locked-Removes, Removes}
use memsql_conn_pool.Facade.Pools.{
  Credentials, get_id, get_data_source_name, open_pool, open_db, get_or_create_conn_pool, pool_ok,
}
use memsql_conn_pool.Facade.Pools.Identity.{
  get_or_create_conn_pool-collides, get_or_create_conn_pool-again,
}
use memsql_conn_pool.Facade.Requests.{get_conn_pools_that_have_requested_new_connections}
use memsql_conn_pool.Facade.RequestLaws.{requests_served, shares, count_waits}
use memsql_conn_pool.Pool.Acquire.{last_of, conn_cached, cached_or_new_conn}
use memsql_conn_pool.Pool.Acquire.Limit.{ask_then_count-races, Openers, Reach, asking, counted}
use memsql_conn_pool.Pool.Acquire.Reuse.{conn_cached-reuses, Taken}
use memsql_conn_pool.Pool.Cleaner.{
  set_conn_max_idle_time, start_cleaner_locked, shortest_idle_time_locked,
  connection_cleaner_run_locked,
}
use memsql_conn_pool.Pool.Cleaner.Sweeps.{connection_cleaner_run_locked-Returns}
use memsql_conn_pool.Pool.Put.{put_connection_conn_pool_locked}
use memsql_conn_pool.Pool.Put.Handover.{Served, put_connection-serves}
use memsql_conn_pool.Runtime.{World, Outcome, ok, conn_node, stmt_node, Returns}
use memsql_conn_pool.Tests.Instance.{small_env, small_lru, small_cmap, small_range, small_world}

-- The small world with an empty cache.
abbrev emptied : World small_env
emptied =
    let f = small_world.facade in record small_world { facade = record f { lru_cache = none } }

abbrev owner : Credentials
owner = record { username = 1 ∷ []; password = 3 ∷ []; database = [] }

abbrev other_user : Credentials
other_user = record { username = []; password = 1 ∷ 3 ∷ []; database = [] }

abbrev newcomer : Credentials
newcomer = record { username = 1 ∷ []; password = []; database = 9 ∷ [] }

owner_found : small_env.cmap_get (get_id owner) small_world.facade.pools ≡ some 1
unfolding get_id
owner_found = refl

same_id : get_id owner ≡ get_id other_user
unfolding get_id
same_id = refl

-- What the call for the newcomer leaves.
abbrev world_of : {A : Type 0} → Outcome small_env A → World small_env
world_of (ok a w) = w
world_of _ = small_world

created : World small_env
created = world_of (get_or_create_conn_pool newcomer small_world)

made : get_or_create_conn_pool newcomer small_world ≡ ok (pool_ok 2) created
unfolding created get_or_create_conn_pool get_id get_data_source_name open_pool open_db
    set_conn_max_idle_time start_cleaner_locked shortest_idle_time_locked
made = refl

requests_served_example :
    (get_conn_pools_that_have_requested_new_connections {env = small_env} (pos 1) small_world
      ≡ ok (1 ∷ []) (record small_world { tick = 31 }))
    × (length {A = ℕ} (1 ∷ []) ≡ 1)
    × ((q : ℕ)
        → count q (1 ∷ [])
          ≤ count_waits small_world q (small_env.cmap_iter 30 small_world.facade.pools))
unfolding shares
requests_served_example = requests_served small_world 1 (refl, (refl, tt)) (omega arith)

maybe_open_new_connections-opens_example :
    maybe_open_new_connections {env = small_env} 1 small_world ≡ ok tt (opened small_world)
unfolding ◌+ℤ◌
maybe_open_new_connections-opens_example =
    maybe_open_new_connections-opens 1 small_world refl refl (refl, (refl, tt)) (omega arith)
      (omega arith) (omega arith)

opens_one : maybe_open_new_connections {env = small_env} 1 small_world ≡ ok tt (opened small_world)
unfolding ◌+ℤ◌
opens_one =
    maybe_open_new_connections-opens 1 small_world refl refl (refl, (refl, tt)) (omega arith)
      (omega arith) (omega arith)

maybe_open_new_connections-IsBounded_example : IsBounded (opened small_world) × (pos 5 ≡ pos 5)
maybe_open_new_connections-IsBounded_example =
    maybe_open_new_connections-IsBounded small_lru 0 small_world (omega arith) opens_one

close_lru-halts_example :
    Halted (close_lru_idle_connections_locked {env = small_env} 3 1 small_world)
close_lru-halts_example = close_lru-halts small_lru 2 0 small_world (λ h. absurd (ground arith))

ask_then_count-races_example :
    (t : Openers small_env) × Reach (record { world = small_world; pc = λ _. asking }) t
    × (t.pc 0 ≡ counted)
    × (t.pc 1 ≡ counted)
    × (t.world.facade.num_opened ≡ pos 5 +ℤ pos 1)
unfolding ◌+ℤ◌
ask_then_count-races_example = ask_then_count-races small_world refl refl

conn_cached-reuses_example :
    Returns
      (conn_cached {env = small_env} 1 0 cached_or_new_conn 0 small_world)
      (Taken small_world 0 7)
unfolding last_of
conn_cached-reuses_example =
    conn_cached-reuses 1 0 small_world 0 7 refl refl (λ h. absurd (ground arith)) refl refl refl
      refl refl

connection_cleaner_run_locked-Returns_example :
    Returns (connection_cleaner_run_locked {env = small_env} 0 small_world) λ closing w'.
      ((k : ℕ) → count k closing + count k (w'.pools 0).free_conn ≡ count k (7 ∷ []))
      × ((w'.pools 0).max_lifetime_closed + (w'.pools 0).max_idle_time_closed
          ≡ 0 + 0 + length closing)
connection_cleaner_run_locked-Returns_example =
    connection_cleaner_run_locked-Returns small_range small_world 0

put_connection-serves_example :
    Returns
      (put_connection_conn_pool_locked {env = small_env} 1 (some 7) none small_world)
      (Served small_world 1 7)
put_connection-serves_example =
    put_connection-serves small_range small_world 1 7 refl (λ h. absurd (ground arith))

remove_dep_locked-Removes_example : Removes small_world 0 (conn_node 7) (stmt_node 2)
remove_dep_locked-Removes_example =
    remove_dep_locked-Removes small_world 0 (conn_node 7) (stmt_node 2) refl

get_or_create_conn_pool-collides_example :
    get_or_create_conn_pool {env = small_env} other_user small_world ≡ ok (pool_ok 1) small_world
get_or_create_conn_pool-collides_example =
    get_or_create_conn_pool-collides small_cmap small_world [] (3 ∷ []) [] (1 ∷ []) 1 refl
      owner_found

get_or_create_conn_pool-again_example :
    get_or_create_conn_pool {env = small_env} newcomer created ≡ ok (pool_ok 2) created
get_or_create_conn_pool-again_example =
    get_or_create_conn_pool-again small_cmap newcomer small_world made
