-- ===== src/Tests/OpenerCalls.antt =====
-- The theorem on the opener at a concrete state.
use memsql_conn_pool.Base.{◌≡◌, refl, [], arith}
use memsql_conn_pool.Pool.Opener.{open_new_connection}
use memsql_conn_pool.Pool.Opener.Failure.{open_new_connection-unlocks_twice}
use memsql_conn_pool.Runtime.{World, bad_conn, panics, unlocked_mutex}
use memsql_conn_pool.Tests.Instance.{small_env, small_world, pool_with}

-- The driver refuses to connect, and no request waits.
abbrev refusing : World small_env
refusing =
    let f = small_world.facade in
    let s = pool_with [] [] in
    record small_world {
      facade = record f { wait_count = 0 };
      pools = λ p. record s { connector = 4 };
    }

open_new_connection-unlocks_twice_example :
    open_new_connection {env = small_env} 1 2 refusing ≡ panics unlocked_mutex
open_new_connection-unlocks_twice_example =
    open_new_connection-unlocks_twice 1 refusing 2 bad_conn refl refl refl refl refl refl
      (omega arith)
