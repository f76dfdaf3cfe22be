-- ===== src/Tests/SingleCalls.antt =====
-- The theorems on single connections, and on a query on one connection, at concrete states.
use memsql_conn_pool.Base.{
  ℕ, ◌≡◌, refl, true, false, Option, none, some, List, [], ◌∷◌, replicate, length,
}
use memsql_conn_pool.Arguments.{plain}
use memsql_conn_pool.Pool.Put.{release_conn}
use memsql_conn_pool.Runtime.{Conn, Err, conn_done, M, ◌>>=◌, ◌>>◌, pure, set_conn}
use memsql_conn_pool.SingleConn.Done.{
  SingleCall, execs, queries, prepares, begins, pings, raws, closes, call_errs, ended,
  close_single-once,
}
use memsql_conn_pool.Statements.Direct.{DirectDriver, query_dc, release_failed}
use memsql_conn_pool.Statements.Released.{query_dc-released, keep}
use memsql_conn_pool.Tests.Calls.{tx_driver}
use memsql_conn_pool.Tests.ArgumentCalls.{plain_driver}
use memsql_conn_pool.Tests.Instance.{small_env, small_world}
use memsql_conn_pool.Tests.StatementCalls.{preparing, calling}

-- A connection that a call and rows hold, which both end.
abbrev single : Conn
single = record { db = some 0; dc = some 7; done = false; readers = 2 }

abbrev drain : Conn → Conn
drain c = record c { readers = 0 }

-- A driver without direct queries.
abbrev pub direct_driver : DirectDriver ℕ
direct_driver = record {
  direct = λ ci. none;
  conn_args = λ ci. plain_driver;
  prepared_call = calling;
  stmt_args = λ si. plain_driver;
}

-- The connection is marked when it is released.
abbrev release : Option Err → M small_env (Unit {0})
release e = set_conn 7 (λ c. record c { need_reset = true })

query_dc-released_example :
    query_dc preparing direct_driver 0 7 (1 ∷ []) (plain 3 ∷ []) release small_world
    ≡ (query_dc preparing direct_driver 0 7 (1 ∷ []) (plain 3 ∷ []) keep >>= release_failed release)
        small_world
query_dc-released_example =
    query_dc-released preparing direct_driver 0 7 (1 ∷ []) (plain 3 ∷ []) release small_world

-- Every call of a single connection.
abbrev all_calls : List (SingleCall small_env ℕ)
all_calls =
    execs 0 (1 ∷ []) (plain 3 ∷ [])
    ∷ queries 0 (1 ∷ []) (plain 3 ∷ [])
    ∷ prepares 9 0 0 (1 ∷ [])
    ∷ begins 0 none
    ∷ pings
    ∷ raws (λ ci. pure none)
    ∷ closes
    ∷ []

close_single-once_example :
    call_errs 1 drain preparing direct_driver tx_driver
      (λ ci. true)
      (λ t ci. none)
      (closes ∷ all_calls)
      single
      small_world
    ≡ (release_conn 1 7 none
          >> pure (none ∷ replicate (length all_calls) (some conn_done), ended single))
        small_world
close_single-once_example =
    close_single-once 1 drain preparing direct_driver tx_driver (λ ci. true) (λ t ci. none)
      all_calls single 7 small_world refl (λ x. refl) refl
