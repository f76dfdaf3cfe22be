-- ===== src/Tests/StatementCalls.antt =====
-- The theorems on prepared statements at concrete states.
use memsql_conn_pool.Base.{ℕ, ◌≡◌, refl, true, false, Option, none, some, [], ◌∷◌}
use memsql_conn_pool.Arguments.{plain}
use memsql_conn_pool.Pool.Acquire.{cached_or_new_conn, got, ConnResult}
use memsql_conn_pool.Pool.Waiting.{conn}
use memsql_conn_pool.Runtime.{World, Err, stmt_closed, ok, M, pure, gives, Returns}
use memsql_conn_pool.Statements.{
  Stmt, ConnStmt, Grabber, PrepareDriver, conn_stmt, remove_closed_stmt_locked,
}
use memsql_conn_pool.Statements.Calls.{
  CallDriver, exec_stmt_context, query_stmt_context, close_prepared,
}
use memsql_conn_pool.Statements.Swaps.{IsTrimmed, remove_closed_stmt_locked-IsTrimmed}
use memsql_conn_pool.Statements.Ends.{close_prepared-refuses}
use memsql_conn_pool.Statements.Bound.{IsBound, conn_stmt-IsBound}
use memsql_conn_pool.Tests.ArgumentCalls.{plain_driver}
use memsql_conn_pool.Tests.Instance.{world_of, small_env, small_world}

abbrev at_conn : ℕ → ℕ → ConnStmt
at_conn dc ds = record { dc = dc; ds = ds }

-- A statement of the pool 0, prepared on the connection 9.
abbrev pub pooled_stmt : Stmt
pooled_stmt = record {
  db = 0;
  query = 1 ∷ [];
  sticky_err = none;
  cg = false;
  cgds = none;
  parent_stmt = none;
  closed = false;
  css = at_conn 9 3 ∷ [];
  last_num_closed = 0;
}

-- One of a transaction.
abbrev tx_stmt : Stmt
tx_stmt = record pooled_stmt { cg = true; cgds = some 3; css = [] }

remove_closed_stmt_locked-IsTrimmed_example :
    Returns
      (remove_closed_stmt_locked (record pooled_stmt { last_num_closed = 4 }) small_world)
      (λ s' w'. IsTrimmed small_world (record pooled_stmt { last_num_closed = 4 }) s')
remove_closed_stmt_locked-IsTrimmed_example =
    remove_closed_stmt_locked-IsTrimmed (record pooled_stmt { last_num_closed = 4 }) small_world
      refl

abbrev grabber : Grabber small_env
grabber = record { grab = λ ctx. pure (got 7); release = λ dc e. pure tt }

abbrev pub preparing : PrepareDriver
preparing = record {
  is_prepare_context = λ ci. true;
  prepare_context = λ t ctx ci query. gives 2;
  prepare = λ t ci query. gives 2;
}

abbrev taken : World small_env
taken = world_of (conn (λ w. w) 1 0 cached_or_new_conn 0 small_world)

conn_stmt-IsBound_example :
    Returns
      (conn_stmt preparing (λ w. w) 1 grabber 0 cached_or_new_conn pooled_stmt small_world)
      (λ r _. IsBound 7 r)
unfolding remove_closed_stmt_locked conn memsql_conn_pool.Pool.Acquire.last_of
    memsql_conn_pool.Pool.Acquire.take_idle memsql_conn_pool.Conn.expired
    memsql_conn_pool.Conn.reset_session
conn_stmt-IsBound_example =
    conn_stmt-IsBound preparing (λ w. w) 1 grabber 0 7 5 2 cached_or_new_conn pooled_stmt
      pooled_stmt small_world small_world taken refl refl refl refl refl refl refl refl refl refl

abbrev pub calling : CallDriver ℕ
calling = record {
  has_context = λ si. true;
  with_context = λ t ctx si nvs. gives t;
  without_context = λ t si vs. gives t;
}

abbrev no_other : ℕ → M small_env (Option Err)
no_other n = pure none

abbrev closed_stmt : Stmt
closed_stmt = record tx_stmt { closed = true; cgds = none }

close_prepared-refuses_example :
    (exec_stmt_context preparing
        (λ w. w)
        1
        grabber
        calling
        (λ si. plain_driver)
        0
        (plain 3 ∷ [])
        closed_stmt
        small_world
      ≡ ok (closed_stmt, record { value = none; err = some stmt_closed }) small_world)
    × (query_stmt_context preparing
          (λ w. w)
          1
          grabber
          calling
          (λ si. plain_driver)
          2
          6
          0
          (plain 3 ∷ [])
          closed_stmt
          small_world
        ≡ ok (closed_stmt, record { value = none; err = some stmt_closed }) small_world)
    × (close_prepared no_other 2 closed_stmt small_world ≡ ok (closed_stmt, none) small_world)
unfolding close_prepared memsql_conn_pool.Conn.close_stmt
close_prepared-refuses_example =
    close_prepared-refuses preparing (λ w. w) 1 grabber calling (λ si. plain_driver) no_other 2 6 0
      (plain 3 ∷ []) tx_stmt closed_stmt none small_world
      (world_of (close_prepared no_other 2 tx_stmt small_world)) small_world refl refl
