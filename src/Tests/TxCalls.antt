-- ===== src/Tests/TxCalls.antt =====
-- The theorem on who holds a transaction at a concrete run of its calls.
use memsql_conn_pool.Base.{ℕ, true, false, Option, none, some, List, [], ◌∷◌}
use memsql_conn_pool.Arguments.{plain}
use memsql_conn_pool.Runtime.{Outcome, ok}
use memsql_conn_pool.Statements.{Stmt}
use memsql_conn_pool.Transaction.{Tx, new_tx}
use memsql_conn_pool.Transaction.Readers.{
  TxCall, exec_call, query_call, prepare_call, stmt_call, run_calls,
}
use memsql_conn_pool.Tests.Calls.{tx_driver, close_none, release_none}
use memsql_conn_pool.Tests.Instance.{small_env, small_world}
use memsql_conn_pool.Tests.SingleCalls.{direct_driver}
use memsql_conn_pool.Tests.StatementCalls.{preparing, pooled_stmt}

abbrev begun : Tx
begun = new_tx 7 2 false 0

-- A statement of the pool is used in the transaction, one is prepared, and a query leaves rows.
abbrev mixed_calls : List (TxCall ℕ)
mixed_calls =
    stmt_call 8 3 pooled_stmt
    ∷ prepare_call 9 (1 ∷ [])
    ∷ query_call (1 ∷ []) (plain 3 ∷ [])
    ∷ exec_call (1 ∷ []) (plain 3 ∷ [])
    ∷ []

abbrev ran : Outcome small_env (ℕ × Tx)
ran =
    run_calls tx_driver close_none release_none (λ t. t) preparing direct_driver 0 0 mixed_calls
      begun small_world

abbrev left_by : Outcome small_env (ℕ × Tx) → ℕ × Tx
left_by (ok x w) = x
left_by _ = (0, begun)
