-- ===== src/Transaction/Readers.antt =====
-- Who holds `closemu` of a transaction: the calls of transaction.go in any order, and the rows that
-- they leave open.
use memsql_conn_pool.Base.{ℕ, suc, ◌+◌, ◌≡◌, if◌then◌else◌, Bool, false, Option, List, [], ◌∷◌}
use memsql_conn_pool.Arguments.{Arg}
use memsql_conn_pool.Pool.Retry.{Tried}
use memsql_conn_pool.Runtime.{Env, Err, Bytes, ok, M, ◌>>=◌, pure}
use memsql_conn_pool.Statements.{Stmt, PrepareDriver}
use memsql_conn_pool.Statements.Direct.{DirectDriver}
use memsql_conn_pool.Transaction.Frees.{keeps_nothing, keeps_rows, Frees}
use memsql_conn_pool.Transaction.{Tx, TxDriver}
use memsql_conn_pool.Transaction.Queries.{exec_tx, query_tx, prepare_tx}
use memsql_conn_pool.Transaction.Reuse.{stmt_tx}

-- A call on a transaction, with what it takes; a new statement has its number.
pub data TxCall (V : Type 0) : Type 0 where
  exec_call : Bytes → List (Arg V) → TxCall V
  query_call : Bytes → List (Arg V) → TxCall V
  prepare_call : ℕ → Bytes → TxCall V
  stmt_call : ℕ → ℕ → Stmt → TxCall V

-- One more query holds `closemu`, or as many as before; nothing else decides how the transaction ends.
abbrev pub After : Bool → Tx → Tx → Type 0
After more tx tx' = (tx'.readers ≡ tx.readers + (if more then 1 else 0)) × (tx'.done ≡ tx.done)

module _ {env : Env} (driver : TxDriver) (close_prepared : ℕ → M env (Unit {0}))
    (release : Option Err → M env (Unit {0})) (others : Tx → Tx) where
  module _ {A : Type 0} (keeps : Tried A → Bool)
      (work : (Option Err → M env (Unit {0})) → ℕ → M env (Tried A))
      (frees : Frees keeps work) where
    abbrev entered : Tx → Tx
    entered tx = record tx { readers = suc tx.readers }

  -- What a call leaves: the transaction, and whether rows are open.
  opens_rows : {A : Type 0} → (Tried A → Bool) → Tried A × Tx → Bool × Tx
  opens_rows keeps (r, tx) = (keeps r, tx)

  module _ {V : Type 0} (p : PrepareDriver) (d : DirectDriver V) (db ctx : ℕ) where
    -- The call `c`, which tells if it leaves rows open.
    unfoldable pub run_call : TxCall V → Tx → M env (Bool × Tx)
    unfolding opens_rows
    run_call (exec_call query args) tx =
        exec_tx driver close_prepared release others p d ctx query args tx >>= λ r.
        pure (opens_rows keeps_nothing r)
    run_call (query_call query args) tx =
        query_tx driver close_prepared release others p d ctx query args tx >>= λ r.
        pure (opens_rows keeps_rows r)
    run_call (prepare_call self query) tx =
        prepare_tx driver close_prepared release others p self db ctx query tx >>= λ r.
        pure (false, r.1)
    run_call (stmt_call self parent s) tx =
        stmt_tx driver close_prepared release others p db self parent ctx s tx >>= λ r.
        pure (false, r.1)

    -- The calls in turn, and the number of rows that they leave open.
    unfoldable pub run_calls : List (TxCall V) → Tx → M env (ℕ × Tx)
    run_calls [] tx w = ok (0, tx) w
    run_calls (c ∷ cs) tx w =
        (run_call c tx >>= λ r. run_calls cs r.1 >>= λ s. pure ((if r.0 then 1 else 0) + s.0, s.1))
          w
