-- ===== src/Transaction/Queries.antt =====
-- The queries and the statements of a transaction: `ExecContext`, `QueryContext` and
-- `PrepareContext` of transaction.go. While the work on the connection runs, the holders of
-- `closemu` are counted in the world, where `closemuRUnlockRelease`, which the work is given, meets
-- them.
use memsql_conn_pool.Base.{ℕ, zero, suc, true, Option, none, some, List, [], ◌∷◌, ◌++◌}
use memsql_conn_pool.Arguments.{Arg}
use memsql_conn_pool.Pool.Retry.{Tried}
use memsql_conn_pool.Rows.{Rows}
use memsql_conn_pool.Runtime.{
  Env, Err, Bytes, M, ◌>>=◌, ◌>>◌, pure, panic, nil_pointer, gets, modify, unlocked_mutex,
}
use memsql_conn_pool.Statements.{Stmt, PrepareDriver}
use memsql_conn_pool.Statements.Direct.{DirectDriver, exec_dc, query_dc, prepare_dc}
use memsql_conn_pool.Transaction.{Tx, TxDriver, grab_conn}

module _ {env : Env} where
  -- `closemuRUnlockRelease` of the transaction on which a call runs.
  unfoldable pub closemu_r_unlock_release : Option Err → M env (Unit {0})
  closemu_r_unlock_release err = do
    holders ← gets (λ w. w.closemu)
    elim holders [ zero ↦ panic unlocked_mutex | suc n ↦ modify (λ w. record w { closemu = n }) ]

module _ {env : Env} (driver : TxDriver) (close_prepared : ℕ → M env (Unit {0}))
    (release : Option Err → M env (Unit {0})) (others : Tx → Tx) where
  -- The work gets the connection and its release.
  module _ {A : Type 0} (work : (Option Err → M env (Unit {0})) → ℕ → M env (Tried A)) where
    unfoldable pub on_grabbed : Tx → Option ℕ → Option Err → M env (Tried A × Tx)
    unfolding closemu_r_unlock_release
    on_grabbed tx dc (some e) = pure (record { value = none; err = some e }, tx)
    on_grabbed tx none none = panic nil_pointer
    on_grabbed tx (some dc) none = do
      modify (λ w. record w { closemu = tx.readers })
      r ← work closemu_r_unlock_release dc
      holders ← gets (λ w. w.closemu)
      pure (r, record tx { readers = holders })

    unfoldable pub grabbing_tx : ℕ → Tx → M env (Tried A × Tx)
    unfolding on_grabbed
    grabbing_tx ctx tx = grab_conn driver close_prepared release others ctx tx >>= λ r.
        on_grabbed r.1 r.0.value r.0.err

  module _ {V : Type 0} (p : PrepareDriver) (d : DirectDriver V) (ctx : ℕ) (query : Bytes)
      (args : List (Arg V)) where
    unfoldable pub exec_tx : Tx → M env (Tried ℕ × Tx)
    unfolding grabbing_tx
    exec_tx tx = grabbing_tx (λ free dc. exec_dc p d ctx dc query args free) ctx tx

    unfoldable pub query_tx : Tx → M env (Tried Rows × Tx)
    unfolding grabbing_tx
    query_tx tx = grabbing_tx (λ free dc. query_dc p d ctx dc query args free) ctx tx

  -- The new statement is `self`, which the end of the transaction closes.
  unfoldable pub with_stmt : ℕ → Tried Stmt × Tx → Tried Stmt × Tx
  with_stmt self (r, tx) = elim r.err [
    | none ↦ (r, record tx { stmts = tx.stmts ++ self ∷ [] })
    | some e ↦ (r, tx)
  ]

  unfoldable pub prepare_tx : PrepareDriver → ℕ → ℕ → ℕ → Bytes → Tx → M env (Tried Stmt × Tx)
  unfolding grabbing_tx with_stmt
  prepare_tx p self db ctx query tx =
      grabbing_tx (λ free dc. prepare_dc p ctx dc query self db true free) ctx tx >>= λ r.
      pure (with_stmt self r)
