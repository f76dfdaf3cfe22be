-- ===== src/Facade/Calls.antt =====
-- The calls of conn_pool_facade.go that go to the pool of some credentials: `Exec`, `Query`,
-- `QueryRow` and `BeginTx`. They pass a query without arguments.
pub mod Closed
pub mod Served
pub mod Held
pub mod Begun
use memsql_conn_pool.Base.{ℕ, Option, none, some, []}
use memsql_conn_pool.Facade.Pools.{
  Credentials, PoolResult, pool_ok, pool_err, get_or_create_conn_pool,
}
use memsql_conn_pool.Pool.Put.{release_conn}
use memsql_conn_pool.Pool.Retry.{Tried, exec_context, query_context, begin_tx}
use memsql_conn_pool.Rows.Row.{Row, row_err, row_rows}
use memsql_conn_pool.Rows.{Rows}
use memsql_conn_pool.Runtime.{Env, Err, World, Bytes, M, ◌>>=◌, pure}
use memsql_conn_pool.Statements.Direct.{DirectDriver, exec_dc, query_dc}
use memsql_conn_pool.Statements.{PrepareDriver}
use memsql_conn_pool.Transaction.{Tx, TxDriver, begin_dc}

abbrev pub refused : {A : Type 0} → Err → Tried A
refused e = record { value = none; err = some e }

-- `if err != nil { return nil, err }; return result, nil`.
abbrev pub checked : {A : Type 0} → Tried A → Tried A
checked r = elim r.err [ none ↦ r | some e ↦ refused e ]

-- The row with the rows or the error; a query gives one of the two.
abbrev pub row_with : Option Rows → Option Err → Option Row
row_with rows (some e) = some (row_err e)
row_with (some rs) none = some (row_rows rs)
row_with none none = none

module _ {env : Env} where
  unfoldable pub on_pool : {A : Type 0} → (ℕ → M env (Tried A)) → PoolResult → M env (Tried A)
  on_pool work (pool_err e) = pure (refused e)
  on_pool work (pool_ok p) = do r ← work p; pure (checked r)

  -- `facade_ctx` is the context of the facade, `background` is `context.Background()`.
  module _ {V : Type 0} (pd : PrepareDriver) (d : DirectDriver V) (td : TxDriver)
      (others : World env → World env) (fuel facade_ctx background : ℕ) (c : Credentials) where
    unfoldable pub exec_facade : Bytes → M env (Tried ℕ)
    unfolding on_pool
    exec_facade sql = do
      pool ← get_or_create_conn_pool c
      on_pool
          (λ p.
            exec_context others fuel facade_ctx p
              (λ dc. exec_dc pd d facade_ctx dc sql [] (release_conn fuel dc)))
          pool

    unfoldable pub query_pool : Bytes → ℕ → M env (Tried Rows)
    query_pool sql p =
        query_context others fuel facade_ctx p
          (λ dc. query_dc pd d facade_ctx dc sql [] (release_conn fuel dc))

    unfoldable pub query_facade : Bytes → M env (Tried Rows)
    unfolding on_pool query_pool
    query_facade sql = do pool ← get_or_create_conn_pool c; on_pool (query_pool sql) pool

    -- `QueryRowContext` gives a row with the error in it.
    row_of : Bytes → ℕ → M env (Tried Row)
    unfolding query_pool
    row_of sql p = do
      r ← query_pool sql p
      pure (record { value = row_with r.value r.err; err = none })

    unfoldable pub query_row_facade : Bytes → M env (Tried Row)
    unfolding on_pool row_of
    query_row_facade sql = do pool ← get_or_create_conn_pool c; on_pool (row_of sql) pool

    unfoldable pub begin_tx_facade : M env (Tried Tx)
    unfolding on_pool
    begin_tx_facade = do
      pool ← get_or_create_conn_pool c
      on_pool
          (λ p.
            begin_tx others fuel background p
              (λ dc. begin_dc td background none dc (release_conn fuel dc)))
          pool
