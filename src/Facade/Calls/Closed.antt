-- ===== src/Facade/Calls/Closed.antt =====
-- The calls of a facade that is closed: conn_pool_facade.go.
use memsql_conn_pool.Base.{ℕ, ◌≡◌, refl, true, some, List, [], ◌∷◌, map, Option}
use memsql_conn_pool.Facade.Calls.{
  exec_facade, query_facade, query_row_facade, begin_tx_facade, on_pool,
}
use memsql_conn_pool.Facade.Pools.{pool_err, Credentials, get_or_create_conn_pool, close_facade}
use memsql_conn_pool.Pool.Retry.{Tried}
use memsql_conn_pool.Runtime.{Env, Err, facade_closed, World, Bytes, M, ok, ◌>>=◌, ◌>>◌, pure}
use memsql_conn_pool.Statements.Direct.{DirectDriver}
use memsql_conn_pool.Statements.{PrepareDriver}
use memsql_conn_pool.Transaction.{TxDriver}

-- A call of a facade, by some credentials.
pub data FacadeCall : Type 0 where
  execs : Credentials → Bytes → FacadeCall
  queries : Credentials → Bytes → FacadeCall
  queries_row : Credentials → Bytes → FacadeCall
  begins : Credentials → FacadeCall

module _ {env : Env} {V : Type 0} (pd : PrepareDriver) (d : DirectDriver V) (td : TxDriver)
    (others : World env → World env) (fuel facade_ctx background : ℕ) where
  err_of : {A : Type 0} → M env (Tried A) → M env (Option Err)
  err_of m = m >>= λ r. pure r.err

  -- The error of a call.
  run_facade_call : FacadeCall → M env (Option Err)
  unfolding err_of
  run_facade_call (execs c sql) =
      err_of (exec_facade pd d td others fuel facade_ctx background c sql)
  run_facade_call (queries c sql) =
      err_of (query_facade pd d td others fuel facade_ctx background c sql)
  run_facade_call (queries_row c sql) =
      err_of (query_row_facade pd d td others fuel facade_ctx background c sql)
  run_facade_call (begins c) = err_of (begin_tx_facade pd d td others fuel facade_ctx background c)

  unfoldable pub facade_errs : List FacadeCall → M env (List (Option Err))
  unfolding run_facade_call
  facade_errs [] w = ok [] w
  facade_errs (c ∷ cs) w = (run_facade_call c >>= λ e. facade_errs cs >>= λ es. pure (e ∷ es)) w

  refuses :
      (c : Credentials) (w : World env)
      → w.facade.closed ≡ true
      → get_or_create_conn_pool c w ≡ ok (pool_err facade_closed) w
  unfolding get_or_create_conn_pool
  refuses c w shut = rw shut refl

  call_refused :
      (c : FacadeCall) (w : World env)
      → w.facade.closed ≡ true
      → run_facade_call c w ≡ ok (some facade_closed) w
  unfolding run_facade_call exec_facade query_facade query_row_facade begin_tx_facade on_pool
  call_refused (execs c sql) w shut = rw (refuses c w shut, ◌>>=◌) refl
  call_refused (queries c sql) w shut = rw (refuses c w shut, ◌>>=◌) refl
  call_refused (queries_row c sql) w shut = rw (refuses c w shut, ◌>>=◌) refl
  call_refused (begins c) w shut = rw (refuses c w shut, ◌>>=◌) refl

  all_refused :
      (cs : List FacadeCall) (w : World env)
      → w.facade.closed ≡ true
      → facade_errs cs w ≡ ok (map (λ _. some facade_closed) cs) w
  unfolding facade_errs
  all_refused [] w shut = refl
  all_refused (c ∷ cs) w shut =
      rw (call_refused c w shut, ◌>>=◌) (rw (all_refused cs w shut, ◌>>=◌) refl)

  -- Once the facade is closed, every call of Exec, Query, QueryRow and BeginTx, by any
  -- credentials and in any order, gives `errPoolFacadeClosed` and touches nothing: no pool is
  -- looked up or made, no connection asked for and the driver not called.
  pub close_facade-refuses :
      (cs : List FacadeCall) (w : World env)
      → (close_facade >> facade_errs cs) w
        ≡ (close_facade >> pure (map (λ _. some facade_closed) cs)) w
  unfolding close_facade
  close_facade-refuses cs w = all_refused cs _ refl
