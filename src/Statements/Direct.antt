-- ===== src/Statements/Direct.antt =====
-- A query on one connection: `execDC` of conn_pool_exec.go, `queryDC` of conn_pool_query.go,
-- `prepareDC` of conn_pool_prepare.go, with the calls of the driver in ctxutil.go. What releases
-- the connection is an argument.
use memsql_conn_pool.Base.{ℕ, suc, if◌then◌else◌, Bool, false, Option, none, some, List, [], ◌∷◌}
use memsql_conn_pool.Arguments.{Arg, ArgDriver, driver_args_conn_locked}
use memsql_conn_pool.Arguments.Rounds.{is_skip}
use memsql_conn_pool.Conn.{close_stmt}
use memsql_conn_pool.Deps.{add_dep}
use memsql_conn_pool.Pool.Retry.{Tried}
use memsql_conn_pool.Rows.{Rows}
use memsql_conn_pool.Runtime.{
  Env, Err, skip, Bytes, Answer, gives, fails, stmt_node, M, ◌>>=◌, ◌>>◌, pure, gets, modify,
  set_stmt, lock_conn, unlock_conn,
}
use memsql_conn_pool.Statements.{Stmt, PrepareDriver, ctx_driver_prepare, prepare_locked}
use memsql_conn_pool.Statements.Calls.{
  CallDriver, answer_err, answer_value, call_args, from_statement,
}

-- What a driver's connection does: a direct query, where it has one; and the arguments of a query
-- without a statement, and of a statement.
pub record DirectDriver (V : Type 0) : Type 0 where
  pub direct : ℕ → Option (Bytes → CallDriver V)
  pub conn_args : ℕ → ArgDriver V
  pub prepared_call : CallDriver V
  pub stmt_args : ℕ → ArgDriver V

abbrev pub new_rows : ℕ → ℕ → Option ℕ → Rows
new_rows dc rowsi ds = record {
  dc = dc;
  rowsi = rowsi;
  cancelled = false;
  stmt_to_close = ds;
  closed = false;
  lasterr = none;
  lastcols = none;
}

abbrev pub rows_failed : Err → Tried Rows
rows_failed e = record { value = none; err = some e }

module _ {env : Env} {V : Type 0} (p : PrepareDriver) (d : DirectDriver V) (ctx dc : ℕ)
    (query : Bytes) (args : List (Arg V)) where
  -- Without a direct query the code goes on as after `ErrSkip`.
  unfoldable pub call_directly : ℕ → Option (Bytes → CallDriver V) → M env Answer
  call_directly ci none = pure (fails skip)
  call_directly ci (some call) = do
    lock_conn dc
    answer ← call_args (call query) ctx ci (driver_args_conn_locked (d.conn_args ci) 4 args)
    unlock_conn dc
    pure answer

  unfoldable pub direct_call : Option ℕ → M env Answer
  unfolding call_directly
  direct_call none = pure (fails skip)
  direct_call (some ci) = call_directly ci (d.direct ci)

  unfoldable pub prepare_unlocking : Option ℕ → M env Answer
  prepare_unlocking ci = do
    lock_conn dc
    answer ← ctx_driver_prepare p ctx ci query
    unlock_conn dc
    pure answer

  -- `&driverStmt{Locker: dc, si: si}`.
  unfoldable pub plain_stmt : ℕ → M env ℕ
  plain_stmt si = do
    ds ← gets (λ w. w.next_stmt)
    modify (λ w. record w { next_stmt = suc w.next_stmt })
    set_stmt ds (λ _. record { locker = dc; si = si; closed = false; close_err = none })
    pure ds

  unfoldable pub run_prepared : Answer → M env Answer
  unfolding plain_stmt
  run_prepared (fails e) = pure (fails e)
  run_prepared (gives si) = do
    ds ← plain_stmt si
    answer ← from_statement d.prepared_call d.stmt_args ctx (some ds) args
    _ ← close_stmt ds
    pure answer

  unfoldable pub or_prepared : Option ℕ → Answer → M env Answer
  unfolding prepare_unlocking run_prepared
  or_prepared ci answer =
      if is_skip (answer_err answer) then (prepare_unlocking ci >>= run_prepared) else pure answer

  -- `execDC`.
  unfoldable pub exec_dc : (Option Err → M env (Unit {0})) → M env (Tried ℕ)
  unfolding direct_call or_prepared
  exec_dc release = do
    ci ← gets (λ w. (w.conns dc).ci)
    first ← direct_call ci
    answer ← or_prepared ci first
    release (answer_err answer)
    pure (record { value = answer_value answer; err = answer_err answer })

  -- Rows that are there keep the connection.
  module _ (release : Option Err → M env (Unit {0})) where
    unfoldable pub rows_directly : Answer → M env (Tried Rows)
    rows_directly (gives rowsi) =
        pure (record { value = some (new_rows dc rowsi none); err = none })
    rows_directly (fails e) = release (some e) >> pure (rows_failed e)

    unfoldable pub rows_prepared : ℕ → Answer → M env (Tried Rows)
    rows_prepared ds (gives rowsi) =
        pure (record { value = some (new_rows dc rowsi (some ds)); err = none })
    rows_prepared ds (fails e) = close_stmt ds >>= λ _. release (some e) >> pure (rows_failed e)

    unfoldable pub query_prepared : Answer → M env (Tried Rows)
    unfolding rows_prepared
    query_prepared (fails e) = release (some e) >> pure (rows_failed e)
    query_prepared (gives si) = plain_stmt si >>= λ ds.
        from_statement d.prepared_call d.stmt_args ctx (some ds) args >>= rows_prepared ds

    unfoldable pub query_after : Option ℕ → Answer → M env (Tried Rows)
    unfolding rows_directly query_prepared
    query_after ci answer =
        if is_skip (answer_err answer)
        then (prepare_unlocking ci >>= query_prepared)
        else rows_directly answer

    -- `queryDC`.
    unfoldable pub query_dc : M env (Tried Rows)
    unfolding query_after
    query_dc = gets (λ w. (w.conns dc).ci) >>= λ ci. direct_call ci >>= query_after ci

-- `prepareDC`; the statement is `self`.
module _ {env : Env} (p : PrepareDriver) (ctx dc : ℕ) (query : Bytes) where
  unfoldable pub made_stmt : ℕ → ℕ → Bool → Answer → M env (Tried Stmt)
  made_stmt self db cg (fails e) = pure (record { value = none; err = some e })
  made_stmt self db cg (gives ds) = do
    closed ← gets (λ w. (w.pools db).num_closed)
    (if cg then pure tt else add_dep db (stmt_node self) (stmt_node self))
    pure (record {
      value = some (record {
        db = db;
        query = query;
        sticky_err = none;
        cg = cg;
        cgds = some ds;
        parent_stmt = none;
        closed = false;
        css = if cg then [] else record { dc = dc; ds = ds } ∷ [];
        last_num_closed = if cg then 0 else closed;
      });
      err = none;
    })

  unfoldable pub prepare_dc : ℕ → ℕ → Bool → (Option Err → M env (Unit {0})) → M env (Tried Stmt)
  unfolding made_stmt
  prepare_dc self db cg release = do
    lock_conn dc
    answer ← prepare_locked p dc ctx cg query
    unlock_conn dc
    r ← made_stmt self db cg answer
    release (answer_err answer)
    pure r

-- `releaseConn(err)` where the query has failed.
abbrev pub release_failed :
    {env : Env} → (Option Err → M env (Unit {0})) → Tried Rows → M env (Tried Rows)
release_failed release r = elim r.err [ none ↦ pure r | some e ↦ release (some e) >> pure r ]
