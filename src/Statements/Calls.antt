-- ===== src/Statements/Calls.antt =====
-- `ExecContext`, `QueryContext` and `Close` of a statement, with the calls of the driver in
-- ctxutil.go.
use memsql_conn_pool.Base.{
  ℕ, zero, suc, ◌==◌, if◌then◌else◌, Bool, true, false, Option, none, some, List, [], ◌∷◌,
}
use memsql_conn_pool.Arguments.{
  Arg, NamedValue, ArgDriver, ArgsResult, args_ok, args_err, args_spin, index_out_of_range,
  driver_args_conn_locked,
}
use memsql_conn_pool.Conn.{close_stmt}
use memsql_conn_pool.Deps.{Closer, final_close_of, duplicate, add_dep, remove_dep}
use memsql_conn_pool.Pool.Acquire.{always_new_conn, cached_or_new_conn}
use memsql_conn_pool.Pool.Put.{release_conn}
use memsql_conn_pool.Pool.Retry.{Tried, max_bad_conn_retries}
use memsql_conn_pool.Runtime.{
  Env, Err, bad_conn, is_bad_conn, duplicate_close, named_unsupported, World, Answer, gives, fails,
  stmt_node, rows_node, M, ◌>>=◌, ◌>>◌, pure, panic, gets, ask, lock_conn, unlock_conn, nil_pointer,
  index_range, no_fuel,
}
use memsql_conn_pool.Rows.{Rows}
use memsql_conn_pool.Statements.{
  Stmt, Grabber, PrepareDriver, Found, found, missed, conn_stmt, final_close_stmt,
}

-- What the driver does with a query, with and without a context. A call takes its number, what it
-- is called on, and the arguments.
pub record CallDriver (V : Type 0) : Type 0 where
  pub has_context : ℕ → Bool
  pub with_context : ℕ → ℕ → ℕ → List (NamedValue V) → Answer
  pub without_context : ℕ → ℕ → List V → Answer

-- `namedValueToValue`; none is the error for a name.
unfoldable pub named_value_to_value : {V : Type 0} → List (NamedValue V) → Option (List V)
named_value_to_value [] = some []
named_value_to_value (nv ∷ nvs) =
    let rest = named_value_to_value nvs in
    elim nv.name [ [] ↦ elim rest [ none ↦ none | some vs ↦ some (nv.value ∷ vs) ] | b ∷ bs ↦ none ]

abbrev pub answer_err : Answer → Option Err
answer_err (gives r) = none
answer_err (fails e) = some e

abbrev pub answer_value : Answer → Option ℕ
answer_value (gives r) = some r
answer_value (fails e) = none

module _ {env : Env} {V : Type 0} where
  plain_call : CallDriver V → ℕ → ℕ → Option (List V) → M env Answer
  plain_call d ctx x none = pure (fails named_unsupported)
  plain_call d ctx x (some vs) = do
    done ← ask (λ t. env.ctx_done t ctx)
    elim done [ some e ↦ pure (fails e) | none ↦ ask (λ t. d.without_context t x vs) ]

  -- `ctxDriverStmtExec` and `ctxDriverStmtQuery`, on a statement.
  unfoldable pub ctx_driver_call : CallDriver V → ℕ → ℕ → List (NamedValue V) → M env Answer
  unfolding plain_call named_value_to_value
  ctx_driver_call d ctx x nvs =
      if d.has_context x
      then ask (λ t. d.with_context t ctx x nvs)
      else plain_call d ctx x (named_value_to_value nvs)

  unfoldable pub call_args : CallDriver V → ℕ → ℕ → ArgsResult V → M env Answer
  unfolding ctx_driver_call
  call_args d ctx si (args_ok nvs) = ctx_driver_call d ctx si nvs
  call_args d ctx si (args_err e) = pure (fails e)
  call_args d ctx si index_out_of_range = panic index_range
  call_args d ctx si args_spin = λ w. no_fuel

  -- `resultFromStatement` and `rowsiFromStatement`; `args_of` is what the driver does for the
  -- arguments of a statement.
  unfoldable pub from_statement :
      CallDriver V → (ℕ → ArgDriver V) → ℕ → Option ℕ → List (Arg V) → M env Answer
  unfolding call_args
  from_statement d args_of ctx none args = panic nil_pointer
  from_statement d args_of ctx (some ds) args = do
    dc ← gets (λ w. (w.stmts ds).locker)
    lock_conn dc
    si ← gets (λ w. (w.stmts ds).si)
    answer ← call_args d ctx si (driver_args_conn_locked (args_of si) 4 args)
    unlock_conn dc
    pure answer

module _ {env : Env} (p : PrepareDriver) (others : World env → World env) (fuel : ℕ)
    (g : Grabber env) where
  -- The function that `connStmt` gives to release the connection.
  abbrev pub release_of : Stmt → ℕ → Option Err → M env (Unit {0})
  release_of s dc err = if s.cg then g.release dc err else release_conn fuel dc err

  module _ {A : Type 0} (work : Stmt → ℕ → Option ℕ → M env (Tried A)) where
    -- `if err == driver.ErrBadConn { continue }; return nil, err`.
    unfoldable pub missed_or : (Stmt → M env (Stmt × Tried A)) → Stmt → Err → M env (Stmt × Tried A)
    missed_or again s e =
        if is_bad_conn (some e) then again s else pure (s, record { value = none; err = some e })

    -- `work` is done with the connection, and releases it or passes it on.
    unfoldable pub worked : (Stmt → M env (Stmt × Tried A)) → Stmt × Found → M env (Stmt × Tried A)
    unfolding missed_or
    worked again (s, missed e) = missed_or again s e
    worked again (s, found dc ds) = do
      r ← work s dc ds
      if is_bad_conn r.err then again s else pure (s, r)

    -- The loops of `ExecContext` and `QueryContext`, with the attempts that are left; the last is
    -- made with a new connection.
    unfoldable pub stmt_attempts : ℕ → ℕ → Stmt → M env (Stmt × Tried A)
    unfolding worked
    stmt_attempts ctx zero s = pure (s, record { value = none; err = some bad_conn })
    stmt_attempts ctx (suc n) s =
        conn_stmt p others fuel g ctx (if n == 0 then always_new_conn else cached_or_new_conn) s
        >>= λ r. worked (stmt_attempts ctx n) r

  module _ {V : Type 0} (d : CallDriver V) (args_of : ℕ → ArgDriver V) where
    pub exec_work : ℕ → List (Arg V) → Stmt → ℕ → Option ℕ → M env (Tried ℕ)
    unfolding from_statement
    exec_work ctx args s dc ds = do
      answer ← from_statement d args_of ctx ds args
      release_of s dc (answer_err answer)
      pure (record { value = answer_value answer; err = answer_err answer })

    unfoldable pub exec_stmt_context : ℕ → List (Arg V) → Stmt → M env (Stmt × Tried ℕ)
    unfolding stmt_attempts exec_work
    exec_stmt_context ctx args s =
        stmt_attempts (exec_work ctx args) ctx (suc max_bad_conn_retries) s

    abbrev pub rows_of : ℕ → ℕ → Rows
    rows_of dc rowsi = record {
      dc = dc;
      rowsi = rowsi;
      cancelled = false;
      stmt_to_close = none;
      closed = false;
      lasterr = none;
      lastcols = none;
    }

    -- Rows that are there keep the connection, and the statement is not finally closed before them.
    opened_rows : ℕ → ℕ → Stmt → ℕ → Answer → M env (Tried Rows)
    opened_rows self rows s dc (gives rowsi) = do
      add_dep s.db (stmt_node self) (rows_node rows)
      pure (record { value = some (rows_of dc rowsi); err = none })
    opened_rows self rows s dc (fails e) = do
      release_of s dc (some e)
      pure (record { value = none; err = some e })

    pub query_work : ℕ → ℕ → ℕ → List (Arg V) → Stmt → ℕ → Option ℕ → M env (Tried Rows)
    unfolding from_statement opened_rows
    query_work self rows ctx args s dc ds =
        from_statement d args_of ctx ds args >>= opened_rows self rows s dc

    -- The statement is `self`, and the new rows are `rows`.
    unfoldable pub query_stmt_context : ℕ → ℕ → ℕ → List (Arg V) → Stmt → M env (Stmt × Tried Rows)
    unfolding stmt_attempts query_work
    query_stmt_context self rows ctx args s =
        stmt_attempts (query_work self rows ctx args) ctx (suc max_bad_conn_retries) s

module _ {env : Env} where
  -- The function that `removeDep` gets for the statement `self`; `other` is that of another one.
  unfoldable pub run_stmt_closer :
      (ℕ → M env (Option Err)) → ℕ → Stmt → Closer → M env (Stmt × Option Err)
  run_stmt_closer other self s (final_close_of (stmt_node n)) =
      if n == self then final_close_stmt s else (other n >>= λ e. pure (s, e))
  run_stmt_closer other self s duplicate = pure (s, some duplicate_close)
  run_stmt_closer other self s _ = pure (s, none)

  unfoldable pub closed_grabbed :
      (ℕ → M env (Option Err)) → ℕ → Stmt → Option ℕ → Option ℕ → M env (Stmt × Option Err)
  unfolding run_stmt_closer
  closed_grabbed other self s (some parent) txds =
      remove_dep s.db (stmt_node parent) (stmt_node self) >>= run_stmt_closer other self s
  closed_grabbed other self s none none = panic nil_pointer
  closed_grabbed other self s none (some ds) = close_stmt ds >>= λ e. pure (s, e)

  -- `Stmt.Close`; `other` is the final closing of another statement.
  unfoldable pub close_prepared : (ℕ → M env (Option Err)) → ℕ → Stmt → M env (Stmt × Option Err)
  unfolding closed_grabbed run_stmt_closer
  close_prepared other self s = elim s.sticky_err [
    | some e ↦ pure (s, some e)
    | none ↦
        if s.closed
        then pure (s, none)
        else (let s' = record s { closed = true; cgds = none } in
            if s.cg
            then closed_grabbed other self s' s.parent_stmt s.cgds
            else (remove_dep s.db (stmt_node self) (stmt_node self)
                >>= run_stmt_closer other self s'))
  ]

  -- The function that releases the connection of rows of a statement: `releaseConn`, and
  -- `removeDep`.
  unfoldable pub release_rows :
      (ℕ → M env (Option Err))
      → ℕ
      → ℕ
      → (Option Err → M env (Unit {0}))
      → Stmt
      → Option Err
      → M env (Stmt × Option Err)
  unfolding run_stmt_closer
  release_rows other self rows release s err = do
    release err
    remove_dep s.db (stmt_node self) (rows_node rows) >>= run_stmt_closer other self s
