-- ===== src/Transaction/Reuse.antt =====
-- `StmtContext` and `Stmt` of transaction.go: a prepared statement used in a transaction.
use memsql_conn_pool.Base.{
  ℕ, ◌==◌, if◌then◌else◌, true, false, ◌||◌, not, Option, none, some, [], ◌∷◌, ◌++◌, is_some,
}
use memsql_conn_pool.Deps.{add_dep}
use memsql_conn_pool.Pool.Retry.{Tried}
use memsql_conn_pool.Runtime.{
  Env, Err, other_database, Answer, gives, fails, stmt_node, M, ◌>>=◌, ◌>>◌, pure, gets, lock_conn,
  unlock_conn,
}
use memsql_conn_pool.Statements.Calls.{answer_value}
use memsql_conn_pool.Statements.{
  Stmt, PrepareDriver, stmt_on, remove_closed_stmt_locked, ctx_driver_prepare, new_stmt,
  prepare_on_conn_locked,
}
use memsql_conn_pool.Transaction.Queries.{grabbing_tx}
use memsql_conn_pool.Transaction.{Tx, TxDriver}

-- `&Stmt{stickyErr: err}`: the other fields are zero, and `db`, which is nil there, is not read.
abbrev pub sticky_stmt : Err → Stmt
sticky_stmt e = record {
  db = 0;
  query = [];
  sticky_err = some e;
  cg = false;
  cgds = none;
  parent_stmt = none;
  closed = false;
  css = [];
  last_num_closed = 0;
}

-- The new statement, and the one that it is made from as the call leaves it.
pub record Reused : Type 0 where
  pub made : Stmt
  pub source : Stmt

module _ {env : Env} (p : PrepareDriver) (ctx dc : ℕ) where
  -- The driver's statement of `ds`.
  unfoldable pub si_of : Stmt × Answer → M env (Stmt × Answer)
  si_of (s, fails e) = pure (s, fails e)
  si_of (s, gives ds) = do si ← gets (λ w. (w.stmts ds).si); pure (s, gives si)

  -- A statement that is closed, or of a transaction, is prepared anew.
  unfoldable pub prepare_again : Stmt → M env (Stmt × Answer)
  prepare_again s = do
    lock_conn dc
    ci ← gets (λ w. (w.conns dc).ci)
    answer ← ctx_driver_prepare p ctx ci s.query
    unlock_conn dc
    pure (s, answer)

  unfoldable pub known_or_prepared : Stmt → Option ℕ → M env (Stmt × Answer)
  unfolding si_of
  known_or_prepared s (some ds) = si_of (s, gives ds)
  known_or_prepared s none = do
    lock_conn dc
    r ← prepare_on_conn_locked p s ctx dc
    unlock_conn dc
    si_of r

  unfoldable pub prepared_here : Stmt → M env (Stmt × Answer)
  unfolding known_or_prepared
  prepared_here s = do s' ← remove_closed_stmt_locked s; known_or_prepared s' (stmt_on s'.css dc)

  abbrev pub depend : ℕ → ℕ → Option ℕ → M env (Unit {0})
  depend self db none = pure tt
  depend self db (some parent) = add_dep db (stmt_node parent) (stmt_node self)

  -- The new `driverStmt` has the driver's statement `si`.
  unfoldable pub in_tx : ℕ → Option ℕ → Stmt × Answer → M env Reused
  in_tx self parent (s, fails e) = pure (record { made = sticky_stmt e; source = s })
  in_tx self parent (s, gives si) = do
    ds ← new_stmt p dc true (gives si)
    depend self s.db parent
    pure (record {
      made = record {
        db = s.db;
        query = s.query;
        sticky_err = none;
        cg = true;
        cgds = answer_value ds;
        parent_stmt = parent;
        closed = false;
        css = [];
        last_num_closed = 0;
      };
      source = s;
    })

  -- The statement `parent` in the transaction, as the statement `self`; one with `stickyErr` has
  -- nil for `db`.
  unfoldable pub reuse_stmt : ℕ → ℕ → ℕ → Stmt → M env Reused
  unfolding prepare_again prepared_here in_tx
  reuse_stmt db self parent s =
      if not (db == s.db) || is_some s.sticky_err
      then pure (record { made = sticky_stmt other_database; source = s })
      else if s.closed || s.cg
      then (prepare_again s >>= λ r. in_tx self none r)
      else (prepared_here s >>= λ r. in_tx self (some parent) r)

module _ {env : Env} (driver : TxDriver) (close_prepared : ℕ → M env (Unit {0}))
    (release : Option Err → M env (Unit {0})) (others : Tx → Tx) (p : PrepareDriver) where
  -- A statement that can be used is closed by the end of the transaction. Without a value there is
  -- an error.
  unfoldable pub noted : ℕ → Stmt → Tried Reused × Tx → Reused × Tx
  noted self s (r, tx) = elim r.value [
    | none ↦ (record { made = elim r.err [ none ↦ s | some e ↦ sticky_stmt e ]; source = s }, tx)
    | some u ↦
        (u, if is_some u.made.sticky_err then tx else record tx { stmts = tx.stmts ++ self ∷ [] })
  ]

  valued : Reused → M env (Tried Reused)
  valued u = pure (record { value = some u; err = none })

  -- `db` is the pool of the transaction.
  unfoldable pub stmt_tx : ℕ → ℕ → ℕ → ℕ → Stmt → Tx → M env (Reused × Tx)
  unfolding noted valued
  stmt_tx db self parent ctx s tx =
      grabbing_tx driver close_prepared release others
        (λ free dc. reuse_stmt p ctx dc db self parent s >>= λ u. free none >> valued u) ctx tx
      >>= λ r. pure (noted self s r)
