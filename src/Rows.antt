-- ===== src/Rows.antt =====
-- The rows of a query: rows.go, and row.go. A call on them takes their state and gives it back; the calls
-- are taken one after the other, as `closemu` makes them. The conversion of a value and
-- `releaseConn` are arguments.
pub mod Ends
pub mod Row
pub mod Columns
use memsql_conn_pool.Base.{
  ℕ, zero, suc, ◌==◌, if◌then◌else◌, Bool, true, false, ◌&&◌, not, Option, none, some, is_some,
  List, [], ◌∷◌, length, replicate,
}
use memsql_conn_pool.Conn.{close_stmt}
use memsql_conn_pool.Runtime.{
  Env, Err, eof, rows_closed, no_rows, scan_without_next, scan_arity, scan_column, canceled, World,
  M, ◌>>=◌, ◌>>◌, pure, gets, ask, when, lock_conn, unlock_conn,
}

abbrev pub is_eof : Err → Bool
is_eof eof = true
is_eof _ = false

pub record Rows : Type 0 where
  pub dc : ℕ
  pub rowsi : ℕ
  pub cancelled : Bool
  pub stmt_to_close : Option ℕ
  pub closed : Bool
  pub lasterr : Option Err
  pub lastcols : Option (List ℕ)

-- What the driver does for rows. `Next` writes the columns into the slice that it is given.
pub record RowsDriver : Type 0 where
  pub columns : ℕ → ℕ → ℕ
  pub next_row : ℕ → ℕ → List ℕ → List ℕ × Option Err
  pub is_next_result_set : ℕ → Bool
  pub has_next_result_set : ℕ → ℕ → Bool
  pub next_set : ℕ → ℕ → Option Err
  pub close_rowsi : ℕ → ℕ → Option Err

-- `lasterrOrErrLocked`.
unfoldable pub lasterr_or_err_locked : Rows → Option Err → Option Err
lasterr_or_err_locked rs err = elim rs.lasterr [
  | none ↦ err
  | some e ↦ if is_eof e then err else some e
]

-- `Rows.Err`.
unfoldable pub rows_err : Rows → Option Err
unfolding lasterr_or_err_locked
rows_err rs = lasterr_or_err_locked rs none

-- The checks of `Scan`, and its loop over the columns; `convert` is `convertAssignRows` with the
-- index of the destination.
scan_from : (ℕ → ℕ → Option Err) → ℕ → List ℕ → Option Err
scan_from convert i [] = none
scan_from convert i (v ∷ vs) =
    let rest = scan_from convert (suc i) vs in
    elim (convert i v) [ some e ↦ some (scan_column i e) | none ↦ rest ]

scan_columns : (ℕ → ℕ → Option Err) → ℕ → Option (List ℕ) → Option Err
unfolding scan_from
scan_columns convert dests none = some scan_without_next
scan_columns convert dests (some vs) =
    if dests == length vs then scan_from convert 0 vs else some scan_arity

unfoldable pub scan : (ℕ → ℕ → Option Err) → ℕ → Rows → Option Err
unfolding scan_columns rows_err lasterr_or_err_locked
scan convert dests rs =
    if is_some (rows_err rs)
    then rows_err rs
    else if rs.closed
    then lasterr_or_err_locked rs (some rows_closed)
    else scan_columns convert dests rs.lastcols

module _ {env : Env} (driver : RowsDriver) (release : Option Err → M env (Unit {0})) where
  unfoldable pub close_held : Option ℕ → M env (Unit {0})
  close_held none = pure tt
  close_held (some ds) = close_stmt ds >>= λ _. pure tt

  -- `Rows.close`.
  unfoldable pub close_with : Option Err → Rows → M env (Option Err × Rows)
  unfolding close_held
  close_with err rs = if rs.closed then pure (none, rs) else (do
    lock_conn rs.dc
    e ← ask (λ t. driver.close_rowsi t rs.rowsi)
    unlock_conn rs.dc
    close_held rs.stmt_to_close
    release e
    pure (
      e,
      record rs {
        closed = true;
        cancelled = true;
        lasterr = if is_some rs.lasterr then rs.lasterr else err;
      },
    ))

  unfoldable pub close : Rows → M env (Option Err × Rows)
  unfolding close_with
  close rs = close_with none rs

  -- What `awaitDone` does once the context of the query or of its transaction is done.
  unfoldable pub await_done : ℕ → Rows → M env (Option Err × Rows)
  unfolding close_with
  await_done ctx rs = do e ← ask (λ t. env.ctx_done t ctx); close_with e rs

  abbrev pub start_columns : Rows → M env (List ℕ)
  start_columns rs = elim rs.lastcols [
    | none ↦ ask (λ t. replicate (driver.columns t rs.rowsi) 0)
    | some cols ↦ pure cols
  ]

  -- Whether rows at the end of a result set are to be closed.
  abbrev pub at_end : Rows → Err → M env Bool
  at_end rs e =
      if not (is_eof e)
      then pure true
      else if not (driver.is_next_result_set rs.rowsi)
      then pure true
      else ask (λ t. not (driver.has_next_result_set t rs.rowsi))

  -- What follows the driver's `Next`, which gave the columns and the error.
  read_row : Rows → List ℕ → Option Err → M env ((Bool × Bool) × Rows)
  read_row rs cols none = do
    unlock_conn rs.dc
    pure ((false, true), record rs { lastcols = some cols; lasterr = none })
  read_row rs cols (some e) = do
    do_close ← at_end rs e
    unlock_conn rs.dc
    pure ((do_close, false), record rs { lastcols = some cols; lasterr = some e })

  -- `nextLocked`: whether to close, and whether there is a row.
  unfoldable pub next_locked : Rows → M env ((Bool × Bool) × Rows)
  unfolding read_row
  next_locked rs = if rs.closed then pure ((false, false), rs) else (do
    lock_conn rs.dc
    cols ← start_columns rs
    r ← ask (λ t. driver.next_row t rs.rowsi cols)
    read_row rs r.0 r.1)

  unfoldable pub after_next : (Bool × Bool) → Rows → M env (Bool × Rows)
  unfolding close
  after_next r rs = if r.0 then (do (_, rs') ← close rs; pure (r.1, rs')) else pure (r.1, rs)

  unfoldable pub next : Rows → M env (Bool × Rows)
  unfolding next_locked after_next
  next rs = do (r, rs') ← next_locked rs; after_next r rs'

  unfoldable pub next_result_set : Rows → M env (Bool × Rows)
  unfolding after_next
  next_result_set rs =
      if rs.closed
      then pure (false, rs)
      else if not (driver.is_next_result_set rs.rowsi)
      then after_next (true, false) (record rs { lastcols = none })
      else (do
        lock_conn rs.dc
        err ← ask (λ t. driver.next_set t rs.rowsi)
        unlock_conn rs.dc
        after_next (is_some err, not (is_some err)) (record rs { lastcols = none; lasterr = err }))
