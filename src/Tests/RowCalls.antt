-- ===== src/Tests/RowCalls.antt =====
-- The theorems on rows at concrete states.
use memsql_conn_pool.Base.{refl, false, Option, none, some, [], ◌∷◌}
use memsql_conn_pool.Rows.{Rows, RowsDriver, next}
use memsql_conn_pool.Rows.Ends.{Advanced, next-Advanced}
use memsql_conn_pool.Rows.Row.{row_rows, scan_row, Scanned, scan_row-closes}
use memsql_conn_pool.Runtime.{M, pure, Err, eof, Returns}
use memsql_conn_pool.Tests.Instance.{small_env, small_world}

-- A result with no row left.
abbrev pub rows_driver : RowsDriver
rows_driver = record {
  columns = λ t rowsi. 2;
  next_row = λ t rowsi cols. (cols, some eof);
  is_next_result_set = λ rowsi. false;
  has_next_result_set = λ t rowsi. false;
  next_set = λ t rowsi. some eof;
  close_rowsi = λ t rowsi. none;
}

-- New rows of a query.
abbrev open_rows : Rows
open_rows = record {
  dc = 7;
  rowsi = 1;
  cancelled = false;
  stmt_to_close = none;
  closed = false;
  lasterr = none;
  lastcols = none;
}

abbrev release_conn : Option Err → M small_env (Unit {0})
release_conn e = pure tt

next-Advanced_example :
    Returns
      (next rows_driver release_conn open_rows small_world)
      (Advanced rows_driver release_conn (0 ∷ 0 ∷ []) (some eof))
next-Advanced_example =
    next-Advanced rows_driver release_conn open_rows small_world refl refl refl refl (λ e v. tt)

-- The destinations are two variables, and none is a `*RawBytes`.
scan_row-closes_example :
    Returns
      (scan_row rows_driver release_conn
        (λ i v. none)
        (false ∷ false ∷ [])
        (row_rows open_rows)
        small_world)
      (λ r w'.
        Scanned rows_driver release_conn (λ i v. none) false 2 open_rows (0 ∷ 0 ∷ []) (some eof) r)
scan_row-closes_example =
    scan_row-closes rows_driver release_conn (λ i v. none) (false ∷ false ∷ []) open_rows
      small_world refl refl refl refl (λ e v. tt)
