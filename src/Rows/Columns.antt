-- ===== src/Rows/Columns.antt =====
-- `Columns` and `ColumnTypes` of rows.go, column_type.go, and result.go.
use memsql_conn_pool.Base.{ℕ, suc, if◌then◌else◌, Bool, false, Option, none, some, List, [], ◌∷◌}
use memsql_conn_pool.Base.Int.{ℤ, pos}
use memsql_conn_pool.Pool.Retry.{Tried}
use memsql_conn_pool.Rows.{Rows, lasterr_or_err_locked}
use memsql_conn_pool.Runtime.{
  Env, rows_closed, Bytes, M, ◌>>=◌, ◌>>◌, pure, ask, lock_conn, unlock_conn, Answer,
}

-- `scan_type` is a Go type.
pub record ColumnType : Type 0 where
  pub name : Bytes
  pub has_nullable : Bool
  pub has_length : Bool
  pub has_precision_scale : Bool
  pub nullable : Bool
  pub length : ℤ
  pub database_type : Bytes
  pub precision : ℤ
  pub scale : ℤ
  pub scan_type : ℕ

-- What the driver tells of the columns of rows: a method with an index is none where the driver
-- does not have it. `any_type` is the type of `interface{}`.
pub record ColumnsDriver : Type 0 where
  pub column_names : ℕ → ℕ → List Bytes
  pub scan_type_of : ℕ → Option (ℕ → ℕ)
  pub database_type_of : ℕ → Option (ℕ → Bytes)
  pub length_of : ℕ → Option (ℕ → ℤ × Bool)
  pub nullable_of : ℕ → Option (ℕ → Bool × Bool)
  pub precision_scale_of : ℕ → Option (ℕ → (ℤ × ℤ) × Bool)
  pub any_type : ℕ

-- The result of the method at an index, or `zero` where there is none.
abbrev pub told : {A : Type 0} → Option (ℕ → A) → A → ℕ → A
told none zero_value i = zero_value
told (some f) zero_value i = f i

module _ (d : ColumnsDriver) (rowsi : ℕ) where
  unfoldable pub column_info : ℕ → Bytes → ColumnType
  column_info i name =
      let (length, has_length) = told (d.length_of rowsi) (pos 0, false) i in
      let (nullable, has_nullable) = told (d.nullable_of rowsi) (false, false) i in
      let ((precision, scale), has) = told (d.precision_scale_of rowsi) ((pos 0, pos 0), false) i in
      record {
        name = name;
        has_nullable = has_nullable;
        has_length = has_length;
        has_precision_scale = has;
        nullable = nullable;
        length = length;
        database_type = told (d.database_type_of rowsi) [] i;
        precision = precision;
        scale = scale;
        scan_type = told (d.scan_type_of rowsi) d.any_type i;
      }

  -- The loop of `rowsColumnInfoSetupConnLocked` from the column `i` on.
  unfoldable pub column_infos : ℕ → List Bytes → List ColumnType
  unfolding column_info
  column_infos i [] = []
  column_infos i (name ∷ names) = column_info i name ∷ column_infos (suc i) names

-- `Length`, `DecimalSize` and `Nullable`; `Name`, `ScanType` and `DatabaseTypeName` are fields.
abbrev pub column_length : ColumnType → ℤ × Bool
column_length c = (c.length, c.has_length)

abbrev pub decimal_size : ColumnType → (ℤ × ℤ) × Bool
decimal_size c = ((c.precision, c.scale), c.has_precision_scale)

abbrev pub column_nullable : ColumnType → Bool × Bool
column_nullable c = (c.nullable, c.has_nullable)

module _ {env : Env} (d : ColumnsDriver) where
  -- The rows of a query always have `rowsi`.
  of_open_rows : {A : Type 0} → (ℕ → A) → Rows → M env (Tried A)
  of_open_rows f rs =
      if rs.closed
      then pure (record { value = none; err = lasterr_or_err_locked rs (some rows_closed) })
      else (do
        lock_conn rs.dc
        a ← ask f
        unlock_conn rs.dc
        pure (record { value = some a; err = none }))

  unfoldable pub columns : Rows → M env (Tried (List Bytes))
  unfolding of_open_rows
  columns rs = of_open_rows (λ t. d.column_names t rs.rowsi) rs

  unfoldable pub column_types : Rows → M env (Tried (List ColumnType))
  unfolding of_open_rows column_infos
  column_types rs = of_open_rows (λ t. column_infos d rs.rowsi 0 (d.column_names t rs.rowsi)) rs

  -- `driverResult` with the connection `dc`: `LastInsertId` and `RowsAffected`, by the driver's
  -- method `call`.
  unfoldable pub driver_result : (ℕ → ℕ → Answer) → ℕ → ℕ → M env Answer
  driver_result call dc resi = do
    lock_conn dc
    answer ← ask (λ t. call t resi)
    unlock_conn dc
    pure answer
