-- ===== src/Runtime/Errors.antt =====
-- The error values of the package, and the ways in which a goroutine does not return.
use memsql_conn_pool.Base.{ℕ, Bool, true, false, Option, some, List}
use memsql_conn_pool.Base.Int.{ℤ}

-- errors.go, sql.go, conn_pool.go, conn_pool_facade.go, driver_conn.go, transaction.go, rows.go,
-- row.go, ctxutil.go, convert.go and the sentinels of driver/driver.go. `driver_err` and `ctx_err`
-- carry what the driver and the context report; a message that the code formats is a constructor
-- with what stands in it.
pub data Err : Type 0 where
  bad_conn : Err
  skip : Err
  remove_argument : Err
  db_closed : Err
  conn_done : Err
  tx_done : Err
  stmt_closed : Err
  other_database : Err
  facade_closed : Err
  unable_to_get_pool : Err
  unknown_driver : Err
  duplicate_close : Err
  canceled : Err
  isolation_unsupported : Err
  read_only_unsupported : Err
  eof : Err
  rows_closed : Err
  no_rows : Err
  scan_without_next : Err
  scan_arity : Err
  raw_bytes_refused : Err
  scan_column : ℕ → Err → Err
  bad_name : List ℕ → Err
  non_subset : Err
  unsupported_column : Err
  converting_argument : ℕ → List ℕ → Err → Err
  argument_count : ℤ → ℕ → Err
  named_unsupported : Err
  nil_ptr : Err
  missing_parent : Err
  converting_null : Err
  converting_value : List ℕ → Err → Err
  unsupported_scan : Err
  ctx_err : ℕ → Err
  driver_err : ℕ → Err

-- `err == driver.ErrBadConn`, where nil is none.
abbrev pub is_bad_conn : Option Err → Bool
is_bad_conn (some bad_conn) = true
is_bad_conn _ = false

-- The arguments of `panic`, and the runtime's own faults.
pub data Panic : Type 0 where
  lru_size : Panic
  driver_nil : Panic
  driver_twice : Panic
  lru_evicted : Panic
  lru_no_oldest : Panic
  lru_missing : Panic
  not_free : Panic
  close_failed : Panic
  already_free : Panic
  bad_idle_count : Panic
  never_out : Panic
  return_to_nil : Panic
  request_nil : Panic
  impossible : Panic
  no_deps : Panic
  no_such_dep : Panic
  nil_pointer : Panic
  unlocked_mutex : Panic
  index_range : Panic

-- What a goroutine can wait on for ever.
pub data Wait : Type 0 where
  facade_mu : Wait
  pool_mu : ℕ → Wait
  conn_mu : ℕ → Wait
  opener_full : Wait
  tx_closemu : Wait
  conn_closemu : Wait
  request : ℕ → ℕ → Wait
