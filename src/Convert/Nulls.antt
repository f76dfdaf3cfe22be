-- ===== src/Convert/Nulls.antt =====
-- The types of valuer_scanner.go, whose values may be NULL, with their `Scan` and `Value` methods.
use memsql_conn_pool.Base.{Bool, true, false, none, some, if◌then◌else◌}
use memsql_conn_pool.Convert.{
  Ty, Src, Val, Host, Assigned, returned, nil_deref, t_string, t_int, t_float, t_bool, t_time, w32,
  w64, src_nil, src_string, src_int, src_float, src_bool, src_time, zero_of,
}
use memsql_conn_pool.Convert.Assign.{convert_assign}

pub data NullType : Type 0 where
  null_string null_int64 null_int32 null_float64 null_bool null_time : NullType

-- The type of the value.
abbrev pub null_ty : NullType → Ty
null_ty null_string = t_string
null_ty null_int64 = t_int 0 w64
null_ty null_int32 = t_int 0 w32
null_ty null_float64 = t_float 0 w64
null_ty null_bool = t_bool
null_ty null_time = t_time

pub record Null (A : Type 0) : Type 0 where
  pub value : A
  pub valid : Bool

module _ (h : Host) where
  -- `n.Valid` is set before the conversion, whatever that gives.
  converted_null : {A : Type 0} → A → Assigned A → Assigned (Null A)
  converted_null old (returned none e rows) =
      returned (some (record { value = old; valid = true })) e rows
  converted_null old (returned (some v) e rows) =
      returned (some (record { value = v; valid = true })) e rows
  converted_null old nil_deref = nil_deref

  abbrev pub null_value : (k : NullType) → Null (Val (null_ty k))
  null_value k = record { value = zero_of h (null_ty k); valid = false }

  -- `Scan`.
  unfoldable pub scan_null :
      (k : NullType) → Null (Val (null_ty k)) → Src → Assigned (Null (Val (null_ty k)))
  unfolding converted_null
  scan_null k n src_nil = returned (some (null_value k)) none none
  scan_null k n src = converted_null n.value (convert_assign h (null_ty k) (some n.value) src)

  -- A value that is not NULL, for the driver.
  driver_value : (k : NullType) → Val (null_ty k) → Src
  driver_value null_string v = src_string v
  driver_value null_int64 v = src_int 0 w64 v
  driver_value null_int32 v = src_int 0 w64 v
  driver_value null_float64 v = src_float 0 w64 v
  driver_value null_bool v = src_bool 0 v
  driver_value null_time v = src_time v

  -- `Value`.
  unfoldable pub value_of_null : (k : NullType) → Null (Val (null_ty k)) → Src
  unfolding driver_value
  value_of_null k n = if n.valid then driver_value k n.value else src_nil
