-- ===== src/Convert/Trips.antt =====
-- The round trip of the types of valuer_scanner.go.
use memsql_conn_pool.Base.{if◌then◌else◌, Bool, true, false, none, some, ◌≡◌, refl}
use memsql_conn_pool.Convert.{Val, Host, returned, w32, src_bool, as_string}
use memsql_conn_pool.Convert.Assign.{
  convert_assign_rows, convert_assign, in_order, by_reflection, assignable, convertible, by_kind,
  is_nil, common_cases, dest_cases, checked_set, set_var, parsed,
}
use memsql_conn_pool.Convert.Nulls.{
  NullType, null_string, null_int64, null_int32, null_float64, null_bool, null_time, Null, null_ty,
  null_value, scan_null, value_of_null,
}
use memsql_conn_pool.Convert.Ranges.{IntLaws, InRange}

-- A value that Go's type can hold.
abbrev pub IsHeld : (k : NullType) → Val (null_ty k) → Type 0
IsHeld null_int32 n = InRange 32 n
IsHeld null_int64 n = InRange 64 n
IsHeld _ _ = Unit

module _ (h : Host) (laws : IntLaws h)
    (keeps_bool : (b : Bool) → h.bool_value (src_bool 0 b) ≡ (b, none)) where
  scan_valid :
      (k : NullType) (old : Null (Val (null_ty k))) (v : Val (null_ty k))
      → IsHeld k v
      → scan_null h k old (value_of_null h k (record { value = v; valid = true }))
        ≡ returned (some (record { value = v; valid = true })) none none
  unfolding scan_null value_of_null convert_assign convert_assign_rows in_order common_cases
      dest_cases by_reflection assignable convertible by_kind is_nil as_string checked_set set_var
      parsed
  scan_valid null_string old v held = refl
  scan_valid null_int64 old v held = refl
  scan_valid null_int32 old v held =
      rw (laws.parse_format w32 v held, laws.set_int_fits w32 v held) refl
  scan_valid null_float64 old v held = refl
  scan_valid null_bool old v held = rw (keeps_bool v) refl
  scan_valid null_time old v held = refl

  -- What the method `Value` of a type that may be NULL gives is read back by its `Scan`,
  -- whatever the variable held: the value if it is valid, and otherwise NULL with the zero
  -- value; for an integer that its type can hold, and if strconv, reflect and the driver's
  -- Boolean converter keep such values.
  pub scan_null-value_of_null :
      (k : NullType) (old n : Null (Val (null_ty k)))
      → IsHeld k n.value
      → scan_null h k old (value_of_null h k n)
        ≡ returned (some (if n.valid then n else null_value h k)) none none
  unfolding scan_null value_of_null
  scan_null-value_of_null k old n held = by_valid n.value n.valid held
    where
      by_valid :
          (v : Val (null_ty k)) (valid : Bool)
          → IsHeld k v
          → scan_null h k old (value_of_null h k (record { value = v; valid = valid }))
            ≡ returned
                (some (if valid then record { value = v; valid = valid } else null_value h k))
                none
                none
      by_valid v true held = scan_valid k old v held
      by_valid v false held = refl
