-- ===== src/Tests/ScanCalls.antt =====
-- The theorems on scanned values at a concrete host.
use memsql_conn_pool.Base.{
  ℕ, Bool, ◌≡◌, refl, true, false, Option, none, some, [], ◌∷◌, if◌then◌else◌, ltb, ◌^◌, ◌-◌, ◌<◌,
  arith,
}
use memsql_conn_pool.Base.Int.{ℤ, pos, negsuc}
use memsql_conn_pool.Runtime.{Bytes, Err, driver_err}
use memsql_conn_pool.Convert.{
  bits, Host, w8, w64, src_bytes, src_bool, Src, by_driver, t_bytes, t_ptr, returned, Buffer,
}
use memsql_conn_pool.Convert.Assign.{convert_assign_rows}
use memsql_conn_pool.Convert.Nulls.{null_int32, scan_null, value_of_null}
use memsql_conn_pool.Convert.Ranges.{
  IntLaws, InRange, UintRange, Exact, signed, convert_assign_rows-Exact, int_ty, int_src,
}
use memsql_conn_pool.Convert.Trips.{scan_null-value_of_null}
use memsql_conn_pool.Convert.Memory.{OtherLaws, Leaves, IsOwned, convert_assign_rows-IsOwned}

-- An integer is written as one number, behind a minus sign if it is negative.
abbrev format : ℤ → Bytes
format (pos a) = a ∷ []
format (negsuc a) = 45 ∷ a ∷ []

abbrev fitting : ℕ → ℕ → ℤ → ℤ × Option Err
fitting bound a n = if ltb a bound then (n, none) else (pos 0, some (driver_err 1))

abbrev parse : Bytes → ℕ → ℤ × Option Err
parse (a ∷ []) b = fitting (2 ^ (b - 1)) a (pos a)
parse (minus ∷ a ∷ []) b = fitting (2 ^ (b - 1)) a (negsuc a)
parse _ b = (pos 0, some (driver_err 2))

abbrev parse_uint : Bytes → ℕ → ℕ × Option Err
parse_uint (a ∷ []) b = if ltb a (2 ^ b) then (a, none) else (0, some (driver_err 1))
parse_uint _ b = (0, some (driver_err 2))

abbrev bool_of : Src → Bool × Option Err
bool_of (src_bool id b) = (b, none)
bool_of _ = (false, some (driver_err 3))

abbrev host : Host
host = record {
  format_int = format;
  format_uint = λ a. a ∷ [];
  format_float = λ w x. x ∷ [];
  format_bool = λ b. if b then 1 ∷ [] else 0 ∷ [];
  format_time = λ t. t ∷ [];
  sprint = λ src. [];
  parse_int = parse;
  parse_uint = parse_uint;
  parse_float = λ s b. (0, some (driver_err 2));
  unwrap_num_error = λ e. none;
  set_int = λ w n. n;
  set_uint = λ w a. a;
  set_float = λ w x. x;
  new_cap = λ n. n;
  bool_value = bool_of;
  composer = λ id. none;
  scanner = λ id. none;
  assign_other = λ t src. none;
  convert_other = λ t src. none;
  zero_time = 0;
  zero_other = λ id. 0;
}

fitting_exact :
    (bound a : ℕ) (n : ℤ) → (fitting bound a n).1 ≡ none → ((fitting bound a n).0 ≡ n) × (a < bound)
fitting_exact bound a n e = ground (arith, e)

parse_exact :
    (b : ℕ) (n : ℤ) → (parse (format n) b).1 ≡ none → ((parse (format n) b).0 ≡ n) × InRange b n
parse_exact b (pos a) e = fitting_exact (2 ^ (b - 1)) a (pos a) e
parse_exact b (negsuc a) e = fitting_exact (2 ^ (b - 1)) a (negsuc a) e

parse-format : (b : ℕ) (n : ℤ) → InRange b n → parse (format n) b ≡ (n, none)
parse-format b (pos a) fit = ground (arith, fit)
parse-format b (negsuc a) fit = ground (arith, fit)

parse_uint_exact :
    (b : ℕ) (n : ℤ)
    → (parse_uint (format n) b).1 ≡ none
    → (pos (parse_uint (format n) b).0 ≡ n) × UintRange b n
parse_uint_exact b (pos a) e = ground (arith, e)
parse_uint_exact b (negsuc a) e = cc

int_laws : IntLaws host
int_laws = record {
  parse_format = λ w. parse-format (bits w);
  parse_exact = λ w. parse_exact (bits w);
  parse_uint_format = λ w a fit. ground (arith, fit);
  parse_uint_exact = λ w. parse_uint_exact (bits w);
  format_pos = λ a. refl;
  set_int_fits = λ w n fit. refl;
  set_uint_fits = λ w a fit. refl;
}

convert_assign_rows-Exact_example : Exact host none (signed 0 w8) (pos 5) (pos 300) (
    convert_assign_rows host
      (int_ty (signed 0 w8))
      (some (pos 5))
      (int_src (signed 0 w64) (pos 300))
      none)
convert_assign_rows-Exact_example =
    convert_assign_rows-Exact host int_laws none (signed 0 w8) (signed 0 w64) (pos 5) (pos 300)
      (omega arith)

scan_null-value_of_null_example :
    scan_null host null_int32
      (record { value = pos 9; valid = false })
      (value_of_null host null_int32 (record { value = negsuc 41; valid = true }))
    ≡ returned (some (record { value = negsuc 41; valid = true })) none none
scan_null-value_of_null_example =
    scan_null-value_of_null host int_laws (λ b. refl) null_int32
      (record { value = pos 9; valid = false }) (record { value = negsuc 41; valid = true })
      (omega arith)

abbrev borrowed : Buffer
borrowed = record { origin = by_driver; content = 1 ∷ 2 ∷ []; cap = 4 }

-- A variable of another type has its zero value.
abbrev IsZero : ℕ → ℕ → Type 0
IsZero id v = v ≡ 0

host-OtherLaws : OtherLaws host IsZero
host-OtherLaws = record {
  zero_owned = λ id. refl;
  scan_copies = λ id scan d src e o. absurd cc;
  assigned_owned = λ id src v o e. absurd cc;
  converted_owned = λ id src v plain e. absurd cc;
  slices_assign = λ id s s' e. refl;
}

convert_assign_rows-IsOwned_example :
    Leaves
      (IsOwned IsZero (t_ptr t_bytes))
      (convert_assign_rows host (t_ptr t_bytes) (some none) (src_bytes (some borrowed)) none)
convert_assign_rows-IsOwned_example =
    convert_assign_rows-IsOwned host host-OtherLaws (t_ptr t_bytes) (some none)
      (src_bytes (some borrowed)) none tt tt
