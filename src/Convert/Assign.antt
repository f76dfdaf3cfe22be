-- ===== src/Convert/Assign.antt =====
-- `convertAssignRows` of convert.go, with its cases in their order.
use memsql_conn_pool.Base.{ℕ, Bool, true, false, Option, none, some, ◌∷◌, if◌then◌else◌, ◌==◌, ◌&&◌}
use memsql_conn_pool.Runtime.{
  Bytes, Err, nil_ptr, missing_parent, converting_null, converting_value, unsupported_scan,
}
use memsql_conn_pool.Convert.{
  Slice, bits, same_width, Ty, Src, Val, Host, Parent, Cursor, Assigned, returned, nil_deref,
  t_string, t_bytes, t_raw, t_time, t_any, t_bool, t_rows, t_int, t_uint, t_float, t_named_bool,
  t_named_string, t_other, t_ptr, src_string, src_bytes, src_time, src_decimal, src_rows, src_other,
  src_nil, src_bool, src_int, src_uint, src_float, src_named_string, strconv_err, bytes_of,
  clone_bytes, append_to, as_string, as_bytes, zero_of,
}

-- `*d = v` after the test of `d`, where the new value may be made of the old one.
unfoldable pub checked_set : {A : Type 0} → Option A → (A → A) → Option Parent → Assigned A
checked_set none f rows = returned none (some nil_ptr) rows
checked_set (some old) f rows = returned (some (f old)) none rows

-- `*d = v` without a test.
unfoldable pub set_var : {A : Type 0} → Option A → (A → A) → Option Parent → Assigned A
set_var none f rows = nil_deref
set_var (some old) f rows = returned (some (f old)) none rows

module _ (h : Host) where
  cursor_to : Option Cursor → ℕ → Option Parent → Assigned Cursor
  cursor_to none s rows = returned none (some nil_ptr) rows
  cursor_to (some old) s none = returned (some old) (some missing_parent) none
  cursor_to (some old) s (some p) =
      returned (some (record { dc = p.dc; rowsi = s })) none
        (some (record p { cancels = s ∷ p.cancels }))

  composed : {A : Type 0} → (Option A × Option Err) → Option Parent → Assigned A
  composed (var, err) rows = returned var err rows

  -- The common cases, without reflection; none where the code goes on.
  unfoldable pub common_cases :
      (t : Ty) → Option (Val t) → Src → Option Parent → Option (Assigned (Val t))
  unfolding checked_set set_var cursor_to composed
  common_cases t_string d (src_string s) rows = some (checked_set d (λ _. s) rows)
  common_cases t_bytes d (src_string s) rows = some (checked_set d (λ _. bytes_of h s) rows)
  common_cases t_raw d (src_string s) rows = some (checked_set d (λ old. append_to h old s) rows)
  common_cases t_string d (src_bytes s) rows =
      some (checked_set d (λ _. as_string h (src_bytes s)) rows)
  common_cases t_any d (src_bytes s) rows =
      some (checked_set d (λ _. src_bytes (clone_bytes h s)) rows)
  common_cases t_bytes d (src_bytes s) rows = some (checked_set d (λ _. clone_bytes h s) rows)
  common_cases t_raw d (src_bytes s) rows = some (checked_set d (λ _. s) rows)
  common_cases t_time d (src_time s) rows = some (set_var d (λ _. s) rows)
  common_cases t_string d (src_time s) rows = some (set_var d (λ _. h.format_time s) rows)
  common_cases t_bytes d (src_time s) rows =
      some (checked_set d (λ _. bytes_of h (h.format_time s)) rows)
  common_cases t_raw d (src_time s) rows =
      some (checked_set d (λ old. append_to h old (h.format_time s)) rows)
  common_cases (t_other id) d (src_decimal s) rows = elim (h.composer id) [
    | none ↦ none
    | some compose ↦ some (composed (compose d s) rows)
  ]
  common_cases t_any d src_nil rows = some (checked_set d (λ _. src_nil) rows)
  common_cases t_bytes d src_nil rows = some (checked_set d (λ _. none) rows)
  common_cases t_raw d src_nil rows = some (checked_set d (λ _. none) rows)
  common_cases t_rows d (src_rows s) rows = some (cursor_to d s rows)
  common_cases t d src rows = none

  bool_set : Option Bool → Bool × Option Err → Option Parent → Assigned Bool
  unfolding set_var
  bool_set d (bv, none) rows = set_var d (λ _. bv) rows
  bool_set d (bv, some e) rows = returned d (some e) rows

  -- `if b, ok := asBytes(...); ok`, for a slice of which nothing is kept.
  unfoldable pub bytes_set : Option Slice → Option Slice → Option Parent → Option (Assigned Slice)
  unfolding set_var
  bytes_set d none rows = none
  bytes_set d (some b) rows = some (set_var d (λ _. b) rows)

  raw_set : Option Slice → Src → Option Parent → Option (Assigned Slice)
  unfolding bytes_set
  raw_set none src rows = some nil_deref
  raw_set (some old) src rows = bytes_set (some old) (as_bytes h old src) rows

  -- The cases of the destination, and its `Scan` method; none where the code goes on.
  unfoldable pub dest_cases :
      (t : Ty) → Option (Val t) → Src → Option Parent → Option (Assigned (Val t))
  unfolding set_var bool_set bytes_set raw_set composed
  dest_cases t_string d (src_int id w n) rows =
      some (set_var d (λ _. as_string h (src_int id w n)) rows)
  dest_cases t_string d (src_uint id w n) rows =
      some (set_var d (λ _. as_string h (src_uint id w n)) rows)
  dest_cases t_string d (src_float id w x) rows =
      some (set_var d (λ _. as_string h (src_float id w x)) rows)
  dest_cases t_string d (src_bool id b) rows =
      some (set_var d (λ _. as_string h (src_bool id b)) rows)
  dest_cases t_bytes d src rows = bytes_set d (as_bytes h none src) rows
  dest_cases t_raw d src rows = raw_set d src rows
  dest_cases t_bool d src rows = some (bool_set d (h.bool_value src) rows)
  dest_cases t_any d src rows = some (set_var d (λ _. src) rows)
  dest_cases (t_other id) d src rows = elim (h.scanner id) [
    | none ↦ none
    | some scan ↦ some (composed (scan d src) rows)
  ]
  dest_cases t d src rows = none

  -- `sv.Type().AssignableTo(dv.Type())`, and what is set: a slice of bytes is copied.
  unfoldable pub assignable : (t : Ty) → Src → Option (Val t)
  assignable t (src_other x) = h.assign_other t (src_other x)
  assignable t (src_decimal x) = h.assign_other t (src_decimal x)
  assignable t src_nil = none
  assignable (t_other id) (src_bytes s) = h.assign_other (t_other id) (src_bytes (clone_bytes h s))
  assignable (t_other id) src = h.assign_other (t_other id) src
  assignable (t_int id w) (src_int id' w' n) = if id == id' && same_width w w' then some n else none
  assignable (t_uint id w) (src_uint id' w' n) =
      if id == id' && same_width w w' then some n else none
  assignable (t_float id w) (src_float id' w' x) =
      if id == id' && same_width w w' then some x else none
  assignable (t_named_bool id) (src_bool id' b) = if id == id' then some b else none
  assignable (t_named_string id) (src_named_string id' s) = if id == id' then some s else none
  assignable t src = none

  -- `dv.Kind() == sv.Kind() && sv.Type().ConvertibleTo(dv.Type())`, and what is set.
  unfoldable pub convertible : (t : Ty) → Src → Option (Val t)
  convertible t (src_other x) = h.convert_other t (src_other x)
  convertible t (src_decimal x) = h.convert_other t (src_decimal x)
  convertible t src_nil = none
  convertible (t_other id) src = h.convert_other (t_other id) src
  convertible (t_int id w) (src_int id' w' n) = if same_width w w' then some n else none
  convertible (t_uint id w) (src_uint id' w' n) = if same_width w w' then some n else none
  convertible (t_float id w) (src_float id' w' x) = if same_width w w' then some x else none
  convertible (t_named_bool id) (src_bool id' b) = some b
  convertible (t_named_string id) (src_string s) = some s
  convertible (t_named_string id) (src_named_string id' s) = some s
  convertible t_string (src_named_string id s) = some s
  convertible t src = none

  abbrev unsupported : {A : Type 0} → A → Option Parent → Assigned A
  unsupported v rows = returned (some v) (some unsupported_scan) rows

  -- What is parsed is set; an error leaves the variable.
  unfoldable pub parsed :
      {A : Type 0} → A → (A → A) → Bytes → A × Option Err → Option Parent → Assigned A
  parsed v set s (n, none) rows = returned (some (set n)) none rows
  parsed v set s (n, some e) rows =
      returned (some v) (some (converting_value s (strconv_err h e))) rows

  unfoldable pub is_nil : Src → Bool
  is_nil src_nil = true
  is_nil _ = false

  abbrev null_error : {A : Type 0} → A → Option Parent → Assigned A
  null_error v rows = returned (some v) (some converting_null) rows

  named_string : Bytes → Src → Option Parent → Assigned Bytes
  named_string v (src_string s) rows = returned (some s) none rows
  named_string v (src_bytes s) rows = returned (some (as_string h (src_bytes s))) none rows
  named_string v src rows = unsupported v rows

  -- The conversions by way of a string, but for pointers.
  unfoldable pub by_kind : (t : Ty) → Val t → Src → Option Parent → Assigned (Val t)
  unfolding parsed is_nil named_string
  by_kind (t_int id w) v src rows =
      if is_nil src
      then null_error v rows
      else parsed v (h.set_int w) (as_string h src) (h.parse_int (as_string h src) (bits w)) rows
  by_kind (t_uint id w) v src rows =
      if is_nil src
      then null_error v rows
      else parsed v (h.set_uint w) (as_string h src) (h.parse_uint (as_string h src) (bits w)) rows
  by_kind (t_float id w) v src rows =
      if is_nil src
      then null_error v rows
      else parsed v (h.set_float w) (as_string h src) (h.parse_float (as_string h src) (bits w))
          rows
  by_kind t_string v src rows = if is_nil src then null_error v rows else named_string v src rows
  by_kind (t_named_string id) v src rows =
      if is_nil src then null_error v rows else named_string v src rows
  by_kind t v src rows = unsupported v rows

  -- What a new variable behind a pointer was set to.
  unfoldable pub behind : {A : Type 0} → Assigned A → Assigned (Option A)
  behind (returned var e rows) = returned (some var) e rows
  behind nil_deref = nil_deref

  -- From `dpv.IsNil()` on; `last` is the switch on the kind of the variable.
  unfoldable pub by_reflection :
      (t : Ty)
      → (Val t → Assigned (Val t))
      → Option (Val t)
      → Src
      → Option Parent
      → Assigned (Val t)
  by_reflection t last none src rows = returned none (some nil_ptr) rows
  by_reflection t last (some v) src rows = elim (assignable t src) [
    | some v' ↦ returned (some v') none rows
    | none ↦ elim (convertible t src) [ some v' ↦ returned (some v') none rows | none ↦ last v ]
  ]

  unfoldable pub in_order :
      (t : Ty)
      → (Val t → Assigned (Val t))
      → Option (Val t)
      → Src
      → Option Parent
      → Assigned (Val t)
  unfolding common_cases dest_cases by_reflection
  in_order t last d src rows = elim (common_cases t d src rows) [
    | some r ↦ r
    | none ↦ elim (dest_cases t d src rows) [ some r ↦ r | none ↦ by_reflection t last d src rows ]
  ]

  -- `convertAssignRows`, for a destination that is a pointer to a variable of type `t`. A new
  -- variable is made for a pointer to a pointer.
  unfoldable pub convert_assign_rows :
      (t : Ty) → Option (Val t) → Src → Option Parent → Assigned (Val t)
  unfolding in_order by_kind behind is_nil
  convert_assign_rows (t_ptr t) d src rows =
      let inner = convert_assign_rows t (some (zero_of h t)) src rows in
      in_order (t_ptr t) (λ v. if is_nil src then returned (some none) none rows else behind inner)
        d src rows
  convert_assign_rows t d src rows = in_order t (λ v. by_kind t v src rows) d src rows

  unfoldable pub convert_assign : (t : Ty) → Option (Val t) → Src → Assigned (Val t)
  unfolding convert_assign_rows
  convert_assign t d src = convert_assign_rows t d src none
