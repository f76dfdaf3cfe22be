-- ===== src/Convert.antt =====
-- What convert.go stores of a row: the values that a driver gives, the variables that a caller
-- passes, and the helpers of `convertAssignRows`. A value that the code does not look into (a time,
-- a decimal, a floating-point number, a value of another type) is a number.
pub mod Assign
pub mod Nulls
pub mod Ranges
pub mod Memory
pub mod Trips
use memsql_conn_pool.Base.{
  ℕ, Bool, true, false, Option, none, some, List, [], ◌∷◌, length, leb, if◌then◌else◌, ◌==◌, ◌&&◌,
}
use memsql_conn_pool.Base.Int.{ℤ, pos, negsuc}
use memsql_conn_pool.Runtime.{Bytes, Err}

-- Whose memory a slice of bytes lies in.
pub data Origin : Type 0 where
  own by_driver : Origin

pub record Buffer : Type 0 where
  pub origin : Origin
  pub content : Bytes
  pub cap : ℕ

-- `[]byte` and `RawBytes`; nil is none.
abbrev pub Slice : Type 0
Slice = Option Buffer

pub data Width : Type 0 where
  plain w8 w16 w32 w64 : Width

abbrev pub bits : Width → ℕ
bits plain = 64
bits w8 = 8
bits w16 = 16
bits w32 = 32
bits w64 = 64

abbrev pub same_width : Width → Width → Bool
same_width plain plain = true
same_width w8 w8 = true
same_width w16 w16 = true
same_width w32 w32 = true
same_width w64 w64 = true
same_width _ _ = false

-- The types of variables. A type with an own name carries a number for it, 0 for a type of the
-- language; a named Boolean or string type is not `bool` or `string`. A type with a `Scan` or
-- `Compose` method, or of another kind, is an other type.
pub data Ty : Type 0 where
  t_string t_bytes t_raw t_time t_any t_bool t_rows : Ty
  t_int t_uint t_float : ℕ → Width → Ty
  t_named_bool t_named_string t_other : ℕ → Ty
  t_ptr : Ty → Ty

-- The values that a driver gives: those of `driver.Value`, cursors, and any other.
pub data Src : Type 0 where
  src_string : Bytes → Src
  src_bytes : Slice → Src
  src_time src_decimal src_rows src_other : ℕ → Src
  src_nil : Src
  src_bool : ℕ → Bool → Src
  src_int : ℕ → Width → ℤ → Src
  src_uint src_float : ℕ → Width → ℕ → Src
  src_named_string : ℕ → Bytes → Src

-- The `Rows` of a cursor: its connection and the driver's rows.
pub record Cursor : Type 0 where
  pub dc : ℕ
  pub rowsi : ℕ

-- The rows that are scanned: their connection, and the cursors that their cancel function closes.
pub record Parent : Type 0 where
  pub dc : ℕ
  pub cancels : List ℕ

-- What a variable of a type holds.
abbrev pub Val : Ty → Type 0
Val t_string = Bytes
Val t_bytes = Slice
Val t_raw = Slice
Val t_time = ℕ
Val t_any = Src
Val t_bool = Bool
Val t_rows = Cursor
Val (t_int id w) = ℤ
Val (t_uint id w) = ℕ
Val (t_float id w) = ℕ
Val (t_named_bool id) = Bool
Val (t_named_string id) = Bytes
Val (t_other id) = ℕ
Val (t_ptr t) = Option (Val t)

-- What the code calls of fmt, strconv, reflect, time and the package `driver`, and of the methods
-- of other types: `composer` and `scanner` are those of a pointer to a variable, which may be nil.
pub record Host : Type 0 where
  pub format_int : ℤ → Bytes
  pub format_uint : ℕ → Bytes
  pub format_float : Width → ℕ → Bytes
  pub format_bool : Bool → Bytes
  pub format_time : ℕ → Bytes
  pub sprint : Src → Bytes
  pub parse_int : Bytes → ℕ → ℤ × Option Err
  pub parse_uint : Bytes → ℕ → ℕ × Option Err
  pub parse_float : Bytes → ℕ → ℕ × Option Err
  pub unwrap_num_error : Err → Option Err
  pub set_int : Width → ℤ → ℤ
  pub set_uint : Width → ℕ → ℕ
  pub set_float : Width → ℕ → ℕ
  pub new_cap : ℕ → ℕ
  pub bool_value : Src → Bool × Option Err
  pub composer : ℕ → Option (Option ℕ → ℕ → Option ℕ × Option Err)
  pub scanner : ℕ → Option (Option ℕ → Src → Option ℕ × Option Err)
  pub assign_other : (t : Ty) → Src → Option (Val t)
  pub convert_other : (t : Ty) → Src → Option (Val t)
  pub zero_time : ℕ
  pub zero_other : ℕ → ℕ

-- What a call comes to: the variable after it, none if the pointer is nil, the error, and the rows
-- that are scanned; or the fault of a write through a nil pointer.
pub data Assigned (A : Type 0) : Type 0 where
  returned : Option A → Option Err → Option Parent → Assigned A
  nil_deref : Assigned A

module _ (h : Host) where
  -- `strconvErr`.
  abbrev pub strconv_err : Err → Err
  strconv_err e = elim (h.unwrap_num_error e) [ none ↦ e | some inner ↦ inner ]

  -- `[]byte(s)`.
  abbrev pub bytes_of : Bytes → Slice
  bytes_of s = some (record { origin = own; content = s; cap = h.new_cap (length s) })

  abbrev pub clone_bytes : Slice → Slice
  clone_bytes none = none
  clone_bytes (some b) = bytes_of b.content

  -- `append(buf[:0], s...)`: into the memory of `buf` where it has the capacity.
  unfoldable pub append_to : Slice → Bytes → Slice
  append_to none [] = none
  append_to none (b ∷ s) = bytes_of (b ∷ s)
  append_to (some buf) s =
      if leb (length s) buf.cap then some (record buf { content = s }) else bytes_of s

  unfoldable pub as_string : Src → Bytes
  as_string (src_string s) = s
  as_string (src_bytes none) = []
  as_string (src_bytes (some b)) = b.content
  as_string (src_int id w n) = h.format_int n
  as_string (src_uint id w n) = h.format_uint n
  as_string (src_float id w x) = h.format_float w x
  as_string (src_bool id b) = h.format_bool b
  as_string src = h.sprint src

  -- `asBytes`, for the kinds that it knows.
  unfoldable pub as_bytes : Slice → Src → Option Slice
  unfolding append_to
  as_bytes buf (src_int id w n) = some (append_to buf (h.format_int n))
  as_bytes buf (src_uint id w n) = some (append_to buf (h.format_uint n))
  as_bytes buf (src_float id w x) = some (append_to buf (h.format_float w x))
  as_bytes buf (src_bool id b) = some (append_to buf (h.format_bool b))
  as_bytes buf (src_string s) = some (append_to buf s)
  as_bytes buf (src_named_string id s) = some (append_to buf s)
  as_bytes buf src = none

  -- `reflect.Zero`.
  unfoldable pub zero_of : (t : Ty) → Val t
  zero_of t_string = []
  zero_of t_bytes = none
  zero_of t_raw = none
  zero_of t_time = h.zero_time
  zero_of t_any = src_nil
  zero_of t_bool = false
  zero_of t_rows = record { dc = 0; rowsi = 0 }
  zero_of (t_int id w) = pos 0
  zero_of (t_uint id w) = 0
  zero_of (t_float id w) = 0
  zero_of (t_named_bool id) = false
  zero_of (t_named_string id) = []
  zero_of (t_other id) = h.zero_other id
  zero_of (t_ptr t) = none
