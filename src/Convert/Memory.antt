-- ===== src/Convert/Memory.antt =====
-- Whose memory a variable holds after a scan.
use memsql_conn_pool.Base.{
  ℕ, Bool, true, false, Option, none, some, [], ◌∷◌, length, ◌≡◌, refl, ◌≤◌, arith,
}
use memsql_conn_pool.Runtime.{Bytes, Err}
use memsql_conn_pool.Convert.{
  Buffer, own, by_driver, Slice, Ty, Src, Val, Host, Parent, Assigned, returned, nil_deref, t_bytes,
  t_raw, t_any, t_ptr, t_other, src_string, src_bytes, src_time, src_decimal, src_rows, src_other,
  src_nil, src_bool, src_int, src_uint, src_float, src_named_string, clone_bytes, append_to,
  as_bytes, zero_of,
}
use memsql_conn_pool.Convert.Assign.{
  convert_assign_rows, in_order, by_reflection, assignable, convertible, by_kind, is_nil,
  common_cases, dest_cases, checked_set, set_var, behind, bytes_set,
}

abbrev IsOwnSlice : Slice → Type 0
IsOwnSlice none = Unit
IsOwnSlice (some b) = b.origin ≡ own

-- A variable that holds no memory of the driver; one of type `RawBytes` may. What it is for a
-- variable of another type is `own_other`.
abbrev pub IsOwned : (ℕ → ℕ → Type 0) → (t : Ty) → Val t → Type 0
IsOwned own_other t_bytes s = IsOwnSlice s
IsOwned own_other t_any (src_bytes s) = IsOwnSlice s
IsOwned own_other (t_ptr t) (some v) = IsOwned own_other t v
IsOwned own_other (t_other id) v = own_other id v
IsOwned own_other t v = Unit

-- The values of `driver.Value`, and cursors.
abbrev pub IsDriverValue : Src → Type 0
IsDriverValue (src_decimal x) = ⊥
IsDriverValue (src_other x) = ⊥
IsDriverValue src = Unit

-- What holds of the variable after a call, and of one that a pointer points to.
abbrev pub Holds : {A : Type 0} → (A → Type 0) → Option A → Type 0
Holds P none = Unit
Holds P (some v) = P v

abbrev pub Leaves : {A : Type 0} → (A → Type 0) → Assigned A → Type 0
Leaves P (returned var e rows) = Holds P var
Leaves P nil_deref = Unit

abbrev is_slice : Src → Bool
is_slice (src_bytes s) = true
is_slice src = false

-- What is documented of other types: a `Scan` method copies what it retains of a slice of bytes; a
-- value that is assigned holds the memory of what it is assigned from; one that is converted has
-- memory of its own, but for slices of bytes, which convert only to what they are assignable to.
pub record OtherLaws (h : Host) (own_other : ℕ → ℕ → Type 0) : Type 0 where
  pub zero_owned : (id : ℕ) → own_other id (h.zero_other id)
  pub scan_copies :
      (id : ℕ) (scan : Option ℕ → Src → Option ℕ × Option Err) (d : Option ℕ) (src : Src)
      → h.scanner id ≡ some scan
      → Holds (own_other id) d
      → Holds (own_other id) (scan d src).0
  pub assigned_owned :
      (id : ℕ) (src : Src) (v : ℕ)
      → IsOwned own_other t_any src
      → h.assign_other (t_other id) src ≡ some v
      → own_other id v
  pub converted_owned :
      (id : ℕ) (src : Src) (v : ℕ)
      → is_slice src ≡ false
      → h.convert_other (t_other id) src ≡ some v
      → own_other id v
  pub slices_assign :
      (id : ℕ) (s s' : Slice)
      → h.assign_other (t_other id) (src_bytes s) ≡ none
      → h.convert_other (t_other id) (src_bytes s') ≡ none

checked_set-Leaves :
    {A : Type 0} (P : A → Type 0) (d : Option A) (f : A → A) (rows : Option Parent)
    → ((old : A) → P (f old))
    → Leaves P (checked_set d f rows)
unfolding checked_set
checked_set-Leaves P none f rows k = tt
checked_set-Leaves P (some old) f rows k = k old

set_var-Leaves :
    {A : Type 0} (P : A → Type 0) (d : Option A) (f : A → A) (rows : Option Parent)
    → ((old : A) → P (f old))
    → Leaves P (set_var d f rows)
unfolding set_var
set_var-Leaves P none f rows k = tt
set_var-Leaves P (some old) f rows k = k old

module _ (h : Host) {own_other : ℕ → ℕ → Type 0} (others : OtherLaws h own_other) where
  abbrev Owned : (t : Ty) → Val t → Type 0
  Owned t v = IsOwned own_other t v

  clone_bytes-IsOwn : (s : Slice) → IsOwnSlice (clone_bytes h s)
  clone_bytes-IsOwn none = tt
  clone_bytes-IsOwn (some b) = refl

  bytes_of-IsOwn : (s : Bytes) → IsOwnSlice (append_to h none s)
  unfolding append_to
  bytes_of-IsOwn [] = tt
  bytes_of-IsOwn (b ∷ s) = refl

  zero_of-IsOwned : (t : Ty) → Owned t (zero_of h t)
  unfolding zero_of
  zero_of-IsOwned t_bytes = tt
  zero_of-IsOwned (t_other id) = others.zero_owned id
  zero_of-IsOwned t = tt

  -- Every variable of the type is owned.
  trivially : (t : Ty) → ((v : Val t) → Owned t v) → (r : Assigned (Val t)) → Leaves (Owned t) r
  trivially t k (returned none e rows) = tt
  trivially t k (returned (some v) e rows) = k v
  trivially t k nil_deref = tt

  behind-Leaves :
      (t : Ty) (r : Assigned (Val t)) → Leaves (Owned t) r → Leaves (Owned (t_ptr t)) (behind h r)
  unfolding behind
  behind-Leaves t (returned none e rows) l = tt
  behind-Leaves t (returned (some v) e rows) l = l
  behind-Leaves t nil_deref l = tt

  by_reflection-Leaves :
      (id : ℕ) (last : ℕ → Assigned ℕ) (d : Option ℕ) (src : Src) (rows : Option Parent)
      → ((v : ℕ) → assignable h (t_other id) src ≡ some v → own_other id v)
      → ((v : ℕ)
          → assignable h (t_other id) src ≡ none
          → convertible h (t_other id) src ≡ some v
          → own_other id v)
      → ((old : ℕ) → own_other id old → Leaves (own_other id) (last old))
      → Holds (own_other id) d
      → Leaves (own_other id) (by_reflection h (t_other id) last d src rows)
  unfolding by_reflection
  by_reflection-Leaves id last none src rows assigns converts lasts o = tt
  by_reflection-Leaves id last (some old) src rows assigns converts lasts o =
      by_assign (assignable h (t_other id) src) refl
    where
      by_convert :
          (c : Option ℕ)
          → assignable h (t_other id) src ≡ none
          → convertible h (t_other id) src ≡ c
          → Leaves (own_other id) (elim c as (λ _. Assigned ℕ) [
            | some v ↦ returned (some v) none rows
            | none ↦ last old
          ])
      by_convert none e e' = lasts old o
      by_convert (some v) e e' = converts v e e'

      by_assign :
          (a : Option ℕ)
          → assignable h (t_other id) src ≡ a
          → Leaves (own_other id) (by_reflection h (t_other id) last (some old) src rows)
      by_assign (some v) e = rw (e, Leaves) (assigns v e)
      by_assign none e = rw (e, Leaves) (by_convert (convertible h (t_other id) src) e refl)

  in_order-Leaves :
      (id : ℕ) (last : ℕ → Assigned ℕ) (d : Option ℕ) (src : Src) (rows : Option Parent)
      → common_cases h (t_other id) d src rows ≡ none
      → Holds (own_other id) d
      → Leaves (own_other id) (by_reflection h (t_other id) last d src rows)
      → Leaves (own_other id) (in_order h (t_other id) last d src rows)
  unfolding in_order dest_cases
  in_order-Leaves id last d src rows no_case o l =
      rw (no_case, Leaves) (by_scan (h.scanner id) refl)
    where
      by_scan :
          (s : Option (Option ℕ → Src → Option ℕ × Option Err))
          → h.scanner id ≡ s
          → Leaves
              (own_other id)
              (elim (dest_cases h (t_other id) d src rows) as (λ _. Assigned ℕ) [
                | some r ↦ r
                | none ↦ by_reflection h (t_other id) last d src rows
              ])
      by_scan none e = rw (e, Leaves) l
      by_scan (some scan) e = rw (e, Leaves) (others.scan_copies id scan d src e o)

  other-Leaves :
      (id : ℕ) (d : Option ℕ) (src : Src) (rows : Option Parent)
      → common_cases h (t_other id) d src rows ≡ none
      → ((v : ℕ) → assignable h (t_other id) src ≡ some v → own_other id v)
      → ((v : ℕ)
          → assignable h (t_other id) src ≡ none
          → convertible h (t_other id) src ≡ some v
          → own_other id v)
      → Holds (own_other id) d
      → Leaves (own_other id) (convert_assign_rows h (t_other id) d src rows)
  unfolding convert_assign_rows by_kind
  other-Leaves id d src rows no_case assigns converts o =
      in_order-Leaves id _ d src rows no_case o
        (by_reflection-Leaves id _ d src rows assigns converts (λ old p. p) o)

  -- No variable but one of type `RawBytes` holds memory of the driver after a scan of a value of
  -- `driver.Value` or a cursor, also behind pointers, in an interface and in a named slice of
  -- bytes, if it held none before; if the Scan methods of other types copy what they retain,
  -- reflect assigns and converts as documented, and zero values hold none.
  pub convert_assign_rows-IsOwned :
      (t : Ty) (d : Option (Val t)) (src : Src) (rows : Option Parent)
      → IsDriverValue src
      → Holds (Owned t) d
      → Leaves (Owned t) (convert_assign_rows h t d src rows)
  unfolding convert_assign_rows in_order common_cases dest_cases by_reflection assignable
      convertible by_kind is_nil as_bytes bytes_set
  convert_assign_rows-IsOwned t_bytes d (src_string s) rows v o =
      checked_set-Leaves IsOwnSlice d _ rows (λ _. refl)
  convert_assign_rows-IsOwned t_bytes d (src_bytes s) rows v o =
      checked_set-Leaves IsOwnSlice d _ rows (λ _. clone_bytes-IsOwn s)
  convert_assign_rows-IsOwned t_bytes d (src_time s) rows v o =
      checked_set-Leaves IsOwnSlice d _ rows (λ _. refl)
  convert_assign_rows-IsOwned t_bytes d src_nil rows v o =
      checked_set-Leaves IsOwnSlice d _ rows (λ _. tt)
  convert_assign_rows-IsOwned t_bytes d (src_bool id b) rows v o =
      set_var-Leaves IsOwnSlice d _ rows (λ _. bytes_of-IsOwn (h.format_bool b))
  convert_assign_rows-IsOwned t_bytes d (src_int id w n) rows v o =
      set_var-Leaves IsOwnSlice d _ rows (λ _. bytes_of-IsOwn (h.format_int n))
  convert_assign_rows-IsOwned t_bytes d (src_uint id w n) rows v o =
      set_var-Leaves IsOwnSlice d _ rows (λ _. bytes_of-IsOwn (h.format_uint n))
  convert_assign_rows-IsOwned t_bytes d (src_float id w x) rows v o =
      set_var-Leaves IsOwnSlice d _ rows (λ _. bytes_of-IsOwn (h.format_float w x))
  convert_assign_rows-IsOwned t_bytes d (src_named_string id s) rows v o =
      set_var-Leaves IsOwnSlice d _ rows (λ _. bytes_of-IsOwn s)
  convert_assign_rows-IsOwned t_bytes d (src_decimal x) rows v o = elim v [ ]
  convert_assign_rows-IsOwned t_bytes d (src_other x) rows v o = elim v [ ]
  convert_assign_rows-IsOwned t_bytes none (src_rows s) rows v o = tt
  convert_assign_rows-IsOwned t_bytes (some old) (src_rows s) rows v o = o
  convert_assign_rows-IsOwned t_any d (src_bytes s) rows v o =
      checked_set-Leaves (Owned t_any) d _ rows (λ _. clone_bytes-IsOwn s)
  convert_assign_rows-IsOwned t_any d src_nil rows v o =
      checked_set-Leaves (Owned t_any) d _ rows (λ _. tt)
  convert_assign_rows-IsOwned t_any d (src_other x) rows v o = elim v [ ]
  convert_assign_rows-IsOwned t_any d src rows v o =
      set_var-Leaves (Owned t_any) d (λ _. src) rows (λ _. tt)
  convert_assign_rows-IsOwned (t_ptr t) none src rows v o = tt
  convert_assign_rows-IsOwned (t_ptr t) (some old) src_nil rows v o = tt
  convert_assign_rows-IsOwned (t_ptr t) (some old) (src_other x) rows v o = elim v [ ]
  convert_assign_rows-IsOwned (t_ptr t) (some old) (src_decimal x) rows v o = elim v [ ]
  convert_assign_rows-IsOwned (t_ptr t) (some old) src rows v o =
      behind-Leaves t (convert_assign_rows h t (some (zero_of h t)) src rows)
        (convert_assign_rows-IsOwned t (some (zero_of h t)) src rows tt (zero_of-IsOwned t))
  convert_assign_rows-IsOwned (t_other id) d (src_string s) rows v o =
      other-Leaves id d (src_string s) rows refl (λ y. others.assigned_owned id (src_string s) y tt)
        (λ y _. others.converted_owned id (src_string s) y refl) o
  convert_assign_rows-IsOwned (t_other id) d (src_time s) rows v o =
      other-Leaves id d (src_time s) rows refl (λ y. others.assigned_owned id (src_time s) y tt)
        (λ y _. others.converted_owned id (src_time s) y refl) o
  convert_assign_rows-IsOwned (t_other id) d (src_rows s) rows v o =
      other-Leaves id d (src_rows s) rows refl (λ y. others.assigned_owned id (src_rows s) y tt)
        (λ y _. others.converted_owned id (src_rows s) y refl) o
  convert_assign_rows-IsOwned (t_other id) d (src_bool id' b) rows v o =
      other-Leaves id d (src_bool id' b) rows refl
        (λ y. others.assigned_owned id (src_bool id' b) y tt)
        (λ y _. others.converted_owned id (src_bool id' b) y refl) o
  convert_assign_rows-IsOwned (t_other id) d (src_int id' w n) rows v o =
      other-Leaves id d (src_int id' w n) rows refl
        (λ y. others.assigned_owned id (src_int id' w n) y tt)
        (λ y _. others.converted_owned id (src_int id' w n) y refl) o
  convert_assign_rows-IsOwned (t_other id) d (src_uint id' w n) rows v o =
      other-Leaves id d (src_uint id' w n) rows refl
        (λ y. others.assigned_owned id (src_uint id' w n) y tt)
        (λ y _. others.converted_owned id (src_uint id' w n) y refl) o
  convert_assign_rows-IsOwned (t_other id) d (src_float id' w x) rows v o =
      other-Leaves id d (src_float id' w x) rows refl
        (λ y. others.assigned_owned id (src_float id' w x) y tt)
        (λ y _. others.converted_owned id (src_float id' w x) y refl) o
  convert_assign_rows-IsOwned (t_other id) d (src_named_string id' s) rows v o =
      other-Leaves id d (src_named_string id' s) rows refl
        (λ y. others.assigned_owned id (src_named_string id' s) y tt)
        (λ y _. others.converted_owned id (src_named_string id' s) y refl) o
  convert_assign_rows-IsOwned (t_other id) d src_nil rows v o =
      other-Leaves id d src_nil rows refl (λ y e. absurd cc) (λ y e e'. absurd cc) o
  convert_assign_rows-IsOwned (t_other id) d (src_bytes s) rows v o =
      other-Leaves id d (src_bytes s) rows refl
        (λ y. others.assigned_owned id (src_bytes (clone_bytes h s)) y (clone_bytes-IsOwn s))
        (λ y e e'. absurd (cc (others.slices_assign id (clone_bytes h s) s e))) o
  convert_assign_rows-IsOwned (t_other id) d (src_decimal x) rows v o = elim v [ ]
  convert_assign_rows-IsOwned (t_other id) d (src_other x) rows v o = elim v [ ]
  convert_assign_rows-IsOwned t d src rows v o =
      trivially t (λ _. tt) (convert_assign_rows h t d src rows)

  -- A `RawBytes` that a slice of bytes of the driver was scanned into is that slice, and a
  -- string that is scanned into it next, no longer than its capacity, is written into the
  -- driver's memory.
  pub convert_assign_rows-overwrites :
      (b : Buffer) (d : Slice) (s : Bytes) (rows : Option Parent)
      → b.origin ≡ by_driver
      → length s ≤ b.cap
      → (convert_assign_rows h t_raw (some d) (src_bytes (some b)) rows
          ≡ returned (some (some b)) none rows)
        × (convert_assign_rows h t_raw (some (some b)) (src_string s) rows
            ≡ returned
                (some (some (record { origin = by_driver; content = s; cap = b.cap })))
                none
                rows)
  unfolding convert_assign_rows in_order common_cases checked_set append_to
  convert_assign_rows-overwrites b d s rows driver_owned enough =
      (refl, ground (arith, driver_owned, enough))
