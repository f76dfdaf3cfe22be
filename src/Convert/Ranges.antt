-- ===== src/Convert/Ranges.antt =====
-- Integers that are stored as they are or refused, and the round trip of the types that may be NULL.
use memsql_conn_pool.Base.{
  ℕ, Bool, true, false, Option, none, some, ◌≡◌, refl, sym, ap, ◌∙◌, subst, ◌⊎◌, inl, inr,
  if◌then◌else◌, ◌-◌, ◌^◌, ◌<◌, ◌==◌, ◌&&◌,
}
use memsql_conn_pool.Base.Int.{ℤ, pos, negsuc}
use memsql_conn_pool.Runtime.{Err, Bytes}
use memsql_conn_pool.Convert.{
  Ty, Src, Val, Host, Width, plain, w8, w16, w32, w64, bits, same_width, Parent, Assigned, returned,
  t_int, t_uint, src_int, src_uint, as_string,
}
use memsql_conn_pool.Convert.Assign.{
  convert_assign_rows, in_order, by_reflection, assignable, convertible, by_kind, is_nil, parsed,
  common_cases, dest_cases,
}

-- The integers of so many bits.
abbrev pub InRange : ℕ → ℤ → Type 0
InRange b (pos a) = a < 2 ^ (b - 1)
InRange b (negsuc a) = a < 2 ^ (b - 1)

abbrev pub UintRange : ℕ → ℤ → Type 0
UintRange b (pos a) = a < 2 ^ b
UintRange b (negsuc a) = ⊥

-- What strconv says of the conversions of integers to the sizes of Go's integer types, and reflect
-- of a value that fits.
pub record IntLaws (h : Host) : Type 0 where
  pub parse_format :
      (w : Width) (n : ℤ) → InRange (bits w) n → h.parse_int (h.format_int n) (bits w) ≡ (n, none)
  pub parse_exact :
      (w : Width) (n : ℤ)
      → (h.parse_int (h.format_int n) (bits w)).1 ≡ none
      → ((h.parse_int (h.format_int n) (bits w)).0 ≡ n) × InRange (bits w) n
  pub parse_uint_format :
      (w : Width) (a : ℕ) → a < 2 ^ bits w → h.parse_uint (h.format_uint a) (bits w) ≡ (a, none)
  pub parse_uint_exact :
      (w : Width) (n : ℤ)
      → (h.parse_uint (h.format_int n) (bits w)).1 ≡ none
      → (pos (h.parse_uint (h.format_int n) (bits w)).0 ≡ n) × UintRange (bits w) n
  pub format_pos : (a : ℕ) → h.format_int (pos a) ≡ h.format_uint a
  pub set_int_fits : (w : Width) (n : ℤ) → InRange (bits w) n → h.set_int w n ≡ n
  pub set_uint_fits : (w : Width) (a : ℕ) → a < 2 ^ bits w → h.set_uint w a ≡ a

-- The integer types: signed and unsigned.
pub data IntTy : Type 0 where
  signed unsigned : ℕ → Width → IntTy

abbrev pub int_ty : IntTy → Ty
int_ty (signed id w) = t_int id w
int_ty (unsigned id w) = t_uint id w

abbrev pub number : (t : IntTy) → Val (int_ty t) → ℤ
number (signed id w) n = n
number (unsigned id w) a = pos a

abbrev pub Fits : IntTy → ℤ → Type 0
Fits (signed id w) n = InRange (bits w) n
Fits (unsigned id w) n = UintRange (bits w) n

abbrev pub int_src : (t : IntTy) → Val (int_ty t) → Src
int_src (signed id w) n = src_int id w n
int_src (unsigned id w) a = src_uint id w a

-- An integer is stored as it is, if the variable can hold it, or refused with an error that leaves
-- the variable.
abbrev pub Exact :
    Host → Option Parent → (t : IntTy) → Val (int_ty t) → ℤ → Assigned (Val (int_ty t)) → Type 0
Exact h rows t old n r =
    (Fits t n × ((v : Val (int_ty t)) × (number t v ≡ n) × (r ≡ returned (some v) none rows)))
    ⊎ ((Fits t n → ⊥) × ((e : Err) × (r ≡ returned (some old) (some e) rows)))

same_width_sound : (w w' : Width) → same_width w w' ≡ true → w ≡ w'
same_width_sound plain plain e = refl
same_width_sound w8 w8 e = refl
same_width_sound w16 w16 e = refl
same_width_sound w32 w32 e = refl
same_width_sound w64 w64 e = refl
same_width_sound w w' e = cc

module _ (h : Host) (laws : IntLaws h) (rows : Option Parent) where
  signed_parsed :
      (id : ℕ) (w : Width) (old n : ℤ) (s : Bytes) (p : ℤ × Option Err)
      → (p.1 ≡ none → (p.0 ≡ n) × InRange (bits w) n)
      → (InRange (bits w) n → p ≡ (n, none))
      → Exact h rows (signed id w) old n (parsed h old (h.set_int w) s p rows)
  unfolding parsed
  signed_parsed id w old n s (m, none) exact fits =
      let (same, fit) = exact refl in
      inl (
        fit,
        (
          n,
          refl,
          ap (λ v. returned (some v) none rows) (ap (h.set_int w) same ∙ laws.set_int_fits w n fit),
        ),
      )
  signed_parsed id w old n s (m, some e) exact fits =
      inr ((λ fit. cc (ap (λ p. p.1) (fits fit))), (_, refl))

  unsigned_parsed :
      (id : ℕ) (w : Width) (old : ℕ) (n : ℤ) (s : Bytes) (p : ℕ × Option Err)
      → (p.1 ≡ none → (pos p.0 ≡ n) × UintRange (bits w) n)
      → (UintRange (bits w) n → p.1 ≡ none)
      → Exact h rows (unsigned id w) old n (parsed h old (h.set_uint w) s p rows)
  unfolding parsed
  unsigned_parsed id w old n s (m, none) exact fits =
      let (same, fit) = exact refl in
      inl (
        fit,
        (
          m,
          same,
          ap (λ v. returned (some v) none rows)
              (laws.set_uint_fits w m (subst (UintRange (bits w)) (sym same) fit)),
        ),
      )
  unsigned_parsed id w old n s (m, some e) exact fits = inr ((λ fit. cc (fits fit)), (_, refl))

  signed_text :
      (id : ℕ) (w : Width) (old n : ℤ)
      → Exact h rows
          (signed id w)
          old
          n
          (parsed h old (h.set_int w) (h.format_int n) (h.parse_int (h.format_int n) (bits w)) rows)
  signed_text id w old n =
      signed_parsed id w old n _ _ (laws.parse_exact w n) (laws.parse_format w n)

  no_error :
      (w : Width) (n : ℤ) → UintRange (bits w) n → (h.parse_uint (h.format_int n) (bits w)).1 ≡ none
  no_error w (pos a) fit = rw (laws.format_pos a, laws.parse_uint_format w a fit) refl
  no_error w (negsuc a) fit = elim fit [ ]

  unsigned_text :
      (id : ℕ) (w : Width) (old : ℕ) (n : ℤ)
      → Exact h rows (unsigned id w) old n (
          parsed h old
            (h.set_uint w)
            (h.format_int n)
            (h.parse_uint (h.format_int n) (bits w))
            rows)
  unsigned_text id w old n =
      unsigned_parsed id w old n _ _ (laws.parse_uint_exact w n) (no_error w n)

  -- An integer of the variable's type or kind is set as it is, any other by way of `last`.
  by_type :
      {A : Type 0} (one same : Bool) (x : A) (last : Assigned A) (P : Assigned A → Type 0)
      → (same ≡ true → P (returned (some x) none rows))
      → (same ≡ false → P last)
      → P (elim (if one && same then some x else none) as (λ _. Assigned A) [
        | some v ↦ returned (some v) none rows
        | none ↦ elim (if same then some x else none) as (λ _. Assigned A) [
          | some v ↦ returned (some v) none rows
          | none ↦ last
        ]
      ])
  by_type true true x last P sets goes = sets refl
  by_type false true x last P sets goes = sets refl
  by_type true false x last P sets goes = goes refl
  by_type false false x last P sets goes = goes refl

  -- An integer of any type that is scanned into an integer variable of any type is stored as it
  -- is, where the variable can hold it, and otherwise refused with an error that leaves the
  -- variable; if strconv converts integers that fit the size of the type, and only those, and
  -- reflect stores them as they are.
  pub convert_assign_rows-Exact :
      (t t' : IntTy) (old : Val (int_ty t)) (x : Val (int_ty t'))
      → Fits t' (number t' x)
      → Exact h rows t old
          (number t' x)
          (convert_assign_rows h (int_ty t) (some old) (int_src t' x) rows)
  unfolding convert_assign_rows in_order common_cases dest_cases by_reflection assignable
      convertible by_kind is_nil as_string
  convert_assign_rows-Exact (signed id w) (signed id' w') old x fit =
      by_type (id == id') (same_width w w') x (by_kind h (t_int id w) old (src_int id' w' x) rows)
        (Exact h rows (signed id w) old x)
        (λ same.
          inl (
            subst (λ w. InRange (bits w) x) (sym (same_width_sound w w' same)) fit,
            (x, refl, refl),
          ))
        (λ _. signed_text id w old x)
  convert_assign_rows-Exact (signed id w) (unsigned id' w') old x fit =
      subst
        (λ s.
          Exact h rows (signed id w) old (pos x)
            (parsed h old (h.set_int w) s (h.parse_int s (bits w)) rows))
        (laws.format_pos x) (signed_text id w old (pos x))
  convert_assign_rows-Exact (unsigned id w) (signed id' w') old x fit = unsigned_text id w old x
  convert_assign_rows-Exact (unsigned id w) (unsigned id' w') old x fit =
      by_type (id == id') (same_width w w') x (by_kind h (t_uint id w) old (src_uint id' w' x) rows)
        (Exact h rows (unsigned id w) old (pos x))
        (λ same.
          inl (subst (λ w. x < 2 ^ bits w) (sym (same_width_sound w w' same)) fit, (x, refl, refl)))
        (λ _.
          subst
            (λ s.
              Exact h rows (unsigned id w) old (pos x)
                (parsed h old (h.set_uint w) s (h.parse_uint s (bits w)) rows))
            (laws.format_pos x) (unsigned_text id w old (pos x)))
