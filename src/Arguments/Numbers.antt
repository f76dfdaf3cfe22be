-- ===== src/Arguments/Numbers.antt =====
-- How many arguments `driverArgsConnLocked` gives, and how they are numbered.
use memsql_conn_pool.Base.{
  ℕ, zero, suc, ◌+◌, ◌≤◌, ◌≡◌, refl, sym, ◌∙◌, ◌≢◌, subst, if◌then◌else◌, Bool, true, false, Option,
  none, some, List, [], ◌∷◌, ◌++◌, length, arith, Option-cases, inl, inr, is_some, ◌&&◌,
  length-append, Bool-cases,
}
use memsql_conn_pool.Base.Int.{ℤ, pos, negsuc}
use memsql_conn_pool.Facade.Requests.{eq_ℤ}
use memsql_conn_pool.Runtime.{Err, skip}
use memsql_conn_pool.Arguments.{
  Arg, named, plain, Valuer, NamedValue, ArgDriver, ArgsResult, args_ok, args_err, args_spin,
  index_out_of_range, driver_args_conn_locked, checked_count, check_arg, run_checks, first_checker,
  by_default, by_column, by_named, Checker, fill, zero_value, Checked, kept, removed, refused,
  spins, after_fill, after_checks, after_check, check_by, want, converted, own_value, column_value,
  call_valuer_value, check_column, default_check_named_value,
}
use memsql_conn_pool.Arguments.Collected.{collect, driver_args_conn_locked-collect}

-- The ordinals of the values are those that follow `k`.
abbrev pub IsNumbered : {V : Type 0} → List (NamedValue V) → ℕ → Type 0
IsNumbered [] k = Unit
IsNumbered (nv ∷ nvs) k = (nv.ordinal ≡ k + 1) × IsNumbered nvs (k + 1)

IsNumbered-snoc :
    {V : Type 0} (nvs : List (NamedValue V)) (nv : NamedValue V) (k : ℕ)
    → IsNumbered nvs k
    → nv.ordinal ≡ length nvs + k + 1
    → IsNumbered (nvs ++ nv ∷ []) k
IsNumbered-snoc [] nv k h e = (omega (arith, e), tt)
IsNumbered-snoc (x ∷ nvs) nv k (hx, h) e = (hx, IsNumbered-snoc nvs nv (k + 1) h (omega (arith, e)))

-- What a result with arguments has.
abbrev OnOk : {V : Type 0} → (List (NamedValue V) → Type 0) → ArgsResult V → Type 0
OnOk P (args_ok nvs) = P nvs
OnOk P _ = Unit

-- The driver's own checker, if it has one, leaves the ordinals alone.
abbrev pub KeepsOrdinals : {V : Type 0} → ArgDriver V → Type 0
KeepsOrdinals {V} d =
    (check : NamedValue V → NamedValue V × Option Err)
    → d.named_checker ≡ some check
    → (nv : NamedValue V) → (check nv).0.ordinal ≡ nv.ordinal

abbrev KeptHas : {V : Type 0} → ℕ → Checked V → Type 0
KeptHas n (kept nv) = nv.ordinal ≡ n
KeptHas n _ = Unit

eq_ℤ-sound : (a b : ℤ) → eq_ℤ a b ≡ true → a ≡ b
eq_ℤ-sound a b h = ground arith

module _ {V : Type 0} (d : ArgDriver V) (keeps : KeepsOrdinals d) where
  own_value-ordinal :
      (convert : ℤ → V → V × Option Err) (nv : NamedValue V) (p : V × Option Err)
      → (own_value d convert nv p).0.ordinal ≡ nv.ordinal
  unfolding own_value converted
  own_value-ordinal convert nv (sv, some e) = refl
  own_value-ordinal convert nv (sv, none) = ground arith

  column_value-ordinal :
      (convert : ℤ → V → V × Option Err) (nv : NamedValue V) (v : Option (Valuer V))
      → (column_value d convert nv v).0.ordinal ≡ nv.ordinal
  unfolding column_value converted
  column_value-ordinal convert nv none = refl
  column_value-ordinal convert nv (some v) = own_value-ordinal convert nv (call_valuer_value d v)

  check_column-ordinal : (nv : NamedValue V) → (check_column d nv).0.ordinal ≡ nv.ordinal
  unfolding check_column
  check_column-ordinal nv = elim (Option-cases d.column_converter) [
    | inl e ↦ rw e refl
    | inr (c, e) ↦ rw e (ground (arith, column_value-ordinal c nv (d.valuer nv.value)))
  ]

  check_by-ordinal : (c : Checker) (nv : NamedValue V) → (check_by d c nv).0.ordinal ≡ nv.ordinal
  unfolding check_by default_check_named_value
  check_by-ordinal by_default nv = refl
  check_by-ordinal by_column nv = check_column-ordinal nv
  check_by-ordinal by_named nv = elim (Option-cases d.named_checker) [
    | inl e ↦ rw e refl
    | inr (c, e) ↦ rw e (keeps c e nv)
  ]

  after_check-ordinal :
      (n : ℕ) (again : NamedValue V → Checked V) (r : NamedValue V × Option Err)
      → r.0.ordinal ≡ n
      → ((nv : NamedValue V) → nv.ordinal ≡ n → KeptHas n (again nv))
      → KeptHas n (after_check d again r)
  unfolding after_check
  after_check-ordinal n again (nv, none) h k = h
  after_check-ordinal n again (nv, some skip) h k = k nv h
  after_check-ordinal n again (nv, some x) h k = tt

  run_checks-ordinal :
      (fuel : ℕ) (c : Checker) (cc_next : Bool) (nv : NamedValue V) (n : ℕ)
      → nv.ordinal ≡ n
      → KeptHas n (run_checks d fuel c cc_next nv)
  unfolding run_checks
  run_checks-ordinal zero c cc_next nv n h = tt
  run_checks-ordinal (suc fuel) c cc_next nv n h =
      after_check-ordinal n
        (λ nv'. run_checks d fuel (if cc_next then by_column else by_default) false nv')
        (check_by d c nv) (check_by-ordinal c nv ∙ h)
        λ nv' h'. run_checks-ordinal fuel (if cc_next then by_column else by_default) false nv' n h'

  fill-ordinal : (arg : Arg V) (n : ℕ) (slot : NamedValue V) → (fill d arg n slot).0.ordinal ≡ n + 1
  unfolding fill
  fill-ordinal (named name v) n slot = refl
  fill-ordinal (plain v) n slot = refl

  -- What holds of all the lists that the loop may give, where it holds after every argument.
  Done : ℕ → List (NamedValue V) → Type 0
  Done total nvs = (length nvs ≤ total) × IsNumbered nvs 0

  collect-Done :
      (fuel : ℕ) (args : List (Arg V)) (slot : NamedValue V) (done : List (NamedValue V))
      (total : ℕ)
      → length done + length args ≤ total
      → IsNumbered done 0
      → OnOk (Done total) (collect d fuel args slot done)
  unfolding collect after_checks after_fill Done check_arg
  collect-Done fuel [] slot done total h num = (omega (arith, h), num)
  collect-Done fuel (arg ∷ args) slot done total h num =
      filled _ _ (fill d arg (length done) slot) (fill-ordinal arg (length done) slot)
        (λ nv e.
          collect-Done fuel args (zero_value d) (done ++ nv ∷ []) total
            (omega (arith, h, length-append done (nv ∷ [])))
            (IsNumbered-snoc done nv 0 num (omega (arith, e))))
        (λ nv. collect-Done fuel args nv done total (omega (arith, h)) num)
    where
      checked :
          (k r : NamedValue V → ArgsResult V) (c : Checked V)
          → KeptHas (length done + 1) c
          → ((nv : NamedValue V) → nv.ordinal ≡ length done + 1 → OnOk (Done total) (k nv))
          → ((nv : NamedValue V) → OnOk (Done total) (r nv))
          → OnOk (Done total) (after_checks d k r c)
      checked k r (kept nv) h hk hr = hk nv h
      checked k r (removed nv) h hk hr = hr nv
      checked k r (refused nv e) h hk hr = tt
      checked k r spins h hk hr = tt

      filled :
          (k r : NamedValue V → ArgsResult V) (p : NamedValue V × Option Err)
          → p.0.ordinal ≡ length done + 1
          → ((nv : NamedValue V) → nv.ordinal ≡ length done + 1 → OnOk (Done total) (k nv))
          → ((nv : NamedValue V) → OnOk (Done total) (r nv))
          → OnOk (Done total) (after_fill d k r fuel p)
      filled k r (nv, some e) h hk hr = tt
      filled k r (nv, none) h hk hr =
          checked k r (check_arg d fuel nv)
            (run_checks-ordinal fuel (first_checker d)
              (is_some d.named_checker && is_some d.column_converter) nv (length done + 1) h)
            hk hr

  -- Nothing but the number of inputs, where it is known, passes the count.
  checked_count-wanted :
      (P : List (NamedValue V) → Type 0) (r : ArgsResult V)
      → OnOk P r
      → OnOk (λ nvs. (want d ≢ negsuc 0 → pos (length nvs) ≡ want d) × P nvs) (checked_count d r)
  unfolding checked_count
  checked_count-wanted P (args_ok nvs) h = elim (Bool-cases (eq_ℤ (want d) (negsuc 0))) [
    | inl unknown ↦
        rw unknown ((λ known. absurd (known (eq_ℤ-sound (want d) (negsuc 0) unknown))), h)
    | inr known ↦ elim (Bool-cases (eq_ℤ (pos (length nvs)) (want d))) [
      | inl same ↦ rw (known, same) ((λ _. eq_ℤ-sound (pos (length nvs)) (want d) same), h)
      | inr other ↦ rw (known, other) tt
    ]
  ]
  checked_count-wanted P (args_err e) h = tt
  checked_count-wanted P args_spin h = tt
  checked_count-wanted P index_out_of_range h = tt

  -- The values that `driverArgsConnLocked` gives are as many as the statement wants, where it
  -- says so, and no more than the arguments, and their ordinals are 1, 2 and so on; if the
  -- driver's own checker leaves the ordinals alone.
  pub driver_args_conn_locked-IsNumbered :
      (fuel : ℕ) (args : List (Arg V)) (nvs : List (NamedValue V))
      → driver_args_conn_locked d fuel args ≡ args_ok nvs
      → (want d ≢ negsuc 0 → pos (length nvs) ≡ want d)
        × (length nvs ≤ length args)
        × IsNumbered nvs 0
  unfolding Done
  driver_args_conn_locked-IsNumbered fuel args nvs e =
      let all : OnOk Counted (checked_count d (collect d fuel args (zero_value d) [])) =
        checked_count-wanted (Done (length args)) (collect d fuel args (zero_value d) [])
          (collect-Done fuel args (zero_value d) [] (length args) (omega arith) tt) in
      let (wanted, (enough, numbered)) =
        subst (OnOk Counted) (sym (driver_args_conn_locked-collect d fuel args) ∙ e) all in
      (wanted, enough, numbered)
    where
      Counted : List (NamedValue V) → Type 0
      Counted nvs = (want d ≢ negsuc 0 → pos (length nvs) ≡ want d) × Done (length args) nvs
