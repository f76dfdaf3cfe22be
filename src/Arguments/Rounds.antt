-- ===== src/Arguments/Rounds.antt =====
-- How long the checks of `driverArgsConnLocked` go on.
use memsql_conn_pool.Base.{
  ℕ, suc, ◌≡◌, refl, ap, ◌≢◌, if◌then◌else◌, Bool, true, false, Option, none, some, List, [], ◌∷◌,
  ◌++◌, length, arith, is_some, ◌&&◌,
}
use memsql_conn_pool.Runtime.{Err, skip}
use memsql_conn_pool.Arguments.{
  Arg, NamedValue, ArgDriver, ArgsResult, args_ok, args_err, args_spin, index_out_of_range,
  driver_args_conn_locked, checked_count, check_arg, run_checks, first_checker, by_default,
  by_column, fill, zero_value, Checked, kept, removed, refused, spins, after_fill, after_checks,
  after_check, check_by,
}
use memsql_conn_pool.Arguments.Collected.{collect, driver_args_conn_locked-collect}

-- `err == driver.ErrSkip`.
abbrev pub is_skip : Option Err → Bool
is_skip (some skip) = true
is_skip _ = false

-- What the package `driver` says of its default converter: it keeps nil, and its value is nil where
-- it gives an error.
pub record DefaultLaws {V : Type 0} (d : ArgDriver V) : Type 0 where
  pub keeps_nil : d.default_convert d.nil_value ≡ (d.nil_value, none)
  pub error_gives_nil :
      (v : V) (e : Err) → (d.default_convert v).1 ≡ some e → (d.default_convert v).0 ≡ d.nil_value

-- An outcome of the code: not the model's end of fuel, and not a fault.
abbrev pub IsReturned : {V : Type 0} → ArgsResult V → Type 0
IsReturned (args_ok nvs) = Unit
IsReturned (args_err e) = Unit
IsReturned args_spin = ⊥
IsReturned index_out_of_range = ⊥

module _ {V : Type 0} (d : ArgDriver V) (laws : DefaultLaws d) where
  -- The checks end, if what follows a skip does.
  skips-end :
      (again : NamedValue V → Checked V) (r : NamedValue V × Option Err)
      → (r.1 ≡ some skip → again r.0 ≢ spins)
      → after_check d again r ≢ spins
  unfolding after_check
  skips-end again (nv, none) h e = cc
  skips-end again (nv, some skip) h e = h refl e
  skips-end again (nv, some x) h e = cc

  -- A round with the next checker, and `fuel` for those after it.
  go_on : ℕ → Bool → NamedValue V → Checked V
  go_on fuel next_cc nv = run_checks d fuel (if next_cc then by_column else by_default) false nv

  nil_kept :
      (fuel : ℕ) (nv : NamedValue V)
      → nv.value ≡ d.nil_value
      → run_checks d (suc fuel) by_default false nv ≡ kept (record nv { value = d.nil_value })
  unfolding run_checks after_check
  nil_kept fuel nv h =
      let checked : d.default_convert nv.value ≡ (d.nil_value, none) = rw h laws.keeps_nil in
      ap (λ p. after_check d (run_checks d fuel by_default false) (record nv { value = p.0 }, p.1))
        checked

  by_default-ends :
      (fuel : ℕ) (nv : NamedValue V) → run_checks d (suc (suc fuel)) by_default false nv ≢ spins
  unfolding run_checks go_on
  by_default-ends fuel nv =
      skips-end (go_on (suc fuel) false) (check_by d by_default nv) λ skipped e.
        cc (nil_kept fuel (check_by d by_default nv).0 (laws.error_gives_nil nv.value skip skipped))

  by_column-ends :
      (fuel : ℕ) (nv : NamedValue V)
      → run_checks d (suc (suc (suc fuel))) by_column false nv ≢ spins
  unfolding run_checks go_on
  by_column-ends fuel nv =
      skips-end (go_on (suc (suc fuel)) false) (check_by d by_column nv) λ _. by_default-ends fuel _

  go_on-ends :
      (fuel : ℕ) (next_cc : Bool) (nv : NamedValue V)
      → go_on (suc (suc (suc fuel))) next_cc nv ≢ spins
  unfolding go_on
  go_on-ends fuel true nv = by_column-ends fuel nv
  go_on-ends fuel false nv = by_default-ends (suc fuel) nv

  -- Four rounds are enough for the checks of one argument.
  check_arg-ends :
      (fuel : ℕ) (nv : NamedValue V) → check_arg d (suc (suc (suc (suc fuel)))) nv ≢ spins
  unfolding check_arg run_checks go_on
  check_arg-ends fuel nv =
      let next_cc = is_some d.named_checker && is_some d.column_converter in
      skips-end (go_on (suc (suc (suc fuel))) next_cc) (check_by d (first_checker d) nv)
        λ _. go_on-ends fuel next_cc _

  collect-IsReturned :
      (fuel : ℕ) (args : List (Arg V)) (slot : NamedValue V) (done : List (NamedValue V))
      → IsReturned (collect d (suc (suc (suc (suc fuel)))) args slot done)
  unfolding collect after_checks after_fill
  collect-IsReturned fuel [] slot done = tt
  collect-IsReturned fuel (arg ∷ args) slot done =
      filled_ends _ _ (fill d arg (length done) slot)
        (λ nv. collect-IsReturned fuel args (zero_value d) (done ++ nv ∷ []))
        (λ nv. collect-IsReturned fuel args nv done)
    where
      f : ℕ
      f = suc (suc (suc (suc fuel)))

      checked_ends :
          (k r : NamedValue V → ArgsResult V) (c : Checked V)
          → c ≢ spins
          → ((nv : NamedValue V) → IsReturned (k nv))
          → ((nv : NamedValue V) → IsReturned (r nv))
          → IsReturned (after_checks d k r c)
      checked_ends k r (kept nv) h hk hr = hk nv
      checked_ends k r (removed nv) h hk hr = hr nv
      checked_ends k r (refused nv e) h hk hr = tt
      checked_ends k r spins h hk hr = absurd (h refl)

      filled_ends :
          (k r : NamedValue V → ArgsResult V) (p : NamedValue V × Option Err)
          → ((nv : NamedValue V) → IsReturned (k nv))
          → ((nv : NamedValue V) → IsReturned (r nv))
          → IsReturned (after_fill d k r f p)
      filled_ends k r (nv, some e) hk hr = tt
      filled_ends k r (nv, none) hk hr =
          checked_ends k r (check_arg d f nv) (check_arg-ends fuel nv) hk hr

  checked_count-IsReturned : (r : ArgsResult V) → IsReturned r → IsReturned (checked_count d r)
  unfolding checked_count
  checked_count-IsReturned (args_ok nvs) h = ground arith
  checked_count-IsReturned (args_err e) h = tt
  checked_count-IsReturned args_spin h = h
  checked_count-IsReturned index_out_of_range h = h

  -- With four rounds of checks for each argument, `driverArgsConnLocked` returns values or an
  -- error: the loop at `nextCheck` ends and no index is out of range; if the default converter
  -- keeps nil and gives nil where it gives an error.
  pub driver_args_conn_locked-IsReturned :
      (fuel : ℕ) (args : List (Arg V))
      → IsReturned (driver_args_conn_locked d (suc (suc (suc (suc fuel)))) args)
  driver_args_conn_locked-IsReturned fuel args =
      rw (driver_args_conn_locked-collect d (suc (suc (suc (suc fuel)))) args) (
        checked_count-IsReturned (collect d (suc (suc (suc (suc fuel)))) args (zero_value d) [])
          (collect-IsReturned fuel args (zero_value d) []))
