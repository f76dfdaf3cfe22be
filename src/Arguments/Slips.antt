-- ===== src/Arguments/Slips.antt =====
-- Two inputs on which `driverArgsConnLocked` gives the driver what the caller has not passed.
use memsql_conn_pool.Base.{
  ℕ, suc, ◌≡◌, refl, ap, ◌∙◌, Option, none, some, [], ◌∷◌, is_some, ◌&&◌, if◌then◌else◌, false,
}
use memsql_conn_pool.Runtime.{Bytes, Err, skip, remove_argument}
use memsql_conn_pool.Arguments.{
  named, plain, NamedValue, ArgDriver, by_column, by_default, kept, removed, Checked, args_ok,
  driver_args_conn_locked, args_loop, checked_count, check_arg, run_checks, first_checker, fill,
  after_fill, after_checks, after_check, at_slot, check_by, validate_named_value_name,
  default_check_named_value,
}
use memsql_conn_pool.Arguments.Rounds.{DefaultLaws}

module _ {V : Type 0} (d : ArgDriver V) where
  -- An argument that the default conversion, without another checker or a known number of
  -- inputs, refuses with ErrSkip is converted again as nil and given to the driver as NULL,
  -- without an error; if the default conversion gives nil with that error, and keeps nil.
  pub driver_args_conn_locked-skips_to_nil :
      (laws : DefaultLaws d) (fuel : ℕ) (v : V)
      → d.named_checker ≡ none
      → d.column_converter ≡ none
      → d.num_input ≡ none
      → d.default_convert v ≡ (d.nil_value, some skip)
      → driver_args_conn_locked d (suc (suc fuel)) (plain v ∷ [])
        ≡ args_ok (record { name = []; ordinal = 1; value = d.nil_value } ∷ [])
  unfolding driver_args_conn_locked args_loop at_slot after_fill fill after_checks check_arg
      run_checks first_checker check_by default_check_named_value after_check checked_count
  driver_args_conn_locked-skips_to_nil laws fuel v no_checker no_converter no_count skips =
      rw (no_checker, no_converter, no_count, skips, laws.keeps_nil) refl

  by_driver :
      (check : NamedValue V → NamedValue V × Option Err) (nv : NamedValue V)
      → d.named_checker ≡ some check
      → check_by d (first_checker d) nv ≡ check nv
  unfolding first_checker check_by
  by_driver check nv has_checker = rw has_checker refl

  -- What the driver's checker gives in the first round.
  checked_by :
      (check : NamedValue V → NamedValue V × Option Err) (fuel : ℕ) (nv : NamedValue V)
      (p : NamedValue V × Option Err) (r : Checked V)
      → d.named_checker ≡ some check
      → check nv ≡ p
      → ((again : NamedValue V → Checked V) → after_check d again p ≡ r)
      → check_arg d (suc fuel) nv ≡ r
  unfolding check_arg run_checks
  checked_by check fuel nv p r has_checker e h =
      let next_cc = is_some d.named_checker && is_some d.column_converter in
      let again = λ (nv' : NamedValue V).
        run_checks d fuel (if next_cc then by_column else by_default) false nv' in
      ap (after_check d again) (by_driver check nv has_checker ∙ e) ∙ h again

  -- Where the driver's checker removes a named argument and keeps the plain one that follows,
  -- with the number of inputs unknown and a valid name, the driver gets the plain argument under
  -- the name of the removed one.
  pub driver_args_conn_locked-renames :
      (check : NamedValue V → NamedValue V × Option Err) (fuel : ℕ) (name : Bytes) (v w : V)
      → d.named_checker ≡ some check
      → d.num_input ≡ none
      → validate_named_value_name d name ≡ none
      → check (record { name = name; ordinal = 1; value = v })
        ≡ (record { name = name; ordinal = 1; value = v }, some remove_argument)
      → check (record { name = name; ordinal = 1; value = w })
        ≡ (record { name = name; ordinal = 1; value = w }, none)
      → driver_args_conn_locked d (suc fuel) (named name v ∷ plain w ∷ [])
        ≡ args_ok (record { name = name; ordinal = 1; value = w } ∷ [])
  unfolding driver_args_conn_locked args_loop at_slot after_fill fill after_checks after_check
      checked_count
  driver_args_conn_locked-renames check fuel name v w has_checker no_count valid removes keeps =
      let first =
        checked_by check fuel (record { name = name; ordinal = 1; value = v }) _
          (removed (record { name = name; ordinal = 1; value = v })) has_checker removes
          (λ _. refl) in
      let second =
        checked_by check fuel (record { name = name; ordinal = 1; value = w }) _
          (kept (record { name = name; ordinal = 1; value = w })) has_checker keeps (λ _. refl) in
      rw (valid, first, second, no_count) refl
