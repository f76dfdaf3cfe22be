-- ===== src/Tests/ArgumentCalls.antt =====
-- The theorems on the arguments of a query at concrete drivers.
use memsql_conn_pool.Base.{
  ◌≡◌, refl, true, Option, none, some, [], ◌∷◌, ◌==◌, if◌then◌else◌, ◌≤◌, ◌≢◌, ℕ, arith, subst,
}
use memsql_conn_pool.Base.Int.{pos, negsuc}
use memsql_conn_pool.Arguments.{
  ArgDriver, NamedValue, named, plain, args_ok, args_err, driver_args_conn_locked, checked_count,
  zero_value, want,
}
use memsql_conn_pool.Arguments.Collected.{collect, driver_args_conn_locked-collect}
use memsql_conn_pool.Arguments.Rounds.{DefaultLaws, IsReturned, driver_args_conn_locked-IsReturned}
use memsql_conn_pool.Arguments.Numbers.{
  IsNumbered, KeepsOrdinals, driver_args_conn_locked-IsNumbered,
}
use memsql_conn_pool.Arguments.Slips.{
  driver_args_conn_locked-skips_to_nil, driver_args_conn_locked-renames,
}
use memsql_conn_pool.Runtime.{Err, skip, remove_argument}

-- Values are numbers and nil is 0. The default conversion skips 7; the driver removes 5 and leaves 6
-- to the default conversion.
abbrev pub convert : ℕ → ℕ × Option Err
convert v = if v == 7 then (0, some skip) else (v, none)

abbrev check : NamedValue ℕ → NamedValue ℕ × Option Err
check nv =
    (nv, if nv.value == 5 then some remove_argument else if nv.value == 6 then some skip else none)

abbrev pub plain_driver : ArgDriver ℕ
plain_driver = record {
  starts_with_letter = λ bs. true;
  named_checker = none;
  column_converter = none;
  num_input = none;
  valuer = λ v. none;
  is_value = λ v. true;
  default_convert = convert;
  nil_value = 0;
}

abbrev checking_driver : ArgDriver ℕ
checking_driver = record plain_driver { named_checker = some check }

abbrev counting_driver : ArgDriver ℕ
counting_driver = record checking_driver { num_input = some (pos 2) }

error_is_nil : (v : ℕ) (e : Err) → (convert v).1 ≡ some e → (convert v).0 ≡ 0
error_is_nil v e h = ground arith

laws : DefaultLaws counting_driver
laws = record { keeps_nil = refl; error_gives_nil = error_is_nil }

plain_laws : DefaultLaws plain_driver
plain_laws = record { keeps_nil = refl; error_gives_nil = error_is_nil }

keeps_ordinals : KeepsOrdinals counting_driver
keeps_ordinals c e nv =
    subst (λ o. elim o as (λ _. Type 0) [ none ↦ Unit | some f ↦ (f nv).0.ordinal ≡ nv.ordinal ]) e
      refl

driver_args_conn_locked-collect_example :
    driver_args_conn_locked counting_driver 4 (plain 3 ∷ named (97 ∷ []) 5 ∷ plain 6 ∷ [])
    ≡ checked_count counting_driver (
        collect counting_driver 4
          (plain 3 ∷ named (97 ∷ []) 5 ∷ plain 6 ∷ [])
          (zero_value counting_driver)
          [])
driver_args_conn_locked-collect_example =
    driver_args_conn_locked-collect counting_driver 4 (plain 3 ∷ named (97 ∷ []) 5 ∷ plain 6 ∷ [])

driver_args_conn_locked-IsReturned_example :
    IsReturned (driver_args_conn_locked counting_driver 4 (plain 3 ∷ plain 6 ∷ []))
driver_args_conn_locked-IsReturned_example =
    driver_args_conn_locked-IsReturned counting_driver laws 0 (plain 3 ∷ plain 6 ∷ [])

abbrev two_args : NamedValue ℕ
two_args = record { name = []; ordinal = 1; value = 3 }

runs :
    driver_args_conn_locked counting_driver 4 (plain 3 ∷ plain 5 ∷ plain 6 ∷ [])
    ≡ args_ok (
        record { name = []; ordinal = 1; value = 3 }
        ∷ record { name = []; ordinal = 2; value = 6 }
        ∷ [])
unfolding driver_args_conn_locked memsql_conn_pool.Arguments.fill
    memsql_conn_pool.Arguments.check_arg
runs = refl

driver_args_conn_locked-IsNumbered_example :
    (want counting_driver ≢ negsuc 0 → pos 2 ≡ want counting_driver)
    × (2 ≤ 3)
    × IsNumbered {V = ℕ}
        (record { name = []; ordinal = 1; value = 3 }
          ∷ record { name = []; ordinal = 2; value = 6 }
          ∷ [])
        0
driver_args_conn_locked-IsNumbered_example =
    driver_args_conn_locked-IsNumbered counting_driver keeps_ordinals 4
      (plain 3 ∷ plain 5 ∷ plain 6 ∷ [])
      (record { name = []; ordinal = 1; value = 3 }
        ∷ record { name = []; ordinal = 2; value = 6 }
        ∷ [])
      runs

driver_args_conn_locked-skips_to_nil_example :
    driver_args_conn_locked plain_driver 2 (plain 7 ∷ [])
    ≡ args_ok (record { name = []; ordinal = 1; value = 0 } ∷ [])
driver_args_conn_locked-skips_to_nil_example =
    driver_args_conn_locked-skips_to_nil plain_driver plain_laws 0 7 refl refl refl refl

driver_args_conn_locked-renames_example :
    driver_args_conn_locked checking_driver 4 (named (97 ∷ []) 5 ∷ plain 3 ∷ [])
    ≡ args_ok (record { name = 97 ∷ []; ordinal = 1; value = 3 } ∷ [])
unfolding memsql_conn_pool.Arguments.validate_named_value_name
driver_args_conn_locked-renames_example =
    driver_args_conn_locked-renames checking_driver check 3 (97 ∷ []) 5 3 refl refl refl refl refl
