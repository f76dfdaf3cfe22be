-- ===== src/Arguments.antt =====
-- `driverArgsConnLocked` of convert.go: the arguments of a query are checked and made into the
-- driver's named values. The values, the driver's checkers, `driver.IsValue` and
-- `driver.DefaultParameterConverter` are parameters.
pub mod Collected
pub mod Rounds
pub mod Numbers
pub mod Slips
use memsql_conn_pool.Base.{
  ℕ, zero, suc, ◌+◌, ◌-◌, ◌==◌, if◌then◌else◌, Bool, true, false, not, ◌&&◌, Option, none, some,
  is_some, List, [], ◌∷◌, length, replicate, get_elem?, set, take,
}
use memsql_conn_pool.Base.Int.{ℤ, pos, negsuc, ◌-ℤ◌, leb_ℤ}
use memsql_conn_pool.Facade.Requests.{eq_ℤ}
use memsql_conn_pool.Runtime.{
  Bytes, Err, skip, remove_argument, bad_name, non_subset, unsupported_column, converting_argument,
  argument_count,
}

-- `driver.NamedValue`.
pub record NamedValue (V : Type 0) : Type 0 where
  pub name : Bytes
  pub ordinal : ℕ
  pub value : V

-- An argument of a query: a `NamedArg` or any other value.
pub data Arg (V : Type 0) : Type 0 where
  named : Bytes → V → Arg V
  plain : V → Arg V

-- `Named`.
abbrev pub named_arg : {V : Type 0} → Bytes → V → Arg V
named_arg name v = named name v

-- A value that implements `driver.Valuer`: whether it is a nil pointer whose method belongs to the
-- type that it points to, and what its method gives.
pub record Valuer (V : Type 0) : Type 0 where
  pub is_nil_pointer : Bool
  pub call_value : V
  pub call_err : Option Err

-- What the code calls: of the driver (`CheckNamedValue` writes through a pointer, so it gives the
-- whole value back), of the package `driver`, and of the standard library.
pub record ArgDriver (V : Type 0) : Type 0 where
  pub starts_with_letter : Bytes → Bool
  pub named_checker : Option (NamedValue V → NamedValue V × Option Err)
  pub column_converter : Option (ℤ → V → V × Option Err)
  pub num_input : Option ℤ
  pub valuer : V → Option (Valuer V)
  pub is_value : V → Bool
  pub default_convert : V → V × Option Err
  pub nil_value : V

-- The number of inputs, -1 where it is not known or there is no statement.
abbrev pub want : {V : Type 0} → ArgDriver V → ℤ
want d = elim d.num_input [ none ↦ negsuc 0 | some n ↦ n ]

-- How a value is checked.
pub data Checker : Type 0 where
  by_default by_named by_column : Checker

-- What the checks of one argument come to; `spins` is the model's end of fuel.
pub data Checked (V : Type 0) : Type 0 where
  kept : NamedValue V → Checked V
  removed : NamedValue V → Checked V
  refused : NamedValue V → Err → Checked V
  spins : Checked V

pub data ArgsResult (V : Type 0) : Type 0 where
  args_ok : List (NamedValue V) → ArgsResult V
  args_err : Err → ArgsResult V
  args_spin : ArgsResult V
  index_out_of_range : ArgsResult V

module _ {V : Type 0} (d : ArgDriver V) where
  unfoldable pub validate_named_value_name : Bytes → Option Err
  validate_named_value_name [] = none
  validate_named_value_name (b ∷ bs) =
      if d.starts_with_letter (b ∷ bs) then none else some (bad_name (b ∷ bs))

  call_valuer_value : Valuer V → V × Option Err
  call_valuer_value v = if v.is_nil_pointer then (d.nil_value, none) else (v.call_value, v.call_err)

  -- Ordinals start at 1.
  abbrev index : NamedValue V → ℤ
  index nv = pos nv.ordinal -ℤ pos 1

  -- The column converter on a value that is no Valuer any more, and the check of what it gives.
  converted : (ℤ → V → V × Option Err) → NamedValue V → NamedValue V × Option Err
  converted convert nv =
      let (v, err) = convert (index nv) nv.value in
      (
        record nv { value = v },
        if is_some err then err else if d.is_value v then none else some unsupported_column,
      )

  own_value : (ℤ → V → V × Option Err) → NamedValue V → V × Option Err → NamedValue V × Option Err
  unfolding converted
  own_value convert nv (sv, some e) = (nv, some e)
  own_value convert nv (sv, none) =
      if d.is_value sv then converted convert (record nv { value = sv }) else (nv, some non_subset)

  column_value :
      (ℤ → V → V × Option Err) → NamedValue V → Option (Valuer V) → NamedValue V × Option Err
  unfolding converted own_value call_valuer_value
  column_value convert nv none = converted convert nv
  column_value convert nv (some v) = own_value convert nv (call_valuer_value v)

  -- `ccChecker.CheckNamedValue`. Without a statement `want` is 0.
  check_column : NamedValue V → NamedValue V × Option Err
  unfolding column_value
  check_column nv = elim d.column_converter [
    | none ↦ (nv, some skip)
    | some convert ↦
        if leb_ℤ (elim d.num_input [ none ↦ pos 0 | some n ↦ n ]) (index nv)
        then (nv, none)
        else column_value convert nv (d.valuer nv.value)
  ]

  default_check_named_value : NamedValue V → NamedValue V × Option Err
  default_check_named_value nv =
      let (v, err) = d.default_convert nv.value in (record nv { value = v }, err)

  unfoldable pub check_by : Checker → NamedValue V → NamedValue V × Option Err
  unfolding check_column default_check_named_value
  check_by by_default nv = default_check_named_value nv
  check_by by_column nv = check_column nv
  check_by by_named nv = elim d.named_checker [
    | none ↦ default_check_named_value nv
    | some check ↦ check nv
  ]

  -- The `switch` on the error of a check; `again` follows `ErrSkip`.
  unfoldable pub after_check : (NamedValue V → Checked V) → NamedValue V × Option Err → Checked V
  after_check again (nv, none) = kept nv
  after_check again (nv, some remove_argument) = removed nv
  after_check again (nv, some skip) = again nv
  after_check again (nv, some e) = refused nv e

  -- The loop at `nextCheck`.
  unfoldable pub run_checks : ℕ → Checker → Bool → NamedValue V → Checked V
  unfolding check_by after_check
  run_checks zero checker next_cc nv = spins
  run_checks (suc fuel) checker next_cc nv =
      after_check (λ nv'. run_checks fuel (if next_cc then by_column else by_default) false nv')
        (check_by checker nv)

  first_checker : Checker
  first_checker =
      if is_some d.named_checker
      then by_named
      else if is_some d.column_converter
      then by_column
      else by_default

  -- The checks of one argument, from the choice of the first checker.
  unfoldable pub check_arg : ℕ → NamedValue V → Checked V
  unfolding run_checks first_checker
  check_arg fuel nv =
      run_checks fuel first_checker (is_some d.named_checker && is_some d.column_converter) nv

  -- The slot `&nvargs[n]` with the argument written into it. A plain argument leaves the name that
  -- the slot has.
  unfoldable pub fill : Arg V → ℕ → NamedValue V → NamedValue V × Option Err
  unfolding validate_named_value_name
  fill (named name v) n slot =
      (record { name = name; ordinal = n + 1; value = v }, validate_named_value_name name)
  fill (plain v) n slot = (record slot { ordinal = n + 1; value = v }, none)

  -- What follows the checks of an argument: `next_kept` and `next_removed` go on with the others.
  unfoldable pub after_checks :
      (NamedValue V → ArgsResult V) → (NamedValue V → ArgsResult V) → Checked V → ArgsResult V
  after_checks next_kept next_removed (kept nv) = next_kept nv
  after_checks next_kept next_removed (removed nv) = next_removed nv
  after_checks next_kept next_removed (refused nv e) =
      args_err (converting_argument nv.ordinal nv.name e)
  after_checks next_kept next_removed spins = args_spin

  unfoldable pub after_fill :
      (NamedValue V → ArgsResult V)
      → (NamedValue V → ArgsResult V)
      → ℕ
      → NamedValue V × Option Err
      → ArgsResult V
  unfolding after_checks
  after_fill next_kept next_removed fuel (nv, some e) = args_err e
  after_fill next_kept next_removed fuel (nv, none) =
      after_checks next_kept next_removed (check_arg fuel nv)

  unfoldable pub at_slot :
      (NamedValue V → ArgsResult V)
      → (NamedValue V → ArgsResult V)
      → ℕ
      → Arg V
      → ℕ
      → Option (NamedValue V)
      → ArgsResult V
  unfolding after_fill
  at_slot next_kept next_removed fuel arg n none = index_out_of_range
  at_slot next_kept next_removed fuel arg n (some slot) =
      after_fill next_kept next_removed fuel (fill arg n slot)

  -- The loop over the arguments; `nvargs` has a slot for each that is left, from index `n`.
  unfoldable pub args_loop : ℕ → List (Arg V) → List (NamedValue V) → ℕ → ArgsResult V
  unfolding at_slot
  args_loop fuel [] nvargs n = args_ok nvargs
  args_loop fuel (arg ∷ args) nvargs n =
      let next_kept = λ (nv : NamedValue V). args_loop fuel args (set nvargs n nv) (n + 1) in
      let next_removed =
        λ (nv : NamedValue V). args_loop fuel args (take (length nvargs - 1) (set nvargs n nv)) n in
      at_slot next_kept next_removed fuel arg n (get_elem? nvargs n)

  unfoldable pub checked_count : ArgsResult V → ArgsResult V
  checked_count (args_ok nvs) =
      if not (eq_ℤ (want d) (negsuc 0)) && not (eq_ℤ (pos (length nvs)) (want d))
      then args_err (argument_count (want d) (length nvs))
      else args_ok nvs
  checked_count r = r

  abbrev pub zero_value : NamedValue V
  zero_value = record { name = []; ordinal = 0; value = d.nil_value }

  -- `driverArgsConnLocked`.
  unfoldable pub driver_args_conn_locked : ℕ → List (Arg V) → ArgsResult V
  unfolding args_loop checked_count
  driver_args_conn_locked fuel args =
      checked_count (args_loop fuel args (replicate (length args) zero_value) 0)
