-- ===== src/Arguments/Collected.antt =====
-- What `driverArgsConnLocked` collects: its slice, which it fills and cuts by an index, against a
-- plain recursion over the arguments.
use memsql_conn_pool.Base.{
  ℕ, zero, suc, ◌+◌, ◌-◌, ◌≡◌, refl, sym, ap, ◌∙◌, List, [], ◌∷◌, ◌++◌, length, replicate, set,
  take, arith, length-append, append_assoc, get_elem?-middle, set-middle, take-append, append-nil,
  length-replicate,
}
use mathlib.Core.Path.{fun_ext}
use memsql_conn_pool.Arguments.{
  Arg, NamedValue, ArgDriver, ArgsResult, args_ok, args_loop, driver_args_conn_locked,
  checked_count, after_fill, at_slot, fill, zero_value,
}

module _ {V : Type 0} (d : ArgDriver V) where
  -- The specification: what is kept, in its order; `slot` is what the next place holds, the zero
  -- value or the argument that was removed from it.
  unfoldable pub collect : ℕ → List (Arg V) → NamedValue V → List (NamedValue V) → ArgsResult V
  collect fuel [] slot done = args_ok done
  collect fuel (arg ∷ args) slot done =
      let next_kept = λ (nv : NamedValue V). collect fuel args (zero_value d) (done ++ nv ∷ []) in
      let next_removed = λ (nv : NamedValue V). collect fuel args nv done in
      after_fill d next_kept next_removed fuel (fill d arg (length done) slot)

  -- The slots that are left for the arguments that are left.
  slots : List (Arg V) → NamedValue V → List (NamedValue V)
  slots [] slot = []
  slots (arg ∷ args) slot = slot ∷ replicate (length args) (zero_value d)

  slots-zero :
      (args : List (Arg V)) → replicate (length args) (zero_value d) ≡ slots args (zero_value d)
  unfolding slots
  slots-zero [] = refl
  slots-zero (arg ∷ args) = refl

  take-replicate : (n : ℕ) (x : NamedValue V) → take n (replicate (suc n) x) ≡ replicate n x
  take-replicate zero x = refl
  take-replicate (suc n) x = ap (λ r. x ∷ r) (take-replicate n x)

  take-slots :
      (args : List (Arg V)) (nv : NamedValue V)
      → take (length args) (nv ∷ replicate (length args) (zero_value d)) ≡ slots args nv
  unfolding slots
  take-slots [] nv = refl
  take-slots (arg ∷ args) nv = ap (λ r. nv ∷ r) (take-replicate (length args) (zero_value d))

  -- The slots after an argument that is kept, and after one that is removed.
  kept_slots :
      (args : List (Arg V)) (slot nv : NamedValue V) (done : List (NamedValue V))
      → set (done ++ slot ∷ replicate (length args) (zero_value d)) (length done) nv
        ≡ (done ++ nv ∷ []) ++ slots args (zero_value d)
  kept_slots args slot nv done =
      set-middle done slot nv _
      ∙ ap (λ r. done ++ nv ∷ r) (slots-zero args)
      ∙ sym (append_assoc done (nv ∷ []) (slots args (zero_value d)))

  removed_slots :
      (args : List (Arg V)) (slot nv : NamedValue V) (done : List (NamedValue V))
      → let all = done ++ slot ∷ replicate (length args) (zero_value d) in
        take (length all - 1) (set all (length done) nv) ≡ done ++ slots args nv
  removed_slots args slot nv done =
      let cut : length (done ++ slot ∷ replicate (length args) (zero_value d)) - 1
          ≡ length done + length args =
        omega (
          arith,
          length-append done (slot ∷ replicate (length args) (zero_value d)),
          length-replicate (length args) (zero_value d),
        ) in
      rw (cut, set-middle done slot nv (replicate (length args) (zero_value d)))
        (take-append done (nv ∷ replicate (length args) (zero_value d)) (length args)
          ∙ ap (λ r. done ++ r) (take-slots args nv))

  one_more :
      (nv : NamedValue V) (done : List (NamedValue V)) → length done + 1 ≡ length (done ++ nv ∷ [])
  one_more nv done = omega (arith, length-append done (nv ∷ []))

  args_loop-collect :
      (fuel : ℕ) (args : List (Arg V)) (slot : NamedValue V) (done : List (NamedValue V))
      → args_loop d fuel args (done ++ slots args slot) (length done) ≡ collect fuel args slot done
  unfolding args_loop collect slots
  args_loop-collect fuel [] slot done = ap args_ok (append-nil done)
  args_loop-collect fuel (arg ∷ args) slot done =
      let all = done ++ slot ∷ replicate (length args) (zero_value d) in
      let keeps : (nv : NamedValue V)
          → args_loop d fuel args (set all (length done) nv) (length done + 1)
            ≡ collect fuel args (zero_value d) (done ++ nv ∷ []) =
        λ nv.
          rw (kept_slots args slot nv done, one_more nv done)
            (args_loop-collect fuel args (zero_value d) (done ++ nv ∷ [])) in
      let removes : (nv : NamedValue V)
          → args_loop d fuel args (take (length all - 1) (set all (length done) nv)) (length done)
            ≡ collect fuel args nv done =
        λ nv. rw (removed_slots args slot nv done) (args_loop-collect fuel args nv done) in
      rw (get_elem?-middle done slot (replicate (length args) (zero_value d)), args_loop, at_slot)
        (λ i.
          after_fill d (fun_ext keeps i) (fun_ext removes i) fuel (fill d arg (length done) slot))

  -- `driverArgsConnLocked`, which fills and cuts a slice by an index, gives what a plain
  -- recursion over the arguments collects: those that are kept, in their order, where the next
  -- argument finds the zero value or the argument that was removed in its place.
  pub driver_args_conn_locked-collect :
      (fuel : ℕ) (args : List (Arg V))
      → driver_args_conn_locked d fuel args ≡ checked_count d (collect fuel args (zero_value d) [])
  unfolding driver_args_conn_locked
  driver_args_conn_locked-collect fuel args = ap (checked_count d) (
      ap (λ s. args_loop d fuel args s 0) (slots-zero args)
      ∙ args_loop-collect fuel args (zero_value d) [])
