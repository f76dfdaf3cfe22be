-- ===== src/Base/Arrays.antt =====
-- Go slices as lists: reads, writes and reslicing by an index.
use Prim.Native.Nat.{ℕ, zero, suc, ◌+◌}
use mathlib.Core.Path.{◌≡◌, refl, ap}
use mathlib.Core.Option.{Option, none, some}
use mathlib.Core.List.{List, [], ◌∷◌, ◌++◌}
use native.Mathlib.Omega.{arith}
use memsql_conn_pool.Base.Lists.{length}

module _ {ℓ} {A : Type ℓ} where
  abbrev pub get_elem? : List A → ℕ → Option A
  get_elem? [] i = none
  get_elem? (x ∷ xs) zero = some x
  get_elem? (x ∷ xs) (suc i) = get_elem? xs i

  -- A write out of bounds changes nothing; the code makes none.
  abbrev pub set : List A → ℕ → A → List A
  set [] i v = []
  set (x ∷ xs) zero v = v ∷ xs
  set (x ∷ xs) (suc i) v = x ∷ set xs i v

  abbrev pub take : ℕ → List A → List A
  take zero xs = []
  take (suc n) [] = []
  take (suc n) (x ∷ xs) = x ∷ take n xs

  pub get_elem?-middle :
      (done : List A) (x : A) (rest : List A) → get_elem? (done ++ x ∷ rest) (length done) ≡ some x
  get_elem?-middle [] x rest = refl
  get_elem?-middle (d ∷ done) x rest = get_elem?-middle done x rest

  pub set-middle :
      (done : List A) (x y : A) (rest : List A)
      → set (done ++ x ∷ rest) (length done) y ≡ done ++ y ∷ rest
  set-middle [] x y rest = refl
  set-middle (d ∷ done) x y rest = ap (λ r. d ∷ r) (set-middle done x y rest)

  pub take-append :
      (done rest : List A) (n : ℕ) → take (length done + n) (done ++ rest) ≡ done ++ take n rest
  take-append [] rest n = ground arith
  take-append (d ∷ done) rest n =
      let e : suc (length done) + n ≡ suc (length done + n) = omega arith in
      rw e (ap (λ r. d ∷ r) (take-append done rest n))

  pub get_elem?-end : (done : List A) → get_elem? done (length done) ≡ none
  get_elem?-end [] = refl
  get_elem?-end (d ∷ done) = get_elem?-end done
