-- ===== src/Base/Lists.antt =====
-- Lists measured by native numbers, and lists of numbers used as Go sets.
use Prim.Native.Nat.{ℕ, zero, suc, ◌+◌, ◌≤◌}
use mathlib.Core.Path.{◌≡◌, refl, ap}
use mathlib.Core.Logic.{◌≢◌}
use mathlib.Core.Bool.{Bool, true, false}
use mathlib.Core.List.{List, [], ◌∷◌, ◌++◌}
use native.Mathlib.Omega.{arith}
use memsql_conn_pool.Base.Tests.{◌==◌, if◌then◌else◌}

module _ {ℓ} {A : Type ℓ} where
  abbrev pub length : List A → ℕ
  length [] = 0
  length (x ∷ xs) = suc (length xs)

  pub length-append : (xs ys : List A) → length (xs ++ ys) ≡ length xs + length ys
  length-append [] ys = omega arith
  length-append (x ∷ xs) ys = omega (arith, length-append xs ys)

  abbrev pub replicate : ℕ → A → List A
  replicate zero a = []
  replicate (suc n) a = a ∷ replicate n a

  pub length-replicate : (n : ℕ) (a : A) → length (replicate n a) ≡ n
  length-replicate zero a = refl
  length-replicate (suc n) a = ap suc (length-replicate n a)

  abbrev pub All {κ} : (A → Type κ) → List A → Type κ
  All P [] = Unit
  All P (x ∷ xs) = P x × All P xs

  pub All-append {κ} : (P : A → Type κ) (xs ys : List A) → All P xs → All P ys → All P (xs ++ ys)
  All-append P [] ys hx hy = hy
  All-append P (x ∷ xs) ys hx hy = (hx.0, All-append P xs ys hx.1 hy)

abbrev pub contains : ℕ → List ℕ → Bool
contains k [] = false
contains k (x ∷ xs) = if x == k then true else contains k xs

-- `delete(m, k)` on a map used as a set.
abbrev pub delete : ℕ → List ℕ → List ℕ
delete k [] = []
delete k (x ∷ xs) = let rest = delete k xs in if x == k then rest else x ∷ rest

abbrev pub count : ℕ → List ℕ → ℕ
count k [] = 0
count k (x ∷ xs) = (if x == k then 1 else 0) + count k xs

pub contains-delete_self : (k : ℕ) (xs : List ℕ) → contains k (delete k xs) ≡ false
contains-delete_self k [] = refl
contains-delete_self k (x ∷ xs) = ground (arith, contains-delete_self k xs)

pub contains-delete_ne : (j k : ℕ) (xs : List ℕ) → j ≢ k → contains j (delete k xs) ≡ contains j xs
contains-delete_ne j k [] h = refl
contains-delete_ne j k (x ∷ xs) h = ground (arith, contains-delete_ne j k xs h)

pub count-append : (k : ℕ) (xs ys : List ℕ) → count k (xs ++ ys) ≡ count k xs + count k ys
count-append k [] ys = omega arith
count-append k (x ∷ xs) ys = omega (arith, count-append k xs ys)

pub length-delete-le : (k : ℕ) (xs : List ℕ) → length (delete k xs) ≤ length xs
length-delete-le k [] = omega arith
length-delete-le k (x ∷ xs) = ground (arith, length-delete-le k xs)

pub count-replicate_self : (k n : ℕ) → count k (replicate n k) ≡ n
count-replicate_self k zero = refl
count-replicate_self k (suc n) = ground (arith, count-replicate_self k n)

pub count-replicate_ne : (j k n : ℕ) → j ≢ k → count j (replicate n k) ≡ 0
count-replicate_ne j k zero h = refl
count-replicate_ne j k (suc n) h = ground (arith, count-replicate_ne j k n h)

pub count-delete_self : (k : ℕ) (xs : List ℕ) → count k (delete k xs) ≡ 0
count-delete_self k [] = refl
count-delete_self k (x ∷ xs) = ground (arith, count-delete_self k xs)

pub count-delete_ne : (j k : ℕ) (xs : List ℕ) → j ≢ k → count j (delete k xs) ≡ count j xs
count-delete_ne j k [] h = refl
count-delete_ne j k (x ∷ xs) h = ground (arith, count-delete_ne j k xs h)

pub count-delete :
    (j k : ℕ) (xs : List ℕ) → count j (delete k xs) ≡ (if j == k then 0 else count j xs)
count-delete j k [] = ground arith
count-delete j k (x ∷ xs) = ground (arith, count-delete j k xs)
