-- ===== src/Statements/Bags.antt =====
-- Bags: lists of which the order does not count, and the driver's statements on open connections.
use memsql_conn_pool.Base.{
  ℕ, suc, ◌+◌, ◌≡◌, refl, ap, ◌⊎◌, inl, inr, if◌then◌else◌, Bool, false, List, [], ◌∷◌, ◌++◌, arith,
}
use memsql_conn_pool.Statements.{ConnStmt}

-- How many elements pass a test.
abbrev pub count_if {ℓ} : {A : Type ℓ} → (A → Bool) → List A → ℕ
count_if q [] = 0
count_if q (x ∷ xs) = let rest = count_if q xs in if q x then suc rest else rest

-- The same elements, each as often, in any order.
abbrev pub IsBagOf {ℓ} : {A : Type ℓ} → List A → List A → Type ℓ
IsBagOf {A = A} xs ys = (q : A → Bool) → count_if q xs ≡ count_if q ys

-- The specification: the entries of connections that are open, in their order.
abbrev pub open_only : (ℕ → Bool) → List ConnStmt → List ConnStmt
open_only is_closed [] = []
open_only is_closed (v ∷ css) =
    let rest = open_only is_closed css in if is_closed v.dc then rest else v ∷ rest

pub count_if-append {ℓ} :
    {A : Type ℓ} (q : A → Bool) (xs ys : List A)
    → count_if q (xs ++ ys) ≡ count_if q xs + count_if q ys
count_if-append q [] ys = omega arith
count_if-append q (x ∷ xs) ys = ground (arith, count_if-append q xs ys)

-- A test that closed connections fail.
abbrev pub on_open : (ℕ → Bool) → (ConnStmt → Bool) → ConnStmt → Bool
on_open is_closed q v = if is_closed v.dc then false else q v

pub count_if-open_only :
    (is_closed : ℕ → Bool) (q : ConnStmt → Bool) (css : List ConnStmt)
    → count_if q (open_only is_closed css) ≡ count_if (on_open is_closed q) css
count_if-open_only is_closed q [] = refl
count_if-open_only is_closed q (v ∷ css) = ground (arith, count_if-open_only is_closed q css)

-- A list is empty or has a last element.
pub end_of :
    (xs : List ConnStmt)
    → (xs ≡ []) ⊎ ((init : List ConnStmt) × (last : ConnStmt) × (xs ≡ init ++ last ∷ []))
end_of [] = inl refl
end_of (x ∷ xs) = elim (end_of xs) [
  | inl e ↦ inr ([], x, ap (λ r. x ∷ r) e)
  | inr (init, last, e) ↦ inr (x ∷ init, last, ap (λ r. x ∷ r) e)
]
