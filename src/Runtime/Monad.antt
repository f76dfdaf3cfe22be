-- ===== src/Runtime/Monad.antt =====
-- One goroutine: it returns, panics, waits for ever, or runs out of the model's fuel.
use memsql_conn_pool.Base.{true, false, ℕ, suc, Bool, List, [], ◌∷◌}
use memsql_conn_pool.Runtime.Errors.{Panic, Wait}
use memsql_conn_pool.Runtime.Environment.{Env}
use memsql_conn_pool.Runtime.State.{World}

pub data Outcome (env : Env) (A : Type 0) : Type 0 where
  ok : A → World env → Outcome env A
  panics : Panic → Outcome env A
  blocks : Wait → Outcome env A
  no_fuel : Outcome env A

abbrev pub M : Env → Type 0 → Type 0
M env A = World env → Outcome env A

infixl 5 ◌>>=◌ ◌>>◌
abbrev pub ◌>>=◌ : {env : Env} {A B : Type 0} → M env A → (A → M env B) → M env B
◌>>=◌ m f w = elim (m w) [
  | ok a w' ↦ f a w'
  | panics p ↦ panics p
  | blocks b ↦ blocks b
  | no_fuel ↦ no_fuel
]

abbrev pub ◌>>◌ : {env : Env} {B : Type 0} → M env (Unit {0}) → M env B → M env B
m >> k = m >>= λ _. k

abbrev pub pure : {env : Env} {A : Type 0} → A → M env A
pure a w = ok a w

abbrev pub panic : {env : Env} {A : Type 0} → Panic → M env A
panic p w = panics p

abbrev pub gets : {env : Env} {A : Type 0} → (World env → A) → M env A
gets f w = ok (f w) w

abbrev pub modify : {env : Env} → (World env → World env) → M env (Unit {0})
modify f w = ok tt (f w)

-- One call of the environment: its answer, and the next tick.
abbrev pub ask : {env : Env} {A : Type 0} → (ℕ → A) → M env A
ask f w = ok (f w.tick) (record w { tick = suc w.tick })

-- `if c { m }`
abbrev pub when : {env : Env} → Bool → M env (Unit {0}) → M env (Unit {0})
when true m w = m w
when false m w = ok tt w

-- `for _, x := range xs { f x }`
unfoldable pub for_each :
    {env : Env} {A : Type 0} → (A → M env (Unit {0})) → List A → M env (Unit {0})
for_each f [] w = ok tt w
for_each f (x ∷ xs) w = elim (f x w) [
  | ok _ w' ↦ for_each f xs w'
  | panics p ↦ panics p
  | blocks b ↦ blocks b
  | no_fuel ↦ no_fuel
]
