-- ===== src/Runtime/Binds.antt =====
-- Inversion of a chain of calls that returns.
use memsql_conn_pool.Base.{◌≡◌, refl}
use memsql_conn_pool.Runtime.Environment.{Env}
use memsql_conn_pool.Runtime.State.{World}
use memsql_conn_pool.Runtime.Monad.{Outcome, ok, panics, blocks, no_fuel, M, ◌>>=◌}
use native.Mathlib.Omega.{arith}

module _ {env : Env} where
  pub >>=-eq-ok :
      {A B : Type 0} (m : M env A) (f : A → M env B) (w : World env) {b : B} {w'' : World env}
      → (m >>= f) w ≡ ok b w''
      → (a : A) × (w' : World env) × (m w ≡ ok a w') × (f a w' ≡ ok b w'')
  >>=-eq-ok m f w {b} {w''} h = go (m w) refl
    where
      go :
          (o : Outcome env _)
          → m w ≡ o
          → (a : _) × (w' : World env) × (m w ≡ ok a w') × (f a w' ≡ ok b w'')
      go (ok a w') e = (a, w', e, rw (e, ◌>>=◌) at h)
      go (panics p) e = absurd (ground (arith))
      go (blocks p) e = absurd (ground (arith))
      go no_fuel e = absurd (ground (arith))

  -- The same for a goal `P`: what comes back are variables.
  pub >>=-elim {ℓ} :
      {A B : Type 0} {P : Type ℓ} (m : M env A) (f : A → M env B) (w : World env) {b : B}
      {w'' : World env}
      → (m >>= f) w ≡ ok b w''
      → ((a : A) (w' : World env) → m w ≡ ok a w' → f a w' ≡ ok b w'' → P)
      → P
  >>=-elim m f w h k = let (a, w', e, h') = >>=-eq-ok m f w h in k a w' e h'

  pub ok-injective :
      {A : Type 0} {a b : A} {w w' : World env} → ok a w ≡ ok b w' → (a ≡ b) × (w ≡ w')
  ok-injective e = (cc, cc)

  -- Total correctness: the call returns, and `P` holds of what it leaves.
  abbrev pub Returns : {A : Type 0} → Outcome env A → (A → World env → Type 0) → Type 0
  Returns (ok a w) P = P a w
  Returns (panics p) P = ⊥
  Returns (blocks b) P = ⊥
  Returns no_fuel P = ⊥

  pub Returns->>= :
      {A B : Type 0} (Q : A → World env → Type 0) (P : B → World env → Type 0) (m : M env A)
      (f : A → M env B) (w : World env)
      → Returns (m w) Q
      → ((a : A) (w' : World env) → Q a w' → Returns (f a w') P)
      → Returns ((m >>= f) w) P
  Returns->>= Q P m f w hm hf = go (m w) refl hm
    where
      go : (o : Outcome env _) → m w ≡ o → Returns o Q → Returns ((m >>= f) w) P
      go (ok a w') e q = rw (e, ◌>>=◌) (hf a w' q)
      go (panics p) e q = absurd q
      go (blocks p) e q = absurd q
      go no_fuel e q = absurd q

  pub Returns-mono :
      {A : Type 0} {P Q : A → World env → Type 0} (o : Outcome env A)
      → Returns o P
      → ((a : A) (w : World env) → o ≡ ok a w → P a w → Q a w)
      → Returns o Q
  Returns-mono (ok a w) h k = k a w refl h
  Returns-mono (panics x) h k = h
  Returns-mono (blocks x) h k = h
  Returns-mono no_fuel h k = h
