-- ===== src/Pool/Retry/Attempts.antt =====
-- Which attempts the retry wrappers make.
use memsql_conn_pool.Base.{
  ◌≡◌, refl, if◌then◌else◌, true, false, List, [], ◌∷◌, arith, Bool-cases, inl, inr,
}
use memsql_conn_pool.Pool.Acquire.{ConnReuseStrategy, cached_or_new_conn, always_new_conn}
use memsql_conn_pool.Pool.Retry.{Tried, retrying, cached_attempts}
use memsql_conn_pool.Runtime.{
  Env, is_bad_conn, World, M, Outcome, ok, panics, blocks, no_fuel, ◌>>=◌, pure, Returns,
  Returns->>=,
}

module _ {env : Env} {A : Type 0} where
  -- The specification: each strategy in turn, as long as the connection is bad.
  unfoldable pub in_turn :
      (ConnReuseStrategy → M env (Tried A))
      → ConnReuseStrategy
      → List ConnReuseStrategy
      → M env (Tried A)
  in_turn attempt s [] w = attempt s w
  in_turn attempt s (s' ∷ ss) w =
      (attempt s >>= λ r. if is_bad_conn r.err then in_turn attempt s' ss else pure r) w

  -- There are at most three attempts, two that may take an idle connection and a last one that
  -- takes a new one; each is made only where all before it met a bad connection.
  pub retrying-in_turn :
      (attempt : ConnReuseStrategy → M env (Tried A)) (w : World env)
      → retrying attempt w
        ≡ in_turn attempt cached_or_new_conn (cached_or_new_conn ∷ always_new_conn ∷ []) w
  unfolding retrying in_turn cached_attempts
  retrying-in_turn attempt w = first (attempt cached_or_new_conn w) refl
    where
      second :
          (w₁ : World env) (o : Outcome env (Tried A))
          → attempt cached_or_new_conn w₁ ≡ o
          → ((attempt cached_or_new_conn >>= λ r.
                  if is_bad_conn r.err then (λ v. pure r v) else pure r)
                >>= λ r. if is_bad_conn r.err then attempt always_new_conn else pure r)
              w₁
            ≡ in_turn attempt cached_or_new_conn (always_new_conn ∷ []) w₁
      second w₁ (ok r w₂) e =
          rw (e, ◌>>=◌, in_turn)
            (elim (Bool-cases (is_bad_conn r.err)) [
              | inl bad ↦ rw bad (rw bad refl)
              | inr fine ↦ rw fine (rw fine refl)
            ])
      second w₁ (panics p) e = rw (e, ◌>>=◌, in_turn) refl
      second w₁ (blocks b) e = rw (e, ◌>>=◌, in_turn) refl
      second w₁ no_fuel e = rw (e, ◌>>=◌, in_turn) refl

      first :
          (o : Outcome env (Tried A))
          → attempt cached_or_new_conn w ≡ o
          → retrying attempt w
            ≡ in_turn attempt cached_or_new_conn (cached_or_new_conn ∷ always_new_conn ∷ []) w
      first (ok r w₁) e =
          rw (e, ◌>>=◌)
            (elim (Bool-cases (is_bad_conn r.err)) [
              | inl bad ↦ rw bad (second w₁ (attempt cached_or_new_conn w₁) refl)
              | inr fine ↦ rw fine (rw fine refl)
            ])
      first (panics p) e = rw (e, ◌>>=◌) refl
      first (blocks b) e = rw (e, ◌>>=◌) refl
      first no_fuel e = rw (e, ◌>>=◌) refl

  -- An attempt that meets no bad connection is the only one.
  pub retrying-first :
      (attempt : ConnReuseStrategy → M env (Tried A)) (w : World env)
      (P : Tried A → World env → Type 0)
      → Returns (attempt cached_or_new_conn w) (λ r w'. (is_bad_conn r.err ≡ false) × P r w')
      → Returns (retrying attempt w) P
  unfolding in_turn
  retrying-first attempt w P h = rw (retrying-in_turn attempt w) (
      Returns->>= (λ r w'. (is_bad_conn r.err ≡ false) × P r w') P (attempt cached_or_new_conn) _ w
        h λ r w₁ (fine, holds). rw fine holds)

  -- If the error is a bad connection, it is the attempt with a new connection that has met it.
  abbrev pub LastIsBad : (ConnReuseStrategy → M env (Tried A)) → Tried A → World env → Type 0
  LastIsBad attempt r w' =
      is_bad_conn r.err ≡ true → (v : World env) × (attempt always_new_conn v ≡ ok r w')

  last :
      (attempt : ConnReuseStrategy → M env (Tried A)) (v : World env)
      → Returns (attempt always_new_conn v) (λ _ _. Unit {0})
      → Returns (attempt always_new_conn v) (LastIsBad attempt)
  last attempt v returns = go (attempt always_new_conn v) refl returns
    where
      go :
          (o : Outcome env (Tried A))
          → attempt always_new_conn v ≡ o
          → Returns o (λ _ _. Unit {0})
          → Returns o (LastIsBad attempt)
      go (ok r w') e h = λ bad. (v, e)
      go (panics p) e h = absurd h
      go (blocks b) e h = absurd h
      go no_fuel e h = absurd h

  -- Where every attempt returns, the retry wrapper returns, and it reports a bad connection only
  -- if an attempt with a new connection has.
  pub retrying-Returns :
      (attempt : ConnReuseStrategy → M env (Tried A)) (w : World env)
      → ((s : ConnReuseStrategy) (v : World env) → Returns (attempt s v) λ _ _. Unit {0})
      → Returns (retrying attempt w) λ r w'. LastIsBad attempt r w'
  unfolding in_turn
  retrying-Returns attempt w returns = rw (retrying-in_turn attempt w) (
      Returns->>= (λ _ _. Unit {0}) _ (attempt cached_or_new_conn) _ w
        (returns cached_or_new_conn w)
        λ r w₁ _. elim (Bool-cases (is_bad_conn r.err)) [
          | inl bad ↦ rw bad (
              Returns->>= (λ _ _. Unit {0}) _ (attempt cached_or_new_conn) _ w₁
                (returns cached_or_new_conn w₁)
                λ r' w₂ _. elim (Bool-cases (is_bad_conn r'.err)) [
                  | inl worse ↦ rw worse (last attempt w₂ (returns always_new_conn w₂))
                  | inr fine ↦ rw fine (λ claim. absurd (ground arith))
                ])
          | inr fine ↦ rw fine (λ claim. absurd (ground arith))
        ])
