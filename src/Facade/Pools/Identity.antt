-- ===== src/Facade/Pools/Identity.antt =====
-- Which credentials share a pool: `GetId` of credentials.go and `getOrCreateConnPool` of
-- conn_pool_facade.go.
use memsql_conn_pool.Base.{
  ℕ, ◌≡◌, refl, sym, ap, ◌∙◌, true, false, some, ◌++◌, append_assoc, arith, is_some, ◌&&◌,
  Bool-cases, inl, inr,
}
use memsql_conn_pool.Facade.Pools.{
  PoolResult, open_pool, create_conn_pool, register_pool, Credentials, get_id, get_data_source_name,
  get_or_create_conn_pool, register_pool, pool_ok, pool_err,
}
use memsql_conn_pool.Base.Int.{ℤ, pos, ltb_ℤ}
use memsql_conn_pool.Pool.Cleaner.{start_cleaner_locked, clamped, set_conn_max_idle_time}
use memsql_conn_pool.Runtime.{
  >>=-elim, ok-injective, Keeps, facade_of, >>=-Keeps, when-Keeps, lock_pool-Keeps,
  unlock_pool-Keeps, set_pool-Keeps, lock_pool, gets, when, set_pool, Env, CmapLaws, Bytes, World,
  ok,
}

-- The bytes of a credential may move over the borders of its fields: the identity does not tell.
pub get_id-shift :
    (u p d s : Bytes)
    → get_id (record { username = u ++ s; password = p; database = d })
      ≡ get_id (record { username = u; password = s ++ p; database = d })
unfolding get_id
get_id-shift u p d s = simp append_assoc

module _ {env : Env} (laws : CmapLaws env) where
  -- Once a pool stands under an identity, every credential of that identity gets it, with no
  -- effect, whatever its own user and password are.
  pub get_or_create_conn_pool-shared :
      (w : World env) (c c' : Credentials) (p : ℕ)
      → w.facade.closed ≡ false
      → env.cmap_get (get_id c) w.facade.pools ≡ some p
      → get_id c ≡ get_id c'
      → get_or_create_conn_pool c' w ≡ ok (pool_ok p) w
  unfolding get_or_create_conn_pool
  get_or_create_conn_pool-shared w c c' p still_open held same =
      let found : env.cmap_get (get_id c') w.facade.pools ≡ some p = rw (← same) held in
      let has : env.cmap_has (get_id c') w.facade.pools ≡ true =
        rw (laws.has_get (get_id c') w.facade.pools, found) refl in
      rw (still_open, has, found) refl

  -- In an open facade, a user whose name and password run together as another's, on the same
  -- database, gets the other's pool, with no check of his own password.
  pub get_or_create_conn_pool-collides :
      (w : World env) (u p d s : Bytes) (pool : ℕ)
      → w.facade.closed ≡ false
      → env.cmap_get
          (get_id (record { username = u ++ s; password = p; database = d }))
          w.facade.pools
        ≡ some pool
      → get_or_create_conn_pool (record { username = u; password = s ++ p; database = d }) w
        ≡ ok (pool_ok pool) w
  get_or_create_conn_pool-collides w u p d s pool still_open held =
      get_or_create_conn_pool-shared w (record { username = u ++ s; password = p; database = d })
        (record { username = u; password = s ++ p; database = d }) pool still_open held
        (get_id-shift u p d s)

  start_cleaner_locked-Keeps : (p : ℕ) → Keeps facade_of (start_cleaner_locked {env = env} p)
  unfolding start_cleaner_locked
  start_cleaner_locked-Keeps p w a w' h = ground arith

  set_conn_max_idle_time-Keeps :
      (p : ℕ) (d : ℤ) → Keeps facade_of (set_conn_max_idle_time {env = env} p d)
  unfolding set_conn_max_idle_time
  set_conn_max_idle_time-Keeps p d = >>=-Keeps facade_of (lock_pool p) _ (lock_pool-Keeps p) λ _.
      >>=-Keeps facade_of (gets (λ w. w.pools p)) _
        (λ w a w' h. ap facade_of (sym (ok-injective h).1))
        λ s.
          >>=-Keeps facade_of
            (when
              (ltb_ℤ (pos 0) (clamped d)
                && ltb_ℤ (clamped d) s.max_idle_time
                && is_some s.cleaner_ch)
              (set_pool p (λ s'. record s' { cleaner_ch = some true })))
            _
            (when-Keeps facade_of
              (ltb_ℤ (pos 0) (clamped d)
                && ltb_ℤ (clamped d) s.max_idle_time
                && is_some s.cleaner_ch)
              (set_pool p (λ s'. record s' { cleaner_ch = some true }))
              (set_pool-Keeps p (λ s'. record s' { cleaner_ch = some true })))
            λ _.
              >>=-Keeps facade_of (set_pool p (λ s'. record s' { max_idle_time = clamped d })) _
                (set_pool-Keeps p (λ s'. record s' { max_idle_time = clamped d }))
                λ _.
                  >>=-Keeps facade_of (start_cleaner_locked p) _ (start_cleaner_locked-Keeps p)
                    λ _. unlock_pool-Keeps p

  open_pool-keeps :
      (name dsn : Bytes) (w : World env) {r : PoolResult} {w' : World env}
      → open_pool name dsn w ≡ ok r w'
      → w'.facade ≡ w.facade
  unfolding open_pool
  open_pool-keeps name dsn w h = ground arith

  registered :
      (c : Credentials) (q : ℕ) (w w₁ w₂ : World env) {p : ℕ} {w' : World env}
      → w₁.facade ≡ w.facade
      → w₂.facade ≡ w₁.facade
      → ok (pool_ok q) (
          let f = w₂.facade in
          record w₂ { facade = record f { pools = env.cmap_set (get_id c) q f.pools } })
        ≡ ok (pool_ok p) w'
      → (env.cmap_get (get_id c) w'.facade.pools ≡ some p) × (w'.facade.closed ≡ w.facade.closed)
  registered c q w w₁ w₂ same₁ same₂ h =
      ground (arith, laws.get_set_self (get_id c) q w₂.facade.pools)

  create_conn_pool-registers :
      (c : Credentials) (w : World env) {p : ℕ} {w' : World env}
      → create_conn_pool c w ≡ ok (pool_ok p) w'
      → (env.cmap_get (get_id c) w'.facade.pools ≡ some p) × (w'.facade.closed ≡ w.facade.closed)
  unfolding create_conn_pool register_pool
  create_conn_pool-registers c w {p} {w'} h =
      >>=-elim (open_pool w.facade.driver_name (get_data_source_name c)) _ w h λ r w₁ e₁ h₁.
        go r w₁ (open_pool-keeps w.facade.driver_name (get_data_source_name c) w e₁) h₁
    where
      go :
          (r : PoolResult) (w₁ : World env)
          → w₁.facade ≡ w.facade
          → register_pool c r w₁ ≡ ok (pool_ok p) w'
          → (env.cmap_get (get_id c) w'.facade.pools ≡ some p)
            × (w'.facade.closed ≡ w.facade.closed)
      go (pool_err e) w₁ same h₁ = absurd (ground arith)
      go (pool_ok q) w₁ same h₁ =
          >>=-elim (set_conn_max_idle_time q w₁.facade.idle_timeout) _ w₁ h₁ λ _ w₂ e₂ h₂.
            registered c q w w₁ w₂ same
              (set_conn_max_idle_time-Keeps q w₁.facade.idle_timeout w₁ _ w₂ e₂) h₂

  get_or_create_conn_pool-holds :
      (c : Credentials) (w : World env) {p : ℕ} {w' : World env}
      → get_or_create_conn_pool c w ≡ ok (pool_ok p) w'
      → (env.cmap_get (get_id c) w'.facade.pools ≡ some p) × (w'.facade.closed ≡ false)
  unfolding get_or_create_conn_pool
  get_or_create_conn_pool-holds c w {p} {w'} h = elim (Bool-cases w.facade.closed) [
    | inl shut ↦ absurd (ground arith)
    | inr still_open ↦ elim (Bool-cases (env.cmap_has (get_id c) w.facade.pools)) [
      | inl has ↦ ground arith
      | inr fresh ↦
          let made : create_conn_pool c w ≡ ok (pool_ok p) w' = ground arith in
          let (held, same) = create_conn_pool-registers c w made in (held, same ∙ still_open)
    ]
  ]

  -- After `getOrCreateConnPool` has given a pool for some credentials, the next call for them
  -- gives the same pool and changes nothing.
  pub get_or_create_conn_pool-again :
      (c : Credentials) (w : World env) {p : ℕ} {w' : World env}
      → get_or_create_conn_pool c w ≡ ok (pool_ok p) w'
      → get_or_create_conn_pool c w' ≡ ok (pool_ok p) w'
  get_or_create_conn_pool-again c w {p} {w'} h =
      let (held, still_open) = get_or_create_conn_pool-holds c w h in
      get_or_create_conn_pool-shared w' c c p still_open held refl
