-- ===== src/Facade/Statistics.antt =====
-- `StatsOfAllPools` of conn_pool_facade_stats.go, and how it agrees with `Stats`.
use memsql_conn_pool.Base.{
  ℕ, suc, ◌+◌, ◌≡◌, refl, sym, ap, ◌∙◌, false, List, [], ◌∷◌, length, arith, ==_refl,
}
use memsql_conn_pool.Facade.Counters.{stats, add_idle, count_idle}
use memsql_conn_pool.Pool.Shutdown.{ConnPoolStats, conn_pool_stats}
use memsql_conn_pool.Runtime.{
  Env, Bytes, World, M, ok, ◌>>=◌, pure, gets, ask, Returns, Returns->>=, Returns-mono,
}
use mathlib.Core.List.{Permᴰ}

module _ {env : Env} where
  stats_of : List (Bytes × ℕ) → M env (List ConnPoolStats)
  stats_of [] w = ok [] w
  stats_of ((_, p) ∷ ps) w = (conn_pool_stats p >>= λ s. stats_of ps >>= λ rest. pure (s ∷ rest)) w

  unfoldable pub stats_of_all_pools : M env (List ConnPoolStats)
  unfolding stats_of
  stats_of_all_pools = do
    m ← gets (λ w. w.facade.pools)
    ps ← ask (λ t. env.cmap_iter t m)
    stats_of ps

-- concurrent-map iterates over each entry once, in any order, and counts them.
pub record IterLaws (env : Env) : Type 0 where
  pub each_entry : (t t' : ℕ) (m : env.Cmap) → Permᴰ (env.cmap_iter t m) (env.cmap_iter t' m)
  pub count_iter : (t : ℕ) (m : env.Cmap) → env.cmap_count m ≡ length (env.cmap_iter t m)

abbrev pub idle_sum : List ConnPoolStats → ℕ
idle_sum [] = 0
idle_sum (s ∷ ss) = s.idle + idle_sum ss

length-perm : {ps qs : List (Bytes × ℕ)} → Permᴰ ps qs → length ps ≡ length qs
length-perm Permᴰ.nil = refl
length-perm (Permᴰ.cons e h) = ap suc (length-perm h)
length-perm (Permᴰ.swap e e') = refl
length-perm (Permᴰ.trans h h') = length-perm h ∙ length-perm h'

module _ {env : Env} where
  -- The idle connections of the pools in the list.
  abbrev free_sum : World env → List (Bytes × ℕ) → ℕ
  free_sum w [] = 0
  free_sum w ((_, p) ∷ ps) = length (w.pools p).free_conn + free_sum w ps

  free_sum-perm :
      (w : World env) {ps qs : List (Bytes × ℕ)} → Permᴰ ps qs → free_sum w ps ≡ free_sum w qs
  free_sum-perm w Permᴰ.nil = refl
  free_sum-perm w (Permᴰ.cons e h) =
      omega (arith, ap (λ (x : Bytes × ℕ). length (w.pools x.1).free_conn) e, free_sum-perm w h)
  free_sum-perm w (Permᴰ.swap e e') = omega (
    arith,
    ap (λ (x : Bytes × ℕ). length (w.pools x.1).free_conn) e,
    ap (λ (x : Bytes × ℕ). length (w.pools x.1).free_conn) e',
  )
  free_sum-perm w (Permᴰ.trans h h') = free_sum-perm w h ∙ free_sum-perm w h'

  -- The mutexes, the idle connections and the map of pools are as before.
  abbrev pub Unmoved : World env → World env → Type 0
  Unmoved w w' =
      ((q : ℕ) → (w'.pools q).free_conn ≡ (w.pools q).free_conn)
      × ((q : ℕ) → (w'.pools q).mu ≡ (w.pools q).mu)
      × (w'.facade.pools ≡ w.facade.pools)
      × (w'.facade.mu ≡ w.facade.mu)

  free_sum-Unmoved :
      (ps : List (Bytes × ℕ)) (w w' : World env) → Unmoved w w' → free_sum w' ps ≡ free_sum w ps
  free_sum-Unmoved [] w w' same = refl
  free_sum-Unmoved ((_, p) ∷ ps) w w' same =
      omega (arith, ap length (same.0 p), free_sum-Unmoved ps w w' same)

  conn_pool_stats-Returns :
      (p : ℕ) (w : World env)
      → (w.pools p).mu ≡ false
      → Returns (conn_pool_stats p w) λ s w'. (s.idle ≡ length (w.pools p).free_conn) × Unmoved w w'
  unfolding conn_pool_stats
  conn_pool_stats-Returns p w free =
      rw (free, ◌>>=◌, Returns)
        (rw (==_refl p, ◌>>=◌, Returns)
          (rw (==_refl p) refl, (λ q. ground arith, λ q. ground arith, refl, refl)))

  -- A world that differs in the mutexes and the tick alone counts alike.
  stats_of-Returns :
      (ps : List (Bytes × ℕ)) (w : World env)
      → ((p : ℕ) → (w.pools p).mu ≡ false)
      → Returns
          (stats_of ps w)
          λ ss w'. (idle_sum ss ≡ free_sum w ps) × (length ss ≡ length ps) × Unmoved w w'
  unfolding stats_of
  stats_of-Returns [] w free = (refl, refl, (λ q. refl, λ q. refl, refl, refl))
  stats_of-Returns ((_, p) ∷ ps) w free =
      Returns->>= _ _ (conn_pool_stats p) _ w (conn_pool_stats-Returns p w (free p))
        λ s w₁ (idle, same).
          Returns->>= _ _ (stats_of ps) _ w₁ (stats_of-Returns ps w₁ (λ q. same.1 q ∙ free q))
            λ ss w₂ (sum, len, same'). (
              omega (arith, idle, sum, free_sum-Unmoved ps w w₁ same),
              ap suc len,
              (
                λ q. same'.0 q ∙ same.0 q,
                λ q. same'.1 q ∙ same.1 q,
                same'.2 ∙ same.2,
                same'.3 ∙ same.3,
              ),
            )

  count_idle-Returns :
      (p : ℕ) (w : World env)
      → (w.pools p).mu ≡ false
      → Returns (count_idle p w) λ k w'. (k ≡ length (w.pools p).free_conn) × Unmoved w w'
  unfolding count_idle
  count_idle-Returns p w free =
      rw (free, ◌>>=◌, Returns)
        (rw (==_refl p, ◌>>=◌, Returns)
          (rw (==_refl p) refl, (λ q. ground arith, λ q. ground arith, refl, refl)))

  add_idle-Returns :
      (ps : List (Bytes × ℕ)) (n : ℕ) (w : World env)
      → ((p : ℕ) → (w.pools p).mu ≡ false)
      → Returns (add_idle ps n w) λ k w'. (k ≡ n + free_sum w ps) × Unmoved w w'
  unfolding add_idle
  add_idle-Returns [] n w free = (omega arith, (λ q. refl, λ q. refl, refl, refl))
  add_idle-Returns ((_, p) ∷ ps) n w free =
      Returns->>= _ _ (count_idle p) _ w (count_idle-Returns p w (free p)) λ k w₁ (idle, same).
        Returns-mono (add_idle ps (n + k) w₁)
          (add_idle-Returns ps (n + k) w₁ (λ q. same.1 q ∙ free q))
          λ k' w₂ _ (sum, same'). (
            omega (arith, idle, sum, free_sum-Unmoved ps w w₁ same),
            (
              λ q. same'.0 q ∙ same.0 q,
              λ q. same'.1 q ∙ same.1 q,
              same'.2 ∙ same.2,
              same'.3 ∙ same.3,
            ),
          )

  stats-Returns :
      (w : World env)
      → ((p : ℕ) → (w.pools p).mu ≡ false)
      → w.facade.mu ≡ false
      → Returns (stats w) λ s w'.
        (s.num_idle ≡ free_sum w (env.cmap_iter w.tick w.facade.pools))
        × (s.num_unique_dsns ≡ env.cmap_count w.facade.pools)
        × Unmoved w w'
  unfolding stats
  stats-Returns w free facade_free =
      let w₀ : World env = record w { tick = suc w.tick } in
      let ps = env.cmap_iter w.tick w.facade.pools in
      Returns->>= _ _ (add_idle ps 0) _ w₀ (add_idle-Returns ps 0 w₀ free) λ k w₁ (sum, same).
        let unlocked : w₁.facade.mu ≡ false = same.3 ∙ facade_free in
        rw (unlocked, ◌>>=◌, Returns)
          (
            omega (arith, sum, free_sum-Unmoved ps w w₀ (λ q. refl, λ q. refl, refl, refl)),
            ap env.cmap_count same.2,
            (same.0, same.1, same.2, sym facade_free),
          )

  -- While no mutex is held, `Stats` counts as many idle connections as the statistics of all
  -- pools that `StatsOfAllPools` gives after it have together, and as many pools as it lists; if
  -- the concurrent map gives each entry once, in whatever order, and counts them.
  pub stats-IsSum :
      (laws : IterLaws env) (w : World env)
      → ((p : ℕ) → (w.pools p).mu ≡ false)
      → w.facade.mu ≡ false
      → Returns (stats w) λ s w'.
        Returns
          (stats_of_all_pools w')
          λ ss _. (s.num_idle ≡ idle_sum ss) × (s.num_unique_dsns ≡ length ss)
  unfolding stats_of_all_pools
  stats-IsSum laws w free facade_free =
      Returns-mono (stats w) (stats-Returns w free facade_free) λ s w₁ _ (idle, dsns, same).
        let w₂ : World env = record w₁ { tick = suc w₁.tick } in
        let ps = env.cmap_iter w₁.tick w₁.facade.pools in
        let again = ap (env.cmap_iter w₁.tick) same.2 in
        let before = env.cmap_iter w.tick w.facade.pools in
        let each = laws.each_entry w₁.tick w.tick w.facade.pools in
        Returns-mono (stats_of ps w₂) (stats_of-Returns ps w₂ (λ p. same.1 p ∙ free p))
          λ ss w₃ _ (sum, len, _). (
            omega (
              arith,
              idle,
              sum,
              free_sum-Unmoved ps w w₂ same,
              ap (free_sum w) again,
              free_sum-perm w each,
            ),
            omega (
              arith,
              dsns,
              len,
              laws.count_iter w.tick w.facade.pools,
              ap (length {A = Bytes × ℕ}) again,
              length-perm each,
            ),
          )
