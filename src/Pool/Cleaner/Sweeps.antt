-- ===== src/Pool/Cleaner/Sweeps.antt =====
-- What a run of the cleaner closes and what it keeps: `connectionCleanerRunLocked` of
-- conn_cleaner.go.
use memsql_conn_pool.Base.{
  ℕ, suc, ◌+◌, ◌≡◌, refl, ◌&&◌, inl, inr, if◌then◌else◌, Bool, List, [], ◌∷◌, length, count, delete,
  arith, Bool-cases, count-delete_self, count-delete_ne, ltb, count-append, length-append,
}
use memsql_conn_pool.Base.Int.{pos, ltb_ℤ, ◌-ℤ◌}
use memsql_conn_pool.Pool.Cleaner.{sweep, sweep_lifetime, sweep_idle, connection_cleaner_run_locked}
use memsql_conn_pool.Runtime.{Env, RangeLaws, World, Returns, Returns->>=}

pub count-sweep_closing :
    (old : ℕ → Bool) (k : ℕ) (order free : List ℕ)
    → count k (sweep old order free).0 ≡ (if old k then count k order else 0)
unfolding sweep
count-sweep_closing old k [] free = ground arith
count-sweep_closing old k (c ∷ cs) free =
    ground (arith, count-sweep_closing old k cs (if old c then delete c free else free))

pub count-sweep_left :
    (old : ℕ → Bool) (k : ℕ) (order free : List ℕ)
    → count k (sweep old order free).1
      ≡ (if old k && ltb 0 (count k order) then 0 else count k free)
unfolding sweep
count-sweep_left old k [] free = ground arith
count-sweep_left old k (c ∷ cs) free = elim (Bool-cases (old c)) [
  | inl aged ↦ rw aged (
      ground (
        arith,
        count-sweep_left old k cs (delete c free),
        count-delete_self k free,
        count-delete_ne k c free,
      ))
  | inr young ↦ rw young (ground (arith, count-sweep_left old k cs free))
]

-- In a sweep over each free connection once, what is closed and what is left make up what was
-- free, and what is closed is what is old.
abbrev pub Swept : (ℕ → Bool) → List ℕ → List ℕ → List ℕ → Type 0
Swept old free closing left =
    (k : ℕ)
    → (count k closing ≡ (if old k then count k free else 0))
      × (count k left ≡ (if old k then 0 else count k free))

sweep-Swept :
    (old : ℕ → Bool) (order free : List ℕ)
    → ((k : ℕ) → count k order ≡ count k free)
    → Swept old free (sweep old order free).0 (sweep old order free).1
sweep-Swept old order free each k =
    ground (arith, each k, count-sweep_closing old k order free, count-sweep_left old k order free)

Swept-parts :
    (old : ℕ → Bool) (free closing left : List ℕ)
    → Swept old free closing left
    → (k : ℕ) → count k closing + count k left ≡ count k free
Swept-parts old free closing left h k = ground (arith, h k)

module _ {env : Env} where
  abbrev pub too_old : World env → ℕ → ℕ → Bool
  too_old w p c =
      let s = w.pools p in
      ltb_ℤ (pos 0) s.max_lifetime
      && ltb_ℤ (w.conns c).created_at (env.now w.tick -ℤ s.max_lifetime)

  abbrev pub idle_too_long : World env → ℕ → ℕ → Bool
  idle_too_long w p c =
      let s = w.pools p in
      ltb_ℤ (pos 0) s.max_idle_time
      && ltb_ℤ (w.conns c).returned_at (env.now w.tick -ℤ s.max_idle_time)

module _ {env : Env} (laws : RangeLaws env) where
  -- The first sweep takes out exactly the idle connections created longer than `maxLifetime`
  -- ago, each once, if there is such a limit; it counts them and touches no other counter of the
  -- pool's closings by age.
  pub sweep_lifetime-Returns :
      (w : World env) (p : ℕ)
      → Returns (sweep_lifetime p w) λ closing w'.
        Swept (too_old w p) (w.pools p).free_conn closing (w'.pools p).free_conn
        × ((w'.pools p).max_lifetime_closed ≡ (w.pools p).max_lifetime_closed + length closing)
        × ((w'.pools p).max_idle_time_closed ≡ (w.pools p).max_idle_time_closed)
  unfolding sweep_lifetime
  sweep_lifetime-Returns w p =
      let s = w.pools p in
      let old = λ (c : ℕ). ltb_ℤ (w.conns c).created_at (env.now w.tick -ℤ s.max_lifetime) in
      let order = env.range (suc w.tick) s.free_conn in
      elim (Bool-cases (ltb_ℤ (pos 0) s.max_lifetime)) [
        | inl limited ↦ rw limited (
          λ k. ground (
            arith,
            sweep-Swept old order s.free_conn (λ j. laws.each_once (suc w.tick) j s.free_conn) k,
          ),
          ground arith,
          ground arith,
        )
        | inr unlimited ↦ rw unlimited (λ k. (refl, refl), omega arith, refl)
      ]

  -- The second sweep takes out exactly the idle connections returned longer than `maxIdleTime`
  -- ago, each once, if there is such a limit; it counts them and touches no other counter of the
  -- pool's closings by age.
  pub sweep_idle-Returns :
      (w : World env) (p : ℕ)
      → Returns (sweep_idle p w) λ closing w'.
        Swept (idle_too_long w p) (w.pools p).free_conn closing (w'.pools p).free_conn
        × ((w'.pools p).max_idle_time_closed ≡ (w.pools p).max_idle_time_closed + length closing)
        × ((w'.pools p).max_lifetime_closed ≡ (w.pools p).max_lifetime_closed)
  unfolding sweep_idle
  sweep_idle-Returns w p =
      let s = w.pools p in
      let old = λ (c : ℕ). ltb_ℤ (w.conns c).returned_at (env.now w.tick -ℤ s.max_idle_time) in
      let order = env.range (suc w.tick) s.free_conn in
      elim (Bool-cases (ltb_ℤ (pos 0) s.max_idle_time)) [
        | inl limited ↦ rw limited (
          λ k. ground (
            arith,
            sweep-Swept old order s.free_conn (λ j. laws.each_once (suc w.tick) j s.free_conn) k,
          ),
          ground arith,
          ground arith,
        )
        | inr unlimited ↦ rw unlimited (λ k. (refl, refl), omega arith, refl)
      ]

  -- A run of the cleaner returns; each idle connection is closed or stays idle, none twice, and
  -- the two counters grow by the number of those that are closed.
  pub connection_cleaner_run_locked-Returns :
      (w : World env) (p : ℕ)
      → Returns (connection_cleaner_run_locked p w) λ closing w'.
        ((k : ℕ) → count k closing + count k (w'.pools p).free_conn ≡ count k (w.pools p).free_conn)
        × ((w'.pools p).max_lifetime_closed + (w'.pools p).max_idle_time_closed
            ≡ (w.pools p).max_lifetime_closed + (w.pools p).max_idle_time_closed + length closing)
  unfolding connection_cleaner_run_locked
  connection_cleaner_run_locked-Returns w p =
      Returns->>= _ _ (sweep_lifetime p) _ w (sweep_lifetime-Returns w p)
        λ first w₁ (swept₁, grown₁, same₁).
          Returns->>= _ _ (sweep_idle p) _ w₁ (sweep_idle-Returns w₁ p)
            λ second w₂ (swept₂, grown₂, same₂). (
              λ k. omega (
                arith,
                count-append k first second,
                Swept-parts _ _ _ _ swept₁ k,
                Swept-parts _ _ _ _ swept₂ k,
              ),
              omega (arith, length-append first second, grown₁, grown₂, same₁, same₂),
            )
