-- ===== src/Closing/Bound.antt =====
-- The limit of connections under `maybeOpenNewConnections`: conn_pool_facade_opener.go.
use memsql_conn_pool.Base.{
  ℕ, zero, suc, ◌≡◌, sym, ◌∙◌, subst, if◌then◌else◌, Bool, true, false, [], length, arith,
}
use memsql_conn_pool.Base.Int.{ℤ, pos, ◌+ℤ◌, ◌-ℤ◌, ltb_ℤ, rounds, int_laws, ◌≤ℤ◌}
use memsql_conn_pool.Closing.Eviction.{close_lru_with-halts, Halted}
use memsql_conn_pool.Closing.{
  close, maybe_close_idle_conn_locked_with, close_lru_idle_connections_locked_with,
  maybe_open_new_connections_with, maybe_open_new_connections,
}
use memsql_conn_pool.Facade.Counters.{give_command_to_open_new_connections}
use memsql_conn_pool.Facade.Requests.{min_ℤ, get_conn_pools_that_have_requested_new_connections}
use memsql_conn_pool.Runtime.{
  Env, LruLaws, World, ok, >>=-elim, ok-injective, lock_facade, unlock_facade, when,
}
use memsql_conn_pool.Closing.Chosen.{give-Returns, get_pools-Returns}

-- The counter is within the limit.
abbrev pub IsBounded : {env : Env} → World env → Type 0
IsBounded w = w.facade.num_opened ≤ℤ w.facade.total_max

within : (n m : ℤ) (c : ℕ) → n ≤ℤ m → pos 0 ≤ℤ min_ℤ (pos c) (m -ℤ n)
within n m c h = grind int_laws

grown :
    (n m n' : ℤ) (c k : ℕ)
    → n ≤ℤ m
    → k ≡ rounds (min_ℤ (pos c) (m -ℤ n))
    → n' ≤ℤ n +ℤ pos k
    → n' ≤ℤ m
grown n m n' c k h e g = grind int_laws

abbrev SameCounts : {env : Env} → World env → World env → Type 0
SameCounts w v =
    (v.facade.num_opened ≡ w.facade.num_opened) × (v.facade.total_max ≡ w.facade.total_max)

module _ {env : Env} where
  IsBounded-across : (w v : World env) → IsBounded w → SameCounts w v → IsBounded v
  IsBounded-across w v b s = rw (s.0, s.1) b

-- The number of evictions that are tried where `n` are wanted.
abbrev evictions : {env : Env} → ℤ → World env → ℕ
evictions {env} n w = rounds (
    if ltb_ℤ (pos (env.lru_len w.facade.lru_cache)) n
    then pos (env.lru_len w.facade.lru_cache)
    else n)

module _ {env : Env} (laws : LruLaws env) where
  none_to_evict : (n : ℤ) (w : World env) → env.lru_keys w.facade.lru_cache ≡ [] → evictions n w ≡ 0
  none_to_evict n w empty = rw (laws.len_keys w.facade.lru_cache, empty) (ground arith)

  evict-keeps :
      (fuel k : ℕ) (w : World env) {w' : World env}
      → (env.lru_keys w.facade.lru_cache ≡ [] → k ≡ 0)
      → close_lru_idle_connections_locked_with (close (suc fuel)) k w ≡ ok tt w'
      → w' ≡ w
  unfolding close_lru_idle_connections_locked_with
  evict-keeps fuel zero w few h = sym (ok-injective h).1
  evict-keeps fuel (suc k) w few h = absurd (
      rw (h, Halted) at
        (close_lru_with-halts laws fuel k w (λ empty. absurd (omega (arith, few empty)))))

  -- Eviction that returns has closed nothing: the cache was empty.
  maybe_close-keeps :
      (fuel : ℕ) (n : ℤ) (w : World env) {w' : World env}
      → maybe_close_idle_conn_locked_with (close (suc fuel)) n w ≡ ok tt w'
      → w' ≡ w
  unfolding maybe_close_idle_conn_locked_with
  maybe_close-keeps fuel n w h = evict-keeps fuel (evictions n w) w (none_to_evict n w) h

  when-keeps :
      (fuel : ℕ) (c : Bool) (n : ℤ) (w : World env) {w' : World env}
      → when c (maybe_close_idle_conn_locked_with (close (suc fuel)) n) w ≡ ok tt w'
      → w' ≡ w
  when-keeps fuel false n w h = sym (ok-injective h).1
  when-keeps fuel true n w h = maybe_close-keeps fuel n w h

  relocks :
      (w w₁ : World env) {w₂ : World env} → lock_facade w ≡ ok tt w₁ → w₂ ≡ w₁ → SameCounts w w₂
  relocks w w₁ {w₂} h e = subst (SameCounts w) (sym e) (ground arith)

  unlocks : (w w₁ : World env) → unlock_facade w ≡ ok tt w₁ → SameCounts w w₁
  unlocks w w₁ h = ground arith

  maybe_open_with-IsBounded :
      (fuel : ℕ) (w : World env) {w' : World env}
      → IsBounded w
      → maybe_open_new_connections_with (close (suc fuel)) w ≡ ok tt w'
      → IsBounded w' × (w'.facade.total_max ≡ w.facade.total_max)
  unfolding maybe_open_new_connections_with
  maybe_open_with-IsBounded fuel w {w'} bounded h = >>=-elim lock_facade _ w h λ _ w₁ e₁ h₁.
      >>=-elim
        (when (ltb_ℤ (w₁.facade.total_max -ℤ w₁.facade.num_opened) (pos w₁.facade.wait_count)) _) _
        w₁ h₁
        λ _ w₂ e₂ h₂.
          let settled : w₂ ≡ w₁ =
            when-keeps fuel
              (ltb_ℤ (w₁.facade.total_max -ℤ w₁.facade.num_opened) (pos w₁.facade.wait_count)) _ w₁
              e₂ in
          >>=-elim
            (get_conn_pools_that_have_requested_new_connections
              (min_ℤ (pos w₁.facade.wait_count) (w₂.facade.total_max -ℤ w₂.facade.num_opened)))
            _ w₂ h₂
            λ out w₃ e₃ h₃.
              >>=-elim (give_command_to_open_new_connections out) _ w₃ h₃ λ _ w₄ e₄ h₄.
                let relocked = relocks w w₁ e₁ settled in
                let b₂ : IsBounded w₂ = IsBounded-across w w₂ bounded relocked in
                let chosen =
                  get_pools-Returns
                    (min_ℤ (pos w₁.facade.wait_count) (w₂.facade.total_max -ℤ w₂.facade.num_opened))
                    w₂ (within w₂.facade.num_opened w₂.facade.total_max w₁.facade.wait_count b₂)
                    e₃ in
                let given =
                  subst
                    (λ f.
                      (w₄.facade.num_opened ≤ℤ f.num_opened +ℤ pos (length out))
                      × (w₄.facade.total_max ≡ f.total_max))
                    chosen.1 (give-Returns out w₃ e₄) in
                let b₄ : IsBounded w₄ = rw given.1 (
                  grown w₂.facade.num_opened w₂.facade.total_max w₄.facade.num_opened
                    w₁.facade.wait_count (length out) b₂ chosen.0 given.0) in
                let unlocked = unlocks w₄ w' h₄ in
                (IsBounded-across w₄ w' b₄ unlocked, unlocked.1 ∙ given.1 ∙ relocked.1)

  -- `maybeOpenNewConnections` keeps the number of opened connections within the limit, and the
  -- limit as it is, whenever it returns.
  pub maybe_open_new_connections-IsBounded :
      (fuel : ℕ) (w : World env) {w' : World env}
      → IsBounded w
      → maybe_open_new_connections (suc fuel) w ≡ ok tt w'
      → IsBounded w' × (w'.facade.total_max ≡ w.facade.total_max)
  unfolding maybe_open_new_connections
  maybe_open_new_connections-IsBounded fuel w bounded h = maybe_open_with-IsBounded fuel w bounded h
