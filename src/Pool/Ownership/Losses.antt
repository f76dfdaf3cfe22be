-- ===== src/Pool/Ownership/Losses.antt =====
-- The idle connections that a pool gives up: conn_cleaner.go, and `removeConnFromFree` and `Close`
-- of conn_pool.go.
use memsql_conn_pool.Base.{
  ℕ, suc, ◌≡◌, refl, sym, ap, ◌∙◌, subst, Bool, true, inl, inr, List, [], arith, delete, Bool-cases,
  count-delete,
}
use memsql_conn_pool.Base.Int.{pos, ltb_ℤ}
use memsql_conn_pool.Facade.Lru.{remove_conn_from_free}
use memsql_conn_pool.Pool.Cleaner.{sweep_lifetime, sweep_idle, connection_cleaner_run_locked}
use memsql_conn_pool.Pool.Cleaner.Sweeps.{connection_cleaner_run_locked-Returns}
use memsql_conn_pool.Pool.Ownership.{Holdings, holdings, Fewer}
use memsql_conn_pool.Pool.Ownership.Frames.{lock_pool-KeepsHoldings, unlock_pool-KeepsHoldings}
use memsql_conn_pool.Pool.Ownership.Sections.{put_pool_at}
use memsql_conn_pool.Runtime.{
  Env, RangeLaws, World, ConnPool, ok, Returns, >>=-elim, ok-injective, put_pool, lock_pool,
  unlock_pool, set_pool,
}

abbrev with_idle : List ℕ → Holdings → Holdings
with_idle idle h = record h { idle = idle }

module _ {env : Env} (p : ℕ) where
  -- Only the list of idle connections changes.
  abbrev OnlyIdle : World env → World env → Type 0
  OnlyIdle w w' = holdings p w' ≡ with_idle (w'.pools p).free_conn (holdings p w)

  put_pool-OnlyIdle :
      (w : World env) (s : ConnPool)
      → s.conn_requests ≡ (w.pools p).conn_requests
      → s.responses ≡ (w.pools p).responses
      → OnlyIdle w (put_pool w p s)
  put_pool-OnlyIdle w s a b = ground arith

  sweep_lifetime-OnlyIdle :
      (w : World env) {closing : List ℕ} {w' : World env}
      → sweep_lifetime p w ≡ ok closing w'
      → OnlyIdle w w'
  unfolding sweep_lifetime
  sweep_lifetime-OnlyIdle w h = elim (Bool-cases (ltb_ℤ (pos 0) (w.pools p).max_lifetime)) [
    | inl limited ↦
        rw (← (ok-injective (rw limited at h)).1)
          (put_pool-OnlyIdle (record w { tick = suc (suc w.tick) }) _ refl refl)
    | inr unlimited ↦ rw (← (ok-injective (rw unlimited at h)).1) refl
  ]

  sweep_idle-OnlyIdle :
      (w : World env) {closing : List ℕ} {w' : World env}
      → sweep_idle p w ≡ ok closing w'
      → OnlyIdle w w'
  unfolding sweep_idle
  sweep_idle-OnlyIdle w h = elim (Bool-cases (ltb_ℤ (pos 0) (w.pools p).max_idle_time)) [
    | inl limited ↦
        rw (← (ok-injective (rw limited at h)).1)
          (put_pool-OnlyIdle (record w { tick = suc (suc w.tick) }) _ refl refl)
    | inr unlimited ↦ rw (← (ok-injective (rw unlimited at h)).1) refl
  ]

  cleaner_run-OnlyIdle :
      (w : World env) {closing : List ℕ} {w' : World env}
      → connection_cleaner_run_locked p w ≡ ok closing w'
      → OnlyIdle w w'
  unfolding connection_cleaner_run_locked
  cleaner_run-OnlyIdle w {closing} {w'} h = >>=-elim (sweep_lifetime p) _ w h λ _ w₁ e₁ h₁.
      >>=-elim (sweep_idle p) _ w₁ h₁ λ _ w₂ e₂ h₂.
        let both : OnlyIdle w w₂ =
          sweep_idle-OnlyIdle w₁ e₂
          ∙ ap (with_idle (w₂.pools p).free_conn) (sweep_lifetime-OnlyIdle w e₁) in
        subst (OnlyIdle w) (ok-injective h₂).1 both

  pub cleaner_run-Fewer :
      (laws : RangeLaws env) (w : World env) {closing : List ℕ} {w' : World env}
      → connection_cleaner_run_locked p w ≡ ok closing w'
      → Fewer (holdings p w) (holdings p w')
  cleaner_run-Fewer laws w {closing} {w'} h = record {
    rest = cleaner_run-OnlyIdle w h;
    fewer = λ c.
        omega (arith, ((rw (h, Returns) at (connection_cleaner_run_locked-Returns laws w p)).0 c));
  }

  pub remove_conn_from_free-Fewer :
      (c : ℕ) (w : World env) {b : Bool} {w' : World env}
      → remove_conn_from_free p c w ≡ ok b w'
      → Fewer (holdings p w) (holdings p w')
  unfolding remove_conn_from_free
  remove_conn_from_free-Fewer c w {b} {w'} h = >>=-elim (lock_pool p) _ w h λ _ w₁ e₁ h₁.
      let s : ConnPool = record (w₁.pools p) { free_conn = delete c (w₁.pools p).free_conn } in
      let w₂ : World env = put_pool w₁ p s in
      >>=-elim (unlock_pool p) _ w₂ h₁ λ _ w₃ e₃ h₃.
        let whole : holdings p w' ≡ with_idle (delete c (w.pools p).free_conn) (holdings p w) =
          ap (holdings p) (sym (ok-injective h₃).1)
          ∙ unlock_pool-KeepsHoldings p p w₂ _ w₃ e₃
          ∙ put_pool_at p w₁ s
          ∙ ap (λ x. with_idle (delete c x.idle) x) (lock_pool-KeepsHoldings p p w _ w₁ e₁) in
        record {
          rest = whole ∙ ap (λ l. with_idle l (holdings p w)) (sym (ap (λ x. x.idle) whole));
          fewer =
              λ k. ground (arith, ap (λ x. x.idle) whole, count-delete k c (w.pools p).free_conn);
        }

  pub empty-Fewer :
      (w : World env) {w' : World env}
      → set_pool p (λ s. record s { free_conn = []; closed = true }) w ≡ ok tt w'
      → Fewer (holdings p w) (holdings p w')
  empty-Fewer w {w'} h =
      let whole : holdings p w' ≡ with_idle [] (holdings p w) =
        ap (holdings p) (sym (ok-injective h).1) ∙ put_pool_at p w _ in
      record {
        rest = whole ∙ ap (λ l. with_idle l (holdings p w)) (sym (ap (λ x. x.idle) whole));
        fewer = λ k. ground (arith, ap (λ x. x.idle) whole);
      }
