-- ===== src/Facade/Calls/Begun.antt =====
-- A transaction of the facade which holds a connection until it ends: `BeginTx` of
-- conn_pool_facade.go, with `begin` and `beginDC` of conn_pool_begin.go, and `Commit` and `Rollback`
-- of transaction.go.
use memsql_conn_pool.Base.{
  ℕ, suc, ◌≡◌, refl, sym, ap, ◌∙◌, ==_refl, false, true, ◌&&◌, Bool, Option, none, some,
}
use memsql_conn_pool.Facade.Calls.{begin_tx_facade, on_pool}
use memsql_conn_pool.Facade.Calls.Served.{asked, asked-Reused, conn-Reused}
use memsql_conn_pool.Facade.Pools.{Credentials, get_id}
use memsql_conn_pool.Facade.Pools.Identity.{get_or_create_conn_pool-shared}
use memsql_conn_pool.Pool.Acquire.{ConnResult, got, cached_or_new_conn}
use memsql_conn_pool.Pool.Acquire.Reuse.{Reused}
use memsql_conn_pool.Pool.Put.{release_conn}
use memsql_conn_pool.Pool.Retry.{Tried, begin, begin_tx}
use memsql_conn_pool.Pool.Retry.Attempts.{retrying-first}
use memsql_conn_pool.Pool.RoundTrip.{IsReady, IsRestored, reused-IsRestored}
use memsql_conn_pool.Pool.Waiting.{conn}
use memsql_conn_pool.Runtime.{
  Env, CmapLaws, RangeLaws, Err, is_bad_conn, World, Returns, Returns->>=, Returns-mono, M, gives,
  ok, for_each, ◌>>=◌, ask,
}
use memsql_conn_pool.Statements.Direct.{DirectDriver}
use memsql_conn_pool.Statements.{PrepareDriver}
use memsql_conn_pool.Transaction.{
  Tx, TxDriver, default, new_tx, begin_dc, ctx_driver_begin, commit, rollback, finish, close_with,
  close_conn, call_driver, started, expired,
}

-- The driver's connection begins a transaction at each call, by `BeginTx`, and its transactions end
-- without an error.
pub record Begins (td : TxDriver) (ci : ℕ) (txi : ℕ → ℕ) : Type 0 where
  pub has_begin_tx : td.is_begin_tx ci ≡ true
  pub begun : (t : ℕ) → td.begin_tx t ci default false ≡ gives (txi t)
  pub commits : (t i : ℕ) → td.commit_txi t i ≡ none
  pub rolls_back : (t i : ℕ) → td.rollback_txi t i ≡ none

module _ {env : Env} (td : TxDriver) (close_prepared : ℕ → M env (Unit {0}))
    (release : Option Err → M env (Unit {0})) (P : World env → Type 0) (w : World env)
    (p dc txi ctx : ℕ) (keep : Bool) (r : Option ConnResult)
    (released : (v : World env) → Reused w p dc r v → Returns (release none v) (λ _ w'. P w')) where
  finish-Returns :
      (call : ℕ → ℕ → Option Err) (w₁ : World env)
      → ((t i : ℕ) → call t i ≡ none)
      → Reused w p dc r w₁
      → Returns
          (finish td close_prepared release (λ tx. tx) call false (new_tx dc txi keep ctx) w₁)
          (λ x w'. (x.0 ≡ none) × P w')
  unfolding finish close_with close_conn call_driver for_each
  finish-Returns call w₁ ends h =
      let (_, _, _, _, conn_mu, _, _) = h in
      rw (conn_mu, ◌>>=◌, Returns)
        (rw (==_refl dc, ◌>>=◌, ask, Returns)
          (rw (ends w₁.tick txi) (
            rw (ends w₁.tick txi) (
              Returns->>= (λ _ w'. P w') _ (release none) _ (asked w₁ dc)
                (released (asked w₁ dc) (asked-Reused w w₁ p dc r h))
                λ _ w₂ done. (ends w₁.tick txi, done)))))

  commit-Returns :
      (w₁ : World env)
      → ((t : ℕ) → env.ctx_done t ctx ≡ none)
      → ((t i : ℕ) → td.commit_txi t i ≡ none)
      → Reused w p dc r w₁
      → Returns
          (commit td close_prepared release (λ tx. tx) (new_tx dc txi keep ctx) w₁)
          (λ x w'. (x.0 ≡ none) × P w')
  unfolding commit expired
  commit-Returns w₁ going ends h =
      rw (going w₁.tick, ◌>>=◌, Returns)
        (finish-Returns td.commit_txi (record w₁ { tick = suc w₁.tick }) ends h)

  rollback-Returns :
      (w₁ : World env)
      → ((t i : ℕ) → td.rollback_txi t i ≡ none)
      → Reused w p dc r w₁
      → Returns
          (rollback td close_prepared release (λ tx. tx) false (new_tx dc txi keep ctx) w₁)
          (λ x w'. (x.0 ≡ none) × P w')
  unfolding rollback
  rollback-Returns w₁ ends h = finish-Returns td.rollback_txi w₁ ends h

module _ {env : Env} (td : TxDriver) (close_prepared : ℕ → M env (Unit {0})) where
  -- The transaction holds `dc`, which is in use and not idle; a Commit or a Rollback of it makes
  -- `dc` idle again, like all that were.
  abbrev pub HeldByTx : World env → ℕ → ℕ → ℕ → ℕ → Bool → (ℕ → ℕ) → Tried Tx → World env → Type 0
  HeldByTx w p dc fuel ctx keep txi x w' =
      ((t : ℕ) × (x ≡ record { value = some (new_tx dc (txi t) keep ctx); err = none })
        × Returns
            (commit td close_prepared (release_conn fuel dc) (λ tx. tx) (new_tx dc (txi t) keep ctx)
              w')
            (λ r w''. (r.0 ≡ none) × IsRestored w p dc w'')
        × Returns
            (rollback td close_prepared (release_conn fuel dc) (λ tx. tx) false
              (new_tx dc (txi t) keep ctx) w')
            (λ r w''. (r.0 ≡ none) × IsRestored w p dc w''))
      × Reused w p dc (some (got dc)) w'

  -- The transaction, and the connection in use.
  abbrev Opened : World env → ℕ → ℕ → ℕ → Bool → (ℕ → ℕ) → Tried Tx → World env → Type 0
  Opened w p dc ctx keep txi x w' =
      ((t : ℕ) × (x ≡ record { value = some (new_tx dc (txi t) keep ctx); err = none }))
      × Reused w p dc (some (got dc)) w'

  module _ {ci : ℕ} (ctx : ℕ) {txi : ℕ → ℕ} (b : Begins td ci txi) where
    begin-gives :
        (w : World env)
        → ctx_driver_begin td ctx none ci w
          ≡ ok (gives (txi w.tick)) (record w { tick = suc w.tick })
    unfolding ctx_driver_begin
    begin-gives w = rw (b.has_begin_tx, ask) (rw (b.begun w.tick) refl)

    begin_dc-Returns :
        (release : Option Err → M env (Unit {0})) (w w₁ : World env) (p dc : ℕ)
        → (w.conns dc).ci ≡ some ci
        → Reused w p dc (some (got dc)) w₁
        → Returns
            (begin_dc td ctx none dc release w₁)
            (Opened w p dc ctx (env.is_resetter ci && env.is_validator ci) txi)
    unfolding begin_dc started
    begin_dc-Returns release w w₁ p dc has_ci h =
        let (_, idle, used, mu, conn_mu, facade, (closed, requests, lifetime, pool, same_ci, put)) =
          h in
        rw (conn_mu, ◌>>=◌, Returns)
          (rw (==_refl dc, ◌>>=◌, Returns)
            (rw (same_ci ∙ has_ci, Returns)
              (rw (begin-gives _, ◌>>=◌, Returns)
                (rw (==_refl dc, Returns)
                  (
                    (w₁.tick, refl),
                    (
                      refl,
                      idle,
                      rw (==_refl dc) used,
                      mu,
                      rw (==_refl dc) refl,
                      facade,
                      (
                        closed,
                        requests,
                        lifetime,
                        rw (==_refl dc) pool,
                        rw (==_refl dc) (sym has_ci),
                        rw (==_refl dc) put,
                      ),
                    ),
                  )))))

    module _ (others : World env → World env) (fuel : ℕ) {w : World env} {p dc : ℕ}
        (range : RangeLaws env) (h : IsReady w p dc ci ctx) where
      abbrev pub keeps : Bool
      keeps = env.is_resetter ci && env.is_validator ci

      begin-Opened :
          Returns
            (begin others fuel ctx p
              (λ c. begin_dc td ctx none c (release_conn fuel c))
              cached_or_new_conn
              w)
            (λ x w'. (is_bad_conn x.err ≡ false) × Opened w p dc ctx keeps txi x w')
      unfolding begin
      begin-Opened =
          Returns->>= (λ r w₁. Reused w p dc (some r) w₁) _
            (conn others fuel ctx cached_or_new_conn p) _ w (conn-Reused others fuel range h)
            λ r w₁ (e, idle, used, mu, conn_mu, facade, same_else).
              let same : r ≡ got dc = cc in
              rw same (
                Returns-mono (begin_dc td ctx none dc (release_conn fuel dc) w₁)
                  (begin_dc-Returns (release_conn fuel dc) w w₁ p dc h.has_ci
                    (refl, idle, used, mu, conn_mu, facade, same_else))
                  λ x w₂ _ ((t, e'), held). (ap (λ y. is_bad_conn y.err) e', ((t, e'), held)))

      held_by :
          (x : Tried Tx) (w₁ : World env)
          → ((t : ℕ) → env.ctx_done t ctx ≡ none)
          → Opened w p dc ctx keeps txi x w₁
          → HeldByTx w p dc fuel ctx keeps txi x w₁
      held_by x w₁ going ((t, e), held) = (
        (
          t,
          e,
          commit-Returns td close_prepared (release_conn fuel dc) (IsRestored w p dc) w p dc (txi t)
              ctx keeps (some (got dc)) (reused-IsRestored range h fuel (some (got dc))) w₁ going
              b.commits held,
          rollback-Returns td close_prepared (release_conn fuel dc) (IsRestored w p dc) w p dc
              (txi t) ctx keeps (some (got dc)) (reused-IsRestored range h fuel (some (got dc))) w₁
              b.rolls_back held,
        ),
        held,
      )

      -- `BeginTx` on an open facade, by credentials that have a pool whose idle connection is
      -- ready, and a driver that begins transactions by its own `BeginTx`, under a context that
      -- is never done: it returns with a transaction of the driver and no error. The connection
      -- is in use and not idle, until a `Commit` or a `Rollback`, where it follows at once,
      -- makes it idle again, like all that were; if the driver ends its transactions without an
      -- error, Go's iteration over a map gives each key once and the concurrent map tells if it
      -- holds a key.
      pub begin_tx_facade-HeldByTx :
          {V : Type 0} (pd : PrepareDriver) (d : DirectDriver V) (facade_ctx : ℕ)
          (cmap : CmapLaws env) (c : Credentials)
          → w.facade.closed ≡ false
          → env.cmap_get (get_id c) w.facade.pools ≡ some p
          → ((t : ℕ) → env.ctx_done t ctx ≡ none)
          → Returns
              (begin_tx_facade pd d td others fuel facade_ctx ctx c w)
              (HeldByTx w p dc fuel ctx (env.is_resetter ci && env.is_validator ci) txi)
      unfolding begin_tx_facade on_pool begin_tx
      begin_tx_facade-HeldByTx pd d facade_ctx cmap c still_open held going =
          rw (get_or_create_conn_pool-shared cmap w c c p still_open held refl, ◌>>=◌)
            (Returns->>= (Opened w p dc ctx keeps txi) (HeldByTx w p dc fuel ctx keeps txi)
              (begin_tx others fuel ctx p (λ c'. begin_dc td ctx none c' (release_conn fuel c'))) _
              w
              (retrying-first
                (begin others fuel ctx p (λ c'. begin_dc td ctx none c' (release_conn fuel c'))) w
                (Opened w p dc ctx keeps txi) begin-Opened)
              λ x w₁ ((t, e), back). rw e (held_by _ w₁ going ((t, refl), back)))
