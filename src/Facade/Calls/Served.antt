-- ===== src/Facade/Calls/Served.antt =====
-- A call of the facade that a reusable idle connection serves: `Exec` of conn_pool_facade.go, with
-- `exec` and `execDC` of conn_pool_exec.go.
use memsql_conn_pool.Base.{ℕ, suc, ◌≡◌, refl, ap, ◌∙◌, ==_refl, true, false, Option, none, some, []}
use memsql_conn_pool.Arguments.{args_ok, driver_args_conn_locked, checked_count, args_loop}
use memsql_conn_pool.Facade.Calls.{exec_facade, on_pool}
use memsql_conn_pool.Facade.Pools.{Credentials, get_id}
use memsql_conn_pool.Facade.Pools.Identity.{get_or_create_conn_pool-shared}
use memsql_conn_pool.Pool.Acquire.{ConnResult, got, cached_or_new_conn, conn_cached}
use memsql_conn_pool.Pool.Acquire.Reuse.{Reused}
use memsql_conn_pool.Pool.Put.{release_conn}
use memsql_conn_pool.Pool.Retry.{Tried, exec, exec_context}
use memsql_conn_pool.Pool.Retry.Attempts.{retrying-first}
use memsql_conn_pool.Pool.RoundTrip.{IsReady, IsRestored, ready-Reused, reused-IsRestored}
use memsql_conn_pool.Pool.Waiting.{conn}
use memsql_conn_pool.Runtime.{
  Env, CmapLaws, RangeLaws, Err, is_bad_conn, World, Bytes, Answer, gives, Returns, Returns->>=,
  ask, ok, Returns-mono, put_conn, M, ◌>>=◌,
}
use memsql_conn_pool.Statements.Calls.{CallDriver, call_args, ctx_driver_call}
use memsql_conn_pool.Statements.Direct.{
  DirectDriver, exec_dc, direct_call, call_directly, or_prepared,
}
use memsql_conn_pool.Statements.{PrepareDriver}
use memsql_conn_pool.Transaction.{TxDriver}

-- The driver's connection answers the query, at each call, with a result; there is no statement,
-- so that the number of inputs is not known.
pub record Answers {V : Type 0} (d : DirectDriver V) (ctx ci : ℕ) (sql : Bytes) (answer : ℕ → ℕ)
    : Type 0 where
  pub call : Bytes → CallDriver V
  pub has_direct : d.direct ci ≡ some call
  pub has_context : (call sql).has_context ci ≡ true
  pub result : (t : ℕ) → (call sql).with_context t ctx ci [] ≡ gives (answer t)
  pub no_statement : (d.conn_args ci).num_input ≡ none

no_args :
    {V : Type 0} (d : DirectDriver V) (ci : ℕ)
    → (d.conn_args ci).num_input ≡ none
    → driver_args_conn_locked (d.conn_args ci) 4 [] ≡ args_ok []
unfolding driver_args_conn_locked checked_count args_loop
no_args d ci h = rw h refl

module _ {env : Env} where
  -- The world after a call of the driver under the lock of the connection.
  abbrev pub asked : World env → ℕ → World env
  asked w dc =
      let w' = put_conn w dc (let x = w.conns dc in record x { mu = true }) in
      let w'' = record w' { tick = suc w'.tick } in
      put_conn w'' dc (let x = w.conns dc in record x { mu = false })

  pub asked-Reused :
      (w w₁ : World env) (p dc : ℕ) (r : Option ConnResult)
      → Reused w p dc r w₁
      → Reused w p dc r (asked w₁ dc)
  asked-Reused w w₁ p dc r
        (
          is_got,
          idle,
          used,
          mu,
          conn_mu,
          facade,
          (closed, requests, lifetime, pool, same_ci, put),
        ) =
      (
        is_got,
        idle,
        rw (==_refl dc) used,
        mu,
        rw (==_refl dc) refl,
        facade,
        (
          closed,
          requests,
          lifetime,
          rw (==_refl dc) pool,
          rw (==_refl dc) same_ci,
          rw (==_refl dc) put,
        ),
      )

module _ {env : Env} {V : Type 0} (pd : PrepareDriver) (d : DirectDriver V) {ctx ci : ℕ}
    {sql : Bytes} {answer : ℕ → ℕ} (a : Answers d ctx ci sql answer) where
  -- What the call of the driver leaves.
  abbrev pub Called : World env → ℕ → ℕ → Option ConnResult → Answer → World env → Type 0
  Called w p dc r x w' = ((t : ℕ) × (x ≡ gives (answer t))) × Reused w p dc r w'

  call-gives :
      (w : World env)
      → call_args (a.call sql) ctx ci (driver_args_conn_locked (d.conn_args ci) 4 []) w
        ≡ ok (gives (answer w.tick)) (record w { tick = suc w.tick })
  unfolding call_args ctx_driver_call
  call-gives w =
      rw (no_args d ci a.no_statement) (rw (a.has_context, ask) (rw (a.result w.tick) refl))

  pub direct_call-Returns :
      (w w₁ : World env) (p dc : ℕ) (r : Option ConnResult)
      → Reused w p dc r w₁
      → Returns (direct_call pd d ctx dc sql [] (some ci) w₁) (Called w p dc r)
  unfolding direct_call call_directly
  direct_call-Returns w w₁ p dc r h =
      let (_, _, _, _, conn_mu, _, _) = h in
      rw (a.has_direct, conn_mu, ◌>>=◌, Returns)
        (rw (call-gives _, ◌>>=◌, Returns)
          (rw (==_refl dc, Returns) ((w₁.tick, refl), asked-Reused w w₁ p dc r h)))

  exec_dc-Returns :
      (release : Option Err → M env (Unit {0})) (P : World env → Type 0) (w w₁ : World env)
      (p dc : ℕ) (r : Option ConnResult)
      → (w.conns dc).ci ≡ some ci
      → Reused w p dc r w₁
      → ((v : World env) → Reused w p dc r v → Returns (release none v) (λ _ w'. P w'))
      → Returns
          (exec_dc pd d ctx dc sql [] release w₁)
          (λ x w'. ((t : ℕ) × (x ≡ record { value = some (answer t); err = none })) × P w')
  unfolding exec_dc or_prepared
  exec_dc-Returns release P w w₁ p dc r has_ci h released =
      let (_, _, _, _, _, _, (_, _, _, _, same_ci, _)) = h in
      rw (same_ci ∙ has_ci) (
        Returns->>= (Called w p dc r) _ (direct_call pd d ctx dc sql [] (some ci)) _ w₁
          (direct_call-Returns w w₁ p dc r h)
          λ x w₂ ((t, e), h₂).
            rw (e, ◌>>=◌, Returns)
              (Returns->>= (λ _ w'. P w') _ (release none) _ w₂ (released w₂ h₂)
                λ _ w₃ done. ((t, refl), done)))

module _ {env : Env} where
  -- The result of the driver at some call, and the connection back among the idle ones.
  abbrev pub Served : World env → ℕ → ℕ → (ℕ → ℕ) → Tried ℕ → World env → Type 0
  Served w p dc answer x w' =
      ((t : ℕ) × (x ≡ record { value = some (answer t); err = none })) × IsRestored w p dc w'

module _ {env : Env} (others : World env → World env) (fuel : ℕ) {w : World env} {p dc ci ctx : ℕ}
    (range : RangeLaws env) (h : IsReady w p dc ci ctx) where
  pub conn-Reused :
      Returns (conn others fuel ctx cached_or_new_conn p w) (λ r w₁. Reused w p dc (some r) w₁)
  unfolding conn
  conn-Reused =
      Returns->>= (Reused w p dc) _ (conn_cached fuel ctx cached_or_new_conn p) _ w
        (ready-Reused range h fuel)
        λ early w₁ (e, idle, used, mu, conn_mu, facade, same_else).
          rw e (refl, idle, used, mu, conn_mu, facade, same_else)

  module _ {V : Type 0} (pd : PrepareDriver) (d : DirectDriver V) {sql : Bytes} {answer : ℕ → ℕ}
      (a : Answers d ctx ci sql answer) where
    exec-Served :
        Returns
          (exec others fuel ctx p
            (λ c. exec_dc pd d ctx c sql [] (release_conn fuel c))
            cached_or_new_conn
            w)
          (λ x w'. (is_bad_conn x.err ≡ false) × Served w p dc answer x w')
    unfolding exec
    exec-Served =
        Returns->>= (λ r w₁. Reused w p dc (some r) w₁) _
          (conn others fuel ctx cached_or_new_conn p) _ w conn-Reused
          λ r w₁ (e, idle, used, mu, conn_mu, facade, same_else).
            let same : r ≡ got dc = cc in
            rw same (
              Returns-mono (exec_dc pd d ctx dc sql [] (release_conn fuel dc) w₁)
                (exec_dc-Returns pd d a (release_conn fuel dc) (IsRestored w p dc) w w₁ p dc
                  (some (got dc)) h.has_ci (refl, idle, used, mu, conn_mu, facade, same_else)
                  (reused-IsRestored range h fuel (some (got dc))))
                λ x w₂ _ ((t, e'), back). (ap (λ y. is_bad_conn y.err) e', ((t, e'), back)))

    -- `Exec` on an open facade, by credentials that have a pool whose idle connection is ready,
    -- and a driver that answers queries directly, with a context: it returns with a result that
    -- the driver gives, and no error, and the connection is idle again, like all that were; if
    -- Go's iteration over a map gives each key once and the concurrent map tells if it holds a
    -- key.
    pub exec_facade-Served :
        (td : TxDriver) (background : ℕ) (cmap : CmapLaws env) (c : Credentials)
        → w.facade.closed ≡ false
        → env.cmap_get (get_id c) w.facade.pools ≡ some p
        → Returns (exec_facade pd d td others fuel ctx background c sql w) (Served w p dc answer)
    unfolding exec_facade on_pool exec_context
    exec_facade-Served td background cmap c still_open held =
        rw (get_or_create_conn_pool-shared cmap w c c p still_open held refl, ◌>>=◌)
          (Returns->>= (Served w p dc answer) (Served w p dc answer)
            (exec_context others fuel ctx p
              (λ c'. exec_dc pd d ctx c' sql [] (release_conn fuel c')))
            _ w
            (retrying-first
              (exec others fuel ctx p (λ c'. exec_dc pd d ctx c' sql [] (release_conn fuel c'))) w
              (Served w p dc answer) exec-Served)
            λ x w₁ ((t, e), back). rw e ((t, refl), back))
