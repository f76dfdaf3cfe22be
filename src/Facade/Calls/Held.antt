-- ===== src/Facade/Calls/Held.antt =====
-- A query of the facade whose rows hold a connection until they are closed: `Query` of
-- conn_pool_facade.go, with `query` and `queryDC` of conn_pool_query.go, and `close` of rows.go.
use memsql_conn_pool.Base.{ℕ, ◌≡◌, refl, ap, ◌∙◌, ==_refl, false, Option, none, some, []}
use memsql_conn_pool.Facade.Calls.{query_facade, query_pool, on_pool}
use memsql_conn_pool.Facade.Calls.Served.{
  Answers, Called, asked, asked-Reused, direct_call-Returns, conn-Reused,
}
use memsql_conn_pool.Facade.Pools.{Credentials, get_id}
use memsql_conn_pool.Facade.Pools.Identity.{get_or_create_conn_pool-shared}
use memsql_conn_pool.Pool.Acquire.{ConnResult, got, cached_or_new_conn}
use memsql_conn_pool.Pool.Acquire.Reuse.{Reused}
use memsql_conn_pool.Pool.Put.{release_conn}
use memsql_conn_pool.Pool.Retry.{Tried, query, query_context}
use memsql_conn_pool.Pool.Retry.Attempts.{retrying-first}
use memsql_conn_pool.Pool.RoundTrip.{IsReady, IsRestored, reused-IsRestored}
use memsql_conn_pool.Pool.Waiting.{conn}
use memsql_conn_pool.Rows.{Rows, RowsDriver, close, close_with, close_held}
use memsql_conn_pool.Runtime.{
  Env, CmapLaws, RangeLaws, Err, is_bad_conn, World, Bytes, Returns, Returns->>=, Returns-mono, M,
  ◌>>=◌, ask,
}
use memsql_conn_pool.Statements.Direct.{
  DirectDriver, query_dc, query_after, rows_directly, direct_call, new_rows,
}
use memsql_conn_pool.Statements.{PrepareDriver}
use memsql_conn_pool.Transaction.{TxDriver}

module _ {env : Env} (rd : RowsDriver) where
  -- The rows, open and without a statement, hold `dc`, which is in use and not idle; once they are
  -- closed it is idle again, like all that were.
  abbrev pub HeldByRows : World env → ℕ → ℕ → ℕ → (ℕ → ℕ) → Tried Rows → World env → Type 0
  HeldByRows w p dc fuel answer x w' =
      ((t : ℕ) × (x ≡ record { value = some (new_rows dc (answer t) none); err = none })
        × Returns (close rd (release_conn fuel dc) (new_rows dc (answer t) none) w')
            (λ r w''. (r.0 ≡ none) × IsRestored w p dc w''))
      × Reused w p dc (some (got dc)) w'

  close-Returns :
      (release : Option Err → M env (Unit {0})) (P : World env → Type 0) (w w₁ : World env)
      (p dc rowsi : ℕ) (r : Option ConnResult)
      → ((t i : ℕ) → rd.close_rowsi t i ≡ none)
      → Reused w p dc r w₁
      → ((v : World env) → Reused w p dc r v → Returns (release none v) (λ _ w'. P w'))
      → Returns (close rd release (new_rows dc rowsi none) w₁) (λ x w'. (x.0 ≡ none) × P w')
  unfolding close close_with close_held
  close-Returns release P w w₁ p dc rowsi r closes h released =
      let (_, _, _, _, conn_mu, _, _) = h in
      rw (conn_mu, ◌>>=◌, Returns)
        (rw (==_refl dc, ◌>>=◌, ask, Returns)
          (rw (closes w₁.tick rowsi) (
            Returns->>= (λ _ w'. P w') _ (release none) _ (asked w₁ dc)
              (released (asked w₁ dc) (asked-Reused w w₁ p dc r h))
              λ _ w₂ done. (closes w₁.tick rowsi, done))))

  module _ {V : Type 0} (pd : PrepareDriver) (d : DirectDriver V) {ctx ci : ℕ} {sql : Bytes}
      {answer : ℕ → ℕ} (a : Answers d ctx ci sql answer) where
    -- The rows, and the connection in use.
    abbrev Opened : World env → ℕ → ℕ → Tried Rows → World env → Type 0
    Opened w p dc x w' =
        ((t : ℕ) × (x ≡ record { value = some (new_rows dc (answer t) none); err = none }))
        × Reused w p dc (some (got dc)) w'

    query_dc-Returns :
        (release : Option Err → M env (Unit {0})) (w w₁ : World env) (p dc : ℕ)
        → (w.conns dc).ci ≡ some ci
        → Reused w p dc (some (got dc)) w₁
        → Returns (query_dc pd d ctx dc sql [] release w₁) (Opened w p dc)
    unfolding query_dc query_after rows_directly
    query_dc-Returns release w w₁ p dc has_ci h =
        let (_, _, _, _, _, _, (_, _, _, _, same_ci, _)) = h in
        rw (same_ci ∙ has_ci) (
          Returns->>= (Called pd d a w p dc (some (got dc))) _
            (direct_call pd d ctx dc sql [] (some ci)) _ w₁
            (direct_call-Returns pd d a w w₁ p dc (some (got dc)) h)
            λ x w₂ ((t, e), h₂). rw (e, ◌>>=◌, Returns) ((t, refl), h₂))

    module _ (others : World env → World env) (fuel : ℕ) {w : World env} {p dc : ℕ}
        (range : RangeLaws env) (h : IsReady w p dc ci ctx) where
      query-Opened :
          Returns
            (query others fuel ctx p
              (λ c. query_dc pd d ctx c sql [] (release_conn fuel c))
              cached_or_new_conn
              w)
            (λ x w'. (is_bad_conn x.err ≡ false) × Opened w p dc x w')
      unfolding query
      query-Opened =
          Returns->>= (λ r w₁. Reused w p dc (some r) w₁) _
            (conn others fuel ctx cached_or_new_conn p) _ w (conn-Reused others fuel range h)
            λ r w₁ (e, idle, used, mu, conn_mu, facade, same_else).
              let same : r ≡ got dc = cc in
              rw same (
                Returns-mono (query_dc pd d ctx dc sql [] (release_conn fuel dc) w₁)
                  (query_dc-Returns (release_conn fuel dc) w w₁ p dc h.has_ci
                    (refl, idle, used, mu, conn_mu, facade, same_else))
                  λ x w₂ _ ((t, e'), held). (ap (λ y. is_bad_conn y.err) e', ((t, e'), held)))

      held_by :
          (x : Tried Rows) (w₁ : World env)
          → ((t i : ℕ) → rd.close_rowsi t i ≡ none)
          → Opened w p dc x w₁
          → HeldByRows w p dc fuel answer x w₁
      held_by x w₁ closes ((t, e), held) = (
        (
          t,
          e,
          close-Returns (release_conn fuel dc) (IsRestored w p dc) w w₁ p dc (answer t)
              (some (got dc)) closes held (reused-IsRestored range h fuel (some (got dc))),
        ),
        held,
      )

      -- `Query` on an open facade, by credentials that have a pool whose idle connection is
      -- ready, and a driver that answers queries directly, with a context: it returns with rows
      -- of the driver's result and no error. The connection is in use and not idle, until
      -- `Close` of the rows, where it follows at once, makes it idle again, like all that were;
      -- if the driver closes its rows without an error, Go's iteration over a map gives each key
      -- once and the concurrent map tells if it holds a key.
      pub query_facade-HeldByRows :
          (td : TxDriver) (background : ℕ) (cmap : CmapLaws env) (c : Credentials)
          → w.facade.closed ≡ false
          → env.cmap_get (get_id c) w.facade.pools ≡ some p
          → ((t i : ℕ) → rd.close_rowsi t i ≡ none)
          → Returns
              (query_facade pd d td others fuel ctx background c sql w)
              (HeldByRows w p dc fuel answer)
      unfolding query_facade query_pool on_pool query_context
      query_facade-HeldByRows td background cmap c still_open held closes =
          rw (get_or_create_conn_pool-shared cmap w c c p still_open held refl, ◌>>=◌)
            (Returns->>= (Opened w p dc) (HeldByRows w p dc fuel answer)
              (query_context others fuel ctx p
                (λ c'. query_dc pd d ctx c' sql [] (release_conn fuel c')))
              _ w
              (retrying-first
                (query others fuel ctx p (λ c'. query_dc pd d ctx c' sql [] (release_conn fuel c')))
                w (Opened w p dc) query-Opened)
              λ x w₁ ((t, e), back). rw e (held_by _ w₁ closes ((t, refl), back)))
