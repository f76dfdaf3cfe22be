-- ===== src/Statements/Bound.antt =====
-- The driver's statement on the connection that `connStmt` gives.
use memsql_conn_pool.Base.{
  ℕ, ◌≡◌, refl, sym, ◌∙◌, subst, ◌==◌, ==_refl, true, false, Option, none, some, List, [], ◌∷◌,
  ◌++◌, Bool-cases, inl, inr,
}
use memsql_conn_pool.Pool.Acquire.{ConnReuseStrategy, got}
use memsql_conn_pool.Pool.Waiting.{conn}
use memsql_conn_pool.Runtime.{
  Env, World, ok, ◌>>=◌, ◌>>◌, Returns, Returns->>=, put_conn, Answer, gives, unlock_conn,
}
use memsql_conn_pool.Statements.{
  Stmt, ConnStmt, Grabber, PrepareDriver, Found, found, stmt_on, conn_stmt,
  remove_closed_stmt_locked, prepare_on_conn_locked, prepare_locked, ctx_driver_prepare,
  with_prepared, on_idle, from_pool, new_stmt, added,
}

-- The call has the driver's statement on the connection, which the statement knows from then on.
abbrev pub IsBound : ℕ → Stmt × Found → Type 0
IsBound dc (s, f) = (ds : ℕ) × (f ≡ found dc (some ds)) × (stmt_on s.css dc ≡ some ds)

stmt_on-snoc :
    (css : List ConnStmt) (dc ds : ℕ)
    → stmt_on css dc ≡ none
    → stmt_on (css ++ record { dc = dc; ds = ds } ∷ []) dc ≡ some ds
stmt_on-snoc [] dc ds h = rw (==_refl dc) refl
stmt_on-snoc (v ∷ css) dc ds h = elim (Bool-cases (v.dc == dc)) [
  | inl e ↦ absurd (none_is_some (rw e at h))
  | inr e ↦ rw e (stmt_on-snoc css dc ds (rw e at h))
]
  where
    none_is_some : {x : ℕ} → some x ≡ none → ⊥
    none_is_some h = cc

module _ {env : Env} (d : PrepareDriver) (others : World env → World env) (fuel : ℕ)
    (g : Grabber env) (ctx dc ci si : ℕ) where
  prepare_on_conn_locked-IsBound :
      (s : Stmt) (w : World env)
      → stmt_on s.css dc ≡ none
      → s.cg ≡ false
      → (w.conns dc).ci ≡ some ci
      → d.is_prepare_context ci ≡ true
      → d.prepare_context w.tick ctx ci s.query ≡ gives si
      → Returns (prepare_on_conn_locked d s ctx dc w) (λ r w'.
        ((ds : ℕ) × (r.1 ≡ gives ds) × (stmt_on r.0.css dc ≡ some ds))
        × ((w'.conns dc).mu ≡ (w.conns dc).mu))
  unfolding prepare_on_conn_locked prepare_locked ctx_driver_prepare new_stmt added
  prepare_on_conn_locked-IsBound s w unknown pooled has_ci with_ctx answer =
      rw (has_ci, with_ctx, answer, ◌>>=◌, Returns)
        (rw (pooled, ◌>>=◌, Returns)
          (rw (==_refl dc) ((w.next_stmt, refl, stmt_on-snoc s.css dc w.next_stmt unknown), refl)))

  on_idle-IsBound :
      (s : Stmt) (w : World env) (known : Option ℕ)
      → stmt_on s.css dc ≡ known
      → s.cg ≡ false
      → (w.conns dc).mu ≡ false
      → (w.conns dc).ci ≡ some ci
      → d.is_prepare_context ci ≡ true
      → d.prepare_context w.tick ctx ci s.query ≡ gives si
      → Returns (on_idle d others fuel g ctx s dc known w) (λ r w'. IsBound dc r)
  unfolding on_idle with_prepared
  on_idle-IsBound s w (some ds) h pooled free has_ci with_ctx answer = (ds, refl, h)
  on_idle-IsBound s w none h pooled free has_ci with_ctx answer =
      rw (free, ◌>>=◌, Returns)
        (Returns->>= Prepared (λ r w'. IsBound dc r) (prepare_on_conn_locked d s ctx dc)
          (λ r. unlock_conn dc >> with_prepared d others fuel g dc r) locked
          (prepare_on_conn_locked-IsBound s locked h pooled (rw (==_refl dc) has_ci) with_ctx
            answer)
          goes_on)
    where
      locked : World env
      locked = put_conn w dc (record (w.conns dc) { mu = true })

      Prepared : Stmt × Answer → World env → Type 0
      Prepared r w' =
          ((ds : ℕ) × (r.1 ≡ gives ds) × (stmt_on r.0.css dc ≡ some ds))
          × ((w'.conns dc).mu ≡ (locked.conns dc).mu)

      goes_on :
          (r : Stmt × Answer) (w' : World env)
          → Prepared r w'
          → Returns
              ((unlock_conn dc >> with_prepared d others fuel g dc r) w')
              (λ r' w''. IsBound dc r')
      goes_on (s', a) w' ((ds, e, bound), held) =
          let mu : (w'.conns dc).mu ≡ true = held ∙ rw (==_refl dc) refl in
          rw (mu, e, ◌>>=◌, Returns) (ds, refl, bound)

  -- A statement of the pool that can be used.
  from_pool_only :
      (strategy : ConnReuseStrategy) (s : Stmt) (w : World env)
      → s.sticky_err ≡ none
      → s.closed ≡ false
      → s.cg ≡ false
      → conn_stmt d others fuel g ctx strategy s w
        ≡ (remove_closed_stmt_locked s >>= λ s'. conn others fuel ctx strategy s'.db >>= λ r.
              from_pool d others fuel g ctx s' r.conn r.err)
            w
  unfolding conn_stmt
  from_pool_only strategy s w fresh usable pooled =
      subst
        (λ x.
          conn_stmt d others fuel g ctx strategy x w
          ≡ (remove_closed_stmt_locked x >>= λ s'. conn others fuel ctx strategy s'.db >>= λ r.
                from_pool d others fuel g ctx s' r.conn r.err)
              w)
        (λ i. record s { sticky_err = sym fresh i; closed = sym usable i; cg = sym pooled i }) refl

  -- `connStmt` of a statement of the pool returns the connection that the pool gives with the
  -- driver's statement on it, known before or prepared now, and the statement knows it from then
  -- on; if the statement is usable, the removal of closed connections and the pool return, the
  -- connection's mutex is free, and the driver prepares with a context and without an error.
  pub conn_stmt-IsBound :
      (strategy : ConnReuseStrategy) (s s' : Stmt) (w w' w'' : World env)
      → s.sticky_err ≡ none
      → s.closed ≡ false
      → s.cg ≡ false
      → remove_closed_stmt_locked s w ≡ ok s' w'
      → conn others fuel ctx strategy s'.db w' ≡ ok (got dc) w''
      → s'.cg ≡ false
      → (w''.conns dc).mu ≡ false
      → (w''.conns dc).ci ≡ some ci
      → d.is_prepare_context ci ≡ true
      → d.prepare_context w''.tick ctx ci s'.query ≡ gives si
      → Returns (conn_stmt d others fuel g ctx strategy s w) (λ r _. IsBound dc r)
  unfolding from_pool
  conn_stmt-IsBound strategy s s' w w' w'' fresh usable pooled trims gets_conn pooled' free has_ci
        with_ctx answer =
      rw (from_pool_only strategy s w fresh usable pooled) (
        rw (trims, ◌>>=◌)
          (rw (gets_conn, ◌>>=◌)
            (on_idle-IsBound s' w'' (stmt_on s'.css dc) refl pooled' free has_ci with_ctx answer)))
