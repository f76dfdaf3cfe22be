-- ===== src/Pool/Ownership/Sections.antt =====
-- What each critical section of conn_pool.go, conn_pool_put.go and conn_pool_conn_opener.go does
-- to the holdings of its pool.
use memsql_conn_pool.Base.{
  ℕ, suc, ◌+◌, ◌<◌, ◌≡◌, refl, sym, ap, subst, ◌∙◌, if◌then◌else◌, Bool, true, false, Option, none,
  some, List, [], ◌∷◌, update, arith, Bool-cases, inl, inr, count, contains, delete, length, ltb,
}
use memsql_conn_pool.Closing.{u64}
use memsql_conn_pool.Conn.{close_stmt}
use memsql_conn_pool.Pool.Acquire.{take_out, make_conn, new_driver_conn, ConnResult, got}
use memsql_conn_pool.Pool.Ownership.{
  Holdings, holdings, asks, cancels, receives, uses, takes, makes, saves, Placed, left, served,
  saved, Reported, told, unheard,
}
use memsql_conn_pool.Pool.Ownership.Frames.{
  KeepsHoldings, lock_pool-KeepsHoldings, unlock_pool-KeepsHoldings, add_dep_locked-KeepsHoldings,
  close_stmt-KeepsHoldings, for_each-KeepsHoldings, start_cleaner_locked-KeepsHoldings,
  put_conn_to_lru-KeepsHoldings, decrement-KeepsHoldings, set_conn-KeepsHoldings,
}
use memsql_conn_pool.Pool.Put.Handover.{count_head}
use memsql_conn_pool.Pool.Opener.{place_conn, close_ci}
use memsql_conn_pool.Facade.Counters.{decrement_num_opened}
use memsql_conn_pool.Pool.Put.{
  mark_returned, put_connection_conn_pool_locked, serve, mark_in_use, save_idle,
  return_connection_on_request_locked, try_to_save_connection_as_idle_locked,
}
use memsql_conn_pool.Pool.Waiting.{register, count_request, cancel_request, take_response}
use memsql_conn_pool.Facade.Lru.{put_conn_to_lru}
use memsql_conn_pool.Pool.Cleaner.{start_cleaner_locked}
use memsql_conn_pool.Deps.{add_dep_locked}
use memsql_conn_pool.Runtime.{
  Env, RangeLaws, Err, World, ConnPool, DriverConn, ConnCreationResponse, ok, pure, for_each,
  >>=-Keeps, pure-Keeps, ◌>>=◌, ◌>>◌, set_pool, put_pool, put_conn, lock_pool, unlock_pool,
  >>=-elim, ok-injective, conn_node,
}

module _ {env : Env} (p : ℕ) where
  pub put_pool_at :
      (w : World env) (s : ConnPool)
      → holdings p (put_pool w p s) ≡ record (holdings p w) {
        idle = s.free_conn;
        requests = s.conn_requests;
        sent = s.responses;
      }
  put_pool_at w s = ground arith

  put_conn_at :
      (w : World env) (c : ℕ) (x : DriverConn)
      → holdings p (put_conn w c x) ≡ uses c x.in_use (holdings p w)
  put_conn_at w c x = λ i. record {
    idle = (w.pools p).free_conn;
    requests = (w.pools p).conn_requests;
    sent = (w.pools p).responses;
    used = λ c'. same c' i;
    next = w.next_conn;
  }
    where
      same :
          (c' : ℕ) → (update w.conns c x c').in_use ≡ update (λ d. (w.conns d).in_use) c x.in_use c'
      same c' = ground arith

  count_request-KeepsHoldings : KeepsHoldings env p count_request
  unfolding count_request
  count_request-KeepsHoldings w a w' h = ground arith

  pub register-asks :
      (w : World env) {key : ℕ} {w' : World env}
      → register p w ≡ ok key w'
      → holdings p w' ≡ asks key (holdings p w)
  unfolding register
  register-asks w {key} {w'} h = >>=-elim (lock_pool p) _ w h λ _ w₁ e₁ h₁.
      let s = w₁.pools p in
      let w₂ : World env = put_pool w₁ p (record s {
        next_request = u64 (s.next_request + 1);
        conn_requests = s.next_request ∷ delete s.next_request s.conn_requests;
        responses = update s.responses s.next_request none;
      }) in
      >>=-elim (unlock_pool p) _ w₂ h₁ λ _ w₃ e₃ h₃. >>=-elim count_request _ w₃ h₃ λ _ w₄ e₄ h₄.
        let (same, last) = ok-injective h₄ in
        subst (λ k. holdings p w' ≡ asks k (holdings p w)) same
          (ap (holdings p) (sym last)
            ∙ count_request-KeepsHoldings w₃ _ w₄ e₄
            ∙ unlock_pool-KeepsHoldings p p w₂ _ w₃ e₃
            ∙ put_pool_at w₁ _
            ∙ ap (asks s.next_request) (lock_pool-KeepsHoldings p p w _ w₁ e₁))

  pub cancel_request-cancels :
      (w : World env) (key : ℕ) {w' : World env}
      → cancel_request p key w ≡ ok tt w'
      → holdings p w' ≡ cancels key (holdings p w)
  unfolding cancel_request
  cancel_request-cancels w key h = >>=-elim (lock_pool p) _ w h λ _ w₁ e₁ h₁.
      >>=-elim (set_pool p (λ s. record s { conn_requests = delete key s.conn_requests })) _ w₁ h₁
        λ _ w₂ e₂ h₂.
          unlock_pool-KeepsHoldings p p w₂ _ _ h₂
          ∙ ap (holdings p) (sym (ok-injective e₂).1)
          ∙ put_pool_at w₁ _
          ∙ ap (cancels key) (lock_pool-KeepsHoldings p p w _ w₁ e₁)

  pub take_response-receives :
      (w : World env) (key : ℕ) {r : Option ConnCreationResponse} {w' : World env}
      → take_response p key w ≡ ok r w'
      → ((w.pools p).responses key ≡ r) × (holdings p w' ≡ receives key (holdings p w))
  take_response-receives w key h =
      let (same, e) = ok-injective h in (same, ap (holdings p) (sym e) ∙ put_pool_at w _)

  pub take_out-takes :
      (w : World env) (c : ℕ) {w' : World env}
      → take_out p c w ≡ ok tt w'
      → holdings p w' ≡ takes c (holdings p w)
  unfolding take_out
  take_out-takes w c h =
      let s : ConnPool = record (w.pools p) { free_conn = delete c (w.pools p).free_conn } in
      let w₁ : World env = put_pool w p s in
      ap (holdings p) (sym (ok-injective h).1)
      ∙ put_conn_at w₁ c (record (w.conns c) { in_use = true })
      ∙ ap (uses c true) (put_pool_at w s)

  pub mark_returned-uses :
      (w : World env) (c : ℕ) {w' : World env}
      → mark_returned c w ≡ ok tt w'
      → holdings p w' ≡ uses c false (holdings p w)
  unfolding mark_returned
  mark_returned-uses w c {w'} h =
      let w₀ : World env = record w { tick = suc w.tick } in
      let x : DriverConn = record (w.conns c) { in_use = false; returned_at = env.now w.tick } in
      let w₁ : World env = put_conn w₀ c x in
      >>=-elim (for_each (λ ds. close_stmt ds >>= λ _. pure tt) (w₁.conns c).on_put) _ w₁ h
        λ _ w₂ e₂ h₂.
          set_conn-KeepsHoldings p c (λ x. record x { on_put = [] }) (λ x. refl) w₂ _ w' h₂
          ∙ for_each-KeepsHoldings p (λ ds. close_stmt ds >>= λ _. pure tt) (w₁.conns c).on_put
              (λ ds.
                >>=-Keeps (holdings p) (close_stmt ds) _ (close_stmt-KeepsHoldings p ds)
                  (λ e. pure-Keeps (holdings p) tt))
              w₁ _ w₂ e₂
          ∙ put_conn_at w₀ c x

  pub make_conn-makes :
      (w : World env) (ci : ℕ) {r : ConnResult} {w' : World env}
      → make_conn p ci w ≡ ok r w'
      → (r ≡ got w.next_conn) × (holdings p w' ≡ makes true (holdings p w))
  unfolding make_conn
  make_conn-makes w ci {r} {w'} h = >>=-elim (lock_pool p) _ w h λ _ w₁ e₁ h₁.
      let before = lock_pool-KeepsHoldings p p w _ w₁ e₁ in
      let c = w₁.next_conn in
      let w₀ : World env = record w₁ { tick = suc (suc w₁.tick); next_conn = suc c } in
      let x = new_driver_conn p ci (env.now w₁.tick) (env.now (suc w₁.tick)) true in
      let w₂ : World env = put_conn w₀ c x in
      >>=-elim (add_dep_locked p (conn_node c) (conn_node c)) _ w₂ h₁ λ _ w₃ e₃ h₃.
        >>=-elim (unlock_pool p) _ w₃ h₃ λ _ w₄ e₄ h₄.
          let (same, last) = ok-injective h₄ in
          (
            sym same ∙ ap (λ x. got x.next) before,
            ap (holdings p) (sym last)
                ∙ unlock_pool-KeepsHoldings p p w₃ _ w₄ e₄
                ∙ add_dep_locked-KeepsHoldings p p (conn_node c) (conn_node c) w₂ _ w₃ e₃
                ∙ put_conn_at w₀ c x
                ∙ ap (makes true) before,
          )

module _ {env : Env} (laws : RangeLaws env) (p : ℕ) where
  first_waits :
      (t key : ℕ) (order held : List ℕ) → env.range t held ≡ key ∷ order → 0 < count key held
  first_waits t key order held e =
      omega (arith, laws.each_once t key held, ap (count key) e, count_head key order)

  abbrev sends : ℕ → ConnCreationResponse → Holdings → Holdings
  sends key r h = record h { sent = update h.sent key (some r) }

  abbrev unasked : ℕ → World env → World env
  unasked key w =
      put_pool w p (record (w.pools p) { conn_requests = delete key (w.pools p).conn_requests })

  abbrev answered : ℕ → ConnCreationResponse → World env → World env
  answered key r w =
      put_pool w p (record (w.pools p) { responses = update (w.pools p).responses key (some r) })

  served_by :
      (c : ℕ) (order : List ℕ) (t : ℕ) (w : World env) {b : Bool} {w' : World env}
      → env.range t (w.pools p).conn_requests ≡ order
      → serve p (some c) none order w ≡ ok b w'
      → Placed c (holdings p w) (holdings p w')
  unfolding serve mark_in_use
  served_by c [] t w e h = absurd (ground arith)
  served_by c (key ∷ order) t w e h =
      let r : ConnCreationResponse = record { conn = some c; err = none } in
      let w₁ : World env = unasked key w in
      let x : DriverConn = record (w.conns c) { in_use = true } in
      served key (first_waits t key order (w.pools p).conn_requests e) (
        ap (holdings p) (sym (ok-injective h).1)
        ∙ put_pool_at p (put_conn w₁ c x) _
        ∙ ap (sends key r) (put_conn_at p w₁ c x ∙ ap (uses c true) (put_pool_at p w _)))

  told_by :
      (err : Err) (order : List ℕ) (t : ℕ) (w : World env) {b : Bool} {w' : World env}
      → env.range t (w.pools p).conn_requests ≡ order
      → serve p none (some err) order w ≡ ok b w'
      → Reported (holdings p w) (holdings p w')
  unfolding serve mark_in_use
  told_by err [] t w e h = absurd (ground arith)
  told_by err (key ∷ order) t w e h =
      let r : ConnCreationResponse = record { conn = none; err = some err } in
      told key err (first_waits t key order (w.pools p).conn_requests e) (
        ap (holdings p) (sym (ok-injective h).1)
        ∙ put_pool_at p (unasked key w) _
        ∙ ap (sends key r) (put_pool_at p w _))

  saved_by :
      (c : ℕ) (w : World env) {b : Bool} {w' : World env}
      → save_idle p (some c) none w ≡ ok b w'
      → Placed c (holdings p w) (holdings p w')
  unfolding save_idle try_to_save_connection_as_idle_locked
  saved_by c w {b} {w'} h = >>=-elim (put_conn_to_lru c) _ w h λ _ w₁ e₁ h₁.
      let before = put_conn_to_lru-KeepsHoldings p c w _ w₁ e₁ in
      elim (Bool-cases (contains c (w₁.pools p).free_conn)) [
        | inl there ↦ absurd (cc (rw there at h₁))
        | inr absent ↦
            let w₂ : World env =
              put_pool w₁ p (record (w₁.pools p) { free_conn = c ∷ (w₁.pools p).free_conn }) in
            >>=-elim (start_cleaner_locked p) _ w₂ (rw absent at h₁) λ _ w₃ e₃ h₃. saved (
              ap (holdings p) (sym (ok-injective h₃).1)
              ∙ start_cleaner_locked-KeepsHoldings p p w₂ _ w₃ e₃
              ∙ put_pool_at p w₁ _
              ∙ ap (saves c) before)
      ]

  pub put_connection-Placed :
      (c : ℕ) (w : World env) {b : Bool} {w' : World env}
      → put_connection_conn_pool_locked p (some c) none w ≡ ok b w'
      → Placed c (holdings p w) (holdings p w')
  unfolding put_connection_conn_pool_locked return_connection_on_request_locked
  put_connection-Placed c w {b} {w'} h = elim (Bool-cases (w.pools p).closed) [
    | inl shut ↦ left (ap (holdings p) (sym (ok-injective (rw shut at h)).1))
    | inr still_open ↦ elim (Bool-cases (ltb 0 (length (w.pools p).conn_requests))) [
      | inl waiting ↦
          served_by c _ w.tick (record w { tick = suc w.tick }) refl
            (rw (waiting, ◌>>=◌) at (rw (still_open, waiting) at h))
      | inr none_waits ↦ saved_by c w (rw (still_open, none_waits) at h)
    ]
  ]

  pub put_error-Reported :
      (err : Err) (w : World env) {b : Bool} {w' : World env}
      → put_connection_conn_pool_locked p none (some err) w ≡ ok b w'
      → Reported (holdings p w) (holdings p w')
  unfolding put_connection_conn_pool_locked return_connection_on_request_locked save_idle
  put_error-Reported err w {b} {w'} h = elim (Bool-cases (w.pools p).closed) [
    | inl shut ↦ unheard (ap (holdings p) (sym (ok-injective (rw shut at h)).1))
    | inr still_open ↦ elim (Bool-cases (ltb 0 (length (w.pools p).conn_requests))) [
      | inl waiting ↦
          told_by err _ w.tick (record w { tick = suc w.tick }) refl
            (rw (waiting, ◌>>=◌) at (rw (still_open, waiting) at h))
      | inr none_waits ↦
          unheard (ap (holdings p) (sym (ok-injective (rw (still_open, none_waits) at h)).1))
    ]
  ]

  pub place_conn-Placed :
      (ci : ℕ) (w : World env) {w' : World env}
      → place_conn p ci w ≡ ok tt w'
      → Placed w.next_conn (makes false (holdings p w)) (holdings p w')
  unfolding place_conn
  place_conn-Placed ci w {w'} h =
      let c = w.next_conn in
      let w₀ : World env = record w { tick = suc (suc w.tick); next_conn = suc c } in
      let x = new_driver_conn p ci (env.now w.tick) (env.now (suc w.tick)) false in
      let w₁ : World env = put_conn w₀ c x in
      >>=-elim (put_connection_conn_pool_locked p (some c) none) _ w₁ h λ b w₂ e₂ h₂.
        subst (λ v. Placed c v (holdings p w')) (put_conn_at p w₀ c x)
          (subst (Placed c (holdings p w₁)) (sym (after b w₂ h₂)) (put_connection-Placed c w₁ e₂))
    where
      after :
          (b : Bool) (w₂ : World env)
          → (if b
                then add_dep_locked p (conn_node w.next_conn) (conn_node w.next_conn)
                else (do decrement_num_opened; _ ← close_ci ci; pure tt))
              w₂
            ≡ ok tt w'
          → holdings p w' ≡ holdings p w₂
      after true w₂ e = add_dep_locked-KeepsHoldings p p _ _ w₂ _ w' e
      after false w₂ e = >>=-elim decrement_num_opened _ w₂ e λ _ w₃ e₃ h₃.
          ap (holdings p) (sym (ok-injective h₃).1) ∙ decrement-KeepsHoldings p w₂ _ w₃ e₃
