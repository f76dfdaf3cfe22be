-- ===== src/Pool/Ownership/Frames.antt =====
-- What leaves the holdings of a pool as they are: the mutexes, the closing of statements
-- (driver_stmt.go), the counters of the facade, the start of the cleaner, the dependencies.
use memsql_conn_pool.Base.{
  ℕ, ◌≡◌, refl, sym, ap, ◌∙◌, if◌then◌else◌, true, false, some, List, [], ◌∷◌, update, arith,
}
use memsql_conn_pool.Conn.{close_stmt}
use memsql_conn_pool.Deps.{add_dep_locked}
use memsql_conn_pool.Facade.Counters.{decrement_num_opened}
use memsql_conn_pool.Facade.Lru.{put_conn_to_lru}
use memsql_conn_pool.Pool.Cleaner.{start_cleaner_locked}
use memsql_conn_pool.Pool.Ownership.{holdings}
use memsql_conn_pool.Runtime.{
  Env, World, Node, ConnPool, DriverConn, ConnPoolFacade, M, ask, when, for_each, set_facade,
  set_pool, set_conn, lock_pool, unlock_pool, lock_conn, unlock_conn, lock_facade, unlock_facade,
  Keeps, >>=-Keeps, when-Keeps, ok-injective, >>=-elim, put_pool, put_conn,
}

abbrev pub KeepsHoldings : (env : Env) {A : Type 0} → ℕ → M env A → Type 0
KeepsHoldings env p m = Keeps {env = env} (holdings p) m

module _ {env : Env} (p : ℕ) where
  put_pool-holdings :
      (w : World env) (q : ℕ) (s : ConnPool)
      → s.free_conn ≡ (w.pools q).free_conn
      → s.conn_requests ≡ (w.pools q).conn_requests
      → s.responses ≡ (w.pools q).responses
      → holdings p (put_pool w q s) ≡ holdings p w
  put_pool-holdings w q s a b c = ground arith

  put_conn-holdings :
      (w : World env) (q : ℕ) (x : DriverConn)
      → x.in_use ≡ (w.conns q).in_use
      → holdings p (put_conn w q x) ≡ holdings p w
  put_conn-holdings w q x a = λ i. record {
    idle = (w.pools p).free_conn;
    requests = (w.pools p).conn_requests;
    sent = (w.pools p).responses;
    used = λ c. same c i;
    next = w.next_conn;
  }
    where
      same : (c : ℕ) → (update w.conns q x c).in_use ≡ (w.conns c).in_use
      same c = ground arith

  pub set_pool-KeepsHoldings :
      (q : ℕ) (f : ConnPool → ConnPool)
      → ((s : ConnPool) → (f s).free_conn ≡ s.free_conn)
      → ((s : ConnPool) → (f s).conn_requests ≡ s.conn_requests)
      → ((s : ConnPool) → (f s).responses ≡ s.responses)
      → KeepsHoldings env p (set_pool q f)
  set_pool-KeepsHoldings q f a b c w _ w' h =
      let s = w.pools q in rw (← (ok-injective h).1) (put_pool-holdings w q (f s) (a s) (b s) (c s))

  pub set_conn-KeepsHoldings :
      (q : ℕ) (f : DriverConn → DriverConn)
      → ((x : DriverConn) → (f x).in_use ≡ x.in_use)
      → KeepsHoldings env p (set_conn q f)
  set_conn-KeepsHoldings q f a w _ w' h =
      rw (← (ok-injective h).1) (put_conn-holdings w q (f (w.conns q)) (a (w.conns q)))

  pub lock_pool-KeepsHoldings : (q : ℕ) → KeepsHoldings env p (lock_pool q)
  lock_pool-KeepsHoldings q w a w' h =
      ground (arith, put_pool-holdings w q (record (w.pools q) { mu = true }) refl refl refl)

  pub unlock_pool-KeepsHoldings : (q : ℕ) → KeepsHoldings env p (unlock_pool q)
  unlock_pool-KeepsHoldings q w a w' h =
      ground (arith, put_pool-holdings w q (record (w.pools q) { mu = false }) refl refl refl)

  pub lock_conn-KeepsHoldings : (q : ℕ) → KeepsHoldings env p (lock_conn q)
  lock_conn-KeepsHoldings q w a w' h =
      ground (arith, put_conn-holdings w q (record (w.conns q) { mu = true }) refl)

  pub unlock_conn-KeepsHoldings : (q : ℕ) → KeepsHoldings env p (unlock_conn q)
  unlock_conn-KeepsHoldings q w a w' h =
      ground (arith, put_conn-holdings w q (record (w.conns q) { mu = false }) refl)

  pub lock_facade-KeepsHoldings : KeepsHoldings env p lock_facade
  lock_facade-KeepsHoldings w a w' h = ground arith

  pub unlock_facade-KeepsHoldings : KeepsHoldings env p unlock_facade
  unlock_facade-KeepsHoldings w a w' h = ground arith

  pub decrement-KeepsHoldings : KeepsHoldings env p decrement_num_opened
  unfolding decrement_num_opened
  decrement-KeepsHoldings w a w' h = ground arith

  -- What touches no pool and no connection.
  pub ask-KeepsHoldings : {A : Type 0} (f : ℕ → A) → KeepsHoldings env p (ask f)
  ask-KeepsHoldings f w a w' h = ap (holdings p) (sym (ok-injective h).1)

  pub set_facade-KeepsHoldings :
      (f : ConnPoolFacade env → ConnPoolFacade env) → KeepsHoldings env p (set_facade f)
  set_facade-KeepsHoldings f w a w' h = ap (holdings p) (sym (ok-injective h).1)

  pub put_conn_to_lru-KeepsHoldings : (c : ℕ) → KeepsHoldings env p (put_conn_to_lru c)
  unfolding put_conn_to_lru
  put_conn_to_lru-KeepsHoldings c w a w' h = ground arith

  pub add_dep_locked-KeepsHoldings :
      (q : ℕ) (x y : Node) → KeepsHoldings env p (add_dep_locked q x y)
  unfolding add_dep_locked
  add_dep_locked-KeepsHoldings q x y w a w' h =
      rw (← (ok-injective h).1) (put_pool-holdings w q _ refl refl refl)

  pub start_cleaner_locked-KeepsHoldings : (q : ℕ) → KeepsHoldings env p (start_cleaner_locked q)
  unfolding start_cleaner_locked
  start_cleaner_locked-KeepsHoldings q w a w' h =
      ground (
        arith,
        put_pool-holdings w q (record (w.pools q) { cleaner_ch = some false }) refl refl refl,
      )

  pub close_stmt-KeepsHoldings : (ds : ℕ) → KeepsHoldings env p (close_stmt ds)
  unfolding close_stmt
  close_stmt-KeepsHoldings ds w a w' h =
      >>=-elim (lock_conn (w.stmts ds).locker) _ w h λ _ w₁ e₁ h₁.
        >>=-elim (when (if (w₁.stmts ds).closed then false else true) _) _ w₁ h₁ λ _ w₂ e₂ h₂.
          >>=-elim (unlock_conn (w.stmts ds).locker) _ w₂ h₂ λ _ w₃ e₃ h₃.
            ap (holdings p) (sym (ok-injective h₃).1)
            ∙ unlock_conn-KeepsHoldings (w.stmts ds).locker w₂ _ w₃ e₃
            ∙ when-Keeps (holdings p) (if (w₁.stmts ds).closed then false else true) _
                (λ v b v' k. ap (holdings p) (sym (ok-injective k).1)) w₁ _ w₂ e₂
            ∙ lock_conn-KeepsHoldings (w.stmts ds).locker w _ w₁ e₁

  pub for_each-KeepsHoldings :
      {A : Type 0} (f : A → M env (Unit {0})) (xs : List A)
      → ((x : A) → KeepsHoldings env p (f x))
      → KeepsHoldings env p (for_each f xs)
  unfolding for_each
  for_each-KeepsHoldings f [] k w a w' h = ap (holdings p) (sym (ok-injective h).1)
  for_each-KeepsHoldings f (x ∷ xs) k w a w' h =
      >>=-Keeps (holdings p) (f x) (λ _. for_each f xs) (k x) (λ _. for_each-KeepsHoldings f xs k) w
        a w' h
