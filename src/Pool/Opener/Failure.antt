-- ===== src/Pool/Opener/Failure.antt =====
-- What `openNewConnection` of conn_pool_conn_opener.go does where the driver cannot connect.
use memsql_conn_pool.Base.{update, ap, ◌∙◌, ℕ, ◌≡◌, refl, ==_refl, true, false, [], arith}
use memsql_conn_pool.Base.Int.{ℤ, pos, ◌+ℤ◌, ◌-ℤ◌, ◌≤ℤ◌, int_laws}
use memsql_conn_pool.Closing.Opening.{nothing_waits}
use memsql_conn_pool.Facade.Counters.{decrement_num_opened}
use memsql_conn_pool.Pool.Opener.{open_new_connection, connect_failed}
use memsql_conn_pool.Pool.Put.Handover.{put_nothing}
use memsql_conn_pool.Runtime.{
  Env, Err, World, fails, ok, panics, unlocked_mutex, unlock_pool, put_pool, Returns, M, Outcome,
  blocks, no_fuel, ◌>>=◌,
}

less_one : (n m : ℤ) → n ≤ℤ m → (n -ℤ pos 1) +ℤ pos 0 ≤ℤ m
less_one n m h = omega int_laws

update_self {ℓ} : {A : Type ℓ} (f : ℕ → A) (p : ℕ) (x : A) → update f p x p ≡ x
update_self f p x = rw (==_refl p) refl

module _ {env : Env} where
  decremented : World env → World env
  decremented w =
      let f = w.facade in
      record w { facade = record f { num_opened = f.num_opened -ℤ pos 1; mu = false } }

  decrements :
      (w : World env) → w.facade.mu ≡ false → decrement_num_opened w ≡ ok tt (decremented w)
  unfolding decrement_num_opened decremented
  decrements w free = ground arith

  freed : World env → ℕ → World env
  freed w p = put_pool w p (let s = w.pools p in record s { mu = false })

  connect_failed-frees :
      (fuel : ℕ) (w : World env) (p : ℕ) (e : Err)
      → (w.pools p).mu ≡ true
      → (w.pools p).closed ≡ false
      → (w.pools p).conn_requests ≡ []
      → w.facade.mu ≡ false
      → w.facade.wait_count ≡ 0
      → w.facade.num_opened ≤ℤ w.facade.total_max
      → Returns (connect_failed fuel p e w) λ _ w'. (w'.pools p).mu ≡ false
  unfolding connect_failed decremented freed
  connect_failed-frees fuel w p e held still_open none_waits facade_free none_counted bounded =
      rw (decrements w facade_free, ◌>>=◌, Returns)
        (rw (put_nothing (decremented w) p e none_waits still_open, ◌>>=◌, Returns)
          (rw (held, ◌>>=◌, Returns)
            (rw
              (
                nothing_waits fuel (freed (decremented w) p) refl none_counted
                    (less_one w.facade.num_opened w.facade.total_max bounded),
                Returns,
              )
              (ap (λ s. s.mu) (update_self w.pools p _)))))

  unlocks_again :
      (p : ℕ) (m : M env (Unit {0})) (w : World env)
      → Returns (m w) (λ _ w'. (w'.pools p).mu ≡ false)
      → (m >>= λ _. unlock_pool p) w ≡ panics unlocked_mutex
  unlocks_again p m w h = go (m w) refl h
    where
      go :
          (o : Outcome env (Unit {0}))
          → m w ≡ o
          → Returns o (λ _ w'. (w'.pools p).mu ≡ false)
          → (m >>= λ _. unlock_pool p) w ≡ panics unlocked_mutex
      go (ok _ w') e free = rw (e, ◌>>=◌) (rw free refl)
      go (panics x) e free = absurd free
      go (blocks x) e free = absurd free
      go no_fuel e free = absurd free

  -- Where the driver cannot connect, on an open pool for which no request waits, with the
  -- mutexes free, no request counted and no more connections than the limit, `openNewConnection`
  -- unlocks the pool's mutex twice, which ends the program.
  pub open_new_connection-unlocks_twice :
      (fuel : ℕ) (w : World env) (p : ℕ) (e : Err)
      → env.connect w.tick (w.pools p).connector ≡ fails e
      → (w.pools p).mu ≡ false
      → (w.pools p).closed ≡ false
      → (w.pools p).conn_requests ≡ []
      → w.facade.mu ≡ false
      → w.facade.wait_count ≡ 0
      → w.facade.num_opened ≤ℤ w.facade.total_max
      → open_new_connection fuel p w ≡ panics unlocked_mutex
  unfolding open_new_connection connect_failed decremented
  open_new_connection-unlocks_twice fuel w p e refused unlocked still_open none_waits facade_free
        none_counted bounded =
      rw (unlocked, ◌>>=◌)
        (rw (==_refl p) (
          rw (still_open, ◌>>=◌)
            (rw (refused, ◌>>=◌)
              (unlocks_again p (connect_failed fuel p e) _ (
                connect_failed-frees fuel _ p e (ap (λ s. s.mu) (update_self w.pools p _))
                  (ap (λ s. s.closed) (update_self w.pools p _))
                  (ap (λ s. s.conn_requests) (update_self w.pools p _) ∙ none_waits) facade_free
                  none_counted bounded)))))
