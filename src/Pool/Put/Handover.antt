-- ===== src/Pool/Put/Handover.antt =====
-- Where a connection that comes back goes: `putConnectionConnPoolLocked` of conn_pool_put.go.
use memsql_conn_pool.Base.{
  ℕ, ◌<◌, ◌≡◌, refl, ap, ◌≢◌, Bool, true, false, none, some, List, [], ◌∷◌, length, count, contains,
  delete, arith, ltb,
}
use memsql_conn_pool.Facade.Lru.{put_conn_to_lru}
use memsql_conn_pool.Pool.Cleaner.{start_cleaner_locked}
use memsql_conn_pool.Pool.Put.{
  put_connection_conn_pool_locked, return_connection_on_request_locked, save_idle,
  try_to_save_connection_as_idle_locked, mark_in_use,
}
use memsql_conn_pool.Runtime.{ok, Err, Env, RangeLaws, World, Returns, ◌>>=◌}

pub count_head : (k : ℕ) (xs : List ℕ) → 0 < count k (k ∷ xs)
count_head k xs = ground arith

count_nil : (xs : List ℕ) → ((k : ℕ) → count k xs ≡ 0) → xs ≡ []
count_nil [] h = refl
count_nil (x ∷ xs) h = absurd (omega (arith, count_head x xs, h x))

positive : (xs : List ℕ) → xs ≢ [] → 0 < length xs
positive [] h = absurd (h refl)
positive (x ∷ xs) h = omega arith

module _ {env : Env} where
  -- The connection `dc` has gone to a request of the pool `p`.
  abbrev pub Served : World env → ℕ → ℕ → Bool → World env → Type 0
  Served w p dc added w' =
      (key : ℕ) × (0 < count key (w.pools p).conn_requests)
      × (added ≡ true)
      × ((w'.pools p).conn_requests ≡ delete key (w.pools p).conn_requests)
      × ((w'.pools p).responses key ≡ some (record { conn = some dc; err = none }))
      × ((w'.conns dc).in_use ≡ true)
      × ((w'.pools p).free_conn ≡ (w.pools p).free_conn)
      × (w'.facade ≡ w.facade)

  -- The connection `dc` is idle in the pool `p`.
  abbrev pub Saved : World env → ℕ → ℕ → Bool → World env → Type 0
  Saved w p dc added w' =
      (added ≡ true)
      × ((w'.pools p).free_conn ≡ dc ∷ (w.pools p).free_conn)
      × (w'.facade.lru_cache ≡ (env.lru_add dc w.facade.lru_cache).0)
      × (w'.conns ≡ w.conns)
      × ((w'.pools p).mu ≡ (w.pools p).mu)

  served :
      (w : World env) (p dc key : ℕ) (order : List ℕ)
      → (w.pools p).closed ≡ false
      → 0 < length (w.pools p).conn_requests
      → env.range w.tick (w.pools p).conn_requests ≡ key ∷ order
      → 0 < count key (w.pools p).conn_requests
      → Returns (put_connection_conn_pool_locked p (some dc) none w) (Served w p dc)
  unfolding put_connection_conn_pool_locked return_connection_on_request_locked mark_in_use
  served w p dc key order still_open waiting first waits =
      let some_wait : ltb 0 (length (w.pools p).conn_requests) ≡ true = ground arith in
      rw (still_open, some_wait)
        (rw (some_wait, Returns, ◌>>=◌)
          (rw (first, Returns)
            (key, waits, refl, ground arith, ground arith, ground arith, ground arith, refl)))

  -- A connection put into an open pool where requests wait goes to one of them: that request
  -- waits no longer and has the connection, which is in use; the idle connections and the facade
  -- stay as they were.
  pub put_connection-serves :
      (laws : RangeLaws env) (w : World env) (p dc : ℕ)
      → (w.pools p).closed ≡ false
      → (w.pools p).conn_requests ≢ []
      → Returns (put_connection_conn_pool_locked p (some dc) none w) (Served w p dc)
  put_connection-serves laws w p dc still_open waiting =
      go (env.range w.tick (w.pools p).conn_requests) refl
    where
      go :
          (order : List ℕ)
          → env.range w.tick (w.pools p).conn_requests ≡ order
          → Returns (put_connection_conn_pool_locked p (some dc) none w) (Served w p dc)
      go [] e = absurd (
          waiting (
            count_nil (w.pools p).conn_requests λ k.
              omega (arith, laws.each_once w.tick k (w.pools p).conn_requests, ap (count k) e)))
      go (key ∷ order) e =
          served w p dc key order still_open (positive (w.pools p).conn_requests waiting) e (
            omega (
              arith,
              laws.each_once w.tick key (w.pools p).conn_requests,
              ap (count key) e,
              count_head key order,
            ))

  -- A connection put into an open pool where no request waits, that is not idle there yet, and
  -- that the cache takes without evicting another, is idle afterwards and in the cache; the
  -- connections' own state and the pool's mutex are as before.
  pub put_connection-saves :
      (w : World env) (p dc : ℕ)
      → (w.pools p).closed ≡ false
      → (w.pools p).conn_requests ≡ []
      → contains dc (w.pools p).free_conn ≡ false
      → (env.lru_add dc w.facade.lru_cache).1 ≡ false
      → Returns (put_connection_conn_pool_locked p (some dc) none w) (Saved w p dc)
  unfolding put_connection_conn_pool_locked save_idle try_to_save_connection_as_idle_locked
      put_conn_to_lru start_cleaner_locked
  put_connection-saves w p dc still_open none_waits absent room = ground arith

  -- An error that no request waits for goes nowhere.
  pub put_nothing :
      (w : World env) (p : ℕ) (e : Err)
      → (w.pools p).conn_requests ≡ []
      → (w.pools p).closed ≡ false
      → put_connection_conn_pool_locked p none (some e) w ≡ ok false w
  unfolding put_connection_conn_pool_locked save_idle
  put_nothing w p e none_waits still_open = rw (still_open, none_waits) refl
