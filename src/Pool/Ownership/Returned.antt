-- ===== src/Pool/Ownership/Returned.antt =====
-- A caller that puts its connection back, among the other goroutines: conn_pool_put.go.
use memsql_conn_pool.Base.{
  ℕ, ◌<◌, ◌≡◌, refl, ap, Bool, true, false, none, some, ◌⊎◌, inl, inr, List, [], ◌∷◌, arith, count,
  contains, delete,
}
use memsql_conn_pool.Pool.Ownership.{holdings, IsExclusive}
use memsql_conn_pool.Pool.Ownership.Sections.{mark_returned-uses}
use memsql_conn_pool.Pool.Ownership.Steps.{System, Reach, later, put, reach-IsExclusive}
use memsql_conn_pool.Pool.Put.Handover.{
  count_head, Saved, Served, put_connection-serves, put_connection-saves,
}
use memsql_conn_pool.Pool.Put.{mark_returned, put_connection_conn_pool_locked}
use memsql_conn_pool.Runtime.{Env, RangeLaws, World, ok, Returns, Returns-mono}

contains-count : (c : ℕ) (xs : List ℕ) → count c xs ≡ 0 → contains c xs ≡ false
contains-count c [] e = refl
contains-count c (x ∷ xs) e = ground (arith, contains-count c xs)

module _ {env : Env} where
  -- The connection `c` stands among the idle ones, or in the response to a request.
  abbrev pub HasPlace : ℕ → ℕ → World env → Type 0
  HasPlace p c w =
      (0 < count c (w.pools p).free_conn)
      ⊎ ((key : ℕ) × ((w.pools p).responses key ≡ some (record { conn = some c; err = none })))

  -- The connection `c` was added and has a place, and each connection of the pool `p` has one.
  abbrev pub Settled : ℕ → ℕ → List ℕ → Bool → World env → Type 0
  Settled p c held added w = (added ≡ true) × HasPlace p c w × IsExclusive (holdings p w) held

  -- In every interleaving, a caller that puts back a connection that it has finds it in use; if
  -- the pool is open, the cache takes it without evicting another, and Go's iteration over a map
  -- gives each key once, then no check panics, the connection stands among the idle ones or in
  -- the response to a request, and each connection of the pool still has one place.
  pub reach-puts :
      (laws : RangeLaws env) {p : ℕ} {s : System env} (c : ℕ) {v : World env}
      → Reach env p s
      → 0 < count c s.held
      → mark_returned c s.world ≡ ok tt v
      → (v.pools p).closed ≡ false
      → (env.lru_add c v.facade.lru_cache).1 ≡ false
      → ((s.world.conns c).in_use ≡ true)
        × Returns
            (put_connection_conn_pool_locked p (some c) none v)
            (Settled p c (delete c s.held))
  reach-puts laws {p} {s} c {v} r has e still_open room =
      (x.held_used c has, go (v.pools p).conn_requests refl)
    where
      x : IsExclusive (holdings p s.world) s.held
      x = reach-IsExclusive laws p r

      same_idle : (v.pools p).free_conn ≡ (s.world.pools p).free_conn
      same_idle = ap (λ h. h.idle) (mark_returned-uses p s.world c e)

      absent : contains c (v.pools p).free_conn ≡ false
      absent =
          rw same_idle
            (contains-count c (s.world.pools p).free_conn (omega (arith, x.placed_once c)))

      owned :
          (b : Bool) (w : World env)
          → put_connection_conn_pool_locked p (some c) none v ≡ ok b w
          → IsExclusive (holdings p w) (delete c s.held)
      owned b w e' = reach-IsExclusive laws p (later r (put c has e e'))

      go :
          (requests : List ℕ)
          → (v.pools p).conn_requests ≡ requests
          → Returns
              (put_connection_conn_pool_locked p (some c) none v)
              (Settled p c (delete c s.held))
      go [] none_waits =
          Returns-mono {P = Saved v p c} {Q = Settled p c (delete c s.held)} _
            (put_connection-saves v p c still_open none_waits absent room)
            λ b w e' (added, idle, _, _, _).
              (added, inl (rw idle (count_head c (v.pools p).free_conn)), owned b w e')
      go (key ∷ keys) some_wait =
          Returns-mono {P = Served v p c} {Q = Settled p c (delete c s.held)} _
            (put_connection-serves laws v p c still_open (λ n. cc))
            λ b w e' (key, _, added, _, answered, _, _, _).
              (added, inr (key, answered), owned b w e')
