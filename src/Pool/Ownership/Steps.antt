-- ===== src/Pool/Ownership/Steps.antt =====
-- The goroutines that share a pool, interleaved: each step is a critical section of one of them,
-- of conn_pool.go, conn_pool_put.go, conn_pool_conn_opener.go, conn_cleaner.go or
-- conn_pool_facade_lru.go, or is about another pool.
use memsql_conn_pool.Base.{
  ℕ, ◌+◌, ◌<◌, ◌≤◌, ◌≡◌, Bool, true, none, some, List, [], ◌∷◌, arith, count, delete, refl,
}
use memsql_conn_pool.Facade.Lru.{remove_conn_from_free}
use memsql_conn_pool.Facade.Pools.{open_db}
use memsql_conn_pool.Pool.Acquire.{take_out, make_conn, ConnResult}
use memsql_conn_pool.Pool.Cleaner.{connection_cleaner_run_locked}
use memsql_conn_pool.Pool.Opener.{place_conn}
use memsql_conn_pool.Pool.Ownership.{holdings, Holdings, IsExclusive, hold, conn_of}
use memsql_conn_pool.Pool.Ownership.Kept.{
  asks-IsExclusive, cancels-IsExclusive, hold-IsExclusive, takes-IsExclusive,
  makes-IsExclusive_held, makes-IsExclusive, makes-IsLoose, Placed-IsExclusive,
  Reported-IsExclusive, returns-IsExclusive, uses-IsLoose, drops-IsExclusive, Fewer-IsExclusive,
}
use memsql_conn_pool.Pool.Ownership.Losses.{
  cleaner_run-Fewer, remove_conn_from_free-Fewer, empty-Fewer,
}
use memsql_conn_pool.Pool.Ownership.Sections.{
  register-asks, cancel_request-cancels, take_response-receives, take_out-takes, make_conn-makes,
  place_conn-Placed, put_error-Reported, put_connection-Placed, mark_returned-uses,
}
use memsql_conn_pool.Pool.Put.{mark_returned, put_connection_conn_pool_locked}
use memsql_conn_pool.Pool.Waiting.{register, cancel_request, take_response}
use memsql_conn_pool.Runtime.{Env, RangeLaws, Err, World, ConnCreationResponse, ok, set_pool}

-- `held` lists the connections that callers have: a transaction, rows, or a call on its way.
pub record System (env : Env) : Type 0 where
  pub world : World env
  pub held : List ℕ

-- What runs elsewhere leaves the pool's idle connections, its requests and their channels alone,
-- and `inUse` of its connections.
pub record IsElsewhere (h : Holdings) (held : List ℕ) (h' : Holdings) : Type 0 where
  pub same_idle : h'.idle ≡ h.idle
  pub same_requests : h'.requests ≡ h.requests
  pub same_sent : h'.sent ≡ h.sent
  pub grown : h.next ≤ h'.next
  pub same_placed : (c : ℕ) → 0 < count c h.idle + count c held → h'.used c ≡ h.used c
  pub same_given : (c key : ℕ) → conn_of (h.sent key) ≡ some c → h'.used c ≡ h.used c

pub data Step (env : Env) (p : ℕ) (s : System env) : System env → Type 0 where
  -- `conn` asks for a connection, and goes on without one or with the response.
  asked :
      {key : ℕ} {w : World env}
      → register p s.world ≡ ok key w
      → Step env p s (record { world = w; held = s.held })
  gave_up :
      {w : World env} (key : ℕ)
      → cancel_request p key s.world ≡ ok tt w
      → Step env p s (record { world = w; held = s.held })
  received :
      {r : ConnCreationResponse} {w : World env} (key : ℕ)
      → take_response p key s.world ≡ ok (some r) w
      → Step env p s (record { world = w; held = hold r.conn s.held })
  -- `conn` takes an idle connection, or makes one.
  took :
      {w : World env} (c : ℕ)
      → 0 < count c (s.world.pools p).free_conn
      → take_out p c s.world ≡ ok tt w
      → Step env p s (record { world = w; held = c ∷ s.held })
  made :
      {r : ConnResult} {w : World env} (ci : ℕ)
      → make_conn p ci s.world ≡ ok r w
      → Step env p s (record { world = w; held = hold r.conn s.held })
  -- The opener has connected, or has failed.
  opened :
      {w : World env} (ci : ℕ)
      → place_conn p ci s.world ≡ ok tt w
      → Step env p s (record { world = w; held = s.held })
  failed_to_open :
      {b : Bool} {w : World env} (e : Err)
      → put_connection_conn_pool_locked p none (some e) s.world ≡ ok b w
      → Step env p s (record { world = w; held = s.held })
  -- `putConn` of a connection, of a bad one, and a caller that closes its connection.
  put :
      {b : Bool} {v w : World env} (c : ℕ)
      → 0 < count c s.held
      → mark_returned c s.world ≡ ok tt v
      → put_connection_conn_pool_locked p (some c) none v ≡ ok b w
      → Step env p s (record { world = w; held = delete c s.held })
  discarded :
      {w : World env} (c : ℕ)
      → 0 < count c s.held
      → mark_returned c s.world ≡ ok tt w
      → Step env p s (record { world = w; held = delete c s.held })
  dropped : (c : ℕ) → Step env p s (record { world = s.world; held = delete c s.held })
  -- Idle connections go: to the cleaner, by eviction, and where the pool is closed.
  cleaned :
      {closing : List ℕ} {w : World env}
      → connection_cleaner_run_locked p s.world ≡ ok closing w
      → Step env p s (record { world = w; held = s.held })
  evicted :
      {b : Bool} {w : World env} (c : ℕ)
      → remove_conn_from_free p c s.world ≡ ok b w
      → Step env p s (record { world = w; held = s.held })
  shut :
      {w : World env}
      → set_pool p (λ x. record x { free_conn = []; closed = true }) s.world ≡ ok tt w
      → Step env p s (record { world = w; held = s.held })
  elsewhere :
      (w : World env)
      → IsElsewhere (holdings p s.world) s.held (holdings p w)
      → Step env p s (record { world = w; held = s.held })

-- What comes after `OpenDB` has made the pool `p`.
pub data Reach (env : Env) (p : ℕ) : System env → Type 0 where
  start :
      (w₀ : World env) {w : World env} (connector : ℕ)
      → open_db connector w₀ ≡ ok p w
      → Reach env p (record { world = w; held = [] })
  later : {s t : System env} → Reach env p s → Step env p s t → Reach env p t

abbrev pub Owned : {env : Env} → ℕ → System env → Type 0
Owned p s = IsExclusive (holdings p s.world) s.held

elsewhere-IsExclusive :
    (h h' : Holdings) (held : List ℕ)
    → IsElsewhere h held h'
    → IsExclusive h held
    → IsExclusive h' held
elsewhere-IsExclusive h h' held f x = record {
  placed_once = λ c. rw f.same_idle (x.placed_once c);
  sent_alone = λ c k e. rw f.same_idle (x.sent_alone c k (rw f.same_sent at e));
  sent_once = λ c k k' e e'. x.sent_once c k k' (rw f.same_sent at e) (rw f.same_sent at e');
  placed_known = λ c b. rw f.same_idle (x.placed_known c (omega (arith, f.grown)));
  sent_known = λ c k e. omega (arith, f.grown, x.sent_known c k (rw f.same_sent at e));
  waits_once = λ k. rw f.same_requests (x.waits_once k);
  waits_empty = λ k e. rw f.same_sent (x.waits_empty k (rw f.same_requests at e));
  idle_unused = λ c e.
      let e' : 0 < count c h.idle = rw f.same_idle at e in
      rw (f.same_placed c (omega arith)) (x.idle_unused c e');
  held_used = λ c e. rw (f.same_placed c (omega arith)) (x.held_used c e);
  sent_used =
      λ c k e. let e' = rw f.same_sent at e in rw (f.same_given c k e') (x.sent_used c k e');
}

start-IsExclusive :
    (next : ℕ) (used : ℕ → Bool)
    → IsExclusive
        (record { idle = []; requests = []; sent = λ _. none; used = used; next = next })
        []
start-IsExclusive next used = record {
  placed_once = λ c. omega arith;
  sent_alone = λ c k e. refl;
  sent_once = λ c k k' e e'. absurd (ground arith);
  placed_known = λ c b. refl;
  sent_known = λ c k e. absurd (ground arith);
  waits_once = λ k. omega arith;
  waits_empty = λ k e. refl;
  idle_unused = λ c e. absurd (omega arith);
  held_used = λ c e. absurd (omega arith);
  sent_used = λ c k e. absurd (ground arith);
}

module _ {env : Env} where
  opens :
      (connector p : ℕ) (w₀ w : World env)
      → open_db connector w₀ ≡ ok p w
      → holdings p w ≡ record {
        idle = [];
        requests = [];
        sent = λ _. none;
        used = λ c. (w₀.conns c).in_use;
        next = w₀.next_conn;
      }
  unfolding open_db
  opens connector p w₀ w h = ground arith

module _ {env : Env} (laws : RangeLaws env) (p : ℕ) where
  step-Owned : {s t : System env} → Step env p s t → Owned p s → Owned p t
  step-Owned {s} (asked {key} e) x =
      rw (register-asks p s.world e) (asks-IsExclusive key (holdings p s.world) s.held x)
  step-Owned {s} (gave_up key e) x =
      rw (cancel_request-cancels p s.world key e) (cancels-IsExclusive key _ s.held x)
  step-Owned {s} (received {r} key e) x =
      let (got, h) = take_response-receives p s.world key e in
      rw h (hold-IsExclusive key r _ s.held x got)
  step-Owned {s} (took c free e) x =
      rw (take_out-takes p s.world c e) (takes-IsExclusive c _ s.held x free)
  step-Owned {s} (made ci e) x =
      let (r, h) = make_conn-makes p s.world ci e in rw (r, h) (makes-IsExclusive_held _ s.held x)
  step-Owned {s} (opened ci e) x =
      Placed-IsExclusive s.world.next_conn _ _ s.held (place_conn-Placed laws p ci s.world e)
        (makes-IsExclusive _ s.held x) (makes-IsLoose _ s.held x)
  step-Owned {s} (failed_to_open err e) x =
      Reported-IsExclusive _ _ s.held (put_error-Reported laws p err s.world e) x
  step-Owned {s} (put {b} {v} c has e₁ e₂) x =
      Placed-IsExclusive c _ _ (delete c s.held)
        (rw (mark_returned-uses p s.world c e₁) at (put_connection-Placed laws p c v e₂))
        (returns-IsExclusive c _ s.held x has) (uses-IsLoose c _ s.held x has)
  step-Owned {s} (discarded c has e) x =
      rw (mark_returned-uses p s.world c e) (returns-IsExclusive c _ s.held x has)
  step-Owned {s} (dropped c) x = drops-IsExclusive c _ s.held x
  step-Owned {s} (cleaned e) x = Fewer-IsExclusive _ _ s.held (cleaner_run-Fewer p laws s.world e) x
  step-Owned {s} (evicted c e) x =
      Fewer-IsExclusive _ _ s.held (remove_conn_from_free-Fewer p c s.world e) x
  step-Owned {s} (shut e) x = Fewer-IsExclusive _ _ s.held (empty-Fewer p s.world e) x
  step-Owned {s} (elsewhere w f) x = elsewhere-IsExclusive _ _ s.held f x

  -- In every interleaving of the critical sections that share a pool, from its making on, each
  -- connection has at most one place: idle, with one caller, or sent to one request; `inUse` is
  -- false of the idle ones and true of the others, and a request waits once, with nothing sent
  -- to it yet; if Go's iteration over a map gives each key once.
  pub reach-IsExclusive : {s : System env} → Reach env p s → Owned p s
  reach-IsExclusive (start w₀ {w} connector e) =
      rw (opens connector p w₀ w e) (start-IsExclusive w₀.next_conn (λ c. (w₀.conns c).in_use))
  reach-IsExclusive (later r st) = step-Owned st (reach-IsExclusive r)
