-- ===== src/Pool/Ownership.antt =====
-- Who has the connections of a pool: the idle connections, the requests that wait, and what was
-- sent to requests, as the critical sections of conn_pool.go, conn_pool_put.go,
-- conn_pool_conn_opener.go and conn_cleaner.go change them.
pub mod Kept
pub mod Frames
pub mod Sections
pub mod Losses
pub mod Steps
pub mod Returned
use memsql_conn_pool.Base.{
  ℕ, suc, ◌+◌, ◌<◌, ◌≤◌, ◌≡◌, Bool, true, false, Option, none, some, List, [], ◌∷◌, update, count,
  delete,
}
use memsql_conn_pool.Runtime.{Env, Err, World, ConnCreationResponse}

-- What the pool `p` has in a world: `used` is `inUse` of each connection, `next` the number of the
-- next one.
pub record Holdings : Type 0 where
  pub idle : List ℕ
  pub requests : List ℕ
  pub sent : ℕ → Option ConnCreationResponse
  pub used : ℕ → Bool
  pub next : ℕ

abbrev pub holdings : {env : Env} → ℕ → World env → Holdings
holdings p w = record {
  idle = (w.pools p).free_conn;
  requests = (w.pools p).conn_requests;
  sent = (w.pools p).responses;
  used = λ c. (w.conns c).in_use;
  next = w.next_conn;
}

-- What a section does to the holdings.
abbrev pub asks : ℕ → Holdings → Holdings
asks key h = record h { requests = key ∷ delete key h.requests; sent = update h.sent key none }

abbrev pub cancels : ℕ → Holdings → Holdings
cancels key h = record h { requests = delete key h.requests }

abbrev pub receives : ℕ → Holdings → Holdings
receives key h = record h { sent = update h.sent key none }

abbrev pub uses : ℕ → Bool → Holdings → Holdings
uses c b h = record h { used = update h.used c b }

abbrev pub takes : ℕ → Holdings → Holdings
takes c h = uses c true (record h { idle = delete c h.idle })

abbrev pub makes : Bool → Holdings → Holdings
makes b h = uses h.next b (record h { next = suc h.next })

abbrev pub responds : ℕ → ConnCreationResponse → Holdings → Holdings
responds key r h = record h { requests = delete key h.requests; sent = update h.sent key (some r) }

abbrev pub saves : ℕ → Holdings → Holdings
saves c h = record h { idle = c ∷ h.idle }

-- What `putConnectionConnPoolLocked` may do with the connection `c`.
pub data Placed (c : ℕ) (h : Holdings) (h' : Holdings) : Type 0 where
  left : h' ≡ h → Placed c h h'
  served :
      (key : ℕ)
      → 0 < count key h.requests
      → h' ≡ responds key (record { conn = some c; err = none }) (uses c true h)
      → Placed c h h'
  saved : h' ≡ saves c h → Placed c h h'

-- The same without a connection, after an error.
pub data Reported (h : Holdings) (h' : Holdings) : Type 0 where
  unheard : h' ≡ h → Reported h h'
  told :
      (key : ℕ) (e : Err)
      → 0 < count key h.requests
      → h' ≡ responds key (record { conn = none; err = some e }) h
      → Reported h h'

abbrev pub conn_of : Option ConnCreationResponse → Option ℕ
conn_of none = none
conn_of (some r) = r.conn

abbrev pub hold : Option ℕ → List ℕ → List ℕ
hold none held = held
hold (some c) held = c ∷ held

-- Each connection has one place: it is idle, or in the hands of one caller (`held`), or in the
-- channel of one request; `inUse` tells if it is idle, and a request that waits has no response.
pub record IsExclusive (h : Holdings) (held : List ℕ) : Type 0 where
  pub placed_once : (c : ℕ) → count c h.idle + count c held ≤ 1
  pub sent_alone : (c key : ℕ) → conn_of (h.sent key) ≡ some c → count c h.idle + count c held ≡ 0
  pub sent_once :
      (c key key' : ℕ) → conn_of (h.sent key) ≡ some c → conn_of (h.sent key') ≡ some c → key ≡ key'
  pub placed_known : (c : ℕ) → h.next ≤ c → count c h.idle + count c held ≡ 0
  pub sent_known : (c key : ℕ) → conn_of (h.sent key) ≡ some c → c < h.next
  pub waits_once : (key : ℕ) → count key h.requests ≤ 1
  pub waits_empty : (key : ℕ) → 0 < count key h.requests → h.sent key ≡ none
  pub idle_unused : (c : ℕ) → 0 < count c h.idle → h.used c ≡ false
  pub held_used : (c : ℕ) → 0 < count c held → h.used c ≡ true
  pub sent_used : (c key : ℕ) → conn_of (h.sent key) ≡ some c → h.used c ≡ true

-- A connection that is nowhere, and not in use.
pub record IsLoose (c : ℕ) (h : Holdings) (held : List ℕ) : Type 0 where
  pub nowhere : count c h.idle + count c held ≡ 0
  pub unsent : (key : ℕ) → ¬ (conn_of (h.sent key) ≡ some c)
  pub known : c < h.next
  pub unused : h.used c ≡ false

-- A connection that is nowhere and in use: it may be sent to a request.
pub record IsGiven (c : ℕ) (h : Holdings) (held : List ℕ) : Type 0 where
  pub nowhere : count c h.idle + count c held ≡ 0
  pub unsent : (key : ℕ) → ¬ (conn_of (h.sent key) ≡ some c)
  pub known : c < h.next
  pub used_now : h.used c ≡ true

-- Some idle connections are idle no more.
pub record Fewer (h : Holdings) (h' : Holdings) : Type 0 where
  pub rest : h' ≡ record h { idle = h'.idle }
  pub fewer : (c : ℕ) → count c h'.idle ≤ count c h.idle
