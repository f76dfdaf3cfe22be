-- ===== src/Tests/Instance.antt =====
-- A concrete environment: a cache of one key, an association list for the concurrent map, maps
-- iterated from the newest key, a driver that numbers its connections
-- and refuses those of the connector 4, a clock that ticks.
use memsql_conn_pool.Base.{
  ℕ, zero, suc, ◌≤◌, ◌==◌, ◌≡◌, refl, if◌then◌else◌, Bool, true, false, Option, none, some, is_some,
  List, [], ◌∷◌, length, delete, count, contains, arith,
}
use memsql_conn_pool.Base.Int.{pos}
use memsql_conn_pool.Facade.Pools.{bytes_eq, lookup_driver}
use memsql_conn_pool.Runtime.{
  Env, LruLaws, CmapLaws, RangeLaws, Bytes, gives, fails, bad_conn, World, ConnPool, DriverConn,
  Node, Outcome, ok, conn_node, stmt_node,
}

abbrev cache_keys : Option ℕ → List ℕ
cache_keys none = []
cache_keys (some k) = k ∷ []

abbrev cache_remove : ℕ → Option ℕ → Option ℕ × Bool
cache_remove k none = (none, false)
cache_remove k (some x) = if x == k then (none, true) else (some x, false)

abbrev cache_oldest : Option ℕ → Option (ℕ × Option ℕ)
cache_oldest none = none
cache_oldest (some k) = some (k, none)

abbrev pub small_env : Env
small_env = record {
  Lru = Option ℕ;
  lru_new = λ size. some none;
  lru_add = λ k c. (some k, is_some c);
  lru_remove = cache_remove;
  lru_remove_oldest = cache_oldest;
  lru_keys = cache_keys;
  lru_len = λ c. length (cache_keys c);
  Cmap = List (Bytes × ℕ);
  cmap_new = [];
  cmap_has = λ k m. is_some (lookup_driver k m);
  cmap_get = lookup_driver;
  cmap_set = λ k v m. (k, v) ∷ m;
  cmap_iter = λ t m. m;
  cmap_count = length;
  now = pos;
  ctx_done = λ t ctx. none;
  range = λ t xs. xs;
  select = λ t. true;
  open_connector = λ t dsn. gives 3;
  connect = λ t c. if c == 4 then fails bad_conn else gives t;
  ci_close = λ t c. none;
  is_resetter = λ c. false;
  reset_session = λ t c. none;
  is_validator = λ c. false;
  is_valid = λ t c. true;
  si_close = λ t s. none;
}

bytes_eq_refl : (k : Bytes) → bytes_eq k k ≡ true
bytes_eq_refl [] = refl
bytes_eq_refl (x ∷ xs) = ground (arith, bytes_eq_refl xs)

keys_remove : (k : ℕ) (c : Option ℕ) → cache_keys (cache_remove k c).0 ≡ delete k (cache_keys c)
keys_remove k none = refl
keys_remove k (some x) = ground arith

present_remove : (k : ℕ) (c : Option ℕ) → (cache_remove k c).1 ≡ contains k (cache_keys c)
present_remove k none = refl
present_remove k (some x) = ground arith

oldest_none : (c : Option ℕ) → cache_keys c ≡ [] → cache_oldest c ≡ none
oldest_none none h = refl
oldest_none (some k) h = absurd (ground arith)

oldest_some :
    (c : Option ℕ) (k : ℕ) (ks : List ℕ)
    → cache_keys c ≡ k ∷ ks
    → (c' : Option ℕ) × (cache_oldest c ≡ some (k, c')) × (cache_keys c' ≡ ks)
oldest_some none k ks h = absurd (ground arith)
oldest_some (some x) k ks h = (none, ground arith, ground arith)

keys_once : (k : ℕ) (c : Option ℕ) → count k (cache_keys c) ≤ 1
keys_once k none = omega arith
keys_once k (some x) = ground arith

pub small_lru : LruLaws small_env
small_lru = record {
  keys_remove = keys_remove;
  present_remove = present_remove;
  oldest_none = oldest_none;
  oldest_some = oldest_some;
  len_keys = λ c. refl;
  keys_once = keys_once;
}

pub small_cmap : CmapLaws small_env
small_cmap = record {
  has_get = λ k m. refl;
  get_new = λ k. refl;
  get_set_self = λ k v m. ground (arith, bytes_eq_refl k);
}

pub small_range : RangeLaws small_env
small_range = record { each_once = λ t k xs. refl }

-- A connection of the pool `p`.
abbrev conn_of : ℕ → DriverConn
conn_of p = record {
  conn_pool = p;
  created_at = pos 2;
  mu = false;
  ci = some 5;
  need_reset = false;
  closed = false;
  final_closed = false;
  open_stmt = [];
  in_use = false;
  returned_at = pos 3;
  on_put = [];
  dbmu_closed = false;
}

abbrev deps_of : ℕ → Node → Option (List Node)
deps_of dc (conn_node k) = if k == dc then some (conn_node dc ∷ stmt_node 2 ∷ []) else none
deps_of dc _ = none

-- A pool with the free connections `free` and the waiting requests `requests`.
abbrev pub pool_with : List ℕ → List ℕ → ConnPool
pool_with free requests = record {
  wait_duration = pos 0;
  connector = 3;
  num_closed = 0;
  mu = false;
  free_conn = free;
  conn_requests = requests;
  responses = λ k. none;
  next_request = 9;
  closed = false;
  dep = deps_of 7;
  max_lifetime = pos 0;
  max_idle_time = pos 1;
  cleaner_ch = none;
  max_idle_closed = 0;
  max_idle_time_closed = 0;
  max_lifetime_closed = 0;
  stopped = false;
}

abbrev pools : ℕ → ConnPool
pools zero = pool_with (7 ∷ []) []
pools (suc zero) = pool_with [] (4 ∷ 5 ∷ [])
pools _ = pool_with [] []

-- The facade has opened four connections of the five it may; the connection 7 is idle in the pool
-- 0, and two requests wait in the pool 1.
abbrev pub small_world : World small_env
small_world = record {
  facade = record {
    driver_name = [];
    pools = ((1 ∷ 2 ∷ []), 0) ∷ ((1 ∷ 3 ∷ []), 1) ∷ [];
    total_max = pos 5;
    num_opened = pos 4;
    wait_count = 1;
    idle_timeout = pos 10;
    closed = false;
    cancelled = false;
    mu = false;
    opener_channel = [];
    lru_cache = some 7;
  };
  pools = pools;
  conns = λ dc. conn_of 0;
  stmts = λ s. record { locker = 7; si = 1; closed = false; close_err = none };
  next_pool = 2;
  next_conn = 8;
  next_stmt = 5;
  drivers = ([], 1) ∷ [];
  cleaners = [];
  closemu = 0;
  single = record { db = none; dc = none; done = true; readers = 0 };
  tick = 30;
}

-- The world that a call leaves.
abbrev pub world_of : {A : Type 0} → Outcome small_env A → World small_env
world_of (ok a w) = w
world_of _ = small_world
