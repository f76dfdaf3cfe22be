-- ===== src/Facade/Pools.antt =====
-- The pools of the facade by credentials: credentials.go, open_conn_pool.go, named_args.go
-- (the registry of drivers), and `NewPoolFacade`, `getOrCreateConnPool` and `Close` of
-- conn_pool_facade.go.
pub mod Identity
use memsql_conn_pool.Base.{
  ℕ, suc, ◌==◌, if◌then◌else◌, Bool, true, false, ◌&&◌, Option, none, some, List, [], ◌∷◌, ◌++◌,
  map, is_some,
}
use memsql_conn_pool.Base.Int.{ℤ, pos}
use memsql_conn_pool.Pool.Cleaner.{set_conn_max_idle_time}
use memsql_conn_pool.Runtime.{
  Env, Err, facade_closed, unable_to_get_pool, unknown_driver, Answer, gives, fails, Bytes, World,
  ConnPool, ConnPoolFacade, M, ◌>>=◌, ◌>>◌, pure, panic, gets, ask, modify, set_facade, set_pool,
  lru_size, driver_nil, driver_twice,
}

pub record Credentials : Type 0 where
  pub username : Bytes
  pub password : Bytes
  pub database : Bytes

-- "?interpolateParams=true"
abbrev pub dsn_options : Bytes
dsn_options =
    b'?' ∷ b'i' ∷ b'n' ∷ b't' ∷ b'e' ∷ b'r' ∷ b'p' ∷ b'o' ∷ b'l' ∷ b'a' ∷ b't' ∷ b'e' ∷ b'P' ∷ b'a'
    ∷ b'r' ∷ b'a' ∷ b'm' ∷ b's' ∷ b'=' ∷ b't' ∷ b'r' ∷ b'u' ∷ b'e' ∷ []

unfoldable pub get_data_source_name : Credentials → Bytes
get_data_source_name c =
    c.username ++ (b':' ∷ []) ++ c.password ++ (b'@' ∷ b'/' ∷ []) ++ c.database ++ dsn_options

unfoldable pub get_id : Credentials → Bytes
get_id c = c.username ++ c.password ++ c.database

abbrev pub bytes_eq : Bytes → Bytes → Bool
bytes_eq [] [] = true
bytes_eq (x ∷ xs) (y ∷ ys) = (x == y) && bytes_eq xs ys
bytes_eq _ _ = false

abbrev pub lookup_driver : Bytes → List (Bytes × ℕ) → Option ℕ
lookup_driver k [] = none
lookup_driver k ((j, v) ∷ m) = if bytes_eq j k then some v else lookup_driver k m

-- `&ConnPool{…}` in `OpenDB`.
abbrev pub new_conn_pool : ℕ → ConnPool
new_conn_pool connector = record {
  wait_duration = pos 0;
  connector = connector;
  num_closed = 0;
  mu = false;
  free_conn = [];
  conn_requests = [];
  responses = λ _. none;
  next_request = 0;
  closed = false;
  dep = λ _. none;
  max_lifetime = pos 0;
  max_idle_time = pos 0;
  cleaner_ch = none;
  max_idle_closed = 0;
  max_idle_time_closed = 0;
  max_lifetime_closed = 0;
  stopped = false;
}

-- `(*ConnPool, error)`.
pub data PoolResult : Type 0 where
  pool_ok : ℕ → PoolResult
  pool_err : Err → PoolResult

module _ {env : Env} where
  -- `Register`: a nil driver is `none`.
  unfoldable pub register : Bytes → Option ℕ → M env (Unit {0})
  register name none = panic driver_nil
  register name (some d) = do
    ds ← gets (λ w. w.drivers)
    if is_some (lookup_driver name ds)
        then panic driver_twice
        else modify (λ w. record w { drivers = (name, d) ∷ w.drivers })

  -- `Drivers`: the names in the order in which Go's iteration gives them, and `sort.Strings`.
  unfoldable pub drivers :
      (ℕ → List Bytes → List Bytes) → (List Bytes → List Bytes) → M env (List Bytes)
  drivers order sort = do
    ds ← gets (λ w. w.drivers)
    list ← ask (λ t. order t (map (λ (d : Bytes × ℕ). d.0) ds))
    pure (sort list)

  unfoldable pub unregister_all_drivers : M env (Unit {0})
  unregister_all_drivers = modify (λ w. record w { drivers = [] })

  unfoldable pub open_db : ℕ → M env ℕ
  open_db connector = do
    p ← gets (λ w. w.next_pool)
    modify (λ w. record w { next_pool = suc w.next_pool })
    set_pool p (λ _. new_conn_pool connector)
    pure p

  -- `Open`: a driver gives its connector for the name, or `dsnConnector` stands for it.
  unfoldable pub open_pool : Bytes → Bytes → M env PoolResult
  unfolding open_db
  open_pool driver_name dsn = do
    ds ← gets (λ w. w.drivers)
    elim (lookup_driver driver_name ds) [
      | none ↦ pure (pool_err unknown_driver)
      | some d ↦ elim (env.open_connector d dsn) [
        | fails e ↦ pure (pool_err e)
        | gives connector ↦ (do p ← open_db connector; pure (pool_ok p))
      ]
    ]

  -- What follows `Open`.
  register_pool : Credentials → PoolResult → M env PoolResult
  register_pool c (pool_err e) = pure (pool_err e)
  register_pool c (pool_ok p) = do
    timeout ← gets (λ w. w.facade.idle_timeout)
    set_conn_max_idle_time p timeout
    set_facade (λ f. record f { pools = env.cmap_set (get_id c) p f.pools })
    pure (pool_ok p)

  create_conn_pool : Credentials → M env PoolResult
  create_conn_pool c = do
    name ← gets (λ w. w.facade.driver_name)
    r ← open_pool name (get_data_source_name c)
    register_pool c r

  unfoldable pub get_or_create_conn_pool : Credentials → M env PoolResult
  unfolding create_conn_pool register_pool
  get_or_create_conn_pool c = do
    f ← gets (λ w. w.facade)
    if f.closed
        then pure (pool_err facade_closed)
        else if env.cmap_has (get_id c) f.pools
        then elim (env.cmap_get (get_id c) f.pools) [
          | some p ↦ pure (pool_ok p)
          | none ↦ pure (pool_err unable_to_get_pool)
        ]
        else create_conn_pool c

  unfoldable pub new_pool_facade : Bytes → ℤ → ℤ → M env (Unit {0})
  new_pool_facade driver_name connection_limit idle_timeout = elim (env.lru_new connection_limit) [
    | none ↦ panic lru_size
    | some cache ↦ set_facade (λ _. record {
      driver_name = driver_name;
      pools = env.cmap_new;
      total_max = connection_limit;
      num_opened = pos 0;
      wait_count = 0;
      idle_timeout = idle_timeout;
      closed = false;
      cancelled = false;
      mu = false;
      opener_channel = [];
      lru_cache = cache;
    })
  ]

  -- `ConnPoolFacade.Close`; the opener's goroutine ends by `cancel`.
  unfoldable pub close_facade : M env (Unit {0})
  close_facade = do
    set_facade (λ f. record f { closed = true })
    set_facade (λ f. record f { cancelled = true })
