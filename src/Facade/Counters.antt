-- ===== src/Facade/Counters.antt =====
-- The counters of the facade: conn_pool_facade.go, conn_pool_facade_opener.go and
-- conn_pool_facade_stats.go.
use memsql_conn_pool.Base.{ℕ, ◌+◌, if◌then◌else◌, Bool, List, [], ◌∷◌, ◌++◌, length, leb}
use memsql_conn_pool.Base.Int.{ℤ, pos, ◌+ℤ◌, ◌-ℤ◌, ltb_ℤ}
use memsql_conn_pool.Runtime.{
  Env, M, ◌>>=◌, ◌>>◌, pure, gets, ask, set_facade, lock_facade, unlock_facade, lock_pool,
  unlock_pool, ok, blocks, opener_full, Bytes,
}

-- The capacity of `openerChannel`.
abbrev pub opener_capacity : ℕ
opener_capacity = 1000

pub record PoolFacadeStats : Type 0 where
  pub num_idle : ℕ
  pub num_open : ℤ
  pub total_max : ℤ
  pub num_unique_dsns : ℕ

module _ {env : Env} where
  unfoldable pub increment_num_opened : M env (Unit {0})
  increment_num_opened = do
    lock_facade
    set_facade (λ f. record f { num_opened = f.num_opened +ℤ pos 1 })
    unlock_facade

  unfoldable pub decrement_num_opened : M env (Unit {0})
  decrement_num_opened = do
    lock_facade
    set_facade (λ f. record f { num_opened = f.num_opened -ℤ pos 1 })
    unlock_facade

  unfoldable pub can_add_new_conn : M env Bool
  can_add_new_conn = do
    lock_facade
    result ← gets (λ w. ltb_ℤ w.facade.num_opened w.facade.total_max)
    unlock_facade
    pure result

  abbrev pub get_num_can_open_connections_locked : M env ℤ
  get_num_can_open_connections_locked = gets (λ w. w.facade.total_max -ℤ w.facade.num_opened)

  -- The send on `openerChannel` waits while the channel is full.
  abbrev pub send_opener : ℕ → M env (Unit {0})
  send_opener p w =
      let f = w.facade in
      if leb opener_capacity (length f.opener_channel)
      then blocks opener_full
      else ok tt (record w { facade = record f { opener_channel = f.opener_channel ++ p ∷ [] } })

  -- Each round counts the connection before it looks if the facade is closed.
  unfoldable pub give_command_to_open_new_connections : List ℕ → M env (Unit {0})
  give_command_to_open_new_connections [] w = ok tt w
  give_command_to_open_new_connections (p ∷ ps) w =
      (do
        set_facade (λ f. record f { num_opened = f.num_opened +ℤ pos 1 })
        closed ← gets (λ w'. w'.facade.closed)
        if closed then pure tt else (send_opener p >> give_command_to_open_new_connections ps))
        w

  unfoldable pub count_idle : ℕ → M env ℕ
  count_idle p = do
    lock_pool p
    k ← gets (λ w'. length (w'.pools p).free_conn)
    unlock_pool p
    pure k

  unfoldable pub add_idle : List (Bytes × ℕ) → ℕ → M env ℕ
  unfolding count_idle
  add_idle [] n w = ok n w
  add_idle ((_, p) ∷ ps) n w = (count_idle p >>= λ k. add_idle ps (n + k)) w

  unfoldable pub stats : M env PoolFacadeStats
  unfolding add_idle
  stats = do
    m ← gets (λ w. w.facade.pools)
    ps ← ask (λ t. env.cmap_iter t m)
    idle ← add_idle ps 0
    lock_facade
    r ← gets (λ w. record {
      num_idle = idle;
      num_open = w.facade.num_opened;
      total_max = w.facade.total_max;
      num_unique_dsns = env.cmap_count w.facade.pools;
    })
    unlock_facade
    pure r
