-- ===== src/Runtime/State.antt =====
-- The objects of the package and their fields: conn_pool_facade.go, conn_pool.go, driver_conn.go,
-- driver_stmt.go. A pointer is a number. A mutex is a flag: held or not.
use memsql_conn_pool.Base.{ℕ, Bool, Option, List}
use memsql_conn_pool.Base.Int.{ℤ}
use memsql_conn_pool.Runtime.Errors.{Err}
use memsql_conn_pool.Runtime.Environment.{Env, Bytes}

-- The keys and the members of `ConnPool.dep`: what has a `finalClose`, and what depends on it.
pub data Node : Type 0 where
  conn_node : ℕ → Node
  stmt_node : ℕ → Node
  rows_node : ℕ → Node

pub record ConnCreationResponse : Type 0 where
  pub conn : Option ℕ
  pub err : Option Err

pub record DriverStmt : Type 0 where
  pub locker : ℕ
  pub si : ℕ
  pub closed : Bool
  pub close_err : Option Err

pub record DriverConn : Type 0 where
  pub conn_pool : ℕ
  pub created_at : ℤ
  pub mu : Bool
  pub ci : Option ℕ
  pub need_reset : Bool
  pub closed : Bool
  pub final_closed : Bool
  pub open_stmt : List ℕ
  pub in_use : Bool
  pub returned_at : ℤ
  pub on_put : List ℕ
  pub dbmu_closed : Bool

-- `responses` holds what was sent on the channel of each request; `cleaner_ch` is `none` for nil,
-- and otherwise tells if a signal is in the channel's buffer of one.
pub record ConnPool : Type 0 where
  pub wait_duration : ℤ
  pub connector : ℕ
  pub num_closed : ℕ
  pub mu : Bool
  pub free_conn : List ℕ
  pub conn_requests : List ℕ
  pub responses : ℕ → Option ConnCreationResponse
  pub next_request : ℕ
  pub closed : Bool
  pub dep : Node → Option (List Node)
  pub max_lifetime : ℤ
  pub max_idle_time : ℤ
  pub cleaner_ch : Option Bool
  pub max_idle_closed : ℕ
  pub max_idle_time_closed : ℕ
  pub max_lifetime_closed : ℕ
  pub stopped : Bool

-- `cancelled` tells if `cancel` of the facade's context was called.
pub record ConnPoolFacade (env : Env) : Type 0 where
  pub driver_name : Bytes
  pub pools : env.Cmap
  pub total_max : ℤ
  pub num_opened : ℤ
  pub wait_count : ℕ
  pub idle_timeout : ℤ
  pub closed : Bool
  pub cancelled : Bool
  pub mu : Bool
  pub opener_channel : List ℕ
  pub lru_cache : env.Lru

-- `Conn` of conn.go; `readers` counts the calls and the rows that hold `closemu`.
pub record Conn : Type 0 where
  pub db : Option ℕ
  pub dc : Option ℕ
  pub done : Bool
  pub readers : ℕ

-- `drivers` is the registry of named_args.go; `cleaners` lists the goroutines that `go
-- connPool.connectionCleaner(d)` has started. While a call on a
-- transaction runs, `closemu` counts the calls and the rows that hold the `closemu` of it; while one
-- on a single connection runs, `single` is that connection.
pub record World (env : Env) : Type 0 where
  pub facade : ConnPoolFacade env
  pub pools : ℕ → ConnPool
  pub conns : ℕ → DriverConn
  pub stmts : ℕ → DriverStmt
  pub next_pool : ℕ
  pub next_conn : ℕ
  pub next_stmt : ℕ
  pub drivers : List (Bytes × ℕ)
  pub cleaners : List (ℕ × ℤ)
  pub closemu : ℕ
  pub single : Conn
  pub tick : ℕ
