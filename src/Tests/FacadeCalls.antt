-- ===== src/Tests/FacadeCalls.antt =====
-- The theorems on the calls and the statistics of the facade at concrete states.
use memsql_conn_pool.Base.{ℕ, ◌≡◌, refl, zero, suc, some, List, [], ◌∷◌, map, length, false}
use memsql_conn_pool.Facade.Calls.Closed.{
  FacadeCall, execs, queries, begins, facade_errs, close_facade-refuses,
}
use memsql_conn_pool.Facade.Calls.Served.{Answers, Served, exec_facade-Served}
use memsql_conn_pool.Facade.Calls.{exec_facade, query_facade, begin_tx_facade}
use memsql_conn_pool.Facade.Calls.Begun.{Begins, HeldByTx, begin_tx_facade-HeldByTx}
use memsql_conn_pool.Facade.Calls.Held.{HeldByRows, query_facade-HeldByRows}
use memsql_conn_pool.Facade.Counters.{stats}
use memsql_conn_pool.Facade.Pools.{Credentials, close_facade}
use memsql_conn_pool.Facade.Statistics.{IterLaws, idle_sum, stats_of_all_pools, stats-IsSum}
use memsql_conn_pool.Runtime.{Bytes, facade_closed, ◌>>◌, pure, Returns}
use memsql_conn_pool.Statements.Direct.{DirectDriver}
use memsql_conn_pool.Tests.Calls.{tx_driver}
use memsql_conn_pool.Tests.Instance.{small_env, small_world, small_range, small_cmap}
use memsql_conn_pool.Tests.OwnershipCalls.{empty_cache, idle-IsReady}
use memsql_conn_pool.Tests.RowCalls.{rows_driver}
use memsql_conn_pool.Tests.SingleCalls.{direct_driver}
use memsql_conn_pool.Tests.StatementCalls.{preparing, calling}
use mathlib.Core.List.{Permᴰ}

abbrev someone : Credentials
someone = record { username = 1 ∷ []; password = 2 ∷ []; database = [] }

abbrev three_calls : List FacadeCall
three_calls = execs someone (9 ∷ []) ∷ queries someone (8 ∷ []) ∷ begins someone ∷ []

close_facade-refuses_example :
    (close_facade >> facade_errs preparing direct_driver tx_driver (λ w. w) 1 0 0 three_calls)
      small_world
    ≡ (close_facade >> pure (map (λ _. some facade_closed) three_calls)) small_world
close_facade-refuses_example =
    close_facade-refuses preparing direct_driver tx_driver (λ w. w) 1 0 0 three_calls small_world

same_entries : (m : List (Bytes × ℕ)) → Permᴰ m m
same_entries [] = Permᴰ.nil
same_entries (x ∷ m) = Permᴰ.cons refl (same_entries m)

abbrev small_iter : IterLaws small_env
small_iter = record { each_entry = λ t t' m. same_entries m; count_iter = λ t m. refl }

unlocked : (p : ℕ) → (small_world.pools p).mu ≡ false
unlocked zero = refl
unlocked (suc zero) = refl
unlocked (suc (suc p)) = refl

stats-IsSum_example : Returns (stats small_world) λ s w'.
    Returns
      (stats_of_all_pools w')
      λ ss _. (s.num_idle ≡ idle_sum ss) × (s.num_unique_dsns ≡ length ss)
stats-IsSum_example = stats-IsSum small_iter small_world unlocked refl

-- A driver with direct queries, which answers with the number of the call.
abbrev answering : DirectDriver ℕ
answering = record direct_driver { direct = λ ci. some (λ sql. calling) }

answering-Answers : Answers answering 0 5 (9 ∷ []) (λ t. t)
answering-Answers = record {
  call = λ sql. calling;
  has_direct = refl;
  has_context = refl;
  result = λ t. refl;
  no_statement = refl;
}

exec_facade-Served_example :
    Returns
      (exec_facade preparing answering tx_driver (λ w. w) 1 0 0 someone (9 ∷ []) empty_cache)
      (Served empty_cache 0 7 (λ t. t))
unfolding memsql_conn_pool.Facade.Pools.get_id
exec_facade-Served_example =
    exec_facade-Served (λ w. w) 1 small_range idle-IsReady preparing answering answering-Answers
      tx_driver 0 small_cmap someone refl refl

query_facade-HeldByRows_example :
    Returns
      (query_facade preparing answering tx_driver (λ w. w) 1 0 0 someone (9 ∷ []) empty_cache)
      (HeldByRows rows_driver empty_cache 0 7 1 (λ t. t))
unfolding memsql_conn_pool.Facade.Pools.get_id
query_facade-HeldByRows_example =
    query_facade-HeldByRows rows_driver preparing answering answering-Answers (λ w. w) 1 small_range
      idle-IsReady tx_driver 0 small_cmap someone refl refl (λ t i. refl)

tx_driver-Begins : Begins tx_driver 5 (λ t. t)
tx_driver-Begins = record {
  has_begin_tx = refl;
  begun = λ t. refl;
  commits = λ t i. refl;
  rolls_back = λ t i. refl;
}

begin_tx_facade-HeldByTx_example :
    Returns
      (begin_tx_facade preparing answering tx_driver (λ w. w) 1 0 0 someone empty_cache)
      (HeldByTx tx_driver (λ s. pure tt) empty_cache 0 7 1 0 false (λ t. t))
unfolding memsql_conn_pool.Facade.Pools.get_id
begin_tx_facade-HeldByTx_example =
    begin_tx_facade-HeldByTx tx_driver (λ s. pure tt) 0 tx_driver-Begins (λ w. w) 1 small_range
      idle-IsReady preparing answering 0 small_cmap someone refl refl (λ t. refl)
