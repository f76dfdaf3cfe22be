-- ===== src/Tests/Calls.antt =====
-- The theorems on transactions and retried calls at concrete states.
use memsql_conn_pool.Base.{ℕ, ◌≡◌, refl, true, false, Option, none, some, [], ◌∷◌}
use memsql_conn_pool.Pool.Acquire.{ConnReuseStrategy, cached_or_new_conn, always_new_conn}
use memsql_conn_pool.Pool.Retry.{Tried, retrying}
use memsql_conn_pool.Pool.Retry.Attempts.{in_turn, retrying-in_turn}
use memsql_conn_pool.Runtime.{M, pure, gives, Err, tx_done, bad_conn, Returns}
use memsql_conn_pool.Transaction.{Tx, TxDriver}
use memsql_conn_pool.Transaction.Done.{commits, rolls_back, calls, commit-once}
use memsql_conn_pool.Tests.Instance.{small_env, small_world}

abbrev pub tx_driver : TxDriver
tx_driver = record {
  is_begin_tx = λ ci. true;
  begin_tx = λ t ci level read_only. gives t;
  begin = λ t ci. gives t;
  commit_txi = λ t txi. none;
  rollback_txi = λ t txi. none;
  is_cancellable = λ ctx. true;
}

-- A transaction on the connection 7, with the statement 4.
abbrev open_tx : Tx
open_tx = record {
  dc = some 7;
  txi = some 2;
  done = false;
  keep_conn_on_rollback = false;
  stmts = 4 ∷ [];
  cancelled = false;
  ctx = 0;
  readers = 1;
}

-- The queries that run end once the transaction is cancelled.
abbrev queries_end : Tx → Tx
queries_end tx = record tx { readers = 0 }

abbrev pub close_none : ℕ → M small_env (Unit {0})
close_none s = pure tt

abbrev pub release_none : Option Err → M small_env (Unit {0})
release_none e = pure tt

commit-once_example :
    Returns
      (calls tx_driver close_none release_none queries_end
        (commits ∷ rolls_back ∷ [])
        open_tx
        small_world)
      λ r w'. r.0 ≡ none ∷ some tx_done ∷ []
commit-once_example =
    commit-once tx_driver close_none release_none queries_end (rolls_back ∷ []) open_tx 7 2
      small_world refl refl refl refl refl refl refl (λ s v. tt) (λ e v. tt)

-- Attempts that meet a bad connection until they take a new one.
abbrev new_only : ConnReuseStrategy → M small_env (Tried ℕ)
new_only cached_or_new_conn = pure (record { value = none; err = some bad_conn })
new_only always_new_conn = pure (record { value = some 3; err = none })

retrying-in_turn_example :
    retrying new_only small_world
    ≡ in_turn new_only cached_or_new_conn (cached_or_new_conn ∷ always_new_conn ∷ []) small_world
retrying-in_turn_example = retrying-in_turn new_only small_world
