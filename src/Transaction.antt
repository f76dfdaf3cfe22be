-- ===== src/Transaction.antt =====
-- Transactions: transaction.go, `beginDC` of conn_pool_begin.go and `ctxDriverBegin` of
-- ctxutil.go. A call on a transaction takes its state and gives it back; `others` is what
-- other goroutines do to it while `closemu.Lock` waits for running queries.
pub mod Done
pub mod Queries
pub mod Reuse
pub mod Readers
pub mod Kept
pub mod KeptReuse
pub mod Frees
use memsql_conn_pool.Base.{
  ℕ, zero, suc, ◌+◌, ◌-◌, ltb, if◌then◌else◌, Bool, true, false, ◌&&◌, not, Option, none, some,
  List, [], ◌∷◌, ◌++◌,
}
use memsql_conn_pool.Pool.Retry.{Tried}
use memsql_conn_pool.Runtime.{
  Env, Err, tx_done, bad_conn, canceled, isolation_unsupported, read_only_unsupported, is_bad_conn,
  World, Answer, gives, fails, M, ◌>>=◌, ◌>>◌, pure, panic, gets, ask, when, for_each, lock_conn,
  unlock_conn, nil_pointer, ok, blocks, tx_closemu,
}

-- isolation_level.go.
pub data IsolationLevel : Type 0 where
  default read_uncommitted read_committed write_committed : IsolationLevel
  repeatable_read snapshot serializable linearizable : IsolationLevel

abbrev pub is_default : IsolationLevel → Bool
is_default default = true
is_default _ = false

pub record TxOptions : Type 0 where
  pub isolation : IsolationLevel
  pub read_only : Bool

-- `readers` counts the queries that hold `closemu`; `cancelled` tells if `cancel` was called.
pub record Tx : Type 0 where
  pub dc : Option ℕ
  pub txi : Option ℕ
  pub done : Bool
  pub keep_conn_on_rollback : Bool
  pub stmts : List ℕ
  pub cancelled : Bool
  pub ctx : ℕ
  pub readers : ℕ

-- What the driver does for transactions. A call takes its number, and names what it is called on.
pub record TxDriver : Type 0 where
  pub is_begin_tx : ℕ → Bool
  pub begin_tx : ℕ → ℕ → IsolationLevel → Bool → Answer
  pub begin : ℕ → ℕ → Answer
  pub commit_txi : ℕ → ℕ → Option Err
  pub rollback_txi : ℕ → ℕ → Option Err
  pub is_cancellable : ℕ → Bool

abbrev pub new_tx : ℕ → ℕ → Bool → ℕ → Tx
new_tx dc txi keep ctx = record {
  dc = some dc;
  txi = some txi;
  done = false;
  keep_conn_on_rollback = keep;
  stmts = [];
  cancelled = false;
  ctx = ctx;
  readers = 0;
}

module _ {env : Env} (driver : TxDriver) where
  -- `ci.Begin()`, and the look at the context after it.
  plain_begin : ℕ → ℕ → M env Answer
  plain_begin ctx ci = if not (driver.is_cancellable ctx) then ask (λ t. driver.begin t ci) else (do
    r ← ask (λ t. driver.begin t ci)
    elim r [
      | fails e ↦ pure (fails e)
      | gives txi ↦ (do
        expired ← ask (λ t. env.ctx_done t ctx)
        elim expired [
          | none ↦ pure (gives txi)
          | some e ↦ (ask (λ t. driver.rollback_txi t txi) >>= λ _. pure (fails e))
        ])
    ])

  unfoldable pub ctx_driver_begin : ℕ → Option TxOptions → ℕ → M env Answer
  unfolding plain_begin
  ctx_driver_begin ctx none ci =
      if driver.is_begin_tx ci
      then ask (λ t. driver.begin_tx t ci default false)
      else plain_begin ctx ci
  ctx_driver_begin ctx (some o) ci =
      if driver.is_begin_tx ci
      then ask (λ t. driver.begin_tx t ci o.isolation o.read_only)
      else if not (is_default o.isolation)
      then pure (fails isolation_unsupported)
      else if o.read_only
      then pure (fails read_only_unsupported)
      else plain_begin ctx ci

  unfoldable pub started :
      ℕ → ℕ → Bool → (Option Err → M env (Unit {0})) → Answer → M env (Tried Tx)
  started dc ctx keep release (fails e) =
      release (some e) >> pure (record { value = none; err = some e })
  started dc ctx keep release (gives txi) =
      pure (record { value = some (new_tx dc txi keep ctx); err = none })

  -- The goroutine of `awaitDone` that it starts is `await_done` below.
  unfoldable pub begin_dc :
      ℕ → Option TxOptions → ℕ → (Option Err → M env (Unit {0})) → M env (Tried Tx)
  unfolding ctx_driver_begin started
  begin_dc ctx opts dc release = do
    lock_conn dc
    held ← gets (λ w. (w.conns dc).ci)
    elim held [
      | none ↦ panic nil_pointer
      | some ci ↦ (do
        answer ← ctx_driver_begin ctx opts ci
        unlock_conn dc
        started dc ctx (env.is_resetter ci && env.is_validator ci) release answer)
    ]

  -- The functions of this section take what they call: `Stmt.Close` of a statement of the
  -- transaction, and `releaseConn`.
  module _ (close_prepared : ℕ → M env (Unit {0})) (release : Option Err → M env (Unit {0}))
      (others : Tx → Tx) where
    -- `tx.ctx.Done()`: the transaction's own context is done once it is cancelled.
    unfoldable pub expired : Tx → M env (Option Err)
    expired tx = if tx.cancelled then pure (some canceled) else ask (λ t. env.ctx_done t tx.ctx)

    unfoldable pub call_driver : (ℕ → ℕ → Option Err) → ℕ → Option ℕ → M env (Option Err)
    call_driver call dc none = panic nil_pointer
    call_driver call dc (some txi) = do
      lock_conn dc
      err ← ask (λ t. call t txi)
      unlock_conn dc
      pure err

    -- The end of a transaction with the connection `dc`, once `closemu` was free; `call` is the
    -- driver's Commit or Rollback.
    unfoldable pub close_conn :
        (ℕ → ℕ → Option Err) → Bool → Tx → Option ℕ → M env (Option Err × Tx)
    unfolding call_driver
    close_conn call discard tx none = panic nil_pointer
    close_conn call discard tx (some dc) = do
      err ← call_driver call dc tx.txi
      when (not (is_bad_conn err)) (for_each close_prepared tx.stmts)
      let result = if discard then some bad_conn else err
      release result
      pure (result, record tx { dc = none; txi = none })

    unfoldable pub close_with : (ℕ → ℕ → Option Err) → Bool → Tx → M env (Option Err × Tx)
    unfolding close_conn
    close_with call discard tx w =
        if ltb 0 tx.readers then blocks tx_closemu else close_conn call discard tx tx.dc w

    unfoldable pub finish : (ℕ → ℕ → Option Err) → Bool → Tx → M env (Option Err × Tx)
    unfolding close_with
    finish call discard tx =
        close_with call discard (others (record tx { done = true; cancelled = true }))

    unfoldable pub commit : Tx → M env (Option Err × Tx)
    unfolding finish expired
    commit tx = do
      over ← expired tx
      elim over [
        | some e ↦ pure (some (if tx.done then tx_done else e), tx)
        | none ↦ if tx.done then pure (some tx_done, tx) else finish driver.commit_txi false tx
      ]

    unfoldable pub rollback : Bool → Tx → M env (Option Err × Tx)
    unfolding finish
    rollback discard tx =
        if tx.done then pure (some tx_done, tx) else finish driver.rollback_txi discard tx

    -- What `awaitDone` does once the context is done.
    unfoldable pub await_done : Tx → M env (Option Err × Tx)
    unfolding rollback
    await_done tx = rollback (not tx.keep_conn_on_rollback) tx

    -- `grabConn` gives the connection and holds `closemu` until `closemuRUnlockRelease`.
    unfoldable pub grab_conn : ℕ → Tx → M env (Tried ℕ × Tx)
    grab_conn ctx tx = do
      over ← ask (λ t. env.ctx_done t ctx)
      elim over [
        | some e ↦ pure (record { value = none; err = some e }, tx)
        | none ↦
            if tx.done
            then pure (record { value = none; err = some tx_done }, tx)
            else pure (record { value = tx.dc; err = none }, record tx { readers = suc tx.readers })
      ]
