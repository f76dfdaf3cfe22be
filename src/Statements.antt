-- ===== src/Statements.antt =====
-- Prepared statements: prepared_statement.go, `prepareLocked` of driver_conn.go and
-- `ctxDriverPrepare` of ctxutil.go. A call on a statement takes its state and gives it back; the
-- calls are taken one after the other.
pub mod Calls
pub mod Bags
pub mod Swaps
pub mod Ends
pub mod Bound
pub mod Direct
pub mod Released
use memsql_conn_pool.Base.{
  ℕ, zero, suc, ◌+◌, ◌-◌, ◌*◌, ◌/◌, ◌%◌, ◌^◌, ◌==◌, ltb, if◌then◌else◌, Bool, true, false, Option,
  none, some, List, [], ◌∷◌, ◌++◌, length, get_elem?, set, take,
}
use memsql_conn_pool.Closing.{u64}
use memsql_conn_pool.Deps.{Closer, final_close_of, nothing, duplicate, remove_dep}
use memsql_conn_pool.Conn.{close_stmt, remove_open_stmt}
use memsql_conn_pool.Pool.Acquire.{ConnReuseStrategy, ConnResult}
use memsql_conn_pool.Pool.Put.{release_conn}
use memsql_conn_pool.Pool.Shutdown.{note_unused_driver_statement}
use memsql_conn_pool.Pool.Waiting.{conn}
use memsql_conn_pool.Runtime.{
  Env, Err, stmt_closed, duplicate_close, World, Bytes, Answer, gives, fails, DriverStmt, stmt_node,
  M, ◌>>=◌, ◌>>◌, pure, panic, gets, ask, modify, for_each, set_conn, set_stmt, lock_conn,
  unlock_conn, lock_pool, unlock_pool, nil_pointer, no_fuel,
}

-- `connStmt`.
pub record ConnStmt : Type 0 where
  pub dc : ℕ
  pub ds : ℕ

-- `Stmt`; `cg` tells if it was prepared on a transaction or a single connection.
pub record Stmt : Type 0 where
  pub db : ℕ
  pub query : Bytes
  pub sticky_err : Option Err
  pub cg : Bool
  pub cgds : Option ℕ
  pub parent_stmt : Option ℕ
  pub closed : Bool
  pub css : List ConnStmt
  pub last_num_closed : ℕ

-- `stmtConnGrabber`: `grabConn`, and the function that it gives to release the connection.
pub record Grabber (env : Env) : Type 0 where
  pub grab : ℕ → M env ConnResult
  pub release : ℕ → Option Err → M env (Unit {0})

-- What the driver does to prepare a statement. A call takes its number.
pub record PrepareDriver : Type 0 where
  pub is_prepare_context : ℕ → Bool
  pub prepare_context : ℕ → ℕ → ℕ → Bytes → Answer
  pub prepare : ℕ → ℕ → Bytes → Answer

-- The loop of `removeClosedStmtLocked`: an entry of a closed connection is overwritten by the last
-- one, and the slice is cut; none is the end of fuel, or a read out of bounds.
unfoldable pub swap_out : (ℕ → Bool) → ℕ → ℕ → List ConnStmt → Option (List ConnStmt)
swap_out is_closed zero i css = if ltb i (length css) then none else some css
swap_out is_closed (suc fuel) i css =
    let skip = swap_out is_closed fuel (i + 1) css in
    let drop =
      λ (last : ConnStmt). swap_out is_closed fuel i (take (length css - 1) (set css i last)) in
    if ltb i (length css)
    then elim (get_elem? css i) [
      | none ↦ none
      | some v ↦
          if is_closed v.dc
          then elim (get_elem? css (length css - 1)) [ none ↦ none | some last ↦ drop last ]
          else skip
    ]
    else some css

-- The number of closed connections from which on they are looked for.
abbrev pub threshold : List ConnStmt → ℕ
threshold css = let t = length css / 2 + 1 in if ltb 10 t then 10 else t

-- The driver's statement on a connection.
abbrev pub stmt_on : List ConnStmt → ℕ → Option ℕ
stmt_on [] dc = none
stmt_on (v ∷ css) dc = let rest = stmt_on css dc in if v.dc == dc then some v.ds else rest

-- What `connStmt` returns.
pub data Found : Type 0 where
  found : ℕ → Option ℕ → Found
  missed : Err → Found

module _ {env : Env} where
  unfoldable pub swapped : Stmt → ℕ → Option (List ConnStmt) → M env Stmt
  swapped s db_closed none w = no_fuel
  swapped s db_closed (some css) w = pure (record s { css = css; last_num_closed = db_closed }) w

  -- The subtraction is that of unsigned 64-bit numbers.
  unfoldable pub remove_closed_stmt_locked : Stmt → M env Stmt
  unfolding swap_out swapped
  remove_closed_stmt_locked s = do
    db_closed ← gets (λ w. (w.pools s.db).num_closed)
    if ltb (u64 (db_closed + 2 ^ 64 - s.last_num_closed)) (threshold s.css) then pure s else (do
      lock_pool s.db
      is_closed ← gets (λ w dc. (w.conns dc).dbmu_closed)
      s' ← swapped s db_closed (swap_out is_closed (length s.css) 0 s.css)
      unlock_pool s.db
      pure s')

  module _ (d : PrepareDriver) where
    prepared : ℕ → ℕ → Answer → M env Answer
    prepared ctx si (fails e) = pure (fails e)
    prepared ctx x (gives si) = do
      done ← ask (λ t. env.ctx_done t ctx)
      elim done [
        | none ↦ pure (gives si)
        | some e ↦ (do _ ← ask (λ t. env.si_close t si); pure (fails e))
      ]

    unfoldable pub ctx_driver_prepare : ℕ → Option ℕ → Bytes → M env Answer
    unfolding prepared
    ctx_driver_prepare ctx none query = panic nil_pointer
    ctx_driver_prepare ctx (some ci) query =
        if d.is_prepare_context ci
        then ask (λ t. d.prepare_context t ctx ci query)
        else (ask (λ t. d.prepare t ci query) >>= λ a. prepared ctx ci a)

    -- The new `driverStmt`.
    unfoldable pub new_stmt : ℕ → Bool → Answer → M env Answer
    new_stmt dc cg (fails e) = pure (fails e)
    new_stmt dc cg (gives si) = do
      ds ← gets (λ w. w.next_stmt)
      modify (λ w. record w { next_stmt = suc w.next_stmt })
      set_stmt ds (λ _. record { locker = dc; si = si; closed = false; close_err = none })
      (if cg then pure tt else set_conn dc (λ c. record c { open_stmt = ds ∷ c.open_stmt }))
      pure (gives ds)

    unfoldable pub prepare_locked : ℕ → ℕ → Bool → Bytes → M env Answer
    unfolding ctx_driver_prepare new_stmt
    prepare_locked dc ctx cg query = do
      ci ← gets (λ w. (w.conns dc).ci)
      answer ← ctx_driver_prepare ctx ci query
      new_stmt dc cg answer

    unfoldable pub added : Stmt → ℕ → Answer → M env (Stmt × Answer)
    added s dc (fails e) = pure (s, fails e)
    added s dc (gives ds) =
        pure (record s { css = s.css ++ record { dc = dc; ds = ds } ∷ [] }, gives ds)

    unfoldable pub prepare_on_conn_locked : Stmt → ℕ → ℕ → M env (Stmt × Answer)
    unfolding prepare_locked added
    prepare_on_conn_locked s ctx dc = do
      answer ← prepare_locked dc ctx s.cg s.query
      added s dc answer

    module _ (others : World env → World env) (fuel : ℕ) (g : Grabber env) where
      unfoldable pub with_prepared : ℕ → Stmt × Answer → M env (Stmt × Found)
      with_prepared dc (s, fails e) = release_conn fuel dc (some e) >> pure (s, missed e)
      with_prepared dc (s, gives ds) = pure (s, found dc (some ds))

      unfoldable pub on_idle : ℕ → Stmt → ℕ → Option ℕ → M env (Stmt × Found)
      unfolding with_prepared
      on_idle ctx s dc (some ds) = pure (s, found dc (some ds))
      on_idle ctx s dc none = do
        lock_conn dc
        r ← prepare_on_conn_locked s ctx dc
        unlock_conn dc
        with_prepared dc r

      unfoldable pub from_pool : ℕ → Stmt → Option ℕ → Option Err → M env (Stmt × Found)
      unfolding on_idle
      from_pool ctx s c (some e) = pure (s, missed e)
      from_pool ctx s none none = panic nil_pointer
      from_pool ctx s (some dc) none = on_idle ctx s dc (stmt_on s.css dc)

      grabbed : Stmt → Option ℕ → Option Err → M env (Stmt × Found)
      grabbed s c (some e) = pure (s, missed e)
      grabbed s none none = panic nil_pointer
      grabbed s (some dc) none = pure (s, found dc s.cgds)

      -- `connStmt`.
      unfoldable pub conn_stmt : ℕ → ConnReuseStrategy → Stmt → M env (Stmt × Found)
      unfolding from_pool grabbed
      conn_stmt ctx strategy s = elim s.sticky_err [
        | some e ↦ pure (s, missed e)
        | none ↦
            if s.closed
            then pure (s, missed stmt_closed)
            else if s.cg
            then (do r ← g.grab ctx; grabbed s r.conn r.err)
            else (do
              s' ← remove_closed_stmt_locked s
              r ← conn others fuel ctx strategy s'.db
              from_pool ctx s' r.conn r.err)
      ]

  -- `finalClose`.
  unfoldable pub final_close_stmt : Stmt → M env (Stmt × Option Err)
  final_close_stmt s = do
    for_each (λ v. note_unused_driver_statement s.db v.dc v.ds >> remove_open_stmt v.dc v.ds) s.css
    pure (record s { css = [] }, none)
