-- ===== src/Statements/Ends.antt =====
-- Statements that are closed, and the driver's statement on the connection that a call gets.
use memsql_conn_pool.Base.{
  ℕ, suc, ◌≡◌, refl, sym, ◌==◌, Bool, true, false, Option, none, some, List, subst, Bool-cases, inl,
  inr,
}
use memsql_conn_pool.Arguments.{Arg, ArgDriver}
use memsql_conn_pool.Deps.{Closer, final_close_of, duplicate, remove_dep}
use memsql_conn_pool.Conn.{close_stmt}
use memsql_conn_pool.Pool.Acquire.{ConnReuseStrategy}
use memsql_conn_pool.Pool.Retry.{Tried}
use memsql_conn_pool.Runtime.{
  Env, Err, stmt_closed, World, Outcome, ok, panics, blocks, no_fuel, M, ◌>>=◌, stmt_node, pure,
  for_each,
}
use memsql_conn_pool.Statements.{Stmt, Grabber, PrepareDriver, missed, conn_stmt, final_close_stmt}
use memsql_conn_pool.Statements.Calls.{
  CallDriver, exec_work, query_work, exec_stmt_context, query_stmt_context, stmt_attempts, worked,
  missed_or, close_prepared, closed_grabbed, run_stmt_closer,
}

-- What holds of a result, where there is one.
abbrev IfOk : {env : Env} {A : Type 0} → Outcome env A → (A → Type 0) → Type 0
IfOk (ok a w) P = P a
IfOk _ P = Unit

IfOk->>= :
    {env : Env} {A B : Type 0} (P : B → Type 0) (m : M env A) (f : A → M env B) (w : World env)
    → ((a : A) (w' : World env) → IfOk (f a w') P)
    → IfOk ((m >>= f) w) P
IfOk->>= P m f w k = by_outcome (m w) refl
  where
    by_outcome : (o : Outcome _ _) → m w ≡ o → IfOk ((m >>= f) w) P
    by_outcome (ok a w') e = rw (e, ◌>>=◌) (k a w')
    by_outcome (panics p) e = rw (e, ◌>>=◌) tt
    by_outcome (blocks b) e = rw (e, ◌>>=◌) tt
    by_outcome no_fuel e = rw (e, ◌>>=◌) tt

-- A statement that is closed, without an error from its making.
abbrev pub IsClosed : Stmt → Type 0
IsClosed s = (s.sticky_err ≡ none) × (s.closed ≡ true)

module _ {env : Env} (other : ℕ → M env (Option Err)) (self : ℕ) where
  run_stmt_closer-IsClosed :
      (s : Stmt) (c : Closer) (w : World env)
      → IsClosed s
      → IfOk (run_stmt_closer other self s c w) (λ r. IsClosed r.0)
  unfolding run_stmt_closer final_close_stmt
  run_stmt_closer-IsClosed s (final_close_of (stmt_node n)) w h = elim (Bool-cases (n == self)) [
    | inl e ↦ rw e (IfOk->>= (λ r. IsClosed r.0) (for_each _ s.css) _ w (λ _ w'. h))
    | inr e ↦ rw e (IfOk->>= (λ r. IsClosed r.0) (other n) _ w (λ _ w'. h))
  ]
  run_stmt_closer-IsClosed s duplicate w h = h
  run_stmt_closer-IsClosed s c w h = h

  closed_grabbed-IsClosed :
      (s : Stmt) (parent txds : Option ℕ) (w : World env)
      → IsClosed s
      → IfOk (closed_grabbed other self s parent txds w) (λ r. IsClosed r.0)
  unfolding closed_grabbed
  closed_grabbed-IsClosed s (some p) txds w h =
      IfOk->>= (λ r. IsClosed r.0) (remove_dep s.db (stmt_node p) (stmt_node self))
        (run_stmt_closer other self s) w (λ c w'. run_stmt_closer-IsClosed s c w' h)
  closed_grabbed-IsClosed s none none w h = tt
  closed_grabbed-IsClosed s none (some ds) w h =
      IfOk->>= (λ r. IsClosed r.0) (close_stmt ds) (λ e. pure (s, e)) w (λ _ w'. h)

  -- `Close` leaves a statement that is closed, if it returns.
  close_prepared-IsClosed :
      (s : Stmt) (w : World env)
      → s.sticky_err ≡ none
      → IfOk (close_prepared other self s w) (λ r. IsClosed r.0)
  unfolding close_prepared
  close_prepared-IsClosed s w fresh =
      subst (λ x. IfOk (close_prepared other self x w) (λ r. IsClosed r.0))
        (λ i. record s { sticky_err = sym fresh i }) (by_flags s.closed s.cg)
    where
      by_flags :
          (closed grabs : Bool)
          → IfOk
              (close_prepared other self
                (record s { sticky_err = none; closed = closed; cg = grabs })
                w)
              (λ r. IsClosed r.0)
      by_flags true grabs = (refl, refl)
      by_flags false true =
          closed_grabbed-IsClosed
            (record s { sticky_err = none; closed = true; cgds = none; cg = true }) s.parent_stmt
            s.cgds w (refl, refl)
      by_flags false false =
          let s' : Stmt = record s { sticky_err = none; closed = true; cgds = none; cg = false } in
          IfOk->>= (λ r. IsClosed r.0) (remove_dep s.db (stmt_node self) (stmt_node self))
            (run_stmt_closer other self s') w
            (λ c w'. run_stmt_closer-IsClosed s' c w' (refl, refl))

as_closed : (s : Stmt) → IsClosed s → record s { sticky_err = none; closed = true } ≡ s
as_closed s (fresh, closed) i = record s { sticky_err = sym fresh i; closed = sym closed i }

again :
    {env : Env} (other : ℕ → M env (Option Err)) (self : ℕ) (s : Stmt) (w : World env)
    → IsClosed s
    → close_prepared other self s w ≡ ok (s, none) w
unfolding close_prepared
again other self s w h =
    subst (λ x. close_prepared other self x w ≡ ok (x, none) w) (as_closed s h) refl

module _ {env : Env} (p : PrepareDriver) (others : World env → World env) (fuel : ℕ)
    (g : Grabber env) where
  conn_stmt-closed :
      (ctx : ℕ) (strategy : ConnReuseStrategy) (s : Stmt) (w : World env)
      → IsClosed s
      → conn_stmt p others fuel g ctx strategy s w ≡ ok (s, missed stmt_closed) w
  unfolding conn_stmt
  conn_stmt-closed ctx strategy s w h =
      subst (λ x. conn_stmt p others fuel g ctx strategy x w ≡ ok (x, missed stmt_closed) w)
        (as_closed s h) refl

  stmt_attempts-closed :
      {A : Type 0} (work : Stmt → ℕ → Option ℕ → M env (Tried A)) (ctx n : ℕ) (s : Stmt)
      (w : World env)
      → IsClosed s
      → stmt_attempts p others fuel g work ctx (suc n) s w
        ≡ ok (s, record { value = none; err = some stmt_closed }) w
  unfolding stmt_attempts worked missed_or
  stmt_attempts-closed work ctx n s w h = rw (conn_stmt-closed ctx _ s w h, ◌>>=◌) refl

  -- After `Close` of a statement has returned, whatever became of the error, ExecContext and
  -- QueryContext refuse with the error of a closed statement and a second Close does nothing,
  -- none of which reaches the pool or the driver; if the making of the statement left no error.
  pub close_prepared-refuses :
      {V : Type 0} (d : CallDriver V) (args_of : ℕ → ArgDriver V) (other : ℕ → M env (Option Err))
      (self rows ctx : ℕ) (args : List (Arg V)) (s s' : Stmt) (err : Option Err)
      (w w' w'' : World env)
      → s.sticky_err ≡ none
      → close_prepared other self s w ≡ ok (s', err) w'
      → (exec_stmt_context p others fuel g d args_of ctx args s' w''
          ≡ ok (s', record { value = none; err = some stmt_closed }) w'')
        × (query_stmt_context p others fuel g d args_of self rows ctx args s' w''
            ≡ ok (s', record { value = none; err = some stmt_closed }) w'')
        × (close_prepared other self s' w'' ≡ ok (s', none) w'')
  unfolding exec_stmt_context query_stmt_context
  close_prepared-refuses d args_of other self rows ctx args s s' err w w' w'' fresh e =
      let closed : IsClosed s' =
        subst (λ o. IfOk o (λ r. IsClosed r.0)) e (close_prepared-IsClosed other self s w fresh) in
      let close_twice : close_prepared other self s' w'' ≡ ok (s', none) w'' =
        again other self s' w'' closed in
      (
        stmt_attempts-closed (exec_work p others fuel g d args_of ctx args) ctx 2 s' w'' closed,
        stmt_attempts-closed (query_work p others fuel g d args_of self rows ctx args) ctx 2 s' w''
            closed,
        close_twice,
      )
