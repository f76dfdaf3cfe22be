-- ===== src/SingleConn/Done.antt =====
-- Single connections that are done.
use memsql_conn_pool.Base.{
  ℕ, ◌≡◌, refl, sym, subst, Bool, true, false, Option, none, some, List, [], ◌∷◌, replicate, length,
}
use memsql_conn_pool.Arguments.{Arg}
use memsql_conn_pool.Pool.Put.{release_conn}
use memsql_conn_pool.Pool.Retry.{Tried}
use memsql_conn_pool.Runtime.{
  Outcome, panics, blocks, no_fuel, Env, Err, Bytes, conn_done, World, Conn, ok, M, ◌>>=◌, ◌>>◌,
  pure,
}
use memsql_conn_pool.SingleConn.{
  locked, released, close_single, grabbing, exec_single, query_single, prepare_single, begin_single,
  ping_single, raw,
}
use memsql_conn_pool.Statements.{PrepareDriver}
use memsql_conn_pool.Statements.Direct.{DirectDriver}
use memsql_conn_pool.Transaction.{TxDriver, TxOptions}

-- The calls of a connection, with what they take. A function that is given to Raw gets the driver's
-- connection.
pub data SingleCall (env : Env) (V : Type 0) : Type 0 where
  execs queries : ℕ → Bytes → List (Arg V) → SingleCall env V
  prepares : ℕ → ℕ → ℕ → Bytes → SingleCall env V
  begins : ℕ → Option TxOptions → SingleCall env V
  pings closes : SingleCall env V
  raws : (Option ℕ → M env (Option Err)) → SingleCall env V

-- What `close` leaves.
abbrev pub ended : Conn → Conn
ended c = record c { done = true; readers = 0; dc = none; db = none }

module _ {env : Env} {V : Type 0} (fuel : ℕ) (others : Conn → Conn) (pd : PrepareDriver)
    (d : DirectDriver V) (td : TxDriver) (is_pinger : ℕ → Bool) (ping : ℕ → ℕ → Option Err) where
  err_of : {A : Type 0} → M env (Tried A × Conn) → M env (Option Err × Conn)
  err_of m = m >>= λ r. pure (r.0.err, r.1)

  call_err : SingleCall env V → Conn → M env (Option Err × Conn)
  unfolding err_of
  call_err (execs ctx query args) c = err_of (exec_single fuel others pd d ctx query args c)
  call_err (queries ctx query args) c = err_of (query_single fuel others pd d ctx query args c)
  call_err (prepares self db ctx query) c =
      err_of (prepare_single fuel others pd self db ctx query c)
  call_err (begins ctx opts) c = err_of (begin_single fuel others td ctx opts c)
  call_err pings c = err_of (ping_single fuel others is_pinger ping c)
  call_err (raws f) c = err_of (raw fuel others f c)
  call_err closes c = close_single fuel others none c

  -- The errors of calls, one after the other.
  unfoldable pub call_errs : List (SingleCall env V) → Conn → M env (List (Option Err) × Conn)
  unfolding call_err
  call_errs [] c = pure ([], c)
  call_errs (x ∷ xs) c = do r ← call_err x c; rs ← call_errs xs r.1; pure (r.0 ∷ rs.0, rs.1)

  call_errs-done :
      (xs : List (SingleCall env V)) (c : Conn) (w : World env)
      → c.done ≡ true
      → call_errs xs c w ≡ ok (replicate (length xs) (some conn_done), c) w
  unfolding call_errs call_err exec_single query_single prepare_single begin_single ping_single raw
      grabbing close_single
  call_errs-done xs c w h =
      subst (λ x. call_errs xs x w ≡ ok (replicate (length xs) (some conn_done), x) w)
        (λ i. record c { done = sym h i }) (all_refused xs)
    where
      c' : Conn
      c' = record c { done = true }

      all_refused :
          (ys : List (SingleCall env V))
          → call_errs ys c' w ≡ ok (replicate (length ys) (some conn_done), c') w
      all_refused [] = refl
      all_refused (execs ctx query args ∷ ys) = rw (all_refused ys, ◌>>=◌) refl
      all_refused (queries ctx query args ∷ ys) = rw (all_refused ys, ◌>>=◌) refl
      all_refused (prepares self db ctx query ∷ ys) = rw (all_refused ys, ◌>>=◌) refl
      all_refused (begins ctx opts ∷ ys) = rw (all_refused ys, ◌>>=◌) refl
      all_refused (pings ∷ ys) = rw (all_refused ys, ◌>>=◌) refl
      all_refused (raws f ∷ ys) = rw (all_refused ys, ◌>>=◌) refl
      all_refused (closes ∷ ys) = rw (all_refused ys, ◌>>=◌) refl

  close_single-releases :
      (err : Option Err) (c : Conn) (dc : ℕ) (w : World env)
      → c.done ≡ false
      → ((x : Conn) → others x ≡ record x { readers = 0 })
      → c.dc ≡ some dc
      → close_single fuel others err c w ≡ (release_conn fuel dc err >> pure (err, ended c)) w
  unfolding close_single locked released
  close_single-releases err c dc w still_open drained has_dc =
      rw (still_open, drained (record c { done = true }), has_dc) refl

  -- The calls after the first.
  abbrev others_refused :
      List (SingleCall env V) → Option Err × Conn → M env (List (Option Err) × Conn)
  others_refused xs r = call_errs xs r.1 >>= λ rs. pure (r.0 ∷ rs.0, rs.1)

  then_refused :
      (m : M env (Unit {0})) (e : Option Err) (c : Conn) (xs : List (SingleCall env V))
      (w : World env)
      → c.done ≡ true
      → ((m >> pure (e, c)) >>= others_refused xs) w
        ≡ (m >> pure (e ∷ replicate (length xs) (some conn_done), c)) w
  then_refused m e c xs w h = by_outcome (m w) refl
    where
      by_outcome :
          (o : Outcome env (Unit {0}))
          → m w ≡ o
          → ((m >> pure (e, c)) >>= others_refused xs) w
            ≡ (m >> pure (e ∷ replicate (length xs) (some conn_done), c)) w
      by_outcome (ok a w') eq = rw (eq, ◌>>=◌) (rw (call_errs-done xs c w' h, ◌>>=◌) refl)
      by_outcome (panics p) eq = rw (eq, ◌>>=◌) refl
      by_outcome (blocks b) eq = rw (eq, ◌>>=◌) refl
      by_outcome no_fuel eq = rw (eq, ◌>>=◌) refl

  -- `Close` of an open single connection, whose running calls end, gives its connection back to
  -- the pool, and every call of ExecContext, QueryContext, PrepareContext, BeginTx, PingContext,
  -- Raw and Close after it, in any order, returns ErrConnDone and touches nothing.
  pub close_single-once :
      (xs : List (SingleCall env V)) (c : Conn) (dc : ℕ) (w : World env)
      → c.done ≡ false
      → ((x : Conn) → others x ≡ record x { readers = 0 })
      → c.dc ≡ some dc
      → call_errs (closes ∷ xs) c w
        ≡ (release_conn fuel dc none
              >> pure (none ∷ replicate (length xs) (some conn_done), ended c))
            w
  unfolding call_errs call_err
  close_single-once xs c dc w still_open drained has_dc =
      rw (close_single-releases none c dc w still_open drained has_dc, ◌>>=◌)
        (then_refused (release_conn fuel dc none) none (ended c) xs w refl)
