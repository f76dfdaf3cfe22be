-- ===== src/Transaction/Kept.antt =====
-- What leaves the `closemu` of a transaction as it is: the driver's calls and the statements, in
-- conn_pool_exec.go, conn_pool_query.go and conn_pool_prepare.go.
use memsql_conn_pool.Base.{
  ℕ, Bool, true, false, Option, none, some, List, arith, if◌then◌else◌, ◌∙◌, ap, sym,
}
use memsql_conn_pool.Arguments.{Arg, ArgsResult, driver_args_conn_locked}
use memsql_conn_pool.Arguments.Rounds.{is_skip}
use memsql_conn_pool.Conn.{close_stmt}
use memsql_conn_pool.Deps.{add_dep}
use memsql_conn_pool.Runtime.{
  Env, World, Bytes, M, Answer, gives, fails, Keeps, pure-Keeps, ok-injective, >>=-elim, ◌>>=◌,
  ◌>>◌, pure, gets, lock_conn, unlock_conn,
}
use memsql_conn_pool.Statements.{
  Stmt, PrepareDriver, ctx_driver_prepare, prepare_locked, new_stmt, remove_closed_stmt_locked,
}
use memsql_conn_pool.Statements.Calls.{
  answer_err, CallDriver, from_statement, call_args, ctx_driver_call,
}
use memsql_conn_pool.Statements.Direct.{
  DirectDriver, direct_call, call_directly, prepare_unlocking, plain_stmt, run_prepared,
  or_prepared, rows_prepared, query_prepared, rows_directly, query_after, query_dc,
}
use memsql_conn_pool.Statements.Released.{keep}

module _ {env : Env} where
  abbrev pub closemu_of : World env → ℕ
  closemu_of w = w.closemu

  module _ {V : Type 0} (d : CallDriver V) where
    ctx_driver_call-Keeps :
        (ctx x : ℕ) (nvs : List _) → Keeps closemu_of (ctx_driver_call {env = env} d ctx x nvs)
    unfolding ctx_driver_call
    ctx_driver_call-Keeps ctx x nvs w a w' h = ground arith

    call_args-Keeps :
        (ctx x : ℕ) (r : ArgsResult V) → Keeps closemu_of (call_args {env = env} d ctx x r)
    unfolding call_args
    call_args-Keeps ctx x r w a w' h = ground arith

  close_stmt-Keeps : (ds : ℕ) → Keeps closemu_of (close_stmt {env = env} ds)
  unfolding close_stmt
  close_stmt-Keeps ds w a w' h = ground arith

  pub add_dep-Keeps : (p : ℕ) (x y : _) → Keeps closemu_of (add_dep {env = env} p x y)
  unfolding add_dep
  add_dep-Keeps p x y w a w' h = ground arith

  pub ctx_driver_prepare-Keeps :
      (p : PrepareDriver) (ctx : ℕ) (ci : Option ℕ) (q : Bytes)
      → Keeps closemu_of (ctx_driver_prepare {env = env} p ctx ci q)
  unfolding ctx_driver_prepare
  ctx_driver_prepare-Keeps p ctx ci q w a w' h = ground arith

  pub new_stmt-Keeps :
      (p : PrepareDriver) (dc : ℕ) (cg : Bool) (x : Answer)
      → Keeps closemu_of (new_stmt {env = env} p dc cg x)
  unfolding new_stmt
  new_stmt-Keeps p dc cg x w a w' h = ground arith

  pub remove_closed_stmt_locked-Keeps :
      (s : Stmt) → Keeps closemu_of (remove_closed_stmt_locked {env = env} s)
  unfolding remove_closed_stmt_locked
  remove_closed_stmt_locked-Keeps s w a w' h = ground arith

  pub lock_conn-KeepsHolders : (c : ℕ) → Keeps closemu_of (lock_conn {env = env} c)
  lock_conn-KeepsHolders c w a w' h = ground arith

  pub unlock_conn-KeepsHolders : (c : ℕ) → Keeps closemu_of (unlock_conn {env = env} c)
  unlock_conn-KeepsHolders c w a w' h = ground arith

  pub prepare_locked-Keeps :
      (p : PrepareDriver) (dc ctx : ℕ) (cg : Bool) (q : Bytes)
      → Keeps closemu_of (prepare_locked {env = env} p dc ctx cg q)
  unfolding prepare_locked
  prepare_locked-Keeps p dc ctx cg q w a w' h =
      >>=-elim (ctx_driver_prepare p ctx (w.conns dc).ci q) _ w h λ r w₁ e h₁.
        new_stmt-Keeps p dc cg r w₁ a w' h₁
        ∙ ctx_driver_prepare-Keeps p ctx (w.conns dc).ci q w r w₁ e

  -- A call under the lock of a connection.
  pub under_lock-Keeps :
      {A : Type 0} (c : ℕ) (m : M env A)
      → Keeps closemu_of m
      → Keeps closemu_of (lock_conn c >> (m >>= λ r. unlock_conn c >> pure r))
  under_lock-Keeps c m hm w a w' h = >>=-elim (lock_conn c) _ w h λ u w₁ e₁ h₁.
      >>=-elim m _ w₁ h₁ λ r w₂ e₂ h₂. >>=-elim (unlock_conn c) _ w₂ h₂ λ u' w₃ e₃ h₃.
        ap closemu_of (sym (ok-injective h₃).1)
        ∙ unlock_conn-KeepsHolders c w₂ u' w₃ e₃
        ∙ hm w₁ r w₂ e₂
        ∙ lock_conn-KeepsHolders c w u w₁ e₁

  module _ {V : Type 0} (pd : PrepareDriver) (d : DirectDriver V) (ctx dc : ℕ) (q : Bytes)
      (args : List (Arg V)) where
    plain_stmt-Keeps : (si : ℕ) → Keeps closemu_of (plain_stmt {env = env} pd d ctx dc q args si)
    unfolding plain_stmt
    plain_stmt-Keeps si w a w' h = ground arith

    from_statement-Keeps :
        (ds : ℕ)
        → Keeps closemu_of
            (from_statement {env = env} d.prepared_call d.stmt_args ctx (some ds) args)
    unfolding from_statement
    from_statement-Keeps ds w =
        under_lock-Keeps (w.stmts ds).locker
          (gets (λ w'. (w'.stmts ds).si) >>= λ si.
            call_args d.prepared_call ctx si (driver_args_conn_locked (d.stmt_args si) 4 args))
          (λ v. call_args-Keeps d.prepared_call ctx (v.stmts ds).si _ v) w

    pub direct_call-Keeps :
        (ci : Option ℕ) → Keeps closemu_of (direct_call {env = env} pd d ctx dc q args ci)
    unfolding direct_call call_directly
    direct_call-Keeps none = pure-Keeps closemu_of _
    direct_call-Keeps (some ci) = by_direct (d.direct ci)
      where
        by_direct :
            (x : Option (Bytes → CallDriver V))
            → Keeps closemu_of (call_directly {env = env} pd d ctx dc q args ci x)
        by_direct none = pure-Keeps closemu_of _
        by_direct (some call) =
            under_lock-Keeps dc _
              (call_args-Keeps (call q) ctx ci (driver_args_conn_locked (d.conn_args ci) 4 args))

    prepare_unlocking-Keeps :
        (ci : Option ℕ) → Keeps closemu_of (prepare_unlocking {env = env} pd d ctx dc q args ci)
    unfolding prepare_unlocking
    prepare_unlocking-Keeps ci = under_lock-Keeps dc _ (ctx_driver_prepare-Keeps pd ctx ci q)

    run_prepared-Keeps :
        (x : Answer) → Keeps closemu_of (run_prepared {env = env} pd d ctx dc q args x)
    unfolding run_prepared
    run_prepared-Keeps (fails e) w a w' h = pure-Keeps closemu_of _ w a w' h
    run_prepared-Keeps (gives si) w a w' h =
        >>=-elim (plain_stmt pd d ctx dc q args si) run w h λ ds w₁ e₁ h₁.
          >>=-elim (from_statement d.prepared_call d.stmt_args ctx (some ds) args) (closing ds) w₁
            h₁
            λ x w₂ e₂ h₂.
              >>=-elim (close_stmt ds) (λ _. pure x) w₂ h₂
                λ y w₃ e₃ h₃.
                  ap closemu_of (sym (ok-injective h₃).1)
                  ∙ close_stmt-Keeps ds w₂ y w₃ e₃
                  ∙ from_statement-Keeps ds w₁ x w₂ e₂
                  ∙ plain_stmt-Keeps si w ds w₁ e₁
      where
        closing : ℕ → Answer → M env Answer
        closing ds x = close_stmt ds >>= λ _. pure x

        run : ℕ → M env Answer
        run ds = from_statement d.prepared_call d.stmt_args ctx (some ds) args >>= closing ds

    pub or_prepared-Keeps :
        (ci : Option ℕ) (x : Answer)
        → Keeps closemu_of (or_prepared {env = env} pd d ctx dc q args ci x)
    unfolding or_prepared
    or_prepared-Keeps ci x = by_skip (is_skip (answer_err x))
      where
        by_skip :
            (b : Bool)
            → Keeps closemu_of (
                if b
                then (prepare_unlocking pd d ctx dc q args ci >>= run_prepared pd d ctx dc q args)
                else pure x)
        by_skip false w a w' h = pure-Keeps closemu_of x w a w' h
        by_skip true w a w' h =
            >>=-elim (prepare_unlocking pd d ctx dc q args ci) _ w h
              λ y w₁ e₁ h₁. run_prepared-Keeps y w₁ a w' h₁ ∙ prepare_unlocking-Keeps ci w y w₁ e₁

    rows_prepared-Keeps :
        (ds : ℕ) (x : Answer)
        → Keeps closemu_of (rows_prepared {env = env} pd d ctx dc q args keep ds x)
    unfolding rows_prepared
    rows_prepared-Keeps ds (gives r) w a w' h = pure-Keeps closemu_of _ w a w' h
    rows_prepared-Keeps ds (fails e) w a w' h =
        >>=-elim (close_stmt ds) _ w h
          λ y w₁ e₁ h₁. ap closemu_of (sym (ok-injective h₁).1) ∙ close_stmt-Keeps ds w y w₁ e₁

    query_prepared-Keeps :
        (x : Answer) → Keeps closemu_of (query_prepared {env = env} pd d ctx dc q args keep x)
    unfolding query_prepared
    query_prepared-Keeps (fails e) w a w' h = pure-Keeps closemu_of _ w a w' h
    query_prepared-Keeps (gives si) w a w' h =
        >>=-elim (plain_stmt pd d ctx dc q args si) _ w h λ ds w₁ e₁ h₁.
          >>=-elim (from_statement d.prepared_call d.stmt_args ctx (some ds) args) _ w₁ h₁
            λ x w₂ e₂ h₂.
              rows_prepared-Keeps ds x w₂ a w' h₂
              ∙ from_statement-Keeps ds w₁ x w₂ e₂
              ∙ plain_stmt-Keeps si w ds w₁ e₁

    rows_directly-Keeps :
        (x : Answer) → Keeps closemu_of (rows_directly {env = env} pd d ctx dc q args keep x)
    unfolding rows_directly
    rows_directly-Keeps (gives r) = pure-Keeps closemu_of _
    rows_directly-Keeps (fails e) = pure-Keeps closemu_of _

    query_after-Keeps :
        (ci : Option ℕ) (x : Answer)
        → Keeps closemu_of (query_after {env = env} pd d ctx dc q args keep ci x)
    unfolding query_after
    query_after-Keeps ci x = by_skip (is_skip (answer_err x))
      where
        by_skip :
            (b : Bool)
            → Keeps closemu_of (
                if b
                then (prepare_unlocking pd d ctx dc q args ci
                    >>= query_prepared pd d ctx dc q args keep)
                else rows_directly pd d ctx dc q args keep x)
        by_skip false w a w' h = rows_directly-Keeps x w a w' h
        by_skip true w a w' h =
            >>=-elim (prepare_unlocking pd d ctx dc q args ci) _ w h
              λ y w₁ e₁ h₁. query_prepared-Keeps y w₁ a w' h₁ ∙ prepare_unlocking-Keeps ci w y w₁ e₁

    pub query_dc-Keeps : Keeps closemu_of (query_dc {env = env} pd d ctx dc q args keep)
    unfolding query_dc
    query_dc-Keeps w a w' h =
        >>=-elim (direct_call pd d ctx dc q args (w.conns dc).ci) _ w h λ x w₁ e₁ h₁.
          query_after-Keeps (w.conns dc).ci x w₁ a w' h₁
          ∙ direct_call-Keeps (w.conns dc).ci w x w₁ e₁
