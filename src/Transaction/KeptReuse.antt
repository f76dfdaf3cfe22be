-- ===== src/Transaction/KeptReuse.antt =====
-- What `StmtContext` of transaction.go leaves as it is: the `closemu` of the transaction.
use memsql_conn_pool.Base.{
  ℕ, ◌≡◌, sym, ap, ◌∙◌, ◌==◌, ◌||◌, not, is_some, if◌then◌else◌, Bool, true, false, Option, none,
  some, [],
}
use memsql_conn_pool.Runtime.{
  Env, World, Keeps, Answer, gives, fails, ◌>>◌, lock_conn, unlock_conn, ok, M, ◌>>=◌, pure,
  >>=-elim, ok-injective, stmt_node, other_database,
}
use memsql_conn_pool.Statements.{
  Stmt, PrepareDriver, prepare_locked, prepare_on_conn_locked, added, new_stmt, ctx_driver_prepare,
  remove_closed_stmt_locked, stmt_on,
}
use memsql_conn_pool.Statements.Calls.{answer_value}
use memsql_conn_pool.Transaction.Kept.{
  closemu_of, lock_conn-KeepsHolders, unlock_conn-KeepsHolders, prepare_locked-Keeps,
  ctx_driver_prepare-Keeps, new_stmt-Keeps, add_dep-Keeps, remove_closed_stmt_locked-Keeps,
}
use memsql_conn_pool.Transaction.Reuse.{
  Reused, reuse_stmt, si_of, prepare_again, known_or_prepared, prepared_here, depend, in_tx,
  sticky_stmt,
}

module _ {env : Env} where
  module _ (p : PrepareDriver) (ctx dc : ℕ) where
    si_of-Keeps : (x : Stmt × Answer) → Keeps closemu_of (si_of {env = env} p ctx dc x)
    unfolding si_of
    si_of-Keeps (s, fails e) w a w' h = ap closemu_of (sym (ok-injective h).1)
    si_of-Keeps (s, gives ds) w a w' h = ap closemu_of (sym (ok-injective h).1)

    prepare_again-Keeps : (s : Stmt) → Keeps closemu_of (prepare_again {env = env} p ctx dc s)
    unfolding prepare_again
    prepare_again-Keeps s w a w' h = >>=-elim (lock_conn dc) _ w h λ u w₁ e₁ h₁.
        >>=-elim (ctx_driver_prepare p ctx (w₁.conns dc).ci s.query) _ w₁ h₁ λ x w₂ e₂ h₂.
          >>=-elim (unlock_conn dc) _ w₂ h₂ λ u' w₃ e₃ h₃.
            ap closemu_of (sym (ok-injective h₃).1)
            ∙ unlock_conn-KeepsHolders dc w₂ u' w₃ e₃
            ∙ ctx_driver_prepare-Keeps p ctx (w₁.conns dc).ci s.query w₁ x w₂ e₂
            ∙ lock_conn-KeepsHolders dc w u w₁ e₁

    prepare_on_conn_locked-Keeps :
        (s : Stmt) → Keeps closemu_of (prepare_on_conn_locked {env = env} p s ctx dc)
    unfolding prepare_on_conn_locked added
    prepare_on_conn_locked-Keeps s w a w' h =
        >>=-elim (prepare_locked p dc ctx s.cg s.query) _ w h
          λ x w₁ e₁ h₁. by_answer x w₁ h₁ ∙ prepare_locked-Keeps p dc ctx s.cg s.query w x w₁ e₁
      where
        by_answer :
            (x : Answer) (w₁ : World env) → added p s dc x w₁ ≡ ok a w' → w'.closemu ≡ w₁.closemu
        by_answer (fails e) w₁ h₁ = ap closemu_of (sym (ok-injective h₁).1)
        by_answer (gives ds) w₁ h₁ = ap closemu_of (sym (ok-injective h₁).1)

    known_or_prepared-Keeps :
        (s : Stmt) (x : Option ℕ) → Keeps closemu_of (known_or_prepared {env = env} p ctx dc s x)
    unfolding known_or_prepared
    known_or_prepared-Keeps s (some ds) w a w' h = si_of-Keeps (s, gives ds) w a w' h
    known_or_prepared-Keeps s none w a w' h = >>=-elim (lock_conn dc) _ w h λ u w₁ e₁ h₁.
        >>=-elim (prepare_on_conn_locked p s ctx dc) _ w₁ h₁ λ x w₂ e₂ h₂.
          >>=-elim (unlock_conn dc) _ w₂ h₂ λ u' w₃ e₃ h₃.
            si_of-Keeps x w₃ a w' h₃
            ∙ unlock_conn-KeepsHolders dc w₂ u' w₃ e₃
            ∙ prepare_on_conn_locked-Keeps s w₁ x w₂ e₂
            ∙ lock_conn-KeepsHolders dc w u w₁ e₁

    prepared_here-Keeps : (s : Stmt) → Keeps closemu_of (prepared_here {env = env} p ctx dc s)
    unfolding prepared_here
    prepared_here-Keeps s w a w' h =
        >>=-elim (remove_closed_stmt_locked s)
          (λ s'. known_or_prepared p ctx dc s' (stmt_on s'.css dc)) w h
          λ s' w₁ e₁ h₁.
            known_or_prepared-Keeps s' (stmt_on s'.css dc) w₁ a w' h₁
            ∙ remove_closed_stmt_locked-Keeps s w s' w₁ e₁

    depend-Keeps :
        (self db : ℕ) (x : Option ℕ) → Keeps closemu_of (depend {env = env} p ctx dc self db x)
    depend-Keeps self db none w a w' h = ap closemu_of (sym (ok-injective h).1)
    depend-Keeps self db (some parent) w a w' h =
        add_dep-Keeps db (stmt_node parent) (stmt_node self) w a w' h

    in_tx-Keeps :
        (self : ℕ) (parent : Option ℕ) (x : Stmt × Answer)
        → Keeps closemu_of (in_tx {env = env} p ctx dc self parent x)
    unfolding in_tx
    in_tx-Keeps self parent (s, fails e) w a w' h = ap closemu_of (sym (ok-injective h).1)
    in_tx-Keeps self parent (s, gives si) w a w' h =
        >>=-elim (new_stmt p dc true (gives si)) then_depend w h λ ds w₁ e₁ h₁.
          >>=-elim (depend p ctx dc self s.db parent) (λ _. pure (made ds)) w₁ h₁
            λ u w₂ e₂ h₂.
              ap closemu_of (sym (ok-injective h₂).1)
              ∙ depend-Keeps self s.db parent w₁ u w₂ e₂
              ∙ new_stmt-Keeps p dc true (gives si) w ds w₁ e₁
      where
        made : Answer → Reused
        made ds = record {
          made = record {
            db = s.db;
            query = s.query;
            sticky_err = none;
            cg = true;
            cgds = answer_value ds;
            parent_stmt = parent;
            closed = false;
            css = [];
            last_num_closed = 0;
          };
          source = s;
        }

        then_depend : Answer → M env Reused
        then_depend ds = depend p ctx dc self s.db parent >> pure (made ds)

    pub reuse_stmt-Keeps :
        (db self parent : ℕ) (s : Stmt)
        → Keeps closemu_of (reuse_stmt {env = env} p ctx dc db self parent s)
    unfolding reuse_stmt
    reuse_stmt-Keeps db self parent s =
        by_case (not (db == s.db) || is_some s.sticky_err) (s.closed || s.cg)
      where
        refused : M env Reused
        refused = pure (record { made = sticky_stmt other_database; source = s })

        again : M env Reused
        again = prepare_again p ctx dc s >>= λ r. in_tx p ctx dc self none r

        here : M env Reused
        here = prepared_here p ctx dc s >>= λ r. in_tx p ctx dc self (some parent) r

        by_case : (b c : Bool) → Keeps closemu_of (if b then refused else if c then again else here)
        by_case true c w a w' h = ap closemu_of (sym (ok-injective h).1)
        by_case false true w a w' h =
            >>=-elim (prepare_again p ctx dc s) _ w h
              λ x w₁ e₁ h₁. in_tx-Keeps self none x w₁ a w' h₁ ∙ prepare_again-Keeps s w x w₁ e₁
        by_case false false w a w' h = >>=-elim (prepared_here p ctx dc s) _ w h λ x w₁ e₁ h₁.
            in_tx-Keeps self (some parent) x w₁ a w' h₁ ∙ prepared_here-Keeps s w x w₁ e₁
