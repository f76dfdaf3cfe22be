-- ===== src/Transaction/Frees.antt =====
-- The work of a call on a transaction gives up `closemu` by the release that it is given, once, or
-- keeps it: transaction.go, with `execDC`, `queryDC` and `prepareDC`.
use memsql_conn_pool.Base.{
  ℕ, ◌+◌, ◌≡◌, refl, sym, ap, ◌∙◌, if◌then◌else◌, Bool, true, false, Option, none, some, List,
  arith,
}
use memsql_conn_pool.Arguments.{Arg}
use memsql_conn_pool.Pool.Retry.{Tried}
use memsql_conn_pool.Rows.{Rows}
use memsql_conn_pool.Runtime.{
  Env, Err, World, Bytes, Keeps, Answer, gives, fails, ◌>>◌, lock_conn, unlock_conn, ok, M, ◌>>=◌,
  pure, >>=-elim, ok-injective,
}
use memsql_conn_pool.Statements.{Stmt, PrepareDriver, prepare_locked}
use memsql_conn_pool.Statements.Calls.{answer_err}
use memsql_conn_pool.Transaction.Kept.{
  closemu_of, lock_conn-KeepsHolders, unlock_conn-KeepsHolders, prepare_locked-Keeps,
  direct_call-Keeps, or_prepared-Keeps, query_dc-Keeps,
}
use memsql_conn_pool.Statements.Direct.{
  DirectDriver, exec_dc, query_dc, prepare_dc, direct_call, or_prepared, release_failed, made_stmt,
}
use memsql_conn_pool.Statements.Released.{keep, query_dc-released}
use memsql_conn_pool.Transaction.KeptReuse.{reuse_stmt-Keeps}
use memsql_conn_pool.Transaction.Queries.{closemu_r_unlock_release}
use memsql_conn_pool.Transaction.Reuse.{reuse_stmt}

abbrev pub keeps_nothing : {A : Type 0} → Tried A → Bool
keeps_nothing r = false

-- Rows that are there hold `closemu`.
abbrev pub keeps_rows : Tried Rows → Bool
keeps_rows r = elim r.err [ none ↦ true | some e ↦ false ]

module _ {env : Env} where
  -- The work gives up `closemu` once, unless it keeps it.
  abbrev pub Frees :
      {A : Type 0}
      → (Tried A → Bool)
      → ((Option Err → M env (Unit {0})) → ℕ → M env (Tried A))
      → Type 0
  Frees {A} keeps work =
      (dc : ℕ) (w : World env) (r : Tried A) (w' : World env)
      → work closemu_r_unlock_release dc w ≡ ok r w'
      → w'.closemu + (if keeps r then 0 else 1) ≡ w.closemu

  unlock-Frees :
      (e : Option Err) (w : World env) {u : Unit {0}} {w' : World env}
      → closemu_r_unlock_release e w ≡ ok u w'
      → w'.closemu + 1 ≡ w.closemu
  unfolding closemu_r_unlock_release
  unlock-Frees e w h = ground arith

  module _ {V : Type 0} (p : PrepareDriver) (d : DirectDriver V) (ctx : ℕ) (query : Bytes)
      (args : List (Arg V)) where
    pub exec_dc-Frees : Frees keeps_nothing (λ free dc. exec_dc p d ctx dc query args free)
    unfolding exec_dc
    exec_dc-Frees dc w r w' h =
        >>=-elim (direct_call p d ctx dc query args (w.conns dc).ci) _ w h λ x w₁ e₁ h₁.
          >>=-elim (or_prepared p d ctx dc query args (w.conns dc).ci x) _ w₁ h₁ λ y w₂ e₂ h₂.
            >>=-elim (closemu_r_unlock_release (answer_err y)) _ w₂ h₂ λ u w₃ e₃ h₃.
              let same : w'.closemu ≡ w₃.closemu = ap (λ v. v.closemu) (sym (ok-injective h₃).1) in
              omega (
                arith,
                same,
                unlock-Frees (answer_err y) w₂ e₃,
                or_prepared-Keeps p d ctx dc query args (w.conns dc).ci x w₁ y w₂ e₂,
                direct_call-Keeps p d ctx dc query args (w.conns dc).ci w x w₁ e₁,
              )

    failed-Frees :
        (r : Tried Rows) (w : World env) {r' : Tried Rows} {w' : World env}
        → release_failed closemu_r_unlock_release r w ≡ ok r' w'
        → w'.closemu + (if keeps_rows r' then 0 else 1) ≡ w.closemu
    failed-Frees r w {r'} {w'} h = by_err r.err refl
      where
        by_err :
            (e : Option Err) → r.err ≡ e → w'.closemu + (if keeps_rows r' then 0 else 1) ≡ w.closemu
        by_err none h' =
            let (same, world) = ok-injective (rw h' at h) in
            rw (ap (λ x. x.err) (sym same)) (omega (arith, ap (λ v. v.closemu) world))
        by_err (some e) h' =
            >>=-elim (closemu_r_unlock_release (some e))
              (λ _. pure (record { value = r.value; err = some e })) w (rw h' at h)
              λ u w₁ e₁ h₁.
                let (same, world) = ok-injective h₁ in
                rw (ap (λ x. x.err) (sym same))
                  (omega (arith, ap (λ v. v.closemu) world, unlock-Frees (some e) w e₁))

    pub query_dc-Frees : Frees keeps_rows (λ free dc. query_dc p d ctx dc query args free)
    query_dc-Frees dc w r w' h =
        >>=-elim (query_dc p d ctx dc query args keep) (release_failed closemu_r_unlock_release) w
          (sym (query_dc-released p d ctx dc query args closemu_r_unlock_release w) ∙ h)
          λ x w₁ e₁ h₁. failed-Frees x w₁ h₁ ∙ query_dc-Keeps p d ctx dc query args w x w₁ e₁

  made_stmt-Keeps :
      (p : PrepareDriver) (ctx dc : ℕ) (query : Bytes) (self db : ℕ) (x : Answer)
      → Keeps closemu_of (made_stmt {env = env} p ctx dc query self db true x)
  unfolding made_stmt
  made_stmt-Keeps p ctx dc query self db (fails e) w a w' h = ap closemu_of (sym (ok-injective h).1)
  made_stmt-Keeps p ctx dc query self db (gives ds) w a w' h =
      ap closemu_of (sym (ok-injective h).1)

  pub prepare_dc-Frees :
      (p : PrepareDriver) (ctx self db : ℕ) (query : Bytes)
      → Frees keeps_nothing (λ free dc. prepare_dc p ctx dc query self db true free)
  unfolding prepare_dc
  prepare_dc-Frees p ctx self db query dc w r w' h = >>=-elim (lock_conn dc) _ w h λ u w₁ e₁ h₁.
      >>=-elim (prepare_locked p dc ctx true query) _ w₁ h₁ λ x w₂ e₂ h₂.
        >>=-elim (unlock_conn dc) _ w₂ h₂ λ u' w₃ e₃ h₃.
          >>=-elim (made_stmt p ctx dc query self db true x) _ w₃ h₃ λ s w₄ e₄ h₄.
            >>=-elim (closemu_r_unlock_release (answer_err x)) _ w₄ h₄ λ u'' w₅ e₅ h₅. omega (
              arith,
              ap closemu_of (ok-injective h₅).1,
              unlock-Frees (answer_err x) w₄ e₅,
              made_stmt-Keeps p ctx dc query self db x w₃ s w₄ e₄,
              unlock_conn-KeepsHolders dc w₂ u' w₃ e₃,
              prepare_locked-Keeps p dc ctx true query w₁ x w₂ e₂,
              lock_conn-KeepsHolders dc w u w₁ e₁,
            )

  pub stmt-Frees :
      (p : PrepareDriver) (ctx db self parent : ℕ) (s : Stmt)
      → Frees keeps_nothing (λ free dc. reuse_stmt p ctx dc db self parent s >>= λ u.
          free none >> pure (record { value = some u; err = none }))
  stmt-Frees p ctx db self parent s dc w r w' h =
      >>=-elim (reuse_stmt p ctx dc db self parent s)
        (λ u. closemu_r_unlock_release none >> pure (record { value = some u; err = none })) w h
        λ u w₁ e₁ h₁.
          >>=-elim (closemu_r_unlock_release none)
            (λ _. pure (record { value = some u; err = none })) w₁ h₁
            λ u' w₂ e₂ h₂. omega (
              arith,
              ap closemu_of (ok-injective h₂).1,
              unlock-Frees none w₁ e₂,
              reuse_stmt-Keeps p ctx dc db self parent s w u w₁ e₁,
            )
