-- ===== src/Transaction/Done.antt =====
-- A transaction ends once.
use memsql_conn_pool.Base.{
  ==_refl, ℕ, suc, ◌≡◌, refl, ap, if◌then◌else◌, not, Bool, true, false, Option, none, some, List,
  [], ◌∷◌, length, replicate, arith,
}
use memsql_conn_pool.Transaction.{
  Tx, TxDriver, commit, rollback, await_done, expired, finish, close_with, close_conn, call_driver,
}
use memsql_conn_pool.Runtime.{
  Env, Err, tx_done, bad_conn, is_bad_conn, World, M, ok, ◌>>=◌, pure, Returns, Returns->>=,
  for_each, when,
}

-- The calls that end a transaction.
pub data Ending : Type 0 where
  commits rolls_back : Ending
  context_done : Ending

-- The transaction has ended with the error `e`, and has given its connection away.
abbrev pub Ended : {env : Env} → Option Err → (Option Err × Tx) → World env → Type 0
Ended e r w' =
    (r.0 ≡ e) × (r.1.done ≡ true) × (r.1.cancelled ≡ true) × (r.1.dc ≡ none) × (r.1.txi ≡ none)

module _ {env : Env} (driver : TxDriver) (close_prepared : ℕ → M env (Unit {0}))
    (release : Option Err → M env (Unit {0})) (others : Tx → Tx) where
  unfoldable pub call : Ending → Tx → M env (Option Err × Tx)
  call commits tx = commit driver close_prepared release others tx
  call rolls_back tx = rollback driver close_prepared release others false tx
  call context_done tx = await_done driver close_prepared release others tx

  -- The calls one after the other, with all their errors.
  unfoldable pub calls : List Ending → Tx → M env (List (Option Err) × Tx)
  unfolding call
  calls [] tx w = ok ([], tx) w
  calls (e ∷ es) tx w =
      (do (err, tx') ← call e tx; (errs, tx'') ← calls es tx'; pure (err ∷ errs, tx'')) w

  call-done :
      (e : Ending) (tx : Tx) (w : World env)
      → tx.done ≡ true
      → tx.cancelled ≡ true
      → call e tx w ≡ ok (some tx_done, tx) w
  unfolding call commit rollback await_done expired
  call-done commits tx w done cancelled = ground arith
  call-done rolls_back tx w done cancelled = ground arith
  call-done context_done tx w done cancelled = ground arith

  -- A transaction that has ended takes no call to the driver nor to the pool: each of any
  -- further calls of Commit, Rollback and awaitDone gives `ErrTxDone` and changes nothing.
  pub calls-done :
      (es : List Ending) (tx : Tx) (w : World env)
      → tx.done ≡ true
      → tx.cancelled ≡ true
      → calls es tx w ≡ ok (replicate (length es) (some tx_done), tx) w
  unfolding calls
  calls-done [] tx w done cancelled = refl
  calls-done (e ∷ es) tx w done cancelled =
      rw (call-done e tx w done cancelled, ◌>>=◌)
        (rw (calls-done es tx w done cancelled, ◌>>=◌) refl)

  -- `closePrepared` returns if closing each statement does.
  for_each-Returns :
      (ss : List ℕ) (v : World env)
      → ((s : ℕ) (u : World env) → Returns (close_prepared s u) λ _ _. Unit {0})
      → Returns (for_each close_prepared ss v) λ _ _. Unit {0}
  unfolding for_each
  for_each-Returns [] v closes = tt
  for_each-Returns (s ∷ ss) v closes =
      Returns->>= (λ _ _. Unit {0}) _ (close_prepared s) (λ _. for_each close_prepared ss) v
        (closes s v) λ _ v' _. for_each-Returns ss v' closes

  prepared-Returns :
      (c : Bool) (ss : List ℕ) (v : World env)
      → ((s : ℕ) (u : World env) → Returns (close_prepared s u) λ _ _. Unit {0})
      → Returns (when c (for_each close_prepared ss) v) λ _ _. Unit {0}
  prepared-Returns true ss v closes = for_each-Returns ss v closes
  prepared-Returns false ss v closes = tt

  -- The state in which `others` leave the transaction while its end waits for `closemu`.
  abbrev pub closing : Tx → Tx
  closing tx = others (record tx { done = true; cancelled = true })

  close_conn-Returns :
      (ends : ℕ → ℕ → Option Err) (discard : Bool) (tx : Tx) (dc txi : ℕ) (w : World env)
      → tx.done ≡ true
      → tx.cancelled ≡ true
      → tx.txi ≡ some txi
      → (w.conns dc).mu ≡ false
      → ((s : ℕ) (v : World env) → Returns (close_prepared s v) λ _ _. Unit {0})
      → ((e : Option Err) (v : World env) → Returns (release e v) λ _ _. Unit {0})
      → Returns
          (close_conn driver close_prepared release others ends discard tx (some dc) w)
          (Ended (if discard then some bad_conn else ends w.tick txi))
  unfolding close_conn call_driver
  close_conn-Returns ends discard tx dc txi w done cancelled has_txi free closes releases =
      rw (has_txi) (
        rw (free, ◌>>=◌, Returns)
          (rw (==_refl dc) (
            Returns->>= (λ _ _. Unit {0}) _
              (when (not (is_bad_conn (ends w.tick txi))) (for_each close_prepared tx.stmts)) _ _
              (prepared-Returns _ tx.stmts _ closes)
              λ _ v _.
                Returns->>= (λ _ _. Unit {0}) _
                  (release (if discard then some bad_conn else ends w.tick txi)) _ v (releases _ v)
                  λ _ v' _. (refl, done, cancelled, refl, refl))))

  commit-Ended :
      (tx : Tx) (dc txi : ℕ) (w : World env)
      → tx.done ≡ false
      → tx.cancelled ≡ false
      → env.ctx_done w.tick tx.ctx ≡ none
      → closing tx ≡ record tx { done = true; cancelled = true; readers = 0 }
      → tx.dc ≡ some dc
      → tx.txi ≡ some txi
      → (w.conns dc).mu ≡ false
      → ((s : ℕ) (v : World env) → Returns (close_prepared s v) λ _ _. Unit {0})
      → ((e : Option Err) (v : World env) → Returns (release e v) λ _ _. Unit {0})
      → Returns
          (commit driver close_prepared release others tx w)
          (Ended (driver.commit_txi (suc w.tick) txi))
  unfolding commit expired finish close_with
  commit-Ended tx dc txi w still_open uncancelled going drained has_dc has_txi free closes
        releases =
      rw (uncancelled, Returns)
        (rw (going, Returns)
          (rw (still_open, Returns)
            (rw (drained, Returns)
              (rw (has_dc) (
                close_conn-Returns driver.commit_txi false
                  (record tx { dc = some dc; done = true; cancelled = true; readers = 0 }) dc txi _
                  refl refl has_txi free closes releases)))))

  -- `Commit` of an open transaction whose context goes on, whose queries end and whose
  -- connection is free returns what the driver's Commit gives, if closing its statements and
  -- releasing the connection return; every call that ends the transaction after it gives
  -- `ErrTxDone`.
  pub commit-once :
      (es : List Ending) (tx : Tx) (dc txi : ℕ) (w : World env)
      → tx.done ≡ false
      → tx.cancelled ≡ false
      → env.ctx_done w.tick tx.ctx ≡ none
      → closing tx ≡ record tx { done = true; cancelled = true; readers = 0 }
      → tx.dc ≡ some dc
      → tx.txi ≡ some txi
      → (w.conns dc).mu ≡ false
      → ((s : ℕ) (v : World env) → Returns (close_prepared s v) λ _ _. Unit {0})
      → ((e : Option Err) (v : World env) → Returns (release e v) λ _ _. Unit {0})
      → Returns
          (calls (commits ∷ es) tx w)
          λ r w'. r.0 ≡ driver.commit_txi (suc w.tick) txi ∷ replicate (length es) (some tx_done)
  unfolding calls call
  commit-once es tx dc txi w still_open uncancelled going drained has_dc has_txi free closes
        releases =
      Returns->>= (Ended (driver.commit_txi (suc w.tick) txi)) _
        (commit driver close_prepared release others tx) _ w
        (commit-Ended tx dc txi w still_open uncancelled going drained has_dc has_txi free closes
          releases)
        λ r v ended.
          rw (calls-done es r.1 v ended.1 ended.2, ◌>>=◌, Returns)
            (ap (λ e. e ∷ replicate (length es) (some tx_done)) ended.0)
