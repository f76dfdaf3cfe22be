-- ===== src/Statements/Released.antt =====
-- How `queryDC` releases its connection.
use memsql_conn_pool.Base.{ℕ, ◌≡◌, refl, Option, some, List, if◌then◌else◌, Bool, true, false}
use memsql_conn_pool.Arguments.{Arg}
use memsql_conn_pool.Arguments.Rounds.{is_skip}
use memsql_conn_pool.Conn.{close_stmt}
use memsql_conn_pool.Pool.Retry.{Tried}
use memsql_conn_pool.Rows.{Rows}
use memsql_conn_pool.Runtime.{
  Env, Err, World, Bytes, Outcome, ok, panics, blocks, no_fuel, Answer, gives, fails, M, ◌>>=◌,
  ◌>>◌, pure,
}
use memsql_conn_pool.Statements.{PrepareDriver}
use memsql_conn_pool.Statements.Calls.{answer_err, from_statement}
use memsql_conn_pool.Statements.Direct.{
  DirectDriver, query_dc, query_after, query_prepared, rows_prepared, rows_directly, plain_stmt,
  prepare_unlocking, direct_call, rows_failed, release_failed,
}

-- The calls before the last one may be taken together.
then_last :
    {env : Env} {A B C : Type 0} (m : M env A) (f : A → M env B) (g : A → M env C) (k : B → M env C)
    (w : World env)
    → ((a : A) (w' : World env) → g a w' ≡ (f a >>= k) w')
    → (m >>= g) w ≡ ((m >>= f) >>= k) w
then_last m f g k w h = by_outcome (m w) refl
  where
    by_outcome : (o : Outcome _ _) → m w ≡ o → (m >>= g) w ≡ ((m >>= f) >>= k) w
    by_outcome (ok a w') e = rw (e, ◌>>=◌) (h a w')
    by_outcome (panics p) e = rw (e, ◌>>=◌) refl
    by_outcome (blocks b) e = rw (e, ◌>>=◌) refl
    by_outcome no_fuel e = rw (e, ◌>>=◌) refl

abbrev pub keep : {env : Env} → Option Err → M env (Unit {0})
keep e = pure tt

module _ {env : Env} {V : Type 0} (p : PrepareDriver) (d : DirectDriver V) (ctx dc : ℕ)
    (query : Bytes) (args : List (Arg V)) (release : Option Err → M env (Unit {0})) where
  rows_directly-released :
      (a : Answer) (w : World env)
      → rows_directly p d ctx dc query args release a w
        ≡ (rows_directly p d ctx dc query args keep a >>= release_failed release) w
  unfolding rows_directly
  rows_directly-released (gives r) w = refl
  rows_directly-released (fails e) w = refl

  rows_prepared-released :
      (ds : ℕ) (a : Answer) (w : World env)
      → rows_prepared p d ctx dc query args release ds a w
        ≡ (rows_prepared p d ctx dc query args keep ds a >>= release_failed release) w
  unfolding rows_prepared
  rows_prepared-released ds (gives r) w = refl
  rows_prepared-released ds (fails e) w =
      then_last (close_stmt ds) (λ _. keep (some e) >> pure (rows_failed e))
        (λ _. release (some e) >> pure (rows_failed e)) (release_failed release) w (λ _ w'. refl)

  query_prepared-released :
      (a : Answer) (w : World env)
      → query_prepared p d ctx dc query args release a w
        ≡ (query_prepared p d ctx dc query args keep a >>= release_failed release) w
  unfolding query_prepared
  query_prepared-released (fails e) w = refl
  query_prepared-released (gives si) w =
      let rowsi : ℕ → M env Answer =
        λ ds. from_statement d.prepared_call d.stmt_args ctx (some ds) args in
      then_last (plain_stmt p d ctx dc query args si)
        (λ ds. rowsi ds >>= rows_prepared p d ctx dc query args keep ds)
        (λ ds. rowsi ds >>= rows_prepared p d ctx dc query args release ds) (release_failed release)
        w
        (λ ds w'.
          then_last (rowsi ds) (rows_prepared p d ctx dc query args keep ds)
            (rows_prepared p d ctx dc query args release ds) (release_failed release) w'
            (rows_prepared-released ds))

  query_after-released :
      (ci : Option ℕ) (a : Answer) (w : World env)
      → query_after p d ctx dc query args release ci a w
        ≡ (query_after p d ctx dc query args keep ci a >>= release_failed release) w
  unfolding query_after
  query_after-released ci a w = by_skip (is_skip (answer_err a))
    where
      prepares : (Option Err → M env (Unit {0})) → M env (Tried Rows)
      prepares r =
          prepare_unlocking p d ctx dc query args ci >>= query_prepared p d ctx dc query args r

      by_skip :
          (b : Bool)
          → (if b then prepares release else rows_directly p d ctx dc query args release a) w
            ≡ ((if b then prepares keep else rows_directly p d ctx dc query args keep a)
                  >>= release_failed release)
                w
      by_skip true =
          then_last (prepare_unlocking p d ctx dc query args ci)
            (query_prepared p d ctx dc query args keep)
            (query_prepared p d ctx dc query args release) (release_failed release) w
            query_prepared-released
      by_skip false = rows_directly-released a w

  -- `queryDC` releases its connection where the query fails, once, with the error that it
  -- returns and as the last thing it does, and not where it returns rows: it does what it would
  -- do with a release that does nothing, followed by the release of a failed query.
  pub query_dc-released :
      (w : World env)
      → query_dc p d ctx dc query args release w
        ≡ (query_dc p d ctx dc query args keep >>= release_failed release) w
  unfolding query_dc
  query_dc-released w =
      let ci : Option ℕ = (w.conns dc).ci in
      then_last (direct_call p d ctx dc query args ci) (query_after p d ctx dc query args keep ci)
        (query_after p d ctx dc query args release ci) (release_failed release) w
        (query_after-released ci)
