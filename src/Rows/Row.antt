-- ===== src/Rows/Row.antt =====
-- The single row of a query: row.go.
use memsql_conn_pool.Base.{
  ℕ, ◌≡◌, refl, sym, ap, ◌∙◌, if◌then◌else◌, Bool, true, false, Option, none, some, is_some, List,
  [], ◌∷◌, length, not, subst,
}
use memsql_conn_pool.Rows.{
  Rows, RowsDriver, is_eof, rows_err, next_locked, next, scan, close, close_with, after_next,
}
use memsql_conn_pool.Rows.Ends.{
  Advanced, Stepped, after_next-Advanced, next_locked-Stepped, read_by, close-Returns,
}
use memsql_conn_pool.Runtime.{
  Env, Outcome, ok, panics, blocks, no_fuel, Err, no_rows, raw_bytes_refused, World, M, ◌>>=◌, pure,
  Returns, Returns->>=,
}

-- `Row`: an error, or rows.
pub data Row : Type 0 where
  row_err : Err → Row
  row_rows : Rows → Row

-- Whether a destination is a `*RawBytes`.
abbrev pub any_raw : List Bool → Bool
any_raw [] = false
any_raw (raw ∷ dests) = let rest = any_raw dests in if raw then true else rest

-- A call that returns with another after it returns to where that one returns.
first-Returns :
    {env : Env} {A B : Type 0} (m : M env A) (f : A → M env B) (P : B → World env → Type 0)
    (w : World env)
    → Returns ((m >>= f) w) P
    → Returns (m w) (λ a u. Returns (f a u) P)
first-Returns m f P w h = by_outcome (m w) refl
  where
    by_outcome : (o : Outcome _ _) → m w ≡ o → Returns o (λ a u. Returns (f a u) P)
    by_outcome (ok a u) e = rw (e, ◌>>=◌) at h
    by_outcome (panics x) e = rw (e, ◌>>=◌) at h
    by_outcome (blocks x) e = rw (e, ◌>>=◌) at h
    by_outcome no_fuel e = rw (e, ◌>>=◌) at h

module _ {env : Env} (driver : RowsDriver) (release : Option Err → M env (Unit {0}))
    (convert : ℕ → ℕ → Option Err) where
  -- The deferred `Close`, whose error is dropped.
  unfoldable pub close_after : Option Err → Rows → M env (Option Err × Row)
  close_after err rs = close driver release rs >>= λ r. pure (err, row_rows r.1)

  or_no_rows : Option Err → Err
  or_no_rows none = no_rows
  or_no_rows (some e) = e

  scanned : Option Err → Rows → M env (Option Err × Row)
  unfolding close_after
  scanned (some e) rs = close_after (some e) rs
  scanned none rs = close driver release rs >>= λ r. close_after r.0 r.1

  on_row : ℕ → Bool × Rows → M env (Option Err × Row)
  unfolding scanned or_no_rows
  on_row n (false, rs) = close_after (some (or_no_rows (rows_err rs))) rs
  on_row n (true, rs) = scanned (scan convert n rs) rs

  -- `Row.Scan`; the destinations tell if they are a `*RawBytes`.
  unfoldable pub scan_row : List Bool → Row → M env (Option Err × Row)
  unfolding on_row
  scan_row dests (row_err e) = pure (some e, row_err e)
  scan_row dests (row_rows rs) =
      if any_raw dests
      then close_after (some raw_bytes_refused) rs
      else (next driver release rs >>= on_row (length dests))

  abbrev pub IsClosedRow : Row → Type 0
  IsClosedRow (row_err e) = ⊥
  IsClosedRow (row_rows rs) = rs.closed ≡ true

  close_after-closed :
      (err : Option Err) (rs : Rows) (w : World env)
      → rs.closed ≡ true
      → close_after err rs w ≡ ok (err, row_rows rs) w
  unfolding close_after close close_with
  close_after-closed err rs w closed =
      subst (λ x. close_after err x w ≡ ok (err, row_rows x) w)
        (λ i. record rs { closed = sym closed i }) refl

  close_after_open :
      (err : Option Err) (rs : Rows) (w : World env)
      → rs.closed ≡ false
      → rs.stmt_to_close ≡ none
      → (w.conns rs.dc).mu ≡ false
      → ((e : Option Err) (v : World env) → Returns (release e v) λ _ _. Unit {0})
      → Returns (close_after err rs w) (λ r w'. (r.0 ≡ err) × IsClosedRow r.1)
  unfolding close_after
  close_after_open err rs w still_open direct free releases =
      Returns->>= _ _ (close driver release rs) _ w
        (close-Returns driver release rs w still_open direct free releases)
        (λ r v (closed, last). (refl, closed))

  scanned-closes :
      (e : Option Err) (rs : Rows) (w : World env)
      → rs.closed ≡ false
      → rs.stmt_to_close ≡ none
      → (w.conns rs.dc).mu ≡ false
      → ((e' : Option Err) (v : World env) → Returns (release e' v) λ _ _. Unit {0})
      → Returns
          (scanned e rs w)
          (λ r w'. ((e' : Err) → e ≡ some e' → r.0 ≡ some e') × IsClosedRow r.1)
  unfolding scanned
  scanned-closes (some e) rs w still_open direct free releases =
      weaker (close_after (some e) rs w)
        (close_after_open (some e) rs w still_open direct free releases)
    where
      weaker :
          (o : Outcome env (Option Err × Row))
          → Returns o (λ r w'. (r.0 ≡ some e) × IsClosedRow r.1)
          → Returns o (λ r w'. ((e' : Err) → some e ≡ some e' → r.0 ≡ some e') × IsClosedRow r.1)
      weaker (ok r v) (same, closed) = ((λ e' h. same ∙ h), closed)
      weaker (panics x) h = h
      weaker (blocks x) h = h
      weaker no_fuel h = h
  scanned-closes none rs w still_open direct free releases =
      Returns->>= _ _ (close driver release rs) _ w
        (close-Returns driver release rs w still_open direct free releases)
        (λ r v (closed, last). closing_again r.0 r.1 v closed)
    where
      closing_again :
          (err : Option Err) (rs' : Rows) (v : World env)
          → rs'.closed ≡ true
          → Returns
              (close_after err rs' v)
              (λ r w'. ((e' : Err) → none ≡ some e' → r.0 ≡ some e') × IsClosedRow r.1)
      closing_again err rs' v closed =
          rw (close_after-closed err rs' v closed, Returns) ((λ e' h. cc), closed)

  -- What `Scan` reports where the driver's `Next` gave the columns and the error.
  abbrev pub Reports : ℕ → Rows → List ℕ → Option Err → Option Err → Type 0
  Reports n rs cols (some e) x = x ≡ some (if is_eof e then no_rows else e)
  Reports n rs cols none x =
      (e : Err)
      → scan convert n (record rs { lastcols = some cols; lasterr = none }) ≡ some e
      → x ≡ some e

  abbrev pub Scanned : Bool → ℕ → Rows → List ℕ → Option Err → Option Err × Row → Type 0
  Scanned true n rs cols e (x, row) = (x ≡ some raw_bytes_refused) × IsClosedRow row
  Scanned false n rs cols e (x, row) = Reports n rs cols e x × IsClosedRow row

  advanced-closes :
      (n : ℕ) (rs : Rows) (cols : List ℕ) (e : Option Err) (v : World env)
      → rs.closed ≡ false
      → rs.stmt_to_close ≡ none
      → (v.conns rs.dc).mu ≡ false
      → ((e' : Option Err) (u : World env) → Returns (release e' u) λ _ _. Unit {0})
      → Returns
          ((after_next driver release
                (is_some e, not (is_some e))
                (record rs { lastcols = some cols; lasterr = e })
              >>= on_row n)
            v)
          (λ r w'. Scanned false n rs cols e r)
  unfolding on_row after_next scan
  advanced-closes n rs cols none v still_open direct free releases =
      let rs' : Rows = record rs { lastcols = some cols; lasterr = none } in
      scanned-closes (scan convert n rs') rs' v still_open direct free releases
  advanced-closes n rs cols (some e) v still_open direct free releases =
      Returns->>= (Advanced driver release cols (some e)) _
        (after_next driver release (true, false) rs') (on_row n) v
        (after_next-Advanced driver release rs cols (some e) v still_open direct free releases)
        (λ r u (no_row, closed, reported). by_row r.0 r.1 u no_row closed reported)
    where
      rs' : Rows
      rs' = record rs { lastcols = some cols; lasterr = some e }

      last_err :
          (end : Bool)
          → some (or_no_rows (if end then none else some e)) ≡ some (if end then no_rows else e)
      last_err true = refl
      last_err false = refl

      by_row :
          (row : Bool) (x : Rows) (u : World env)
          → row ≡ false
          → x.closed ≡ true
          → rows_err x ≡ (if is_eof e then none else some e)
          → Returns (on_row n (row, x) u) (λ r w'. Scanned false n rs cols (some e) r)
      by_row true x u h closed reported = absurd cc
      by_row false x u h closed reported =
          rw (close_after-closed (some (or_no_rows (rows_err x))) x u closed, Returns)
            (ap (λ y. some (or_no_rows y)) reported ∙ last_err (is_eof e), closed)

  -- `Row.Scan` on open rows of a query without a statement of their own, of a driver without
  -- further result sets, returns and leaves the rows closed: it refuses a destination
  -- `*RawBytes`, reports the driver's error, or ErrNoRows at the end, or the error of scanning
  -- the row; if the connection is free and releasing it returns.
  pub scan_row-closes :
      (dests : List Bool) (rs : Rows) (w : World env)
      → rs.closed ≡ false
      → rs.stmt_to_close ≡ none
      → driver.is_next_result_set rs.rowsi ≡ false
      → (w.conns rs.dc).mu ≡ false
      → ((e : Option Err) (v : World env) → Returns (release e v) λ _ _. Unit {0})
      → let (cols', e) = read_by driver release rs w in
        Returns
          (scan_row dests (row_rows rs) w)
          (λ r w'. Scanned (any_raw dests) (length dests) rs cols' e r)
  unfolding scan_row next
  scan_row-closes dests rs w still_open direct single free releases = by_raw (any_raw dests)
    where
      cols' : List ℕ
      cols' = (read_by driver release rs w).0

      err : Option Err
      err = (read_by driver release rs w).1

      Closed : Option Err × Row → World env → Type 0
      Closed r w' = Scanned false (length dests) rs cols' err r

      by_raw :
          (raw : Bool)
          → Returns
              ((if raw
                  then close_after (some raw_bytes_refused) rs
                  else (next driver release rs >>= on_row (length dests)))
                w)
              (λ r w'. Scanned raw (length dests) rs cols' err r)
      by_raw true = close_after_open (some raw_bytes_refused) rs w still_open direct free releases
      by_raw false =
          Returns->>= (λ r u. Returns (on_row (length dests) r u) Closed) Closed
            (next driver release rs) (on_row (length dests)) w
            (Returns->>= (Stepped driver release rs cols' err) _ (next_locked driver release rs) _ w
              (next_locked-Stepped driver release rs w still_open single free)
              (λ r v (stepped, unlocked). rw stepped (
                first-Returns
                  (after_next driver release (is_some err, not (is_some err))
                    (record rs { lastcols = some cols'; lasterr = err }))
                  (on_row (length dests)) Closed v
                  (advanced-closes (length dests) rs cols' err v still_open direct unlocked
                    releases))))
            (λ r u h. h)
