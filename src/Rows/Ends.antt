-- ===== src/Rows/Ends.antt =====
-- How rows come to their end.
use memsql_conn_pool.Base.{
  update, ℕ, suc, replicate, ◌≡◌, refl, not, if◌then◌else◌, Bool, true, false, Option, none, some,
  is_some, List, ==_refl, Bool-cases, inl, inr,
}
use memsql_conn_pool.Rows.{
  Rows, RowsDriver, is_eof, rows_err, next, close, close_with, next_locked, read_row, after_next,
  close_held, lasterr_or_err_locked, at_end,
}
use memsql_conn_pool.Runtime.{Env, Err, World, M, ok, ◌>>=◌, Returns, Returns->>=}

module _ {env : Env} (driver : RowsDriver) (release : Option Err → M env (Unit {0})) where
  -- What `Next` leaves where the driver's `Next` gave the columns `cols` and the error `e`: a row
  -- that waits to be scanned, or closed rows which report the error unless it is the end.
  abbrev pub Advanced : List ℕ → Option Err → (Bool × Rows) → World env → Type 0
  Advanced cols none r w' =
      (r.0 ≡ true) × (r.1.closed ≡ false) × (r.1.lastcols ≡ some cols) × (rows_err r.1 ≡ none)
  Advanced cols (some e) r w' =
      (r.0 ≡ false) × (r.1.closed ≡ true) × (rows_err r.1 ≡ (if is_eof e then none else some e))

  -- The end of a result set, or an error of the driver, closes the rows.
  at_end-closes :
      (rs : Rows) (e : Err) (w : World env)
      → driver.is_next_result_set rs.rowsi ≡ false
      → at_end driver release rs e w ≡ ok true w
  at_end-closes rs e w single = elim (Bool-cases (is_eof e)) [
    | inl end ↦ rw end (rw single refl)
    | inr other ↦ rw other refl
  ]

  abbrev pub Stepped : Rows → List ℕ → Option Err → ((Bool × Bool) × Rows) → World env → Type 0
  Stepped rs cols e r w' =
      (r ≡ ((is_some e, not (is_some e)), record rs { lastcols = some cols; lasterr = e }))
      × ((w'.conns rs.dc).mu ≡ false)

  held_now :
      (w : World env) (dc : ℕ)
      → (update w.conns dc (let x = w.conns dc in record x { mu = true }) dc).mu ≡ true
  held_now w dc = rw (==_refl dc) refl

  read_row-Stepped :
      (rs : Rows) (cols : List ℕ) (e : Option Err) (v : World env)
      → driver.is_next_result_set rs.rowsi ≡ false
      → (v.conns rs.dc).mu ≡ true
      → Returns (read_row driver release rs cols e v) (Stepped rs cols e)
  unfolding read_row
  read_row-Stepped rs cols none v single held = rw (held, Returns) (refl, rw (==_refl rs.dc) refl)
  read_row-Stepped rs cols (some e) v single held =
      rw (at_end-closes rs e v single, Returns, ◌>>=◌)
        (rw (held, Returns) (refl, rw (==_refl rs.dc) refl))

  -- The driver's `Next` for the rows: what it gives for the slice of their columns, which the first
  -- call makes by asking for the columns.
  abbrev pub read_by : Rows → World env → List ℕ × Option Err
  read_by rs w = elim rs.lastcols [
    | none ↦ driver.next_row (suc w.tick) rs.rowsi (replicate (driver.columns w.tick rs.rowsi) 0)
    | some cols ↦ driver.next_row w.tick rs.rowsi cols
  ]

  pub next_locked-Stepped :
      (rs : Rows) (w : World env)
      → rs.closed ≡ false
      → driver.is_next_result_set rs.rowsi ≡ false
      → (w.conns rs.dc).mu ≡ false
      → let (cols', e) = read_by rs w in
        Returns (next_locked driver release rs w) (Stepped rs cols' e)
  unfolding next_locked
  next_locked-Stepped rs w still_open single free = by_columns rs.lastcols refl
    where
      by_columns :
          (c : Option (List ℕ))
          → rs.lastcols ≡ c
          → let (cols', e) = read_by rs w in
            Returns (next_locked driver release rs w) (Stepped rs cols' e)
      by_columns (some cols) e =
          rw (still_open, Returns)
            (rw (free, Returns, ◌>>=◌)
              (rw (e, Returns)
                (read_row-Stepped (record rs { closed = false; lastcols = some cols })
                  (driver.next_row w.tick rs.rowsi cols).0 (driver.next_row w.tick rs.rowsi cols).1
                  _ single (held_now w rs.dc))))
      by_columns none e =
          let cols : List ℕ = replicate (driver.columns w.tick rs.rowsi) 0 in
          rw (still_open, Returns)
            (rw (free, Returns, ◌>>=◌)
              (rw (e, Returns)
                (read_row-Stepped (record rs { closed = false; lastcols = none })
                  (driver.next_row (suc w.tick) rs.rowsi cols).0
                  (driver.next_row (suc w.tick) rs.rowsi cols).1 _ single (held_now w rs.dc))))

  pub close-Returns :
      (rs : Rows) (w : World env)
      → rs.closed ≡ false
      → rs.stmt_to_close ≡ none
      → (w.conns rs.dc).mu ≡ false
      → ((e : Option Err) (v : World env) → Returns (release e v) λ _ _. Unit {0})
      → Returns (close driver release rs w) λ r w'.
        (r.1.closed ≡ true) × (r.1.lasterr ≡ (if is_some rs.lasterr then rs.lasterr else none))
  unfolding close close_with close_held
  close-Returns rs w still_open direct free releases =
      rw (still_open, Returns)
        (rw (free, Returns, ◌>>=◌)
          (rw (==_refl rs.dc) (
            rw (direct, Returns)
              (Returns->>= (λ _ _. Unit {0}) _ (release (driver.close_rowsi w.tick rs.rowsi)) _ _
                (releases _ _) λ _ v _. (refl, refl)))))

  pub after_next-Advanced :
      (rs : Rows) (cols : List ℕ) (e : Option Err) (v : World env)
      → rs.closed ≡ false
      → rs.stmt_to_close ≡ none
      → (v.conns rs.dc).mu ≡ false
      → ((e' : Option Err) (u : World env) → Returns (release e' u) λ _ _. Unit {0})
      → Returns
          (after_next driver release
            (is_some e, not (is_some e))
            (record rs { lastcols = some cols; lasterr = e })
            v)
          (Advanced cols e)
  unfolding after_next rows_err lasterr_or_err_locked
  after_next-Advanced rs cols none v still_open direct free releases =
      (refl, still_open, refl, refl)
  after_next-Advanced rs cols (some e) v still_open direct free releases =
      Returns->>= _ _ (close driver release (record rs { lastcols = some cols; lasterr = some e }))
        _ v
        (close-Returns (record rs { lastcols = some cols; lasterr = some e }) v still_open direct
          free releases)
        λ r v' (closed, last). (refl, closed, rw last refl)

  -- `Next` on open rows of a query without a statement of their own, of a driver without further
  -- result sets, returns: it tells if there is a row, which waits to be scanned, and closes the
  -- rows at the end or on an error, which alone is then reported; if the connection is free and
  -- releasing it returns.
  pub next-Advanced :
      (rs : Rows) (w : World env)
      → rs.closed ≡ false
      → rs.stmt_to_close ≡ none
      → driver.is_next_result_set rs.rowsi ≡ false
      → (w.conns rs.dc).mu ≡ false
      → ((e : Option Err) (v : World env) → Returns (release e v) λ _ _. Unit {0})
      → let (cols', e) = read_by rs w in Returns (next driver release rs w) (Advanced cols' e)
  unfolding next next_locked
  next-Advanced rs w still_open direct single free releases =
      Returns->>= (Stepped rs (read_by rs w).0 (read_by rs w).1) _ (next_locked driver release rs) _
        w (next_locked-Stepped rs w still_open single free)
        λ r v (stepped, unlocked).
          rw stepped (after_next-Advanced rs _ _ v still_open direct unlocked releases)
