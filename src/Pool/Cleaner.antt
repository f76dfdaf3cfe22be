-- ===== src/Pool/Cleaner.antt =====
-- conn_cleaner.go, conn_pool_restrictions.go, and `shortestIdleTimeLocked` of conn_pool.go.
pub mod Sweeps
use memsql_conn_pool.Base.{
  ℕ, suc, ◌+◌, if◌then◌else◌, Bool, true, false, ◌&&◌, ◌||◌, not, Option, none, some, List, [], ◌∷◌,
  ◌++◌, length, delete, is_some,
}
use memsql_conn_pool.Base.Int.{ℤ, pos, ◌-ℤ◌, ltb_ℤ, leb_ℤ}
use memsql_conn_pool.Closing.{close}
use memsql_conn_pool.Runtime.{
  Env, World, ConnPool, DriverConn, M, ◌>>=◌, ◌>>◌, pure, gets, ask, modify, when, for_each,
  set_pool, lock_pool, unlock_pool,
}

unfoldable pub shortest_idle_time_locked : ConnPool → ℤ
shortest_idle_time_locked p =
    if leb_ℤ p.max_idle_time (pos 0)
    then p.max_lifetime
    else if leb_ℤ p.max_lifetime (pos 0)
    then p.max_idle_time
    else if ltb_ℤ p.max_lifetime p.max_idle_time
    then p.max_lifetime
    else p.max_idle_time

-- `for conn := range connPool.freeConn { if … { closing = append(…); delete(…) } }`: what is
-- closed, and what stays free.
unfoldable pub sweep : (ℕ → Bool) → List ℕ → List ℕ → List ℕ × List ℕ
sweep old [] free = ([], free)
sweep old (c ∷ cs) free =
    let (closing, left) = sweep old cs (if old c then delete c free else free) in
    (if old c then (c ∷ closing, left) else (closing, left))

-- A negative duration counts as none.
abbrev pub clamped : ℤ → ℤ
clamped d = if ltb_ℤ d (pos 0) then pos 0 else d

module _ {env : Env} where
  unfoldable pub start_cleaner_locked : ℕ → M env (Unit {0})
  unfolding shortest_idle_time_locked
  start_cleaner_locked p w =
      let s = w.pools p in
      when
        ((ltb_ℤ (pos 0) s.max_lifetime || ltb_ℤ (pos 0) s.max_idle_time)
          && not (is_some s.cleaner_ch))
        (do
          set_pool p (λ s'. record s' { cleaner_ch = some false })
          modify (λ w'. record w' { cleaners = (p, shortest_idle_time_locked s) ∷ w'.cleaners }))
        w

  unfoldable pub sweep_lifetime : ℕ → M env (List ℕ)
  unfolding sweep
  sweep_lifetime p = do
    s ← gets (λ w. w.pools p)
    if ltb_ℤ (pos 0) s.max_lifetime
        then (do
          now ← ask env.now
          order ← ask (λ t. env.range t s.free_conn)
          conns ← gets (λ w. w.conns)
          let old = λ (c : ℕ). ltb_ℤ (conns c).created_at (now -ℤ s.max_lifetime)
          let (closing, free) = sweep old order s.free_conn
          set_pool p (λ s'. record s' {
            free_conn = free;
            max_lifetime_closed = s'.max_lifetime_closed + length closing;
          })
          pure closing)
        else pure []

  unfoldable pub sweep_idle : ℕ → M env (List ℕ)
  unfolding sweep
  sweep_idle p = do
    s ← gets (λ w. w.pools p)
    if ltb_ℤ (pos 0) s.max_idle_time
        then (do
          now ← ask env.now
          order ← ask (λ t. env.range t s.free_conn)
          conns ← gets (λ w. w.conns)
          let old = λ (c : ℕ). ltb_ℤ (conns c).returned_at (now -ℤ s.max_idle_time)
          let (closing, free) = sweep old order s.free_conn
          set_pool p (λ s'. record s' {
            free_conn = free;
            max_idle_time_closed = s'.max_idle_time_closed + length closing;
          })
          pure closing)
        else pure []

  unfoldable pub connection_cleaner_run_locked : ℕ → M env (List ℕ)
  connection_cleaner_run_locked p = do
    by_lifetime ← sweep_lifetime p
    by_idle ← sweep_idle p
    pure (by_lifetime ++ by_idle)

  -- One round of `connectionCleaner`, from its wake-up to the reset of the timer; the result tells
  -- if the goroutine goes on.
  unfoldable pub connection_cleaner_round : ℕ → ℕ → M env Bool
  unfolding connection_cleaner_run_locked shortest_idle_time_locked
  connection_cleaner_round fuel p = do
    lock_pool p
    s ← gets (λ w. w.pools p)
    if s.closed || leb_ℤ (shortest_idle_time_locked s) (pos 0)
        then (do set_pool p (λ s'. record s' { cleaner_ch = none }); unlock_pool p; pure false)
        else (do
          closing ← connection_cleaner_run_locked p
          unlock_pool p
          for_each (λ c. close fuel c >>= λ _. pure tt) closing
          pure true)

  unfoldable pub set_conn_max_idle_time : ℕ → ℤ → M env (Unit {0})
  set_conn_max_idle_time p requested = do
    let duration = clamped requested
    lock_pool p
    s ← gets (λ w. w.pools p)
    when (ltb_ℤ (pos 0) duration && ltb_ℤ duration s.max_idle_time && is_some s.cleaner_ch)
        (set_pool p (λ s'. record s' { cleaner_ch = some true }))
    set_pool p (λ s'. record s' { max_idle_time = duration })
    start_cleaner_locked p
    unlock_pool p
