-- ===== src/Runtime/Objects.antt =====
-- Reads and writes of the objects, and their mutexes (sync.Mutex).
use memsql_conn_pool.Base.{Bool, ℕ, true, false, update}
use memsql_conn_pool.Runtime.Errors.{Wait, unlocked_mutex, facade_mu, pool_mu, conn_mu}
use memsql_conn_pool.Runtime.Environment.{Env}
use memsql_conn_pool.Runtime.State.{World, DriverStmt, DriverConn, ConnPool, ConnPoolFacade}
use memsql_conn_pool.Runtime.Monad.{Outcome, ok, panics, blocks, M}

module _ {env : Env} where
  abbrev pub put_facade : World env → ConnPoolFacade env → World env
  put_facade w f = record w { facade = f }

  abbrev pub put_pool : World env → ℕ → ConnPool → World env
  put_pool w p x = record w { pools = update w.pools p x }

  abbrev pub put_conn : World env → ℕ → DriverConn → World env
  put_conn w c x = record w { conns = update w.conns c x }

  abbrev pub put_stmt : World env → ℕ → DriverStmt → World env
  put_stmt w s x = record w { stmts = update w.stmts s x }

  abbrev pub set_facade : (ConnPoolFacade env → ConnPoolFacade env) → M env (Unit {0})
  set_facade f w = ok tt (put_facade w (f w.facade))

  abbrev pub set_pool : ℕ → (ConnPool → ConnPool) → M env (Unit {0})
  set_pool p f w = ok tt (put_pool w p (f (w.pools p)))

  abbrev pub set_conn : ℕ → (DriverConn → DriverConn) → M env (Unit {0})
  set_conn c f w = ok tt (put_conn w c (f (w.conns c)))

  abbrev pub set_stmt : ℕ → (DriverStmt → DriverStmt) → M env (Unit {0})
  set_stmt s f w = ok tt (put_stmt w s (f (w.stmts s)))

  -- `Lock` waits on a held mutex, and `Unlock` of a free one is a fault.
  abbrev pub lock : Bool → Wait → World env → Outcome env (Unit {0})
  lock true m w = blocks m
  lock false m w = ok tt w

  abbrev pub unlock : Bool → World env → Outcome env (Unit {0})
  unlock true w = ok tt w
  unlock false w = panics unlocked_mutex

  abbrev pub lock_facade : M env (Unit {0})
  lock_facade w = let f = w.facade in lock f.mu facade_mu (put_facade w (record f { mu = true }))

  abbrev pub unlock_facade : M env (Unit {0})
  unlock_facade w = let f = w.facade in unlock f.mu (put_facade w (record f { mu = false }))

  abbrev pub lock_pool : ℕ → M env (Unit {0})
  lock_pool p w = let x = w.pools p in lock x.mu (pool_mu p) (put_pool w p (record x { mu = true }))

  abbrev pub unlock_pool : ℕ → M env (Unit {0})
  unlock_pool p w = let x = w.pools p in unlock x.mu (put_pool w p (record x { mu = false }))

  abbrev pub lock_conn : ℕ → M env (Unit {0})
  lock_conn c w = let x = w.conns c in lock x.mu (conn_mu c) (put_conn w c (record x { mu = true }))

  abbrev pub unlock_conn : ℕ → M env (Unit {0})
  unlock_conn c w = let x = w.conns c in unlock x.mu (put_conn w c (record x { mu = false }))
