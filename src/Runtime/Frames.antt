-- ===== src/Runtime/Frames.antt =====
-- What a call leaves as it is.
use memsql_conn_pool.Base.{ℕ, ◌≡◌, ap, sym, ◌∙◌, Bool, true, false}
use memsql_conn_pool.Runtime.Environment.{Env}
use memsql_conn_pool.Runtime.State.{World, ConnPool, DriverConn, ConnPoolFacade}
use memsql_conn_pool.Runtime.Monad.{ok, M, ◌>>=◌, when, pure}
use memsql_conn_pool.Runtime.Objects.{
  lock_pool, unlock_pool, lock_conn, unlock_conn, set_pool, set_conn,
}
use memsql_conn_pool.Runtime.Binds.{>>=-elim, ok-injective}
use native.Mathlib.Omega.{arith}

-- Whenever `m` returns, the part `g` of the objects is as before.
abbrev pub Keeps : {env : Env} {A X : Type 0} → (World env → X) → M env A → Type 0
Keeps {env} {A} g m = (w : World env) (a : A) (w' : World env) → m w ≡ ok a w' → g w' ≡ g w

module _ {env : Env} {X : Type 0} (g : World env → X) where
  pub >>=-Keeps :
      {A B : Type 0} (m : M env A) (f : A → M env B)
      → Keeps g m
      → ((a : A) → Keeps g (f a))
      → Keeps g (m >>= f)
  >>=-Keeps m f hm hf w b w'' h = >>=-elim m f w h λ a w' e h'. hf a w' b w'' h' ∙ hm w a w' e

  pub pure-Keeps : {A : Type 0} (a : A) → Keeps g (pure a)
  pure-Keeps a w b w' h = ap g (sym (ok-injective h).1)

  pub when-Keeps : (c : Bool) (m : M env (Unit {0})) → Keeps g m → Keeps g (when c m)
  when-Keeps true m h w b w' e = h w b w' e
  when-Keeps false m h w b w' e = ap g (sym (ok-injective e).1)

module _ {env : Env} where
  abbrev pub facade_of : World env → ConnPoolFacade env
  facade_of w = w.facade

  pub lock_pool-Keeps : (p : ℕ) → Keeps facade_of (lock_pool p)
  lock_pool-Keeps p w a w' h = ground arith

  pub unlock_pool-Keeps : (p : ℕ) → Keeps facade_of (unlock_pool p)
  unlock_pool-Keeps p w a w' h = ground arith

  pub lock_conn-Keeps : (p : ℕ) → Keeps facade_of (lock_conn p)
  lock_conn-Keeps p w a w' h = ground arith

  pub unlock_conn-Keeps : (p : ℕ) → Keeps facade_of (unlock_conn p)
  unlock_conn-Keeps p w a w' h = ground arith

  pub set_pool-Keeps : (p : ℕ) (f : ConnPool → ConnPool) → Keeps facade_of (set_pool p f)
  set_pool-Keeps p f w a w' h = ap facade_of (sym (ok-injective h).1)

  pub set_conn-Keeps : (p : ℕ) (f : DriverConn → DriverConn) → Keeps facade_of (set_conn p f)
  set_conn-Keeps p f w a w' h = ap facade_of (sym (ok-injective h).1)
