-- ===== src/Pool/Acquire/Limit.antt =====
-- The limit of connections under `conn` of conn_pool.go, which asks `canAddNewConn` and counts by
-- `incrementNumOpened` under two locks of the facade's mutex.
use memsql_conn_pool.Base.{ℕ, ◌≡◌, refl, ap, true, false, arith, update}
use memsql_conn_pool.Base.Int.{pos, ◌+ℤ◌, ◌≤ℤ◌, +ℤ_parts}
use memsql_conn_pool.Closing.Bound.{IsBounded}
use memsql_conn_pool.Facade.Counters.{can_add_new_conn, increment_num_opened}
use memsql_conn_pool.Runtime.{Env, World, ok, ◌>>=◌, Returns, when}

-- Where a goroutine stands in `conn`.
pub data Pc : Type 0 where
  asking allowed counted : Pc

-- Goroutines that open connections, each at its own place.
pub record Openers (env : Env) : Type 0 where
  pub world : World env
  pub pc : ℕ → Pc

-- One goroutine takes its next step, a call that takes and frees the facade's mutex.
pub data Step {env : Env} : Openers env → Openers env → Type 0 where
  asks :
      (s : Openers env) (i : ℕ) (w : World env)
      → s.pc i ≡ asking
      → can_add_new_conn s.world ≡ ok true w
      → Step s (record { world = w; pc = update s.pc i allowed })
  counts :
      (s : Openers env) (i : ℕ) (w : World env)
      → s.pc i ≡ allowed
      → increment_num_opened s.world ≡ ok tt w
      → Step s (record { world = w; pc = update s.pc i counted })

pub data Reach {env : Env} (s : Openers env) : Openers env → Type 0 where
  here : Reach s s
  next : {t u : Openers env} → Reach s t → Step t u → Reach s u

module _ {env : Env} where
  counted_once : World env → World env
  counted_once w =
      let f = w.facade in
      record w { facade = record f { num_opened = f.num_opened +ℤ pos 1; mu = false } }

  unlocked : World env → World env
  unlocked w = let f = w.facade in record w { facade = record f { mu = false } }

  asks_allowed :
      (w : World env)
      → w.facade.mu ≡ false
      → (w.facade.num_opened +ℤ pos 1) ≤ℤ w.facade.total_max
      → can_add_new_conn w ≡ ok true (unlocked w)
  unfolding can_add_new_conn unlocked
  asks_allowed w free room = ground (arith, +ℤ_parts w.facade.num_opened (pos 1))

  counts_up :
      (w : World env) → w.facade.mu ≡ false → increment_num_opened w ≡ ok tt (counted_once w)
  unfolding increment_num_opened counted_once
  counts_up w free = ground arith

  -- With the facade's mutex free, one goroutine that asks `canAddNewConn`, and counts by
  -- `incrementNumOpened` if it may before any other asks, returns and stays within the limit,
  -- which is as before.
  pub ask_then_count-IsBounded :
      (w : World env)
      → w.facade.mu ≡ false
      → IsBounded w
      → Returns
          ((can_add_new_conn >>= λ can. when can increment_num_opened) w)
          λ _ w'. IsBounded w' × (w'.facade.total_max ≡ w.facade.total_max)
  unfolding can_add_new_conn increment_num_opened
  ask_then_count-IsBounded w free bounded = ground (arith, +ℤ_parts w.facade.num_opened (pos 1))

  -- With one place left and the facade's mutex free, two goroutines may both be let through by
  -- `canAddNewConn` before either counts: then the facade counts one connection more than its
  -- limit.
  pub ask_then_count-races :
      (w : World env)
      → w.facade.mu ≡ false
      → w.facade.num_opened +ℤ pos 1 ≡ w.facade.total_max
      → (t : Openers env) × Reach (record { world = w; pc = λ _. asking }) t
        × (t.pc 0 ≡ counted)
        × (t.pc 1 ≡ counted)
        × (t.world.facade.num_opened ≡ w.facade.total_max +ℤ pos 1)
  unfolding unlocked counted_once
  ask_then_count-races w free one_left = (
    record {
      world = counted_once (counted_once (unlocked (unlocked w)));
      pc = update (update (update (update (λ _. asking) 0 allowed) 1 allowed) 0 counted) 1 counted;
    },
    next
        (next
          (next (next here (asks _ 0 _ refl (asks_allowed w free room)))
            (asks _ 1 _ refl (asks_allowed (unlocked w) refl room)))
          (counts _ 0 _ refl (counts_up _ refl)))
        (counts _ 1 _ refl (counts_up _ refl)),
    refl,
    refl,
    ap (λ n. n +ℤ pos 1) one_left,
  )
    where
      room : w.facade.num_opened +ℤ pos 1 ≤ℤ w.facade.total_max
      room = rw one_left (omega arith)
