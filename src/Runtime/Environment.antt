-- ===== src/Runtime/Environment.antt =====
-- What the code calls and does not implement: the LRU cache (hashicorp/golang-lru), the concurrent
-- map (orcaman/concurrent-map), the driver, the clock, contexts, and Go's order of map iteration.
-- A call that may answer differently each time takes the number of the call, the tick.
use memsql_conn_pool.Base.{
  ℕ, is_some, ◌≤◌, ◌≡◌, Bool, Option, none, some, List, [], ◌∷◌, length, contains, delete, count,
}
use memsql_conn_pool.Base.Int.{ℤ}
use memsql_conn_pool.Runtime.Errors.{Err}

-- A Go string, as its bytes.
abbrev pub Bytes : Type 0
Bytes = List ℕ

-- What a driver call returns: a value, or an error.
pub data Answer : Type 0 where
  gives : ℕ → Answer
  fails : Err → Answer

pub record Env : Type 1 where
  pub Lru : Type 0
  pub lru_new : ℤ → Option Lru
  pub lru_add : ℕ → Lru → Lru × Bool
  pub lru_remove : ℕ → Lru → Lru × Bool
  pub lru_remove_oldest : Lru → Option (ℕ × Lru)
  pub lru_keys : Lru → List ℕ
  pub lru_len : Lru → ℕ
  pub Cmap : Type 0
  pub cmap_new : Cmap
  pub cmap_has : Bytes → Cmap → Bool
  pub cmap_get : Bytes → Cmap → Option ℕ
  pub cmap_set : Bytes → ℕ → Cmap → Cmap
  pub cmap_iter : ℕ → Cmap → List (Bytes × ℕ)
  pub cmap_count : Cmap → ℕ
  pub now : ℕ → ℤ
  pub ctx_done : ℕ → ℕ → Option Err
  pub range : ℕ → List ℕ → List ℕ
  pub select : ℕ → Bool
  pub open_connector : ℕ → Bytes → Answer
  pub connect : ℕ → ℕ → Answer
  pub ci_close : ℕ → ℕ → Option Err
  pub is_resetter : ℕ → Bool
  pub reset_session : ℕ → ℕ → Option Err
  pub is_validator : ℕ → Bool
  pub is_valid : ℕ → ℕ → Bool
  pub si_close : ℕ → ℕ → Option Err

-- The documented behaviour of golang-lru's `Cache`: `Keys` lists the keys from oldest to newest,
-- `Remove` tells if the key was there, `RemoveOldest` takes the oldest, `Add` tells if it evicted.
pub record LruLaws (env : Env) : Type 0 where
  pub keys_remove :
      (k : ℕ) (c : env.Lru) → env.lru_keys (env.lru_remove k c).0 ≡ delete k (env.lru_keys c)
  pub present_remove : (k : ℕ) (c : env.Lru) → (env.lru_remove k c).1 ≡ contains k (env.lru_keys c)
  pub oldest_none : (c : env.Lru) → env.lru_keys c ≡ [] → env.lru_remove_oldest c ≡ none
  pub oldest_some :
      (c : env.Lru) (k : ℕ) (ks : List ℕ)
      → env.lru_keys c ≡ k ∷ ks
      → (c' : env.Lru) × (env.lru_remove_oldest c ≡ some (k, c')) × (env.lru_keys c' ≡ ks)
  pub len_keys : (c : env.Lru) → env.lru_len c ≡ length (env.lru_keys c)
  pub keys_once : (k : ℕ) (c : env.Lru) → count k (env.lru_keys c) ≤ 1

-- The documented behaviour of concurrent-map.
pub record CmapLaws (env : Env) : Type 0 where
  pub has_get : (k : Bytes) (m : env.Cmap) → env.cmap_has k m ≡ is_some (env.cmap_get k m)
  pub get_new : (k : Bytes) → env.cmap_get k env.cmap_new ≡ none
  pub get_set_self :
      (k : Bytes) (v : ℕ) (m : env.Cmap) → env.cmap_get k (env.cmap_set k v m) ≡ some v

-- Go's `range` over a map gives each key once, in any order.
pub record RangeLaws (env : Env) : Type 0 where
  pub each_once : (t k : ℕ) (xs : List ℕ) → count k (env.range t xs) ≡ count k xs
