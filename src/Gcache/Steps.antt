-- ===== src/Gcache/Steps.antt =====
-- utils/tools/gcache/gcache_adapter_memory.go: the operations of a cache with an LRU manager as steps.
use go_zero_admin_pkg.Prelude.{◌≤◌, refl, Option, List, [], length}
use go_zero_admin_pkg.Prelude.Int.{ℤ, to_ℕ}
use go_zero_admin_pkg.Prelude.Maps.{Key}
use go_zero_admin_pkg.Gcache.Lru.{new_memory_lru}
use go_zero_admin_pkg.Gcache.Lru.Spec.{new_memory_lru-IsLru}
use go_zero_admin_pkg.Gcache.Data.{Given, func}
use go_zero_admin_pkg.Gcache.Adapter.{
  AdapterMemory, do_new_adapter_memory, new_adapter_memory_lru, get, contains, get_expire, update,
  update_expire, set, set_map, remove, clear, close,
}
use go_zero_admin_pkg.Gcache.Checked.{
  get_or_set, get_or_set_func, get_or_set_func_lock, set_if_not_exist, set_if_not_exist_func,
  set_if_not_exist_func_lock,
}
use go_zero_admin_pkg.Gcache.Expire.{sync_event_and_clear_expired}
use go_zero_admin_pkg.Gcache.Handled.{
  set-IsCovered, get-IsCovered, get_expire-IsCovered, update-IsCovered, update_expire-IsCovered,
  remove-IsCovered, clear-IsCovered,
}
use go_zero_admin_pkg.Gcache.SetMap.{set_map-IsCovered}
use go_zero_admin_pkg.Gcache.Synced.{sync-IsCovered}
use go_zero_admin_pkg.Gcache.Missing.{
  contains-IsCovered, get_or_set-IsCovered, get_or_set_func-IsCovered, set_if_not_exist-IsCovered,
  set_if_not_exist_func-IsCovered,
}
use go_zero_admin_pkg.Gcache.Bounded.{IsCovered, length-Covered}

-- Each operation of the cache that may change it, with its arguments and the time. E is the type of errors.
pub data Step {K V : Type 0} ⦃e : Key K⦄ (E : Type 0)
    : AdapterMemory K V → AdapterMemory K V → Type 0 where
  was_set :
      (c : AdapterMemory K V) (k : K) (v : Option V) (duration now : ℤ)
      → Step E c (set c k v duration now)
  map_set :
      (c : AdapterMemory K V) (values : List (K × Option V)) (duration now : ℤ)
      → Step E c (set_map c values duration now)
  missing_set :
      (c : AdapterMemory K V) (k : K) (v : Given V E) (duration now : ℤ)
      → Step E c (set_if_not_exist c k v duration now).0
  missing_set_func :
      (c : AdapterMemory K V) (k : K) (v : Option V) (err : Option E) (duration now : ℤ)
      → Step E c (set_if_not_exist_func c k v err duration now).0
  missing_set_func_lock :
      (c : AdapterMemory K V) (k : K) (v : Option V) (err : Option E) (duration now : ℤ)
      → Step E c (set_if_not_exist_func_lock c k v err duration now).0
  was_got : (c : AdapterMemory K V) (k : K) (now : ℤ) → Step E c (get c k now).0
  got_or_set :
      (c : AdapterMemory K V) (k : K) (v : Given V E) (duration now : ℤ)
      → Step E c (get_or_set c k v duration now).0
  got_or_set_func :
      (c : AdapterMemory K V) (k : K) (v : Option V) (err : Option E) (duration now : ℤ)
      → Step E c (get_or_set_func c k v err duration now).0
  got_or_set_func_lock :
      (c : AdapterMemory K V) (k : K) (v : Option V) (err : Option E) (duration now : ℤ)
      → Step E c (get_or_set_func_lock c k v err duration now).0
  was_contained : (c : AdapterMemory K V) (k : K) (now : ℤ) → Step E c (contains c k now).0
  got_expire : (c : AdapterMemory K V) (k : K) (now : ℤ) → Step E c (get_expire c k now).0
  removed : (c : AdapterMemory K V) (ks : List K) (now : ℤ) → Step E c (remove c ks now).0
  updated : (c : AdapterMemory K V) (k : K) (v : Option V) (now : ℤ) → Step E c (update c k v now).0
  updated_expire :
      (c : AdapterMemory K V) (k : K) (duration now : ℤ)
      → Step E c (update_expire c k duration now).0
  cleared : (c : AdapterMemory K V) → Step E c (clear c)
  was_closed : (c : AdapterMemory K V) → Step E c (close c)
  synced : (c : AdapterMemory K V) (now : ℤ) → Step E c (sync_event_and_clear_expired c now)

-- The caches that operations make of a new one with an LRU manager of capacity `cap`.
pub data Reached {K V : Type 0} ⦃e : Key K⦄ (E : Type 0) (cap : ℤ)
    : AdapterMemory K V → Type 0 where
  start : Reached E cap (new_adapter_memory_lru cap)
  next : {c d : AdapterMemory K V} → Reached E cap c → Step E c d → Reached E cap d

module _ {K V E : Type 0} ⦃e : Key K⦄ where
  Step-IsCovered :
      (n : ℤ) (c d : AdapterMemory K V) → Step E c d → IsCovered n [] c → IsCovered n [] d
  unfolding get_or_set_func_lock set_if_not_exist_func_lock close
  Step-IsCovered n _ _ (was_set c k v t now) h = set-IsCovered n c k v t now h
  Step-IsCovered n _ _ (map_set c vs t now) h = set_map-IsCovered n c vs t now h
  Step-IsCovered n _ _ (missing_set c k v t now) h = set_if_not_exist-IsCovered n c k v t now h
  Step-IsCovered n _ _ (missing_set_func c k v err t now) h =
      set_if_not_exist_func-IsCovered n c k v err t now h
  Step-IsCovered n _ _ (missing_set_func_lock c k v err t now) h =
      set_if_not_exist-IsCovered n c k (func v err) t now h
  Step-IsCovered n _ _ (was_got c k now) h = get-IsCovered n c k now h
  Step-IsCovered n _ _ (got_or_set c k v t now) h = get_or_set-IsCovered n c k v t now h
  Step-IsCovered n _ _ (got_or_set_func c k v err t now) h =
      get_or_set_func-IsCovered n c k v err t now h
  Step-IsCovered n _ _ (got_or_set_func_lock c k v err t now) h =
      get_or_set-IsCovered n c k (func v err) t now h
  Step-IsCovered n _ _ (was_contained c k now) h = contains-IsCovered n c k now h
  Step-IsCovered n _ _ (got_expire c k now) h = get_expire-IsCovered n c k now h
  Step-IsCovered n _ _ (removed c ks now) h = remove-IsCovered n c ks now h
  Step-IsCovered n _ _ (updated c k v now) h = update-IsCovered n c k v now h
  Step-IsCovered n _ _ (updated_expire c k t now) h = update_expire-IsCovered n c k t now h
  Step-IsCovered n _ _ (cleared c) h = clear-IsCovered n c h
  Step-IsCovered n _ _ (was_closed c) h = h
  Step-IsCovered n _ _ (synced c now) h = sync-IsCovered n c now h

  Reached-IsCovered : (n : ℤ) (c : AdapterMemory K V) → Reached E n c → IsCovered n [] c
  unfolding new_adapter_memory_lru do_new_adapter_memory new_memory_lru
  Reached-IsCovered n _ start = (
    new_memory_lru n,
    refl,
    record {
      distinct = tt;
      is_lru = new_memory_lru-IsLru n;
      same_cap = refl;
      inside = λ k there. absurd (cc);
    },
  )
  Reached-IsCovered n _ (next {c = c} {d = d} r s) =
      Step-IsCovered n c d s (Reached-IsCovered n c r)

  -- However a cache with an LRU manager is used, it never holds more items than the capacity.
  pub Reached-bound :
      (cap : ℤ) (c : AdapterMemory K V) → Reached E cap c → length c.entries ≤ to_ℕ cap
  Reached-bound cap c r = let h = Reached-IsCovered cap c r in length-Covered cap c.entries h.0 h.2
