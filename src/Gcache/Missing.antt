-- ===== src/Gcache/Missing.antt =====
-- utils/tools/gcache/gcache_adapter_memory.go: which keys the operations that set a missing key leave in a cache with an LRU manager.
use go_zero_admin_pkg.Prelude.{
  Bool, true, false, Option, none, some, List, [], ◌∷◌, if◌then◌else◌, inl, inr, Bool-cases,
}
use go_zero_admin_pkg.Prelude.Int.{ℤ}
use go_zero_admin_pkg.Prelude.Maps.{Key, find}
use go_zero_admin_pkg.Gcache.Lru.{MemoryLru}
use go_zero_admin_pkg.Gcache.Data.{
  MemoryDataItem, Given, plain, func, is_expired, live, update_found, update_expire_found,
  set_given, set_with_lock_found, remove_loop,
}
use go_zero_admin_pkg.Gcache.Data
use go_zero_admin_pkg.Gcache.Adapter.{
  AdapterMemory, get_internal_expire, push_event, handle_lru_key, get, contains,
}
use go_zero_admin_pkg.Gcache.Checked.{
  do_set_with_lock_check, or_set, or_set_func, get_or_set, get_or_set_func, is_set, set_result,
  set_if_not_exist, set_if_not_exist_func,
}
use go_zero_admin_pkg.Gcache.Handled.{get-IsCovered}
use go_zero_admin_pkg.Gcache.Bounded.{
  Covered, IsCovered, put-Covered, Covered-weaken, handle_lru_key-IsCovered,
}

module _ {K V : Type 0} ⦃e : Key K⦄ where
  waiting : (n : ℤ) (k : K) (c : AdapterMemory K V) → IsCovered n [] c → IsCovered n (k ∷ []) c
  waiting n k c (l, q, h) = (l, q, Covered-weaken n [] k c.entries l h)

  pub contains-IsCovered :
      (n : ℤ) (c : AdapterMemory K V) (k : K) (now : ℤ)
      → IsCovered n [] c
      → IsCovered n [] (contains c k now).0
  unfolding contains
  contains-IsCovered n c k now h = get-IsCovered n c k now h

module _ {K V E : Type 0} ⦃e : Key K⦄ where
  -- The key that is to be handled is in the cache or not.
  set_given-Covered :
      (n t : ℤ) (m : List (K × MemoryDataItem V)) (k : K) (v : Given V E) (l : MemoryLru K)
      → Covered n [] m l
      → Covered n (k ∷ []) (set_given m k v t).0 l
  set_given-Covered n t m k (plain v) l h = put-Covered n [] k (record { v = v; e = t }) m l h
  set_given-Covered n t m k (func v (some err)) l h = Covered-weaken n [] k m l h
  set_given-Covered n t m k (func none none) l h = Covered-weaken n [] k m l h
  set_given-Covered n t m k (func (some a) none) l h =
      put-Covered n [] k (record { v = some a; e = t }) m l h

  set_with_lock_found-Covered :
      (n t now : ℤ) (m : List (K × MemoryDataItem V)) (k : K) (v : Given V E)
      (o : Option (MemoryDataItem V)) (l : MemoryLru K)
      → Covered n [] m l
      → Covered n (k ∷ []) (set_with_lock_found m k v t now o).0 l
  set_with_lock_found-Covered n t now m k v none l h = set_given-Covered n t m k v l h
  set_with_lock_found-Covered n t now m k v (some item) l h =
      elim (Bool-cases (is_expired item now)) [
        | inl x ↦ rw x (set_given-Covered n t m k v l h)
        | inr x ↦ rw x (Covered-weaken n [] k m l h)
      ]

  checked-IsCovered :
      (n : ℤ) (c : AdapterMemory K V) (k : K) (v : Given V E) (duration now : ℤ)
      → IsCovered n [] c
      → IsCovered n (k ∷ []) (do_set_with_lock_check c k v duration now).0
  unfolding do_set_with_lock_check push_event Data.set_with_lock
  checked-IsCovered n c k v duration now (l, q, h) = (
    l,
    q,
    set_with_lock_found-Covered n (get_internal_expire duration now) now c.entries k v
        (find k c.entries) l h,
  )

  or_set-IsCovered :
      (n : ℤ) (c : AdapterMemory K V) (k : K) (v : Given V E) (duration now : ℤ)
      (o : Option (Option V))
      → IsCovered n [] c
      → IsCovered n (k ∷ []) (or_set c k v duration now o).0
  or_set-IsCovered n c k v duration now none h = checked-IsCovered n c k v duration now h
  or_set-IsCovered n c k v duration now (some w) h = waiting n k c h

  pub get_or_set-IsCovered :
      (n : ℤ) (c : AdapterMemory K V) (k : K) (v : Given V E) (duration now : ℤ)
      → IsCovered n [] c
      → IsCovered n [] (get_or_set c k v duration now).0
  unfolding get_or_set
  get_or_set-IsCovered n c k v duration now h =
      handle_lru_key-IsCovered n now (k ∷ []) []
        (or_set (get c k now).0 k v duration now (get c k now).1).0
        (or_set-IsCovered n (get c k now).0 k v duration now (get c k now).1
          (get-IsCovered n c k now h))

  or_set_func-IsCovered :
      (n : ℤ) (c : AdapterMemory K V) (k : K) (v : Option V) (err : Option E) (duration now : ℤ)
      (o : Option (Option V))
      → IsCovered n [] c
      → IsCovered n (k ∷ []) (or_set_func c k v err duration now o).0
  or_set_func-IsCovered n c k v (some err) duration now none h = waiting n k c h
  or_set_func-IsCovered n c k none none duration now none h = waiting n k c h
  or_set_func-IsCovered n c k (some a) none duration now none h =
      checked-IsCovered n c k (plain (some a)) duration now h
  or_set_func-IsCovered n c k v none duration now (some w) h = waiting n k c h
  or_set_func-IsCovered n c k v (some err) duration now (some w) h = waiting n k c h

  pub get_or_set_func-IsCovered :
      (n : ℤ) (c : AdapterMemory K V) (k : K) (v : Option V) (err : Option E) (duration now : ℤ)
      → IsCovered n [] c
      → IsCovered n [] (get_or_set_func c k v err duration now).0
  unfolding get_or_set_func
  get_or_set_func-IsCovered n c k v err duration now h =
      handle_lru_key-IsCovered n now (k ∷ []) []
        (or_set_func (get c k now).0 k v err duration now (get c k now).1).0
        (or_set_func-IsCovered n (get c k now).0 k v err duration now (get c k now).1
          (get-IsCovered n c k now h))

  is_set-IsCovered :
      (n : ℤ) (extra : List K) (r : AdapterMemory K V × (Option (Option V) × Option E))
      → IsCovered n extra r.0
      → IsCovered n extra (is_set r).0
  is_set-IsCovered n extra (c, (v, none)) h = h
  is_set-IsCovered n extra (c, (v, some err)) h = h

  -- What is done unless the key is in the cache, and the key handled in any case.
  unless_contained :
      (n now : ℤ) (k : K) (b : Bool) (c : AdapterMemory K V)
      (r : AdapterMemory K V × (Bool × Option E))
      → IsCovered n [] c
      → IsCovered n (k ∷ []) r.0
      → IsCovered n [] (handle_lru_key (if b then (c, (false, none)) else r).0 (k ∷ []) now)
  unless_contained n now k true c r h g =
      handle_lru_key-IsCovered n now (k ∷ []) [] c (waiting n k c h)
  unless_contained n now k false c r h g = handle_lru_key-IsCovered n now (k ∷ []) [] r.0 g

  pub set_if_not_exist-IsCovered :
      (n : ℤ) (c : AdapterMemory K V) (k : K) (v : Given V E) (duration now : ℤ)
      → IsCovered n [] c
      → IsCovered n [] (set_if_not_exist c k v duration now).0
  unfolding set_if_not_exist
  set_if_not_exist-IsCovered n c k v duration now h =
      let d = (contains c k now).0 in
      let g = contains-IsCovered n c k now h in
      unless_contained n now k (contains c k now).1 d
        (is_set (do_set_with_lock_check d k v duration now)) g
        (is_set-IsCovered n (k ∷ []) (do_set_with_lock_check d k v duration now)
          (checked-IsCovered n d k v duration now g))

  set_result-IsCovered :
      (n : ℤ) (c : AdapterMemory K V) (k : K) (v : Option V) (err : Option E) (duration now : ℤ)
      → IsCovered n [] c
      → IsCovered n (k ∷ []) (set_result c k v err duration now).0
  set_result-IsCovered n c k v (some err) duration now h = waiting n k c h
  set_result-IsCovered n c k v none duration now h =
      is_set-IsCovered n (k ∷ []) (do_set_with_lock_check c k (plain v) duration now)
        (checked-IsCovered n c k (plain v) duration now h)

  pub set_if_not_exist_func-IsCovered :
      (n : ℤ) (c : AdapterMemory K V) (k : K) (v : Option V) (err : Option E) (duration now : ℤ)
      → IsCovered n [] c
      → IsCovered n [] (set_if_not_exist_func c k v err duration now).0
  unfolding set_if_not_exist_func
  set_if_not_exist_func-IsCovered n c k v err duration now h =
      let d = (contains c k now).0 in
      let g = contains-IsCovered n c k now h in
      unless_contained n now k (contains c k now).1 d (set_result d k v err duration now) g
        (set_result-IsCovered n d k v err duration now g)
