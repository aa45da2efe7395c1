-- ===== src/Gcache/SetMap.antt =====
-- utils/tools/gcache/gcache_adapter_memory.go: which keys SetMap leaves in a cache with an LRU manager.
use go_zero_admin_pkg.Prelude.{
  ◌≡◌, Option, some, List, [], ◌∷◌, ◌++◌, if◌then◌else◌, arith, append-nil,
}
use go_zero_admin_pkg.Prelude.Int.{ℤ}
use go_zero_admin_pkg.Prelude.Maps.{Key, is_some, put, occurs, occurs-append}
use go_zero_admin_pkg.Gcache.Lru.{MemoryLru}
use go_zero_admin_pkg.Gcache.Data.{
  MemoryDataItem, Given, plain, func, is_expired, live, update_found, update_expire_found,
  set_given, set_with_lock_found, remove_loop,
}
use go_zero_admin_pkg.Gcache.Data
use go_zero_admin_pkg.Gcache.Adapter.{
  AdapterMemory, get_internal_expire, push_event, push_events, handle_each, handle_lru_key, set_map,
}
use go_zero_admin_pkg.Gcache.Bounded.{Covered, IsCovered, put-Covered, handle_lru_key-IsCovered}

-- The values of a map that are set, and then handled one by one.
abbrev values_keys : {K V : Type 0} → List (K × Option V) → List K
values_keys [] = []
values_keys ((k, v) ∷ values) = k ∷ values_keys values

module _ {K V : Type 0} ⦃e : Key K⦄ where
  Covered-regroup :
      (n : ℤ) (a b : List K) (m : List (K × MemoryDataItem V)) (l : MemoryLru K)
      → ((j : K) → occurs j a ≡ occurs j b)
      → Covered n a m l
      → Covered n b m l
  Covered-regroup n a b m l same c = record {
    distinct = c.distinct;
    is_lru = c.is_lru;
    same_cap = c.same_cap;
    inside = λ j there. let old = c.inside j there in let eq = same j in ground arith;
  }

  set_map-Covered :
      (n t : ℤ) (values : List (K × Option V)) (extra : List K) (m : List (K × MemoryDataItem V))
      (l : MemoryLru K)
      → Covered n extra m l
      → Covered n (values_keys values ++ extra) (Data.set_map m values t) l
  unfolding Data.set_map
  set_map-Covered n t [] extra m l c = c
  set_map-Covered n t ((k, v) ∷ values) extra m l c =
      let item : MemoryDataItem V = record { v = v; e = t } in
      Covered-regroup n (values_keys values ++ k ∷ extra) (k ∷ values_keys values ++ extra)
        (Data.set_map (put k item m) values t) l
        (λ j.
          let a = occurs-append j (values_keys values) (k ∷ extra) in
          let b = occurs-append j (values_keys values) extra in ground arith)
        (set_map-Covered n t values (k ∷ extra) (put k item m) l (put-Covered n extra k item m l c))

  push_events-IsCovered :
      (n t : ℤ) (extra : List K) (values : List (K × Option V)) (c : AdapterMemory K V)
      → IsCovered n extra c
      → IsCovered n extra (push_events c values t)
  unfolding push_events push_event
  push_events-IsCovered n t extra [] c h = h
  push_events-IsCovered n t extra ((k, v) ∷ values) c h =
      push_events-IsCovered n t extra values (push_event c k t) h

  handle_each-IsCovered :
      (n now : ℤ) (values : List (K × Option V)) (c : AdapterMemory K V)
      → IsCovered n (values_keys values) c
      → IsCovered n [] (handle_each c values now)
  unfolding handle_each
  handle_each-IsCovered n now [] c h = h
  handle_each-IsCovered n now ((k, v) ∷ values) c h =
      handle_each-IsCovered n now values (handle_lru_key c (k ∷ []) now)
        (handle_lru_key-IsCovered n now (k ∷ []) (values_keys values) c h)

  if_some-IsCovered :
      (n : ℤ) (o : Option (MemoryLru K)) (l : MemoryLru K) (c d : AdapterMemory K V)
      → o ≡ some l
      → IsCovered n [] c
      → IsCovered n [] (if is_some o then c else d)
  if_some-IsCovered n o l c d q h = rw q h

  pub set_map-IsCovered :
      (n : ℤ) (c : AdapterMemory K V) (values : List (K × Option V)) (duration now : ℤ)
      → IsCovered n [] c
      → IsCovered n [] (set_map c values duration now)
  unfolding set_map
  set_map-IsCovered n c values duration now (l, q, v) =
      let t = get_internal_expire duration now in
      let d = push_events (record c { entries = Data.set_map c.entries values t }) values t in
      let h : IsCovered n (values_keys values) d =
        push_events-IsCovered n t (values_keys values) values
          (record c { entries = Data.set_map c.entries values t })
          (
            l,
            q,
            rw (append-nil (values_keys values)) at (set_map-Covered n t values [] c.entries l v),
          ) in
      if_some-IsCovered n d.lru h.0 (handle_each d values now) d h.1
        (handle_each-IsCovered n now values d h)
