-- ===== src/Gcache/Handled.antt =====
-- utils/tools/gcache/gcache_adapter_memory.go: which keys each operation leaves in a cache with an LRU manager.
use go_zero_admin_pkg.Prelude.{
  ◌≡◌, refl, ◌∙◌, false, Option, none, some, List, [], ◌∷◌, if◌then◌else◌, arith, inl, inr,
  Bool-cases,
}
use go_zero_admin_pkg.Prelude.Int.{ℤ, pos, negsuc, eq_ℤ, ◌-ℤ◌}
use go_zero_admin_pkg.Prelude.Maps.{Key, find, put}
use go_zero_admin_pkg.Gcache.Lru.{MemoryLru, new_memory_lru}
use go_zero_admin_pkg.Gcache.Lru
use go_zero_admin_pkg.Gcache.Lru.Refines.{IsLru}
use go_zero_admin_pkg.Gcache.Lru.Spec.{clears, called-Shows}
use go_zero_admin_pkg.Gcache.Data.{
  MemoryDataItem, Given, plain, func, is_expired, live, update_found, update_expire_found,
  set_given, set_with_lock_found, remove_loop,
}
use go_zero_admin_pkg.Gcache.Data
use go_zero_admin_pkg.Gcache.Adapter.{
  AdapterMemory, lru_remove, lru_clear, get_internal_expire, push_event, handle_lru_key, get_item,
  expire_of, do_remove, get, get_expire, update, update_expire, set, remove, clear,
}
use go_zero_admin_pkg.Gcache.Covers.{find-remove_loop, remove_loop-Distinct}
use go_zero_admin_pkg.Gcache.Bounded.{
  Covered, IsCovered, put-Covered, Covered-weaken, remove-Covered, handle_lru_key-IsCovered,
}

-- Whole milliseconds are never one nanosecond short.
milliseconds-ne : (z : ℤ) → eq_ℤ (Data.milliseconds z) (negsuc 0) ≡ false
milliseconds-ne (pos n) = refl
milliseconds-ne (negsuc n) = ground arith

module _ {K V : Type 0} ⦃e : Key K⦄ where
  pub handled :
      (n now : ℤ) (k : K) (c : AdapterMemory K V)
      → IsCovered n [] c
      → IsCovered n [] (handle_lru_key c (k ∷ []) now)
  handled n now k c (l, q, v) =
      handle_lru_key-IsCovered n now (k ∷ []) [] c (l, q, Covered-weaken n [] k c.entries l v)

  -- A key that was put is handled next.
  put_handled :
      (n now t : ℤ) (k : K) (item : MemoryDataItem V) (c : AdapterMemory K V)
      → IsCovered n [] c
      → IsCovered n [] (
          handle_lru_key
            (push_event (record c { entries = put k item c.entries }) k t)
            (k ∷ [])
            now)
  unfolding push_event
  put_handled n now t k item c (l, q, v) =
      handle_lru_key-IsCovered n now (k ∷ []) []
        (push_event (record c { entries = put k item c.entries }) k t)
        (l, q, put-Covered n [] k item c.entries l v)

  pub set-IsCovered :
      (n : ℤ) (c : AdapterMemory K V) (k : K) (v : Option V) (duration now : ℤ)
      → IsCovered n [] c
      → IsCovered n [] (set c k v duration now)
  unfolding set Data.set
  set-IsCovered n c k v duration now h =
      let t = get_internal_expire duration now in
      put_handled n now t k (record { v = v; e = t }) c h

  pub get_item-IsCovered :
      (n : ℤ) (c : AdapterMemory K V) (k : K) (now : ℤ) (o : Option (MemoryDataItem V))
      → IsCovered n [] c
      → IsCovered n [] (get_item c k now o).0
  get_item-IsCovered n c k now none h = h
  get_item-IsCovered n c k now (some item) h = elim (Bool-cases (is_expired item now)) [
    | inl x ↦ rw x h
    | inr x ↦ rw x (handled n now k c h)
  ]

  pub get-IsCovered :
      (n : ℤ) (c : AdapterMemory K V) (k : K) (now : ℤ)
      → IsCovered n [] c
      → IsCovered n [] (get c k now).0
  unfolding get
  get-IsCovered n c k now h = get_item-IsCovered n c k now (Data.get c.entries k) h

  expire_of-IsCovered :
      (n : ℤ) (c : AdapterMemory K V) (k : K) (now : ℤ) (o : Option (MemoryDataItem V))
      → IsCovered n [] c
      → IsCovered n [] (expire_of c k now o).0
  expire_of-IsCovered n c k now none h = h
  expire_of-IsCovered n c k now (some item) h = handled n now k c h

  pub get_expire-IsCovered :
      (n : ℤ) (c : AdapterMemory K V) (k : K) (now : ℤ)
      → IsCovered n [] c
      → IsCovered n [] (get_expire c k now).0
  unfolding get_expire
  get_expire-IsCovered n c k now h = expire_of-IsCovered n c k now (Data.get c.entries k) h

  update_found-IsCovered :
      (n now : ℤ) (c : AdapterMemory K V) (k : K) (v : Option V) (o : Option (MemoryDataItem V))
      → IsCovered n [] c
      → let r = update_found c.entries k v o in
        IsCovered n [] (
          if r.1.1
          then handle_lru_key (record c { entries = r.0 }) (k ∷ []) now
          else record c { entries = r.0 })
  update_found-IsCovered n now c k v none h = h
  update_found-IsCovered n now c k v (some item) (l, q, h) =
      let fresh : MemoryDataItem V = record { v = v; e = item.e } in
      handle_lru_key-IsCovered n now (k ∷ []) [] (record c { entries = put k fresh c.entries })
        (l, q, put-Covered n [] k fresh c.entries l h)

  update_expire_found-IsCovered :
      (n now t : ℤ) (c : AdapterMemory K V) (k : K) (o : Option (MemoryDataItem V))
      → IsCovered n [] c
      → let r = update_expire_found c.entries k t now o in
        IsCovered n [] (
          if eq_ℤ r.1 (negsuc 0)
          then record c { entries = r.0 }
          else handle_lru_key (push_event (record c { entries = r.0 }) k t) (k ∷ []) now)
  unfolding push_event
  update_expire_found-IsCovered n now t c k none h = h
  update_expire_found-IsCovered n now t c k (some item) (l, q, h) =
      let fresh : MemoryDataItem V = record { v = item.v; e = t } in
      rw (milliseconds-ne (item.e -ℤ now)) (
        handle_lru_key-IsCovered n now (k ∷ []) []
          (push_event (record c { entries = put k fresh c.entries }) k t)
          (l, q, put-Covered n [] k fresh c.entries l h))

  pub update-IsCovered :
      (n : ℤ) (c : AdapterMemory K V) (k : K) (v : Option V) (now : ℤ)
      → IsCovered n [] c
      → IsCovered n [] (update c k v now).0
  unfolding update Data.update
  update-IsCovered n c k v now h = update_found-IsCovered n now c k v (find k c.entries) h

  pub update_expire-IsCovered :
      (n : ℤ) (c : AdapterMemory K V) (k : K) (duration now : ℤ)
      → IsCovered n [] c
      → IsCovered n [] (update_expire c k duration now).0
  unfolding update_expire Data.update_expire
  update_expire-IsCovered n c k duration now h =
      update_expire_found-IsCovered n now (get_internal_expire duration now) c k (find k c.entries)
        h

  pub remove_lru :
      (n : ℤ) (ks : List K) (m : List (K × MemoryDataItem V)) (c : AdapterMemory K V)
      (o : Option (MemoryLru K)) (l : MemoryLru K)
      → o ≡ some l
      → Covered n [] m (Lru.remove l ks)
      → IsCovered n [] (record c { entries = m; lru = lru_remove o ks })
  remove_lru n ks m c o l q h = rw q (Lru.remove l ks, refl, h)

  pub remove-IsCovered :
      (n : ℤ) (c : AdapterMemory K V) (ks : List K) (now : ℤ)
      → IsCovered n [] c
      → IsCovered n [] (remove c ks now).0
  unfolding remove do_remove Data.remove
  remove-IsCovered n c ks now (l, q, h) =
      remove_lru n ks (remove_loop c.entries ks none).0 (do_remove c ks now).0 c.lru l q (
        remove-Covered n ks c.entries (remove_loop c.entries ks none).0 l h
          (remove_loop-Distinct c.entries ks none h.distinct) (find-remove_loop c.entries ks none))

  clear_lru :
      (n : ℤ) (c : AdapterMemory K V) (o : Option (MemoryLru K)) (l : MemoryLru K)
      → o ≡ some l
      → IsLru l
      → l.cap ≡ n
      → IsCovered n [] (record c { entries = []; lru = lru_clear o })
  clear_lru n c o l q i s =
      let shown = called-Shows l clears i in
      rw q (
        Lru.clear l,
        refl,
        record {
          distinct = tt;
          is_lru = shown.is_lru;
          same_cap = shown.same_cap ∙ s;
          inside = λ j there. absurd (cc);
        },
      )

  pub clear-IsCovered :
      (n : ℤ) (c : AdapterMemory K V) → IsCovered n [] c → IsCovered n [] (clear c)
  unfolding clear Data.clear
  clear-IsCovered n c (l, q, h) = clear_lru n c c.lru l q h.is_lru h.same_cap
