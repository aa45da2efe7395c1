-- ===== src/Gcache/Synced.antt =====
-- utils/tools/gcache/gcache_adapter_memory.go: which keys the task of each second leaves in a cache with an LRU manager.
use go_zero_admin_pkg.Prelude.{
  ℕ, zero, suc, Bool, true, false, Option, none, some, List, [], ◌∷◌, if◌then◌else◌, inl, inr,
  Bool-cases,
}
use go_zero_admin_pkg.Prelude.Int.{ℤ, pos, eq_ℤ, ◌-ℤ◌}
use go_zero_admin_pkg.Prelude.Maps.{Key, int_key, find, delete}
use go_zero_admin_pkg.Gcache.Data.{
  MemoryDataItem, Given, plain, func, is_expired, live, update_found, update_expire_found,
  set_given, set_with_lock_found, remove_loop,
}
use go_zero_admin_pkg.Gcache.Data
use go_zero_admin_pkg.Gcache.Adapter.{AdapterMemory, lru_remove}
use go_zero_admin_pkg.Gcache.Expire.{
  make_expire_key, or_zero, sync_event, sync_events, delete_expired_key, expire_each, expire_set,
  expire_seconds, sync_event_and_clear_expired,
}
use go_zero_admin_pkg.Gcache.Handled.{remove_lru}
use go_zero_admin_pkg.Gcache.Bounded.{IsCovered, delete-Covered}

module _ {K V : Type 0} ⦃e : Key K⦄ where
  expire_each-IsCovered :
      (n : ℤ) (c : AdapterMemory K V) (ks : List K)
      → IsCovered n [] c
      → IsCovered n [] (expire_each c ks)
  unfolding expire_each delete_expired_key Data.delete
  expire_each-IsCovered n c [] h = h
  expire_each-IsCovered n c (k ∷ ks) (l, q, h) =
      expire_each-IsCovered n (record (delete_expired_key c k) { lru = lru_remove c.lru (k ∷ []) })
        ks
        (remove_lru n (k ∷ []) (delete k c.entries) (delete_expired_key c k) c.lru l q
          (delete-Covered n k c.entries l h))

  expire_set-IsCovered :
      (n : ℤ) (c : AdapterMemory K V) (t : ℤ) (o : Option (List K))
      → IsCovered n [] c
      → IsCovered n [] (expire_set c t o)
  expire_set-IsCovered n c t none h = h
  expire_set-IsCovered n c t (some ks) h = expire_each-IsCovered n c ks h

  expire_seconds-IsCovered :
      (n : ℤ) (rounds : ℕ) (c : AdapterMemory K V) (t : ℤ)
      → IsCovered n [] c
      → IsCovered n [] (expire_seconds rounds c t)
  unfolding expire_seconds
  expire_seconds-IsCovered n zero c t h = h
  expire_seconds-IsCovered n (suc rounds) c t h =
      let u = t -ℤ pos 1000 in
      expire_seconds-IsCovered n rounds (expire_set c u (find u c.expire_sets)) u
        (expire_set-IsCovered n c u (find u c.expire_sets) h)

  sync_event-IsCovered :
      (n : ℤ) (c : AdapterMemory K V) (k : K) (t : ℤ)
      → IsCovered n [] c
      → IsCovered n [] (sync_event c k t)
  unfolding sync_event
  sync_event-IsCovered n c k t h =
      elim (Bool-cases (eq_ℤ (make_expire_key t) (or_zero (find k c.expire_times)))) [
        | inl x ↦ rw x h
        | inr x ↦ rw x h
      ]

  sync_events-IsCovered :
      (n : ℤ) (c : AdapterMemory K V) (events : List (K × ℤ))
      → IsCovered n [] c
      → IsCovered n [] (sync_events c events)
  unfolding sync_events
  sync_events-IsCovered n c [] h = h
  sync_events-IsCovered n c ((k, t) ∷ events) h =
      sync_events-IsCovered n (sync_event c k t) events (sync_event-IsCovered n c k t h)

  either_way :
      (n : ℤ) (b : Bool) (extra : List K) (c d : AdapterMemory K V)
      → IsCovered n extra c
      → IsCovered n extra d
      → IsCovered n extra (if b then c else d)
  either_way n true extra c d h k = h
  either_way n false extra c d h k = k

  pub sync-IsCovered :
      (n : ℤ) (c : AdapterMemory K V) (now : ℤ)
      → IsCovered n [] c
      → IsCovered n [] (sync_event_and_clear_expired c now)
  unfolding sync_event_and_clear_expired
  sync-IsCovered n c now h =
      either_way n c.closed [] c
        (expire_seconds 5 (sync_events c c.event_list) (make_expire_key now)) h
        (expire_seconds-IsCovered n 5 (sync_events c c.event_list) (make_expire_key now)
          (sync_events-IsCovered n c c.event_list h))
