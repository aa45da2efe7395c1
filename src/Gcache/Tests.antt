-- ===== src/Gcache/Tests.antt =====
-- The lemmas on the cache at concrete caches.
use go_zero_admin_pkg.Prelude.{ℕ, ◌≤◌, ◌≡◌, refl, none, some, [], ◌∷◌, ◌==◌, ==_iff, length, arith}
use go_zero_admin_pkg.Prelude.Int.{pos, ◌+ℤ◌}
use go_zero_admin_pkg.Prelude.Maps.{Key, find}
use go_zero_admin_pkg.Glist
use go_zero_admin_pkg.Gcache.Lru.{new_memory_lru}
use go_zero_admin_pkg.Gcache.Lru.Spec.{saves, called, Shows, called-Shows, new_memory_lru-IsLru}
use go_zero_admin_pkg.Gcache.Data.{MemoryDataItem}
use go_zero_admin_pkg.Gcache.Data
use go_zero_admin_pkg.Gcache.Adapter.{
  AdapterMemory, do_new_adapter_memory, new_adapter_memory_lru, set, get, handle_lru_key,
  push_event, get_internal_expire,
}
use go_zero_admin_pkg.Gcache.Expire.{sync_event_and_clear_expired}
use go_zero_admin_pkg.Gcache.Steps.{start, next, was_set, Reached-bound}
use go_zero_admin_pkg.Gcache.Gets.{plainly, get-set}
use go_zero_admin_pkg.Gcache.Due.{Sound, new-Sound, set-Sound, sync_lem, sync-Sound}

instance abbrev numbers : Key ℕ
numbers = record { beq = ◌==◌; beq_iff = ==_iff }

-- The third key of a manager for two evicts the first.
called-Shows_example :
    Shows {K = ℕ}
      (pos 2)
      (called (new_memory_lru (pos 2)) (saves (1 ∷ 2 ∷ 1 ∷ 3 ∷ [])))
      (3 ∷ 1 ∷ [], 2 ∷ [])
unfolding new_memory_lru Glist.new
called-Shows_example =
    called-Shows (new_memory_lru (pos 2)) (saves (1 ∷ 2 ∷ 1 ∷ 3 ∷ []))
      (new_memory_lru-IsLru (pos 2))

abbrev limited : AdapterMemory ℕ ℕ
limited = new_adapter_memory_lru (pos 1)

Reached-bound_example :
    length (set (set limited 1 (some 10) (pos 0) (pos 5000)) 2 none (pos 0) (pos 5000)).entries ≤ 1
Reached-bound_example =
    Reached-bound {E = ℕ} (pos 1)
      (set (set limited 1 (some 10) (pos 0) (pos 5000)) 2 none (pos 0) (pos 5000))
      (next (next start (was_set limited 1 (some 10) (pos 0) (pos 5000)))
        (was_set (set limited 1 (some 10) (pos 0) (pos 5000)) 2 none (pos 0) (pos 5000)))

abbrev fresh_cache : AdapterMemory ℕ ℕ
fresh_cache = do_new_adapter_memory

-- A value set for two seconds.
abbrev one_item : AdapterMemory ℕ ℕ
one_item = set fresh_cache 1 (some 10) (pos 2000000000) (pos 7500)

get-set_example :
    (get (set fresh_cache 1 (some 10) (pos 2000000000) (pos 7500)) 1 (pos 9500)).1 ≡ some (some 10)
unfolding do_new_adapter_memory set handle_lru_key push_event Data.set get_internal_expire ◌+ℤ◌
get-set_example =
    get-set fresh_cache 1 (some 10) (pos 2000000000) (pos 7500) (pos 9500) (plainly refl)

one_item-Sound : Sound one_item
unfolding do_new_adapter_memory set handle_lru_key push_event Data.set get_internal_expire ◌+ℤ◌
one_item-Sound = set-Sound fresh_cache 1 (some 10) (pos 2000000000) (pos 7500) refl new-Sound

sync-Sound_example : Sound (sync_event_and_clear_expired one_item (pos 11000))
sync-Sound_example = sync-Sound one_item 11000 one_item-Sound (omega arith)

sync_lem_example : find 1 (sync_event_and_clear_expired one_item (pos 11000)).entries ≡ none
unfolding do_new_adapter_memory set handle_lru_key push_event Data.set get_internal_expire ◌+ℤ◌
sync_lem_example =
    sync_lem one_item 11000 9500 1 (record { v = some 10; e = pos 9500 }) one_item-Sound refl
      (omega arith) refl refl
