-- ===== src/Gcache/Expire.antt =====
-- utils/tools/gcache/gcache_adapter_memory.go: the task that runs each second, with the maps of
-- gcache_adapter_memory_expire_times.go and gcache_adapter_memory_expire_sets.go. The whole task is one step.
use go_zero_admin_pkg.Prelude.{
  ℕ, zero, suc, ◌-◌, ◌*◌, ◌/◌, Option, none, some, List, [], ◌∷◌, if◌then◌else◌,
}
use go_zero_admin_pkg.Prelude.Int.{ℤ, pos, negsuc, eq_ℤ, is_zero, ◌-ℤ◌, ◌+ℤ◌}
use go_zero_admin_pkg.Prelude.Maps.{Key, int_key, find, put}
use go_zero_admin_pkg.Prelude.Maps
use go_zero_admin_pkg.Gset.{insert, discard}
use go_zero_admin_pkg.Gcache.Data
use go_zero_admin_pkg.Gcache.Adapter.{AdapterMemory, lru_remove}

-- Quotients round towards zero. The float64 in between is exact below 2^53 milliseconds.
abbrev pub seconds_of : ℤ → ℤ
seconds_of (pos n) = pos (n / 1000)
seconds_of (negsuc n) = pos 0 -ℤ pos (suc n / 1000)

abbrev pub thousand : ℤ → ℤ
thousand (pos n) = pos (n * 1000)
thousand (negsuc n) = negsuc (suc n * 1000 - 1)

unfoldable pub make_expire_key : ℤ → ℤ
make_expire_key expire = thousand (seconds_of expire +ℤ pos 1)

-- The zero value is read for a missing key.
abbrev pub or_zero : Option ℤ → ℤ
or_zero none = pos 0
or_zero (some t) = t

module _ {K : Type 0} ⦃e : Key K⦄ where
  abbrev pub or_new : Option (List K) → List K
  or_new none = []
  or_new (some s) = s

  -- `expireSets.GetOrNew(t).Add(k)` and `expireSets.GetOrNew(t).Remove(k)`
  unfoldable pub add_to : List (ℤ × List K) → ℤ → K → List (ℤ × List K)
  add_to sets t k = put t (insert k (or_new (find t sets))) sets

  unfoldable pub remove_from : List (ℤ × List K) → ℤ → K → List (ℤ × List K)
  remove_from sets t k = put t (discard k (or_new (find t sets))) sets

module _ {K V : Type 0} ⦃e : Key K⦄ where
  -- What one event does, of the key and the time at which it expires.
  unfoldable pub sync_event : AdapterMemory K V → K → ℤ → AdapterMemory K V
  sync_event c k t =
      let old = or_zero (find k c.expire_times) in
      let new = make_expire_key t in
      let added = add_to c.expire_sets new k in
      if eq_ℤ new old then c else record c {
        expire_sets = if is_zero old then added else remove_from added old k;
        expire_times = put k new c.expire_times;
      }

  unfoldable pub sync_events : AdapterMemory K V → List (K × ℤ) → AdapterMemory K V
  sync_events c [] = record c { event_list = [] }
  sync_events c ((k, t) ∷ events) = sync_events (sync_event c k t) events

  unfoldable pub delete_expired_key : AdapterMemory K V → K → AdapterMemory K V
  delete_expired_key c k = record c {
    entries = Data.delete c.entries k;
    expire_times = Maps.delete k c.expire_times;
  }

  unfoldable pub expire_each : AdapterMemory K V → List K → AdapterMemory K V
  expire_each c [] = c
  expire_each c (k ∷ ks) =
      let d = delete_expired_key c k in
      expire_each (record d { lru = lru_remove d.lru (k ∷ []) }) ks

  abbrev pub expire_set : AdapterMemory K V → ℤ → Option (List K) → AdapterMemory K V
  expire_set c t none = c
  expire_set c t (some ks) =
      let d = expire_each c ks in record d { expire_sets = Maps.delete t d.expire_sets }

  -- The seconds from the current one back, as many as `n`.
  unfoldable pub expire_seconds : ℕ → AdapterMemory K V → ℤ → AdapterMemory K V
  expire_seconds zero c t = c
  expire_seconds (suc n) c t =
      let u = t -ℤ pos 1000 in expire_seconds n (expire_set c u (find u c.expire_sets)) u

  -- A closed cache calls gtimer.Exit, which ends the timer's job.
  unfoldable pub sync_event_and_clear_expired : AdapterMemory K V → ℤ → AdapterMemory K V
  sync_event_and_clear_expired c now =
      if c.closed then c else expire_seconds 5 (sync_events c c.event_list) (make_expire_key now)
