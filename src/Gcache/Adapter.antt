-- ===== src/Gcache/Adapter.antt =====
-- utils/tools/gcache/gcache_adapter_memory.go: the cache, whose operations are called one at a time.
-- The locks, the context and the errors that are always nil are left out. `expire_sets` holds each gset.Set as
-- the list of its keys. A gvar.Var that is nil is `none`, and one that holds a value is `some` of it.
use go_zero_admin_pkg.Prelude.{
  ℕ, suc, ◌/◌, Bool, true, false, not, Option, none, some, List, [], ◌∷◌, ◌++◌, map, if◌then◌else◌,
}
use go_zero_admin_pkg.Prelude.Int.{ℤ, pos, negsuc, eq_ℤ, is_zero, ◌-ℤ◌, ◌+ℤ◌}
use go_zero_admin_pkg.Prelude.Maps.{Key, is_some}
use go_zero_admin_pkg.Gcache.Lru.{MemoryLru, new_memory_lru, save_and_evict}
use go_zero_admin_pkg.Gcache.Lru
use go_zero_admin_pkg.Gcache.Data.{MemoryDataItem, Given, plain, func, is_expired, remove_loop}
use go_zero_admin_pkg.Gcache.Data

pub record AdapterMemory (K V : Type 0) : Type 0 where
  pub entries : List (K × MemoryDataItem V)
  pub expire_times : List (K × ℤ)
  pub expire_sets : List (ℤ × List K)
  pub lru : Option (MemoryLru K)
  pub event_list : List (K × ℤ)
  pub closed : Bool

abbrev pub default_max_expire : ℤ
default_max_expire = pos 9223372036854

-- `duration.Nanoseconds()/1000000`, which rounds towards zero.
abbrev pub to_milliseconds : ℤ → ℤ
to_milliseconds (pos n) = pos (n / 1000000)
to_milliseconds (negsuc n) = pos 0 -ℤ pos (suc n / 1000000)

unfoldable pub get_internal_expire : ℤ → ℤ → ℤ
get_internal_expire duration now =
    if is_zero duration then default_max_expire else now +ℤ to_milliseconds duration

module _ {K : Type 0} where
  abbrev pub lru_clear : Option (MemoryLru K) → Option (MemoryLru K)
  lru_clear none = none
  lru_clear (some l) = some (Lru.clear l)

module _ {K : Type 0} ⦃e : Key K⦄ where
  -- `Remove` of a nil LRU manager does nothing.
  abbrev pub lru_remove : Option (MemoryLru K) → List K → Option (MemoryLru K)
  lru_remove none keys = none
  lru_remove (some l) keys = some (Lru.remove l keys)

module _ {K V : Type 0} where
  unfoldable pub do_new_adapter_memory : AdapterMemory K V
  do_new_adapter_memory = record {
    entries = [];
    expire_times = [];
    expire_sets = [];
    lru = none;
    event_list = [];
    closed = false;
  }

  unfoldable pub new_adapter_memory_lru : ℤ → AdapterMemory K V
  new_adapter_memory_lru cap = record do_new_adapter_memory { lru = some (new_memory_lru cap) }

  unfoldable pub push_event : AdapterMemory K V → K → ℤ → AdapterMemory K V
  push_event c k e = record c { event_list = c.event_list ++ (k, e) ∷ [] }

  unfoldable pub clear : AdapterMemory K V → AdapterMemory K V
  clear c = record c { entries = Data.clear c.entries; lru = lru_clear c.lru }

  unfoldable pub close : AdapterMemory K V → AdapterMemory K V
  close c = record c { closed = true }

  pub size : AdapterMemory K V → ℤ → ℕ
  size c now = Data.size c.entries now

  pub data_copy : AdapterMemory K V → ℤ → List (K × Option V)
  data_copy c now = Data.data_copy c.entries now

  pub keys : AdapterMemory K V → ℤ → List K
  keys c now = Data.keys c.entries now

  pub values : AdapterMemory K V → ℤ → List (Option V)
  values c now = Data.values c.entries now

module _ {K V : Type 0} ⦃e : Key K⦄ where
  unfoldable pub do_remove : AdapterMemory K V → List K → ℤ → AdapterMemory K V × Option V
  do_remove c ks now =
      let (entries, (removed, value)) = Data.remove c.entries ks in
      (
        record c {
          entries = entries;
          event_list = c.event_list ++ map (λ key. (key, now -ℤ pos 1000)) removed;
        },
        value,
      )

  unfoldable pub remove : AdapterMemory K V → List K → ℤ → AdapterMemory K V × Option V
  remove c ks now =
      let (d, value) = do_remove c ks now in (record d { lru = lru_remove d.lru ks }, value)

  -- doRemove, unless no key was evicted.
  abbrev pub remove_evicted : AdapterMemory K V → List K → ℤ → AdapterMemory K V
  remove_evicted c [] now = c
  remove_evicted c (k ∷ ks) now = (do_remove c (k ∷ ks) now).0

  abbrev pub handle_with : AdapterMemory K V → Option (MemoryLru K) → List K → ℤ → AdapterMemory K V
  handle_with c none ks now = c
  handle_with c (some l) ks now =
      let (m, evicted) = save_and_evict l ks in
      remove_evicted (record c { lru = some m }) evicted now

  unfoldable pub handle_lru_key : AdapterMemory K V → List K → ℤ → AdapterMemory K V
  handle_lru_key c ks now = handle_with c c.lru ks now

  unfoldable pub set : AdapterMemory K V → K → Option V → ℤ → ℤ → AdapterMemory K V
  set c key value duration now =
      let t = get_internal_expire duration now in
      let d = record c { entries = Data.set c.entries key (record { v = value; e = t }) } in
      handle_lru_key (push_event d key t) (key ∷ []) now

  unfoldable pub push_events : AdapterMemory K V → List (K × Option V) → ℤ → AdapterMemory K V
  push_events c [] t = c
  push_events c ((k, v) ∷ values) t = push_events (push_event c k t) values t

  unfoldable pub handle_each : AdapterMemory K V → List (K × Option V) → ℤ → AdapterMemory K V
  handle_each c [] now = c
  handle_each c ((k, v) ∷ values) now = handle_each (handle_lru_key c (k ∷ []) now) values now

  -- Here each loop ranges over the map in the order of the list.
  unfoldable pub set_map : AdapterMemory K V → List (K × Option V) → ℤ → ℤ → AdapterMemory K V
  set_map c values duration now =
      let t = get_internal_expire duration now in
      let d = push_events (record c { entries = Data.set_map c.entries values t }) values t in
      if is_some d.lru then handle_each d values now else d

  abbrev pub get_item :
      AdapterMemory K V → K → ℤ → Option (MemoryDataItem V) → AdapterMemory K V × Option (Option V)
  get_item c key now none = (c, none)
  get_item c key now (some item) =
      if not (is_expired item now)
      then (handle_lru_key c (key ∷ []) now, some item.v)
      else (c, none)

  unfoldable pub get : AdapterMemory K V → K → ℤ → AdapterMemory K V × Option (Option V)
  get c key now = get_item c key now (Data.get c.entries key)

  unfoldable pub contains : AdapterMemory K V → K → ℤ → AdapterMemory K V × Bool
  contains c key now = let (d, v) = get c key now in (d, is_some v)

  abbrev pub expire_of :
      AdapterMemory K V → K → ℤ → Option (MemoryDataItem V) → AdapterMemory K V × ℤ
  expire_of c key now none = (c, negsuc 0)
  expire_of c key now (some item) =
      (handle_lru_key c (key ∷ []) now, Data.milliseconds (item.e -ℤ now))

  unfoldable pub get_expire : AdapterMemory K V → K → ℤ → AdapterMemory K V × ℤ
  get_expire c key now = expire_of c key now (Data.get c.entries key)

  unfoldable pub update :
      AdapterMemory K V → K → Option V → ℤ → AdapterMemory K V × (Option V × Bool)
  update c key value now =
      let (entries, (old, exist)) = Data.update c.entries key value in
      let d = record c { entries = entries } in
      (if exist then handle_lru_key d (key ∷ []) now else d, (old, exist))

  unfoldable pub update_expire : AdapterMemory K V → K → ℤ → ℤ → AdapterMemory K V × ℤ
  update_expire c key duration now =
      let t = get_internal_expire duration now in
      let (entries, old) = Data.update_expire c.entries key t now in
      let d = record c { entries = entries } in
      (if eq_ℤ old (negsuc 0) then d else handle_lru_key (push_event d key t) (key ∷ []) now, old)
