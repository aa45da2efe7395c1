-- ===== src/Gcache/Data.antt =====
-- utils/tools/gcache/gcache_adapter_memory_data.go and gcache_adapter_memory_item.go: the cached items.
-- A nil value is `none`. `now` is what gtime.TimestampMilli returns, the same through one call of the cache.
-- Locks are left out, and so are the errors that are always nil.
use go_zero_admin_pkg.Prelude.{
  ℕ, suc, ◌-◌, ◌*◌, Bool, true, false, Option, none, some, List, [], ◌∷◌, if◌then◌else◌, map,
  length,
}
use go_zero_admin_pkg.Prelude.Int.{ℤ, pos, negsuc, ltb_ℤ, ◌-ℤ◌}
use go_zero_admin_pkg.Prelude.Maps.{Key, find, put}
use go_zero_admin_pkg.Prelude.Maps

-- A Go duration of so many milliseconds, in nanoseconds.
abbrev pub milliseconds : ℤ → ℤ
milliseconds (pos n) = pos (n * 1000000)
milliseconds (negsuc n) = negsuc (suc n * 1000000 - 1)

pub record MemoryDataItem (V : Type 0) : Type 0 where
  pub v : Option V
  pub e : ℤ

-- A value to be set: itself, or the function whose call gives a value and an error.
pub data Given (V E : Type 0) : Type 0 where
  plain : Option V → Given V E
  func : Option V → Option E → Given V E

module _ {V : Type 0} where
  abbrev pub is_expired : MemoryDataItem V → ℤ → Bool
  is_expired item now = ltb_ℤ item.e now

module _ {K V : Type 0} where
  -- The entries that Data, Keys, Values and Size take.
  abbrev pub live : List (K × MemoryDataItem V) → ℤ → List (K × MemoryDataItem V)
  live [] now = []
  live ((k, item) ∷ d) now = if ltb_ℤ now item.e then (k, item) ∷ live d now else live d now

  pub data_copy : List (K × MemoryDataItem V) → ℤ → List (K × Option V)
  data_copy d now = map (λ p. (p.0, p.1.v)) (live d now)

  pub keys : List (K × MemoryDataItem V) → ℤ → List K
  keys d now = map (λ p. p.0) (live d now)

  pub values : List (K × MemoryDataItem V) → ℤ → List (Option V)
  values d now = map (λ p. p.1.v) (live d now)

  pub size : List (K × MemoryDataItem V) → ℤ → ℕ
  size d now = length (live d now)

  unfoldable pub clear : List (K × MemoryDataItem V) → List (K × MemoryDataItem V)
  clear d = []

module _ {K V : Type 0} ⦃e : Key K⦄ where
  abbrev pub update_found :
      List (K × MemoryDataItem V)
      → K
      → Option V
      → Option (MemoryDataItem V)
      → List (K × MemoryDataItem V) × (Option V × Bool)
  update_found d key value none = (d, (none, false))
  update_found d key value (some item) =
      (put key (record { v = value; e = item.e }) d, (item.v, true))

  unfoldable pub update :
      List (K × MemoryDataItem V) → K → Option V → List (K × MemoryDataItem V) × (Option V × Bool)
  update d key value = update_found d key value (find key d)

  abbrev pub update_expire_found :
      List (K × MemoryDataItem V)
      → K
      → ℤ
      → ℤ
      → Option (MemoryDataItem V)
      → List (K × MemoryDataItem V) × ℤ
  update_expire_found d key expire_time now none = (d, negsuc 0)
  update_expire_found d key expire_time now (some item) =
      (put key (record { v = item.v; e = expire_time }) d, milliseconds (item.e -ℤ now))

  unfoldable pub update_expire :
      List (K × MemoryDataItem V) → K → ℤ → ℤ → List (K × MemoryDataItem V) × ℤ
  update_expire d key expire_time now = update_expire_found d key expire_time now (find key d)

  -- One round of the loop of Remove, of the item that the key has and the rounds after it.
  abbrev pub remove_found :
      K
      → Option (MemoryDataItem V)
      → List (K × MemoryDataItem V) × (List K × Option V)
      → (Option V → List (K × MemoryDataItem V) × (List K × Option V))
      → List (K × MemoryDataItem V) × (List K × Option V)
  remove_found key none kept gone = kept
  remove_found key (some item) kept gone =
      let rest = gone item.v in (rest.0, (key ∷ rest.1.0, rest.1.1))

  -- The loop of Remove, with `value` so far.
  unfoldable pub remove_loop :
      List (K × MemoryDataItem V)
      → List K
      → Option V
      → List (K × MemoryDataItem V) × (List K × Option V)
  remove_loop d [] value = (d, ([], value))
  remove_loop d (key ∷ keys) value =
      remove_found key (find key d) (remove_loop d keys value)
        (λ v. remove_loop (Maps.delete key d) keys v)

  unfoldable pub remove :
      List (K × MemoryDataItem V) → List K → List (K × MemoryDataItem V) × (List K × Option V)
  remove d keys = remove_loop d keys none

  unfoldable pub get : List (K × MemoryDataItem V) → K → Option (MemoryDataItem V)
  get d key = find key d

  unfoldable pub set :
      List (K × MemoryDataItem V) → K → MemoryDataItem V → List (K × MemoryDataItem V)
  set d key item = put key item d

  unfoldable pub set_map :
      List (K × MemoryDataItem V) → List (K × Option V) → ℤ → List (K × MemoryDataItem V)
  set_map d [] expire_time = d
  set_map d ((k, v) ∷ values) expire_time =
      set_map (put k (record { v = v; e = expire_time }) d) values expire_time

  unfoldable pub delete : List (K × MemoryDataItem V) → K → List (K × MemoryDataItem V)
  delete d key = Maps.delete key d

module _ {K V E : Type 0} ⦃e : Key K⦄ where
  -- What SetWithLock does when the key is missing or expired.
  abbrev pub set_given :
      List (K × MemoryDataItem V)
      → K
      → Given V E
      → ℤ
      → List (K × MemoryDataItem V) × (Option V × Option E)
  set_given d key (plain value) t = (put key (record { v = value; e = t }) d, (value, none))
  set_given d key (func value (some err)) t = (d, (none, some err))
  set_given d key (func none none) t = (d, (none, none))
  set_given d key (func (some a) none) t =
      (put key (record { v = some a; e = t }) d, (some a, none))

  abbrev pub set_with_lock_found :
      List (K × MemoryDataItem V)
      → K
      → Given V E
      → ℤ
      → ℤ
      → Option (MemoryDataItem V)
      → List (K × MemoryDataItem V) × (Option V × Option E)
  set_with_lock_found d key value t now none = set_given d key value t
  set_with_lock_found d key value t now (some item) =
      if is_expired item now then set_given d key value t else (d, (item.v, none))

  unfoldable pub set_with_lock :
      List (K × MemoryDataItem V)
      → K
      → Given V E
      → ℤ
      → ℤ
      → List (K × MemoryDataItem V) × (Option V × Option E)
  set_with_lock d key value t now = set_with_lock_found d key value t now (find key d)
