-- ===== src/Gcache/Checked.antt =====
-- utils/tools/gcache/gcache_adapter_memory.go: the operations that set a key only if it is missing.
-- An operation gives the cache, a value and an error. What f(ctx) returns is given, and f leaves the cache alone.
use go_zero_admin_pkg.Prelude.{Bool, true, false, Option, none, some, [], ◌∷◌, if◌then◌else◌}
use go_zero_admin_pkg.Prelude.Int.{ℤ}
use go_zero_admin_pkg.Prelude.Maps.{Key}
use go_zero_admin_pkg.Gcache.Data.{Given, plain, func}
use go_zero_admin_pkg.Gcache.Data
use go_zero_admin_pkg.Gcache.Adapter.{
  AdapterMemory, get_internal_expire, push_event, handle_lru_key, get, contains,
}

module _ {K V E : Type 0} ⦃e : Key K⦄ where
  -- The result is the nil or non-nil gvar.Var of the value; gvar.New(v) is never nil.
  unfoldable pub do_set_with_lock_check :
      AdapterMemory K V → K → Given V E → ℤ → ℤ → AdapterMemory K V × (Option (Option V) × Option E)
  do_set_with_lock_check c key value duration now =
      let t = get_internal_expire duration now in
      let (entries, (v, err)) = Data.set_with_lock c.entries key value t now in
      (push_event (record c { entries = entries }) key t, (some v, err))

  -- GetOrSet, and GetOrSetFuncLock, which gives the function itself to the check.
  abbrev pub or_set :
      AdapterMemory K V
      → K
      → Given V E
      → ℤ
      → ℤ
      → Option (Option V)
      → AdapterMemory K V × (Option (Option V) × Option E)
  or_set c key value duration now none = do_set_with_lock_check c key value duration now
  or_set c key value duration now (some v) = (c, (some v, none))

  unfoldable pub get_or_set :
      AdapterMemory K V → K → Given V E → ℤ → ℤ → AdapterMemory K V × (Option (Option V) × Option E)
  get_or_set c key value duration now =
      let (d, v) = get c key now in
      let (f, result) = or_set d key value duration now v in
      (handle_lru_key f (key ∷ []) now, result)

  -- GetOrSetFunc calls the function before the check, with the value and the error that it returns.
  abbrev pub or_set_func :
      AdapterMemory K V
      → K
      → Option V
      → Option E
      → ℤ
      → ℤ
      → Option (Option V)
      → AdapterMemory K V × (Option (Option V) × Option E)
  or_set_func c key value (some err) duration now none = (c, (none, some err))
  or_set_func c key none none duration now none = (c, (none, none))
  or_set_func c key (some a) none duration now none =
      do_set_with_lock_check c key (plain (some a)) duration now
  or_set_func c key value err duration now (some v) = (c, (some v, none))

  unfoldable pub get_or_set_func :
      AdapterMemory K V
      → K
      → Option V
      → Option E
      → ℤ
      → ℤ
      → AdapterMemory K V × (Option (Option V) × Option E)
  get_or_set_func c key value err duration now =
      let (d, v) = get c key now in
      let (f, result) = or_set_func d key value err duration now v in
      (handle_lru_key f (key ∷ []) now, result)

  unfoldable pub get_or_set_func_lock :
      AdapterMemory K V
      → K
      → Option V
      → Option E
      → ℤ
      → ℤ
      → AdapterMemory K V × (Option (Option V) × Option E)
  get_or_set_func_lock c key value err duration now = get_or_set c key (func value err) duration now

  abbrev pub is_set :
      AdapterMemory K V × (Option (Option V) × Option E) → AdapterMemory K V × (Bool × Option E)
  is_set (c, (v, none)) = (c, (true, none))
  is_set (c, (v, some err)) = (c, (false, some err))

  -- SetIfNotExist, and SetIfNotExistFuncLock, which gives the function itself to the check.
  unfoldable pub set_if_not_exist :
      AdapterMemory K V → K → Given V E → ℤ → ℤ → AdapterMemory K V × (Bool × Option E)
  set_if_not_exist c key value duration now =
      let (d, contained) = contains c key now in
      let (f, result) =
        if contained
        then (d, (false, none))
        else is_set (do_set_with_lock_check d key value duration now) in
      (handle_lru_key f (key ∷ []) now, result)

  -- SetIfNotExistFunc calls the function before the check.
  abbrev pub set_result :
      AdapterMemory K V → K → Option V → Option E → ℤ → ℤ → AdapterMemory K V × (Bool × Option E)
  set_result c key value (some err) duration now = (c, (false, some err))
  set_result c key value none duration now =
      is_set (do_set_with_lock_check c key (plain value) duration now)

  unfoldable pub set_if_not_exist_func :
      AdapterMemory K V → K → Option V → Option E → ℤ → ℤ → AdapterMemory K V × (Bool × Option E)
  set_if_not_exist_func c key value err duration now =
      let (d, contained) = contains c key now in
      let (f, result) =
        if contained then (d, (false, none)) else set_result d key value err duration now in
      (handle_lru_key f (key ∷ []) now, result)

  unfoldable pub set_if_not_exist_func_lock :
      AdapterMemory K V → K → Option V → Option E → ℤ → ℤ → AdapterMemory K V × (Bool × Option E)
  set_if_not_exist_func_lock c key value err duration now =
      set_if_not_exist c key (func value err) duration now
