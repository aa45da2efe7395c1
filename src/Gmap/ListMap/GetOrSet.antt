-- ===== src/Gmap/ListMap/GetOrSet.antt =====
-- utils/tools/gmap/gmap_list_map.go: the methods that set a missing key. A value of interface{} is `none` for nil; a
-- callback is what it returns, and returns no callback.
use go_zero_admin_pkg.Prelude.{Bool, true, false, not, Option, none, some, if◌then◌else◌}
use go_zero_admin_pkg.Prelude.Maps.{Key, find}
use go_zero_admin_pkg.Glist.{Element}
use go_zero_admin_pkg.Gmap.ListMap.{ListMap, Node, set_found, search, contains}

-- The argument of doSetWithLockCheck, a value or a callback that it calls.
pub data Given (V : Type 0) : Type 0 where
  plain : Option V → Given V
  func : Option V → Given V

abbrev pub given_value : {V : Type 0} → Given V → Option V
given_value (plain v) = v
given_value (func v) = v

-- `return value` of `interface{}`: nil where the key is missing or its value is nil.
abbrev pub or_nil : {V : Type 0} → Option (Option V) → Option V
or_nil none = none
or_nil (some v) = v

module _ {K V : Type 0} ⦃e : Key K⦄ where
  unfoldable pub get : ListMap K (Option V) → K → Option V
  get m key = or_nil (search m key)

  abbrev pub push_not_nil : ListMap K (Option V) → K → Option V → ListMap K (Option V)
  push_not_nil m key none = m
  push_not_nil m key (some v) = set_found m key (some v) none

  abbrev pub do_set_found :
      ListMap K (Option V)
      → K
      → Given V
      → Option (Element (Node K (Option V)))
      → ListMap K (Option V) × Option V
  do_set_found m key given (some el) = (m, el.value.value)
  do_set_found m key given none = (push_not_nil m key (given_value given), given_value given)

  unfoldable pub do_set_with_lock_check :
      ListMap K (Option V) → K → Given V → ListMap K (Option V) × Option V
  do_set_with_lock_check m key given = do_set_found m key given (find key m.entries)

  abbrev pub search_first :
      ListMap K (Option V) → K → Given V → Option (Option V) → ListMap K (Option V) × Option V
  search_first m key given none = do_set_with_lock_check m key given
  search_first m key given (some v) = (m, v)

  unfoldable pub get_or_set : ListMap K (Option V) → K → Given V → ListMap K (Option V) × Option V
  get_or_set m key value = search_first m key value (search m key)

  unfoldable pub get_or_set_func :
      ListMap K (Option V) → K → Option V → ListMap K (Option V) × Option V
  get_or_set_func m key f = search_first m key (plain f) (search m key)

  unfoldable pub get_or_set_func_lock :
      ListMap K (Option V) → K → Option V → ListMap K (Option V) × Option V
  get_or_set_func_lock m key f = search_first m key (func f) (search m key)

  abbrev pub unless_contained : ListMap K (Option V) → K → Given V → ListMap K (Option V) × Bool
  unless_contained m key given =
      if not (contains m key) then ((do_set_with_lock_check m key given).0, true) else (m, false)

  unfoldable pub set_if_not_exist : ListMap K (Option V) → K → Given V → ListMap K (Option V) × Bool
  set_if_not_exist m key value = unless_contained m key value

  unfoldable pub set_if_not_exist_func :
      ListMap K (Option V) → K → Option V → ListMap K (Option V) × Bool
  set_if_not_exist_func m key f = unless_contained m key (plain f)

  unfoldable pub set_if_not_exist_func_lock :
      ListMap K (Option V) → K → Option V → ListMap K (Option V) × Bool
  set_if_not_exist_func_lock m key f = unless_contained m key (func f)
