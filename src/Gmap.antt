-- ===== src/Gmap.antt =====
-- utils/tools/gmap/gmap_hash_int_int_map.go: IntIntMap. `entries` is the field `data`, a Go map, as an association
-- list in the order of its range; a nil map has no entry. That NewIntIntMapFrom and Replace share the map given is
-- not modelled.
pub mod Lookups
pub mod Compared
pub mod ListMap
mod Tests
use go_zero_admin_pkg.Prelude.{
  ℕ, zero, suc, Bool, true, false, not, ◌||◌, ◌&&◌, Option, none, some, List, [], ◌∷◌, ◌++◌, map,
  length, take, drop, if◌then◌else◌, ◌==◌,
}
use go_zero_admin_pkg.Prelude.Int.{ℤ, pos, negsuc, ltb_ℤ, eq_ℤ, is_neg, is_zero, to_ℕ}
use go_zero_admin_pkg.Prelude.Maps.{int_key, is_some, find, put, delete, has_key}

pub record IntIntMap : Type 0 where
  pub safe : Bool
  pub entries : List (ℤ × ℤ)

unfoldable pub new_int_int_map : Bool → IntIntMap
new_int_int_map safe = record { safe = safe; entries = [] }

unfoldable pub new_int_int_map_from : List (ℤ × ℤ) → Bool → IntIntMap
new_int_int_map_from m safe = record { safe = safe; entries = m }

-- The callback has a state, and its Boolean tells whether to go on.
iterator_loop : {S : Type 0} → (S → ℤ → ℤ → S × Bool) → S → List (ℤ × ℤ) → S
iterator_loop f st [] = st
iterator_loop f st ((k, v) ∷ m) =
    let r = f st k v in let rest = iterator_loop f r.0 m in if r.1 then rest else r.0

pub iterator : {S : Type 0} → IntIntMap → (S → ℤ → ℤ → S × Bool) → S → S
iterator m f st = iterator_loop f st m.entries

unfoldable pub map_copy : IntIntMap → List (ℤ × ℤ)
map_copy m = m.entries

-- An `int` is empty if it is zero.
abbrev pub filter_loop : List (ℤ × ℤ) → List (ℤ × ℤ)
filter_loop [] = []
filter_loop ((k, v) ∷ m) = if is_zero v then filter_loop m else (k, v) ∷ filter_loop m

unfoldable pub filter_empty : IntIntMap → IntIntMap
filter_empty m = record m { entries = filter_loop m.entries }

unfoldable pub set : IntIntMap → ℤ → ℤ → IntIntMap
set m k v = record m { entries = put k v m.entries }

abbrev pub puts : List (ℤ × ℤ) → List (ℤ × ℤ) → List (ℤ × ℤ)
puts [] m = m
puts ((k, v) ∷ new) m = puts new (put k v m)

unfoldable pub sets : IntIntMap → List (ℤ × ℤ) → IntIntMap
sets m new = record m { entries = puts new m.entries }

-- The zero value of a missing key.
abbrev pub or_zero : Option ℤ → ℤ
or_zero none = pos 0
or_zero (some v) = v

unfoldable pub search : IntIntMap → ℤ → ℤ × Bool
search m k = (or_zero (find k m.entries), is_some (find k m.entries))

unfoldable pub get : IntIntMap → ℤ → ℤ
get m k = or_zero (find k m.entries)

unfoldable pub contains : IntIntMap → ℤ → Bool
contains m k = has_key k m.entries

pub pop : IntIntMap → IntIntMap × (ℤ × ℤ)
pop m = elim m.entries [ [] ↦ (m, (pos 0, pos 0)) | x ∷ rest ↦ (record m { entries = rest }, x) ]

-- How many rounds the loop of Pops has: it ends at `size` or with the map, and for a negative size only
-- with the map.
abbrev pub pops_rounds : ℤ → ℕ → ℕ
pops_rounds n len = if ltb_ℤ (pos len) n || is_neg n then len else to_ℕ n

unfoldable pub pops : IntIntMap → ℤ → IntIntMap × List (ℤ × ℤ)
pops m n =
    let rounds = pops_rounds n (length m.entries) in
    (record m { entries = drop rounds m.entries }, take rounds m.entries)

abbrev pub set_found : IntIntMap → ℤ → ℤ → Option ℤ → IntIntMap × ℤ
set_found m k v (some old) = (m, old)
set_found m k v none = (record m { entries = put k v m.entries }, v)

unfoldable pub do_set_with_lock_check : IntIntMap → ℤ → ℤ → IntIntMap × ℤ
do_set_with_lock_check m k v = set_found m k v (find k m.entries)

unfoldable pub get_or_set : IntIntMap → ℤ → ℤ → IntIntMap × ℤ
get_or_set m k v =
    let (old, found) = search m k in if not found then do_set_with_lock_check m k v else (m, old)

-- `v` is what the callback returns, here and below; it is called only for a missing key.
unfoldable pub get_or_set_func : IntIntMap → ℤ → ℤ → IntIntMap × ℤ
get_or_set_func m k v =
    let (old, found) = search m k in if not found then do_set_with_lock_check m k v else (m, old)

unfoldable pub get_or_set_func_lock : IntIntMap → ℤ → ℤ → IntIntMap × ℤ
get_or_set_func_lock m k v =
    let (old, found) = search m k in
    if not found then set_found m k v (find k m.entries) else (m, old)

unfoldable pub set_if_not_exist : IntIntMap → ℤ → ℤ → IntIntMap × Bool
set_if_not_exist m k v =
    if not (contains m k) then ((do_set_with_lock_check m k v).0, true) else (m, false)

unfoldable pub set_if_not_exist_func : IntIntMap → ℤ → ℤ → IntIntMap × Bool
set_if_not_exist_func m k v =
    if not (contains m k) then ((do_set_with_lock_check m k v).0, true) else (m, false)

unfoldable pub set_if_not_exist_func_lock : IntIntMap → ℤ → ℤ → IntIntMap × Bool
set_if_not_exist_func_lock m k v =
    if not (contains m k) then ((set_found m k v (find k m.entries)).0, true) else (m, false)

abbrev pub deletes : List ℤ → List (ℤ × ℤ) → List (ℤ × ℤ)
deletes [] m = m
deletes (k ∷ ks) m = deletes ks (delete k m)

unfoldable pub removes : IntIntMap → List ℤ → IntIntMap
removes m ks = record m { entries = deletes ks m.entries }

unfoldable pub remove : IntIntMap → ℤ → IntIntMap × ℤ
remove m k = (record m { entries = delete k m.entries }, or_zero (find k m.entries))

pub keys : IntIntMap → List ℤ
keys m = map (λ p. p.0) m.entries

pub values : IntIntMap → List ℤ
values m = map (λ p. p.1) m.entries

unfoldable pub size : IntIntMap → ℕ
size m = length m.entries

pub is_empty : IntIntMap → Bool
unfolding size
is_empty m = size m == 0

pub clear : IntIntMap → IntIntMap
clear m = record m { entries = [] }

pub replace : IntIntMap → List (ℤ × ℤ) → IntIntMap
replace m new = record m { entries = new }

abbrev pub flip_loop : List (ℤ × ℤ) → List (ℤ × ℤ) → List (ℤ × ℤ)
flip_loop [] made = made
flip_loop ((k, v) ∷ m) made = flip_loop m (put v k made)

unfoldable pub flip : IntIntMap → IntIntMap
flip m = record m { entries = flip_loop m.entries [] }

unfoldable pub merge : IntIntMap → IntIntMap → IntIntMap
merge m other = record m { entries = puts other.entries m.entries }

pub deep_copy : IntIntMap → IntIntMap
deep_copy m = new_int_int_map_from m.entries m.safe

abbrev pub has_value : Option ℤ → ℤ → Bool
has_value none v = false
has_value (some w) v = eq_ℤ w v

abbrev pub is_sub_loop : List (ℤ × ℤ) → List (ℤ × ℤ) → Bool
is_sub_loop [] other = true
is_sub_loop ((k, v) ∷ m) other = if has_value (find k other) v then is_sub_loop m other else false

unfoldable pub is_sub_of : IntIntMap → IntIntMap → Bool
is_sub_of m other = is_sub_loop m.entries other.entries

-- The keys of the one map that the other has not, and those that it has with another value. `m.data[key]`
-- is the value that the range is at.
abbrev pub missing : List (ℤ × ℤ) → List (ℤ × ℤ) → List ℤ
missing [] other = []
missing ((k, v) ∷ m) other = if has_key k other then missing m other else k ∷ missing m other

abbrev pub updated : List (ℤ × ℤ) → List (ℤ × ℤ) → List ℤ
updated [] other = []
updated ((k, v) ∷ m) other =
    if has_key k other && not (has_value (find k other) v)
    then k ∷ updated m other
    else updated m other

-- The keys added, removed and updated.
unfoldable pub diff : IntIntMap → IntIntMap → List ℤ × (List ℤ × List ℤ)
diff m other = (
  missing other.entries m.entries,
  (missing m.entries other.entries, updated m.entries other.entries),
)
