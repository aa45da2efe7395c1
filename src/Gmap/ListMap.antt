-- ===== src/Gmap/ListMap.antt =====
-- utils/tools/gmap/gmap_list_map.go: ListMap, a Go map from a key to its element in a list that keeps the order.
-- `entries` is the field `data` as an association list in the order of its range. `e.Value = node` writes through
-- a pointer that both hold, so it is written to the entry and to the list. The map of a ListMap is never nil here.
pub mod Nodes
pub mod Linked
pub mod Order
pub mod Walks
pub mod Refines
pub mod Pops
pub mod Ensured
pub mod GetOrSet
mod Tests
use mathlib.Core.List.{reverse}
use go_zero_admin_pkg.Prelude.{
  ℕ, zero, suc, Bool, true, false, not, ◌||◌, Option, none, some, List, [], ◌∷◌, ◌++◌, map, length,
  if◌then◌else◌, ◌==◌,
}
use go_zero_admin_pkg.Prelude.Int.{ℤ, pos, negsuc, ltb_ℤ, eq_ℤ, is_zero, is_neg, to_ℕ}
use go_zero_admin_pkg.Prelude.Maps.{Key, find, put, delete, has_key}
use go_zero_admin_pkg.Glist.{Element, GList}
use go_zero_admin_pkg.Glist

pub record Node (K V : Type 0) : Type 0 where
  pub key : K
  pub value : V

pub record ListMap (K V : Type 0) : Type 0 where
  pub safe : Bool
  pub entries : List (K × Element (Node K V))
  pub list : GList (Node K V)

-- How many entries Pops takes.
abbrev pub pops_size : ℤ → ℕ → ℤ
pops_size n len = if ltb_ℤ (pos len) n || eq_ℤ n (negsuc 0) then pos len else n

module _ {K V : Type 0} where
  unfoldable pub new_list_map : Bool → ListMap K V
  new_list_map safe = record { safe = safe; entries = []; list = Glist.new false }

  -- `e.Value = v` for the element with the number.
  abbrev pub assign : ℕ → Node K V → List (Element (Node K V)) → List (Element (Node K V))
  assign i v [] = []
  assign i v (x ∷ xs) = if x.id == i then record { id = i; value = v } ∷ xs else x ∷ assign i v xs

  unfoldable pub clear : ListMap K V → ListMap K V
  clear m = record m { entries = []; list = Glist.new false }

  -- The callback has a state, and its Boolean tells whether to go on.
  unfoldable pub iterator_asc : {S : Type 0} → ListMap K V → (S → K → V → S × Bool) → S → S
  iterator_asc m f s = Glist.iterator_asc m.list (λ st e. f st e.value.key e.value.value) s

  pub iterator : {S : Type 0} → ListMap K V → (S → K → V → S × Bool) → S → S
  iterator m f s = iterator_asc m f s

  unfoldable pub iterator_desc : {S : Type 0} → ListMap K V → (S → K → V → S × Bool) → S → S
  iterator_desc m f s = Glist.iterator_desc m.list (λ st e. f st e.value.key e.value.value) s

  unfoldable pub keys : ListMap K V → List K
  keys m = map (λ e. e.value.key) m.list.elements

  unfoldable pub values : ListMap K V → List V
  values m = map (λ e. e.value.value) m.list.elements

  unfoldable pub size : ListMap K V → ℕ
  size m = length m.entries

  unfoldable pub is_empty : ListMap K V → Bool
  is_empty m = size m == 0

  abbrev pub value_found : Option (Element (Node K V)) → Option V
  value_found none = none
  value_found (some e) = some e.value.value

module _ {K V : Type 0} ⦃e : Key K⦄ where
  abbrev pub set_found : ListMap K V → K → V → Option (Element (Node K V)) → ListMap K V
  set_found m key value none =
      let (list, el) = Glist.push_back m.list (record { key = key; value = value }) in
      record m { entries = put key el m.entries; list = list }
  set_found m key value (some el) =
      let node : Node K V = record { key = key; value = value } in
      record m {
        entries = put key (record { id = el.id; value = node }) m.entries;
        list = record m.list { elements = assign el.id node m.list.elements };
      }

  unfoldable pub set : ListMap K V → K → V → ListMap K V
  set m key value = set_found m key value (find key m.entries)

  unfoldable pub sets : ListMap K V → List (K × V) → ListMap K V
  sets m [] = m
  sets m ((key, value) ∷ new) = sets (set m key value) new

  unfoldable pub new_list_map_from : List (K × V) → Bool → ListMap K V
  new_list_map_from new safe = sets (new_list_map safe) new

  unfoldable pub replace : ListMap K V → List (K × V) → ListMap K V
  replace m new = sets (clear m) new

  -- The loop of Map: each node goes into a Go map.
  abbrev pub map_loop : List (Element (Node K V)) → List (K × V) → List (K × V)
  map_loop [] made = made
  map_loop (x ∷ xs) made = map_loop xs (put x.value.key x.value.value made)

  unfoldable pub map_copy : ListMap K V → List (K × V)
  map_copy m = map_loop m.list.elements []

  -- None where the key is missing: a second result that is false, and a nil value.
  unfoldable pub search : ListMap K V → K → Option V
  search m key = value_found (find key m.entries)

  unfoldable pub contains : ListMap K V → K → Bool
  contains m key = has_key key m.entries

  abbrev pub remove_found : ListMap K V → K → Option (Element (Node K V)) → ListMap K V
  remove_found m key none = m
  remove_found m key (some el) = record m {
    entries = delete key m.entries;
    list = (Glist.remove m.list el).0;
  }

  unfoldable pub remove : ListMap K V → K → ListMap K V × Option V
  remove m key = (remove_found m key (find key m.entries), value_found (find key m.entries))

  unfoldable pub removes : ListMap K V → List K → ListMap K V
  removes m [] = m
  removes m (key ∷ keys) = removes (remove_found m key (find key m.entries)) keys

  -- The keys of the values that `IsEmpty` of the package empty holds of.
  abbrev pub empty_keys : (V → Bool) → List (Element (Node K V)) → List K
  empty_keys IsEmpty [] = []
  empty_keys IsEmpty (x ∷ xs) =
      if IsEmpty x.value.value then x.value.key ∷ empty_keys IsEmpty xs else empty_keys IsEmpty xs

  unfoldable pub filter_empty : (V → Bool) → ListMap K V → ListMap K V
  filter_empty IsEmpty m = removes m (empty_keys IsEmpty m.list.elements)

  -- The entry that the range over the map gives first.
  abbrev pub pop_first : ListMap K V → List (K × Element (Node K V)) → ListMap K V × Option (K × V)
  pop_first m [] = (m, none)
  pop_first m ((key, el) ∷ rest) = (remove_found m key (some el), some (key, el.value.value))

  unfoldable pub pop : ListMap K V → ListMap K V × Option (K × V)
  pop m = pop_first m m.entries

  -- The rounds of the range in Pops, which ends when `index == size`.
  unfoldable pub pops_loop :
      ListMap K V
      → List (K × Element (Node K V))
      → List (K × V)
      → ℤ
      → ℕ
      → ListMap K V × List (K × V)
  pops_loop m [] made n index = (m, made)
  pops_loop m ((key, el) ∷ rest) made n index =
      let next = remove_found m key (some el) in
      let more = put key el.value.value made in
      let all = pops_loop next rest more n (suc index) in
      if eq_ℤ (pos (suc index)) n then (next, more) else all

  unfoldable pub pops : ListMap K V → ℤ → ListMap K V × List (K × V)
  pops m n =
      let taken = pops_size n (length m.entries) in
      if is_zero taken then (m, []) else pops_loop m m.entries [] taken 0

  -- Merge of another map, or of the map itself, whose nodes the iteration then gives as they are at first.
  abbrev pub merge_loop : ListMap K V → List (Element (Node K V)) → ListMap K V
  merge_loop m [] = m
  merge_loop m (x ∷ xs) = merge_loop (set m x.value.key x.value.value) xs

  unfoldable pub merge : ListMap K V → ListMap K V → ListMap K V
  merge m other = merge_loop m other.list.elements

  -- A copy ranges over the Go map that Map made, in any `order`.
  unfoldable pub clone : (List (K × V) → List (K × V)) → ListMap K V → Bool → ListMap K V
  clone order m safe = new_list_map_from (order (map_copy m)) safe

module _ {K : Type 0} ⦃e : Key K⦄ where
  abbrev pub flip_loop : ListMap K K → List (K × K) → ListMap K K
  flip_loop m [] = m
  flip_loop m ((key, value) ∷ rest) = flip_loop (set m value key) rest

  unfoldable pub flip : (List (K × K) → List (K × K)) → ListMap K K → ListMap K K
  flip order m = flip_loop (clear m) (order (map_copy m))
