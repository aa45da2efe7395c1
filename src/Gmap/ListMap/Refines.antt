-- ===== src/Gmap/ListMap/Refines.antt =====
-- utils/tools/gmap/gmap_list_map.go: sequences of calls on a ListMap against the same on a list of pairs.
use go_zero_admin_pkg.Prelude.{◌≡◌, refl, sym, ap, ◌∙◌, Bool, List, [], ◌∷◌, map, length, ◌==◌}
use go_zero_admin_pkg.Prelude.Maps.{Key, find, put, delete, has_key}
use go_zero_admin_pkg.Prelude.Maps.Loops.{put_all, delete_all}
use go_zero_admin_pkg.Glist.{Element}
use go_zero_admin_pkg.Gmap.ListMap.{
  Node, ListMap, new_list_map, clear, set, sets, replace, search, contains, keys, values, size,
  is_empty, remove, removes, filter_empty, merge, map_copy,
}
use go_zero_admin_pkg.Gmap.ListMap.Nodes.{pairs}
use go_zero_admin_pkg.Gmap.ListMap.Linked.{Linked, content, find-content, has_key-content}
use go_zero_admin_pkg.Gmap.ListMap.Order.{
  Holds, strip, new-Holds, clear-Holds, set-Holds, sets-Holds, merge-Holds, remove-Holds,
  removes-Holds, filter_empty-Holds, map_copy-content,
}

-- A call that changes the map.
pub data Call (K V : Type 0) : Type 0 where
  sets_one : K → V → Call K V
  sets_all : List (K × V) → Call K V
  replaces : List (K × V) → Call K V
  merges : ListMap K V → Call K V
  removes_one : K → Call K V
  removes_all : List K → Call K V
  filters : (V → Bool) → Call K V
  clears : Call K V

module _ {K V : Type 0} ⦃e : Key K⦄ where
  abbrev pub called : ListMap K V → Call K V → ListMap K V
  called m (sets_one k v) = set m k v
  called m (sets_all new) = sets m new
  called m (replaces new) = replace m new
  called m (merges other) = merge m other
  called m (removes_one k) = (remove m k).0
  called m (removes_all ks) = removes m ks
  called m (filters f) = filter_empty f m
  called m clears = clear m

  -- The same on the pairs in their order: a new key goes to the end, and a key that is there keeps its place.
  abbrev pub ordered : List (K × V) → Call K V → List (K × V)
  ordered c (sets_one k v) = put k v c
  ordered c (sets_all new) = put_all new c
  ordered c (replaces new) = put_all new []
  ordered c (merges other) = put_all (pairs other.list.elements) c
  ordered c (removes_one k) = delete k c
  ordered c (removes_all ks) = delete_all ks c
  ordered c (filters f) = strip f c
  ordered c clears = []

  abbrev pub run_calls : ListMap K V → List (Call K V) → ListMap K V
  run_calls m [] = m
  run_calls m (call ∷ calls) = run_calls (called m call) calls

  abbrev pub ordered_calls : List (K × V) → List (Call K V) → List (K × V)
  ordered_calls c [] = c
  ordered_calls c (call ∷ calls) = ordered_calls (ordered c call) calls

  called-Holds :
      (m : ListMap K V) (call : Call K V)
      → Linked m
      → Holds (called m call) (ordered (content m) call)
  unfolding replace
  called-Holds m (sets_one k v) l = set-Holds m k v l
  called-Holds m (sets_all new) l = sets-Holds new m l
  called-Holds m (replaces new) l =
      let start = clear-Holds m in
      let made = sets-Holds new (clear m) start.0 in (made.0, made.1 ∙ ap (put_all new) start.1)
  called-Holds m (merges other) l = merge-Holds m other l
  called-Holds m (removes_one k) l = remove-Holds m k l
  called-Holds m (removes_all ks) l = removes-Holds ks m l
  called-Holds m (filters f) l = filter_empty-Holds f m l
  called-Holds m clears l = clear-Holds m

  pub run_calls-Holds :
      (calls : List (Call K V)) (m : ListMap K V)
      → Linked m
      → Holds (run_calls m calls) (ordered_calls (content m) calls)
  run_calls-Holds [] m l = (l, refl)
  run_calls-Holds (call ∷ calls) m l =
      let now = called-Holds m call l in
      let rest = run_calls-Holds calls (called m call) now.0 in
      (rest.0, rest.1 ∙ ap (λ c. ordered_calls c calls) now.1)

  map-pairs :
      {B : Type 0} (f : K × V → B) (xs : List (Element (Node K V)))
      → map (λ x. f (x.value.key, x.value.value)) xs ≡ map f (pairs xs)
  map-pairs f [] = refl
  map-pairs f (x ∷ xs) = ap (◌∷◌ (f (x.value.key, x.value.value))) (map-pairs f xs)

  -- What the reads of a well-formed map give is what its pairs give.
  pub reads-content :
      (m : ListMap K V)
      → Linked m
      → (keys m ≡ map (λ p. p.0) (content m))
        × (values m ≡ map (λ p. p.1) (content m))
        × (size m ≡ length (content m))
        × (is_empty m ≡ (length (content m) == 0))
        × (map_copy m ≡ content m)
        × ((k : K) → (search m k ≡ find k (content m)) × (contains m k ≡ has_key k (content m)))
  unfolding keys values size is_empty search contains
  reads-content m l = (
    map-pairs (λ p. p.0) m.list.elements,
    map-pairs (λ p. p.1) m.list.elements,
    l.sizes,
    ap (λ n. n == 0) l.sizes,
    map_copy-content m l,
    λ k. (sym (find-content m k l), sym (has_key-content m k l)),
  )

  -- After any calls from NewListMap on, the reads give what the list of pairs gives on which the same calls
  -- were made: Set, Sets, Replace, Merge, Remove, Removes, FilterEmpty and Clear keep the order in which
  -- the keys were first set, and Keys, Values, Map, Size, IsEmpty, Search and Contains read it.
  pub run_calls-ordered_calls :
      (safe : Bool) (calls : List (Call K V))
      → let m = run_calls (new_list_map safe) calls in
        let c = ordered_calls [] calls in
        (keys m ≡ map (λ p. p.0) c)
        × (values m ≡ map (λ p. p.1) c)
        × (size m ≡ length c)
        × (is_empty m ≡ (length c == 0))
        × (map_copy m ≡ c)
        × ((k : K) → (search m k ≡ find k c) × (contains m k ≡ has_key k c))
  run_calls-ordered_calls safe calls =
      let start = new-Holds safe in
      let made = run_calls-Holds calls (new_list_map safe) start.0 in
      let same : content (run_calls (new_list_map safe) calls) ≡ ordered_calls [] calls =
        made.1 ∙ ap (λ c. ordered_calls c calls) start.1 in
      rw (sym same) (reads-content (run_calls (new_list_map safe) calls) made.0)
