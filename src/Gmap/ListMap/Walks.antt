-- ===== src/Gmap/ListMap/Walks.antt =====
-- utils/tools/gmap/gmap_list_map.go: the iterators and the copies.
use mathlib.Core.List.{reverse, reverse-cons}
use go_zero_admin_pkg.Prelude.{◌≡◌, refl, sym, ap, ◌∙◌, Bool, List, [], ◌∷◌, ◌++◌, if◌then◌else◌}
use go_zero_admin_pkg.Prelude.Maps.{Key, find, Distinct}
use go_zero_admin_pkg.Prelude.Maps.Loops.{put_all, put_all-append}
use go_zero_admin_pkg.Glist
use go_zero_admin_pkg.Glist.{Element}
use go_zero_admin_pkg.Gmap.ListMap.{
  Node, ListMap, new_list_map, new_list_map_from, clear, search, clone, map_copy, flip,
  iterator_asc, iterator_desc,
}
use go_zero_admin_pkg.Gmap.ListMap.Nodes.{pairs, pairs-append}
use go_zero_admin_pkg.Gmap.ListMap.Linked.{Linked, content, find-content}
use go_zero_admin_pkg.Gmap.ListMap.Order.{
  Holds, exchange, new-Holds, clear-Holds, sets-Holds, map_copy-content, flip_loop-Holds,
}

-- The callback on each pair until it returns false.
unfoldable pub walk : {K V S : Type 0} → (S → K → V → S × Bool) → S → List (K × V) → S
walk f s [] = s
walk f s ((k, v) ∷ m) = let r = f s k v in let rest = walk f r.0 m in if r.1 then rest else r.0

module _ {K V : Type 0} where
  pairs-reverse : (xs : List (Element (Node K V))) → pairs (reverse xs) ≡ reverse (pairs xs)
  pairs-reverse [] = refl
  pairs-reverse (x ∷ xs) =
      ap pairs (reverse-cons x xs)
      ∙ pairs-append (reverse xs) (x ∷ [])
      ∙ ap (λ front. front ++ (x.value.key, x.value.value) ∷ []) (pairs-reverse xs)
      ∙ sym (reverse-cons (x.value.key, x.value.value) (pairs xs))

module _ {K V S : Type 0} (f : S → K → V → S × Bool) where
  asc_loop-walk :
      (s : S) (xs : List (Element (Node K V)))
      → Glist.asc_loop (λ st e. f st e.value.key e.value.value) s xs ≡ walk f s (pairs xs)
  unfolding Glist.asc_loop walk
  asc_loop-walk s [] = refl
  asc_loop-walk s (x ∷ xs) =
      ap
        (λ rest.
          if (f s x.value.key x.value.value).1 then rest else (f s x.value.key x.value.value).0)
        (asc_loop-walk (f s x.value.key x.value.value).0 xs)

  -- IteratorAsc goes through the pairs in their order and IteratorDesc against it, each until the callback
  -- returns false.
  pub iterators-walk :
      (m : ListMap K V) (s : S)
      → (iterator_asc m f s ≡ walk f s (content m))
        × (iterator_desc m f s ≡ walk f s (reverse (content m)))
  unfolding iterator_asc iterator_desc Glist.iterator_asc Glist.iterator_desc
  iterators-walk m s = (
    asc_loop-walk s m.list.elements,
    asc_loop-walk s (reverse m.list.elements) ∙ ap (walk f s) (pairs-reverse m.list.elements),
  )

-- An order in which Go may range over a map: each key is met once, with its value.
pub record RangeOrder {K V : Type 0} ⦃e : Key K⦄ (order : List (K × V) → List (K × V))
    : Type 0 where
  pub once : (m : List (K × V)) → Distinct m → Distinct (order m)
  pub same : (m : List (K × V)) (k : K) → Distinct m → find k (order m) ≡ find k m

module _ {K V : Type 0} ⦃e : Key K⦄ (order : List (K × V) → List (K × V)) where
  -- A clone finds what the map finds, and has the pairs in the order of Go's range over a map, whatever
  -- that is, and no longer in the order of their insertion.
  pub clone-order :
      (m : ListMap K V) (safe : Bool)
      → RangeOrder order
      → Linked m
      → Linked (clone order m safe)
        × (content (clone order m safe) ≡ order (content m))
        × ((k : K) → search (clone order m safe) k ≡ search m k)
  unfolding clone new_list_map_from search
  clone-order m safe r l =
      let start = new-Holds safe in
      let made = sets-Holds (order (map_copy m)) (new_list_map safe) start.0 in
      let copied = map_copy-content m l in
      let all : content (clone order m safe) ≡ order (content m) =
        made.1
        ∙ ap (put_all (order (map_copy m))) start.1
        ∙ ap (λ c. put_all (order c) []) copied
        ∙ put_all-append (order (content m)) [] (r.once (content m) l.unique) in
      (
        made.0,
        all,
        λ k.
            sym (find-content (clone order m safe) k made.0)
            ∙ ap (find k) all
            ∙ r.same (content m) k l.unique
            ∙ find-content m k l,
      )

module _ {K : Type 0} ⦃e : Key K⦄ (order : List (K × K) → List (K × K)) where
  -- Flip leaves a well-formed map, made of the exchanged pairs put one after another in the order of Go's range.
  pub flip-Holds :
      (m : ListMap K K)
      → Linked m
      → Holds (flip order m) (put_all (exchange (order (content m))) [])
  unfolding flip
  flip-Holds m l =
      let start = clear-Holds m in
      let made = flip_loop-Holds (order (map_copy m)) (clear m) start.0 in
      (
        made.0,
        made.1
            ∙ ap (put_all (exchange (order (map_copy m)))) start.1
            ∙ ap (λ c. put_all (exchange (order c)) []) (map_copy-content m l),
      )
