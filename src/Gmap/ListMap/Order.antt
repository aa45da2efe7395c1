-- ===== src/Gmap/ListMap/Order.antt =====
-- utils/tools/gmap/gmap_list_map.go: a ListMap as the list of its pairs in the order of their first insertion.
use go_zero_admin_pkg.Prelude.{
  ◌≡◌, refl, sym, ap, ◌∙◌, Bool, false, none, List, [], ◌∷◌, if◌then◌else◌, arith, Bool-cases, inl,
  inr,
}
use go_zero_admin_pkg.Prelude.Maps.{Key, find, put, delete, occurs, beq_sym, beq_refl, Distinct}
use go_zero_admin_pkg.Prelude.Maps.Loops.{
  put_all, put_all-append, delete_all, other_keys, delete_all-other_keys,
}
use go_zero_admin_pkg.Glist
use go_zero_admin_pkg.Glist.{Element}
use go_zero_admin_pkg.Gmap.ListMap.{
  Node, ListMap, new_list_map, clear, set, sets, remove_found, remove, removes, filter_empty,
  empty_keys, merge, merge_loop, map_copy, map_loop, flip_loop,
}
use go_zero_admin_pkg.Gmap.ListMap.Nodes.{pairs}
use go_zero_admin_pkg.Gmap.ListMap.Linked.{
  Linked, content, content-set_found, set_found-Linked, content-remove_found, remove_found-Linked,
}

-- A new state that is in order, and holds the pairs `c`.
abbrev pub Holds : {K V : Type 0} ⦃e : Key K⦄ → ListMap K V → List (K × V) → Type 0
Holds m c = Linked m × (content m ≡ c)

-- The pairs whose value is not empty.
abbrev pub strip : {K V : Type 0} → (V → Bool) → List (K × V) → List (K × V)
strip IsEmpty [] = []
strip IsEmpty ((k, v) ∷ m) = if IsEmpty v then strip IsEmpty m else (k, v) ∷ strip IsEmpty m

-- The pairs with key and value exchanged.
abbrev pub exchange : {K : Type 0} → List (K × K) → List (K × K)
exchange [] = []
exchange ((k, v) ∷ m) = (v, k) ∷ exchange m

module _ {K V : Type 0} ⦃e : Key K⦄ where
  empty-Linked : (m : ListMap K V) → Linked (clear m)
  unfolding clear Glist.new
  empty-Linked m = record {
    numbered = tt;
    agree = λ k. refl;
    distinct = tt;
    unique = tt;
    sizes = refl;
  }

  pub new-Holds : (safe : Bool) → Holds (new_list_map {K = K} {V = V} safe) []
  unfolding new_list_map Glist.new
  new-Holds safe =
      (record { numbered = tt; agree = λ k. refl; distinct = tt; unique = tt; sizes = refl }, refl)

  pub clear-Holds : (m : ListMap K V) → Holds (clear m) []
  unfolding clear Glist.new
  clear-Holds m = (empty-Linked m, refl)

  pub set-Holds :
      (m : ListMap K V) (k : K) (v : V) → Linked m → Holds (set m k v) (put k v (content m))
  unfolding set
  set-Holds m k v l = (
    set_found-Linked m k v (find k m.entries) l refl,
    content-set_found m k v (find k m.entries) l refl,
  )

  pub sets-Holds :
      (new : List (K × V)) (m : ListMap K V)
      → Linked m
      → Holds (sets m new) (put_all new (content m))
  unfolding sets
  sets-Holds [] m l = (l, refl)
  sets-Holds ((k, v) ∷ new) m l =
      let now = set-Holds m k v l in
      let rest = sets-Holds new (set m k v) now.0 in (rest.0, rest.1 ∙ ap (put_all new) now.1)

  merge_loop-Holds :
      (xs : List (Element (Node K V))) (m : ListMap K V)
      → Linked m
      → Holds (merge_loop m xs) (put_all (pairs xs) (content m))
  merge_loop-Holds [] m l = (l, refl)
  merge_loop-Holds (x ∷ xs) m l =
      let now = set-Holds m x.value.key x.value.value l in
      let rest = merge_loop-Holds xs (set m x.value.key x.value.value) now.0 in
      (rest.0, rest.1 ∙ ap (put_all (pairs xs)) now.1)

  pub merge-Holds :
      (m other : ListMap K V)
      → Linked m
      → Holds (merge m other) (put_all (content other) (content m))
  unfolding merge
  merge-Holds m other l = merge_loop-Holds other.list.elements m l

  pub remove-Holds :
      (m : ListMap K V) (k : K) → Linked m → Holds (remove m k).0 (delete k (content m))
  unfolding remove
  remove-Holds m k l = (
    remove_found-Linked m k (find k m.entries) l refl,
    content-remove_found m k (find k m.entries) l refl,
  )

  pub removes-Holds :
      (ks : List K) (m : ListMap K V) → Linked m → Holds (removes m ks) (delete_all ks (content m))
  unfolding removes
  removes-Holds [] m l = (l, refl)
  removes-Holds (k ∷ ks) m l =
      let now = remove_found-Linked m k (find k m.entries) l refl in
      let rest = removes-Holds ks (remove_found m k (find k m.entries)) now in
      (rest.0, rest.1 ∙ ap (delete_all ks) (content-remove_found m k (find k m.entries) l refl))

  occurs-empty_keys :
      (f : V → Bool) (k : K) (xs : List (Element (Node K V)))
      → find k (pairs xs) ≡ none
      → occurs k (empty_keys f xs) ≡ false
  occurs-empty_keys f k [] h = refl
  occurs-empty_keys f k (x ∷ xs) h = ground (arith, occurs-empty_keys f k xs)

  other_keys-new :
      (k : K) (ks : List K) (m : List (K × V))
      → find k m ≡ none
      → other_keys (k ∷ ks) m ≡ other_keys ks m
  other_keys-new k ks [] h = refl
  other_keys-new k ks ((j, v) ∷ m) h = ground (arith, other_keys-new k ks m, beq_sym j k)

  other_keys-strip :
      (f : V → Bool) (xs : List (Element (Node K V)))
      → Distinct (pairs xs)
      → other_keys (empty_keys f xs) (pairs xs) ≡ strip f (pairs xs)
  other_keys-strip f [] d = refl
  other_keys-strip f (x ∷ xs) d = elim (Bool-cases (f x.value.value)) [
    | inl c ↦
        let taken : empty_keys f (x ∷ xs) ≡ x.value.key ∷ empty_keys f xs = rw c refl in
        let gone : strip f (pairs (x ∷ xs)) ≡ strip f (pairs xs) = rw c refl in
        ap (λ ks. other_keys ks (pairs (x ∷ xs))) taken
        ∙ rw (beq_refl x.value.key) (
            other_keys-new x.value.key (empty_keys f xs) (pairs xs) d.0 ∙ other_keys-strip f xs d.1)
        ∙ sym gone
    | inr c ↦
        let left : empty_keys f (x ∷ xs) ≡ empty_keys f xs = rw c refl in
        let kept : strip f (pairs (x ∷ xs)) ≡ (x.value.key, x.value.value) ∷ strip f (pairs xs) =
          rw c refl in
        ap (λ ks. other_keys ks (pairs (x ∷ xs))) left
        ∙ rw (occurs-empty_keys f x.value.key xs d.0)
            (ap (◌∷◌ (x.value.key, x.value.value)) (other_keys-strip f xs d.1))
        ∙ sym kept
  ]

  pub filter_empty-Holds :
      (f : V → Bool) (m : ListMap K V) → Linked m → Holds (filter_empty f m) (strip f (content m))
  unfolding filter_empty
  filter_empty-Holds f m l =
      let made = removes-Holds (empty_keys f m.list.elements) m l in
      (
        made.0,
        made.1
            ∙ delete_all-other_keys (empty_keys f m.list.elements) (content m)
            ∙ other_keys-strip f m.list.elements l.unique,
      )

  map_loop-put_all :
      (xs : List (Element (Node K V))) (made : List (K × V))
      → map_loop xs made ≡ put_all (pairs xs) made
  map_loop-put_all [] made = refl
  map_loop-put_all (x ∷ xs) made = map_loop-put_all xs (put x.value.key x.value.value made)

  pub map_copy-content : (m : ListMap K V) → Linked m → map_copy m ≡ content m
  unfolding map_copy
  map_copy-content m l =
      map_loop-put_all m.list.elements [] ∙ put_all-append (content m) [] l.unique

module _ {K : Type 0} ⦃e : Key K⦄ where
  pub flip_loop-Holds :
      (new : List (K × K)) (m : ListMap K K)
      → Linked m
      → Holds (flip_loop m new) (put_all (exchange new) (content m))
  flip_loop-Holds [] m l = (l, refl)
  flip_loop-Holds ((k, v) ∷ new) m l =
      let now = set-Holds m v k l in
      let rest = flip_loop-Holds new (set m v k) now.0 in
      (rest.0, rest.1 ∙ ap (put_all (exchange new)) now.1)
