-- ===== src/Gmap/ListMap/Nodes.antt =====
-- utils/tools/gmap/gmap_list_map.go: the nodes of the list, found by their key, and the pairs they hold.
use go_zero_admin_pkg.Prelude.{
  ℕ, ◌≡◌, refl, sym, ap, ◌∙◌, true, false, Option, none, some, List, [], ◌∷◌, ◌++◌, length,
  if◌then◌else◌, ◌==◌, arith, Bool-cases, inl, inr,
}
use go_zero_admin_pkg.Prelude.Maps.{Key, find, put, delete, Distinct, delete_absent}
use go_zero_admin_pkg.Glist.{Element, member, take_out}
use go_zero_admin_pkg.Glist.Ids.{Numbered}
use go_zero_admin_pkg.Gmap.ListMap.{Node, assign, value_found}

module _ {K V : Type 0} where
  -- The list as an association list.
  abbrev pub pairs : List (Element (Node K V)) → List (K × V)
  pairs [] = []
  pairs (x ∷ xs) = (x.value.key, x.value.value) ∷ pairs xs

  pub length-pairs : (xs : List (Element (Node K V))) → length (pairs xs) ≡ length xs
  length-pairs [] = refl
  length-pairs (x ∷ xs) = omega (arith, length-pairs xs)

  pub pairs-append : (xs ys : List (Element (Node K V))) → pairs (xs ++ ys) ≡ pairs xs ++ pairs ys
  pairs-append [] ys = refl
  pairs-append (x ∷ xs) ys = ap (◌∷◌ (x.value.key, x.value.value)) (pairs-append xs ys)

  pub member-assign :
      (i j : ℕ) (v : Node K V) (xs : List (Element (Node K V)))
      → member j (assign i v xs) ≡ member j xs
  member-assign i j v [] = refl
  member-assign i j v (x ∷ xs) = ground (arith, member-assign i j v xs)

  pub assign-Numbered :
      (n i : ℕ) (v : Node K V) (xs : List (Element (Node K V)))
      → Numbered n xs
      → Numbered n (assign i v xs)
  assign-Numbered n i v [] h = tt
  assign-Numbered n i v (x ∷ xs) h = elim (Bool-cases (x.id == i)) [
    | inl c ↦ rw c (ground (arith, h.0), ground (arith, h.1), h.2)
    | inr c ↦ rw c (h.0, member-assign i x.id v xs ∙ h.1, assign-Numbered n i v xs h.2)
  ]

module _ {K V : Type 0} ⦃e : Key K⦄ where
  -- The element whose node has the key.
  abbrev pub at_node : K → List (Element (Node K V)) → Option (Element (Node K V))
  at_node k [] = none
  at_node k (x ∷ xs) = if e.beq x.value.key k then some x else at_node k xs

  pub find-pairs :
      (k : K) (xs : List (Element (Node K V))) → find k (pairs xs) ≡ value_found (at_node k xs)
  find-pairs k [] = refl
  find-pairs k (x ∷ xs) = elim (Bool-cases (e.beq x.value.key k)) [
    | inl c ↦ rw c refl
    | inr c ↦ rw c (find-pairs k xs)
  ]

  pub at_node-key :
      (k : K) (xs : List (Element (Node K V))) {x : Element (Node K V)}
      → at_node k xs ≡ some x
      → x.value.key ≡ k
  at_node-key k [] h = absurd (cc)
  at_node-key k (y ∷ xs) {x} h = ground (arith, e.beq_iff y.value.key k, at_node-key k xs {x = x})

  pub at_node-member :
      (k : K) (xs : List (Element (Node K V))) {x : Element (Node K V)}
      → at_node k xs ≡ some x
      → member x.id xs ≡ true
  at_node-member k [] h = absurd (cc)
  at_node-member k (y ∷ xs) {x} h = ground (arith, at_node-member k xs {x = x})

  -- An element behind the head has not the head's number.
  other_node :
      (n : ℕ) (k : K) (x : Element (Node K V)) (xs : List (Element (Node K V)))
      {el : Element (Node K V)}
      → Numbered n (x ∷ xs)
      → at_node k xs ≡ some el
      → (x.id == el.id) ≡ false
  other_node n k x xs {el} d h = elim (Bool-cases (x.id == el.id)) [
    | inr c ↦ c
    | inl c ↦ absurd (let a = at_node-member k xs h in let b = d.1 in ground arith)
  ]

  pub pairs-assign :
      (n : ℕ) (k : K) (v : V) (xs : List (Element (Node K V))) {x : Element (Node K V)}
      → Numbered n xs
      → at_node k xs ≡ some x
      → pairs (assign x.id (record { key = k; value = v }) xs) ≡ put k v (pairs xs)
  pairs-assign n k v [] d h = absurd (cc)
  pairs-assign n k v (y ∷ xs) {x} d h = elim (Bool-cases (e.beq y.value.key k)) [
    | inl c ↦ ground (arith, e.beq_iff y.value.key k)
    | inr c ↦
        let out : at_node k xs ≡ some x = rw c at h in
        rw (c, other_node n k y xs d out)
          (ap (◌∷◌ (y.value.key, y.value.value)) (pairs-assign n k v xs d.2 out))
  ]

  pub pairs-take_out :
      (n : ℕ) (k : K) (xs : List (Element (Node K V))) {x : Element (Node K V)}
      → Numbered n xs
      → Distinct (pairs xs)
      → at_node k xs ≡ some x
      → pairs (take_out x.id xs) ≡ delete k (pairs xs)
  pairs-take_out n k [] d u h = absurd (cc)
  pairs-take_out n k (y ∷ xs) {x} d u h = elim (Bool-cases (e.beq y.value.key k)) [
    | inl c ↦
        let same : y ≡ x = ground arith in
        let gone : find k (pairs xs) ≡ none =
          ap (λ j. find j (pairs xs)) (sym ((e.beq_iff y.value.key k).0 c)) ∙ u.0 in
        let own : (y.id == x.id) ≡ true = ground arith in
        rw (c, own) (sym (delete_absent k (pairs xs) gone))
    | inr c ↦
        let out : at_node k xs ≡ some x = rw c at h in
        rw (c, other_node n k y xs d out)
          (ap (◌∷◌ (y.value.key, y.value.value)) (pairs-take_out n k xs d.2 u.1 out))
  ]

  -- Whether the element is found after the change, by key.
  pub at_node-assign :
      (n : ℕ) (k j : K) (v : V) (xs : List (Element (Node K V))) {x : Element (Node K V)}
      → Numbered n xs
      → at_node k xs ≡ some x
      → at_node j (assign x.id (record { key = k; value = v }) xs) ≡ (
          if e.beq k j
          then some (record { id = x.id; value = record { key = k; value = v } })
          else at_node j xs)
  at_node-assign n k j v [] d h = absurd (cc)
  at_node-assign n k j v (y ∷ xs) {x} d h = elim (Bool-cases (e.beq y.value.key k)) [
    | inl c ↦ ground (arith, e.beq_iff y.value.key k, e.beq_iff k j, e.beq_iff y.value.key j)
    | inr c ↦
        let out : at_node k xs ≡ some x = rw c at h in
        let apart = other_node n k y xs d out in
        ground (
          arith,
          e.beq_iff y.value.key k,
          e.beq_iff k j,
          e.beq_iff y.value.key j,
          at_node-assign n k j v xs {x = x} d.2 out,
        )
  ]

  pub at_node-append :
      (k : K) (xs : List (Element (Node K V))) (x : Element (Node K V))
      → at_node x.value.key xs ≡ none
      → at_node k (xs ++ x ∷ []) ≡ (if e.beq x.value.key k then some x else at_node k xs)
  at_node-append k [] x h = refl
  at_node-append k (y ∷ xs) x h = elim (Bool-cases (e.beq y.value.key x.value.key)) [
    | inl c ↦ absurd (ground arith)
    | inr c ↦
        let out : at_node x.value.key xs ≡ none = rw c at h in
        ground (
          arith,
          e.beq_iff y.value.key x.value.key,
          e.beq_iff x.value.key k,
          e.beq_iff y.value.key k,
          at_node-append k xs x out,
        )
  ]

  pub at_node-take_out :
      (n : ℕ) (k j : K) (xs : List (Element (Node K V))) {x : Element (Node K V)}
      → Numbered n xs
      → Distinct (pairs xs)
      → at_node k xs ≡ some x
      → at_node j (take_out x.id xs) ≡ (if e.beq k j then none else at_node j xs)
  at_node-take_out n k j [] d u h = absurd (cc)
  at_node-take_out n k j (y ∷ xs) {x} d u h = elim (Bool-cases (e.beq y.value.key k)) [
    | inl c ↦ ground (
      arith,
      e.beq_iff y.value.key k,
      e.beq_iff k j,
      e.beq_iff y.value.key j,
      find-pairs y.value.key xs,
      u.0,
    )
    | inr c ↦
        let out : at_node k xs ≡ some x = rw c at h in
        let apart = other_node n k y xs d out in
        ground (
          arith,
          e.beq_iff y.value.key k,
          e.beq_iff k j,
          e.beq_iff y.value.key j,
          at_node-take_out n k j xs {x = x} d.2 u.1 out,
        )
  ]
