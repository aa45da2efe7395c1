-- ===== src/Gcache/Lru/Keyed.antt =====
-- utils/tools/gcache/gcache_adapter_memory_lru.go: elements of a list found by their key.
use go_zero_admin_pkg.Prelude.{
  ℕ, suc, ◌≡◌, refl, sym, ap, true, false, Option, none, some, List, [], ◌∷◌, length, ◌==◌,
  Bool-cases, if◌then◌else◌, arith, inl, inr,
}
use go_zero_admin_pkg.Prelude.Maps.{Key, is_some}
use go_zero_admin_pkg.Glist.{Element, member, take_out, prev, values}
use go_zero_admin_pkg.Glist.Ids.{Numbered}

module _ {K : Type 0} ⦃e : Key K⦄ where
  -- The element that has the key.
  abbrev pub at_key : K → List (Element K) → Option (Element K)
  at_key k [] = none
  at_key k (x ∷ xs) = if e.beq x.value k then some x else at_key k xs

  -- No key stands twice.
  abbrev pub Alone : List (Element K) → Type 0
  Alone [] = Unit {0}
  Alone (x ∷ xs) = (at_key x.value xs ≡ none) × Alone xs

  -- The list without the first occurrence of the key.
  abbrev pub erase : K → List K → List K
  erase k [] = []
  erase k (x ∷ xs) = if e.beq x k then xs else x ∷ erase k xs

  pub at_key-value :
      (k : K) (xs : List (Element K)) {x : Element K} → at_key k xs ≡ some x → x.value ≡ k
  at_key-value k [] h = absurd (cc)
  at_key-value k (y ∷ xs) {x} h = ground (arith, e.beq_iff y.value k, at_key-value k xs {x = x})

  pub at_key-member :
      (k : K) (xs : List (Element K)) {x : Element K} → at_key k xs ≡ some x → member x.id xs ≡ true
  at_key-member k [] h = absurd (cc)
  at_key-member k (y ∷ xs) {x} h = ground (arith, at_key-member k xs {x = x})

  pub length-take_out :
      (i : ℕ) (xs : List (Element K))
      → member i xs ≡ true
      → length xs ≡ suc (length (take_out i xs))
  length-take_out i [] h = absurd (cc)
  length-take_out i (x ∷ xs) h = ground (arith, length-take_out i xs)

  -- The element at the head is the one with its number.
  other_number :
      (n : ℕ) (k : K) (x : Element K) (xs : List (Element K)) {el : Element K}
      → Numbered n (x ∷ xs)
      → at_key k xs ≡ some el
      → (x.id == el.id) ≡ false
  other_number n k x xs {el} d h = elim (Bool-cases (x.id == el.id)) [
    | inr c ↦ c
    | inl c ↦ absurd (let a = at_key-member k xs h in let b = d.1 in ground arith)
  ]

  pub values-take_out :
      (n : ℕ) (k : K) (xs : List (Element K)) {x : Element K}
      → Numbered n xs
      → at_key k xs ≡ some x
      → values (take_out x.id xs) ≡ erase k (values xs)
  values-take_out n k [] d h = absurd (cc)
  values-take_out n k (y ∷ xs) {x} d h = elim (Bool-cases (e.beq y.value k)) [
    | inl c ↦ ground arith
    | inr c ↦
        let out : at_key k xs ≡ some x = rw c at h in
        rw (c, other_number n k y xs d out) (ap (◌∷◌ y.value) (values-take_out n k xs d.2 out))
  ]

  pub erase_absent :
      (k : K) (xs : List (Element K)) → at_key k xs ≡ none → erase k (values xs) ≡ values xs
  erase_absent k [] h = refl
  erase_absent k (x ∷ xs) h = ground (arith, erase_absent k xs)

  pub at_key-take_out :
      (n : ℕ) (k j : K) (xs : List (Element K)) {x : Element K}
      → Numbered n xs
      → Alone xs
      → at_key k xs ≡ some x
      → at_key j (take_out x.id xs) ≡ (if e.beq k j then none else at_key j xs)
  at_key-take_out n k j [] d u h = absurd (cc)
  at_key-take_out n k j (y ∷ xs) {x} d u h = elim (Bool-cases (e.beq y.value k)) [
    | inl c ↦ ground (arith, e.beq_iff y.value k, e.beq_iff k j, e.beq_iff y.value j, u.0)
    | inr c ↦
        let out : at_key k xs ≡ some x = rw c at h in
        let apart = other_number n k y xs d out in
        ground (
          arith,
          e.beq_iff y.value k,
          e.beq_iff k j,
          e.beq_iff y.value j,
          at_key-take_out n k j xs {x = x} d.2 u.1 out,
        )
  ]

  take_out_absent :
      (k : K) (i : ℕ) (xs : List (Element K)) → at_key k xs ≡ none → at_key k (take_out i xs) ≡ none
  take_out_absent k i [] h = refl
  take_out_absent k i (x ∷ xs) h = ground (arith, take_out_absent k i xs)

  pub take_out-Alone : (i : ℕ) (xs : List (Element K)) → Alone xs → Alone (take_out i xs)
  take_out-Alone i [] u = tt
  take_out-Alone i (x ∷ xs) u = elim (Bool-cases (x.id == i)) [
    | inl c ↦ rw c u.1
    | inr c ↦ rw c (take_out_absent x.value i xs u.0, take_out-Alone i xs u.1)
  ]

  prev-member :
      (i : ℕ) (y : Element K) (xs : List (Element K))
      → member i xs ≡ true
      → is_some (prev i (y ∷ xs)) ≡ true
  prev-member i y [] h = absurd (cc)
  prev-member i y (x ∷ xs) h = ground (arith, prev-member i x xs)

  -- An element that has none in front of it is the head.
  pub prev-none :
      (n : ℕ) (k : K) (xs : List (Element K)) {x : Element K}
      → Numbered n xs
      → at_key k xs ≡ some x
      → is_some (prev x.id xs) ≡ false
      → k ∷ erase k (values xs) ≡ values xs
  prev-none n k [] d h p = absurd (cc)
  prev-none n k (y ∷ xs) {x} d h p = elim (Bool-cases (e.beq y.value k)) [
    | inl c ↦ rw c (ap (λ j. j ∷ values xs) (sym ((e.beq_iff y.value k).0 c)))
    | inr c ↦
        let out : at_key k xs ≡ some x = rw c at h in
        absurd (let bad = prev-member x.id y xs (at_key-member k xs out) in cc)
  ]
