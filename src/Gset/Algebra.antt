-- ===== src/Gset/Algebra.antt =====
-- utils/tools/gset/gset_int_set.go: the methods as operations on sets of items.
use go_zero_admin_pkg.Prelude.{
  ℕ, suc, ◌≡◌, ◌≤◌, refl, sym, ap, ◌∙◌, Bool, true, false, List, [], ◌∷◌, length, if◌then◌else◌,
  arith, inl, inr, Bool-cases, ◌↔◌, ◌==◌,
}
use go_zero_admin_pkg.Prelude.Maps.{Key, occurs, beq_refl}
use go_zero_admin_pkg.Gset.{IntSet, contains, equal, is_subset_of, all_occur, discard}
use go_zero_admin_pkg.Gset.Members.{fits_any, occurs-discard}
use go_zero_admin_pkg.Gset.Unique.{Unique, discard-Unique}

equal_parts : (n m : ℕ) (b : Bool) → (if n == m then b else false) ≡ true → (n ≡ m) × (b ≡ true)
equal_parts n m b h = ground arith

module _ {K : Type 0} ⦃e : Key K⦄ where
  -- Whether some of the sets has the item, and whether some has not.
  abbrev pub in_some : K → List (IntSet K) → Bool
  in_some = fits_any true

  abbrev pub out_of_some : K → List (IntSet K) → Bool
  out_of_some = fits_any false

  all_occur_iff :
      (xs ys : List K)
      → (all_occur xs ys ≡ true) ↔ ((k : K) → occurs k xs ≡ true → occurs k ys ≡ true)
  all_occur_iff [] ys = (λ h k there. absurd (let bad : false ≡ true = there in cc), λ h. refl)
  all_occur_iff (x ∷ xs) ys =
      let rest = all_occur_iff xs ys in
      (
        λ h k there. elim (Bool-cases (occurs x ys)) [
          | inr c ↦ absurd (let bad : false ≡ true = rw c at h in cc)
          | inl c ↦ elim (Bool-cases (e.beq x k)) [
            | inl y ↦ ap (λ i. occurs i ys) (sym ((e.beq_iff x k).0 y)) ∙ c
            | inr y ↦ rest.0 (rw c at h) k (rw y at there)
          ]
        ],
        λ h.
            let here : occurs x ys ≡ true = h x (rw (beq_refl x) refl) in
            rw here (rest.1 (λ k there. h k (ground (arith, there)))),
      )

  length-discard :
      (k : K) (xs : List K)
      → Unique xs
      → length xs ≡ (if occurs k xs then suc (length (discard k xs)) else length (discard k xs))
  length-discard k [] u = refl
  length-discard k (x ∷ xs) u = elim (Bool-cases (e.beq x k)) [
    | inl c ↦
        let out : occurs k xs ≡ false = ap (λ i. occurs i xs) (sym ((e.beq_iff x k).0 c)) ∙ u.0 in
        let rest = length-discard k xs u.1 in rw c (ground arith)
    | inr c ↦ rw c (let rest = length-discard k xs u.1 in ground arith)
  ]

  -- The items behind a head that does not come again occur in what the other list has beside it.
  without :
      (x : K) (xs ys : List K)
      → occurs x xs ≡ false
      → ((k : K) → occurs k (x ∷ xs) ≡ true → occurs k ys ≡ true)
      → (j : K) → occurs j xs ≡ true
      → occurs j (discard x ys) ≡ true
  without x xs ys u h j in_xs = elim (Bool-cases (e.beq x j)) [
    | inl y ↦
        let out : occurs j xs ≡ false = ap (λ i. occurs i xs) (sym ((e.beq_iff x j).0 y)) ∙ u in
        absurd (let bad : true ≡ false = sym in_xs ∙ out in cc)
    | inr y ↦ occurs-discard x j ys ∙ rw y (h j (rw y in_xs))
  ]

  -- A list without repetitions whose items all occur in another that is no longer has all its items.
  all_of_same_length :
      (xs ys : List K)
      → Unique xs
      → Unique ys
      → length ys ≤ length xs
      → ((k : K) → occurs k xs ≡ true → occurs k ys ≡ true)
      → (k : K) → occurs k ys ≡ true
      → occurs k xs ≡ true
  all_of_same_length [] [] u v n h k there = there
  all_of_same_length [] (y ∷ ys) u v n h k there = absurd (omega arith)
  all_of_same_length (x ∷ xs) ys u v n h k there =
      let here : occurs x ys ≡ true = h x (rw (beq_refl x) refl) in
      let shorter = length-discard x ys v in
      elim (Bool-cases (e.beq x k)) [
        | inl c ↦ rw c refl
        | inr c ↦ rw c (
            all_of_same_length xs (discard x ys) u.1 (discard-Unique x ys v) (ground arith)
              (without x xs ys u.0 h) k (occurs-discard x k ys ∙ rw c there))
      ]

  length-within :
      (xs ys : List K)
      → Unique xs
      → Unique ys
      → ((k : K) → occurs k xs ≡ true → occurs k ys ≡ true)
      → length xs ≤ length ys
  length-within [] ys u v h = omega arith
  length-within (x ∷ xs) ys u v h =
      let here : occurs x ys ≡ true = h x (rw (beq_refl x) refl) in
      let shorter = length-discard x ys v in
      let rest =
        length-within xs (discard x ys) u.1 (discard-Unique x ys v) (without x xs ys u.0 h) in
      ground arith

  -- Equal tells whether two sets have the same items, and IsSubsetOf whether the one has none that
  -- the other has not, where no item stands twice in a set.
  pub comparisons_lem :
      (s other : IntSet K)
      → Unique s.items
      → Unique other.items
      → ((equal s other ≡ true) ↔ ((k : K) → contains s k ≡ contains other k))
        × ((is_subset_of s other ≡ true)
            ↔ ((k : K) → contains s k ≡ true → contains other k ≡ true))
  unfolding equal is_subset_of contains
  comparisons_lem s other u v =
      let subset = all_occur_iff s.items other.items in
      (
        (
          λ h k.
              let (same, all) =
                equal_parts (length s.items) (length other.items) (all_occur s.items other.items)
                  h in
              let into = subset.0 all in
              let back = all_of_same_length s.items other.items u v (omega (arith, same)) into k in
              let forth = into k in ground arith,
          λ h.
              let all : all_occur s.items other.items ≡ true =
                subset.1 (λ k there. sym (h k) ∙ there) in
              let to : length s.items ≤ length other.items =
                length-within s.items other.items u v (λ k there. sym (h k) ∙ there) in
              let fro : length other.items ≤ length s.items =
                length-within other.items s.items v u (λ k there. h k ∙ there) in
              rw all (ground arith),
        ),
        subset,
      )
