-- ===== src/Gset/Members.antt =====
-- utils/tools/gset/gset_int_set.go: the members of the maps that its loops make.
use go_zero_admin_pkg.Prelude.{
  ◌≡◌, refl, sym, ap, ◌∙◌, Bool, true, false, not, ◌&&◌, ◌||◌, List, [], ◌∷◌, if◌then◌else◌, arith,
  inl, inr, Bool-cases,
}
use go_zero_admin_pkg.Prelude.Maps.{Key, occurs}
use go_zero_admin_pkg.Gset.{IntSet, insert, discard, inserts, insert_if, each_insert_if, union_loop}

module _ {K : Type 0} ⦃e : Key K⦄ where
  pub occurs-insert : (j k : K) (xs : List K) → occurs k (insert j xs) ≡ (e.beq j k || occurs k xs)
  occurs-insert j k xs = elim (Bool-cases (e.beq j k)) [
    | inl c ↦ let same = (e.beq_iff j k).0 c in ground arith
    | inr c ↦ ground arith
  ]

  pub occurs-discard :
      (j k : K) (xs : List K) → occurs k (discard j xs) ≡ (if e.beq j k then false else occurs k xs)
  occurs-discard j k [] = ground arith
  occurs-discard j k (x ∷ xs) =
      ground (arith, e.beq_iff x j, e.beq_iff j k, e.beq_iff x k, occurs-discard j k xs)

  pub occurs-inserts :
      (k : K) (ks xs : List K) → occurs k (inserts ks xs) ≡ (occurs k ks || occurs k xs)
  occurs-inserts k [] xs = refl
  occurs-inserts k (j ∷ ks) xs =
      occurs-inserts k ks (insert j xs) ∙ rw (occurs-insert j k xs) (ground arith)

  -- Whether a key is, or is not, one of the other map.
  abbrev pub fits : Bool → K → List K → Bool
  fits wanted k ys = if wanted then occurs k ys else not (occurs k ys)

  unfoldable pub fits_any : Bool → K → List (IntSet K) → Bool
  fits_any wanted k [] = false
  fits_any wanted k (other ∷ others) = fits wanted k other.items || fits_any wanted k others

  pub occurs-insert_if :
      (wanted : Bool) (k : K) (xs ys made : List K)
      → occurs k (insert_if wanted xs ys made)
        ≡ ((occurs k xs && fits wanted k ys) || occurs k made)
  occurs-insert_if wanted k [] ys made = refl
  occurs-insert_if wanted k (x ∷ xs) ys made = elim (Bool-cases (fits wanted x ys)) [
    | inl c ↦ rw c (
        occurs-insert_if wanted k xs ys (insert x made)
        ∙ rw (occurs-insert x k made) (elim (Bool-cases (e.beq x k)) [
          | inl y ↦
              let at = ap (λ i. fits wanted i ys) (sym ((e.beq_iff x k).0 y)) ∙ c in
              rw (y, at) (ground arith)
          | inr y ↦ rw y (ground arith)
        ]))
    | inr c ↦ rw c (
        occurs-insert_if wanted k xs ys made ∙ elim (Bool-cases (e.beq x k)) [
          | inl y ↦
              let at = ap (λ i. fits wanted i ys) (sym ((e.beq_iff x k).0 y)) ∙ c in
              rw (y, at) (ground arith)
          | inr y ↦ rw y (ground arith)
        ])
  ]

  pub occurs-each_insert_if :
      (wanted : Bool) (k : K) (xs : List K) (others : List (IntSet K)) (made : List K)
      → occurs k (each_insert_if wanted xs others made)
        ≡ ((occurs k xs && fits_any wanted k others) || occurs k made)
  unfolding fits_any
  occurs-each_insert_if wanted k xs [] made = ground arith
  occurs-each_insert_if wanted k xs (other ∷ others) made =
      occurs-each_insert_if wanted k xs others (insert_if wanted xs other.items made)
      ∙ rw (occurs-insert_if wanted k xs other.items made) (ground arith)

  pub occurs-union_loop :
      (k : K) (xs : List K) (other : IntSet K) (others : List (IntSet K)) (made : List K)
      → occurs k (union_loop xs (other ∷ others) made)
        ≡ (occurs k xs || (fits_any true k (other ∷ others) || occurs k made))
  unfolding fits_any
  occurs-union_loop k xs other [] made =
      occurs-inserts k other.items (inserts xs made) ∙ rw (occurs-inserts k xs made) (ground arith)
  occurs-union_loop k xs other (next ∷ others) made =
      occurs-union_loop k xs next others (inserts other.items (inserts xs made))
      ∙ rw (occurs-inserts k other.items (inserts xs made), occurs-inserts k xs made) (ground arith)
