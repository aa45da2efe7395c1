-- ===== src/Garray/Bulk/Unique.antt =====
-- Unique of IntArray against the first occurrences.
use go_zero_admin_pkg.Prelude.{
  ◌≡◌, refl, sym, ap, ◌∙◌, Bool, true, false, not, ◌&&◌, List, [], ◌∷◌, ◌++◌, append-nil, arith,
  inl, inr, Bool-cases, append-cons, length, ne→==,
}
use go_zero_admin_pkg.Garray.Element.{Element}
use go_zero_admin_pkg.Garray.Normal.{Array}
use go_zero_admin_pkg.Garray.Bulk.{has, unique_loop, unique}

-- `xs` is `ys` with some elements left out.
pub data IsSubsequence {A : Type 0} : List A → List A → Type 0 where
  none_left : IsSubsequence [] []
  keep : {xs ys : List A} (x : A) → IsSubsequence xs ys → IsSubsequence (x ∷ xs) (x ∷ ys)
  skip : {xs ys : List A} (x : A) → IsSubsequence xs ys → IsSubsequence xs (x ∷ ys)

module _ {A : Type 0} ⦃e : Element A⦄ where
  abbrev pub Distinct : List A → Type 0
  Distinct [] = Unit {0}
  Distinct (x ∷ xs) = (has x xs ≡ false) × Distinct xs

  -- The elements of a list that are neither in `seen` nor met before.
  firsts : List A → List A → List A
  firsts seen [] = []
  firsts seen (x ∷ xs) = elim (has x seen) [
    | true ↦ firsts seen xs
    | false ↦ x ∷ firsts (x ∷ seen) xs
  ]

  unique_loop-firsts : (xs seen out : List A) → unique_loop xs seen out ≡ out ++ firsts seen xs
  unfolding unique_loop firsts
  unique_loop-firsts [] seen out = sym (append-nil out)
  unique_loop-firsts (x ∷ xs) seen out = elim (Bool-cases (has x seen)) [
    | inl old ↦ rw (old, unique_loop, firsts) (unique_loop-firsts xs seen out)
    | inr new ↦
        rw (new, unique_loop, firsts)
          (unique_loop-firsts xs (x ∷ seen) (out ++ x ∷ [])
            ∙ append-cons out (firsts (x ∷ seen) xs) x)
  ]

  firsts-IsSubsequence : (seen xs : List A) → IsSubsequence (firsts seen xs) xs
  unfolding firsts
  firsts-IsSubsequence seen [] = none_left
  firsts-IsSubsequence seen (x ∷ xs) = elim (Bool-cases (has x seen)) [
    | inl old ↦ rw (old, firsts) (skip x (firsts-IsSubsequence seen xs))
    | inr new ↦ rw (new, firsts) (keep x (firsts-IsSubsequence (x ∷ seen) xs))
  ]

  beq_refl : (x : A) → e.beq x x ≡ true
  beq_refl x = (e.beq_iff x x).1 refl

  has-beq : (v x : A) (xs : List A) → e.beq v x ≡ true → has v xs ≡ has x xs
  has-beq v x xs h = ap (λ y. has y xs) ((e.beq_iff v x).0 h)

  has-firsts : (v : A) (seen xs : List A) → has v (firsts seen xs) ≡ (has v xs && not (has v seen))
  unfolding firsts has
  has-firsts v seen [] = refl
  has-firsts v seen (x ∷ xs) = elim (Bool-cases (has x seen)) [
    | inl old ↦ rw (old, firsts) (ground (arith, has-firsts v seen xs, has-beq v x seen))
    | inr new ↦ rw (new, firsts) (ground (arith, has-firsts v (x ∷ seen) xs, has-beq v x seen))
  ]

  firsts-Distinct : (seen xs : List A) → Distinct (firsts seen xs)
  unfolding firsts has
  firsts-Distinct seen [] = tt
  firsts-Distinct seen (x ∷ xs) = elim (Bool-cases (has x seen)) [
    | inl old ↦ rw (old, firsts) (firsts-Distinct seen xs)
    | inr new ↦
        rw (new, firsts)
          (ground (arith, has-firsts x (x ∷ seen) xs, beq_refl x), firsts-Distinct (x ∷ seen) xs)
  ]

  pub record IsUniqued (before after : List A) : Type 0 where
    pub distinct : Distinct after
    pub same : (v : A) → has v after ≡ has v before
    pub ordered : IsSubsequence after before

  array-unique :
      (l : List A) (safe : Bool) → (unique (record { safe = safe; array = l })).array ≡ firsts [] l
  unfolding unique firsts
  array-unique [] safe = refl
  array-unique (x ∷ l) safe =
      rw (ne→== (length (x ∷ l)) 0 (omega arith)) (unique_loop-firsts (x ∷ l) [] [])

  no_seen : (v : A) (xs : List A) → (has v xs && not (has v [])) ≡ has v xs
  unfolding has
  no_seen v xs = ground arith

  -- Unique leaves no value twice, loses and adds none, and keeps the order.
  pub unique-IsUniqued : (a : Array A) → IsUniqued a.array (unique a).array
  unique-IsUniqued a = rw (array-unique a.array a.safe) (record {
    distinct = firsts-Distinct [] a.array;
    same = λ v. has-firsts v [] a.array ∙ no_seen v a.array;
    ordered = firsts-IsSubsequence [] a.array;
  })
