-- ===== src/Garray/Sorted/Unique.antt =====
-- Unique of SortedIntArray: runs of elements that compare equal.
use go_zero_admin_pkg.Prelude.{
  ℕ, zero, suc, ◌+◌, ◌-◌, ◌<◌, ◌≡◌, refl, sym, ap, ◌∙◌, Bool, true, false, List, [], ◌∷◌, ◌++◌,
  Option, inl, inr, arith, length, Bool-cases, if◌then◌else◌, ◌==◌, ==_iff, ne→==, append-cons,
  length-append, length-concat, get_or-length_append, get_or-second, take-suc_append,
  drop_two_append,
}
use go_zero_admin_pkg.Prelude.Int.{ℤ, pos, is_neg, is_zero}
use go_zero_admin_pkg.Prelude.Run.{ok, load-ok, slice_front, slice_rear}
use go_zero_admin_pkg.Garray.Sorted.{SortedIntArray, get_comparator, unique_loop, uniqued}
use go_zero_admin_pkg.Garray.Order.{IsComparator, AtMost, IsSorted, below-AtMost_trans}
use go_zero_admin_pkg.Prelude.Permutations.{All}
use go_zero_admin_pkg.Garray.Sorted.Search.{IsOrdered}

module _ (cmp : ℤ → ℤ → ℤ) where
  -- `x`, and the elements behind it that differ from the one kept before them.
  abbrev dedup : ℤ → List ℤ → List ℤ
  dedup x [] = x ∷ []
  dedup x (y ∷ ys) = if is_zero (cmp x y) then dedup x ys else x ∷ dedup y ys

  unique_loop-dedup :
      (k : ℕ) (pre rest : List ℤ) (x : ℤ) (i : ℕ)
      → i ≡ length pre
      → length rest < k
      → unique_loop k cmp i (pre ++ x ∷ rest) ≡ ok (pre ++ dedup x rest)
  unfolding unique_loop
  unique_loop-dedup zero pre rest x i at h = absurd (omega arith)
  unique_loop-dedup (suc k) pre [] x i at h =
      let last : (i == length (pre ++ x ∷ []) - 1) ≡ true =
        (==_iff _ _).1 (omega (arith, length-concat pre x)) in
      rw last
  unique_loop-dedup (suc k) pre (y ∷ rest) x i at h =
      let whole = pre ++ x ∷ y ∷ rest in
      let size = length-append pre (x ∷ y ∷ rest) in
      let next : i + 1 ≡ suc (length pre) = omega arith in
      rw
        (
          ne→== i (length whole - 1) (omega (arith, size)),
          load-ok whole i (pos 0) (omega (arith, size)),
          next,
          at,
          load-ok whole (suc (length pre)) (pos 0) (omega (arith, size)),
          get_or-length_append pre (y ∷ rest) x (pos 0),
          get_or-second pre rest x y (pos 0),
        )
        (elim (Bool-cases (is_zero (cmp x y))) [
          | inl same ↦
              let two : suc (length pre) + 1 ≡ suc (suc (length pre)) = omega arith in
              rw
                (
                  same,
                  slice_front whole (suc (length pre)) (omega (arith, size)),
                  two,
                  slice_rear whole (suc (suc (length pre))) (omega (arith, size)),
                  take-suc_append pre (y ∷ rest) x,
                  drop_two_append pre rest x y,
                  append-cons pre rest x,
                )
                (unique_loop-dedup k pre rest x (length pre) refl (omega arith))
          | inr other ↦
              rw (other, ← append-cons pre (y ∷ rest) x, ← append-cons pre (dedup y rest) x)
                (unique_loop-dedup k (pre ++ x ∷ []) rest y (suc (length pre))
                  (sym (length-concat pre x)) (omega arith))
        ])

-- Every element compares strictly below all that follow it.
abbrev pub IsStrict : (ℤ → ℤ → ℤ) → List ℤ → Type 0
IsStrict cmp [] = Unit {0}
IsStrict cmp (x ∷ xs) = All (λ y. is_neg (cmp x y) ≡ true) xs × IsStrict cmp xs

-- Some element of the list compares equal to `v`.
abbrev pub has_equal : (ℤ → ℤ → ℤ) → ℤ → List ℤ → Bool
has_equal cmp v [] = false
has_equal cmp v (x ∷ xs) = if is_zero (cmp v x) then true else has_equal cmp v xs

module _ (cmp : ℤ → ℤ → ℤ) (lawful : IsComparator cmp) where
  AtMost-cases : (x y : ℤ) → AtMost cmp x y → is_zero (cmp x y) ≡ false → is_neg (cmp x y) ≡ true
  AtMost-cases x y h k = ground arith

  zero_trans : (v x y : ℤ) → is_zero (cmp x y) ≡ true → is_zero (cmp v x) ≡ is_zero (cmp v y)
  zero_trans v x y h = ground (
    arith,
    lawful.turn v x,
    lawful.turn x v,
    lawful.turn v y,
    lawful.turn y v,
    lawful.turn x y,
    lawful.turn y x,
    lawful.chain v x y,
    lawful.chain v y x,
    lawful.chain x v y,
    lawful.chain y v x,
    lawful.chain x y v,
    lawful.chain y x v,
  )

  neg-All :
      (x y : ℤ) (ys : List ℤ)
      → is_neg (cmp x y) ≡ true
      → All (AtMost cmp y) ys
      → All (λ z. is_neg (cmp x z) ≡ true) ys
  neg-All x y [] h s = tt
  neg-All x y (z ∷ ys) h s = (below-AtMost_trans cmp lawful x y z s.0 h, neg-All x y ys h s.1)

  dedup-All : (P : ℤ → Type 0) (x : ℤ) (xs : List ℤ) → P x → All P xs → All P (dedup cmp x xs)
  dedup-All P x [] p h = (p, tt)
  dedup-All P x (y ∷ ys) p h = elim (Bool-cases (is_zero (cmp x y))) [
    | inl same ↦ rw same (dedup-All P x ys p h.1)
    | inr other ↦ rw other (p, dedup-All P y ys h.0 h.1)
  ]

  dedup-IsStrict : (x : ℤ) (xs : List ℤ) → IsSorted cmp (x ∷ xs) → IsStrict cmp (dedup cmp x xs)
  dedup-IsStrict x [] s = (tt, tt)
  dedup-IsStrict x (y ∷ ys) s = elim (Bool-cases (is_zero (cmp x y))) [
    | inl same ↦ rw same (dedup-IsStrict x ys (s.0.1, s.1.1))
    | inr other ↦
        let below = AtMost-cases x y s.0.0 other in
        rw other (
          dedup-All (λ z. is_neg (cmp x z) ≡ true) y ys below (neg-All x y ys below s.1.0),
          dedup-IsStrict y ys s.1,
        )
  ]

  has_equal-dedup :
      (v x : ℤ) (xs : List ℤ) → has_equal cmp v (dedup cmp x xs) ≡ has_equal cmp v (x ∷ xs)
  has_equal-dedup v x [] = refl
  has_equal-dedup v x (y ∷ ys) = elim (Bool-cases (is_zero (cmp x y))) [
    | inl same ↦ rw same (has_equal-dedup v x ys ∙ ground (arith, zero_trans v x y same))
    | inr other ↦
        rw other (ap (λ b. if is_zero (cmp v x) then true else b) (has_equal-dedup v y ys))
  ]

abbrev Uniqued : SortedIntArray → Type 0
Uniqued a =
    (l : List ℤ) × (uniqued a ≡ ok (record a { array = l }))
    × IsStrict (get_comparator a) l
    × ((v : ℤ) → has_equal (get_comparator a) v l ≡ has_equal (get_comparator a) v a.array)

Uniqued-parts :
    (safe : Bool) (array : List ℤ) (mark : Bool) (comparator : Option (ℤ → ℤ → ℤ))
    → (let a : SortedIntArray = record {
      safe = safe;
      array = array;
      unique = mark;
      comparator = comparator;
    } in
        IsOrdered a → Uniqued a)
unfolding uniqued
Uniqued-parts safe [] mark comparator o = ([], refl, tt, λ v. refl)
Uniqued-parts safe (x ∷ l) mark comparator o =
    let cmp : ℤ → ℤ → ℤ =
      get_comparator (record { safe = safe; array = []; unique = mark; comparator = comparator }) in
    (
      dedup cmp x l,
      rw (
        ne→== (length (x ∷ l)) 0 (omega arith),
        unique_loop-dedup cmp (length (x ∷ l)) [] l x 0 refl (omega arith),
      ),
      dedup-IsStrict cmp o.lawful x l o.sorted,
      λ v. has_equal-dedup cmp o.lawful v x l,
    )

-- Unique on an ordered array never panics: what is left is in strictly increasing order, and has an
-- element equal to a value exactly if the array had one.
pub uniqued_lem :
    (a : SortedIntArray)
    → IsOrdered a
    → (l : List ℤ) × (uniqued a ≡ ok (record a { array = l }))
      × IsStrict (get_comparator a) l
      × ((v : ℤ) → has_equal (get_comparator a) v l ≡ has_equal (get_comparator a) v a.array)
uniqued_lem a o = Uniqued-parts a.safe a.array a.unique a.comparator o
