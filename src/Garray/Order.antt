-- ===== src/Garray/Order.antt =====
-- utils/tools/garray/garray_func.go: defaultComparatorInt; and lists that a comparator finds in order.
use go_zero_admin_pkg.Prelude.{
  ◌≡◌, true, false, List, [], ◌∷◌, arith, inl, inr, Bool-cases, if◌then◌else◌,
}
use go_zero_admin_pkg.Prelude.Permutations.{All}
use go_zero_admin_pkg.Prelude.Int.{ℤ, pos, negsuc, is_neg, is_pos, is_zero, ltb_ℤ}

unfoldable pub default_comparator_int : ℤ → ℤ → ℤ
default_comparator_int a b = if ltb_ℤ a b then negsuc 0 else if ltb_ℤ b a then pos 1 else pos 0

-- What binSearch and the quicksort need of a comparator: its sign turns with its arguments, and "at most" chains.
pub record IsComparator {A : Type 0} (cmp : A → A → ℤ) : Type 0 where
  pub turn : (a b : A) → is_pos (cmp a b) ≡ is_neg (cmp b a)
  pub chain :
      (a b c : A) → is_pos (cmp a b) ≡ false → is_pos (cmp b c) ≡ false → is_pos (cmp a c) ≡ false

pub default-IsComparator : IsComparator default_comparator_int
unfolding default_comparator_int
default-IsComparator = record { turn = λ a b. ground arith; chain = λ a b c h k. ground arith }

module _ {A : Type 0} (cmp : A → A → ℤ) where
  -- `a` is at most `b`.
  abbrev pub AtMost : A → A → Type 0
  AtMost a b = is_pos (cmp a b) ≡ false

  abbrev pub IsSorted : List A → Type 0
  IsSorted [] = Unit {0}
  IsSorted (x ∷ xs) = All (AtMost x) xs × IsSorted xs

module _ {A : Type 0} (cmp : A → A → ℤ) (lawful : IsComparator cmp) where
  pub below-AtMost : (a b : A) → is_neg (cmp a b) ≡ true → AtMost cmp a b
  below-AtMost a b h = ground arith

  pub above-AtMost : (a b : A) → is_pos (cmp a b) ≡ true → AtMost cmp b a
  above-AtMost a b h = ground (arith, lawful.turn a b)

  pub zero-AtMost : (a b : A) → is_zero (cmp a b) ≡ true → AtMost cmp a b × AtMost cmp b a
  zero-AtMost a b h = ground (arith, lawful.turn a b, lawful.turn b a)

  -- What lies above the greater lies above the smaller, and dually.
  pub above-AtMost_trans :
      (v x y : A) → AtMost cmp x y → is_pos (cmp v y) ≡ true → is_pos (cmp v x) ≡ true
  above-AtMost_trans v x y h k = elim (Bool-cases (is_pos (cmp v x))) [
    | inl p ↦ p
    | inr n ↦ absurd (ground (arith, lawful.chain v x y))
  ]

  pub below-AtMost_trans :
      (v x y : A) → AtMost cmp x y → is_neg (cmp v x) ≡ true → is_neg (cmp v y) ≡ true
  below-AtMost_trans v x y h k =
      ground (arith, lawful.turn x v, lawful.turn y v, lawful.chain x y v)

  pub AtMost-All_trans :
      (a b : A) (xs : List A) → AtMost cmp a b → All (AtMost cmp b) xs → All (AtMost cmp a) xs
  AtMost-All_trans a b [] h k = tt
  AtMost-All_trans a b (x ∷ xs) h k = (lawful.chain a b x h k.0, AtMost-All_trans a b xs h k.1)
