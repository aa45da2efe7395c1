-- ===== src/Garray/Sorted/Methods/Values.antt =====
-- Contains and RemoveValue on an ordered array.
use go_zero_admin_pkg.Prelude.{
  ℕ, zero, suc, ◌<◌, ◌≡◌, refl, sym, ap, ◌∙◌, true, false, List, [], ◌∷◌, arith, length, inl, inr,
  ◌⊎◌, Bool-cases, ltb, ltb→lt, ltb→le,
}
use go_zero_admin_pkg.Prelude.Int.{ℤ, is_zero}
use go_zero_admin_pkg.Prelude.Run.{ok}
use go_zero_admin_pkg.Garray.Element.{int_element}
use go_zero_admin_pkg.Garray.Normal.Remove.{without, do_remove_inside}
use go_zero_admin_pkg.Garray.Sorted.{SortedIntArray, get_comparator, remove_value}
use go_zero_admin_pkg.Garray.Sorted.Search.{
  item, IsOrdered, hit, miss, search_lem, bin_search-Located, bin_search-empty, gap_free,
}
use go_zero_admin_pkg.Garray.Sorted.Unique.{has_equal}
use go_zero_admin_pkg.Garray.Sorted.Methods.{contains}

module _ (cmp : ℤ → ℤ → ℤ) (v : ℤ) where
  has_equal_item :
      (l : List ℤ) (k : ℕ)
      → k < length l
      → is_zero (cmp v (item l k)) ≡ true
      → has_equal cmp v l ≡ true
  has_equal_item [] k h z = absurd (omega arith)
  has_equal_item (x ∷ l) zero h z = rw z refl
  has_equal_item (x ∷ l) (suc k) h z = elim (Bool-cases (is_zero (cmp v x))) [
    | inl e ↦ rw e refl
    | inr n ↦ rw n (has_equal_item l k (omega arith) z)
  ]

  has_equal_none :
      (l : List ℤ)
      → ((j : ℕ) → j < length l → is_zero (cmp v (item l j)) ≡ false)
      → has_equal cmp v l ≡ false
  has_equal_none [] h = refl
  has_equal_none (x ∷ l) h =
      rw (h 0 (omega arith)) (has_equal_none l (λ j k. h (suc j) (omega arith)))

-- Contains on an ordered array never panics, and tells whether an element compares equal.
pub contains-has_equal :
    (a : SortedIntArray) (v : ℤ)
    → IsOrdered a
    → contains a v ≡ ok (has_equal (get_comparator a) v a.array)
unfolding contains
contains-has_equal a v o = elim (search_lem a v o) [
  | inl (k, e, h, z) ↦ rw (e, has_equal_item (get_comparator a) v a.array k h z) refl
  | inr (e, n) ↦ rw (e, has_equal_none (get_comparator a) v a.array n) refl
]

-- RemoveValue on an ordered array never panics: it removes one element that compares equal, or leaves
-- the array and returns false when no element does.
pub remove_value-has_equal :
    (a : SortedIntArray) (v : ℤ)
    → IsOrdered a
    → ((k : ℕ) × (remove_value a v ≡ ok (record a { array = without k a.array }, true))
        × (k < length a.array)
        × (is_zero (get_comparator a v (item a.array k)) ≡ true))
      ⊎ ((remove_value a v ≡ ok (a, false)) × (has_equal (get_comparator a) v a.array ≡ false))
unfolding remove_value
remove_value-has_equal a v o = elim (Bool-cases (ltb 0 (length a.array))) [
  | inr none_left ↦
      let size : length a.array ≡ 0 = omega (arith, ltb→le _ _ none_left) in
      inr (
        rw (bin_search-empty a v size) refl,
        has_equal_none (get_comparator a) v a.array (λ j h. absurd (omega arith)),
      )
  | inl some_left ↦
      let (r, e, l) = bin_search-Located a v o (ltb→lt _ _ some_left) in
      elim l [
        | hit k h f z ↦ inl (
          k,
          rw (e, f, sym (ap (λ (p : ℤ × ℤ). is_zero p.1) f) ∙ z, do_remove_inside a.array k h) refl,
          h,
          sym (ap (λ (p : ℤ × ℤ). is_zero p.1) f) ∙ z,
        )
        | miss k gap h f z g up down ↦ inr (
          rw (e, z) refl,
          has_equal_none (get_comparator a) v a.array
              (gap_free (get_comparator a) v a.array gap up down),
        )
      ]
]
