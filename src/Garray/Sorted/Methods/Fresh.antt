-- ===== src/Garray/Sorted/Methods/Fresh.antt =====
-- NewSortedIntArrayFrom and Clone, with sort.Ints.
use mathlib.Core.List.Perm
use go_zero_admin_pkg.Prelude.{
  ◌≡◌, refl, Bool, true, false, List, [], ◌∷◌, Perm, arith, inl, inr, Bool-cases,
}
use go_zero_admin_pkg.Prelude.Int.{ℤ, ltb_ℤ}
use go_zero_admin_pkg.Prelude.Permutations.{All}
use go_zero_admin_pkg.Garray.Order.{
  default_comparator_int, default-IsComparator, AtMost, IsSorted, AtMost-All_trans,
}
use go_zero_admin_pkg.Garray.Sorted.{SortedIntArray, get_comparator}
use go_zero_admin_pkg.Garray.Sorted.Search.{IsOrdered}
use go_zero_admin_pkg.Garray.Sorted.Methods.{
  insert_int, sort_ints, new_sorted_int_array_size, new_sorted_int_array_from, clone,
}

abbrev Below : ℤ → ℤ → Type 0
Below = AtMost default_comparator_int

ltb-AtMost : (x y : ℤ) → ltb_ℤ x y ≡ true → Below x y
unfolding default_comparator_int
ltb-AtMost x y h = ground arith

not_ltb-AtMost : (x y : ℤ) → ltb_ℤ y x ≡ false → Below x y
unfolding default_comparator_int
not_ltb-AtMost x y h = ground arith

insert_int-perm : (x : ℤ) (l : List ℤ) → Perm (insert_int x l) (x ∷ l)
unfolding insert_int
insert_int-perm x [] = Perm.refl (x ∷ [])
insert_int-perm x (y ∷ l) = elim (Bool-cases (ltb_ℤ y x)) [
  | inl behind ↦ rw behind (Perm.trans (Perm.cons y (insert_int-perm x l)) (Perm.swap x y l))
  | inr before ↦ rw before (Perm.refl (x ∷ y ∷ l))
]

insert_int-All : (P : ℤ → Type 0) (x : ℤ) (l : List ℤ) → P x → All P l → All P (insert_int x l)
unfolding insert_int
insert_int-All P x [] h k = (h, tt)
insert_int-All P x (y ∷ l) h k = elim (Bool-cases (ltb_ℤ y x)) [
  | inl behind ↦ rw behind (k.0, insert_int-All P x l h k.1)
  | inr before ↦ rw before (h, k)
]

insert_int-IsSorted :
    (x : ℤ) (l : List ℤ)
    → IsSorted default_comparator_int l
    → IsSorted default_comparator_int (insert_int x l)
unfolding insert_int
insert_int-IsSorted x [] s = (tt, tt)
insert_int-IsSorted x (y ∷ l) s = elim (Bool-cases (ltb_ℤ y x)) [
  | inl behind ↦
      rw behind
        (insert_int-All (Below y) x l (ltb-AtMost y x behind) s.0, insert_int-IsSorted x l s.1)
  | inr before ↦
      let first = not_ltb-AtMost x y before in
      rw before
        ((first, AtMost-All_trans default_comparator_int default-IsComparator x y l first s.0), s)
]

sort_ints-IsSorted : (l : List ℤ) → IsSorted default_comparator_int (sort_ints l)
unfolding sort_ints
sort_ints-IsSorted [] = tt
sort_ints-IsSorted (x ∷ l) = insert_int-IsSorted x (sort_ints l) (sort_ints-IsSorted l)

sort_ints-perm : (l : List ℤ) → Perm (sort_ints l) l
unfolding sort_ints
sort_ints-perm [] = Perm.refl []
sort_ints-perm (x ∷ l) =
    Perm.trans (insert_int-perm x (sort_ints l)) (Perm.cons x (sort_ints-perm l))

-- NewSortedIntArrayFrom and Clone give an array of the same elements, each as often, ordered by the
-- default comparator, whatever the comparator of the array cloned.
pub clone-IsOrdered :
    (array : List ℤ) (safe : Bool) (a : SortedIntArray)
    → (IsOrdered (new_sorted_int_array_from array safe)
        × Perm (new_sorted_int_array_from array safe).array array)
      × (IsOrdered (clone a)
          × Perm (clone a).array a.array
          × (get_comparator (clone a) ≡ default_comparator_int))
unfolding new_sorted_int_array_from new_sorted_int_array_size clone
clone-IsOrdered array safe a = (
  (
    record { lawful = default-IsComparator; sorted = sort_ints-IsSorted array },
    sort_ints-perm array,
  ),
  (
    record { lawful = default-IsComparator; sorted = sort_ints-IsSorted a.array },
    sort_ints-perm a.array,
    refl,
  ),
)
