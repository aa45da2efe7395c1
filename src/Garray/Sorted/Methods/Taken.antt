-- ===== src/Garray/Sorted/Methods/Taken.antt =====
-- The methods of SortedIntArray that take elements out.
use go_zero_admin_pkg.Prelude.{
  ℕ, zero, suc, ◌-◌, ◌≡◌, refl, Bool, List, [], ◌∷◌, ◌++◌, length, take, drop, inl, inr, Bool-cases,
  snoc, empty, last,
}
use go_zero_admin_pkg.Prelude.Int.{ℤ, pos, to_ℕ}
use go_zero_admin_pkg.Prelude.Run.{Run, ok, ◌>>=◌}
use go_zero_admin_pkg.Prelude.Permutations.{All}
use go_zero_admin_pkg.Garray.Element.{int_element}
use go_zero_admin_pkg.Garray.Order.{AtMost, IsSorted}
use go_zero_admin_pkg.Garray.Normal.{outside}
use go_zero_admin_pkg.Garray.Normal.Remove.{without, do_remove_lem}
use go_zero_admin_pkg.Garray.Normal.Pop.{taken, pop_lefts_lem, pop_rights_lem, pop_left_lem}
use go_zero_admin_pkg.Garray.Bulk.Filter.{kept, filter_lem}
use go_zero_admin_pkg.Garray.Bulk.Unique.{IsSubsequence, none_left, keep, skip}
use go_zero_admin_pkg.Garray.Sorted.{SortedIntArray, get_comparator, remove}
use go_zero_admin_pkg.Garray.Sorted.Search.{IsOrdered}
use go_zero_admin_pkg.Garray.Sorted.Methods.{
  plain, pop_left, pop_right, pop_lefts, pop_rights, filter,
}

whole-IsSubsequence : (l : List ℤ) → IsSubsequence l l
whole-IsSubsequence [] = none_left
whole-IsSubsequence (x ∷ l) = keep x (whole-IsSubsequence l)

drop-IsSubsequence : (n : ℕ) (l : List ℤ) → IsSubsequence (drop n l) l
drop-IsSubsequence zero l = whole-IsSubsequence l
drop-IsSubsequence (suc n) [] = none_left
drop-IsSubsequence (suc n) (x ∷ l) = skip x (drop-IsSubsequence n l)

nil-IsSubsequence : (l : List ℤ) → IsSubsequence [] l
nil-IsSubsequence [] = none_left
nil-IsSubsequence (x ∷ l) = skip x (nil-IsSubsequence l)

take-IsSubsequence : (n : ℕ) (l : List ℤ) → IsSubsequence (take n l) l
take-IsSubsequence zero l = nil-IsSubsequence l
take-IsSubsequence (suc n) [] = none_left
take-IsSubsequence (suc n) (x ∷ l) = keep x (take-IsSubsequence n l)

without-IsSubsequence : (n : ℕ) (l : List ℤ) → IsSubsequence (without n l) l
without-IsSubsequence zero [] = none_left
without-IsSubsequence (suc n) [] = none_left
without-IsSubsequence zero (x ∷ l) = skip x (whole-IsSubsequence l)
without-IsSubsequence (suc n) (x ∷ l) = keep x (without-IsSubsequence n l)

kept-IsSubsequence : (i : ℕ) (f : ℕ → ℤ → Bool) (l : List ℤ) → IsSubsequence (kept i f l) l
kept-IsSubsequence i f [] = none_left
kept-IsSubsequence i f (x ∷ l) = elim (Bool-cases (f i x)) [
  | inl goes ↦ rw goes (skip x (kept-IsSubsequence i f l))
  | inr stays ↦ rw stays (keep x (kept-IsSubsequence (suc i) f l))
]

front-IsSubsequence : (l : List ℤ) (v : ℤ) → IsSubsequence l (l ++ v ∷ [])
front-IsSubsequence [] v = skip v none_left
front-IsSubsequence (x ∷ l) v = keep x (front-IsSubsequence l v)

All-IsSubsequence : (P : ℤ → Type 0) {l m : List ℤ} → IsSubsequence l m → All P m → All P l
All-IsSubsequence P none_left h = tt
All-IsSubsequence P (keep x s) h = (h.0, All-IsSubsequence P s h.1)
All-IsSubsequence P (skip x s) h = All-IsSubsequence P s h.1

IsSorted-IsSubsequence :
    (cmp : ℤ → ℤ → ℤ) {l m : List ℤ} → IsSubsequence l m → IsSorted cmp m → IsSorted cmp l
IsSorted-IsSubsequence cmp none_left h = tt
IsSorted-IsSubsequence cmp (keep x s) h =
    (All-IsSubsequence (AtMost cmp x) s h.0, IsSorted-IsSubsequence cmp s h.1)
IsSorted-IsSubsequence cmp (skip x s) h = IsSorted-IsSubsequence cmp s h.1

-- The run returns; the array left is ordered, and holds elements of the former one in their order.
pub record Keeps (a : SortedIntArray) (run : Run SortedIntArray) : Type 0 where
  pub left : SortedIntArray
  pub done : run ≡ ok left
  pub ordered : IsOrdered left
  pub order : IsSubsequence left.array a.array

Keeps-part :
    (a : SortedIntArray) (run : Run SortedIntArray) (l : List ℤ)
    → IsOrdered a
    → IsSubsequence l a.array
    → run ≡ ok (record a { array = l })
    → Keeps a run
Keeps-part a run l o s e = record {
  left = record a { array = l };
  done = e;
  ordered = record {
    lawful = o.lawful;
    sorted = IsSorted-IsSubsequence (get_comparator a) s o.sorted;
  };
  order = s;
}

module _ (a : SortedIntArray) (o : IsOrdered a) where
  remove-Keeps : (index : ℤ) → Keeps a (remove a index >>= λ r. ok r.0)
  unfolding remove
  remove-Keeps index = elim (Bool-cases (outside index (length a.array))) [
    | inl out ↦
        Keeps-part a _ a.array o (whole-IsSubsequence a.array)
          (rw (do_remove_lem a.array index, out) refl)
    | inr within ↦
        Keeps-part a _ (without (to_ℕ index) a.array) o (without-IsSubsequence (to_ℕ index) a.array)
          (rw (do_remove_lem a.array index, within) refl)
  ]

  pop_lefts-Keeps : (size : ℤ) → Keeps a (pop_lefts a size >>= λ r. ok r.0)
  unfolding pop_lefts
  pop_lefts-Keeps size =
      let n = taken size (length a.array) in
      Keeps-part a _ (drop n a.array) o (drop-IsSubsequence n a.array)
        (rw (pop_lefts_lem (plain a) size) refl)

  pop_rights-Keeps : (size : ℤ) → Keeps a (pop_rights a size >>= λ r. ok r.0)
  unfolding pop_rights
  pop_rights-Keeps size =
      let n = length a.array - taken size (length a.array) in
      Keeps-part a _ (take n a.array) o (take-IsSubsequence n a.array)
        (rw (pop_rights_lem (plain a) size) refl)

  filter-Keeps : (f : ℕ → ℤ → Bool) → Keeps a (filter a f)
  unfolding filter
  filter-Keeps f =
      Keeps-part a _ (kept 0 f a.array) o (kept-IsSubsequence 0 f a.array)
        (rw (filter_lem (plain a) f) refl)

popped_left :
    (a : SortedIntArray) (l : List ℤ)
    → (v : ℤ) → a.array ≡ v ∷ l
    → (pop_left a >>= λ r. ok r.0) ≡ ok (record a { array = l })
unfolding pop_left
popped_left a l v e = rw (e, (pop_left_lem v (record { safe = a.safe; array = l })).1) refl

popped_right :
    (a : SortedIntArray) (l : List ℤ)
    → (v : ℤ) → a.array ≡ l ++ v ∷ []
    → (pop_right a >>= λ r. ok r.0) ≡ ok (record a { array = l })
unfolding pop_right
popped_right a l v e = rw (e, (pop_left_lem v (record { safe = a.safe; array = l })).3) refl

module _ (a : SortedIntArray) (o : IsOrdered a) where
  pop_left-Keeps : (l : List ℤ) → a.array ≡ l → Keeps a (pop_left a >>= λ r. ok r.0)
  unfolding pop_left
  pop_left-Keeps [] e =
      Keeps-part a _ [] o (nil-IsSubsequence a.array)
        (rw (e, (pop_left_lem (pos 0) (plain a)).0) refl)
  pop_left-Keeps (v ∷ l) e =
      Keeps-part a _ l o (rw e (skip v (whole-IsSubsequence l))) (popped_left a l v e)

  pop_right-Keeps : Keeps a (pop_right a >>= λ r. ok r.0)
  unfolding pop_right
  pop_right-Keeps = elim (snoc a.array) [
    | empty e ↦
        Keeps-part a _ [] o (nil-IsSubsequence a.array)
          (rw (e, (pop_left_lem (pos 0) (plain a)).2) refl)
    | last l v e n ↦ Keeps-part a _ l o (rw e (front-IsSubsequence l v)) (popped_right a l v e)
  ]

-- On an ordered array Remove, PopLeft, PopRight, PopLefts, PopRights and Filter never panic; the array
-- they leave is ordered, and holds elements of the former one in their order.
pub taken-Keeps :
    (a : SortedIntArray) (index : ℤ) (f : ℕ → ℤ → Bool)
    → IsOrdered a
    → Keeps a (remove a index >>= λ r. ok r.0)
      × Keeps a (pop_left a >>= λ r. ok r.0)
      × Keeps a (pop_right a >>= λ r. ok r.0)
      × Keeps a (pop_lefts a index >>= λ r. ok r.0)
      × Keeps a (pop_rights a index >>= λ r. ok r.0)
      × Keeps a (filter a f)
taken-Keeps a index f o = (
  remove-Keeps a o index,
  pop_left-Keeps a o a.array refl,
  pop_right-Keeps a o,
  pop_lefts-Keeps a o index,
  pop_rights-Keeps a o index,
  filter-Keeps a o f,
)
