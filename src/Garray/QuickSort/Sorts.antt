-- ===== src/Garray/QuickSort/Sorts.antt =====
-- quickSortInt: the two recursive calls around the pivot.
use mathlib.Core.List.Perm
use go_zero_admin_pkg.Prelude.{
  ℕ, zero, suc, ◌-◌, ◌<◌, ◌≡◌, refl, ap, ◌∙◌, true, false, List, [], ◌∷◌, ◌++◌, Perm, arith, length,
  take, drop, lt→leb, append-nil, length-append, take-length_append, drop-suc_append,
  drop-length_append,
}
use go_zero_admin_pkg.Prelude.Permutations.{All, All-append, length-perm, perm-Tested}
use go_zero_admin_pkg.Prelude.Int.{ℤ, is_pos}
use go_zero_admin_pkg.Prelude.Run.{Run, ok, slice, slice-ok, slice_front, slice_rear}
use go_zero_admin_pkg.Prelude.Swap.{load_at, store_at}
use go_zero_admin_pkg.Garray.Order.{IsComparator, AtMost, IsSorted, AtMost-All_trans, above-AtMost}
use go_zero_admin_pkg.Garray.QuickSort.{sort_loop, quick_sort_int, partition_loop}
use go_zero_admin_pkg.Garray.QuickSort.Partition.{Partitions, partition_loop-Parted}

module _ (cmp : ℤ → ℤ → ℤ) (lawful : IsComparator cmp) where
  -- An ordered list of the same elements.
  abbrev pub Sorts : List ℤ → Run (List ℤ) → Type 0
  Sorts l run = (r : List ℤ) × (run ≡ ok r) × IsSorted cmp r × Perm r l

  -- The parts of the slice around the pivot.
  cut :
      (low high : List ℤ) (mid : ℤ) (h : ℕ)
      → h ≡ length low
      → (slice (low ++ mid ∷ high) 0 h ≡ ok low)
        × (slice (low ++ mid ∷ high) (suc h) (length (low ++ mid ∷ high)) ≡ ok high)
        × (slice (low ++ mid ∷ high) h (suc h) ≡ ok (mid ∷ []))
  cut low high mid h e =
      let whole = low ++ mid ∷ high in
      let size = length-append low (mid ∷ high) in
      rw e (
        slice_front whole (length low) (omega (arith, size))
            ∙ ap ok (take-length_append low (mid ∷ high)),
        slice_rear whole (suc (length low)) (omega (arith, size))
            ∙ ap ok (drop-suc_append low high mid),
        slice-ok whole (length low) (suc (length low)) (omega arith) (omega (arith, size))
            ∙ ap ok (pivot low),
      )
    where
      pivot :
          (l : List ℤ)
          → take (suc (length l) - length l) (drop (length l) (l ++ mid ∷ high)) ≡ mid ∷ []
      pivot l =
          let one : suc (length l) - length l ≡ 1 = omega arith in
          rw (one, drop-length_append l (mid ∷ high))

  join-IsSorted :
      (low high : List ℤ) (mid : ℤ)
      → IsSorted cmp low
      → IsSorted cmp high
      → All (λ x. AtMost cmp x mid) low
      → All (AtMost cmp mid) high
      → IsSorted cmp (low ++ mid ∷ high)
  join-IsSorted [] high mid s t a b = (b, t)
  join-IsSorted (x ∷ low) high mid s t a b = (
    All-append (AtMost cmp x) low (mid ∷ high) s.0
        (a.0, AtMost-All_trans cmp lawful x mid high a.0 b),
    join-IsSorted low high mid s.1 t a.1 b,
  )

  parted :
      (mid : ℤ) (rest : List ℤ)
      → Partitions cmp mid
          (mid ∷ rest)
          (partition_loop (length (mid ∷ rest)) cmp mid 1 0 (length (mid ∷ rest) - 1) (mid ∷ rest))
  parted mid rest = rw append-nil at (
      partition_loop-Parted cmp mid (length (mid ∷ rest)) [] rest [] (omega arith) tt tt 1 0
        (length (mid ∷ rest) - 1) refl refl (omega arith))

  high-AtMost :
      (mid : ℤ) (l : List ℤ) → All (λ x. is_pos (cmp x mid) ≡ true) l → All (AtMost cmp mid) l
  high-AtMost mid [] h = tt
  high-AtMost mid (x ∷ l) h = (above-AtMost cmp lawful x mid h.0, high-AtMost mid l h.1)

  -- Two sorted halves around the pivot make a sorted list of the same elements.
  join-Sorts :
      (mid : ℤ) (before low high low' high' : List ℤ)
      → All (λ x. is_pos (cmp x mid) ≡ false) low
      → All (λ x. is_pos (cmp x mid) ≡ true) high
      → Perm (low ++ mid ∷ high) before
      → IsSorted cmp low'
      → Perm low' low
      → IsSorted cmp high'
      → Perm high' high
      → Sorts before (ok (low' ++ (mid ∷ high')))
  join-Sorts mid before low high low' high' b a p s m t n = (
    low' ++ mid ∷ high',
    refl,
    join-IsSorted low' high' mid s t (perm-Tested (λ x. is_pos (cmp x mid)) false (Perm.symm m) b)
        (high-AtMost mid high' (perm-Tested (λ x. is_pos (cmp x mid)) true (Perm.symm n) a)),
    Perm.trans (Perm.append m (Perm.cons mid n)) p,
  )

  sort_loop-Sorts : (k : ℕ) (l : List ℤ) → length l < k → Sorts l (sort_loop k cmp l)
  unfolding sort_loop
  sort_loop-Sorts zero l h = absurd (omega arith)
  sort_loop-Sorts (suc k) [] h = ([], refl, tt, Perm.refl [])
  sort_loop-Sorts (suc k) (mid ∷ []) h = (mid ∷ [], refl, (tt, tt), Perm.refl (mid ∷ []))
  sort_loop-Sorts (suc k) (mid ∷ y ∷ rest) h =
      let whole = mid ∷ y ∷ rest in
      let (r, e, q) = parted mid (y ∷ rest) in
      let size = length-perm q.same in
      let parts = length-append q.low (mid ∷ q.high) in
      let (low, low_ok, low_sorted, low_perm) =
        sort_loop-Sorts k q.low (omega (arith, size, parts)) in
      let (high, high_ok, high_sorted, high_perm) =
        sort_loop-Sorts k q.high (omega (arith, size, parts)) in
      let (c0, c1, c2) = cut q.low q.high mid r.0 q.head in
      rw
        (
          lt→leb 1 (length whole) (omega arith),
          load_at [] (y ∷ rest) mid 0 refl,
          e,
          q.shape,
          store_at q.low q.high mid mid r.0 q.head,
          c0,
          c1,
          low_ok,
          high_ok,
          c2,
        )
        (join-Sorts mid whole q.low q.high low high q.below q.above q.same low_sorted low_perm
          high_sorted high_perm)

-- With a lawful comparator quickSortInt never panics: it returns the elements of the slice, each as
-- often as before, in the comparator's order.
pub quick_sort_int-Sorts :
    (cmp : ℤ → ℤ → ℤ) (values : List ℤ)
    → IsComparator cmp
    → (r : List ℤ) × (quick_sort_int cmp values ≡ ok r) × IsSorted cmp r × Perm r values
unfolding quick_sort_int
quick_sort_int-Sorts cmp values lawful =
    sort_loop-Sorts cmp lawful (suc (length values)) values (omega arith)
