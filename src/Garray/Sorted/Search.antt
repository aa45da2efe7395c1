-- ===== src/Garray/Sorted/Search.antt =====
-- binSearch and Search of SortedIntArray.
use go_zero_admin_pkg.Prelude.{
  ℕ, zero, suc, ◌+◌, ◌-◌, ◌/◌, ◌≤◌, ◌<◌, ◌≡◌, refl, sym, ap, ◌∙◌, true, false, List, [], ◌∷◌, arith,
  length, get_or, inl, inr, ◌⊎◌, Bool-cases, if◌then◌else◌, ltb, ltb→lt, ltb→le, ne→==,
}
use go_zero_admin_pkg.Prelude.Int.{ℤ, pos, negsuc, is_neg, is_pos, is_zero}
use go_zero_admin_pkg.Prelude.Run.{ok, load-ok}
use go_zero_admin_pkg.Garray.Sorted.{
  SortedIntArray, get_comparator, bin_search_loop, bin_search, search,
}
use go_zero_admin_pkg.Garray.Order.{
  IsComparator, AtMost, IsSorted, above-AtMost_trans, below-AtMost_trans,
}
use go_zero_admin_pkg.Prelude.Permutations.{All}

abbrev pub item : List ℤ → ℕ → ℤ
item a i = get_or a i (pos 0)

module _ (cmp : ℤ → ℤ → ℤ) (v : ℤ) (a : List ℤ) where
  -- Every element before `n` lies below the value.
  abbrev pub Above : ℕ → Type 0
  Above n = (j : ℕ) → j < n → is_pos (cmp v (item a j)) ≡ true

  -- Every element from `n` on lies above the value.
  abbrev pub Below : ℕ → Type 0
  Below n = (j : ℕ) → n ≤ j → j < length a → is_neg (cmp v (item a j)) ≡ true

  -- What a result of binSearch on a list with elements says: an equal element, or the gap for the value.
  pub data Located (r : ℤ × ℤ) : Type 0 where
    hit : (k : ℕ) → k < length a → r ≡ (pos k, cmp v (item a k)) → is_zero r.1 ≡ true → Located r
    miss :
        (k gap : ℕ)
        → gap ≤ length a
        → r ≡ (pos k, cmp v (item a k))
        → is_zero r.1 ≡ false
        → gap ≡ (if is_pos r.1 then suc k else k)
        → Above gap
        → Below gap
        → Located r

  -- The last comparison stands at an edge of the window that is left.
  data Settled (min past mid : ℕ) (c : ℤ) : Type 0 where
    at_past : past ≡ mid → c ≡ cmp v (item a mid) → is_neg c ≡ true → Settled min past mid c
    at_min : min ≡ suc mid → c ≡ cmp v (item a mid) → is_pos c ≡ true → Settled min past mid c

  record Window (min past : ℕ) : Type 0 where
    order : min ≤ past
    inside : past ≤ length a
    left : Above min
    right : Below past

neg_sign : (c : ℤ) → is_neg c ≡ true → (is_zero c ≡ false) × (is_pos c ≡ false)
neg_sign c h = ground arith

pos_sign : (c : ℤ) → is_pos c ≡ true → is_zero c ≡ false
pos_sign c h = ground arith

zero_sign : (c : ℤ) → is_neg c ≡ false → is_pos c ≡ false → is_zero c ≡ true
zero_sign c h k = ground arith

sorted_head :
    (cmp : ℤ → ℤ → ℤ) (x : ℤ) (a : List ℤ) (i : ℕ)
    → All (AtMost cmp x) a
    → i < length a
    → AtMost cmp x (item a i)
sorted_head cmp x [] i s h = absurd (omega arith)
sorted_head cmp x (y ∷ a) zero s h = s.0
sorted_head cmp x (y ∷ a) (suc i) s h = sorted_head cmp x a i s.1 (omega arith)

module _ (cmp : ℤ → ℤ → ℤ) (lawful : IsComparator cmp) where
  AtMost-refl : (x : ℤ) → AtMost cmp x x
  AtMost-refl x = ground (arith, lawful.turn x x)

  pub IsSorted-item :
      (a : List ℤ) (i j : ℕ)
      → IsSorted cmp a
      → i ≤ j
      → j < length a
      → AtMost cmp (item a i) (item a j)
  IsSorted-item [] i j s h k = absurd (omega arith)
  IsSorted-item (x ∷ a) zero zero s h k = AtMost-refl x
  IsSorted-item (x ∷ a) zero (suc j) s h k = sorted_head cmp x a j s.0 (omega arith)
  IsSorted-item (x ∷ a) (suc i) zero s h k = absurd (omega arith)
  IsSorted-item (x ∷ a) (suc i) (suc j) s h k = IsSorted-item a i j s.1 (omega arith) (omega arith)

  module _ (v : ℤ) (a : List ℤ) (sorted : IsSorted cmp a) where
    go_left :
        (min past m : ℕ)
        → Window cmp v a min past
        → min ≤ m
        → m < past
        → is_neg (cmp v (item a m)) ≡ true
        → Window cmp v a min m
    go_left min past m w h k c = record {
      order = h;
      inside = omega (arith, w.inside);
      left = w.left;
      right = λ j p q.
          below-AtMost_trans cmp lawful v (item a m) (item a j) (IsSorted-item a m j sorted p q) c;
    }

    go_right :
        (min past m : ℕ)
        → Window cmp v a min past
        → m < past
        → is_pos (cmp v (item a m)) ≡ true
        → Window cmp v a (m + 1) past
    go_right min past m w k c = record {
      order = omega arith;
      inside = w.inside;
      left = λ j p.
          above-AtMost_trans cmp lawful v (item a j) (item a m)
            (IsSorted-item a j m sorted (omega arith) (omega (arith, w.inside))) c;
      right = w.right;
    }

    Settled-Located :
        (min past mid : ℕ) (c : ℤ)
        → Window cmp v a min past
        → past ≤ min
        → Settled cmp v a min past mid c
        → Located cmp v a (pos mid, c)
    Settled-Located min past mid c w h (at_past e f n) =
        miss mid min (omega (arith, w.order, w.inside)) (ap (λ x. (pos mid, x)) f) (neg_sign c n).0
          (rw (neg_sign c n).1 (omega (arith, w.order))) w.left
          (λ j p. w.right j (omega (arith, w.order)))
    Settled-Located min past mid c w h (at_min e f p) =
        miss mid min (omega (arith, w.order, w.inside)) (ap (λ x. (pos mid, x)) f) (pos_sign c p)
          (rw p e) w.left (λ j q. w.right j (omega (arith, w.order)))

    bin_search_loop-Located :
        (k min past mid : ℕ) (c : ℤ)
        → past - min < k
        → Window cmp v a min past
        → (min < past) ⊎ Settled cmp v a min past mid c
        → (r : ℤ × ℤ) × (bin_search_loop k cmp v a min past mid c ≡ ok r) × Located cmp v a r
    unfolding bin_search_loop
    bin_search_loop-Located zero min past mid c f w s = absurd (omega arith)
    bin_search_loop-Located (suc k) min past mid c f w s = elim (Bool-cases (ltb min past)) [
      | inl more ↦
          let h = ltb→lt min past more in
          let m = min + (past - 1 - min) / 2 in
          let low : min ≤ m = omega (arith, h) in
          let high : m < past = omega (arith, h) in
          let x = item a m in
          rw (more, load-ok a m (pos 0) (omega (arith, high, w.inside)))
            (elim (Bool-cases (is_neg (cmp v x))) [
              | inl n ↦ rw n (
                  bin_search_loop-Located k min m m (cmp v x) (omega (arith, f, high, low))
                    (go_left min past m w low high n) (inr (at_past refl refl n)))
              | inr n ↦ elim (Bool-cases (is_pos (cmp v x))) [
                | inl p ↦
                    rw (n, p)
                      (bin_search_loop-Located k (m + 1) past m (cmp v x) (omega (arith, f, low))
                        (go_right min past m w high p) (inr (at_min (omega arith) refl p)))
                | inr p ↦
                    rw (n, p)
                      (
                        (pos m, cmp v x),
                        refl,
                        hit m (omega (arith, high, w.inside)) refl (zero_sign (cmp v x) n p),
                      )
              ]
            ])
      | inr done ↦
          let h = ltb→le min past done in
          rw done ((pos mid, c), refl, Settled-Located min past mid c w h (settled h s))
    ]
      where
        settled :
            past ≤ min
            → (min < past) ⊎ Settled cmp v a min past mid c
            → Settled cmp v a min past mid c
        settled h (inl more) = absurd (omega arith)
        settled h (inr t) = t

-- An array whose elements are in the order of its comparator.
pub record IsOrdered (a : SortedIntArray) : Type 0 where
  pub lawful : IsComparator (get_comparator a)
  pub sorted : IsSorted (get_comparator a) a.array

-- binSearch on an ordered array with elements does not panic, and finds an equal element or the gap.
pub bin_search-Located :
    (a : SortedIntArray) (v : ℤ)
    → IsOrdered a
    → 0 < length a.array
    → (r : ℤ × ℤ) × (bin_search a v ≡ ok r) × Located (get_comparator a) v a.array r
unfolding bin_search
bin_search-Located a v o h = rw (ne→== (length a.array) 0 (omega arith)) (
    bin_search_loop-Located (get_comparator a) o.lawful v a.array o.sorted (length a.array + 1) 0
      (length a.array) 0 (negsuc 1) (omega arith) start (inl h))
  where
    start : Window (get_comparator a) v a.array 0 (length a.array)
    start = record {
      order = omega arith;
      inside = omega arith;
      left = λ j p. absurd (omega arith);
      right = λ j p q. absurd (omega arith);
    }

pub bin_search-empty :
    (a : SortedIntArray) (v : ℤ) → length a.array ≡ 0 → bin_search a v ≡ ok (negsuc 0, negsuc 1)
unfolding bin_search
bin_search-empty a v h = rw h

pub gap_free :
    (cmp : ℤ → ℤ → ℤ) (v : ℤ) (a : List ℤ) (gap : ℕ)
    → Above cmp v a gap
    → Below cmp v a gap
    → (j : ℕ) → j < length a
    → is_zero (cmp v (item a j)) ≡ false
gap_free cmp v a gap up down j h = elim (Bool-cases (ltb j gap)) [
  | inl p ↦ pos_sign _ (up j (ltb→lt j gap p))
  | inr p ↦ (neg_sign _ (down j (ltb→le j gap p) h)).0
]

-- Search on an ordered array never panics: it returns the index of an element that compares equal, or
-- -1 when no element does.
pub search_lem :
    (a : SortedIntArray) (v : ℤ)
    → IsOrdered a
    → ((k : ℕ) × (search a v ≡ ok (pos k))
        × (k < length a.array)
        × (is_zero (get_comparator a v (item a.array k)) ≡ true))
      ⊎ ((search a v ≡ ok (negsuc 0))
          × ((j : ℕ) → j < length a.array → is_zero (get_comparator a v (item a.array j)) ≡ false))
unfolding search
search_lem a v o = elim (Bool-cases (ltb 0 (length a.array))) [
  | inr none_left ↦
      let size : length a.array ≡ 0 = omega (arith, ltb→le _ _ none_left) in
      inr (rw (bin_search-empty a v size), λ j h. absurd (omega arith))
  | inl some_left ↦
      let (r, e, l) = bin_search-Located a v o (ltb→lt _ _ some_left) in
      elim l [
        | hit k h f z ↦ inl (
          k,
          rw (e, z) (ap (λ (p : ℤ × ℤ). ok p.0) f),
          h,
          sym (ap (λ (p : ℤ × ℤ). is_zero p.1) f) ∙ z,
        )
        | miss k gap h f z g up down ↦
            inr (rw (e, z), gap_free (get_comparator a) v a.array gap up down)
      ]
]
