-- ===== src/Garray/Sorted/Append.antt =====
-- Append of SortedIntArray: the place of a value in an ordered array.
use mathlib.Core.List.{perm_middle}
use mathlib.Core.List.Perm
use go_zero_admin_pkg.Prelude.{
  ℕ, zero, suc, ◌≤◌, ◌<◌, ◌≡◌, refl, sym, ap, ◌∙◌, true, false, List, [], ◌∷◌, ◌++◌, Perm, arith,
  length, take, drop, take-append-drop, append-cons, Bool-cases, inl, inr, ◌&&◌, if◌then◌else◌, ltb,
  ltb→lt, ltb→le,
}
use go_zero_admin_pkg.Prelude.Int.{ℤ, pos, negsuc, is_pos, is_zero}
use go_zero_admin_pkg.Garray.Order.{
  IsComparator, AtMost, IsSorted, above-AtMost, below-AtMost, zero-AtMost,
}
use go_zero_admin_pkg.Prelude.Permutations.{All}
use go_zero_admin_pkg.Prelude.Run.{Run, ok, ◌>>=◌, slice_front, slice_rear}
use go_zero_admin_pkg.Garray.Sorted.{SortedIntArray, get_comparator, place, append, bin_search}
use go_zero_admin_pkg.Garray.Sorted.Search.{
  item, Above, Below, Located, hit, miss, IsOrdered, IsSorted-item, bin_search-Located,
  bin_search-empty,
}

module _ (cmp : ℤ → ℤ → ℤ) (lawful : IsComparator cmp) where
  All-take :
      (P : ℤ → Type 0) (n : ℕ) (a : List ℤ)
      → ((j : ℕ) → j < n → j < length a → P (item a j))
      → All P (take n a)
  All-take P zero a h = tt
  All-take P (suc n) [] h = tt
  All-take P (suc n) (x ∷ a) h = (
    h 0 (omega arith) (omega arith),
    All-take P n a (λ j p q. h (suc j) (omega arith) (omega arith)),
  )

  All-drop :
      (P : ℤ → Type 0) (n : ℕ) (a : List ℤ)
      → ((j : ℕ) → n ≤ j → j < length a → P (item a j))
      → All P (drop n a)
  All-drop P zero [] h = tt
  All-drop P zero (x ∷ a) h = (
    h 0 (omega arith) (omega arith),
    All-drop P zero a (λ j p q. h (suc j) (omega arith) (omega arith)),
  )
  All-drop P (suc n) [] h = tt
  All-drop P (suc n) (x ∷ a) h = All-drop P n a (λ j p q. h (suc j) (omega arith) (omega arith))

  All-insert :
      (P : ℤ → Type 0) (n : ℕ) (a : List ℤ) (v : ℤ)
      → P v
      → All P a
      → All P (take n a ++ v ∷ drop n a)
  All-insert P zero a v p h = (p, h)
  All-insert P (suc n) [] v p h = (p, tt)
  All-insert P (suc n) (x ∷ a) v p h = (h.0, All-insert P n a v p h.1)

  IsSorted-insert :
      (n : ℕ) (a : List ℤ) (v : ℤ)
      → IsSorted cmp a
      → All (λ x. AtMost cmp x v) (take n a)
      → All (AtMost cmp v) (drop n a)
      → IsSorted cmp (take n a ++ v ∷ drop n a)
  IsSorted-insert zero a v s h k = (k, s)
  IsSorted-insert (suc n) [] v s h k = (tt, tt)
  IsSorted-insert (suc n) (x ∷ a) v s h k =
      (All-insert (AtMost cmp x) n a v h.0 s.0, IsSorted-insert n a v s.1 h.1 k)

-- Where the value goes: behind what it is not below, and before what it is not above.
record IsGap (cmp : ℤ → ℤ → ℤ) (v : ℤ) (a : List ℤ) (gap : ℕ) : Type 0 where
  inside : gap ≤ length a
  before : (j : ℕ) → j < gap → j < length a → AtMost cmp (item a j) v
  behind : (j : ℕ) → gap ≤ j → j < length a → AtMost cmp v (item a j)

module _ (cmp : ℤ → ℤ → ℤ) (lawful : IsComparator cmp) (v : ℤ) (a : List ℤ) where
  hit-IsGap :
      (k : ℕ) → IsSorted cmp a → k < length a → is_zero (cmp v (item a k)) ≡ true → IsGap cmp v a k
  hit-IsGap k s h z =
      let (up, down) = zero-AtMost cmp lawful v (item a k) z in
      record {
        inside = omega arith;
        before = λ j p q.
            lawful.chain (item a j) (item a k) v (IsSorted-item cmp lawful a j k s (omega arith) h)
              down;
        behind =
            λ j p q. lawful.chain v (item a k) (item a j) up (IsSorted-item cmp lawful a k j s p q);
      }

  miss-IsGap :
      (gap : ℕ) → gap ≤ length a → Above cmp v a gap → Below cmp v a gap → IsGap cmp v a gap
  miss-IsGap gap h up down = record {
    inside = h;
    before = λ j p q. above-AtMost cmp lawful v (item a j) (up j p);
    behind = λ j p q. below-AtMost cmp lawful v (item a j) (down j p q);
  }

-- What Append does with one value: nothing where the array is unique and has an equal element, and
-- otherwise one more element, in order.
data Placed (a : SortedIntArray) (v : ℤ) (b : SortedIntArray) : Type 0 where
  unchanged :
      (k : ℕ)
      → a.unique ≡ true
      → k < length a.array
      → is_zero (get_comparator a v (item a.array k)) ≡ true
      → b ≡ a
      → Placed a v b
  added :
      (l : List ℤ)
      → b ≡ record a { array = l }
      → IsSorted (get_comparator a) l
      → Perm l (v ∷ a.array)
      → Placed a v b

insert-Placed :
    (a : SortedIntArray) (v : ℤ) (gap : ℕ)
    → IsOrdered a
    → IsGap (get_comparator a) v a.array gap
    → Placed a v (record a { array = (take gap a.array ++ v ∷ []) ++ drop gap a.array })
insert-Placed a v gap o g =
    let cmp = get_comparator a in
    let before = take gap a.array in
    let behind = drop gap a.array in
    added (before ++ v ∷ behind) (ap (λ l. record a { array = l }) (append-cons before behind v))
      (IsSorted-insert cmp o.lawful gap a.array v o.sorted
        (All-take cmp o.lawful (λ x. AtMost cmp x v) gap a.array g.before)
        (All-drop cmp o.lawful (AtMost cmp v) gap a.array g.behind))
      (rw (take-append-drop gap a.array) at (perm_middle {a = v} before behind))

inserted : SortedIntArray → ℤ → ℕ → SortedIntArray
inserted a v gap = record a { array = (take gap a.array ++ v ∷ []) ++ drop gap a.array }

place-inserted :
    (a : SortedIntArray) (v c : ℤ) (k gap : ℕ)
    → gap ≤ length a.array
    → gap ≡ (if is_pos c then suc k else k)
    → (a.unique && is_zero c) ≡ false
    → place a v (pos k, c) ≡ ok (inserted a v gap)
unfolding place inserted
place-inserted a v c k gap h g skip =
    rw (skip, ← g, slice_rear a.array gap h, slice_front a.array gap h)

Outcome : SortedIntArray → ℤ → Run SortedIntArray → Type 0
Outcome a v r = (b : SortedIntArray) × (r ≡ ok b) × Placed a v b

place_at-Placed :
    (a : SortedIntArray) (v c : ℤ) (k : ℕ)
    → IsOrdered a
    → k < length a.array
    → c ≡ get_comparator a v (item a.array k)
    → is_zero c ≡ true
    → Outcome a v (place a v (pos k, c))
unfolding Outcome place inserted
place_at-Placed a v c k o h f z = elim (Bool-cases a.unique) [
  | inl u ↦ (a, rw (u, z), unchanged k u h (sym (ap is_zero f) ∙ z) refl)
  | inr n ↦
      let gap =
        hit-IsGap (get_comparator a) o.lawful v a.array k o.sorted h (sym (ap is_zero f) ∙ z) in
      (
        inserted a v k,
        place-inserted a v c k k (omega arith) (ground arith) (ground arith),
        insert-Placed a v k o gap,
      )
]

place-Placed :
    (a : SortedIntArray) (v : ℤ) (r : ℤ × ℤ)
    → IsOrdered a
    → Located (get_comparator a) v a.array r
    → Outcome a v (place a v r)
unfolding Outcome inserted
place-Placed a v (index, c) o (hit k h f z) =
    rw (ap (λ (p : ℤ × ℤ). p.0) f) (place_at-Placed a v c k o h (ap (λ (p : ℤ × ℤ). p.1) f) z)
place-Placed a v (index, c) o (miss k gap h f z g up down) = rw (ap (λ (p : ℤ × ℤ). p.0) f) (
  inserted a v gap,
  place-inserted a v c k gap h g (ground arith),
  insert-Placed a v gap o (miss-IsGap (get_comparator a) o.lawful v a.array gap h up down),
)

empty_list : (l : List ℤ) → length l ≡ 0 → l ≡ []
empty_list [] h = refl
empty_list (x ∷ l) h = absurd (omega arith)

place_first :
    (a : SortedIntArray) (v : ℤ)
    → place a v (negsuc 0, negsuc 1) ≡ ok (record a { array = a.array ++ v ∷ [] })
unfolding place
place_first a v = ground arith

-- One round of Append.
append_one-Placed :
    (a : SortedIntArray) (v : ℤ) (k : SortedIntArray → Run SortedIntArray)
    → IsOrdered a
    → (b : SortedIntArray) × ((bin_search a v >>= λ r. place a v r >>= k) ≡ k b) × Placed a v b
unfolding Outcome
append_one-Placed a v k o = elim (Bool-cases (ltb 0 (length a.array))) [
  | inr none_left ↦
      let size : length a.array ≡ 0 = omega (arith, ltb→le _ _ none_left) in
      (
        record a { array = a.array ++ v ∷ [] },
        rw (bin_search-empty a v size, place_first a v),
        added (a.array ++ v ∷ []) refl (rw (empty_list a.array size) (tt, tt))
            (rw (empty_list a.array size) (Perm.refl (v ∷ []))),
      )
  | inl some_left ↦
      let (r, e, l) = bin_search-Located a v o (ltb→lt _ _ some_left) in
      let (b, f, p) = place-Placed a v r o l in (b, rw (e, f), p)
]

Placed-IsOrdered : (a b : SortedIntArray) (v : ℤ) → IsOrdered a → Placed a v b → IsOrdered b
Placed-IsOrdered a b v o (unchanged k u h z e) = rw e o
Placed-IsOrdered a b v o (added l e s p) = rw e (record { lawful = o.lawful; sorted = s })

Placed-unique : (a b : SortedIntArray) (v : ℤ) → Placed a v b → b.unique ≡ a.unique
Placed-unique a b v (unchanged k u h z e) = rw e
Placed-unique a b v (added l e s p) = rw e

Placed-perm :
    (a b : SortedIntArray) (v : ℤ) → a.unique ≡ false → Placed a v b → Perm b.array (v ∷ a.array)
Placed-perm a b v n (unchanged k u h z e) = absurd (cc)
Placed-perm a b v n (added l e s p) = rw e p

-- Append on an ordered array never panics, and leaves the array ordered, in unique mode too.
pub append-IsOrdered :
    (a : SortedIntArray) (vs : List ℤ)
    → IsOrdered a
    → (b : SortedIntArray) × (append a vs ≡ ok b) × IsOrdered b
unfolding append
append-IsOrdered a [] o = (a, refl, o)
append-IsOrdered a (v ∷ vs) o =
    let (b, e, p) = append_one-Placed a v (λ b. append b vs) o in
    let (c, f, q) = append-IsOrdered b vs (Placed-IsOrdered a b v o p) in (c, e ∙ f, q)

-- Append on an ordered array that is not unique adds exactly the values given.
pub append-perm :
    (a : SortedIntArray) (vs : List ℤ)
    → IsOrdered a
    → a.unique ≡ false
    → (b : SortedIntArray) × (append a vs ≡ ok b) × Perm b.array (vs ++ a.array)
unfolding append
append-perm a [] o n = (a, refl, Perm.refl a.array)
append-perm a (v ∷ vs) o n =
    let (b, e, p) = append_one-Placed a v (λ b. append b vs) o in
    let still = Placed-unique a b v p ∙ n in
    let (c, f, q) = append-perm b vs (Placed-IsOrdered a b v o p) still in
    (
      c,
      e ∙ f,
      Perm.trans q (
          Perm.trans (Perm.append (Perm.refl vs) (Placed-perm a b v n p))
            (perm_middle {a = v} vs a.array)),
    )
