-- ===== src/Gset/Unique.antt =====
-- utils/tools/gset/gset_int_set.go: no item stands twice in the list of the items.
use go_zero_admin_pkg.Prelude.{
  ℕ, suc, ◌≡◌, Bool, true, false, List, [], ◌∷◌, map, length, arith, inl, inr, Bool-cases, drop,
  zero,
}
use go_zero_admin_pkg.Prelude.Int.{ℤ, is_pos, to_ℕ}
use go_zero_admin_pkg.Prelude.Maps.{Key, occurs}
use go_zero_admin_pkg.Gset.{
  IntSet, add, add_if_not_exist, remove, pops, pops_size, merge, union, diff, intersect, complement,
  walk, insert, discard, inserts, insert_if, each_insert_if, union_loop,
}
use go_zero_admin_pkg.Gset.Members.{occurs-discard, fits}

module _ {K : Type 0} ⦃e : Key K⦄ where
  abbrev pub Unique : List K → Type 0
  Unique [] = Unit {0}
  Unique (x ∷ xs) = (occurs x xs ≡ false) × Unique xs

  insert-Unique : (k : K) (xs : List K) → Unique xs → Unique (insert k xs)
  insert-Unique k xs u = elim (Bool-cases (occurs k xs)) [ inl c ↦ rw c u | inr c ↦ rw c (c, u) ]

  inserts-Unique : (ks xs : List K) → Unique xs → Unique (inserts ks xs)
  inserts-Unique [] xs u = u
  inserts-Unique (k ∷ ks) xs u = inserts-Unique ks (insert k xs) (insert-Unique k xs u)

  pub discard-Unique : (k : K) (xs : List K) → Unique xs → Unique (discard k xs)
  discard-Unique k [] u = tt
  discard-Unique k (x ∷ xs) u = elim (Bool-cases (e.beq x k)) [
    | inl c ↦ rw c (discard-Unique k xs u.1)
    | inr c ↦ rw c (ground (arith, occurs-discard k x xs, u.0), discard-Unique k xs u.1)
  ]

  insert_if-Unique :
      (wanted : Bool) (xs ys made : List K) → Unique made → Unique (insert_if wanted xs ys made)
  insert_if-Unique wanted [] ys made u = u
  insert_if-Unique wanted (x ∷ xs) ys made u = elim (Bool-cases (fits wanted x ys)) [
    | inl c ↦ rw c (insert_if-Unique wanted xs ys (insert x made) (insert-Unique x made u))
    | inr c ↦ rw c (insert_if-Unique wanted xs ys made u)
  ]

  each_insert_if-Unique :
      (wanted : Bool) (xs : List K) (others : List (IntSet K)) (made : List K)
      → Unique made
      → Unique (each_insert_if wanted xs others made)
  each_insert_if-Unique wanted xs [] made u = u
  each_insert_if-Unique wanted xs (other ∷ others) made u =
      each_insert_if-Unique wanted xs others (insert_if wanted xs other.items made)
        (insert_if-Unique wanted xs other.items made u)

  union_loop-Unique :
      (xs : List K) (others : List (IntSet K)) (made : List K)
      → Unique made
      → Unique (union_loop xs others made)
  union_loop-Unique xs [] made u = u
  union_loop-Unique xs (other ∷ others) made u =
      union_loop-Unique xs others (inserts other.items (inserts xs made))
        (inserts-Unique other.items (inserts xs made) (inserts-Unique xs made u))

  merge-Unique :
      (s : IntSet K) (others : List (IntSet K)) → Unique s.items → Unique (merge s others).items
  unfolding merge
  merge-Unique s [] u = u
  merge-Unique s (other ∷ others) u =
      merge-Unique (record s { items = inserts other.items s.items }) others
        (inserts-Unique other.items s.items u)

  drop-Unique : (n : ℕ) (xs : List K) → Unique xs → Unique (drop n xs)
  drop-Unique zero xs u = u
  drop-Unique (suc n) [] u = tt
  drop-Unique (suc n) (x ∷ xs) u = drop-Unique n xs u.1

  pops-Unique : (s : IntSet K) (n : ℤ) → Unique s.items → Unique (pops s n).0.items
  unfolding pops
  pops-Unique s n u = elim (Bool-cases (is_pos (pops_size n (length s.items)))) [
    | inl c ↦ rw c (drop-Unique (to_ℕ (pops_size n (length s.items))) s.items u)
    | inr c ↦ rw c u
  ]

  add_if_not_exist-Unique :
      (s : IntSet K) (k : K) → Unique s.items → Unique (add_if_not_exist s k).0.items
  unfolding add_if_not_exist
  add_if_not_exist-Unique s k u = elim (Bool-cases (occurs k s.items)) [
    | inl c ↦ rw c u
    | inr c ↦ rw c (c, u)
  ]

  -- Each method that changes a set leaves no item in it twice, and those that make one make no such set.
  methods-Unique :
      (s full : IntSet K) (others : List (IntSet K)) (k : K) (ks : List K) (n : ℤ) (f : K → K)
      → Unique s.items
      → Unique (add s ks).items
        × Unique (add_if_not_exist s k).0.items
        × Unique (remove s k).items
        × Unique (pops s n).0.items
        × Unique (merge s others).items
        × Unique (walk s f).items
        × Unique (union s others).items
        × Unique (diff s others).items
        × Unique (intersect s others).items
        × Unique (complement s full).items
  unfolding add remove walk union diff intersect complement
  methods-Unique s full others k ks n f u = (
    inserts-Unique ks s.items u,
    add_if_not_exist-Unique s k u,
    discard-Unique k s.items u,
    pops-Unique s n u,
    merge-Unique s others u,
    inserts-Unique (map f s.items) [] tt,
    union_loop-Unique s.items others [] tt,
    each_insert_if-Unique false s.items others [] tt,
    each_insert_if-Unique true s.items others [] tt,
    insert_if-Unique false full.items s.items [] tt,
  )
