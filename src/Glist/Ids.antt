-- ===== src/Glist/Ids.antt =====
-- utils/tools/glist/glist.go: which elements are in a list, by their numbers.
use go_zero_admin_pkg.Prelude.{
  ℕ, ◌≤◌, ◌<◌, ◌≡◌, refl, Bool, true, false, ◌||◌, List, [], ◌∷◌, ◌++◌, ◌==◌, Bool-cases, arith,
  inl, inr,
}
use go_zero_admin_pkg.Glist.{Element, member, take_out, insert_at}

-- The numbers are distinct and below `n`.
abbrev pub Numbered : {V : Type 0} → ℕ → List (Element V) → Type 0
Numbered n [] = Unit {0}
Numbered n (x ∷ xs) = (x.id < n) × (member x.id xs ≡ false) × Numbered n xs

module _ {V : Type 0} where
  pub member-append :
      (i : ℕ) (xs ys : List (Element V)) → member i (xs ++ ys) ≡ (member i xs || member i ys)
  member-append i [] ys = refl
  member-append i (x ∷ xs) ys = ground (arith, member-append i xs ys)

  pub member_above : (n i : ℕ) (xs : List (Element V)) → Numbered n xs → n ≤ i → member i xs ≡ false
  member_above n i [] h k = refl
  member_above n i (x ∷ xs) h k = ground (arith, member_above n i xs h.2 k, h.0)

  pub Numbered-weaken : (n m : ℕ) (xs : List (Element V)) → n ≤ m → Numbered n xs → Numbered m xs
  Numbered-weaken n m [] h k = tt
  Numbered-weaken n m (x ∷ xs) h k = (omega (arith, k.0), k.1, Numbered-weaken n m xs h k.2)

  pub member-take_out :
      (i j : ℕ) (xs : List (Element V)) → member i xs ≡ false → member i (take_out j xs) ≡ false
  member-take_out i j [] h = refl
  member-take_out i j (x ∷ xs) h = ground (arith, member-take_out i j xs)

  pub taken_out :
      (n i : ℕ) (xs : List (Element V)) → Numbered n xs → member i (take_out i xs) ≡ false
  taken_out n i [] h = refl
  taken_out n i (x ∷ xs) h = ground (arith, taken_out n i xs h.2, h.1)

  pub take_out-Numbered :
      (n i : ℕ) (xs : List (Element V)) → Numbered n xs → Numbered n (take_out i xs)
  take_out-Numbered n i [] h = tt
  take_out-Numbered n i (x ∷ xs) h = elim (Bool-cases (x.id == i)) [
    | inl e ↦ rw e h.2
    | inr e ↦ rw e (h.0, member-take_out x.id i xs h.1, take_out-Numbered n i xs h.2)
  ]

  pub snoc-Numbered :
      (n : ℕ) (xs : List (Element V)) (e : Element V)
      → Numbered n xs
      → e.id < n
      → member e.id xs ≡ false
      → Numbered n (xs ++ e ∷ [])
  snoc-Numbered n [] e h k out = (k, refl, tt)
  snoc-Numbered n (x ∷ xs) e h k out = (
    h.0,
    ground (arith, member-append x.id xs (e ∷ []), h.1),
    snoc-Numbered n xs e h.2 k (ground arith),
  )

  pub member-insert_at :
      (b : Bool) (i j : ℕ) (e : Element V) (xs : List (Element V))
      → member j xs ≡ false
      → (e.id == j) ≡ false
      → member j (insert_at b i e xs) ≡ false
  member-insert_at b i j e [] h k = refl
  member-insert_at b i j e (x ∷ xs) h k = ground (arith, member-insert_at b i j e xs)

  pub insert_at-Numbered :
      (b : Bool) (n i : ℕ) (e : Element V) (xs : List (Element V))
      → Numbered n xs
      → e.id < n
      → member e.id xs ≡ false
      → Numbered n (insert_at b i e xs)
  insert_at-Numbered b n i e [] h k out = tt
  insert_at-Numbered true n i e (x ∷ xs) h k out = elim (Bool-cases (x.id == i)) [
    | inl c ↦ rw c (k, out, h)
    | inr c ↦ rw c (
      h.0,
      member-insert_at true i x.id e xs h.1 (ground arith),
      insert_at-Numbered true n i e xs h.2 k (ground arith),
    )
  ]
  insert_at-Numbered false n i e (x ∷ xs) h k out = elim (Bool-cases (x.id == i)) [
    | inl c ↦ rw c (h.0, ground (arith, h.1), (k, ground arith, h.2))
    | inr c ↦ rw c (
      h.0,
      member-insert_at false i x.id e xs h.1 (ground arith),
      insert_at-Numbered false n i e xs h.2 k (ground arith),
    )
  ]
