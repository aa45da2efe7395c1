-- ===== src/Garray/Normal/Values.antt =====
-- Search, Contains, RemoveValue and RemoveValues of IntArray against a plain recursion on the list.
use go_zero_admin_pkg.Prelude.{
  ℕ, suc, ◌+◌, ◌<◌, ◌≡◌, refl, ap, Bool, true, false, List, [], ◌∷◌, arith, length, inl, inr,
  Bool-cases, if◌then◌else◌, ne→==,
}
use go_zero_admin_pkg.Prelude.Int.{ℤ, pos, negsuc}
use go_zero_admin_pkg.Prelude.Run.{ok}
use go_zero_admin_pkg.Garray.Element.{Element}
use go_zero_admin_pkg.Garray.Normal.{
  Array, search_loop, do_search_without_lock, contains, remove_value, remove_values,
  remove_values_loop,
}
use go_zero_admin_pkg.Garray.Normal.Remove.{without, do_remove_inside}

module _ {A : Type 0} ⦃e : Element A⦄ where
  -- The list without its first `v`.
  abbrev pub erase : A → List A → List A
  erase v [] = []
  erase v (x ∷ xs) = if e.beq x v then xs else x ∷ erase v xs

  abbrev pub occurs : A → List A → Bool
  occurs v [] = false
  occurs v (x ∷ xs) = if e.beq x v then true else occurs v xs

  abbrev pub erase_all : List A → List A → List A
  erase_all a [] = a
  erase_all a (v ∷ vs) = erase_all (erase v a) vs

  -- How the index that the scan returns cuts the list.
  data Found (v : A) (a : List A) (i : ℕ) (r : ℤ) : Type 0 where
    missing : r ≡ negsuc 0 → occurs v a ≡ false → erase v a ≡ a → Found v a i r
    found :
        (j k : ℕ)
        → r ≡ pos j
        → j ≡ i + k
        → k < length a
        → occurs v a ≡ true
        → erase v a ≡ without k a
        → Found v a i r

  search_loop-Found : (i : ℕ) (a : List A) (v : A) → Found v a i (search_loop i a v)
  unfolding search_loop
  search_loop-Found i [] v = missing refl refl refl
  search_loop-Found i (x ∷ a) v = elim (Bool-cases (e.beq x v)) [
    | inl hit ↦ found i 0 (rw hit) (omega arith) (omega arith) (rw hit) (rw hit)
    | inr miss ↦ elim (search_loop-Found (suc i) a v) [
      | missing r o s ↦ missing (rw miss r) (rw miss o) (rw miss (ap (◌∷◌ x) s))
      | found j k r q h o s ↦
          found j (suc k) (rw miss r) (omega arith) (omega arith) (rw miss o)
            (rw miss (ap (◌∷◌ x) s))
    ]
  ]

  search-Found : (a : List A) (v : A) → Found v a 0 (do_search_without_lock a v)
  unfolding do_search_without_lock
  search-Found [] v = missing refl refl refl
  search-Found (x ∷ a) v =
      rw (ne→== (suc (length a)) 0 (omega arith)) (search_loop-Found 0 (x ∷ a) v)

  -- Contains tells exactly whether the value occurs.
  pub contains-occurs : (a : Array A) (v : A) → contains a v ≡ occurs v a.array
  unfolding contains
  contains-occurs a v = elim (search-Found a.array v) [
    | missing r o s ↦ rw (r, o)
    | found j k r q h o s ↦ rw (r, o)
  ]

  -- RemoveValue never panics, removes exactly the first occurrence, and tells whether there was one.
  pub remove_value_lem :
      (a : Array A) (v : A)
      → remove_value a v ≡ ok (record a { array = erase v a.array }, occurs v a.array)
  unfolding remove_value
  remove_value_lem a v = elim (search-Found a.array v) [
    | missing r o s ↦ rw (r, o, s)
    | found j k r q h o s ↦
        let same : j ≡ k = omega arith in rw (r, o, s, same, do_remove_inside a.array k h)
  ]

  remove_values_loop-erase_all : (a vs : List A) → remove_values_loop a vs ≡ ok (erase_all a vs)
  unfolding remove_values_loop
  remove_values_loop-erase_all a [] = refl
  remove_values_loop-erase_all a (v ∷ vs) = elim (search-Found a v) [
    | missing r o s ↦ rw (r, s) (remove_values_loop-erase_all a vs)
    | found j k r q h o s ↦
        let same : j ≡ k = omega arith in
        rw (r, s, same, do_remove_inside a k h) (remove_values_loop-erase_all (without k a) vs)
  ]

  -- RemoveValues never panics, and removes one occurrence for each value given, in turn.
  pub remove_values_lem :
      (a : Array A) (vs : List A)
      → remove_values a vs ≡ ok (record a { array = erase_all a.array vs })
  unfolding remove_values
  remove_values_lem a vs = rw (remove_values_loop-erase_all a.array vs)
