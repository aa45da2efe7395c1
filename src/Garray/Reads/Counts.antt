-- ===== src/Garray/Reads/Counts.antt =====
-- CountValues and Search of IntArray against counts and first occurrences.
use go_zero_admin_pkg.Prelude.{
  ℕ, suc, ◌+◌, ◌≡◌, refl, sym, ap, ◌∙◌, true, false, List, [], ◌∷◌, arith, if◌then◌else◌, inl, inr,
  ◌⊎◌, Bool-cases,
}
use go_zero_admin_pkg.Prelude.Int.{pos, negsuc}
use go_zero_admin_pkg.Garray.Element.{Element}
use go_zero_admin_pkg.Garray.Normal.{Array}
use go_zero_admin_pkg.Garray.Normal.Values.{occurs}
use go_zero_admin_pkg.Garray.Normal.First.{IsFirst, do_search-IsFirst}
use go_zero_admin_pkg.Garray.Reads.{increment, count_loop, count_values, search}

module _ {A : Type 0} ⦃e : Element A⦄ where
  -- How often a value is in a list.
  abbrev pub occurrences : A → List A → ℕ
  occurrences v [] = 0
  occurrences v (x ∷ xs) = if e.beq x v then suc (occurrences v xs) else occurrences v xs

  -- The count of a value in the map, 0 for none.
  abbrev pub lookup : A → List (A × ℕ) → ℕ
  lookup v [] = 0
  lookup v ((w, n) ∷ m) = if e.beq w v then n else lookup v m

  same : (u v w : A) → e.beq u v ≡ true → e.beq u w ≡ e.beq v w
  same u v w h = ap (λ x. e.beq x w) ((e.beq_iff u v).0 h)

  apart : (v x w : A) → e.beq w x ≡ false → e.beq w v ≡ true → e.beq x v ≡ false
  apart v x w h k = elim (Bool-cases (e.beq x v)) [
    | inl p ↦
        let meet = (e.beq_iff w x).1 ((e.beq_iff w v).0 k ∙ sym ((e.beq_iff x v).0 p)) in
        absurd (cc)
    | inr n ↦ n
  ]

  lookup-increment :
      (v x : A) (m : List (A × ℕ))
      → lookup v (increment x m) ≡ (if e.beq x v then suc (lookup v m) else lookup v m)
  unfolding increment
  lookup-increment v x [] = refl
  lookup-increment v x ((w, n) ∷ m) = elim (Bool-cases (e.beq w x)) [
    | inl hit ↦ ground (arith, same w x v)
    | inr miss ↦ elim (Bool-cases (e.beq w v)) [
      | inl here ↦ rw (miss, here, apart v x w miss here) refl
      | inr there ↦ rw (miss, there) (lookup-increment v x m)
    ]
  ]

  count_loop-occurrences :
      (v : A) (m : List (A × ℕ)) (l : List A)
      → lookup v (count_loop m l) ≡ lookup v m + occurrences v l
  unfolding count_loop
  count_loop-occurrences v m [] = omega arith
  count_loop-occurrences v m (x ∷ l) = elim (Bool-cases (e.beq x v)) [
    | inl hit ↦ rw hit (
        omega
          (arith, count_loop-occurrences v (increment x m) l, rw hit at (lookup-increment v x m)))
    | inr miss ↦ rw miss (
        omega
          (arith, count_loop-occurrences v (increment x m) l, rw miss at (lookup-increment v x m)))
  ]

  -- CountValues maps each value to the number of its occurrences, and no other value to a count.
  pub count_values-occurrences :
      (a : Array A) (v : A) → lookup v (count_values a) ≡ occurrences v a.array
  unfolding count_values
  count_values-occurrences a v = omega (arith, count_loop-occurrences v [] a.array)

  -- Search returns the index of the first occurrence of the value, or -1 when there is none.
  pub search-IsFirst :
      (a : Array A) (v : A)
      → ((k : ℕ) × (search a v ≡ pos k) × IsFirst v a.array k)
        ⊎ ((search a v ≡ negsuc 0) × (occurs v a.array ≡ false))
  unfolding search
  search-IsFirst a v = do_search-IsFirst a.array v
