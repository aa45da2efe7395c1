-- ===== src/Gset/Tests.antt =====
-- The lemmas on sets at concrete sets.
use go_zero_admin_pkg.Prelude.{ℕ, ◌≡◌, refl, true, false, List, [], ◌∷◌, ◌==◌, ==_iff, ◌↔◌}
use go_zero_admin_pkg.Prelude.Maps.{Key}
use go_zero_admin_pkg.Gset.{IntSet, contains, equal, is_subset_of}
use go_zero_admin_pkg.Gset.Algebra.{comparisons_lem}

instance abbrev numbers : Key ℕ
numbers = record { beq = ◌==◌; beq_iff = ==_iff }

abbrev of : List ℕ → IntSet ℕ
of items = record { safe = false; items = items }

comparisons_lem_example :
    ((equal (of (1 ∷ 2 ∷ [])) (of (2 ∷ 1 ∷ [])) ≡ true)
      ↔ ((k : ℕ) → contains (of (1 ∷ 2 ∷ [])) k ≡ contains (of (2 ∷ 1 ∷ [])) k))
    × ((is_subset_of (of (1 ∷ 2 ∷ [])) (of (2 ∷ 1 ∷ [])) ≡ true)
        ↔ ((k : ℕ) → contains (of (1 ∷ 2 ∷ [])) k ≡ true → contains (of (2 ∷ 1 ∷ [])) k ≡ true))
comparisons_lem_example =
    comparisons_lem (of (1 ∷ 2 ∷ [])) (of (2 ∷ 1 ∷ [])) (refl, (refl, tt)) (refl, (refl, tt))
