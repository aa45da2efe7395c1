-- ===== src/Gmap/Tests.antt =====
-- The lemmas on maps at concrete maps.
use go_zero_admin_pkg.Prelude.{◌≡◌, refl, true, false, List, [], ◌∷◌}
use go_zero_admin_pkg.Prelude.Int.{ℤ, pos, negsuc}
use go_zero_admin_pkg.Prelude.Maps.{int_key, occurs}
use go_zero_admin_pkg.Gmap.{IntIntMap, diff}
use go_zero_admin_pkg.Gmap.Compared.{diff_lem}

abbrev of : List (ℤ × ℤ) → IntIntMap
of entries = record { safe = true; entries = entries }

abbrev two : IntIntMap
two = of ((pos 1, pos 10) ∷ (negsuc 0, pos 20) ∷ [])

abbrev other : IntIntMap
other = of ((negsuc 0, pos 30) ∷ (pos 5, pos 0) ∷ [])

diff_lem_example :
    (occurs (negsuc 0) (diff two other).0 ≡ false)
    × (occurs (negsuc 0) (diff two other).1.0 ≡ false)
    × (occurs (negsuc 0) (diff two other).1.1 ≡ true)
diff_lem_example = diff_lem two other (negsuc 0) (refl, (refl, tt))
