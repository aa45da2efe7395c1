-- ===== src/Garray/Tests.antt =====
-- The lemmas on the normal arrays at concrete arrays of int.
use mathlib.Core.List.{flatten}
use go_zero_admin_pkg.Prelude.{arith, ℕ, zero, suc, ◌≡◌, Bool, true, false, List, [], ◌∷◌, Perm}
use go_zero_admin_pkg.Prelude.Int.{ℤ, pos, negsuc}
use go_zero_admin_pkg.Prelude.Run.{ok}
use go_zero_admin_pkg.Garray.Element.{int_element}
use go_zero_admin_pkg.Garray.Order.{default_comparator_int, default-IsComparator, IsSorted}
use go_zero_admin_pkg.Garray.QuickSort.{quick_sort_int}
use go_zero_admin_pkg.Garray.QuickSort.Sorts.{quick_sort_int-Sorts}
use go_zero_admin_pkg.Garray.Normal.{Array}
use go_zero_admin_pkg.Garray.Bulk.{chunk}
use go_zero_admin_pkg.Garray.Bulk.Chunk.{IsChunked, chunk_lem}

abbrev mixed : List ℤ
mixed = pos 3 ∷ negsuc 1 ∷ pos 0 ∷ pos 3 ∷ []

abbrev numbers : Array ℤ
numbers = record { safe = true; array = mixed }

abbrev of : List ℤ → Array ℤ
of l = record { safe = true; array = l }

quick_sort_int-Sorts_example :
    (r : List ℤ) × (quick_sort_int default_comparator_int mixed ≡ ok r)
    × IsSorted default_comparator_int r
    × Perm r mixed
quick_sort_int-Sorts_example =
    quick_sort_int-Sorts default_comparator_int mixed default-IsComparator

chunk_lem_example :
    (cs : List (List ℤ)) × (chunk numbers (pos 3) ≡ ok cs) × (flatten cs ≡ mixed) × IsChunked 3 cs
chunk_lem_example = chunk_lem numbers 3 (omega arith)

-- The element at the first index goes, and the next one is asked at index 0 again.
abbrev at_start : ℕ → ℤ → Bool
at_start zero v = true
at_start (suc i) v = false
