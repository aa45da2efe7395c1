-- ===== src/Garray/SortedTests.antt =====
-- The lemmas on the sorted arrays at concrete arrays.
use go_zero_admin_pkg.Prelude.{Bool, ℕ, ◌<◌, ◌≡◌, refl, true, false, ◌⊎◌, none, List, [], ◌∷◌}
use go_zero_admin_pkg.Prelude.Int.{ℤ, pos, negsuc, is_zero}
use go_zero_admin_pkg.Prelude.Run.{ok, panic}
use go_zero_admin_pkg.Garray.Order.{default_comparator_int, default-IsComparator}
use go_zero_admin_pkg.Garray.Sorted.{SortedIntArray, search, append, filter_empty}
use go_zero_admin_pkg.Garray.Sorted.Search.{item, IsOrdered, search_lem}
use go_zero_admin_pkg.Garray.Sorted.Append.{append-IsOrdered}
use go_zero_admin_pkg.Garray.Sorted.Empty.{filter_empty-strip}

abbrev of : List ℤ → SortedIntArray
of l = record { safe = true; array = l; unique = false; comparator = none }

abbrev ordered : List ℤ
ordered = negsuc 1 ∷ pos 0 ∷ pos 3 ∷ pos 3 ∷ []

ordered-IsOrdered : IsOrdered (of ordered)
unfolding default_comparator_int
ordered-IsOrdered = record {
  lawful = default-IsComparator;
  sorted = ((refl, (refl, (refl, tt))), ((refl, (refl, tt)), ((refl, tt), (tt, tt))));
}

search_lem_example :
    ((k : ℕ) × (search (of ordered) (pos 3) ≡ ok (pos k))
      × (k < 4)
      × (is_zero (default_comparator_int (pos 3) (item ordered k)) ≡ true))
    ⊎ ((search (of ordered) (pos 3) ≡ ok (negsuc 0))
        × ((j : ℕ) → j < 4 → is_zero (default_comparator_int (pos 3) (item ordered j)) ≡ false))
search_lem_example = search_lem (of ordered) (pos 3) ordered-IsOrdered

append-IsOrdered_example :
    (b : SortedIntArray) × (append (of ordered) (pos 1 ∷ negsuc 8 ∷ []) ≡ ok b) × IsOrdered b
append-IsOrdered_example = append-IsOrdered (of ordered) (pos 1 ∷ negsuc 8 ∷ []) ordered-IsOrdered

-- An array whose last element is zero and whose first is not.
abbrev trailing : List ℤ
trailing = negsuc 1 ∷ pos 0 ∷ []

filter_empty-strip_example : filter_empty (of trailing) ≡ panic
filter_empty-strip_example = filter_empty-strip (of trailing)

abbrev none_of : ℕ → ℤ → Bool
none_of i v = false
