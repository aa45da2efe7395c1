-- ===== src/Garray/Sorted/Sort.antt =====
-- SetArray, Sort and Walk of SortedIntArray end with the quicksort.
use go_zero_admin_pkg.Prelude.{◌≡◌, refl, List, [], map, Perm}
use go_zero_admin_pkg.Prelude.Int.{ℤ}
use go_zero_admin_pkg.Prelude.Run.{ok}
use go_zero_admin_pkg.Garray.Element.{int_element}
use go_zero_admin_pkg.Garray.Order.{IsComparator}
use go_zero_admin_pkg.Garray.Bulk.Filter.{walk_loop_lem}
use go_zero_admin_pkg.Garray.QuickSort.Sorts.{quick_sort_int-Sorts}
use go_zero_admin_pkg.Garray.Sorted.{SortedIntArray, get_comparator, set_array, sort, walk}
use go_zero_admin_pkg.Garray.Sorted.Search.{IsOrdered}

-- With a lawful comparator SetArray, Sort and Walk never panic, and leave an ordered array: of the
-- elements given, of the same elements, and of the images of the elements, each as often.
pub sorted-IsOrdered :
    (a : SortedIntArray) (array : List ℤ) (f : ℤ → ℤ)
    → IsComparator (get_comparator a)
    → ((b : SortedIntArray) × (set_array a array ≡ ok b) × IsOrdered b × Perm b.array array)
      × ((b : SortedIntArray) × (sort a ≡ ok b) × IsOrdered b × Perm b.array a.array)
      × ((b : SortedIntArray) × (walk a f ≡ ok b) × IsOrdered b × Perm b.array (map f a.array))
unfolding set_array sort walk
sorted-IsOrdered a array f lawful =
    let cmp = get_comparator a in
    let (r, e, s, p) = quick_sort_int-Sorts cmp array lawful in
    let (t, g, u, q) = quick_sort_int-Sorts cmp a.array lawful in
    let (v, h, w, m) = quick_sort_int-Sorts cmp (map f a.array) lawful in
    (
      (record a { array = r }, rw e, record { lawful = lawful; sorted = s }, p),
      (record a { array = t }, rw g, record { lawful = lawful; sorted = u }, q),
      (
        record a { array = v },
        rw (walk_loop_lem f [] a.array 0 refl, h),
        record { lawful = lawful; sorted = w },
        m,
      ),
    )
