-- ===== src/Gmap/ListMap/Tests.antt =====
-- The lemmas on ListMap at a concrete map.
use go_zero_admin_pkg.Prelude.{ℕ, ◌≡◌, refl, false, some, none, Option, List, [], ◌∷◌, ◌==◌}
use go_zero_admin_pkg.Prelude.Int.{ℤ, pos, negsuc}
use go_zero_admin_pkg.Prelude.Maps.{int_key, find, has_key}
use go_zero_admin_pkg.Glist
use go_zero_admin_pkg.Gmap.ListMap.{
  ListMap, new_list_map, set, keys, values, size, is_empty, map_copy, search, contains, pops,
  pops_loop,
}
use go_zero_admin_pkg.Gmap.ListMap.GetOrSet.{
  func, get_or_set, get_or_set_func, get_or_set_func_lock,
}
use go_zero_admin_pkg.Gmap.ListMap.Linked.{Linked}
use go_zero_admin_pkg.Gmap.ListMap.Order.{new-Holds, set-Holds}
use go_zero_admin_pkg.Gmap.ListMap.Refines.{
  Call, sets_one, sets_all, removes_one, filters, run_calls, ordered_calls, run_calls-ordered_calls,
}
use go_zero_admin_pkg.Gmap.ListMap.Pops.{pops-entries}
use go_zero_admin_pkg.Gmap.ListMap.Ensured.{Ensured, get_or_sets-Ensured}

abbrev two : ListMap ℤ (Option ℕ)
two = set (set (new_list_map false) (pos 3) (some 30)) (pos 1) (some 10)

two-Linked : Linked two
two-Linked =
    let start = new-Holds {K = ℤ} {V = Option ℕ} false in
    let one = set-Holds (new_list_map false) (pos 3) (some 30) start.0 in
    (set-Holds (set (new_list_map false) (pos 3) (some 30)) (pos 1) (some 10) one.0).0

abbrev calls : List (Call ℤ ℕ)
calls =
    sets_one (pos 3) 30
    ∷ sets_all ((pos 1, 10) ∷ (negsuc 0, 0) ∷ (pos 3, 31) ∷ [])
    ∷ removes_one (pos 1)
    ∷ filters (λ n. n == 0)
    ∷ sets_one (pos 1) 11
    ∷ []

run_calls-ordered_calls_example :
    let m = run_calls (new_list_map false) calls in
    (keys m ≡ pos 3 ∷ pos 1 ∷ [])
    × (values m ≡ 31 ∷ 11 ∷ [])
    × (size m ≡ 2)
    × (is_empty m ≡ false)
    × (map_copy m ≡ (pos 3, 31) ∷ (pos 1, 11) ∷ [])
    × ((k : ℤ)
        → (search m k ≡ find k (ordered_calls [] calls))
          × (contains m k ≡ has_key k (ordered_calls [] calls)))
run_calls-ordered_calls_example = run_calls-ordered_calls false calls

get_or_sets-Ensured_example :
    Ensured (get_or_set two (pos 7) (func (some 70))) two (pos 7) (some 70)
    × Ensured (get_or_set_func two (pos 7) none) two (pos 7) none
    × Ensured (get_or_set_func_lock two (pos 7) none) two (pos 7) none
get_or_sets-Ensured_example = get_or_sets-Ensured two (pos 7) (func (some 70)) none two-Linked

pops-entries_example :
    Linked (pops two (pos 1)).0
    × (keys (pops two (pos 1)).0 ≡ pos 1 ∷ [])
    × ((pops two (pos 1)).1 ≡ (pos 3, some 30) ∷ [])
unfolding set new_list_map Glist.new Glist.push_back pops pops_loop keys Glist.remove
pops-entries_example = let done = pops-entries two (pos 1) two-Linked in (done.0, refl, done.2)
