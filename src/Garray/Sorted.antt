-- ===== src/Garray/Sorted.antt =====
-- utils/tools/garray/garray_sorted_int.go: SortedIntArray.
-- A method returns the new array with its results; the receiver's locks do nothing here.
pub mod Search
pub mod Append
pub mod Empty
pub mod Unique
pub mod Sort
pub mod Methods
use go_zero_admin_pkg.Prelude.{
  ℕ, zero, suc, ◌+◌, ◌-◌, ◌/◌, Bool, true, false, ◌&&◌, Option, none, some, List, [], ◌∷◌, ◌++◌,
  length, ltb, ◌==◌, if◌then◌else◌,
}
use go_zero_admin_pkg.Prelude.Int.{ℤ, pos, negsuc, is_neg, is_pos, is_zero, to_ℕ, eq_ℤ, ltb_ℤ}
use go_zero_admin_pkg.Prelude.Run.{Run, ok, panic, ◌>>=◌, load, slice}
use go_zero_admin_pkg.Garray.Element.{Element, int_element}
use go_zero_admin_pkg.Garray.Order.{default_comparator_int}
use go_zero_admin_pkg.Garray.QuickSort.{quick_sort_int}
use go_zero_admin_pkg.Garray.Bulk.{walk_loop}
use go_zero_admin_pkg.Garray.Normal.{do_remove_without_lock}

pub record SortedIntArray : Type 0 where
  pub safe : Bool
  pub array : List ℤ
  pub unique : Bool
  pub comparator : Option (ℤ → ℤ → ℤ)

abbrev pub get_comparator : SortedIntArray → ℤ → ℤ → ℤ
get_comparator a = elim a.comparator [ none ↦ default_comparator_int | some cmp ↦ cmp ]

-- The loop of binSearch. `past` is `max + 1`, so `min <= max` reads `min < past`.
bin_search_loop : ℕ → (ℤ → ℤ → ℤ) → ℤ → List ℤ → ℕ → ℕ → ℕ → ℤ → Run (ℤ × ℤ)
bin_search_loop zero comparator value a min past mid cmp = panic
bin_search_loop (suc k) comparator value a min past mid cmp =
    let mid' = min + (past - 1 - min) / 2 in
    let round : Run (ℤ × ℤ) = (do
      v ← load a mid'
      let cmp' = comparator value v
      let left = bin_search_loop k comparator value a min mid' mid' cmp'
      let right = bin_search_loop k comparator value a (mid' + 1) past mid' cmp'
      if is_neg cmp' then left else if is_pos cmp' then right else ok (pos mid', cmp')) in
    if ltb min past then round else ok (pos mid, cmp)

-- It returns the last compared index and the result of that comparison.
pub bin_search : SortedIntArray → ℤ → Run (ℤ × ℤ)
unfolding bin_search_loop
bin_search a value =
    if length a.array == 0
    then ok (negsuc 0, negsuc 1)
    else bin_search_loop (length a.array + 1) (get_comparator a) value a.array 0 (length a.array) 0
        (negsuc 1)

pub search : SortedIntArray → ℤ → Run ℤ
search a value = do r ← bin_search a value; ok (if is_zero r.1 then r.0 else negsuc 0)

-- SetArray and Sort put the array in the comparator's order.
pub set_array : SortedIntArray → List ℤ → Run SortedIntArray
set_array a array = do b ← quick_sort_int (get_comparator a) array; ok (record a { array = b })

pub sort : SortedIntArray → Run SortedIntArray
sort a = do b ← quick_sort_int (get_comparator a) a.array; ok (record a { array = b })

-- Walk sorts when it returns (`defer`).
pub walk : SortedIntArray → (ℤ → ℤ) → Run SortedIntArray
walk a f = do
  b ← walk_loop (length a.array) 0 f a.array
  c ← quick_sort_int (get_comparator a) b
  ok (record a { array = c })

-- One value of Append, at the index and the result that binSearch gives.
place : SortedIntArray → ℤ → ℤ × ℤ → Run SortedIntArray
place a value (index, cmp) =
    let at = if is_pos cmp then suc (to_ℕ index) else to_ℕ index in
    if a.unique && is_zero cmp
    then ok a
    else if is_neg index
    then ok (record a { array = a.array ++ value ∷ [] })
    else do
      rear ← slice a.array at (length a.array)
      front ← slice a.array 0 at
      ok (record a { array = (front ++ value ∷ []) ++ rear })

pub append : SortedIntArray → List ℤ → Run SortedIntArray
unfolding place
append a [] = ok a
append a (value ∷ values) = do r ← bin_search a value; b ← place a value r; append b values

pub remove : SortedIntArray → ℤ → Run (SortedIntArray × ℤ × Bool)
remove a index = do
  r ← do_remove_without_lock a.array index
  ok (record a { array = r.0 }, r.1, r.2)

pub remove_value : SortedIntArray → ℤ → Run (SortedIntArray × Bool)
remove_value a value = do
  r ← bin_search a value
  if is_zero r.1
      then (do s ← do_remove_without_lock a.array r.0; ok (record a { array = s.0 }, s.2))
      else ok (a, false)

-- The loop of Unique: drop the next element while it compares equal to the one at `i`.
unique_loop : ℕ → (ℤ → ℤ → ℤ) → ℕ → List ℤ → Run (List ℤ)
unique_loop zero comparator i a = panic
unique_loop (suc k) comparator i a =
    let drop_next : Run (List ℤ) = (do
      front ← slice a 0 (i + 1)
      rear ← slice a (i + 1 + 1) (length a)
      unique_loop k comparator i (front ++ rear)) in
    let go_on = unique_loop k comparator (i + 1) a in
    let round : Run (List ℤ) = (do
      x ← load a i
      y ← load a (i + 1)
      if is_zero (comparator x y) then drop_next else go_on) in
    if i == length a - 1 then ok a else round

pub uniqued : SortedIntArray → Run SortedIntArray
unfolding unique_loop
uniqued a = if length a.array == 0 then ok a else do
  b ← unique_loop (length a.array) (get_comparator a) 0 a.array
  ok (record a { array = b })

pub set_unique : SortedIntArray → Bool → Run SortedIntArray
set_unique a unique =
    let b = record a { unique = unique } in
    if unique then (if a.unique then ok b else uniqued b) else ok b

-- FilterEmpty: the zeros at the left end, then those at the right end.
filter_left_loop : ℕ → List ℤ → Run (List ℤ)
filter_left_loop zero a = panic
filter_left_loop (suc k) a =
    let next = slice a 1 (length a) >>= filter_left_loop k in
    let round : Run (List ℤ) = (do v ← load a 0; if eq_ℤ v (pos 0) then next else ok a) in
    if ltb 0 (length a) then round else ok a

-- The index `i` stays as it is after a deletion, as in the source.
filter_right_loop : ℕ → ℕ → List ℤ → Run (List ℤ)
filter_right_loop zero i a = panic
filter_right_loop (suc k) i a =
    let next : Run (List ℤ) = (do
      front ← slice a 0 i
      rear ← slice a (i + 1) (length a)
      filter_right_loop k i (front ++ rear)) in
    do v ← load a i; if eq_ℤ v (pos 0) then next else ok a

-- `i := len(a.array) - 1` is negative for the empty array alone, which has no round.
pub filter_empty : SortedIntArray → Run SortedIntArray
unfolding filter_left_loop filter_right_loop
filter_empty a = do
  b ← filter_left_loop (length a.array + 1) a.array
  c ← (if length b == 0 then ok b else filter_right_loop (length b + 1) (length b - 1) b)
  ok (record a { array = c })
