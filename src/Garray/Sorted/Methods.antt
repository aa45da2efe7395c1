-- ===== src/Garray/Sorted/Methods.antt =====
-- utils/tools/garray/garray_sorted_int.go: the constructors, and the methods whose bodies are those of
-- the plain array over the field `array`.
pub mod Taken
pub mod Fresh
pub mod Values
use go_zero_admin_pkg.Prelude.{
  ℕ, zero, suc, Bool, true, false, not, Option, none, some, List, [], ◌∷◌, length, ◌==◌,
  if◌then◌else◌,
}
use go_zero_admin_pkg.Prelude.Int.{ℤ, pos, negsuc, is_neg, eq_ℤ, is_zero, ltb_ℤ, ◌+ℤ◌}
use go_zero_admin_pkg.Prelude.Run.{Run, ok, panic, ◌>>=◌}
use go_zero_admin_pkg.Garray.Element.{int_element}
use go_zero_admin_pkg.Garray.Order.{default_comparator_int}
use go_zero_admin_pkg.Garray.Normal
use go_zero_admin_pkg.Garray.Normal.{Array, do_remove_without_lock}
use go_zero_admin_pkg.Garray.Bulk
use go_zero_admin_pkg.Garray.Reads
use go_zero_admin_pkg.Garray.Sorted.{SortedIntArray, bin_search, search, append}

-- sort.Ints, by insertion.
insert_int : ℤ → List ℤ → List ℤ
insert_int x [] = x ∷ []
insert_int x (y ∷ ys) = if ltb_ℤ y x then y ∷ insert_int x ys else x ∷ y ∷ ys

sort_ints : List ℤ → List ℤ
unfolding insert_int
sort_ints [] = []
sort_ints (x ∷ xs) = insert_int x (sort_ints xs)

pub new_sorted_int_array_size : ℕ → Bool → SortedIntArray
new_sorted_int_array_size cap safe = record {
  safe = safe;
  array = [];
  unique = false;
  comparator = some default_comparator_int;
}

pub new_sorted_int_array : Bool → SortedIntArray
new_sorted_int_array safe = new_sorted_int_array_size 0 safe

pub new_sorted_int_array_comparator : (ℤ → ℤ → ℤ) → Bool → SortedIntArray
new_sorted_int_array_comparator comparator safe = record (new_sorted_int_array safe) {
  comparator = some comparator;
}

pub new_sorted_int_array_from : List ℤ → Bool → SortedIntArray
new_sorted_int_array_from array safe = record (new_sorted_int_array_size 0 safe) {
  array = sort_ints array;
}

pub new_sorted_int_array_from_copy : List ℤ → Bool → SortedIntArray
new_sorted_int_array_from_copy array safe = new_sorted_int_array_from array safe

pub clone : SortedIntArray → SortedIntArray
clone a = new_sorted_int_array_from a.array a.safe

abbrev plain : SortedIntArray → Array ℤ
plain a = record { safe = a.safe; array = a.array }

pub get : SortedIntArray → ℤ → Run (ℤ × Bool)
get a index = Normal.get (plain a) index

pub at : SortedIntArray → ℤ → Run ℤ
at a index = do r ← get a index; ok r.0

pub pop_left : SortedIntArray → Run (SortedIntArray × ℤ × Bool)
pop_left a = do r ← Normal.pop_left (plain a); ok (record a { array = r.0.array }, r.1, r.2)

pub pop_right : SortedIntArray → Run (SortedIntArray × ℤ × Bool)
pop_right a = do r ← Normal.pop_right (plain a); ok (record a { array = r.0.array }, r.1, r.2)

pub pop_lefts : SortedIntArray → ℤ → Run (SortedIntArray × List ℤ)
pop_lefts a size = do r ← Normal.pop_lefts (plain a) size; ok (record a { array = r.0.array }, r.1)

pub pop_rights : SortedIntArray → ℤ → Run (SortedIntArray × List ℤ)
pop_rights a size = do
  r ← Normal.pop_rights (plain a) size
  ok (record a { array = r.0.array }, r.1)

pub remove_values : SortedIntArray → List ℤ → Run SortedIntArray
remove_values a [] = ok a
remove_values a (value ∷ values) = do
  r ← bin_search a value
  s ← (if is_zero r.1 then do_remove_without_lock a.array r.0 else ok (a.array, pos 0, false))
  remove_values (record a { array = s.0 }) values

pub range : SortedIntArray → ℤ → Option ℤ → Run (List ℤ)
range a start end = Bulk.range (plain a) start end

pub sub_slice : SortedIntArray → ℤ → Option ℤ → Run (List ℤ)
sub_slice a offset size = Bulk.sub_slice (plain a) offset size

sum_loop : ℤ → List ℤ → ℤ
sum_loop total [] = total
sum_loop total (v ∷ vs) = sum_loop (total +ℤ v) vs

pub sum : SortedIntArray → ℤ
sum a = sum_loop (pos 0) a.array

pub contains : SortedIntArray → ℤ → Run Bool
contains a value = do i ← search a value; ok (not (eq_ℤ i (negsuc 0)))

pub clear : SortedIntArray → SortedIntArray
clear a = if length a.array == 0 then a else record a { array = [] }

pub is_empty : SortedIntArray → Bool
is_empty a = length a.array == 0

pub chunk : SortedIntArray → ℤ → Run (List (List ℤ))
chunk a size = Bulk.chunk (plain a) size

pub filter : SortedIntArray → (ℕ → ℤ → Bool) → Run SortedIntArray
filter a f = do b ← Bulk.filter (plain a) f; ok (record a { array = b.array })

pub add : SortedIntArray → List ℤ → Run SortedIntArray
add a values = append a values

pub len : SortedIntArray → ℕ
len a = Reads.len (plain a)

pub slice : SortedIntArray → List ℤ
slice a = Reads.slice (plain a)

pub count_values : SortedIntArray → List (ℤ × ℕ)
count_values a = Reads.count_values (plain a)

pub iterator_asc : {S : Type 0} → SortedIntArray → (S → ℕ → ℤ → S × Bool) → S → S
iterator_asc a f s = Reads.iterator_asc (plain a) f s

pub iterator : {S : Type 0} → SortedIntArray → (S → ℕ → ℤ → S × Bool) → S → S
iterator a f s = iterator_asc a f s

pub iterator_desc : {S : Type 0} → SortedIntArray → (S → ℕ → ℤ → S × Bool) → S → Run S
iterator_desc a f s = Reads.iterator_desc (plain a) f s

pub new_sorted_int_array_range : ℕ → ℤ → ℤ → ℤ → Bool → Run SortedIntArray
new_sorted_int_array_range k start end step safe = do
  a ← Reads.new_int_array_range k start end step safe
  ok (new_sorted_int_array_from a.array safe)

pub deep_copy : Option SortedIntArray → Option SortedIntArray
deep_copy none = none
deep_copy (some a) = some (new_sorted_int_array_from a.array a.safe)
