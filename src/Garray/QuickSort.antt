-- ===== src/Garray/QuickSort.antt =====
-- utils/tools/garray/garray_func.go: quickSortInt, a quicksort in place.
-- The recursion is on fuel, one more than the length of the slice, and panics without it.
pub mod Partition
pub mod Sorts
use go_zero_admin_pkg.Prelude.{
  ℕ, zero, suc, ◌+◌, ◌-◌, Bool, List, ◌++◌, length, ltb, leb, if◌then◌else◌,
}
use go_zero_admin_pkg.Prelude.Int.{ℤ, is_pos}
use go_zero_admin_pkg.Prelude.Run.{Run, ok, panic, ◌>>=◌, load, store, slice}
use go_zero_admin_pkg.Prelude.Swap.{swap}

-- `for head < tail`, with `i` one ahead of `head` from the start.
pub partition_loop : ℕ → (ℤ → ℤ → ℤ) → ℤ → ℕ → ℕ → ℕ → List ℤ → Run (ℕ × List ℤ)
partition_loop zero comparator mid i head tail values = panic
partition_loop (suc k) comparator mid i head tail values =
    let to_tail = swap values i tail >>= λ b. partition_loop k comparator mid i head (tail - 1) b in
    let to_head =
      swap values i head >>= λ b. partition_loop k comparator mid (suc i) (suc head) tail b in
    let round : Run (ℕ × List ℤ) = (do
      v ← load values i
      if is_pos (comparator v mid) then to_tail else to_head) in
    if ltb head tail then round else ok (head, values)

-- The two recursive calls sort parts of the same slice.
pub sort_loop : ℕ → (ℤ → ℤ → ℤ) → List ℤ → Run (List ℤ)
unfolding partition_loop
sort_loop zero comparator values = panic
sort_loop (suc k) comparator values =
    let halves : Run (List ℤ) = (do
      mid ← load values 0
      (head, parted) ← partition_loop (length values) comparator mid 1 0 (length values - 1) values
      set ← store parted head mid
      low ← slice set 0 head
      high ← slice set (suc head) (length set)
      low' ← sort_loop k comparator low
      high' ← sort_loop k comparator high
      pivot ← slice set head (suc head)
      ok (low' ++ (pivot ++ high'))) in
    if leb (length values) 1 then ok values else halves

pub quick_sort_int : (ℤ → ℤ → ℤ) → List ℤ → Run (List ℤ)
unfolding sort_loop
quick_sort_int comparator values = sort_loop (suc (length values)) comparator values
