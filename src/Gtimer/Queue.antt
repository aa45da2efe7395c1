-- ===== src/Gtimer/Queue.antt =====
-- utils/tools/gtimer/gtimer_queue.go: priorityQueue.
-- The mutex makes each operation one step; a value is returned as an Option, `none` for nil.
pub mod Next
use go_zero_admin_pkg.Prelude.{
  ℕ, zero, suc, Bool, true, false, not, Option, none, some, List, [], ◌∷◌, if◌then◌else◌,
}
use go_zero_admin_pkg.Prelude.Int.{ℤ, pos, ltb_ℤ}
use go_zero_admin_pkg.Prelude.Run.{Run, ok, panic, ◌>>=◌}
use go_zero_admin_pkg.Gtimer.Heap.{Item}
use go_zero_admin_pkg.Gtimer.Heap

-- math.MaxInt64
abbrev pub max_int64 : ℤ
max_int64 = pos 9223372036854775807

pub record PriorityQueue (V : Type 0) : Type 0 where
  pub heap : List (Item V)
  pub next_priority : ℤ

module _ {V : Type 0} where
  -- heap.Init does nothing with an empty heap.
  abbrev pub new_priority_queue : PriorityQueue V
  new_priority_queue = record { heap = []; next_priority = max_int64 }

  pub push : PriorityQueue V → V → ℤ → Run (PriorityQueue V)
  push q value priority = do
    heap ← Heap.push q.heap (record { value = value; priority = priority })
    ok (record {
      heap = heap;
      next_priority = if not (ltb_ℤ priority q.next_priority) then q.next_priority else priority;
    })

  abbrev first_priority : List (Item V) → ℤ
  first_priority [] = max_int64
  first_priority (x ∷ a) = x.priority

  -- The rest of Pop once heap.Pop has returned.
  abbrev popped : PriorityQueue V → List (Item V) × Option (Item V) → PriorityQueue V × Option V
  popped q (heap, none) = (record { heap = heap; next_priority = q.next_priority }, none)
  popped q (heap, some v) =
      (record { heap = heap; next_priority = first_priority heap }, some v.value)

  pub pop : PriorityQueue V → Run (PriorityQueue V × Option V)
  pop q = do r ← Heap.pop q.heap; ok (popped q r)
