-- ===== src/Gtimer/Heap.antt =====
-- utils/tools/gtimer/gtimer_queue_heap.go: priorityQueueHeap, and the sift loops of Go's container/heap
-- that call its methods. A loop on fuel panics without it; it gets the length and one more, or the length.
pub mod Exchange
pub mod Sift
pub mod Sink
pub mod Ends
use go_zero_admin_pkg.Prelude.{
  ℕ, zero, suc, ◌+◌, ◌-◌, ◌*◌, ◌/◌, Bool, true, false, not, ◌&&◌, ◌||◌, Option, none, some, List,
  [], ◌∷◌, ◌++◌, length, ltb, leb, ◌==◌, if◌then◌else◌,
}
use go_zero_admin_pkg.Prelude.Int.{ℤ, pos, ltb_ℤ}
use go_zero_admin_pkg.Prelude.Run.{Run, ok, panic, ◌>>=◌, load, slice}
use go_zero_admin_pkg.Prelude.Swap

-- priorityQueueItem
pub record Item (V : Type 0) : Type 0 where
  pub value : V
  pub priority : ℤ

module _ {V : Type 0} where
  pub less : List (Item V) → ℕ → ℕ → Run Bool
  less a i j = do x ← load a i; y ← load a j; ok (ltb_ℤ x.priority y.priority)

  pub swap : List (Item V) → ℕ → ℕ → Run (List (Item V))
  swap a i j = if length a == 0 then ok a else Swap.swap a i j

  pub push_item : List (Item V) → Item V → List (Item V)
  push_item a x = a ++ x ∷ []

  pub pop_item : List (Item V) → Run (List (Item V) × Option (Item V))
  pop_item a =
      if length a == 0
      then ok (a, none)
      else do item ← load a (length a - 1); b ← slice a 0 (length a - 1); ok (b, some item)

  -- up of container/heap: towards the root while smaller than the parent.
  pub up : ℕ → List (Item V) → ℕ → Run (List (Item V))
  up zero a j = panic
  up (suc k) a j =
      let i = (j - 1) / 2 in
      let rise = swap a i j >>= λ b. up k b i in
      let step = less a j i >>= λ smaller. if smaller then rise else ok a in
      if i == j then ok a else step

  -- The smaller child of down, within the first `n` items.
  pub child : List (Item V) → ℕ → ℕ → Run ℕ
  child a i n =
      let j1 = 2 * i + 1 in
      let step = less a (j1 + 1) j1 >>= λ smaller. ok (if smaller then j1 + 1 else j1) in
      if ltb (j1 + 1) n then step else ok j1

  -- down of container/heap, within the first `n` items.
  pub down : ℕ → List (Item V) → ℕ → ℕ → Run (List (Item V))
  down zero a i n = panic
  down (suc k) a i n =
      let step : Run (List (Item V)) = (do
        j ← child a i n
        smaller ← less a j i
        let sink = swap a i j >>= λ b. down k b j n
        if smaller then sink else ok a) in
      if leb n (2 * i + 1) then ok a else step

  -- heap.Push and heap.Pop
  pub push : List (Item V) → Item V → Run (List (Item V))
  push a x = let b = push_item a x in up (length b + 1) b (length b - 1)

  -- `n := h.Len() - 1` is negative for the empty heap, on which neither Swap nor down does anything.
  pub pop : List (Item V) → Run (List (Item V) × Option (Item V))
  pop a =
      if length a == 0
      then pop_item a
      else do b ← swap a 0 (length a - 1); c ← down (length a) b 0 (length a - 1); pop_item c
