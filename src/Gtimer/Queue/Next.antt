-- ===== src/Gtimer/Queue/Next.antt =====
-- priorityQueue: the heap, and nextPriority against the least priority.
use mathlib.Core.List.{Permᴰ}
use mathlib.Core.List.Perm
use mathlib.Core.Logic.{∥∥₁_elim}
use native.Mathlib.Nat.{ℕ_set}
use go_zero_admin_pkg.Prelude.{
  ◌+◌, ◌<◌, ◌≡◌, refl, sym, ap, ◌∙◌, false, not, none, some, List, [], ◌∷◌, Perm, arith, length,
  if◌then◌else◌, ltb→le, le→ltb,
}
use go_zero_admin_pkg.Prelude.Int.{ℤ, ltb_ℤ, ◌≤ℤ◌, pos_part, neg_part, eq_of_parts}
use go_zero_admin_pkg.Prelude.Permutations.{All, Tested, perm-Tested}
use go_zero_admin_pkg.Prelude.Run.{ok}
use go_zero_admin_pkg.Gtimer.Heap.{Item}
use go_zero_admin_pkg.Gtimer.Heap.Exchange.{prio}
use go_zero_admin_pkg.Gtimer.Heap.Ends.{IsHeap, IsHeap-All, push_lem, pop_empty, pop_lem}
use go_zero_admin_pkg.Gtimer.Queue.{
  PriorityQueue, max_int64, new_priority_queue, push, first_priority, pop,
}

abbrev pub min_ℤ : ℤ → ℤ → ℤ
min_ℤ p q = if ltb_ℤ p q then p else q

min_swap : (p q r : ℤ) → min_ℤ p (min_ℤ q r) ≡ min_ℤ q (min_ℤ p r)
min_swap p q r = ground arith

min_at : (p q : ℤ) → p ≤ℤ q → min_ℤ p q ≡ p
min_at p q h = ground arith

updated : (p m : ℤ) → (if not (ltb_ℤ p m) then m else p) ≡ min_ℤ p m
updated p m = ground arith

min_below : (p q r : ℤ) → p ≤ℤ q → p ≤ℤ r → p ≤ℤ min_ℤ q r
min_below p q r h k = ground arith

same_parts : (p q : ℤ) → p ≡ q → pos_part p + neg_part q ≡ pos_part q + neg_part p
same_parts p q e = rw e refl

module _ {V : Type 0} where
  -- The least priority of the items, math.MaxInt64 for none.
  abbrev pub least_priority : List (Item V) → ℤ
  least_priority [] = max_int64
  least_priority (x ∷ a) = min_ℤ x.priority (least_priority a)

  Permᴰ-least : {a b : List (Item V)} → Permᴰ a b → least_priority a ≡ least_priority b
  Permᴰ-least Permᴰ.nil = refl
  Permᴰ-least (Permᴰ.cons e p) = rw (e, Permᴰ-least p) refl
  Permᴰ-least (Permᴰ.swap {a'} {b'} {l} e d) =
      rw (e, d) (min_swap b'.priority a'.priority (least_priority l))
  Permᴰ-least (Permᴰ.trans p q) = Permᴰ-least p ∙ Permᴰ-least q

  perm-least : {a b : List (Item V)} → Perm a b → least_priority a ≡ least_priority b
  perm-least {a} {b} p =
      let p_a = least_priority a in
      let p_b = least_priority b in
      eq_of_parts p_a p_b (∥∥₁_elim p (ℕ_set _ _) (λ d. same_parts p_a p_b (Permᴰ-least d)))

  -- No priority is above math.MaxInt64.
  abbrev pub InRange : List (Item V) → Type 0
  InRange = Tested (λ x. ltb_ℤ max_int64 x.priority) false

  -- The heap order, the range of an int64, and nextPriority as the least priority.
  pub record IsValid (q : PriorityQueue V) : Type 0 where
    pub heap : IsHeap q.heap
    pub range : InRange q.heap
    pub next : q.next_priority ≡ least_priority q.heap

  below-least :
      (p : ℤ) (a : List (Item V))
      → p ≤ℤ max_int64
      → All (λ x. p ≤ℤ x.priority) a
      → p ≤ℤ least_priority a
  below-least p [] h k = h
  below-least p (x ∷ a) h k = min_below p x.priority (least_priority a) k.0 (below-least p a h k.1)

  root_first : (a : List (Item V)) → 0 < length a → prio a 0 ≡ first_priority a
  root_first [] h = absurd (omega arith)
  root_first (x ∷ a) h = refl

  -- The root of a heap has the least priority.
  heap_least : (a : List (Item V)) → IsHeap a → InRange a → first_priority a ≡ least_priority a
  heap_least [] h r = refl
  heap_least (x ∷ a) h r = sym (
      min_at x.priority (least_priority a)
        (below-least x.priority a (ltb→le _ _ r.0) (IsHeap-All (x ∷ a) h).1))

  pub new-IsValid : IsValid (new_priority_queue {V = V})
  unfolding IsHeap
  new-IsValid = record { heap = λ c p q. absurd (omega arith); range = tt; next = refl }

  -- Push of a priority up to math.MaxInt64 on a valid queue returns, without a panic, a valid queue with
  -- that item added.
  pub push-IsValid :
      (q : PriorityQueue V) (value : V) (p : ℤ)
      → IsValid q
      → p ≤ℤ max_int64
      → (r : PriorityQueue V) × (push q value p ≡ ok r)
        × IsValid r
        × Perm r.heap (record { value = value; priority = p } ∷ q.heap)
  unfolding push
  push-IsValid q value p v h =
      let item : Item V = record { value = value; priority = p } in
      let (b, e, k, same) = push_lem q.heap item v.heap in
      let r : PriorityQueue V = record {
        heap = b;
        next_priority = if not (ltb_ℤ p q.next_priority) then q.next_priority else p;
      } in
      (
        r,
        rw e refl,
        record {
          heap = k;
          range =
              perm-Tested (λ x. ltb_ℤ max_int64 x.priority) false (Perm.symm same)
                (le→ltb _ _ h, v.range);
          next = updated p q.next_priority ∙ ap (min_ℤ p) v.next ∙ sym (perm-least same);
        },
        same,
      )

  pub emptied-IsValid :
      (q : PriorityQueue V)
      → IsValid q
      → q.heap ≡ []
      → IsValid (record { heap = []; next_priority = q.next_priority })
  unfolding IsHeap
  emptied-IsValid q v e = record {
    heap = λ c p h. absurd (omega arith);
    range = tt;
    next = v.next ∙ ap least_priority e;
  }

  pub pop-none :
      (q : PriorityQueue V)
      → q.heap ≡ []
      → pop q ≡ ok (record { heap = []; next_priority = q.next_priority }, none)
  unfolding pop
  pop-none q e = rw (e, pop_empty {V = V}) refl

  -- Pop on a valid queue with items returns, without a panic, the value of an item whose priority is
  -- nextPriority, and leaves a valid queue of the others.
  pub pop-IsValid :
      (q : PriorityQueue V)
      → IsValid q
      → 0 < length q.heap
      → (r : PriorityQueue V) × (x : Item V) × (pop q ≡ ok (r, some x.value))
        × IsValid r
        × Perm (x ∷ r.heap) q.heap
        × (x.priority ≡ q.next_priority)
  unfolding pop
  pop-IsValid q v h =
      let (rest, x, e, k) = pop_lem q.heap v.heap h in
      let range : InRange rest =
        (perm-Tested (λ x. ltb_ℤ max_int64 x.priority) false (Perm.symm k.same) v.range).1 in
      let r : PriorityQueue V = record { heap = rest; next_priority = first_priority rest } in
      (
        r,
        x,
        rw e refl,
        record { heap = k.heap; range = range; next = heap_least rest k.heap range },
        k.same,
        k.root ∙ root_first q.heap h ∙ heap_least q.heap v.heap v.range ∙ sym v.next,
      )
