-- ===== src/Gtimer/Heap/Ends.antt =====
-- heap.Push and heap.Pop: the heap order, and the items.
use mathlib.Core.List.{perm_middle}
use mathlib.Core.List.Perm
use go_zero_admin_pkg.Prelude.{
  ℕ, zero, suc, ◌+◌, ◌-◌, ◌≤◌, ◌<◌, ◌≡◌, refl, sym, ap, ◌∙◌, List, [], ◌∷◌, ◌++◌, some, none, Perm,
  arith, length, ne→==, length-append, append-nil, take-length_append, empty, last, snoc,
}
use go_zero_admin_pkg.Prelude.Int.{ℤ, ◌≤ℤ◌}
use go_zero_admin_pkg.Prelude.Permutations.{All}
use go_zero_admin_pkg.Prelude.Run.{ok, load, store, slice, slice_front}
use go_zero_admin_pkg.Prelude.Swap.{load_at, swap_same}
use go_zero_admin_pkg.Prelude.Swap
use go_zero_admin_pkg.Gtimer.Heap.{Item, swap, down, push_item, pop_item, up, push, pop}
use go_zero_admin_pkg.Gtimer.Heap.Exchange.{prio, prio_at, Exchanged, swap-Exchanged}
use go_zero_admin_pkg.Gtimer.Heap.Sift.{parent, HeapTo, Rising, Sinking, up-Restored}
use go_zero_admin_pkg.Gtimer.Heap.Sink.{down-Restored}

module _ {V : Type 0} where
  -- Each item lies at or above its parent.
  unfoldable pub IsHeap : List (Item V) → Type 0
  IsHeap a = HeapTo (length a) a

  root_least :
      (n : ℕ) (a : List (Item V)) (fuel k : ℕ)
      → HeapTo n a
      → k ≤ fuel
      → k < n
      → prio a 0 ≤ℤ prio a k
  root_least n a fuel zero h f q = omega arith
  root_least n a zero (suc k) h f q = absurd (omega arith)
  root_least n a (suc fuel) (suc k) h f q = omega (
    arith,
    h (suc k) (omega arith) q,
    root_least n a fuel (parent (suc k)) h (omega arith) (omega arith),
  )

  All-of_prio :
      (a : List (Item V)) (p : ℤ)
      → ((k : ℕ) → k < length a → p ≤ℤ prio a k)
      → All (λ x. p ≤ℤ x.priority) a
  All-of_prio [] p h = tt
  All-of_prio (x ∷ a) p h = (h 0 (omega arith), All-of_prio a p (λ k q. h (suc k) (omega arith)))

  pub IsHeap-All : (a : List (Item V)) → IsHeap a → All (λ x. prio a 0 ≤ℤ x.priority) a
  unfolding IsHeap
  IsHeap-All a h = All-of_prio a (prio a 0) (λ k q. root_least (length a) a k k h (omega arith) q)

  prio_front : (a b : List (Item V)) (k : ℕ) → k < length a → prio (a ++ b) k ≡ prio a k
  prio_front [] b k h = absurd (omega arith)
  prio_front (x ∷ a) b zero h = refl
  prio_front (x ∷ a) b (suc k) h = prio_front a b k (omega arith)

  snoc-Rising : (a : List (Item V)) (x : Item V) → IsHeap a → Rising (a ++ x ∷ []) (length a)
  unfolding IsHeap
  snoc-Rising a x h = record {
    edges = λ c p q n.
        let inside : c < length a = omega (arith, length-append a (x ∷ [])) in
        rw (prio_front a (x ∷ []) c inside, prio_front a (x ∷ []) (parent c) (omega arith))
          (h c p inside);
    bridged = λ c u q e p. absurd (omega (arith, length-append a (x ∷ [])));
  }

  snoc-perm : (a : List (Item V)) (x : Item V) → Perm (a ++ x ∷ []) (x ∷ a)
  snoc-perm a x = rw append-nil at (perm_middle {a = x} a [])

  -- heap.Push on a heap returns, keeps the heap order, and adds the item.
  pub push_lem :
      (a : List (Item V)) (x : Item V)
      → IsHeap a
      → (b : List (Item V)) × (push a x ≡ ok b) × IsHeap b × Perm b (x ∷ a)
  unfolding push push_item IsHeap
  push_lem a x h =
      let size = length-append a (x ∷ []) in
      let last : length (a ++ x ∷ []) - 1 ≡ length a = omega (arith, size) in
      let (b, e, r) =
        up-Restored (length (a ++ x ∷ []) + 1) (a ++ x ∷ []) (length a) (omega (arith, size))
          (omega (arith, size)) (snoc-Rising a x h) in
      (
        b,
        ap (up (length (a ++ x ∷ []) + 1) (a ++ x ∷ [])) last ∙ e,
        λ c p q. r.heap c p (omega (arith, r.size)),
        Perm.trans r.same (snoc-perm a x),
      )

  pop_item_last : (a : List (Item V)) (x : Item V) → pop_item (a ++ x ∷ []) ≡ ok (a, some x)
  unfolding pop_item
  pop_item_last a x =
      let size = length-append a (x ∷ []) in
      let last : length (a ++ x ∷ []) - 1 ≡ length a = omega (arith, size) in
      let front =
        slice_front (a ++ x ∷ []) (length a) (omega (arith, size))
        ∙ ap ok (take-length_append a (x ∷ [])) in
      rw
        (
          ne→== (length (a ++ x ∷ [])) 0 (omega (arith, size)),
          last,
          load_at a [] x (length a) refl,
          front,
        )
        refl

  -- The state after `down` in heap.Pop.
  record Settled (a c : List (Item V)) (n : ℕ) : Type 0 where
    heap : HeapTo n c
    same : Perm c a
    root : prio c n ≡ prio a 0
    size : length c ≡ suc n

  Exchanged-Sinking :
      (a b : List (Item V)) (n : ℕ)
      → IsHeap a
      → length a ≡ suc n
      → Exchanged a 0 n b
      → Sinking n b 0
  unfolding IsHeap
  Exchanged-Sinking a b n h e x = record {
    edges = λ c p q m.
        rw (x.elsewhere c (omega arith) (omega arith), x.elsewhere (parent c) m (omega arith))
          (h c p (omega arith));
    bridged = λ c u q g p. absurd (omega arith);
  }

  pop-Settled :
      (a : List (Item V)) (n : ℕ)
      → IsHeap a
      → length a ≡ suc (suc n)
      → (c : List (Item V)) × (pop a ≡ pop_item c) × Settled a c (suc n)
  unfolding pop
  pop-Settled a n h e =
      let (b, g, x) = swap-Exchanged a 0 (suc n) (omega arith) (omega arith) in
      let (c, u, r, z) =
        down-Restored (length a) (suc n) b 0 (omega arith) (omega arith) (omega (arith, x.size))
          (Exchanged-Sinking a b (suc n) h e x) in
      let last : length a - 1 ≡ suc n = omega arith in
      (
        c,
        rw (ne→== (length a) 0 (omega arith), last, g, u) refl,
        record {
          heap = r.heap;
          same = Perm.trans r.same x.same;
          root = z (suc n) (omega arith) ∙ x.there;
          size = omega (arith, r.size, x.size);
        },
      )

  -- What heap.Pop has done when it returned `item` and left `rest`.
  pub record Popped (a rest : List (Item V)) (item : Item V) : Type 0 where
    pub heap : IsHeap rest
    pub same : Perm (item ∷ rest) a
    pub root : item.priority ≡ prio a 0
    pub least : All (λ x. item.priority ≤ℤ x.priority) a

  Settled-Popped :
      (a rest : List (Item V)) (item : Item V) (n : ℕ)
      → IsHeap a
      → length rest ≡ n
      → Settled a (rest ++ item ∷ []) n
      → Popped a rest item
  unfolding IsHeap
  Settled-Popped a rest item n h e s = record {
    heap = λ c p q.
        rw
          (
            ← prio_front rest (item ∷ []) c q,
            ← prio_front rest (item ∷ []) (parent c) (omega arith),
          )
          (s.heap c p (omega arith));
    same = Perm.trans (Perm.symm (snoc-perm rest item)) s.same;
    root = sym (prio_at rest [] item n (sym e)) ∙ s.root;
    least = rw (sym (prio_at rest [] item n (sym e)) ∙ s.root) (IsHeap-All a h);
  }

  Settled-at : {a c l : List (Item V)} {n : ℕ} → c ≡ l → Settled a c n → Settled a l n
  Settled-at {a} {c} {l} {n} e s = record {
    heap = rw (sym e) (s.heap);
    same = rw (sym e) (s.same);
    root = rw (sym e) (s.root);
    size = rw (sym e) (s.size);
  }

  pop_one : (x : Item V) → pop (x ∷ []) ≡ ok ([], some x)
  unfolding pop pop_item swap Swap.swap load store down slice
  pop_one x = refl

  pub pop_empty : pop {V = V} [] ≡ ok ([], none)
  unfolding pop pop_item
  pop_empty = refl

  -- heap.Pop on a heap that is not empty returns a least item and leaves a heap of the others.
  pub pop_lem :
      (a : List (Item V))
      → IsHeap a
      → 0 < length a
      → (rest : List (Item V)) × (item : Item V) × (pop a ≡ ok (rest, some item))
        × Popped a rest item
  unfolding IsHeap
  pop_lem [] h k = absurd (omega arith)
  pop_lem (x ∷ []) h k = (
    [],
    x,
    pop_one x,
    record {
      heap = λ c p q. absurd (omega arith);
      same = Perm.refl (x ∷ []);
      root = refl;
      least = (omega arith, tt);
    },
  )
  pop_lem (x ∷ y ∷ a) h k =
      let (c, e, s) = pop-Settled (x ∷ y ∷ a) (length a) h refl in
      elim (snoc c) [
        | empty g ↦ absurd (omega (arith, s.size, ap length g))
        | last front item g m ↦ (
          front,
          item,
          e ∙ ap pop_item g ∙ pop_item_last front item,
          Settled-Popped (x ∷ y ∷ a) front item (suc (length a)) h (omega (arith, s.size))
              (Settled-at g s),
        )
      ]
