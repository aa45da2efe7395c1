-- ===== src/Gtimer/Heap/Sink.antt =====
-- down of container/heap, within the first `n` items.
use mathlib.Core.List.Perm
use go_zero_admin_pkg.Prelude.{
  ℕ, zero, suc, ◌+◌, ◌*◌, ◌≤◌, ◌<◌, ◌≡◌, ◌≢◌, refl, ap, ◌∙◌, true, List, arith, length, inl, inr,
  ◌⊎◌, Bool-cases, ltb, leb, ltb→lt, ltb→le, leb→le, leb→lt, ℕ_discrete,
}
use go_zero_admin_pkg.Prelude.Int.{ltb_ℤ, ◌≤ℤ◌}
use go_zero_admin_pkg.Prelude.Run.{ok}
use go_zero_admin_pkg.Gtimer.Heap.{Item, child, down}
use go_zero_admin_pkg.Gtimer.Heap.Exchange.{
  prio, less-ok, Exchanged, swap-Exchanged, Placed, first, second, off, placed,
}
use go_zero_admin_pkg.Gtimer.Heap.Sift.{parent, HeapTo, Sinking, Restored, Restored-after}

children : (c i : ℕ) → 1 ≤ c → parent c ≡ i → (c ≡ 2 * i + 1) ⊎ (c ≡ 2 * i + 1 + 1)
children c i p e = omega arith

module _ {V : Type 0} where
  -- The child at `j` is the least child of `i` within the first `n` items.
  record Least (n : ℕ) (a : List (Item V)) (i j : ℕ) : Type 0 where
    above : parent j ≡ i
    order : i < j
    inside : j < n
    least : (c : ℕ) → 1 ≤ c → c < n → parent c ≡ i → prio a j ≤ℤ prio a c

  child-Least :
      (n : ℕ) (a : List (Item V)) (i : ℕ)
      → 2 * i + 1 < n
      → n ≤ length a
      → (j : ℕ) × (child a i n ≡ ok j) × Least n a i j
  unfolding child
  child-Least n a i h k = elim (Bool-cases (ltb (2 * i + 1 + 1) n)) [
    | inl e ↦
        let in_n = ltb→lt (2 * i + 1 + 1) n e in
        let test = less-ok a (2 * i + 1 + 1) (2 * i + 1) (omega arith) (omega arith) in
        elim (Bool-cases (ltb_ℤ (prio a (2 * i + 1 + 1)) (prio a (2 * i + 1)))) [
          | inl s ↦ (
            2 * i + 1 + 1,
            rw (e, test, s) refl,
            record {
              above = omega arith;
              order = omega arith;
              inside = in_n;
              least = λ c p q g. elim (children c i p g) [
                | inl u ↦ rw u (omega (arith, ltb→lt _ _ s))
                | inr u ↦ rw u (omega arith)
              ];
            },
          )
          | inr s ↦ (
            2 * i + 1,
            rw (e, test, s) refl,
            record {
              above = omega arith;
              order = omega arith;
              inside = h;
              least = λ c p q g. elim (children c i p g) [
                | inl u ↦ rw u (omega arith)
                | inr u ↦ rw u (omega (arith, ltb→le _ _ s))
              ];
            },
          )
        ]
    | inr e ↦ (
      2 * i + 1,
      rw e refl,
      record {
        above = omega arith;
        order = omega arith;
        inside = h;
        least = λ c p q g. elim (children c i p g) [
          | inl u ↦ rw u (omega arith)
          | inr u ↦ absurd (omega (arith, ltb→le _ _ e))
        ];
      },
    )
  ]

  module _ (n : ℕ) (a b : List (Item V)) (i j : ℕ) (r : Sinking n a i) (l : Least n a i j)
      (x : Exchanged a i j b) (s : ltb_ℤ (prio a j) (prio a i) ≡ true) where
    sink-edge :
        (c : ℕ)
        → 1 ≤ c
        → c < n
        → parent c ≢ j
        → Placed a i j b c
        → Placed a i j b (parent c)
        → prio b (parent c) ≤ℤ prio b c
    sink-edge c p q ne w (second g k) = absurd (ne g)
    sink-edge c p q ne (first e f) (first g k) = absurd (omega arith)
    sink-edge c p q ne (second e f) (first g k) = rw (f, k) (omega (arith, ltb→lt _ _ s))
    sink-edge c p q ne (off n m f) (first g k) = rw (f, k) (l.least c p q g)
    sink-edge c p q ne (first e f) (off u v k) =
        rw (f, k, e) (r.bridged j (omega arith) l.inside l.above (omega (arith, l.order)))
    sink-edge c p q ne (second e f) (off u v k) = absurd (u (ap parent e ∙ l.above))
    sink-edge c p q ne (off n m f) (off u v k) = rw (f, k) (r.edges c p q u)

    sink-bridged : (c : ℕ) → 1 ≤ j → c < n → parent c ≡ j → 1 ≤ c → prio b (parent j) ≤ℤ prio b c
    sink-bridged c u q e p =
        rw (l.above, x.here, x.elsewhere c (omega (arith, l.order)) (omega arith))
          (rw e at (r.edges c p q (λ g. omega (arith, l.order))))

    sink-Sinking : Sinking n b j
    sink-Sinking = record {
      edges = λ c p q ne. sink-edge c p q ne (placed a b i j c x) (placed a b i j (parent c) x);
      bridged = λ c u q e p. sink-bridged c u q e p;
    }

  -- Sinking without a child above which the item lies.
  Sinking-HeapTo :
      (n : ℕ) (a : List (Item V)) (i : ℕ)
      → Sinking n a i
      → ((c : ℕ) → 1 ≤ c → c < n → parent c ≡ i → prio a i ≤ℤ prio a c)
      → HeapTo n a
  Sinking-HeapTo n a i r h c p q = elim (ℕ_discrete (parent c) i) [
    | yes e ↦ rw e (h c p q e)
    | no m ↦ r.edges c p q m
  ]

  -- The items from `n` on keep their priorities.
  abbrev pub Kept : ℕ → List (Item V) → List (Item V) → Type 0
  Kept n a b = (k : ℕ) → n ≤ k → prio b k ≡ prio a k

  pub down-Restored :
      (k n : ℕ) (a : List (Item V)) (i : ℕ)
      → n < k + i
      → i ≤ n
      → n ≤ length a
      → Sinking n a i
      → (b : List (Item V)) × (down k a i n ≡ ok b) × Restored n a b × Kept n a b
  unfolding down
  down-Restored zero n a i f h q r = absurd (omega arith)
  down-Restored (suc k) n a i f h q r = elim (Bool-cases (leb n (2 * i + 1))) [
    | inl leaf ↦ (
      a,
      rw leaf refl,
      record {
        heap = Sinking-HeapTo n a i r (λ c p u g. absurd (omega (arith, leb→le _ _ leaf)));
        same = Perm.refl a;
        size = refl;
      },
      λ m u. refl,
    )
    | inr inner ↦
        let (j, e, l) = child-Least n a i (leb→lt _ _ inner) q in
        let test = less-ok a j i (omega (arith, l.inside)) (omega (arith, l.inside, l.order)) in
        elim (Bool-cases (ltb_ℤ (prio a j) (prio a i))) [
          | inl s ↦
              let (b, g, x) = swap-Exchanged a i j l.order (omega (arith, l.inside)) in
              let (c, u, y, z) =
                down-Restored k n b j (omega (arith, l.order)) (omega (arith, l.inside))
                  (omega (arith, x.size)) (sink-Sinking n a b i j r l x s) in
              (
                c,
                rw (inner, e, test, s, g) u,
                Restored-after a b c i j n n refl x y,
                λ m w.
                    z m w
                    ∙ x.elsewhere m (omega (arith, l.order, l.inside)) (omega (arith, l.inside)),
              )
          | inr s ↦ (
            a,
            rw (inner, e, test, s) refl,
            record {
              heap =
                  Sinking-HeapTo n a i r (λ c p u g. omega (arith, l.least c p u g, ltb→le _ _ s));
              same = Perm.refl a;
              size = refl;
            },
            λ m u. refl,
          )
        ]
  ]
