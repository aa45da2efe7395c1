-- ===== src/Gtimer/Heap/Sift.antt =====
-- up of container/heap, and the heap order with one item out of place.
use mathlib.Core.List.Perm
use go_zero_admin_pkg.Prelude.{
  ℕ, zero, suc, ◌-◌, ◌/◌, ◌≤◌, ◌<◌, ◌≡◌, ◌≢◌, refl, ap, ◌∙◌, true, false, List, Perm, arith, length,
  inl, inr, Bool-cases, ltb→lt, ltb→le, ne→==, ℕ_discrete,
}
use go_zero_admin_pkg.Prelude.Int.{ltb_ℤ, ◌≤ℤ◌}
use go_zero_admin_pkg.Prelude.Run.{ok}
use go_zero_admin_pkg.Gtimer.Heap.{Item, up}
use go_zero_admin_pkg.Gtimer.Heap.Exchange.{
  prio, less-ok, Exchanged, swap-Exchanged, Placed, first, second, off, placed,
}

abbrev pub parent : ℕ → ℕ
parent c = (c - 1) / 2

module _ {V : Type 0} where
  -- Each of the first `n` items lies at or above its parent.
  abbrev pub HeapTo : ℕ → List (Item V) → Type 0
  HeapTo n a = (c : ℕ) → 1 ≤ c → c < n → prio a (parent c) ≤ℤ prio a c

  -- A heap but for the item at `j`, which may lie below its parent.
  pub record Rising (a : List (Item V)) (j : ℕ) : Type 0 where
    pub edges : (c : ℕ) → 1 ≤ c → c < length a → c ≢ j → prio a (parent c) ≤ℤ prio a c
    pub bridged :
        (c : ℕ) → 1 ≤ j → c < length a → parent c ≡ j → 1 ≤ c → prio a (parent j) ≤ℤ prio a c

  -- A heap in the first `n` items but for the item at `i`, which may lie above its children.
  pub record Sinking (n : ℕ) (a : List (Item V)) (i : ℕ) : Type 0 where
    pub edges : (c : ℕ) → 1 ≤ c → c < n → parent c ≢ i → prio a (parent c) ≤ℤ prio a c
    pub bridged : (c : ℕ) → 1 ≤ i → c < n → parent c ≡ i → 1 ≤ c → prio a (parent i) ≤ℤ prio a c

  module _ (a b : List (Item V)) (j : ℕ) (big : 1 ≤ j) (r : Rising a j)
      (x : Exchanged a (parent j) j b) (h : j < length a)
      (s : ltb_ℤ (prio a j) (prio a (parent j)) ≡ true) where
    rise-edge :
        (c : ℕ)
        → 1 ≤ c
        → c < length a
        → c ≢ parent j
        → Placed a (parent j) j b c
        → Placed a (parent j) j b (parent c)
        → prio b (parent c) ≤ℤ prio b c
    rise-edge c p q ne (first e f) w = absurd (ne e)
    rise-edge c p q ne (second e f) (first g k) = rw (f, k) (omega (arith, ltb→lt _ _ s))
    rise-edge c p q ne (second e f) (second g k) = absurd (omega arith)
    rise-edge c p q ne (second e f) (off n m k) = absurd (n (ap parent e))
    rise-edge c p q ne (off n m f) (first g k) =
        rw (f, k) (omega (arith, ltb→lt _ _ s, rw g at (r.edges c p q m)))
    rise-edge c p q ne (off n m f) (second g k) = rw (f, k) (r.bridged c big q g p)
    rise-edge c p q ne (off n m f) (off u v k) = rw (f, k) (r.edges c p q m)

    rise-bridged :
        (c : ℕ)
        → 1 ≤ parent j
        → c < length a
        → parent c ≡ parent j
        → 1 ≤ c
        → Placed a (parent j) j b c
        → prio b (parent (parent j)) ≤ℤ prio b c
    rise-bridged c u q e p w =
        let top = r.edges (parent j) u (omega arith) (omega arith) in
        let above = x.elsewhere (parent (parent j)) (omega arith) (omega arith) in
        elim w [
          | first g f ↦ absurd (omega (arith, ap parent g))
          | second g f ↦ rw (above, f) top
          | off n m f ↦ rw (above, f) (omega (arith, top, rw e at (r.edges c p q m)))
        ]

    rise-Rising : Rising b (parent j)
    rise-Rising = record {
      edges = λ c p q n.
          rise-edge c p (omega (arith, x.size)) n (placed a b (parent j) j c x)
            (placed a b (parent j) j (parent c) x);
      bridged =
          λ c u q e p. rise-bridged c u (omega (arith, x.size)) e p (placed a b (parent j) j c x);
    }

  Rising-HeapTo_root : (a : List (Item V)) → Rising a 0 → HeapTo (length a) a
  Rising-HeapTo_root a r c p q = r.edges c p q (omega arith)

  Rising-HeapTo :
      (a : List (Item V)) (j : ℕ)
      → Rising a j
      → j < length a
      → ltb_ℤ (prio a j) (prio a (parent j)) ≡ false
      → HeapTo (length a) a
  Rising-HeapTo a j r h s c p q = elim (ℕ_discrete c j) [
    | yes e ↦ rw e (omega (arith, ltb→le _ _ s))
    | no n ↦ r.edges c p q n
  ]

  -- What a run of `up` or `down` leaves.
  pub record Restored (n : ℕ) (a b : List (Item V)) : Type 0 where
    pub heap : HeapTo n b
    pub same : Perm b a
    pub size : length b ≡ length a

  pub Restored-after :
      (a b c : List (Item V)) (i j m n : ℕ)
      → m ≡ n
      → Exchanged a i j b
      → Restored m b c
      → Restored n a c
  Restored-after a b c i j m n e x y = record {
    heap = λ k p q. y.heap k p (omega arith);
    same = Perm.trans y.same x.same;
    size = y.size ∙ x.size;
  }

  pub up-Restored :
      (k : ℕ) (a : List (Item V)) (j : ℕ)
      → j < k
      → j < length a
      → Rising a j
      → (b : List (Item V)) × (up k a j ≡ ok b) × Restored (length a) a b
  unfolding up
  up-Restored zero a j h q r = absurd (omega arith)
  up-Restored (suc k) a zero h q r =
      (a, refl, record { heap = Rising-HeapTo_root a r; same = Perm.refl a; size = refl })
  up-Restored (suc k) a (suc j) h q r =
      let test = less-ok a (suc j) (parent (suc j)) q (omega arith) in
      let small = ne→== (parent (suc j)) (suc j) (omega arith) in
      elim (Bool-cases (ltb_ℤ (prio a (suc j)) (prio a (parent (suc j))))) [
        | inl s ↦
            let (b, e, x) = swap-Exchanged a (parent (suc j)) (suc j) (omega arith) q in
            let (c, f, y) =
              up-Restored k b (parent (suc j)) (omega arith) (omega (arith, x.size))
                (rise-Rising a b (suc j) (omega arith) r x q s) in
            (
              c,
              rw (small, test, s, e) f,
              Restored-after a b c (parent (suc j)) (suc j) (length b) (length a) x.size x y,
            )
        | inr s ↦ (
          a,
          rw (small, test, s) refl,
          record { heap = Rising-HeapTo a (suc j) r q s; same = Perm.refl a; size = refl },
        )
      ]
