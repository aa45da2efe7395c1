-- ===== src/Garray/QuickSort/Partition.antt =====
-- The partition of quickSortInt: the pivot travels with `head`.
use mathlib.Core.List.{perm_middle}
use mathlib.Core.List.Perm
use go_zero_admin_pkg.Prelude.{
  ℕ, zero, suc, ◌+◌, ◌-◌, ◌<◌, ◌≡◌, refl, sym, ap, ◌∙◌, true, false, List, [], ◌∷◌, ◌++◌, Perm,
  arith, length, inl, inr, Bool-cases, lt→ltb, le→ltb, length-concat, append-cons, snoc, empty,
  last,
}
use go_zero_admin_pkg.Prelude.Int.{ℤ, is_pos}
use go_zero_admin_pkg.Prelude.Run.{Run, ok, load}
use go_zero_admin_pkg.Prelude.Swap.{swap, swap_apart, swap_same, swap_back, load_at}
use go_zero_admin_pkg.Prelude.Permutations.{All, All-append}
use go_zero_admin_pkg.Garray.QuickSort.{partition_loop}

module _ (cmp : ℤ → ℤ → ℤ) (mid : ℤ) where
  -- The slice around the pivot: no element before it is above it, all behind it are.
  pub record Parted (before : List ℤ) (r : ℕ × List ℤ) : Type 0 where
    pub low : List ℤ
    pub high : List ℤ
    pub head : r.0 ≡ length low
    pub shape : r.1 ≡ low ++ mid ∷ high
    pub below : All (λ x. is_pos (cmp x mid) ≡ false) low
    pub above : All (λ x. is_pos (cmp x mid) ≡ true) high
    pub same : Perm (low ++ mid ∷ high) before

  abbrev pub Partitions : List ℤ → Run (ℕ × List ℤ) → Type 0
  Partitions before run = (r : ℕ × List ℤ) × (run ≡ ok r) × Parted before r

  Partitions-perm :
      {before after : List ℤ} (run : Run (ℕ × List ℤ))
      → Perm before after
      → Partitions before run
      → Partitions after run
  Partitions-perm run p (r, e, q) = (
    r,
    e,
    record {
      low = q.low;
      high = q.high;
      head = q.head;
      shape = q.shape;
      below = q.below;
      above = q.above;
      same = Perm.trans q.same p;
    },
  )

  -- The exchange with the last element that is not placed.
  record Moved (low rest high : List ℤ) (x : ℤ) (run : Run (List ℤ)) : Type 0 where
    others : List ℤ
    size : length others ≡ length rest
    done : run ≡ ok (low ++ mid ∷ (others ++ x ∷ high))
    kept : Perm (others ++ x ∷ high) (x ∷ (rest ++ high))

  to_tail_swap :
      (low rest high : List ℤ) (x : ℤ) (i tail : ℕ)
      → i ≡ suc (length low)
      → tail ≡ length low + length (x ∷ rest)
      → Moved low rest high x (swap (low ++ mid ∷ (x ∷ (rest ++ high))) i tail)
  to_tail_swap low rest high x i tail ei et =
      let pre = low ++ mid ∷ [] in
      let at : i ≡ length pre = omega (arith, length-concat low mid) in
      rw (← append-cons low (x ∷ (rest ++ high)) mid) (elim (snoc rest) [
        | empty e ↦
            let same : tail ≡ i = omega (arith, ap length e) in
            rw (e, same)
              (record {
                others = [];
                size = refl;
                done = swap_same pre high x i at ∙ ap ok (append-cons low (x ∷ high) mid);
                kept = Perm.refl (x ∷ high);
              })
        | last front y e n ↦
            rw (e, append-cons front high y)
              (record {
                others = y ∷ front;
                size = omega (arith, length-concat front y);
                done =
                    swap_apart pre front high x y i tail at
                      (omega (arith, n, length-concat low mid))
                    ∙ ap ok (append-cons low (y ∷ (front ++ x ∷ high)) mid);
                kept = rw (append-cons front high y) (
                    Perm.trans (Perm.cons y (perm_middle {a = x} front high)) (
                      Perm.trans (Perm.swap x y (front ++ high))
                        (Perm.cons x (Perm.symm (perm_middle {a = y} front high)))));
              })
      ])

  pub partition_loop-Parted :
      (k : ℕ) (low rest high : List ℤ)
      → length rest < k
      → All (λ x. is_pos (cmp x mid) ≡ false) low
      → All (λ x. is_pos (cmp x mid) ≡ true) high
      → (i head tail : ℕ) → i ≡ suc (length low)
      → head ≡ length low
      → tail ≡ length low + length rest
      → Partitions
          (low ++ mid ∷ (rest ++ high))
          (partition_loop k cmp mid i head tail (low ++ mid ∷ (rest ++ high)))
  unfolding partition_loop
  partition_loop-Parted zero low rest high h b a i head tail ei eh et = absurd (omega arith)
  partition_loop-Parted (suc k) low [] high h b a i head tail ei eh et =
      rw (le→ltb tail head (omega arith)) (
        (head, low ++ mid ∷ high),
        refl,
        record {
          low = low;
          high = high;
          head = eh;
          shape = refl;
          below = b;
          above = a;
          same = Perm.refl (low ++ mid ∷ high);
        },
      )
  partition_loop-Parted (suc k) low (x ∷ rest) high h b a i head tail ei eh et =
      let seen : load (low ++ mid ∷ (x ∷ (rest ++ high))) i ≡ ok x =
        ap (λ l. load l i) (sym (append-cons low (x ∷ (rest ++ high)) mid))
        ∙ load_at (low ++ mid ∷ []) (rest ++ high) x i (omega (arith, length-concat low mid)) in
      rw (lt→ltb head tail (omega arith), seen)
        (elim (Bool-cases (is_pos (cmp x mid))) [
          | inl up ↦
              let m = to_tail_swap low rest high x i tail ei et in
              rw (up, m.done)
                (Partitions-perm _ (Perm.append (Perm.refl low) (Perm.cons mid m.kept)) (
                  partition_loop-Parted k low m.others (x ∷ high) (omega (arith, m.size)) b (up, a)
                    i head (tail - 1) ei eh (omega (arith, m.size))))
          | inr down ↦
              rw
                (
                  down,
                  swap_back low [] (rest ++ high) mid x head i eh (omega arith),
                  ← append-cons low (mid ∷ (rest ++ high)) x,
                )
                (Partitions-perm _
                  (rw (append-cons low (mid ∷ (rest ++ high)) x)
                    (Perm.append (Perm.refl low) (Perm.swap mid x (rest ++ high))))
                  (partition_loop-Parted k (low ++ x ∷ []) rest high (omega arith)
                    (All-append (λ y. is_pos (cmp y mid) ≡ false) low (x ∷ []) b (down, tt)) a
                    (suc i) (suc head) tail (omega (arith, length-concat low x))
                    (omega (arith, length-concat low x)) (omega (arith, length-concat low x))))
        ])
