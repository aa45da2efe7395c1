-- ===== src/Garray/Bulk/Reverse.antt =====
-- Reverse of IntArray: the two-ended loop against the recursive reverse of lists.
use mathlib.Core.List.{reverse, reverse-append, reverse-cons}
use go_zero_admin_pkg.Prelude.{
  ℕ, zero, suc, ◌+◌, ◌-◌, ◌<◌, ◌≡◌, refl, sym, ap, ◌∙◌, List, [], ◌∷◌, ◌++◌, append-nil, arith,
  length, lt→ltb, le→ltb, length-concat, append-cons, empty, last, snoc,
}
use go_zero_admin_pkg.Prelude.Run.{ok}
use go_zero_admin_pkg.Prelude.Swap.{swap_apart}
use go_zero_admin_pkg.Garray.Element.{Element}
use go_zero_admin_pkg.Garray.Normal.{Array}
use go_zero_admin_pkg.Garray.Bulk.{reverse_loop}
use go_zero_admin_pkg.Garray.Bulk

module _ {A : Type 0} ⦃e : Element A⦄ where
  reverse_ends : (x y : A) (l : List A) → reverse (x ∷ (l ++ y ∷ [])) ≡ y ∷ (reverse l ++ x ∷ [])
  reverse_ends x y l =
      reverse-cons x (l ++ y ∷ []) ∙ ap (λ r. r ++ x ∷ []) (reverse-append l (y ∷ []))

  reverse_loop-reverse :
      (k : ℕ) (pre mid post : List A) (i j : ℕ)
      → length mid < k
      → i ≡ length pre
      → j ≡ length pre + length mid - 1
      → reverse_loop k i j (pre ++ (mid ++ post)) ≡ ok (pre ++ (reverse mid ++ post))
  unfolding reverse_loop
  reverse_loop-reverse zero pre mid post i j h ei ej = absurd (omega arith)
  reverse_loop-reverse (suc k) pre [] post i j h ei ej = rw (le→ltb j i (omega arith))
  reverse_loop-reverse (suc k) pre (x ∷ mid) post i j h ei ej = elim (snoc mid) [
    | empty q ↦ rw (le→ltb j i (omega (arith, ap length q)), q)
    | last inner y q n ↦
        let shape : pre ++ ((x ∷ mid) ++ post) ≡ pre ++ x ∷ (inner ++ y ∷ post) =
          ap (λ l. pre ++ x ∷ l) (ap (λ m. m ++ post) q ∙ append-cons inner post y) in
        let turned : y ∷ (reverse inner ++ x ∷ post) ≡ reverse (x ∷ mid) ++ post =
          ap (◌∷◌ y) (sym (append-cons (reverse inner) post x))
          ∙ ap (λ l. l ++ post) (sym (reverse_ends x y inner))
          ∙ ap (λ m. reverse (x ∷ m) ++ post) (sym q) in
        rw
          (
            lt→ltb i j (omega (arith, n)),
            shape,
            swap_apart pre inner post x y i j ei (omega (arith, n)),
          )
          (ap (reverse_loop k (suc i) (j - 1)) (sym (append-cons pre (inner ++ x ∷ post) y))
            ∙ reverse_loop-reverse k (pre ++ y ∷ []) inner (x ∷ post) (suc i) (j - 1)
                (omega (arith, n)) (omega (arith, length-concat pre y))
                (omega (arith, n, length-concat pre y))
            ∙ ap ok (append-cons pre (reverse inner ++ x ∷ post) y ∙ ap (λ l. pre ++ l) turned))
  ]

  -- Reverse never panics, and reverses the array.
  pub reverse_lem : (a : Array A) → Bulk.reverse a ≡ ok (record a { array = reverse a.array })
  unfolding Bulk.reverse
  reverse_lem a = rw (
    ap (λ l. reverse_loop (length a.array + 1) 0 (length a.array - 1) l) (sym (append-nil a.array))
        ∙ reverse_loop-reverse (length a.array + 1) [] a.array [] 0 (length a.array - 1)
            (omega arith) refl (omega arith),
    append-nil (reverse a.array),
  )
