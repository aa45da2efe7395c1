-- ===== src/Prelude/Swap.antt =====
-- Reads and writes at a place that cuts the list, and the exchange of two elements.
use Prim.Native.Nat.{ℕ, suc, ◌+◌}
use mathlib.Core.Path.{◌≡◌, sym, ap, ◌∙◌}
use mathlib.Core.List.{List, ◌∷◌, ◌++◌, append_assoc}
use native.Mathlib.Omega.{arith}
use go_zero_admin_pkg.Prelude.Lists.{length, length-append, get_or-length_append, set-length_append}
use go_zero_admin_pkg.Prelude.Run.{Run, ok, ◌>>=◌, load, store, load-ok, store-ok}

module _ {ℓ} {A : Type ℓ} where
  -- `a[i], a[j] = a[j], a[i]`
  unfoldable pub swap : List A → ℕ → ℕ → Run (List A)
  swap a i j = do x ← load a i; y ← load a j; b ← store a i y; store b j x

  pub load_at :
      (pre post : List A) (x : A) (i : ℕ) → i ≡ length pre → load (pre ++ x ∷ post) i ≡ ok x
  load_at pre post x i e = rw e (
      load-ok (pre ++ x ∷ post) (length pre) x (omega (arith, length-append pre (x ∷ post)))
      ∙ ap ok (get_or-length_append pre post x x))

  pub store_at :
      (pre post : List A) (x v : A) (i : ℕ)
      → i ≡ length pre
      → store (pre ++ x ∷ post) i v ≡ ok (pre ++ v ∷ post)
  store_at pre post x v i e = rw e (
      store-ok (pre ++ x ∷ post) (length pre) v (omega (arith, length-append pre (x ∷ post)))
      ∙ ap ok (set-length_append pre post x v))

  pub regroup :
      (pre mid post : List A) (x y : A)
      → pre ++ x ∷ (mid ++ y ∷ post) ≡ (pre ++ x ∷ mid) ++ y ∷ post
  regroup pre mid post x y = sym (append_assoc pre (x ∷ mid) (y ∷ post))

  pub swap_apart :
      (pre mid post : List A) (x y : A) (i j : ℕ)
      → i ≡ length pre
      → j ≡ suc (length pre + length mid)
      → swap (pre ++ x ∷ (mid ++ y ∷ post)) i j ≡ ok (pre ++ y ∷ (mid ++ x ∷ post))
  unfolding swap
  swap_apart pre mid post x y i j e f =
      let last : (z : A) → j ≡ length (pre ++ z ∷ mid) =
        λ z. omega (arith, length-append pre (z ∷ mid)) in
      rw (
        load_at pre (mid ++ y ∷ post) x i e,
        regroup pre mid post x y,
        load_at (pre ++ x ∷ mid) post y j (last x),
        ← regroup pre mid post x y,
        store_at pre (mid ++ y ∷ post) x y i e,
        regroup pre mid post y y,
        store_at (pre ++ y ∷ mid) post y x j (last y),
        ← regroup pre mid post y x,
      )

  pub swap_same :
      (pre post : List A) (x : A) (i : ℕ)
      → i ≡ length pre
      → swap (pre ++ x ∷ post) i i ≡ ok (pre ++ x ∷ post)
  unfolding swap
  swap_same pre post x i e =
      rw (load_at pre post x i e, store_at pre post x x i e) (store_at pre post x x i e)

  pub swap_back :
      (pre mid post : List A) (x y : A) (i j : ℕ)
      → i ≡ length pre
      → j ≡ suc (length pre + length mid)
      → swap (pre ++ x ∷ (mid ++ y ∷ post)) j i ≡ ok (pre ++ y ∷ (mid ++ x ∷ post))
  unfolding swap
  swap_back pre mid post x y i j e f =
      let last : (z : A) → j ≡ length (pre ++ z ∷ mid) =
        λ z. omega (arith, length-append pre (z ∷ mid)) in
      rw (
        load_at pre (mid ++ y ∷ post) x i e,
        regroup pre mid post x y,
        load_at (pre ++ x ∷ mid) post y j (last x),
        store_at (pre ++ x ∷ mid) post y x j (last x),
        ← regroup pre mid post x x,
        store_at pre (mid ++ x ∷ post) x y i e,
      )
