-- ===== src/Garray/Bulk/Chunk.antt =====
-- Chunk of IntArray: the pieces that its rounds take.
use native.Mathlib.Nat.{div-add-mod, mod-lt, zero-mul}
use mathlib.Core.List.{flatten}
use go_zero_admin_pkg.Prelude.{
  ℕ, zero, suc, ◌+◌, ◌-◌, ◌*◌, ◌≤◌, ◌<◌, ◌≡◌, refl, sym, ap, ◌∙◌, false, List, [], ◌∷◌, ◌++◌,
  append-nil, arith, length, take, drop, inl, inr, Bool-cases, ltb, if◌then◌else◌, append-cons,
  length-drop, length-take, take-append-drop, take-all, ltb→lt, ltb→le,
}
use go_zero_admin_pkg.Prelude.Int.{pos, ltb_ℤ}
use go_zero_admin_pkg.Prelude.Run.{ok, slice, slice-ok, slice_rear}
use go_zero_admin_pkg.Garray.Element.{Element}
use go_zero_admin_pkg.Garray.Normal.{Array}
use go_zero_admin_pkg.Garray.Bulk.{chunk_loop, chunk, ceil_div}

-- `c` rounds are as many as the elements need.
abbrev Fits : ℕ → ℕ → ℕ → Type 0
Fits c size n = (n ≤ c * size) × (c * size < n + size)

ceil_div-Fits : (n size : ℕ) → 0 < size → Fits (ceil_div n size) size n
ceil_div-Fits n size h =
    let whole = div-add-mod (n + size - 1) size in
    let rest = mod-lt (n + size - 1) h in (omega (arith, whole, rest), omega (arith, whole, rest))

below_one : (size : ℕ) → 0 < size → ltb_ℤ (pos size) (pos 1) ≡ false
below_one size h = ground arith

module _ {A : Type 0} ⦃e : Element A⦄ where
  pieces : ℕ → ℕ → List A → List (List A)
  pieces zero size l = []
  pieces (suc c) size l = take size l ∷ pieces c size (drop size l)

  drop-nil : (m : ℕ) → drop m (let none_left : List A = [] in none_left) ≡ []
  drop-nil zero = refl
  drop-nil (suc m) = refl

  drop-drop : (m n k : ℕ) (l : List A) → k ≡ n + m → drop m (drop n l) ≡ drop k l
  drop-drop m zero k l h = let same : k ≡ m = omega arith in rw same
  drop-drop m (suc n) zero l h = absurd (omega arith)
  drop-drop m (suc n) (suc k) [] h = drop-nil m
  drop-drop m (suc n) (suc k) (x ∷ l) h = drop-drop m n k l (omega arith)

  -- The piece that a round takes, whether or not the list ends in it.
  take-clamped :
      (size len : ℕ) (l : List A)
      → length l ≡ len
      → take (if ltb len size then len else size) l ≡ take size l
  take-clamped size len l h = elim (Bool-cases (ltb len size)) [
    | inl short ↦
        rw (short, take-all len l (omega arith), take-all size l (omega (arith, ltb→lt _ _ short)))
    | inr long ↦ rw long
  ]

  chunk_slice :
      (i size : ℕ) (a : List A)
      → i * size < length a
      → slice a (i * size) (if ltb (length a) (suc i * size) then length a else suc i * size)
        ≡ ok (take size (drop (i * size) a))
  chunk_slice i size a h = elim (Bool-cases (ltb (length a) (suc i * size))) [
    | inl short ↦
        let over = ltb→lt _ _ short in
        rw short (
          slice_rear a (i * size) (omega arith)
          ∙ ap ok (
              sym (
                take-all size (drop (i * size) a) (omega (arith, over, length-drop (i * size) a)))))
    | inr long ↦
        let under = ltb→le _ _ long in
        let width : suc i * size - i * size ≡ size = omega arith in
        rw long (
          slice-ok a (i * size) (suc i * size) (omega arith) under
          ∙ ap (λ k. ok (take k (drop (i * size) a))) width)
  ]

  chunk_loop-pieces :
      (c i size : ℕ) (a : List A) (n : List (List A))
      → (i + c) * size < length a + size
      → chunk_loop c i size a n ≡ ok (n ++ pieces c size (drop (i * size) a))
  unfolding chunk_loop pieces
  chunk_loop-pieces zero i size a n h = rw (append-nil n)
  chunk_loop-pieces (suc c) i size a n h =
      let part = take size (drop (i * size) a) in
      rw
        (
          chunk_slice i size a (omega arith),
          drop-drop size (i * size) (suc i * size) a (omega arith),
        )
        (chunk_loop-pieces c (suc i) size a (n ++ part ∷ []) (omega arith)
          ∙ ap ok (append-cons n (pieces c size (drop (suc i * size) a)) part))

  -- All pieces but the last have the given size, and the last has at least one element.
  abbrev pub IsChunked : ℕ → List (List A) → Type 0
  IsChunked size [] = Unit {0}
  IsChunked size (c ∷ []) = (0 < length c) × (length c ≤ size)
  IsChunked size (c ∷ d ∷ r) = (length c ≡ size) × IsChunked size (d ∷ r)

  pieces-IsChunked :
      (c size : ℕ) (l : List A) → Fits c size (length l) → IsChunked size (pieces c size l)
  unfolding pieces
  pieces-IsChunked zero size l h = tt
  pieces-IsChunked (suc zero) size l h =
      (omega (arith, length-take size l), omega (arith, length-take size l))
  pieces-IsChunked (suc (suc c)) size l h = (
    omega (arith, length-take size l),
    pieces-IsChunked (suc c) size (drop size l) (omega (arith, length-drop size l)),
  )

  flatten-pieces : (c size : ℕ) (l : List A) → length l ≤ c * size → flatten (pieces c size l) ≡ l
  unfolding pieces flatten
  flatten-pieces zero size [] h = refl
  flatten-pieces zero size (x ∷ l) h = absurd (omega arith)
  flatten-pieces (suc c) size l h =
      ap (◌++◌ (take size l))
        (flatten-pieces c size (drop size l) (omega (arith, length-drop size l)))
      ∙ take-append-drop size l

  -- Chunk with a positive size never panics: the pieces in a row are the array, all but the last have
  -- the size asked for, and the last is not empty and no larger.
  pub chunk_lem :
      (a : Array A) (size : ℕ)
      → 0 < size
      → (cs : List (List A)) × (chunk a (pos size) ≡ ok cs)
        × (flatten cs ≡ a.array)
        × IsChunked size cs
  unfolding chunk
  chunk_lem a size h =
      let fits = ceil_div-Fits (length a.array) size h in
      let c = ceil_div (length a.array) size in
      (
        pieces c size a.array,
        rw (below_one size h)
            (rw zero-mul at (chunk_loop-pieces c 0 size a.array [] (omega arith))),
        flatten-pieces c size a.array fits.0,
        pieces-IsChunked c size a.array fits,
      )
