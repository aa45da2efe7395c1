-- ===== src/Garray/Bulk.antt =====
-- utils/tools/garray/garray_normal_int.go: the methods that read or rewrite a whole IntArray.
-- A loop on fuel panics when the fuel runs out; it is given one round more than the length.
pub mod Filter
pub mod Unique
pub mod Chunk
pub mod Reverse
use go_zero_admin_pkg.Prelude.{
  ℕ, zero, suc, ◌+◌, ◌-◌, ◌*◌, ◌/◌, Bool, true, false, ◌&&◌, ◌||◌, Option, none, some, List, [],
  ◌∷◌, ◌++◌, length, take, drop, replicate, ltb, leb, ◌==◌, if◌then◌else◌,
}
use go_zero_admin_pkg.Prelude.Int.{ℤ, pos, negsuc, is_neg, to_ℕ, eq_ℤ, neg_part, ltb_ℤ, ◌+ℤ◌, ◌-ℤ◌}
use go_zero_admin_pkg.Prelude.Run.{Run, ok, panic, ◌>>=◌, load, store, slice}
use go_zero_admin_pkg.Prelude.Swap.{swap}
use go_zero_admin_pkg.Garray.Element.{Element}
use go_zero_admin_pkg.Garray.Normal.{Array, Error, out_of_range, outside}

module _ {A : Type 0} where
  -- `a[lo:hi]` where `hi` may be negative.
  abbrev pub slice_to : List A → ℕ → ℤ → Run (List A)
  slice_to a lo hi = if is_neg hi then panic else slice a lo (to_ℕ hi)

  -- `copy(dst, src)`
  abbrev pub copy : List A → List A → List A
  copy dst src = take (length dst) src ++ drop (length src) dst

-- `offsetEnd` of Range: the length, or a smaller `end`.
abbrev pub offset_end : ℕ → Option ℤ → ℤ
offset_end n none = pos n
offset_end n (some last) = if ltb_ℤ last (pos n) then last else pos n

-- `math.Ceil(float64(length) / float64(size))`, exact below 2^53.
abbrev pub ceil_div : ℕ → ℕ → ℕ
ceil_div n size = (n + size - 1) / size

module _ {A : Type 0} ⦃e : Element A⦄ where
  -- `make([]int, n)` panics for a negative length.
  abbrev pub make : ℤ → Run (List A)
  make n = if is_neg n then panic else ok (replicate (to_ℕ n) e.zero_value)

  pub range : Array A → ℤ → Option ℤ → Run (List A)
  unfolding ◌-ℤ◌
  range a start end =
      let last = offset_end (length a.array) end in
      let first = if is_neg start then 0 else to_ℕ start in
      if ltb_ℤ last start
      then ok []
      else if a.safe
      then (do
        buffer ← make (last -ℤ pos first)
        s ← slice_to a.array first last
        ok (copy buffer s))
      else slice_to a.array first last

  -- The tail of SubSlice, once `offset` and `size` are settled.
  sub_slice_at : Array A → ℕ → ℕ → Run (List A)
  sub_slice_at a offset size =
      let over = ltb (length a.array) (offset + size) in
      let last = if over then length a.array else offset + size in
      let count = if over then pos (length a.array) -ℤ pos offset else pos size in
      if a.safe
      then (do buffer ← make count; s ← slice a.array offset (length a.array); ok (copy buffer s))
      else slice a.array offset last

  pub sub_slice : Array A → ℤ → Option ℤ → Run (List A)
  unfolding sub_slice_at ◌+ℤ◌ ◌-ℤ◌
  sub_slice a offset size? =
      let n = length a.array in
      let size : ℤ = elim size? [ none ↦ pos n | some k ↦ k ] in
      let offset1 = if is_neg offset then pos n +ℤ offset else offset in
      let offset2 = if is_neg size then offset1 +ℤ size else offset1 in
      let size2 = if is_neg size then neg_part size else to_ℕ size in
      if ltb_ℤ (pos n) offset
      then ok []
      else if is_neg offset1
      then ok []
      else if is_neg offset2
      then ok []
      else sub_slice_at a (to_ℕ offset2) size2

  pub is_empty : Array A → Bool
  is_empty a = length a.array == 0

  pub clear : Array A → Array A
  clear a = if ltb 0 (length a.array) then record a { array = [] } else a

  pub has : A → List A → Bool
  has x [] = false
  has x (y ∷ ys) = e.beq x y || has x ys

  -- `seen` is the key set of `uniqueSet`.
  unique_loop : List A → List A → List A → List A
  unfolding has
  unique_loop [] seen out = out
  unique_loop (x ∷ xs) seen out = elim (has x seen) [
    | true ↦ unique_loop xs seen out
    | false ↦ unique_loop xs (x ∷ seen) (out ++ x ∷ [])
  ]

  pub unique : Array A → Array A
  unfolding unique_loop
  unique a = if length a.array == 0 then a else record a { array = unique_loop a.array [] [] }

  fill_loop : ℕ → ℕ → A → List A → Run (List A)
  fill_loop zero i value a = ok a
  fill_loop (suc n) i value a =
      if leb (length a) i
      then fill_loop n (suc i) value (a ++ value ∷ [])
      else (do b ← store a i value; fill_loop n (suc i) value b)

  -- `i < startIndex+num` gives no round for a negative `num`.
  pub fill : Array A → ℤ → ℤ → A → Run (Array A × Option Error)
  unfolding fill_loop
  fill a start num value =
      if is_neg start || ltb (length a.array) (to_ℕ start)
      then ok (a, some (out_of_range start (length a.array)))
      else do b ← fill_loop (to_ℕ num) (to_ℕ start) value a.array; ok (record a { array = b }, none)

  chunk_loop : ℕ → ℕ → ℕ → List A → List (List A) → Run (List (List A))
  chunk_loop zero i size a n = ok n
  chunk_loop (suc chunks) i size a n =
      let last = if ltb (length a) (suc i * size) then length a else suc i * size in
      do s ← slice a (i * size) last; chunk_loop chunks (suc i) size a (n ++ s ∷ [])

  pub chunk : Array A → ℤ → Run (List (List A))
  unfolding chunk_loop
  chunk a size =
      if ltb_ℤ size (pos 1)
      then ok []
      else chunk_loop (ceil_div (length a.array) (to_ℕ size)) 0 (to_ℕ size) a.array []

  pub pad : Array A → ℤ → A → Array A
  pad a size value =
      let n = (if is_neg size then neg_part size else to_ℕ size) - length a.array in
      if eq_ℤ size (pos 0)
        || (ltb_ℤ (pos 0) size && ltb_ℤ size (pos (length a.array)))
        || (is_neg size && ltb (neg_part size) (length a.array))
      then a
      else if ltb_ℤ (pos 0) size
      then record a { array = a.array ++ replicate n value }
      else record a { array = replicate n value ++ a.array }

  reverse_loop : ℕ → ℕ → ℕ → List A → Run (List A)
  reverse_loop zero i j a = panic
  reverse_loop (suc f) i j a =
      let step = swap a i j >>= reverse_loop f (suc i) (j - 1) in if ltb i j then step else ok a

  pub reverse : Array A → Run (Array A)
  unfolding reverse_loop
  reverse a = do
    b ← reverse_loop (length a.array + 1) 0 (length a.array - 1) a.array
    ok (record a { array = b })

  filter_loop : ℕ → ℕ → (ℕ → A → Bool) → List A → Run (List A)
  filter_loop zero i f a = panic
  filter_loop (suc k) i f a =
      let drop_it : Run (List A) = (do
        front ← slice a 0 i
        rear ← slice a (suc i) (length a)
        filter_loop k i f (front ++ rear)) in
      let keep_it = filter_loop k (suc i) f a in
      let step : Run (List A) = (do v ← load a i; if f i v then drop_it else keep_it) in
      if ltb i (length a) then step else ok a

  pub filter : Array A → (ℕ → A → Bool) → Run (Array A)
  unfolding filter_loop
  filter a f = do b ← filter_loop (length a.array + 1) 0 f a.array; ok (record a { array = b })

  pub filter_empty : Array A → Run (Array A)
  unfolding filter_loop
  filter_empty a = do
    b ← filter_loop (length a.array + 1) 0 (λ i v. e.beq v e.zero_value) a.array
    ok (record a { array = b })

  pub walk_loop : ℕ → ℕ → (A → A) → List A → Run (List A)
  walk_loop zero i f a = ok a
  walk_loop (suc n) i f a = do v ← load a i; b ← store a i (f v); walk_loop n (suc i) f b

  pub walk : Array A → (A → A) → Run (Array A)
  unfolding walk_loop
  walk a f = do b ← walk_loop (length a.array) 0 f a.array; ok (record a { array = b })
