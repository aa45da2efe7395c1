-- ===== src/Garray/Reads.antt =====
-- utils/tools/garray/garray_normal_int.go: the constructors from a slice, and the methods that read the
-- whole array: Sum, Len, Slice, Search, CountValues and the iterators.
pub mod Counts
pub mod Ranges
use go_zero_admin_pkg.Prelude.{
  ℕ, zero, suc, ◌+◌, ◌-◌, Bool, true, false, Option, none, some, List, [], ◌∷◌, ◌++◌, length,
  if◌then◌else◌,
}
use go_zero_admin_pkg.Prelude.Int.{ℤ, pos, negsuc, ltb_ℤ, is_zero, ◌+ℤ◌}
use go_zero_admin_pkg.Prelude.Run.{Run, ok, panic, ◌>>=◌, load}
use go_zero_admin_pkg.Garray.Element.{Element}
use go_zero_admin_pkg.Garray.Normal.{Array, do_search_without_lock}

-- The loop of NewIntArrayRange, `index` aside, which it does not use.
range_loop : ℕ → ℤ → ℤ → ℤ → List ℤ → Run (List ℤ)
range_loop zero i end step slice = panic
range_loop (suc k) i end step slice =
    let go_on = range_loop k (i +ℤ step) end step (slice ++ i ∷ []) in
    if ltb_ℤ end i then ok slice else go_on

module _ {A : Type 0} where
  pub new_array_from : List A → Bool → Array A
  new_array_from array safe = record { safe = safe; array = array }

  pub new_array_from_copy : List A → Bool → Array A
  new_array_from_copy array safe = record { safe = safe; array = array }

  pub set_array : Array A → List A → Array A
  set_array a array = record a { array = array }

  pub len : Array A → ℕ
  len a = length a.array

  -- A copy or the array's own slice: the same elements.
  pub slice : Array A → List A
  slice a = if a.safe then a.array else a.array

  pub clone : Array A → Array A
  unfolding new_array_from
  clone a = new_array_from a.array a.safe

  pub deep_copy : Option (Array A) → Option (Array A)
  unfolding new_array_from
  deep_copy none = none
  deep_copy (some a) = some (new_array_from a.array a.safe)

  -- The callback has a state of type `S`, and its Boolean tells whether to go on.
  asc_loop : {S : Type 0} → (S → ℕ → A → S × Bool) → S → ℕ → List A → S
  asc_loop f s k [] = s
  asc_loop f s k (v ∷ vs) =
      let r = f s k v in let rest = asc_loop f r.0 (suc k) vs in if r.1 then rest else r.0

  pub iterator_asc : {S : Type 0} → Array A → (S → ℕ → A → S × Bool) → S → S
  unfolding asc_loop
  iterator_asc a f s = asc_loop f s 0 a.array

  pub iterator : {S : Type 0} → Array A → (S → ℕ → A → S × Bool) → S → S
  unfolding iterator_asc
  iterator a f s = iterator_asc a f s

  -- `n` indexes are left, the next of them `n - 1`.
  desc_loop : {S : Type 0} → (S → ℕ → A → S × Bool) → S → ℕ → List A → Run S
  desc_loop f s zero a = ok s
  desc_loop f s (suc i) a = do
    v ← load a i
    let r = f s i v
    let rest = desc_loop f r.0 i a
    if r.1 then rest else ok r.0

  pub iterator_desc : {S : Type 0} → Array A → (S → ℕ → A → S × Bool) → S → Run S
  unfolding desc_loop
  iterator_desc a f s = desc_loop f s (length a.array) a.array

module _ {A : Type 0} ⦃e : Element A⦄ where
  pub search : Array A → A → ℤ
  search a value = do_search_without_lock a.array value

  -- `m[v]++` on an association list in the order of first occurrence.
  increment : A → List (A × ℕ) → List (A × ℕ)
  increment v [] = (v, 1) ∷ []
  increment v ((w, n) ∷ m) = if e.beq w v then (w, n + 1) ∷ m else (w, n) ∷ increment v m

  count_loop : List (A × ℕ) → List A → List (A × ℕ)
  unfolding increment
  count_loop m [] = m
  count_loop m (v ∷ vs) = count_loop (increment v m) vs

  pub count_values : Array A → List (A × ℕ)
  unfolding count_loop
  count_values a = count_loop [] a.array

sum_loop : ℤ → List ℤ → ℤ
sum_loop sum [] = sum
sum_loop sum (v ∷ vs) = sum_loop (sum +ℤ v) vs

pub sum : Array ℤ → ℤ
unfolding sum_loop
sum a = sum_loop (pos 0) a.array

-- `k` bounds the rounds of the loop.
pub new_int_array_range : ℕ → ℤ → ℤ → ℤ → Bool → Run (Array ℤ)
unfolding range_loop
new_int_array_range k start end step safe =
    if is_zero step
    then panic
    else (do slice ← range_loop k start end step []; ok (record { safe = safe; array = slice }))
