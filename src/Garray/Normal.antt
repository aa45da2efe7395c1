-- ===== src/Garray/Normal.antt =====
-- utils/tools/garray/garray_normal_int.go: IntArray, over any element type with a zero value.
-- A method returns the new array with its results; the receiver's locks do nothing here.
-- A slice is a list, so sharing between a returned slice and the array is left out.
pub mod Insert
pub mod Remove
pub mod Values
pub mod First
pub mod Pop
use go_zero_admin_pkg.Prelude.{
  ℕ, zero, suc, ◌+◌, ◌-◌, ◌*◌, ◌/◌, ◌%◌, Bool, true, false, not, ◌&&◌, ◌||◌, Option, none, some,
  List, [], ◌∷◌, ◌++◌, length, take, drop, replicate, ltb, leb, ◌==◌, if◌then◌else◌,
}
use go_zero_admin_pkg.Prelude.Int.{ℤ, pos, negsuc, is_neg, to_ℕ, eq_ℤ, neg_part, ltb_ℤ}
use go_zero_admin_pkg.Prelude.Run.{Run, ok, panic, ◌>>=◌, load, store, slice}
use go_zero_admin_pkg.Garray.Element.{Element}

pub record Array (A : Type 0) : Type 0 where
  pub safe : Bool
  pub array : List A

-- "index %d out of array range %d"
pub data Error : Type 0 where
  out_of_range : ℤ → ℕ → Error

-- `index < 0 || index >= len(a.array)`
abbrev pub outside : ℤ → ℕ → Bool
outside index n = is_neg index || leb n (to_ℕ index)

-- `size <= 0`
abbrev pub not_positive : ℤ → Bool
not_positive size = is_neg size || to_ℕ size == 0

module _ {A : Type 0} ⦃e : Element A⦄ where
  -- `make` panics where the size is negative or exceeds the capacity.
  pub new_array_size : ℤ → ℤ → Bool → Run (Array A)
  new_array_size size cap safe =
      if is_neg size || ltb_ℤ cap size
      then panic
      else ok (record { safe = safe; array = replicate (to_ℕ size) e.zero_value })

  pub new_array : Bool → Run (Array A)
  unfolding new_array_size
  new_array safe = new_array_size (pos 0) (pos 0) safe

  pub get : Array A → ℤ → Run (A × Bool)
  get a index =
      if outside index (length a.array)
      then ok (e.zero_value, false)
      else do v ← load a.array (to_ℕ index); ok (v, true)

  pub at : Array A → ℤ → Run A
  unfolding get
  at a index = do r ← get a index; ok r.0

  pub set_at : Array A → ℤ → A → Run (Array A × Option Error)
  set_at a index value =
      if outside index (length a.array)
      then ok (a, some (out_of_range index (length a.array)))
      else do b ← store a.array (to_ℕ index) value; ok (record a { array = b }, none)

  replace_loop : ℕ → ℕ → List A → List A → Run (List A)
  replace_loop zero i a src = ok a
  replace_loop (suc n) i a src = do v ← load src i; b ← store a i v; replace_loop n (suc i) b src

  pub replace : Array A → List A → Run (Array A)
  unfolding replace_loop
  replace a src =
      let max = if ltb (length a.array) (length src) then length a.array else length src in
      do b ← replace_loop max 0 a.array src; ok (record a { array = b })

  pub insert_before : Array A → ℤ → List A → Run (Array A × Option Error)
  insert_before a index values =
      if outside index (length a.array)
      then ok (a, some (out_of_range index (length a.array)))
      else do
        rear ← slice a.array (to_ℕ index) (length a.array)
        front ← slice a.array 0 (to_ℕ index)
        ok (record a { array = (front ++ values) ++ rear }, none)

  pub insert_after : Array A → ℤ → List A → Run (Array A × Option Error)
  insert_after a index values =
      if outside index (length a.array)
      then ok (a, some (out_of_range index (length a.array)))
      else do
        rear ← slice a.array (suc (to_ℕ index)) (length a.array)
        front ← slice a.array 0 (suc (to_ℕ index))
        ok (record a { array = (front ++ values) ++ rear }, none)

  -- doRemoveWithoutLock, on the slice: the boundary deletions first.
  pub do_remove_without_lock : List A → ℤ → Run (List A × A × Bool)
  do_remove_without_lock a index =
      if outside index (length a)
      then ok (a, e.zero_value, false)
      else if to_ℕ index == 0
      then (do v ← load a 0; b ← slice a 1 (length a); ok (b, v, true))
      else if to_ℕ index == length a - 1
      then (do v ← load a (to_ℕ index); b ← slice a 0 (to_ℕ index); ok (b, v, true))
      else do
        v ← load a (to_ℕ index)
        front ← slice a 0 (to_ℕ index)
        rear ← slice a (suc (to_ℕ index)) (length a)
        ok (front ++ rear, v, true)

  pub remove : Array A → ℤ → Run (Array A × A × Bool)
  remove a index = do
    r ← do_remove_without_lock a.array index
    ok (record a { array = r.0 }, r.1, r.2)

  -- The scan of doSearchWithoutLock from position `i`; -1 is `negsuc 0`.
  search_loop : ℕ → List A → A → ℤ
  search_loop i [] value = negsuc 0
  search_loop i (v ∷ a) value = if e.beq v value then pos i else search_loop (suc i) a value

  pub do_search_without_lock : List A → A → ℤ
  unfolding search_loop
  do_search_without_lock a value = if length a == 0 then negsuc 0 else search_loop 0 a value

  pub contains : Array A → A → Bool
  contains a value = not (eq_ℤ (do_search_without_lock a.array value) (negsuc 0))

  pub remove_value : Array A → A → Run (Array A × Bool)
  remove_value a value =
      let i = do_search_without_lock a.array value in
      if not (eq_ℤ i (negsuc 0))
      then (do r ← do_remove_without_lock a.array i; ok (record a { array = r.0 }, true))
      else ok (a, false)

  remove_values_loop : List A → List A → Run (List A)
  remove_values_loop a [] = ok a
  remove_values_loop a (value ∷ values) =
      let i = do_search_without_lock a value in
      let hit = do_remove_without_lock a i >>= λ r. remove_values_loop r.0 values in
      let miss = remove_values_loop a values in if not (eq_ℤ i (negsuc 0)) then hit else miss

  pub remove_values : Array A → List A → Run (Array A)
  unfolding remove_values_loop
  remove_values a values = do b ← remove_values_loop a.array values; ok (record a { array = b })

  pub push_left : Array A → List A → Array A
  push_left a value = record a { array = value ++ a.array }

  pub push_right : Array A → List A → Array A
  push_right a value = record a { array = a.array ++ value }

  pub pop_left : Array A → Run (Array A × A × Bool)
  pop_left a = if length a.array == 0 then ok (a, e.zero_value, false) else do
    v ← load a.array 0
    b ← slice a.array 1 (length a.array)
    ok (record a { array = b }, v, true)

  -- `index := len(a.array) - 1` is negative for the empty array alone.
  pub pop_right : Array A → Run (Array A × A × Bool)
  pop_right a = if ltb (length a.array) 1 then ok (a, e.zero_value, false) else do
    v ← load a.array (length a.array - 1)
    b ← slice a.array 0 (length a.array - 1)
    ok (record a { array = b }, v, true)

  -- The array left, and the slice returned (nil is the empty list).
  pub pop_lefts : Array A → ℤ → Run (Array A × List A)
  pop_lefts a size =
      if not_positive size || length a.array == 0
      then ok (a, [])
      else if leb (length a.array) (to_ℕ size)
      then ok (record a { array = [] }, a.array)
      else do
        value ← slice a.array 0 (to_ℕ size)
        rest ← slice a.array (to_ℕ size) (length a.array)
        ok (record a { array = rest }, value)

  pub pop_rights : Array A → ℤ → Run (Array A × List A)
  pop_rights a size =
      if not_positive size || length a.array == 0
      then ok (a, [])
      else if leb (length a.array) (to_ℕ size)
      then ok (record a { array = [] }, a.array)
      else do
        value ← slice a.array (length a.array - to_ℕ size) (length a.array)
        rest ← slice a.array 0 (length a.array - to_ℕ size)
        ok (record a { array = rest }, value)
