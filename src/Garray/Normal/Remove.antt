-- ===== src/Garray/Normal/Remove.antt =====
-- Remove of IntArray: the element taken and what is left.
use go_zero_admin_pkg.Prelude.{
  ℕ, zero, suc, ◌-◌, ◌≤◌, ◌<◌, ◌≡◌, refl, ap, ◌∙◌, true, false, List, [], ◌∷◌, ◌++◌, append-nil,
  arith, length, take, drop, get_or, inl, inr, drop-all, leb→lt, lt→leb, leb, ne→==, ◌==◌, ==_iff,
  if◌then◌else◌, Bool-cases, length-append, length-take,
}
use go_zero_admin_pkg.Prelude.Int.{ℤ, pos, negsuc, to_ℕ}
use go_zero_admin_pkg.Prelude.Run.{ok, ◌>>=◌, load-ok, slice_front, slice_rear}
use go_zero_admin_pkg.Garray.Element.{Element}
use go_zero_admin_pkg.Garray.Normal.Insert.{insert_before_lem}
use go_zero_admin_pkg.Garray.Normal.{Array, outside, do_remove_without_lock, remove, insert_before}

-- The list without its element at `i`.
abbrev pub without {ℓ} : {A : Type ℓ} → ℕ → List A → List A
without i a = take i a ++ drop (suc i) a

module _ {A : Type 0} ⦃e : Element A⦄ where
  drop-one_last : (a : List A) (i : ℕ) → length a ≡ suc i → without i a ≡ take i a
  drop-one_last a i h = rw (drop-all (suc i) a (omega arith)) (append-nil (take i a))

  pub do_remove_inside :
      (a : List A) (i : ℕ)
      → i < length a
      → do_remove_without_lock a (pos i) ≡ ok (without i a, get_or a i e.zero_value, true)
  unfolding do_remove_without_lock
  do_remove_inside a zero h =
      rw (lt→leb 0 (length a) h, load-ok a 0 e.zero_value h, slice_rear a 1 h)
  do_remove_inside a (suc i) h = elim (Bool-cases (suc i == length a - 1)) [
    | inl last ↦
        let size : length a ≡ suc (suc i) = omega (arith, (==_iff _ _).0 last, h) in
        rw (
          lt→leb (suc i) (length a) h,
          ne→== (suc i) 0 (omega arith),
          last,
          load-ok a (suc i) e.zero_value h,
          slice_front a (suc i) (omega arith),
          drop-one_last a (suc i) size,
        )
    | inr inner ↦ rw (
      lt→leb (suc i) (length a) h,
      ne→== (suc i) 0 (omega arith),
      inner,
      load-ok a (suc i) e.zero_value h,
      slice_front a (suc i) (omega arith),
      slice_rear a (suc (suc i)) h,
    )
  ]

  pub do_remove_lem :
      (a : List A) (index : ℤ)
      → do_remove_without_lock a index ≡ (
          if outside index (length a)
          then ok (a, e.zero_value, false)
          else ok (without (to_ℕ index) a, get_or a (to_ℕ index) e.zero_value, true))
  unfolding do_remove_without_lock
  do_remove_lem a (negsuc n) = refl
  do_remove_lem a (pos i) = elim (Bool-cases (leb (length a) i)) [
    | inl out ↦ rw (out, do_remove_without_lock)
    | inr within ↦ do_remove_inside a i (leb→lt _ _ within) ∙ rw within
  ]

  -- Remove never panics: with an index in range it returns that element and leaves the others in
  -- order, and otherwise it changes nothing and returns the zero value with `found` false.
  pub remove_lem :
      (a : Array A) (index : ℤ)
      → remove a index ≡ (
          if outside index (length a.array)
          then ok (a, e.zero_value, false)
          else ok (
            record a { array = without (to_ℕ index) a.array },
            get_or a.array (to_ℕ index) e.zero_value,
            true,
          ))
  unfolding remove
  remove_lem a index = elim (Bool-cases (outside index (length a.array))) [
    | inl out ↦ rw (do_remove_lem a.array index, out)
    | inr within ↦ rw (do_remove_lem a.array index, within)
  ]

  without-insert :
      (i : ℕ) (a : List A) (v : A) → i ≤ length a → without i (take i a ++ v ∷ drop i a) ≡ a
  without-insert zero a v h = refl
  without-insert (suc i) [] v h = absurd (omega arith)
  without-insert (suc i) (x ∷ a) v h = ap (◌∷◌ x) (without-insert i a v (omega arith))

  get_or-insert :
      (i : ℕ) (a : List A) (v d : A) → i ≤ length a → get_or (take i a ++ v ∷ drop i a) i d ≡ v
  get_or-insert zero a v d h = refl
  get_or-insert (suc i) [] v d h = absurd (omega arith)
  get_or-insert (suc i) (x ∷ a) v d h = get_or-insert i a v d (omega arith)

  -- At an index in range, InsertBefore of one value and then Remove at the same index succeed, return
  -- that value, and restore the array.
  pub remove-insert_before :
      (a : Array A) (i : ℕ) (v : A)
      → i < length a.array
      → (insert_before a (pos i) (v ∷ []) >>= λ r. remove r.0 (pos i)) ≡ ok (a, v, true)
  remove-insert_before a i v h =
      let grown = take i a.array ++ v ∷ drop i a.array in
      let size : i < length grown =
        omega (arith, length-append (take i a.array) (v ∷ drop i a.array), length-take i a.array) in
      rw (
        insert_before_lem a (pos i) (v ∷ []),
        lt→leb i (length a.array) h,
        remove_lem (record a { array = grown }) (pos i),
        lt→leb i (length grown) size,
        without-insert i a.array v (omega arith),
        get_or-insert i a.array v e.zero_value (omega arith),
      )
