-- ===== src/Garray/Normal/Pop.antt =====
-- PopLeft, PopRight, PopLefts and PopRights of IntArray.
use go_zero_admin_pkg.Prelude.{
  ℕ, ◌-◌, ◌≡◌, refl, true, false, ◌||◌, [], ◌∷◌, ◌++◌, arith, length, take, drop, inl, inr,
  Bool-cases, if◌then◌else◌, leb, leb→lt, le→ltb, ne→==, ◌==◌, length-concat, take-length_append,
  get_or-length_append, take-all, drop-all,
}
use native.Mathlib.Nat.{sub_self, sub-zero}
use go_zero_admin_pkg.Prelude.Int.{ℤ, pos, negsuc, to_ℕ}
use go_zero_admin_pkg.Prelude.Run.{ok, load-ok, slice_front, slice_rear}
use go_zero_admin_pkg.Garray.Element.{Element}
use go_zero_admin_pkg.Garray.Normal.{
  Array, pop_left, pop_right, pop_lefts, pop_rights, not_positive,
}

-- How many elements a call takes.
abbrev pub taken : ℤ → ℕ → ℕ
taken size n = if leb n (to_ℕ size) then n else to_ℕ size

taken-zero : (size : ℤ) (n : ℕ) → (not_positive size || n == 0) ≡ true → taken size n ≡ 0
taken-zero (pos k) n h = ground arith
taken-zero (negsuc k) n h = ground arith

module _ {A : Type 0} ⦃e : Element A⦄ where
  -- PopLefts never panics: it takes the first `size` elements, all of them if there are fewer, and
  -- none for a size that is not positive; the array keeps the rest in order.
  pub pop_lefts_lem :
      (a : Array A) (size : ℤ)
      → pop_lefts a size
        ≡ ok (
          record a { array = drop (taken size (length a.array)) a.array },
          take (taken size (length a.array)) a.array,
        )
  unfolding pop_lefts
  pop_lefts_lem a size = elim (Bool-cases (not_positive size || length a.array == 0)) [
    | inl none_left ↦ rw (none_left, taken-zero size (length a.array) none_left)
    | inr some_left ↦ elim (Bool-cases (leb (length a.array) (to_ℕ size))) [
      | inl all ↦ rw (
        some_left,
        all,
        take-all (length a.array) a.array (omega arith),
        drop-all (length a.array) a.array (omega arith),
      )
      | inr part ↦
          let h = leb→lt _ _ part in
          rw (
            some_left,
            part,
            slice_front a.array (to_ℕ size) (omega (arith, h)),
            slice_rear a.array (to_ℕ size) (omega (arith, h)),
          )
    ]
  ]

  -- PopRights never panics: it takes the last `size` elements in their order, all of them if there
  -- are fewer, and none for a size that is not positive; the array keeps the others.
  pub pop_rights_lem :
      (a : Array A) (size : ℤ)
      → pop_rights a size ≡ (
          let kept = length a.array - taken size (length a.array) in
          ok (record a { array = take kept a.array }, drop kept a.array))
  unfolding pop_rights
  pop_rights_lem a size = elim (Bool-cases (not_positive size || length a.array == 0)) [
    | inl none_left ↦ rw (
      none_left,
      taken-zero size (length a.array) none_left,
      sub-zero (length a.array),
      take-all (length a.array) a.array (omega arith),
      drop-all (length a.array) a.array (omega arith),
    )
    | inr some_left ↦ elim (Bool-cases (leb (length a.array) (to_ℕ size))) [
      | inl all ↦ rw (some_left, all, sub_self (length a.array))
      | inr part ↦
          let h = leb→lt _ _ part in
          let kept = length a.array - to_ℕ size in
          rw (
            some_left,
            part,
            slice_rear a.array kept (omega (arith, h)),
            slice_front a.array kept (omega (arith, h)),
          )
    ]
  ]

  -- PopLeft returns and drops the first element, and reports an empty array with the zero value;
  -- PopRight does so at the other end. Neither panics.
  pub pop_left_lem :
      (v : A) (a : Array A)
      → (pop_left (record a { array = [] }) ≡ ok (record a { array = [] }, e.zero_value, false))
        × (pop_left (record a { array = v ∷ a.array }) ≡ ok (a, v, true))
        × (pop_right (record a { array = [] }) ≡ ok (record a { array = [] }, e.zero_value, false))
        × (pop_right (record a { array = a.array ++ v ∷ [] }) ≡ ok (a, v, true))
  unfolding pop_left pop_right
  pop_left_lem v a = (refl, front, refl, back)
    where
      front : pop_left (record a { array = v ∷ a.array }) ≡ ok (a, v, true)
      front =
          let whole = v ∷ a.array in
          rw (
            ne→== (length whole) 0 (omega arith),
            load-ok whole 0 e.zero_value (omega arith),
            slice_rear whole 1 (omega arith),
          )

      back : pop_right (record a { array = a.array ++ v ∷ [] }) ≡ ok (a, v, true)
      back =
          let whole = a.array ++ v ∷ [] in
          let size = length-concat a.array v in
          let last : length whole - 1 ≡ length a.array = omega (arith, size) in
          rw (
            le→ltb 1 (length whole) (omega (arith, size)),
            last,
            load-ok whole (length a.array) e.zero_value (omega (arith, size)),
            slice_front whole (length a.array) (omega (arith, size)),
            take-length_append a.array (v ∷ []),
            get_or-length_append a.array [] v e.zero_value,
          )
