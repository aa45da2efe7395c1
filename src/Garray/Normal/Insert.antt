-- ===== src/Garray/Normal/Insert.antt =====
-- InsertBefore, InsertAfter and Set of IntArray.
use go_zero_admin_pkg.Prelude.{
  suc, ◌≡◌, refl, Option, none, some, List, ◌++◌, append_assoc, arith, length, take, drop, set, inl,
  inr, leb→lt, leb, if◌then◌else◌, Bool-cases,
}
use go_zero_admin_pkg.Prelude.Int.{ℤ, pos, negsuc, to_ℕ}
use go_zero_admin_pkg.Prelude.Run.{ok, slice_front, slice_rear, store-ok}
use go_zero_admin_pkg.Garray.Element.{Element}
use go_zero_admin_pkg.Garray.Normal.{
  Array, Error, out_of_range, outside, insert_before, insert_after, set_at,
}

module _ {A : Type 0} ⦃e : Element A⦄ (a : Array A) where
  -- What a method reports for an index outside the array.
  abbrev pub refused : ℤ → Array A × Option Error
  refused index = (a, some (out_of_range index (length a.array)))

  -- InsertBefore never panics: with an index in range it puts the values between the elements
  -- before the index and those from it on, and otherwise it reports the index and changes nothing.
  pub insert_before_lem :
      (index : ℤ) (values : List A)
      → insert_before a index values ≡ (
          if outside index (length a.array)
          then ok (refused index)
          else ok (
            record a { array = take (to_ℕ index) a.array ++ (values ++ drop (to_ℕ index) a.array) },
            none,
          ))
  unfolding insert_before
  insert_before_lem (negsuc n) values = refl
  insert_before_lem (pos i) values = elim (Bool-cases (leb (length a.array) i)) [
    | inl out ↦ rw (out, insert_before)
    | inr within ↦
        let h = leb→lt _ _ within in
        rw (
          within,
          slice_rear a.array i (omega (arith, h)),
          slice_front a.array i (omega (arith, h)),
          append_assoc (take i a.array) values,
        )
  ]

  -- InsertAfter never panics: with an index in range it puts the values right behind the element
  -- at the index, and otherwise it reports the index and changes nothing.
  pub insert_after_lem :
      (index : ℤ) (values : List A)
      → insert_after a index values ≡ (
          if outside index (length a.array)
          then ok (refused index)
          else ok (
            record a {
              array =
                  take (suc (to_ℕ index)) a.array ++ (values ++ drop (suc (to_ℕ index)) a.array);
            },
            none,
          ))
  unfolding insert_after
  insert_after_lem (negsuc n) values = refl
  insert_after_lem (pos i) values = elim (Bool-cases (leb (length a.array) i)) [
    | inl out ↦ rw (out, insert_after)
    | inr within ↦
        let h = leb→lt _ _ within in
        rw (
          within,
          slice_rear a.array (suc i) h,
          slice_front a.array (suc i) h,
          append_assoc (take (suc i) a.array) values,
        )
  ]

  -- Set writes the element at an index in range, and otherwise reports the index and changes nothing.
  pub set_at_lem :
      (index : ℤ) (value : A)
      → set_at a index value ≡ (
          if outside index (length a.array)
          then ok (refused index)
          else ok (record a { array = set a.array (to_ℕ index) value }, none))
  unfolding set_at
  set_at_lem (negsuc n) value = refl
  set_at_lem (pos i) value = elim (Bool-cases (leb (length a.array) i)) [
    | inl out ↦ rw (out, set_at)
    | inr within ↦ rw (within, store-ok a.array i value (leb→lt _ _ within))
  ]
