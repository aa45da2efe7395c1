-- ===== src/Garray/Sorted/Empty.antt =====
-- FilterEmpty of SortedIntArray: its two loops at the ends of the array.
use go_zero_admin_pkg.Prelude.{
  ℕ, zero, suc, ◌+◌, ◌-◌, ◌<◌, ◌≡◌, refl, List, [], ◌∷◌, ◌++◌, append-nil, arith, length, drop, inl,
  inr, Bool-cases, if◌then◌else◌, lt→ltb, ne→==, length-concat, take-length_append,
  get_or-length_append, drop-all, Bool, false, ◌∙◌, snoc, empty, last,
}
use go_zero_admin_pkg.Prelude.Int.{ℤ, pos, eq_ℤ}
use go_zero_admin_pkg.Prelude.Run.{ok, panic, load-ok, load-panic, slice_front, slice_rear}
use go_zero_admin_pkg.Garray.Sorted.{
  SortedIntArray, filter_left_loop, filter_right_loop, filter_empty,
}

-- The list without the zeros at its left end.
abbrev pub strip : List ℤ → List ℤ
strip [] = []
strip (x ∷ xs) = if eq_ℤ x (pos 0) then strip xs else x ∷ xs

filter_left_loop-strip : (k : ℕ) (l : List ℤ) → length l < k → filter_left_loop k l ≡ ok (strip l)
unfolding filter_left_loop
filter_left_loop-strip zero l h = absurd (omega arith)
filter_left_loop-strip (suc k) [] h = refl
filter_left_loop-strip (suc k) (x ∷ l) h =
    rw
      (
        lt→ltb 0 (length (x ∷ l)) (omega arith),
        load-ok (x ∷ l) 0 (pos 0) (omega arith),
        slice_rear (x ∷ l) 1 (omega arith),
      )
      (elim (Bool-cases (eq_ℤ x (pos 0))) [
        | inl z ↦ rw z (filter_left_loop-strip k l (omega arith))
        | inr n ↦ rw n
      ])

filter_right_loop_lem :
    (k : ℕ) (m : List ℤ) (v : ℤ)
    → filter_right_loop (suc (suc k)) (length m) (m ++ v ∷ [])
      ≡ (if eq_ℤ v (pos 0) then panic else ok (m ++ v ∷ []))
unfolding filter_right_loop
filter_right_loop_lem k m v =
    let whole = m ++ v ∷ [] in
    let size = length-concat m v in
    let shorter : m ++ drop (length m + 1) whole ≡ m =
      rw (drop-all (length m + 1) whole (omega (arith, size))) (append-nil m) in
    rw
      (
        load-ok whole (length m) (pos 0) (omega (arith, size)),
        get_or-length_append m [] v (pos 0),
        slice_front whole (length m) (omega (arith, size)),
        slice_rear whole (length m + 1) (omega (arith, size)),
        take-length_append m (v ∷ []),
      )
      (elim (Bool-cases (eq_ℤ v (pos 0))) [
        | inl z ↦ rw (z, shorter, load-panic m (length m) (omega arith))
        | inr n ↦ rw n
      ])

filter_empty-parts :
    (a : SortedIntArray)
    → (strip a.array ≡ [] → filter_empty a ≡ ok (record a { array = [] }))
      × ((m : List ℤ) (v : ℤ)
          → strip a.array ≡ m ++ v ∷ []
          → filter_empty a
            ≡ (if eq_ℤ v (pos 0) then panic else ok (record a { array = strip a.array })))
unfolding filter_empty
filter_empty-parts a = (
  λ e. rw (filter_left_loop-strip (length a.array + 1) a.array (omega arith), e),
  λ m v e. trimmed m v e,
)
  where
    trimmed :
        (m : List ℤ) (v : ℤ)
        → strip a.array ≡ m ++ v ∷ []
        → filter_empty a
          ≡ (if eq_ℤ v (pos 0) then panic else ok (record a { array = strip a.array }))
    trimmed m v e =
        let whole = m ++ v ∷ [] in
        let size = length-concat m v in
        let last : length whole - 1 ≡ length m = omega (arith, size) in
        let rounds : length whole + 1 ≡ suc (suc (length m)) = omega (arith, size) in
        rw
          (
            filter_left_loop-strip (length a.array + 1) a.array (omega arith),
            e,
            ne→== (length whole) 0 (omega (arith, size)),
            last,
            rounds,
            filter_right_loop_lem (length m) m v,
          )
          (elim (Bool-cases (eq_ℤ v (pos 0))) [ inl z ↦ rw z | inr n ↦ rw n ])

-- The last element is there, and is zero.
abbrev pub ends_zero : List ℤ → Bool
ends_zero [] = false
ends_zero (x ∷ []) = eq_ℤ x (pos 0)
ends_zero (x ∷ y ∷ xs) = ends_zero (y ∷ xs)

ends_zero-append : (m : List ℤ) (v : ℤ) → ends_zero (m ++ v ∷ []) ≡ eq_ℤ v (pos 0)
ends_zero-append [] v = refl
ends_zero-append (x ∷ []) v = refl
ends_zero-append (x ∷ y ∷ m) v = ends_zero-append (y ∷ m) v

-- FilterEmpty of SortedIntArray drops the zeros at the left end. If the last element of what is left is
-- zero it panics, and otherwise it leaves the rest as it is, with the zeros inside.
pub filter_empty-strip :
    (a : SortedIntArray)
    → filter_empty a
      ≡ (if ends_zero (strip a.array) then panic else ok (record a { array = strip a.array }))
filter_empty-strip a = elim (snoc (strip a.array)) [
  | empty e ↦ (filter_empty-parts a).0 e ∙ rw e refl
  | last m v e n ↦ (filter_empty-parts a).1 m v e ∙ rw (e, ends_zero-append m v) refl
]
