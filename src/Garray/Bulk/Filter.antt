-- ===== src/Garray/Bulk/Filter.antt =====
-- Filter, FilterEmpty and Walk of IntArray: the loops over a shrinking slice.
use go_zero_admin_pkg.Prelude.{
  ℕ, zero, suc, ◌+◌, ◌<◌, ◌≡◌, refl, sym, ap, Bool, List, [], ◌∷◌, ◌++◌, arith, map, length, inl,
  inr, Bool-cases, if◌then◌else◌, lt→ltb, le→ltb, length-append, length-concat, take-length_append,
  get_or-length_append, drop-suc_append, set-length_append, append-cons,
}
use go_zero_admin_pkg.Prelude.Run.{ok, load-ok, store-ok, slice_front, slice_rear}
use go_zero_admin_pkg.Garray.Element.{Element}
use go_zero_admin_pkg.Garray.Normal.{Array}
use go_zero_admin_pkg.Garray.Bulk.{filter_loop, filter, filter_empty, walk_loop, walk}

-- The elements that stay, where `f` is asked with the number of elements kept before.
abbrev pub kept {ℓ} : {A : Type ℓ} → ℕ → (ℕ → A → Bool) → List A → List A
kept i f [] = []
kept i f (x ∷ xs) = if f i x then kept i f xs else x ∷ kept (suc i) f xs

module _ {A : Type 0} ⦃e : Element A⦄ where
  filter_loop_lem :
      (k : ℕ) (f : ℕ → A → Bool) (pre rest : List A) (i : ℕ)
      → i ≡ length pre
      → length rest < k
      → filter_loop k i f (pre ++ rest) ≡ ok (pre ++ kept i f rest)
  unfolding filter_loop
  filter_loop_lem zero f pre rest i at h = absurd (omega arith)
  filter_loop_lem (suc k) f pre [] i at h =
      rw (le→ltb (length (pre ++ [])) i (omega (arith, length-append pre []))) refl
  filter_loop_lem (suc k) f pre (x ∷ rest) i at h =
      let whole = pre ++ x ∷ rest in
      let size = length-append pre (x ∷ rest) in
      rw
        (
          lt→ltb i (length whole) (omega (arith, size)),
          load-ok whole i e.zero_value (omega (arith, size)),
          at,
          get_or-length_append pre rest x e.zero_value,
        )
        (elim (Bool-cases (f (length pre) x)) [
          | inl goes ↦
              rw
                (
                  goes,
                  slice_front whole (length pre) (omega (arith, size)),
                  slice_rear whole (suc (length pre)) (omega (arith, size)),
                  take-length_append pre (x ∷ rest),
                  drop-suc_append pre rest x,
                )
                (filter_loop_lem k f pre rest (length pre) refl (omega arith))
          | inr stays ↦
              rw
                (
                  stays,
                  ← append-cons pre rest x,
                  ← append-cons pre (kept (suc (length pre)) f rest) x,
                )
                (filter_loop_lem k f (pre ++ x ∷ []) rest (suc (length pre))
                  (sym (length-concat pre x)) (omega arith))
        ])

  -- Filter never panics; it keeps, in order, the elements that the callback does not select, where the
  -- callback is given the number of elements kept so far as the index.
  pub filter_lem :
      (a : Array A) (f : ℕ → A → Bool) → filter a f ≡ ok (record a { array = kept 0 f a.array })
  unfolding filter
  filter_lem a f = rw (filter_loop_lem (length a.array + 1) f [] a.array 0 refl (omega arith))

  abbrev pub nonzero : List A → List A
  nonzero [] = []
  nonzero (x ∷ xs) = if e.beq x e.zero_value then nonzero xs else x ∷ nonzero xs

  kept-nonzero : (i : ℕ) (xs : List A) → kept i (λ j v. e.beq v e.zero_value) xs ≡ nonzero xs
  kept-nonzero i [] = refl
  kept-nonzero i (x ∷ xs) = elim (Bool-cases (e.beq x e.zero_value)) [
    | inl goes ↦ rw goes (kept-nonzero i xs)
    | inr stays ↦ rw stays (ap (◌∷◌ x) (kept-nonzero (suc i) xs))
  ]

  -- FilterEmpty never panics, and drops exactly the zero values.
  pub filter_empty_lem : (a : Array A) → filter_empty a ≡ ok (record a { array = nonzero a.array })
  unfolding filter_empty
  filter_empty_lem a = rw (
    filter_loop_lem (length a.array + 1) (λ j v. e.beq v e.zero_value) [] a.array 0 refl
        (omega arith),
    kept-nonzero 0 a.array,
  )

  pub walk_loop_lem :
      (f : A → A) (pre rest : List A) (i : ℕ)
      → i ≡ length pre
      → walk_loop (length rest) i f (pre ++ rest) ≡ ok (pre ++ map f rest)
  unfolding walk_loop
  walk_loop_lem f pre [] i at = refl
  walk_loop_lem f pre (x ∷ rest) i at =
      let whole = pre ++ x ∷ rest in
      let size = length-append pre (x ∷ rest) in
      rw
        (
          load-ok whole i e.zero_value (omega (arith, size)),
          at,
          get_or-length_append pre rest x e.zero_value,
          store-ok whole (length pre) (f x) (omega (arith, size)),
          set-length_append pre rest x (f x),
          ← append-cons pre rest (f x),
          ← append-cons pre (map f rest) (f x),
        )
        (walk_loop_lem f (pre ++ f x ∷ []) rest (suc (length pre)) (sym (length-concat pre (f x))))

  -- Walk never panics, and replaces every element by its image.
  pub walk_lem : (a : Array A) (f : A → A) → walk a f ≡ ok (record a { array = map f a.array })
  unfolding walk
  walk_lem a f = rw (walk_loop_lem f [] a.array 0 refl)
