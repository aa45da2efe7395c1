-- ===== src/Gerror/Equals.antt =====
-- utils/tools/gerror: Equal of two *Error values that are not one pointer.
use go_zero_admin_pkg.Prelude.{
  ℕ, ◌≡◌, refl, sym, ap, true, false, Option, some, List, [], ◌∷◌, ◌++◌, length, length-append,
  arith, Bool-cases, inl, inr,
}
use go_zero_admin_pkg.Prelude.Run.{ok}
use go_zero_admin_pkg.Prelude.Maps.Keys.{nat_key, beq_list, beq_list_iff}
use go_zero_admin_pkg.Gcode.{Codes}
use go_zero_admin_pkg.Gerror.{
  Text, AnyError, nil, error, is_nil, is_empty, same_code, code, error_text, equal_error, equal,
}
use go_zero_admin_pkg.Gerror.Chains.{same_code_refl, same_code_iff, worded}

longer : (t u : Text) → beq_list t (t ++ 58 ∷ 32 ∷ u) ≡ false
longer t u = elim (Bool-cases (beq_list t (t ++ 58 ∷ 32 ∷ u))) [
  | inr k ↦ k
  | inl k ↦
      let same = ap length ((beq_list_iff t (t ++ 58 ∷ 32 ∷ u)).0 k) in
      absurd (omega (arith, length-append t (58 ∷ 32 ∷ u)))
]

module _ {C : Type 0} ⦃e : Codes C⦄ where
  single_code : (s : List ℕ) (t : Text) (c : Option C) → code (error nil s t c) ≡ c
  unfolding code
  single_code s t c = elim (Bool-cases (same_code c (some e.code_nil))) [
    | inl k ↦ rw k (sym (same_code_iff c (some e.code_nil) k))
    | inr k ↦ rw k refl
  ]

  single_text :
      (s : List ℕ) (t : Text) (c : Option C) → is_empty t ≡ false → error_text (error nil s t c) ≡ t
  unfolding error_text
  single_text s [] c w = absurd (cc)
  single_text s (b ∷ t) c w = refl

  -- Two errors with one code and one text that is not empty are Equal when neither wraps an error, and never
  -- when both wrap the same error, since the text of the second is then taken with that of the wrapped error.
  pub equal-error :
      (inner : AnyError C) (s r : List ℕ) (t : Text) (c : Option C)
      → is_nil inner ≡ false
      → is_empty t ≡ false
      → (equal false (error nil s t c) (error nil r t c) ≡ ok true)
        × (equal false (error inner s t c) (error inner r t c) ≡ ok false)
  unfolding equal equal_error
  equal-error inner s r t c n w = (
    rw (single_code r t c, same_code_refl c, single_text r t c w)
        (ap ok ((beq_list_iff t t).1 refl)),
    elim (Bool-cases (same_code c (code (error inner r t c)))) [
      | inr k ↦ rw k refl
      | inl k ↦ rw (k, worded inner r t c n w) (ap ok (longer t (error_text inner)))
    ],
  )
