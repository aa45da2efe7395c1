-- ===== src/Gcode.antt =====
-- utils/tools/gcode/gcode.go and gcode_local.go: error codes. A text is its bytes; `detail` is any type with an
-- equality, and `none` where the source has nil.
use go_zero_admin_pkg.Prelude.{
  ℕ, ◌≡◌, ◌↔◌, Bool, true, false, ◌∷◌, Option, none, List, [], arith, ap, if◌then◌else◌, refl,
}
use go_zero_admin_pkg.Prelude.Int.{ℤ, pos, negsuc, eq_ℤ, eq_ℤ_iff}
use go_zero_admin_pkg.Prelude.Maps.{Key}
use go_zero_admin_pkg.Prelude.Maps.Keys.{
  option_key, list_key, nat_key, beq_option, beq_option_iff, beq_list, beq_list_iff,
}

pub record LocalCode (D : Type 0) : Type 0 where
  pub code : ℤ
  pub message : List ℕ
  pub detail : Option D

-- What the errors use of the interface Code: equality of codes, CodeNil, CodeInternalPanic and Message.
pub record Codes (C : Type 0) : Type 0 where
  pub beq : C → C → Bool
  pub beq_iff : (a b : C) → (beq a b ≡ true) ↔ (a ≡ b)
  pub code_nil : C
  pub code_internal_panic : C
  pub message : C → List ℕ
  pub panic_apart : beq code_internal_panic code_nil ≡ false

module _ {D : Type 0} where
  unfoldable pub new : ℤ → List ℕ → Option D → LocalCode D
  new code message detail = record { code = code; message = message; detail = detail }

  unfoldable pub with_code : LocalCode D → Option D → LocalCode D
  with_code code detail = record { code = code.code; message = code.message; detail = detail }

  abbrev pub code_nil : LocalCode D
  code_nil = record { code = negsuc 0; message = []; detail = none }

  -- "Internal Panic"
  abbrev pub code_internal_panic : LocalCode D
  code_internal_panic = record {
    code = pos 68;
    message = 73 ∷ 110 ∷ 116 ∷ 101 ∷ 114 ∷ 110 ∷ 97 ∷ 108 ∷ 32 ∷ 80 ∷ 97 ∷ 110 ∷ 105 ∷ 99 ∷ [];
    detail = none;
  }

module _ {D : Type 0} ⦃e : Key D⦄ where
  -- `==` of two codes compares their fields in order.
  abbrev pub same_code : LocalCode D → LocalCode D → Bool
  same_code a b =
      if eq_ℤ a.code b.code
      then if beq_list a.message b.message then beq_option a.detail b.detail else false
      else false

  fields :
      (a b : LocalCode D)
      → (a.code ≡ b.code) × (a.message ≡ b.message) × (a.detail ≡ b.detail)
      → a ≡ b
  fields a b h = λ i. record { code = h.0 i; message = h.1 i; detail = h.2 i }

  pub same_code_iff : (a b : LocalCode D) → (same_code a b ≡ true) ↔ (a ≡ b)
  same_code_iff a b =
      let c = eq_ℤ_iff a.code b.code in
      let m = beq_list_iff a.message b.message in
      let d = beq_option_iff a.detail b.detail in
      (
        λ h. fields a b (ground arith),
        λ h.
            rw (c.1 (ap (λ x. x.code) h), m.1 (ap (λ x. x.message) h), d.1 (ap (λ x. x.detail) h))
              refl,
      )

  instance abbrev pub local_codes : Codes (LocalCode D)
  local_codes = record {
    beq = same_code;
    beq_iff = same_code_iff;
    code_nil = code_nil;
    code_internal_panic = code_internal_panic;
    message = λ c. c.message;
    panic_apart = refl;
  }
