-- ===== src/Garray/Element.antt =====
-- What the arrays need of an element type: Go's zero value and `==`.
use go_zero_admin_pkg.Prelude.{◌≡◌, ap, ◌↔◌, Bool, true, ==_iff, arith}
use go_zero_admin_pkg.Prelude.Int.{ℤ, pos, negsuc, eq_ℤ}

pub record Element (A : Type 0) : Type 0 where
  pub zero_value : A
  pub beq : A → A → Bool
  pub beq_iff : (a b : A) → (beq a b ≡ true) ↔ (a ≡ b)

pub eq_ℤ_iff : (a b : ℤ) → (eq_ℤ a b ≡ true) ↔ (a ≡ b)
eq_ℤ_iff (pos a) (pos b) = (λ h. ap pos ((==_iff a b).0 h), λ h. ground arith)
eq_ℤ_iff (negsuc a) (negsuc b) = (λ h. ap negsuc ((==_iff a b).0 h), λ h. ground arith)
eq_ℤ_iff (pos a) (negsuc b) = (λ h. absurd (cc), λ h. absurd (cc))
eq_ℤ_iff (negsuc a) (pos b) = (λ h. absurd (cc), λ h. absurd (cc))

-- `int`
instance abbrev pub int_element : Element ℤ
int_element = record { zero_value = pos 0; beq = eq_ℤ; beq_iff = eq_ℤ_iff }
