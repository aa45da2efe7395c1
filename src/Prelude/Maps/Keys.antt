-- ===== src/Prelude/Maps/Keys.antt =====
-- Equality of numbers, of optional values and of sequences.
use Prim.Native.Nat.{ℕ}
use mathlib.Core.Path.{◌≡◌, refl, ap}
use mathlib.Core.Logic.{◌↔◌}
use mathlib.Core.Bool.{Bool, true, false}
use mathlib.Core.Option.{Option, none, some, some-injective}
use mathlib.Core.List.{List, [], ◌∷◌}
use native.Mathlib.Omega.{arith}
use go_zero_admin_pkg.Prelude.Tests.{if◌then◌else◌, ◌==◌}
use go_zero_admin_pkg.Prelude.Maps.{Key}

pub beq_ℕ_iff : (a b : ℕ) → ((a == b) ≡ true) ↔ (a ≡ b)
beq_ℕ_iff a b = ground arith

instance abbrev pub nat_key : Key ℕ
nat_key = record { beq = λ a b. a == b; beq_iff = beq_ℕ_iff }

module _ {A : Type 0} ⦃e : Key A⦄ where
  abbrev pub beq_option : Option A → Option A → Bool
  beq_option none none = true
  beq_option (some a) (some b) = e.beq a b
  beq_option _ _ = false

  pub beq_option_iff : (a b : Option A) → (beq_option a b ≡ true) ↔ (a ≡ b)
  beq_option_iff none none = (λ h. refl, λ h. refl)
  beq_option_iff none (some b) = (λ h. absurd (cc), λ h. absurd (cc))
  beq_option_iff (some a) none = (λ h. absurd (cc), λ h. absurd (cc))
  beq_option_iff (some a) (some b) =
      (λ h. ap some ((e.beq_iff a b).0 h), λ h. (e.beq_iff a b).1 (some-injective a b h))

  abbrev pub beq_list : List A → List A → Bool
  beq_list [] [] = true
  beq_list (a ∷ l) (b ∷ r) = if e.beq a b then beq_list l r else false
  beq_list _ _ = false

  pub beq_list_iff : (a b : List A) → (beq_list a b ≡ true) ↔ (a ≡ b)
  beq_list_iff [] [] = (λ h. refl, λ h. refl)
  beq_list_iff [] (b ∷ r) = (λ h. absurd (cc), λ h. absurd (cc))
  beq_list_iff (a ∷ l) [] = (λ h. absurd (cc), λ h. absurd (cc))
  beq_list_iff (a ∷ l) (b ∷ r) = ground (arith, e.beq_iff a b, beq_list_iff l r)

instance abbrev pub option_key : {A : Type 0} ⦃e : Key A⦄ → Key (Option A)
option_key = record { beq = beq_option; beq_iff = beq_option_iff }

instance abbrev pub list_key : {A : Type 0} ⦃e : Key A⦄ → Key (List A)
list_key = record { beq = beq_list; beq_iff = beq_list_iff }
