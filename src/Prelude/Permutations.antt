-- ===== src/Prelude/Permutations.antt =====
-- Permutations: the length, and Boolean tests of every element.
use mathlib.Core.Bool.{Bool, Bool-set}
use mathlib.Core.HLevel.{×_prop, Unit-prop}
use mathlib.Core.List.{List, [], ◌∷◌, ◌++◌, Perm, Permᴰ}
use mathlib.Core.Logic.{∥∥₁_elim}
use mathlib.Core.Path.{◌≡◌, refl, sym, ap, ◌∙◌}
use native.Mathlib.Nat.{ℕ_set}
use Prim.Native.Nat.{suc}
use go_zero_admin_pkg.Prelude.Lists.{length}

abbrev pub All {ℓ κ} : {A : Type ℓ} → (A → Type κ) → List A → Type κ
All P [] = Unit
All P (x ∷ xs) = P x × All P xs

pub All-append {ℓ κ} :
    {A : Type ℓ} (P : A → Type κ) (xs ys : List A) → All P xs → All P ys → All P (xs ++ ys)
All-append P [] ys h k = k
All-append P (x ∷ xs) ys h k = (h.0, All-append P xs ys h.1 k)

-- The same number of elements.
Permᴰ-size {ℓ} : {A : Type ℓ} {xs ys : List A} → Permᴰ xs ys → length ys ≡ length xs
Permᴰ-size (Permᴰ.trans first second) = Permᴰ-size second ∙ Permᴰ-size first
Permᴰ-size (Permᴰ.cons _ rest) = ap suc (Permᴰ-size rest)
Permᴰ-size (Permᴰ.swap _ _) = refl
Permᴰ-size Permᴰ.nil = refl

pub length-perm {ℓ} : {A : Type ℓ} {xs ys : List A} → Perm xs ys → length xs ≡ length ys
length-perm {xs} {ys} p =
    sym (∥∥₁_elim p (ℕ_set (length ys) (length xs)) (λ order. Permᴰ-size order))

module _ {A : Type 0} (f : A → Bool) (c : Bool) where
  abbrev pub Tested : List A → Type 0
  Tested = All (λ x. f x ≡ c)

  Tested-prop : (l : List A) → IsProp (Tested l)
  Tested-prop [] = Unit-prop
  Tested-prop (x ∷ l) = ×_prop (Bool-set (f x) c) (Tested-prop l)

  Permᴰ-Tested : {a b : List A} → Permᴰ a b → Tested a → Tested b
  Permᴰ-Tested Permᴰ.nil h = h
  Permᴰ-Tested (Permᴰ.cons e p) h = (ap f (sym e) ∙ h.0, Permᴰ-Tested p h.1)
  Permᴰ-Tested (Permᴰ.swap e d) h = (ap f (sym d) ∙ h.1.0, (ap f (sym e) ∙ h.0, h.1.1))
  Permᴰ-Tested (Permᴰ.trans p q) h = Permᴰ-Tested q (Permᴰ-Tested p h)

  pub perm-Tested : {a b : List A} → Perm a b → Tested a → Tested b
  perm-Tested {b} p h = ∥∥₁_elim p (Tested-prop b) (λ d. Permᴰ-Tested d h)
