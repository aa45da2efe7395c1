-- ===== src/Prelude/Maps.antt =====
-- Go's maps as association lists, and equality of keys. The order of the entries stands for the order
-- in which Go happens to range over the map.
pub mod Loops
pub mod Keys
use Prim.Native.Nat.{ℕ, suc}
use mathlib.Core.Path.{◌≡◌, refl, sym, ap, ◌∙◌, subst}
use mathlib.Core.Logic.{◌↔◌, inl, inr}
use mathlib.Core.Bool.{Bool, true, false, ◌||◌}
use mathlib.Core.Option.{Option, none, some, some-injective}
use mathlib.Core.List.{List, [], ◌∷◌, ◌++◌, append-nil}
use native.Mathlib.Omega.{arith}
use go_zero_admin_pkg.Prelude.Tests.{if◌then◌else◌, Bool-cases, ◌==◌}
use go_zero_admin_pkg.Prelude.Int.{ℤ, eq_ℤ, eq_ℤ_iff}
use go_zero_admin_pkg.Prelude.Lists.{length, append-cons}

pub record Key (K : Type 0) : Type 0 where
  pub beq : K → K → Bool
  pub beq_iff : (a b : K) → (beq a b ≡ true) ↔ (a ≡ b)

instance abbrev pub int_key : Key ℤ
int_key = record { beq = eq_ℤ; beq_iff = eq_ℤ_iff }

abbrev pub is_some : {A : Type 0} → Option A → Bool
is_some none = false
is_some (some a) = true

module _ {K : Type 0} ⦃e : Key K⦄ where
  abbrev pub occurs : K → List K → Bool
  occurs k [] = false
  occurs k (x ∷ xs) = if e.beq x k then true else occurs k xs

  pub occurs-append : (k : K) (xs ys : List K) → occurs k (xs ++ ys) ≡ (occurs k xs || occurs k ys)
  occurs-append k [] ys = refl
  occurs-append k (x ∷ xs) ys = ground (arith, occurs-append k xs ys)

  pub beq_refl : (a : K) → e.beq a a ≡ true
  beq_refl a = (e.beq_iff a a).1 refl

  pub beq_sym : (a b : K) → e.beq a b ≡ e.beq b a
  beq_sym a b = elim (Bool-cases (e.beq a b)) [
    | inl h ↦ h ∙ sym ((e.beq_iff b a).1 (sym ((e.beq_iff a b).0 h)))
    | inr h ↦ elim (Bool-cases (e.beq b a)) [
      | inl k ↦
          let back = (e.beq_iff a b).1 (sym ((e.beq_iff b a).0 k)) in
          absurd (let bad : true ≡ false = sym back ∙ h in cc)
      | inr k ↦ h ∙ sym k
    ]
  ]

module _ {K V : Type 0} ⦃e : Key K⦄ where
  -- `v, ok := m[k]`
  abbrev pub find : K → List (K × V) → Option V
  find k [] = none
  find k ((j, v) ∷ m) = if e.beq j k then some v else find k m

  -- `m[k] = v`
  abbrev pub put : K → V → List (K × V) → List (K × V)
  put k v [] = (k, v) ∷ []
  put k v ((j, w) ∷ m) = if e.beq j k then (j, v) ∷ m else (j, w) ∷ put k v m

  -- `delete(m, k)`
  abbrev pub delete : K → List (K × V) → List (K × V)
  delete k [] = []
  delete k ((j, v) ∷ m) = if e.beq j k then delete k m else (j, v) ∷ delete k m

  abbrev pub has_key : K → List (K × V) → Bool
  has_key k m = is_some (find k m)

  -- No key stands twice.
  abbrev pub Distinct : List (K × V) → Type 0
  Distinct [] = Unit {0}
  Distinct ((j, v) ∷ m) = (find j m ≡ none) × Distinct m

  same_key : (a b : K) (m : List (K × V)) → e.beq a b ≡ true → find a m ≡ find b m
  same_key a b m h = ap (λ k. find k m) ((e.beq_iff a b).0 h)

  pub find-put :
      (k j : K) (v : V) (m : List (K × V))
      → find j (put k v m) ≡ (if e.beq k j then some v else find j m)
  find-put k j v [] = refl
  find-put k j v ((i, w) ∷ m) =
      ground (arith, e.beq_iff k j, e.beq_iff i k, e.beq_iff i j, find-put k j v m)

  pub find-delete :
      (k j : K) (m : List (K × V)) → find j (delete k m) ≡ (if e.beq k j then none else find j m)
  find-delete k j [] = ground arith
  find-delete k j ((i, w) ∷ m) =
      ground (arith, e.beq_iff k j, e.beq_iff i k, e.beq_iff i j, find-delete k j m)

  pub put-Distinct : (k : K) (v : V) (m : List (K × V)) → Distinct m → Distinct (put k v m)
  put-Distinct k v [] d = (refl, tt)
  put-Distinct k v ((i, w) ∷ m) d = elim (Bool-cases (e.beq i k)) [
    | inl h ↦ rw h d
    | inr h ↦ rw h (ground (arith, find-put k i v m, beq_sym i k), put-Distinct k v m d.1)
  ]

  pub delete-Distinct : (k : K) (m : List (K × V)) → Distinct m → Distinct (delete k m)
  delete-Distinct k [] d = tt
  delete-Distinct k ((i, w) ∷ m) d = elim (Bool-cases (e.beq i k)) [
    | inl h ↦ rw h (delete-Distinct k m d.1)
    | inr h ↦ rw h (ground (arith, find-delete k i m), delete-Distinct k m d.1)
  ]

  pub delete_absent : (k : K) (m : List (K × V)) → find k m ≡ none → delete k m ≡ m
  delete_absent k [] h = refl
  delete_absent k ((i, w) ∷ m) h = ground (arith, delete_absent k m)

  pub length-put :
      (k : K) (v : V) (m : List (K × V))
      → length (put k v m) ≡ (if has_key k m then length m else suc (length m))
  length-put k v [] = refl
  length-put k v ((i, w) ∷ m) = ground (arith, length-put k v m)

  pub length-delete :
      (k : K) (m : List (K × V))
      → Distinct m
      → length m ≡ (if has_key k m then suc (length (delete k m)) else length (delete k m))
  length-delete k [] d = refl
  length-delete k ((i, w) ∷ m) d =
      ground (arith, length-delete k m, same_key i k m, delete_absent k m)

module _ {K A B : Type 0} ⦃e : Key K⦄ where
  -- Two maps of one size that both have a key, or both do not, keep one size.
  pub length-put_both :
      (k : K) (a : A) (b : B) (m : List (K × A)) (n : List (K × B))
      → length m ≡ length n
      → has_key k n ≡ has_key k m
      → length (put k a m) ≡ length (put k b n)
  length-put_both k a b m n h i = length-put k a m ∙ rw (i, h) refl ∙ sym (length-put k b n)

  -- Deleting a key that both have, or both lack.
  pub length-delete_both :
      (k : K) (m : List (K × A)) (n : List (K × B))
      → Distinct m
      → Distinct n
      → length m ≡ length n
      → has_key k n ≡ has_key k m
      → length (delete k m) ≡ length (delete k n)
  length-delete_both k m n d u h i =
      let a = length-delete k m d in let b = length-delete k n u in ground arith
