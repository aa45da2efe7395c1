-- ===== src/Prelude/Maps/Loops.antt =====
-- The loops over a second map or over keys, and what they come to.
use mathlib.Core.Path.{◌≡◌, refl, sym, ap, ◌∙◌, subst}
use mathlib.Core.Logic.{inl, inr}
use mathlib.Core.Bool.{true, false}
use mathlib.Core.Option.{none}
use mathlib.Core.List.{List, [], ◌∷◌, ◌++◌, append-nil}
use native.Mathlib.Omega.{arith}
use go_zero_admin_pkg.Prelude.Tests.{if◌then◌else◌, Bool-cases}
use go_zero_admin_pkg.Prelude.Lists.{append-cons}
use go_zero_admin_pkg.Prelude.Maps.{
  Key, beq_refl, beq_sym, is_some, occurs, find, put, delete, Distinct, put-Distinct,
}

module _ {K V : Type 0} ⦃e : Key K⦄ where
  abbrev pub put_all : List (K × V) → List (K × V) → List (K × V)
  put_all [] made = made
  put_all ((k, v) ∷ m) made = put_all m (put k v made)

  abbrev pub delete_all : List K → List (K × V) → List (K × V)
  delete_all [] m = m
  delete_all (k ∷ ks) m = delete_all ks (delete k m)

  pub put-absent :
      (k : K) (v : V) (m : List (K × V)) → find k m ≡ none → put k v m ≡ m ++ (k, v) ∷ []
  put-absent k v [] h = refl
  put-absent k v ((j, w) ∷ m) h = elim (Bool-cases (e.beq j k)) [
    | inl c ↦ absurd (ground arith)
    | inr c ↦ rw c (ap (◌∷◌ (j, w)) (put-absent k v m (rw c at h)))
  ]

  find-middle :
      (k : K) (v : V) (made m : List (K × V)) → is_some (find k (made ++ (k, v) ∷ m)) ≡ true
  find-middle k v [] m = rw (beq_refl k) refl
  find-middle k v ((j, w) ∷ made) m = ground (arith, find-middle k v made m)

  absent_before :
      (k : K) (v : V) (made m : List (K × V)) → Distinct (made ++ (k, v) ∷ m) → find k made ≡ none
  absent_before k v [] m d = refl
  absent_before k v ((j, w) ∷ made) m d = elim (Bool-cases (e.beq j k)) [
    | inl c ↦ absurd (
        let there = find-middle k v made m in
        let gone = ap (λ i. find i (made ++ (k, v) ∷ m)) (sym ((e.beq_iff j k).0 c)) ∙ d.0 in
        let bad : true ≡ false = sym there ∙ ap is_some gone in cc)
    | inr c ↦ rw c (absent_before k v made m d.1)
  ]

  -- Entries with new keys are appended.
  pub put_all-append : (m made : List (K × V)) → Distinct (made ++ m) → put_all m made ≡ made ++ m
  put_all-append [] made d = sym (append-nil made)
  put_all-append ((k, v) ∷ m) made d =
      ap (put_all m) (put-absent k v made (absent_before k v made m d))
      ∙ put_all-append m (made ++ (k, v) ∷ []) (subst Distinct (sym (append-cons made m (k, v))) d)
      ∙ append-cons made m (k, v)

  pub put_all-Distinct : (new m : List (K × V)) → Distinct m → Distinct (put_all new m)
  put_all-Distinct [] m d = d
  put_all-Distinct ((k, v) ∷ new) m d = put_all-Distinct new (put k v m) (put-Distinct k v m d)

  -- The entries whose key is none of `ks`.
  abbrev pub other_keys : List K → List (K × V) → List (K × V)
  other_keys ks [] = []
  other_keys ks ((j, v) ∷ m) = if occurs j ks then other_keys ks m else (j, v) ∷ other_keys ks m

  other_keys-cons :
      (k : K) (ks : List K) (m : List (K × V)) → other_keys ks (delete k m) ≡ other_keys (k ∷ ks) m
  other_keys-cons k ks [] = refl
  other_keys-cons k ks ((j, v) ∷ m) = ground (arith, other_keys-cons k ks m, beq_sym j k)

  other_keys-none : (m : List (K × V)) → other_keys [] m ≡ m
  other_keys-none [] = refl
  other_keys-none ((j, v) ∷ m) = ap (◌∷◌ (j, v)) (other_keys-none m)

  pub delete_all-other_keys : (ks : List K) (m : List (K × V)) → delete_all ks m ≡ other_keys ks m
  delete_all-other_keys [] m = sym (other_keys-none m)
  delete_all-other_keys (k ∷ ks) m = delete_all-other_keys ks (delete k m) ∙ other_keys-cons k ks m
