-- ===== src/Gcache/Covers.antt =====
-- utils/tools/gcache: the keys of the items against those of the LRU manager.
use go_zero_admin_pkg.Prelude.{
  ℕ, suc, ◌≤◌, ◌≡◌, refl, sym, ap, ◌∙◌, true, false, ◌||◌, Option, none, some, List, [], ◌∷◌,
  length, take, drop, take-append-drop, if◌then◌else◌, arith, inl, inr, Bool-cases,
}
use go_zero_admin_pkg.Prelude.Maps.{
  Key, find, delete, has_key, Distinct, occurs, occurs-append, beq_refl, find-delete,
  delete-Distinct,
}
use go_zero_admin_pkg.Gcache.Lru.Keyed.{erase}
use go_zero_admin_pkg.Gcache.Lru.Spec.{save_keys, erase_keys}
use go_zero_admin_pkg.Gcache.Data.{MemoryDataItem, remove_loop, remove_found}

module _ {K : Type 0} ⦃e : Key K⦄ where
  occurs-erase : (k j : K) (xs : List K) → e.beq k j ≡ false → occurs j (erase k xs) ≡ occurs j xs
  occurs-erase k j [] h = refl
  occurs-erase k j (x ∷ xs) h =
      ground (arith, e.beq_iff x k, e.beq_iff x j, e.beq_iff k j, occurs-erase k j xs h)

  -- A key that is used or was there is still there afterwards, or is among the evicted ones.
  pub save_keys-occurs :
      (n : ℕ) (j : K) (ks keys : List K)
      → (occurs j keys || occurs j ks) ≡ true
      → (occurs j (save_keys n ks keys).0 || occurs j (save_keys n ks keys).1) ≡ true
  save_keys-occurs n j ks [] h = ground arith
  save_keys-occurs n j ks (k ∷ keys) h =
      let all = k ∷ erase k ks in
      let rest = save_keys n (take n all) keys in
      let split : occurs j all ≡ (occurs j (take n all) || occurs j (drop n all)) =
        ap (occurs j) (sym (take-append-drop n all)) ∙ occurs-append j (take n all) (drop n all) in
      let out = occurs-append j (drop n all) rest.1 in
      let later = save_keys-occurs n j (take n all) keys in
      elim (Bool-cases (occurs j (drop n all))) [
        | inl c ↦ rw (out, c) (ground arith)
        | inr c ↦
            let going : (occurs j keys || occurs j (take n all)) ≡ true =
              elim (Bool-cases (e.beq k j)) [
                | inl b ↦ ground arith
                | inr b ↦ let same = occurs-erase k j ks b in ground arith
              ] in
            rw (out, c) (later going)
      ]

  pub erase_keys-occurs :
      (j : K) (ks keys : List K)
      → occurs j keys ≡ false
      → occurs j (erase_keys ks keys) ≡ occurs j ks
  erase_keys-occurs j ks [] h = refl
  erase_keys-occurs j ks (k ∷ keys) h = elim (Bool-cases (e.beq k j)) [
    | inl c ↦ absurd (ground arith)
    | inr c ↦ erase_keys-occurs j (erase k ks) keys (ground arith) ∙ occurs-erase k j ks c
  ]

  length-erase : (k : K) (xs : List K) → occurs k xs ≡ true → length xs ≡ suc (length (erase k xs))
  length-erase k [] h = absurd (cc)
  length-erase k (x ∷ xs) h = ground (arith, length-erase k xs)

module _ {K V : Type 0} ⦃e : Key K⦄ where
  -- A map whose keys all occur in a list is no longer than the list.
  pub length-covered :
      (m : List (K × V)) (ks : List K)
      → Distinct m
      → ((k : K) → has_key k m ≡ true → occurs k ks ≡ true)
      → length m ≤ length ks
  length-covered [] ks d h = omega arith
  length-covered ((j, v) ∷ m) ks d h =
      let here : occurs j ks ≡ true = h j (rw (beq_refl j) refl) in
      let rest = length-covered m (erase j ks) d.1 (λ k there. elim (Bool-cases (e.beq j k)) [
        | inl c ↦ let out = d.0 in let same = (e.beq_iff j k).0 c in absurd (ground arith)
        | inr c ↦ occurs-erase j k ks c ∙ h k (rw c there)
      ]) in
      omega (arith, rest, length-erase j ks here)

module _ {K V : Type 0} ⦃e : Key K⦄ where
  find-remove_found :
      (m : List (K × MemoryDataItem V)) (k j : K) (ks : List K) (o : Option (MemoryDataItem V))
      (kept : List (K × MemoryDataItem V) × (List K × Option V))
      (gone : Option V → List (K × MemoryDataItem V) × (List K × Option V))
      → find k m ≡ o
      → find j kept.0 ≡ (if occurs j ks then none else find j m)
      → ((w : Option V) → find j (gone w).0 ≡ (if occurs j ks then none else find j (delete k m)))
      → find j (remove_found k o kept gone).0 ≡ (if occurs j (k ∷ ks) then none else find j m)
  find-remove_found m k j ks none kept gone q h1 h2 = h1 ∙ ground (arith, e.beq_iff k j)
  find-remove_found m k j ks (some item) kept gone q h1 h2 =
      h2 item.v ∙ rw (find-delete k j m) (ground arith)

  pub find-remove_loop :
      (m : List (K × MemoryDataItem V)) (ks : List K) (v : Option V) (j : K)
      → find j (remove_loop m ks v).0 ≡ (if occurs j ks then none else find j m)
  unfolding remove_loop
  find-remove_loop m [] v j = refl
  find-remove_loop m (k ∷ ks) v j =
      find-remove_found m k j ks (find k m) (remove_loop m ks v)
        (λ w. remove_loop (delete k m) ks w) refl (find-remove_loop m ks v j)
        (λ w. find-remove_loop (delete k m) ks w j)

  remove_found-Distinct :
      (k : K) (o : Option (MemoryDataItem V))
      (kept : List (K × MemoryDataItem V) × (List K × Option V))
      (gone : Option V → List (K × MemoryDataItem V) × (List K × Option V))
      → Distinct kept.0
      → ((w : Option V) → Distinct (gone w).0)
      → Distinct (remove_found k o kept gone).0
  remove_found-Distinct k none kept gone h1 h2 = h1
  remove_found-Distinct k (some item) kept gone h1 h2 = h2 item.v

  pub remove_loop-Distinct :
      (m : List (K × MemoryDataItem V)) (ks : List K) (v : Option V)
      → Distinct m
      → Distinct (remove_loop m ks v).0
  unfolding remove_loop
  remove_loop-Distinct m [] v d = d
  remove_loop-Distinct m (k ∷ ks) v d =
      remove_found-Distinct k (find k m) (remove_loop m ks v) (λ w. remove_loop (delete k m) ks w)
        (remove_loop-Distinct m ks v d)
        (λ w. remove_loop-Distinct (delete k m) ks w (delete-Distinct k m d))
