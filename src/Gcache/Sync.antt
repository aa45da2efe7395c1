-- ===== src/Gcache/Sync.antt =====
-- utils/tools/gcache/gcache_adapter_memory.go: which items the task of each second deletes.
use go_zero_admin_pkg.Prelude.{
  ◌≡◌, refl, sym, ap, ◌∙◌, Bool, true, false, ◌||◌, List, [], ◌∷◌, if◌then◌else◌, arith, inl, inr,
  Bool-cases,
}
use go_zero_admin_pkg.Prelude.Int.{ℤ, eq_ℤ, eq_ℤ_iff, is_zero}
use go_zero_admin_pkg.Prelude.Maps.{Key, int_key, find, put, occurs, find-put}
use go_zero_admin_pkg.Gset.{insert, discard}
use go_zero_admin_pkg.Gset.Members.{occurs-insert, occurs-discard}
use go_zero_admin_pkg.Gcache.Expire.{make_expire_key, or_zero, or_new, add_to, remove_from}

pub zero_apart : (a b : ℤ) → is_zero a ≡ true → is_zero b ≡ false → eq_ℤ a b ≡ false
zero_apart a b h k = ground arith

if_or_false : (b : Bool) → ((if b then true else false) || false) ≡ b
if_or_false true = refl
if_or_false false = refl

leaves :
    (old new t : ℤ)
    → eq_ℤ new old ≡ false
    → (if eq_ℤ old t then false else (if eq_ℤ new t then true else false) || eq_ℤ old t)
      ≡ eq_ℤ new t
leaves old new t h = elim (Bool-cases (eq_ℤ old t)) [
  | inl c ↦ elim (Bool-cases (eq_ℤ new t)) [
    | inl d ↦ absurd (
        let same = (eq_ℤ_iff new old).1 ((eq_ℤ_iff new t).0 d ∙ sym ((eq_ℤ_iff old t).0 c)) in
        let bad : true ≡ false = sym same ∙ h in cc)
    | inr d ↦ rw (c, d) refl
  ]
  | inr c ↦ rw c (if_or_false (eq_ℤ new t))
]

module _ {K : Type 0} ⦃e : Key K⦄ where
  -- The second at which the key expires after the events, of the one before them.
  abbrev pub latest : K → List (K × ℤ) → ℤ → ℤ
  latest k [] old = old
  latest k ((j, t) ∷ events) old = latest k events (if e.beq j k then make_expire_key t else old)

  -- A key stands in the set of a second exactly if that second is its expire time.
  abbrev pub Indexed : List (K × ℤ) → List (ℤ × List K) → Type 0
  Indexed times sets =
      (k : K) (t : ℤ)
      → is_zero t ≡ false
      → occurs k (or_new (find t sets)) ≡ eq_ℤ (or_zero (find k times)) t

  occurs-add_to :
      (sets : List (ℤ × List K)) (t u : ℤ) (j k : K)
      → occurs k (or_new (find u (add_to sets t j)))
        ≡ ((if eq_ℤ t u then e.beq j k else false) || occurs k (or_new (find u sets)))
  unfolding add_to
  occurs-add_to sets t u j k = elim (Bool-cases (eq_ℤ t u)) [
    | inl c ↦
        rw (find-put t u (insert j (or_new (find t sets))) sets, c, (int_key.beq_iff t u).0 c)
          (occurs-insert j k (or_new (find u sets)))
    | inr c ↦ rw (find-put t u (insert j (or_new (find t sets))) sets, c) refl
  ]

  occurs-remove_from :
      (sets : List (ℤ × List K)) (t u : ℤ) (j k : K)
      → occurs k (or_new (find u (remove_from sets t j))) ≡ (
          if eq_ℤ t u
          then (if e.beq j k then false else occurs k (or_new (find u sets)))
          else occurs k (or_new (find u sets)))
  unfolding remove_from
  occurs-remove_from sets t u j k = elim (Bool-cases (eq_ℤ t u)) [
    | inl c ↦
        rw (find-put t u (discard j (or_new (find t sets))) sets, c, (int_key.beq_iff t u).0 c)
          (occurs-discard j k (or_new (find u sets)))
    | inr c ↦ rw (find-put t u (discard j (or_new (find t sets))) sets, c) refl
  ]

  -- A key whose second was `old` moves from the set of `old` to that of `new`.
  pub moved-Indexed :
      (times : List (K × ℤ)) (sets : List (ℤ × List K)) (k : K) (new : ℤ)
      → Indexed times sets
      → eq_ℤ new (or_zero (find k times)) ≡ false
      → let added = add_to sets new k in
        Indexed (put k new times) (
          if is_zero (or_zero (find k times))
          then added
          else remove_from added (or_zero (find k times)) k)
  moved-Indexed times sets k new h differ j t nz =
      let old = or_zero (find k times) in
      let was = h j t nz in
      let stored : or_zero (find j (put k new times))
          ≡ (if e.beq k j then new else or_zero (find j times)) =
        ap or_zero (find-put k j new times) ∙ ground arith in
      let add_eq = occurs-add_to sets new t k j in
      let remove_eq = occurs-remove_from (add_to sets new k) old t k j in
      elim (Bool-cases (e.beq k j)) [
        | inl c ↦
            let same = (e.beq_iff k j).0 c in
            let here : occurs j (or_new (find t sets)) ≡ eq_ℤ old t =
              ap (λ i. occurs i (or_new (find t sets))) (sym same) ∙ h k t nz in
            elim (Bool-cases (is_zero old)) [
              | inl z ↦
                  rw (z, stored, add_eq, c, here, zero_apart old t z nz) (if_or_false (eq_ℤ new t))
              | inr z ↦ rw (z, stored, remove_eq, add_eq, c, here) (leaves old new t differ)
            ]
        | inr c ↦ elim (Bool-cases (is_zero old)) [
          | inl z ↦ rw (z, stored, add_eq, c, was) (ground arith)
          | inr z ↦ rw (z, stored, remove_eq, add_eq, c, was) (ground arith)
        ]
      ]
