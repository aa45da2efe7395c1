-- ===== src/Gmap/Compared.antt =====
-- utils/tools/gmap/gmap_hash_int_int_map.go: the methods that compare two maps.
use go_zero_admin_pkg.Prelude.{
  ◌≡◌, refl, sym, ap, ◌∙◌, Bool, true, false, not, ◌&&◌, Option, none, some, List, [], ◌∷◌,
  if◌then◌else◌, arith, inl, inr, Bool-cases, ◌↔◌,
}
use go_zero_admin_pkg.Prelude.Int.{ℤ, eq_ℤ, eq_ℤ_iff}
use go_zero_admin_pkg.Prelude.Maps.{int_key, is_some, find, has_key, Distinct, occurs, beq_refl}
use go_zero_admin_pkg.Gmap.{IntIntMap, has_value, is_sub_loop, is_sub_of, missing, updated, diff}

-- Whether two lookups give different values.
abbrev pub differ : Option ℤ → Option ℤ → Bool
differ (some v) (some w) = not (eq_ℤ w v)
differ _ _ = false

occurs-missing :
    (m other : List (ℤ × ℤ)) (j : ℤ)
    → occurs j (missing m other) ≡ (has_key j m && not (has_key j other))
occurs-missing [] other j = refl
occurs-missing ((k, v) ∷ m) other j = elim (Bool-cases (eq_ℤ k j)) [
  | inl c ↦
      let same = (eq_ℤ_iff k j).0 c in
      let rest = occurs-missing m other j in
      let here : has_key k other ≡ has_key j other = ap (λ i. has_key i other) same in ground arith
  | inr c ↦ let rest = occurs-missing m other j in ground arith
]

updated_here :
    (k v j : ℤ) (o : Option ℤ) (ks : List ℤ)
    → eq_ℤ k j ≡ true
    → occurs j ks ≡ false
    → occurs j (if is_some o && not (has_value o v) then k ∷ ks else ks) ≡ differ (some v) o
updated_here k v j none ks c h = h
updated_here k v j (some w) ks c h = elim (Bool-cases (eq_ℤ w v)) [
  | inl x ↦ rw (x, h) refl
  | inr x ↦ rw (x, c) refl
]

updated_elsewhere :
    (k j : ℤ) (b : Bool) (ks : List ℤ)
    → eq_ℤ k j ≡ false
    → occurs j (if b then k ∷ ks else ks) ≡ occurs j ks
updated_elsewhere k j true ks c = rw c refl
updated_elsewhere k j false ks c = refl

occurs-updated :
    (m other : List (ℤ × ℤ)) (j : ℤ)
    → Distinct m
    → occurs j (updated m other) ≡ differ (find j m) (find j other)
occurs-updated [] other j d = ground arith
occurs-updated ((k, v) ∷ m) other j d = elim (Bool-cases (eq_ℤ k j)) [
  | inl c ↦
      let same = (eq_ℤ_iff k j).0 c in
      let out : find j m ≡ none = ap (λ i. find i m) (sym same) ∙ d.0 in
      let rest : occurs j (updated m other) ≡ false =
        occurs-updated m other j d.1 ∙ ap (λ o. differ o (find j other)) out in
      rw c (
        updated_here k v j (find k other) (updated m other) c rest
        ∙ ap (λ i. differ (some v) (find i other)) same)
  | inr c ↦ rw c (
      updated_elsewhere k j (has_key k other && not (has_value (find k other) v)) (updated m other)
        c
      ∙ occurs-updated m other j d.1)
]

-- Which keys Diff reports of two maps in which no key stands twice: as added those that only the
-- other map has, as removed those that only the first has, and as updated those that both have
-- with different values. The comment of Diff has added and removed the other way round.
pub diff_lem :
    (m other : IntIntMap) (j : ℤ)
    → Distinct m.entries
    → (occurs j (diff m other).0 ≡ (has_key j other.entries && not (has_key j m.entries)))
      × (occurs j (diff m other).1.0 ≡ (has_key j m.entries && not (has_key j other.entries)))
      × (occurs j (diff m other).1.1 ≡ differ (find j m.entries) (find j other.entries))
unfolding diff
diff_lem m other j d = (
  occurs-missing other.entries m.entries j,
  occurs-missing m.entries other.entries j,
  occurs-updated m.entries other.entries j d,
)

has_value-some : (o : Option ℤ) (v : ℤ) → has_value o v ≡ true → o ≡ some v
has_value-some none v h = absurd (cc)
has_value-some (some w) v h = ap some ((eq_ℤ_iff w v).0 h)

is_sub_loop_iff :
    (m other : List (ℤ × ℤ))
    → Distinct m
    → (is_sub_loop m other ≡ true) ↔ ((k v : ℤ) → find k m ≡ some v → find k other ≡ some v)
is_sub_loop_iff [] other d = (λ h k v there. absurd (cc), λ h. refl)
is_sub_loop_iff ((k, v) ∷ m) other d =
    let rest = is_sub_loop_iff m other d.1 in
    (
      λ h k' v' there. elim (Bool-cases (has_value (find k other) v)) [
        | inr x ↦ absurd (let bad : false ≡ true = rw x at h in cc)
        | inl x ↦ elim (Bool-cases (eq_ℤ k k')) [
          | inl c ↦
              ap (λ i. find i other) (sym ((eq_ℤ_iff k k').0 c))
              ∙ has_value-some (find k other) v x
              ∙ (rw c at there)
          | inr c ↦ rest.0 (rw x at h) k' v' (rw c at there)
        ]
      ],
      λ h.
          let here : has_value (find k other) v ≡ true =
            ap (λ o. has_value o v) (h k v (rw (beq_refl k) refl)) ∙ beq_refl v in
          rw here (
            rest.1 (λ k' v' there. elim (Bool-cases (eq_ℤ k k')) [
              | inl c ↦
                  let out : find k' m ≡ none =
                    ap (λ i. find i m) (sym ((eq_ℤ_iff k k').0 c)) ∙ d.0 in
                  absurd (let bad : none ≡ some v' = sym out ∙ there in cc)
              | inr c ↦ h k' v' (rw c there)
            ])),
    )

-- IsSubOf tells whether the other map has every key of a map with the same value, where no key
-- stands twice in the map.
pub is_sub_of_iff :
    (m other : IntIntMap)
    → Distinct m.entries
    → (is_sub_of m other ≡ true)
      ↔ ((k v : ℤ) → find k m.entries ≡ some v → find k other.entries ≡ some v)
unfolding is_sub_of
is_sub_of_iff m other d = is_sub_loop_iff m.entries other.entries d
