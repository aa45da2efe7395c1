-- ===== src/Gmap/Lookups.antt =====
-- utils/tools/gmap/gmap_hash_int_int_map.go: what the methods make of the value of a key.
use go_zero_admin_pkg.Prelude.{
  ◌≡◌, refl, sym, ap, ◌∙◌, not, Option, none, some, List, [], ◌∷◌, if◌then◌else◌, arith, inl, inr,
  Bool-cases,
}
use go_zero_admin_pkg.Prelude.Int.{ℤ, eq_ℤ, eq_ℤ_iff}
use go_zero_admin_pkg.Prelude.Maps.{
  int_key, is_some, find, put, delete, Distinct, occurs, find-put, find-delete,
}
use go_zero_admin_pkg.Gmap.{
  IntIntMap, set, sets, puts, deletes, remove, removes, merge, search, get_or_set, or_zero,
  set_found, do_set_with_lock_check,
}

-- The value in the one map, or else in the other.
abbrev pub first_of : Option ℤ → Option ℤ → Option ℤ
first_of none o = o
first_of (some v) o = some v

find-deletes :
    (ks : List ℤ) (m : List (ℤ × ℤ)) (j : ℤ)
    → find j (deletes ks m) ≡ (if occurs j ks then none else find j m)
find-deletes [] m j = refl
find-deletes (k ∷ ks) m j = find-deletes ks (delete k m) j ∙ rw (find-delete k j m) (ground arith)

find-puts :
    (new m : List (ℤ × ℤ)) (j : ℤ)
    → Distinct new
    → find j (puts new m) ≡ first_of (find j new) (find j m)
find-puts [] m j d = refl
find-puts ((k, v) ∷ new) m j d =
    let rest = find-puts new (put k v m) j d.1 in
    let there = find-put k j v m in
    elim (Bool-cases (eq_ℤ k j)) [
      | inl c ↦
          let out : find j new ≡ none = ap (λ i. find i new) (sym ((eq_ℤ_iff k j).0 c)) ∙ d.0 in
          rest ∙ rw (out, c, there) (rw c refl)
      | inr c ↦ rest ∙ rw (c, there) (rw c refl)
    ]

-- What the key `j` has after Set, Remove, Removes, and Sets and Merge of a map in which no key
-- stands twice: the new value where the method gives one, nothing where it removes the key, and
-- the former value otherwise.
pub lookups_lem :
    (m other : IntIntMap) (k v j : ℤ) (ks : List ℤ)
    → Distinct other.entries
    → (find j (set m k v).entries ≡ (if eq_ℤ k j then some v else find j m.entries))
      × (find j (remove m k).0.entries ≡ (if eq_ℤ k j then none else find j m.entries))
      × (find j (removes m ks).entries ≡ (if occurs j ks then none else find j m.entries))
      × (find j (sets m other.entries).entries ≡ first_of (find j other.entries) (find j m.entries))
      × (find j (merge m other).entries ≡ first_of (find j other.entries) (find j m.entries))
unfolding set remove removes sets merge
lookups_lem m other k v j ks d = (
  find-put k j v m.entries,
  find-delete k j m.entries,
  find-deletes ks m.entries j,
  find-puts other.entries m.entries j d,
  find-puts other.entries m.entries j d,
)

-- What is set for the key, and what GetOrSet returns.
set_found-find :
    (m : IntIntMap) (k v j : ℤ) (o : Option ℤ)
    → find k m.entries ≡ o
    → (find j (if not (is_some o) then set_found m k v o else (m, or_zero o)).0.entries
        ≡ first_of (find j m.entries) (if eq_ℤ k j then some v else none))
      × ((if not (is_some o) then set_found m k v o else (m, or_zero o)).1
          ≡ or_zero (first_of o (some v)))
set_found-find m k v j none q = (
  find-put k j v m.entries ∙ elim (Bool-cases (eq_ℤ k j)) [
    | inl c ↦
        let out : find j m.entries ≡ none =
          ap (λ i. find i m.entries) (sym ((eq_ℤ_iff k j).0 c)) ∙ q in
        rw (c, out) refl
    | inr c ↦ rw c (kept (find j m.entries))
  ],
  refl,
)
  where
    kept : (o : Option ℤ) → o ≡ first_of o none
    kept none = refl
    kept (some w) = refl
set_found-find m k v j (some w) q = (
  elim (Bool-cases (eq_ℤ k j)) [
    | inl c ↦
        let there : find j m.entries ≡ some w =
          ap (λ i. find i m.entries) (sym ((eq_ℤ_iff k j).0 c)) ∙ q in
        rw there refl
    | inr c ↦ rw c (kept (find j m.entries))
  ],
  refl,
)
  where
    kept : (o : Option ℤ) → o ≡ first_of o none
    kept none = refl
    kept (some w') = refl

-- GetOrSet returns the value of the key if it has one, and otherwise sets and returns the value
-- given; no other key changes.
pub get_or_set-find :
    (m : IntIntMap) (k v j : ℤ)
    → (find j (get_or_set m k v).0.entries
        ≡ first_of (find j m.entries) (if eq_ℤ k j then some v else none))
      × ((get_or_set m k v).1 ≡ or_zero (first_of (find k m.entries) (some v)))
unfolding get_or_set search do_set_with_lock_check
get_or_set-find m k v j = set_found-find m k v j (find k m.entries) refl
