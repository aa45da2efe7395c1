-- ===== src/Gmap/ListMap/Pops.antt =====
-- utils/tools/gmap/gmap_list_map.go: Pop and Pops, which take entries in the order of the range over the map.
use go_zero_admin_pkg.Prelude.{
  ℕ, suc, zero, min, ◌≡◌, ◌<◌, ◌-◌, refl, ap, ◌∙◌, true, false, none, some, List, [], ◌∷◌, length,
  take, drop, if◌then◌else◌, arith, Bool-cases, inl, inr,
}
use go_zero_admin_pkg.Prelude.Int.{ℤ, pos, negsuc, eq_ℤ, is_zero}
use go_zero_admin_pkg.Prelude.Maps.{Key, beq_refl, find, put, delete, Distinct, delete_absent}
use go_zero_admin_pkg.Prelude.Maps.Loops.{put_all, put_all-append}
use go_zero_admin_pkg.Glist.{Element}
use go_zero_admin_pkg.Gmap.ListMap.{
  Node, ListMap, pop, pop_first, pops, pops_loop, pops_size, remove_found,
}
use go_zero_admin_pkg.Gmap.ListMap.Linked.{Linked, remove_found-Linked}

module _ {K V : Type 0} where
  -- The keys of entries with the values of their nodes.
  abbrev pub node_values : List (K × Element (Node K V)) → List (K × V)
  node_values [] = []
  node_values ((k, x) ∷ m) = (k, x.value.value) ∷ node_values m

-- How many rounds are left before the round `i` of the range over `len` entries.
abbrev pub rounds : ℤ → ℕ → ℕ → ℕ
rounds (pos n) i len = min (n - i) len
rounds (negsuc n) i len = len

-- `index == size` lies ahead or never comes.
abbrev pub Ahead : ℤ → ℕ → Type 0
Ahead (pos n) i = i < n
Ahead (negsuc n) i = Unit {0}

rounds_none : (n : ℤ) (i : ℕ) → rounds n i 0 ≡ 0
rounds_none (pos n) i = omega arith
rounds_none (negsuc n) i = refl

-- The size that Pops computes first leads to the same rounds.
rounds-pops_size : (n : ℤ) (len : ℕ) → rounds (pops_size n len) 0 len ≡ rounds n 0 len
rounds-pops_size (pos n) len = ground arith
rounds-pops_size (negsuc n) len = ground arith

rounds_zero : (n : ℤ) (len : ℕ) → is_zero n ≡ true → rounds n 0 len ≡ 0
rounds_zero (pos zero) len h = omega arith
rounds_zero (pos (suc n)) len h = absurd (cc)
rounds_zero (negsuc n) len h = absurd (cc)

Ahead-start : (n : ℤ) → is_zero n ≡ false → Ahead n 0
Ahead-start (pos zero) h = absurd (cc)
Ahead-start (pos (suc n)) h = omega arith
Ahead-start (negsuc n) h = tt

rounds_last : (n : ℤ) (i len : ℕ) → eq_ℤ (pos (suc i)) n ≡ true → rounds n i (suc len) ≡ 1
rounds_last (pos n) i len h = ground arith
rounds_last (negsuc n) i len h = absurd (cc)

rounds_next :
    (n : ℤ) (i len : ℕ)
    → Ahead n i
    → eq_ℤ (pos (suc i)) n ≡ false
    → rounds n i (suc len) ≡ suc (rounds n (suc i) len)
rounds_next (pos n) i len a h = ground arith
rounds_next (negsuc n) i len a h = refl

Ahead-next : (n : ℤ) (i : ℕ) → Ahead n i → eq_ℤ (pos (suc i)) n ≡ false → Ahead n (suc i)
Ahead-next (pos n) i a h = ground arith
Ahead-next (negsuc n) i a h = tt

module _ {K V : Type 0} ⦃e : Key K⦄ where
  -- Without its first entry the map is the rest of its entries.
  remove_first :
      (m : ListMap K V) (k : K) (x : Element (Node K V)) (rest : List (K × Element (Node K V)))
      → Linked m
      → m.entries ≡ (k, x) ∷ rest
      → Linked (remove_found m k (some x)) × ((remove_found m k (some x)).entries ≡ rest)
  remove_first m k x rest l h =
      let gone : Distinct ((k, x) ∷ rest) = rw h at l.distinct in
      (
        remove_found-Linked m k (some x) l (ap (find k) h ∙ rw (beq_refl k) refl),
        ap (delete k) h ∙ rw (beq_refl k) (delete_absent k rest gone.0),
      )

  -- Pop of a map with a first entry returns its key and value and leaves the other entries, and the map
  -- well formed; Pop of an empty map changes nothing.
  pub pop-entries :
      (m : ListMap K V) (k : K) (x : Element (Node K V)) (rest : List (K × Element (Node K V)))
      → Linked m
      → m.entries ≡ (k, x) ∷ rest
      → Linked (pop m).0 × ((pop m).0.entries ≡ rest) × ((pop m).1 ≡ some (k, x.value.value))
  unfolding pop
  pop-entries m k x rest l h =
      let done = remove_first m k x rest l h in
      let popped : pop m ≡ (remove_found m k (some x), some (k, x.value.value)) =
        ap (pop_first m) h in
      rw popped (done.0, done.1, refl)

  -- What a run of the loop leaves and returns after `t` rounds.
  abbrev pub Popped :
      ListMap K V × List (K × V) → List (K × Element (Node K V)) → List (K × V) → ℕ → Type 0
  Popped r rest made t =
      Linked r.0 × (r.0.entries ≡ drop t rest) × (r.1 ≡ put_all (node_values (take t rest)) made)

  pops_loop-Popped :
      (rest : List (K × Element (Node K V))) (m : ListMap K V) (made : List (K × V)) (n : ℤ) (i : ℕ)
      → Linked m
      → m.entries ≡ rest
      → Ahead n i
      → Popped (pops_loop m rest made n i) rest made (rounds n i (length rest))
  unfolding pops_loop
  pops_loop-Popped [] m made n i l h a = rw (rounds_none n i) (l, h, refl)
  pops_loop-Popped ((k, x) ∷ rest) m made n i l h a =
      let first = remove_first m k x rest l h in
      elim (Bool-cases (eq_ℤ (pos (suc i)) n)) [
        | inl c ↦ rw (c, rounds_last n i (length rest) c) (first.0, first.1, refl)
        | inr c ↦
            rw (c, rounds_next n i (length rest) a c)
              (pops_loop-Popped rest (remove_found m k (some x)) (put k x.value.value made) n
                (suc i) first.0 first.1 (Ahead-next n i a c))
      ]

  find-node_values :
      (j : K) (t : ℕ) (m : List (K × Element (Node K V)))
      → find j m ≡ none
      → find j (node_values (take t m)) ≡ none
  find-node_values j zero m h = refl
  find-node_values j (suc t) [] h = refl
  find-node_values j (suc t) ((k, x) ∷ m) h = elim (Bool-cases (e.beq k j)) [
    | inl c ↦ absurd (ground arith)
    | inr c ↦ rw c (find-node_values j t m (rw c at h))
  ]

  node_values-Distinct :
      (t : ℕ) (m : List (K × Element (Node K V))) → Distinct m → Distinct (node_values (take t m))
  node_values-Distinct zero m d = tt
  node_values-Distinct (suc t) [] d = tt
  node_values-Distinct (suc t) ((k, x) ∷ m) d =
      (find-node_values k t m d.0, node_values-Distinct t m d.1)

  pops_taken :
      (m : ListMap K V) (taken : ℤ)
      → Linked m
      → Popped
          (if is_zero taken then (m, []) else pops_loop m m.entries [] taken 0)
          m.entries
          []
          (rounds taken 0 (length m.entries))
  pops_taken m taken l = elim (Bool-cases (is_zero taken)) [
    | inl c ↦ rw (c, rounds_zero taken (length m.entries) c) (l, refl, refl)
    | inr c ↦ rw c (pops_loop-Popped m.entries m [] taken 0 l refl (Ahead-start taken c))
  ]

  -- Pops takes `n` entries, or all where there are fewer or `n` is negative: it returns their keys and
  -- values, and leaves the others in a well-formed map.
  pub pops-entries :
      (m : ListMap K V) (n : ℤ)
      → Linked m
      → let t = rounds n 0 (length m.entries) in
        Linked (pops m n).0
        × ((pops m n).0.entries ≡ drop t m.entries)
        × ((pops m n).1 ≡ node_values (take t m.entries))
  unfolding pops
  pops-entries m n l =
      let done = pops_taken m (pops_size n (length m.entries)) l in
      let count = rounds-pops_size n (length m.entries) in
      let t = rounds n 0 (length m.entries) in
      (
        done.0,
        done.1 ∙ ap (λ i. drop i m.entries) count,
        done.2
            ∙ ap (λ i. put_all (node_values (take i m.entries)) []) count
            ∙ put_all-append (node_values (take t m.entries)) []
                (node_values-Distinct t m.entries l.distinct),
      )
