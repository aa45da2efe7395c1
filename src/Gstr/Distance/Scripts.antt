-- ===== src/Gstr/Distance/Scripts.antt =====
-- utils/tools/gstr/gstr_similar.go: the distance against the costs of edit scripts.
use go_zero_admin_pkg.Prelude.{
  ℕ, ◌≤◌, ◌≡◌, refl, sym, ap, ◌∙◌, List, [], ◌∷◌, ◌++◌, append-nil, length, if◌then◌else◌, ◌==◌,
  arith, ◌⊎◌, inl, inr, Bool-cases,
}
use go_zero_admin_pkg.Prelude.Int.{ℤ, pos, ◌+ℤ◌, ◌≤ℤ◌, ltb_ℤ, +ℤ_parts, eq_of_parts}
use go_zero_admin_pkg.Prelude.Run.{ok}
use go_zero_admin_pkg.Gstr.{less, levenshtein}
use go_zero_admin_pkg.Gstr.Distance.{turned, distance, levenshtein-distance}

-- A byte stays, or another takes its place; a byte is put in; a byte is taken out.
pub data Edit : Type 0 where
  matched : ℕ → ℕ → Edit
  inserted : ℕ → Edit
  deleted : ℕ → Edit

abbrev pub source : List Edit → List ℕ
source [] = []
source (matched a b ∷ script) = a ∷ source script
source (inserted b ∷ script) = source script
source (deleted a ∷ script) = a ∷ source script

abbrev pub target : List Edit → List ℕ
target [] = []
target (matched a b ∷ script) = b ∷ target script
target (inserted b ∷ script) = b ∷ target script
target (deleted a ∷ script) = target script

source-turned :
    (script acc : List Edit) → source (turned script acc) ≡ turned (source script) (source acc)
source-turned [] acc = refl
source-turned (matched a b ∷ script) acc = source-turned script (matched a b ∷ acc)
source-turned (inserted b ∷ script) acc = source-turned script (inserted b ∷ acc)
source-turned (deleted a ∷ script) acc = source-turned script (deleted a ∷ acc)

target-turned :
    (script acc : List Edit) → target (turned script acc) ≡ turned (target script) (target acc)
target-turned [] acc = refl
target-turned (matched a b ∷ script) acc = target-turned script (matched a b ∷ acc)
target-turned (inserted b ∷ script) acc = target-turned script (inserted b ∷ acc)
target-turned (deleted a ∷ script) acc = target-turned script (deleted a ∷ acc)

turned-turned : {A : Type 0} (xs ys zs : List A) → turned (turned xs ys) zs ≡ turned ys (xs ++ zs)
turned-turned [] ys zs = refl
turned-turned (x ∷ xs) ys zs = turned-turned xs (x ∷ ys) zs

turned_twice : {A : Type 0} (xs : List A) → turned (turned xs []) [] ≡ xs
turned_twice xs = turned-turned xs [] [] ∙ append-nil xs

less-left : (a b : ℤ) → less a b ≤ℤ a
less-left a b = ground arith

less-right : (a b : ℤ) → less a b ≤ℤ b
less-right a b = ground arith

less-cases : (a b : ℤ) → (less a b ≡ a) ⊎ (less a b ≡ b)
less-cases a b = elim (Bool-cases (ltb_ℤ b a)) [ inl c ↦ inr (rw c refl) | inr c ↦ inl (rw c refl) ]

≤ℤ_trans : (a b c : ℤ) → a ≤ℤ b → b ≤ℤ c → a ≤ℤ c
≤ℤ_trans a b c h k = omega arith

+ℤ_mono : (a b c : ℤ) → a ≤ℤ b → a +ℤ c ≤ℤ b +ℤ c
+ℤ_mono a b c h = omega (arith, +ℤ_parts a c, +ℤ_parts b c)

+ℤ_zero : (a : ℤ) → a +ℤ pos 0 ≡ a
+ℤ_zero a = eq_of_parts (a +ℤ pos 0) a (omega (arith, +ℤ_parts a (pos 0)))

+ℤ_swap : (a b c : ℤ) → (a +ℤ b) +ℤ c ≡ a +ℤ (c +ℤ b)
+ℤ_swap a b c =
    eq_of_parts ((a +ℤ b) +ℤ c) (a +ℤ (c +ℤ b))
      (omega (arith, +ℤ_parts a b, +ℤ_parts (a +ℤ b) c, +ℤ_parts c b, +ℤ_parts a (c +ℤ b)))

module _ (cost_ins cost_rep cost_del : ℤ) where
  abbrev pub edit_cost : Edit → ℤ
  edit_cost (matched a b) = if a == b then pos 0 else cost_rep
  edit_cost (inserted b) = cost_ins
  edit_cost (deleted a) = cost_del

  abbrev pub cost : List Edit → ℤ
  cost [] = pos 0
  cost (edit ∷ script) = cost script +ℤ edit_cost edit

  abbrev apart : List ℕ → List ℕ → ℤ
  apart = distance cost_ins cost_rep cost_del

  cost-turned : (script acc : List Edit) → cost (turned script acc) ≡ cost acc +ℤ cost script
  cost-turned [] acc = sym (+ℤ_zero (cost acc))
  cost-turned (edit ∷ script) acc =
      cost-turned script (edit ∷ acc) ∙ +ℤ_swap (cost acc) (edit_cost edit) (cost script)

  -- The first byte that the cell compares costs what matching it costs.
  matched_cell :
      (a b : ℕ) (d : ℤ) → (if a == b then d else d +ℤ cost_rep) ≡ d +ℤ edit_cost (matched a b)
  matched_cell a b d = elim (Bool-cases (a == b)) [
    | inl c ↦ rw c (sym (+ℤ_zero d))
    | inr c ↦ rw c refl
  ]

  delete_bound : (a : ℕ) (front bs : List ℕ) → apart (a ∷ front) bs ≤ℤ apart front bs +ℤ cost_del
  delete_bound a front [] = omega arith
  delete_bound a front (b ∷ bs) =
      let c0 = if a == b then apart front bs else apart front bs +ℤ cost_rep in
      let above = apart front (b ∷ bs) +ℤ cost_del in
      ≤ℤ_trans (apart (a ∷ front) (b ∷ bs)) (less c0 above) above
        (less-left (less c0 above) (apart (a ∷ front) bs +ℤ cost_ins)) (less-right c0 above)

  insert_bound : (b : ℕ) (front bs : List ℕ) → apart front (b ∷ bs) ≤ℤ apart front bs +ℤ cost_ins
  insert_bound b [] bs = omega arith
  insert_bound b (a ∷ front) bs =
      let c0 = if a == b then apart front bs else apart front bs +ℤ cost_rep in
      less-right (less c0 (apart front (b ∷ bs) +ℤ cost_del)) (apart (a ∷ front) bs +ℤ cost_ins)

  match_bound :
      (a b : ℕ) (front bs : List ℕ)
      → apart (a ∷ front) (b ∷ bs) ≤ℤ apart front bs +ℤ edit_cost (matched a b)
  match_bound a b front bs =
      let c0 = if a == b then apart front bs else apart front bs +ℤ cost_rep in
      let above = apart front (b ∷ bs) +ℤ cost_del in
      rw (sym (matched_cell a b (apart front bs))) (
        ≤ℤ_trans (apart (a ∷ front) (b ∷ bs)) (less c0 above) c0
          (less-left (less c0 above) (apart (a ∷ front) bs +ℤ cost_ins)) (less-left c0 above))

  -- No script costs less than the distance.
  apart-cost : (script : List Edit) → apart (source script) (target script) ≤ℤ cost script
  apart-cost [] = omega arith
  apart-cost (matched a b ∷ script) =
      let front = source script in
      let bs = target script in
      let c = edit_cost (matched a b) in
      ≤ℤ_trans (apart (a ∷ front) (b ∷ bs)) (apart front bs +ℤ c) (cost script +ℤ c)
        (match_bound a b front bs) (+ℤ_mono (apart front bs) (cost script) c (apart-cost script))
  apart-cost (inserted b ∷ script) =
      let front = source script in
      let bs = target script in
      ≤ℤ_trans (apart front (b ∷ bs)) (apart front bs +ℤ cost_ins) (cost script +ℤ cost_ins)
        (insert_bound b front bs)
        (+ℤ_mono (apart front bs) (cost script) cost_ins (apart-cost script))
  apart-cost (deleted a ∷ script) =
      let front = source script in
      let bs = target script in
      ≤ℤ_trans (apart (a ∷ front) bs) (apart front bs +ℤ cost_del) (cost script +ℤ cost_del)
        (delete_bound a front bs)
        (+ℤ_mono (apart front bs) (cost script) cost_del (apart-cost script))

  -- A script for two strings whose cost is their distance.
  abbrev Attained : List ℕ → List ℕ → Type 0
  Attained front bs =
      (script : List Edit) × (source script ≡ front)
      × (target script ≡ bs)
      × (cost script ≡ apart front bs)

  Attained-longer :
      (a : ℕ) (front : List ℕ)
      → ((bs : List ℕ) → Attained front bs)
      → (bs : List ℕ) → Attained (a ∷ front) bs
  Attained-longer a front previous [] =
      let p = previous [] in (deleted a ∷ p.0, ap (◌∷◌ a) p.1, p.2, ap (λ d. d +ℤ cost_del) p.3)
  Attained-longer a front previous (b ∷ bs) =
      let c0 = if a == b then apart front bs else apart front bs +ℤ cost_rep in
      let above = apart front (b ∷ bs) +ℤ cost_del in
      let left = apart (a ∷ front) bs +ℤ cost_ins in
      elim (less-cases (less c0 above) left) [
        | inr h ↦
            let p = Attained-longer a front previous bs in
            (inserted b ∷ p.0, p.1, ap (◌∷◌ b) p.2, ap (λ d. d +ℤ cost_ins) p.3 ∙ sym h)
        | inl h ↦ elim (less-cases c0 above) [
          | inr k ↦
              let p = previous (b ∷ bs) in
              (deleted a ∷ p.0, ap (◌∷◌ a) p.1, p.2, ap (λ d. d +ℤ cost_del) p.3 ∙ sym k ∙ sym h)
          | inl k ↦
              let p = previous bs in
              (
                matched a b ∷ p.0,
                ap (◌∷◌ a) p.1,
                ap (◌∷◌ b) p.2,
                ap (λ d. d +ℤ edit_cost (matched a b)) p.3
                    ∙ sym (matched_cell a b (apart front bs))
                    ∙ sym k
                    ∙ sym h,
              )
        ]
      ]

  Attained-first : (bs : List ℕ) → Attained [] bs
  Attained-first [] = ([], refl, refl, refl)
  Attained-first (b ∷ bs) =
      let p = Attained-first bs in
      (inserted b ∷ p.0, p.1, ap (◌∷◌ b) p.2, ap (λ d. d +ℤ cost_ins) p.3)

  attained : (front bs : List ℕ) → Attained front bs
  attained [] bs = Attained-first bs
  attained (a ∷ front) bs = Attained-longer a front (attained front) bs

  cost-turned_nil : (script : List Edit) → cost (turned script []) ≡ cost script
  cost-turned_nil script =
      cost-turned script []
      ∙ eq_of_parts (pos 0 +ℤ cost script) (cost script)
          (omega (arith, +ℤ_parts (pos 0) (cost script)))

  -- The cost of a script bounds the distance of its strings from above, read from their ends.
  bounded :
      (script : List Edit)
      → apart (turned (source script) []) (turned (target script) []) ≤ℤ cost script
  bounded script =
      rw
        (sym (source-turned script []), sym (target-turned script []), sym (cost-turned_nil script))
        (apart-cost (turned script []))

  -- Levenshtein of the two strings of an edit script, of at most 255 bytes each, returns a distance without
  -- a panic; no script from the one string to the other costs less, for any costs, negative ones included,
  -- and one script has that cost.
  pub levenshtein-least :
      (script : List Edit)
      → length (source script) ≤ 255
      → length (target script) ≤ 255
      → (d : ℤ) × (levenshtein cost_ins cost_rep cost_del (source script) (target script) ≡ ok d)
        × (d ≤ℤ cost script)
        × ((best : List Edit) × (source best ≡ source script)
            × (target best ≡ target script)
            × (cost best ≡ d))
  levenshtein-least script h k =
      let front = turned (source script) [] in
      let bs = turned (target script) [] in
      let p = attained front bs in
      (
        apart front bs,
        levenshtein-distance cost_ins cost_rep cost_del (source script) (target script) h k,
        bounded script,
        (
          turned p.0 [],
          source-turned p.0 [] ∙ ap (λ s. turned s []) p.1 ∙ turned_twice (source script),
          target-turned p.0 [] ∙ ap (λ s. turned s []) p.2 ∙ turned_twice (target script),
          cost-turned_nil p.0 ∙ p.3,
        ),
      )
