-- ===== src/Glist/Deque/Pops.antt =====
-- utils/tools/glist/glist.go: the pops do what they do on the plain list of the values.
use go_zero_admin_pkg.Prelude.{
  ℕ, zero, suc, ◌-◌, ◌≡◌, refl, sym, ap, ◌∙◌, some, List, [], ◌∷◌, ◌++◌, length, length-append,
  take, drop, arith, empty, last, snoc, take-length_append, drop-length_append,
}
use go_zero_admin_pkg.Prelude.Int.{ℤ, pos, negsuc}
use go_zero_admin_pkg.Prelude.Run.{Run, ok}
use go_zero_admin_pkg.Glist.{
  Element, GList, pop_front, pop_back, remove, values, count, first, pop_at, take_out,
}
use go_zero_admin_pkg.Glist.Steps.{
  WellFormed, Step-WellFormed, popped_front, popped_back, popped_fronts, popped_backs,
}
use go_zero_admin_pkg.Glist.Ends.{
  values-append, length-values, values-reverse, pop_back-snoc, pop_fronts_lem, pop_backs_lem,
  with_elements,
}
use go_zero_admin_pkg.Glist.Deque.{
  pops_front, pops_back, pops_fronts, pops_backs, asked, returned, called, specified,
}

count-asked : (max : ℤ) (n : ℕ) → count max n ≡ asked max n
count-asked (pos zero) n = refl
count-asked (pos (suc max)) n = ground arith
count-asked (negsuc max) n = refl

module _ {V : Type 0} where
  -- A run ends in a well-formed list that has the values specified, and returns those specified.
  abbrev pub Holds : Run (GList V × List V) → List V × List V → Type 0
  Holds run s = (m : GList V) × (run ≡ ok (m, s.1)) × WellFormed m × (values m.elements ≡ s.0)

  pub values-take : (n : ℕ) (xs : List (Element V)) → values (take n xs) ≡ take n (values xs)
  values-take zero xs = refl
  values-take (suc n) [] = refl
  values-take (suc n) (x ∷ xs) = ap (◌∷◌ x.value) (values-take n xs)

  pub values-drop : (n : ℕ) (xs : List (Element V)) → values (drop n xs) ≡ drop n (values xs)
  values-drop zero xs = refl
  values-drop (suc n) [] = refl
  values-drop (suc n) (x ∷ xs) = values-drop n xs

  pop_front-cons :
      (l : GList V) (x : Element V) (xs : List (Element V))
      → l.elements ≡ x ∷ xs
      → pop_front l ≡ (with_elements l xs, some x.value)
  unfolding pop_front remove
  pop_front-cons l x xs q =
      let out : take_out x.id (x ∷ xs) ≡ xs = ground arith in
      ap (pop_at l) (ap first q)
      ∙ ap (λ es. (with_elements l es, some x.value)) (ap (take_out x.id) q ∙ out)

  pub pop_front-Holds :
      (l : GList V) (xs : List (Element V))
      → l.elements ≡ xs
      → WellFormed l
      → Holds (called l pops_front) (specified (values xs) pops_front)
  unfolding pop_front
  pop_front-Holds l [] q h = (l, rw q refl, h, ap values q)
  pop_front-Holds l (x ∷ xs) q h =
      let popped = pop_front-cons l x xs q in
      (
        with_elements l xs,
        ap (λ r. ok (r.0, returned r.1)) popped,
        rw popped at (Step-WellFormed l (pop_front l).0 (popped_front l) h),
        refl,
      )

  last_split :
      (vs : List V) (v : V)
      → let all = vs ++ v ∷ [] in
        (take (length all - 1) all ≡ vs) × (drop (length all - 1) all ≡ v ∷ [])
  last_split vs v =
      let all = vs ++ v ∷ [] in
      let kept : length all - 1 ≡ length vs = omega (arith, length-append vs (v ∷ [])) in
      (
        ap (λ n. take n all) kept ∙ take-length_append vs (v ∷ []),
        ap (λ n. drop n all) kept ∙ drop-length_append vs (v ∷ []),
      )

  pub pop_back-Holds :
      (l : GList V)
      → WellFormed l
      → Holds (called l pops_back) (specified (values l.elements) pops_back)
  unfolding pop_back
  pop_back-Holds l h = elim (snoc l.elements) [
    | empty q ↦ (l, rw q refl, h, rw q refl)
    | last xs e q k ↦
        let popped = pop_back-snoc l xs e h q in
        let whole : values l.elements ≡ values xs ++ e.value ∷ [] =
          ap values q ∙ values-append xs (e ∷ []) in
        let (front, rear) = last_split (values xs) e.value in
        (
          with_elements l xs,
          ap (λ r. ok (r.0, returned r.1)) popped
              ∙ ap (λ out. ok (with_elements l xs, out))
                  (sym rear ∙ ap (λ vs. drop (length vs - 1) vs) (sym whole)),
          rw popped at (Step-WellFormed l (pop_back l).0 (popped_back l) h),
          sym front ∙ ap (λ vs. take (length vs - 1) vs) (sym whole),
        )
  ]

  pub pop_fronts-Holds :
      (l : GList V) (max : ℤ)
      → WellFormed l
      → Holds (called l (pops_fronts max)) (specified (values l.elements) (pops_fronts max))
  pop_fronts-Holds l max h =
      let n = count max (length l.elements) in
      let same : asked max (length (values l.elements)) ≡ n =
        ap (asked max) (length-values l.elements) ∙ sym (count-asked max (length l.elements)) in
      let done = pop_fronts_lem l max in
      (
        with_elements l (drop n l.elements),
        done ∙ rw (same, values-take n l.elements) refl,
        Step-WellFormed l _ (popped_fronts l _ max _ done) h,
        rw same (values-drop n l.elements),
      )

  pub pop_backs-Holds :
      (l : GList V) (max : ℤ)
      → WellFormed l
      → Holds (called l (pops_backs max)) (specified (values l.elements) (pops_backs max))
  pop_backs-Holds l max h =
      let xs = l.elements in
      let kept = length xs - count max (length xs) in
      let same : length (values xs) - asked max (length (values xs)) ≡ kept =
        rw (length-values xs, count-asked max (length xs)) refl in
      let done = pop_backs_lem l max h in
      (
        with_elements l (take kept xs),
        done ∙ rw (same, values-reverse (drop kept xs), values-drop kept xs) refl,
        Step-WellFormed l _ (popped_backs l _ max _ done) h,
        rw same (values-take kept xs),
      )
