-- ===== src/Glist/Deque/Places.antt =====
-- utils/tools/glist/glist.go: what is done to the element at a place is done to the value at that place.
use go_zero_admin_pkg.Prelude.{
  true, false, if◌then◌else◌, Bool, ℕ, zero, suc, ◌≡◌, refl, ap, ◌∙◌, none, some, List, [], ◌∷◌,
  ◌++◌, take, drop, get_elem?,
}
use go_zero_admin_pkg.Prelude.Run.{ok}
use go_zero_admin_pkg.Glist.{
  Element, GList, remove, insert_before, insert_after, move_to_front, move_to_back, values,
  value_of, take_out, member, insert_next, insert_at,
}
use go_zero_admin_pkg.Glist.Steps.{
  WellFormed, Step-WellFormed, removed, moved_front, moved_back, inserted_before, inserted_after,
}
use go_zero_admin_pkg.Glist.Ends.{values-append, take_out_between}
use go_zero_admin_pkg.Glist.Moves.{member_between, insert_at_between}
use go_zero_admin_pkg.Glist.Deque.{
  removes_at, inserts_before, inserts_after, moves_to_front, moves_to_back, returned, called,
  specified,
}
use go_zero_admin_pkg.Glist.Deque.Pops.{Holds, values-take, values-drop}

module _ {V : Type 0} where
  -- A place behind the end has no element; any other has one, between those before and behind it.
  data Place (n : ℕ) (xs : List (Element V)) : Type 0 where
    outside : get_elem? xs n ≡ none → get_elem? (values xs) n ≡ none → Place n xs
    inside :
        (e : Element V)
        → get_elem? xs n ≡ some e
        → get_elem? (values xs) n ≡ some e.value
        → xs ≡ take n xs ++ e ∷ drop (suc n) xs
        → Place n xs

  place : (n : ℕ) (xs : List (Element V)) → Place n xs
  place zero [] = outside refl refl
  place (suc n) [] = outside refl refl
  place zero (x ∷ xs) = inside x refl refl refl
  place (suc n) (x ∷ xs) = elim (place n xs) [
    | outside o p ↦ outside o p
    | inside e o p q ↦ inside e o p (ap (◌∷◌ x) q)
  ]

  -- The element is in the list, and without it the others are left.
  parted :
      (l : GList V) (xs ys : List (Element V)) (e : Element V)
      → WellFormed l
      → l.elements ≡ xs ++ e ∷ ys
      → (member e.id l.elements ≡ true) × (take_out e.id l.elements ≡ xs ++ ys)
  parted l xs ys e h q = (
    ap (member e.id) q ∙ member_between xs ys e,
    ap (take_out e.id) q ∙ take_out_between l.fresh xs ys e (rw q at h),
  )

  removed-values :
      (l : GList V) (xs ys : List (Element V)) (e : Element V)
      → WellFormed l
      → l.elements ≡ xs ++ e ∷ ys
      → values (remove l e).0.elements ≡ values xs ++ values ys
  unfolding remove
  removed-values l xs ys e h q = ap values (parted l xs ys e h q).1 ∙ values-append xs ys

  moved-values :
      (l : GList V) (xs ys : List (Element V)) (e : Element V)
      → WellFormed l
      → l.elements ≡ xs ++ e ∷ ys
      → (values (move_to_front l e).elements ≡ e.value ∷ values xs ++ values ys)
        × (values (move_to_back l e).elements ≡ (values xs ++ values ys) ++ e.value ∷ [])
  unfolding move_to_front move_to_back
  moved-values l xs ys e h q =
      let (there, out) = parted l xs ys e h q in
      (
        rw (there, out, values-append xs ys) refl,
        rw (there, out, values-append (xs ++ ys) (e ∷ []), values-append xs ys) refl,
      )

  values-two :
      (b : Bool) (e p : Element V) (ys : List (Element V))
      → values (if b then e ∷ p ∷ ys else p ∷ e ∷ ys)
        ≡ (if b then e.value ∷ p.value ∷ values ys else p.value ∷ e.value ∷ values ys)
  values-two true e p ys = refl
  values-two false e p ys = refl

  inserted-values :
      (b : Bool) (l : GList V) (xs ys : List (Element V)) (p : Element V) (v : V)
      → WellFormed l
      → l.elements ≡ xs ++ p ∷ ys
      → (values (insert_next b l p v).0.elements
          ≡ values xs ++ (if b then v ∷ p.value ∷ values ys else p.value ∷ v ∷ values ys))
        × (value_of (insert_next b l p v).1 ≡ some v)
  inserted-values b l xs ys p v h q =
      let e : Element V = record { id = l.fresh; value = v } in
      let there = (parted l xs ys p h q).0 in
      let at = ap (insert_at b p.id e) q ∙ insert_at_between b l.fresh xs ys e p (rw q at h) in
      (
        rw there (
            ap values at
            ∙ values-append xs (if b then e ∷ p ∷ ys else p ∷ e ∷ ys)
            ∙ ap (◌++◌ (values xs)) (values-two b e p ys)),
        rw there refl,
      )

  pub remove-Holds :
      (l : GList V) (n : ℕ)
      → WellFormed l
      → Holds (called l (removes_at n)) (specified (values l.elements) (removes_at n))
  unfolding remove
  remove-Holds l n h = elim (place n l.elements) [
    | outside o p ↦ rw (o, p) (l, refl, h, refl)
    | inside e o p q ↦
        let done = removed-values l (take n l.elements) (drop (suc n) l.elements) e h q in
        rw (o, p)
          (
            (remove l e).0,
            refl,
            Step-WellFormed l _ (removed l e) h,
            done ∙ rw (values-take n l.elements, values-drop (suc n) l.elements) refl,
          )
  ]

  pub moves-Holds :
      (l : GList V) (n : ℕ)
      → WellFormed l
      → Holds (called l (moves_to_front n)) (specified (values l.elements) (moves_to_front n))
        × Holds (called l (moves_to_back n)) (specified (values l.elements) (moves_to_back n))
  moves-Holds l n h = elim (place n l.elements) [
    | outside o p ↦ rw (o, p) ((l, refl, h, refl), (l, refl, h, refl))
    | inside e o p q ↦
        let done = moved-values l (take n l.elements) (drop (suc n) l.elements) e h q in
        rw (o, p)
          (
            (
              move_to_front l e,
              refl,
              Step-WellFormed l _ (moved_front l e) h,
              done.0 ∙ rw (values-take n l.elements, values-drop (suc n) l.elements) refl,
            ),
            (
              move_to_back l e,
              refl,
              Step-WellFormed l _ (moved_back l e) h,
              done.1 ∙ rw (values-take n l.elements, values-drop (suc n) l.elements) refl,
            ),
          )
  ]

  pub insert_before-Holds :
      (l : GList V) (n : ℕ) (v : V)
      → WellFormed l
      → Holds (called l (inserts_before n v)) (specified (values l.elements) (inserts_before n v))
  unfolding insert_before
  insert_before-Holds l n v h = elim (place n l.elements) [
    | outside o p ↦ rw (o, p) (l, refl, h, refl)
    | inside e o p q ↦
        let (done, out) =
          inserted-values true l (take n l.elements) (drop (suc n) l.elements) e v h q in
        rw (o, p)
          (
            (insert_before l e v).0,
            ap (λ r. ok ((insert_before l e v).0, returned r)) out,
            Step-WellFormed l _ (inserted_before l e v) h,
            done ∙ rw (values-take n l.elements, values-drop (suc n) l.elements) refl,
          )
  ]

  pub insert_after-Holds :
      (l : GList V) (n : ℕ) (v : V)
      → WellFormed l
      → Holds (called l (inserts_after n v)) (specified (values l.elements) (inserts_after n v))
  unfolding insert_after
  insert_after-Holds l n v h = elim (place n l.elements) [
    | outside o p ↦ rw (o, p) (l, refl, h, refl)
    | inside e o p q ↦
        let (done, out) =
          inserted-values false l (take n l.elements) (drop (suc n) l.elements) e v h q in
        rw (o, p)
          (
            (insert_after l e v).0,
            ap (λ r. ok ((insert_after l e v).0, returned r)) out,
            Step-WellFormed l _ (inserted_after l e v) h,
            done ∙ rw (values-take n l.elements, values-drop (suc n) l.elements) refl,
          )
  ]
