-- ===== src/Glist/Moves.antt =====
-- utils/tools/glist/glist.go: where the moves and the insertions put an element.
use go_zero_admin_pkg.Prelude.{
  ℕ, ◌≡◌, refl, sym, ap, ◌∙◌, Bool, true, false, List, [], ◌∷◌, ◌++◌, ◌==◌, Bool-cases,
  if◌then◌else◌, arith, inl, inr, ne→==,
}
use go_zero_admin_pkg.Glist.{
  Element, GList, member, take_out, insert_at, move_to, move_before, move_after, move_to_front,
  move_to_back,
}
use go_zero_admin_pkg.Glist.Ids.{
  Numbered, take_out-Numbered, member-append, member-take_out, taken_out,
}
use go_zero_admin_pkg.Glist.Ends.{take_out_between}

module _ {V : Type 0} where
  pub member_between :
      (xs ys : List (Element V)) (e : Element V) → member e.id (xs ++ e ∷ ys) ≡ true
  member_between [] ys e = ground arith
  member_between (x ∷ xs) ys e = ground (arith, member_between xs ys e)

  pub insert_at_between :
      (b : Bool) (n : ℕ) (us vs : List (Element V)) (e p : Element V)
      → Numbered n (us ++ p ∷ vs)
      → insert_at b p.id e (us ++ p ∷ vs) ≡ us ++ (if b then e ∷ p ∷ vs else p ∷ e ∷ vs)
  insert_at_between b n [] vs e p h = ground arith
  insert_at_between b n (u ∷ us) vs e p h =
      ground (arith, h.1, member-append u.id us (p ∷ vs), insert_at_between b n us vs e p h.2)

  taken_mid :
      (l : GList V) (xs ys us vs : List (Element V)) (e p : Element V)
      → Numbered l.fresh l.elements
      → l.elements ≡ xs ++ e ∷ ys
      → xs ++ ys ≡ us ++ p ∷ vs
      → (member e.id l.elements ≡ true) × (take_out e.id l.elements ≡ us ++ p ∷ vs)
  taken_mid l xs ys us vs e p h q r = (
    ap (member e.id) q ∙ member_between xs ys e,
    ap (take_out e.id) q ∙ take_out_between l.fresh xs ys e (rw q at h) ∙ r,
  )

  -- What MoveBefore and MoveAfter make of a list with `e` between `xs` and `ys`.
  move_to_lem :
      (b : Bool) (l : GList V) (xs ys us vs : List (Element V)) (e p : Element V)
      → Numbered l.fresh l.elements
      → l.elements ≡ xs ++ e ∷ ys
      → xs ++ ys ≡ us ++ p ∷ vs
      → (move_to b l e p).elements ≡ us ++ (if b then e ∷ p ∷ vs else p ∷ e ∷ vs)
  move_to_lem b l xs ys us vs e p h q r =
      let (has_e, out) = taken_mid l xs ys us vs e p h q r in
      let e_out : member e.id (us ++ p ∷ vs) ≡ false =
        ap (member e.id) (sym out) ∙ taken_out l.fresh e.id l.elements h in
      let p_in : member p.id (take_out e.id l.elements) ≡ true =
        ap (member p.id) out ∙ member_between us vs p in
      let has_p : member p.id l.elements ≡ true = elim (Bool-cases (member p.id l.elements)) [
        | inl c ↦ c
        | inr c ↦ absurd (let bad = member-take_out p.id e.id l.elements c in cc)
      ] in
      let differ : (e.id == p.id) ≡ false = ne→== e.id p.id (λ s.
        let bad : member p.id (us ++ p ∷ vs) ≡ false = rw s at e_out in
        let good = member_between us vs p in cc) in
      rw (has_e, has_p, differ)
        (ap (insert_at b p.id e) out
          ∙ insert_at_between b l.fresh us vs e p
              (rw out at (take_out-Numbered l.fresh e.id l.elements h)))

  -- In a well-formed list that has the element `e`, MoveToFront and MoveToBack put it at that end,
  -- MoveBefore and MoveAfter right before and right behind any other element `p`, and leave the
  -- others in their order.
  pub moves_lem :
      (l : GList V) (xs ys us vs : List (Element V)) (e p : Element V)
      → Numbered l.fresh l.elements
      → l.elements ≡ xs ++ e ∷ ys
      → xs ++ ys ≡ us ++ p ∷ vs
      → ((move_to_front l e).elements ≡ e ∷ us ++ p ∷ vs)
        × ((move_to_back l e).elements ≡ (us ++ p ∷ vs) ++ e ∷ [])
        × ((move_before l e p).elements ≡ us ++ e ∷ p ∷ vs)
        × ((move_after l e p).elements ≡ us ++ p ∷ e ∷ vs)
  unfolding move_to_front move_to_back move_before move_after
  moves_lem l xs ys us vs e p h q r =
      let (has_e, out) = taken_mid l xs ys us vs e p h q r in
      (
        rw (has_e, out) refl,
        rw (has_e, out) refl,
        move_to_lem true l xs ys us vs e p h q r,
        move_to_lem false l xs ys us vs e p h q r,
      )
