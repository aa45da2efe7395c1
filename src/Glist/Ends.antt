-- ===== src/Glist/Ends.antt =====
-- utils/tools/glist/glist.go: the values that pushes put in and pops take out.
use mathlib.Core.List.{reverse, reverse-append, reverse-cons, reverse-reverse}
use go_zero_admin_pkg.Prelude.{
  ℕ, zero, suc, ◌-◌, ◌≤◌, ◌≡◌, refl, sym, ap, ◌∙◌, Bool, Option, none, some, List, [], ◌∷◌, ◌++◌,
  append_assoc, append-nil, length, take, drop, take-append-drop, take-all, drop-all, length-drop,
  arith, empty, last, snoc, append-cons,
}
use go_zero_admin_pkg.Prelude.Int.{ℤ, negsuc}
use go_zero_admin_pkg.Prelude.Run.{ok, panic}
use go_zero_admin_pkg.Glist.{
  Element, GList, take_out, final, values, remove, push_front, push_back, push_fronts, push_backs,
  pop_back, pop_at, pop_front_all, new, new_from, pop_backs_loop, pop_fronts_loop, pop_fronts,
  pop_backs, count, push_back_list, push_front_list,
}
use go_zero_admin_pkg.Glist.Ids.{Numbered, member-append}

module _ {V : Type 0} where
  pub values-append : (xs ys : List (Element V)) → values (xs ++ ys) ≡ values xs ++ values ys
  values-append [] ys = refl
  values-append (x ∷ xs) ys = ap (◌∷◌ x.value) (values-append xs ys)

  pub values-reverse : (xs : List (Element V)) → values (reverse xs) ≡ reverse (values xs)
  values-reverse [] = refl
  values-reverse (x ∷ xs) = rw (
    reverse-cons x xs,
    reverse-cons x.value (values xs),
    values-append (reverse xs) (x ∷ []),
    values-reverse xs,
  )

  pub length-values : (xs : List (Element V)) → length (values xs) ≡ length xs
  length-values [] = refl
  length-values (x ∷ xs) = ap suc (length-values xs)

  pub push_backs-values :
      (l : GList V) (vs : List V) → values (push_backs l vs).elements ≡ values l.elements ++ vs
  unfolding push_backs push_back
  push_backs-values l [] = sym (append-nil (values l.elements))
  push_backs-values l (v ∷ vs) =
      push_backs-values (push_back l v).0 vs
      ∙ ap (λ r. r ++ vs) (values-append l.elements (record { id = l.fresh; value = v } ∷ []))
      ∙ append-cons (values l.elements) vs v

  pub push_fronts-values :
      (l : GList V) (vs : List V)
      → values (push_fronts l vs).elements ≡ reverse vs ++ values l.elements
  unfolding push_fronts push_front
  push_fronts-values l [] = refl
  push_fronts-values l (v ∷ vs) =
      push_fronts-values (push_front l v).0 vs
      ∙ sym (append-cons (reverse vs) (values l.elements) v)
      ∙ ap (λ r. r ++ values l.elements) (sym (reverse-cons v vs))

  -- PushBackList puts the values of the other list behind, PushFrontList in front, each in their order.
  pub push_lists_lem :
      (l other : GList V)
      → (values (push_back_list l other).elements ≡ values l.elements ++ values other.elements)
        × (values (push_front_list l other).elements ≡ values other.elements ++ values l.elements)
  unfolding push_back_list push_front_list
  push_lists_lem l other = (
    push_backs-values l (values other.elements),
    push_fronts-values l (values (reverse other.elements))
        ∙ ap (λ r. r ++ values l.elements)
            (ap reverse (values-reverse other.elements) ∙ reverse-reverse (values other.elements)),
  )

  take_out_first : (e : Element V) (xs : List (Element V)) → take_out e.id (e ∷ xs) ≡ xs
  take_out_first e xs = ground arith

  pub final-snoc : (xs : List (Element V)) (e : Element V) → final (xs ++ e ∷ []) ≡ some e
  final-snoc [] e = refl
  final-snoc (x ∷ []) e = refl
  final-snoc (x ∷ y ∷ xs) e = final-snoc (y ∷ xs) e

  -- An element alone under its number is taken out wherever it stands.
  pub take_out_between :
      (n : ℕ) (xs ys : List (Element V)) (e : Element V)
      → Numbered n (xs ++ e ∷ ys)
      → take_out e.id (xs ++ e ∷ ys) ≡ xs ++ ys
  take_out_between n [] ys e h = take_out_first e ys
  take_out_between n (x ∷ xs) ys e h =
      ground (arith, h.1, member-append x.id xs (e ∷ ys), take_out_between n xs ys e h.2)

  -- The list with these elements in place of its own.
  abbrev pub with_elements : GList V → List (Element V) → GList V
  with_elements l xs = record l { elements = xs }

  pop_fronts_loop_lem :
      (n : ℕ) (l : GList V) (xs : List (Element V)) (vs : List V)
      → n ≤ length xs
      → pop_fronts_loop n (with_elements l xs) vs
        ≡ ok (with_elements l (drop n xs), vs ++ values (take n xs))
  unfolding pop_fronts_loop remove
  pop_fronts_loop_lem zero l xs vs h = rw (append-nil vs) refl
  pop_fronts_loop_lem (suc n) l [] vs h = absurd (omega arith)
  pop_fronts_loop_lem (suc n) l (x ∷ xs) vs h = rw (take_out_first x xs) (
      pop_fronts_loop_lem n l xs (vs ++ x.value ∷ []) (omega arith)
      ∙ rw (append-cons vs (values (take n xs)) x.value) refl)

  front_init : (n : ℕ) (xs ys : List (Element V)) → Numbered n (xs ++ ys) → Numbered n xs
  front_init n [] ys h = tt
  front_init n (x ∷ xs) ys h =
      (h.0, ground (arith, h.1, member-append x.id xs ys), front_init n xs ys h.2)

  pub pop_back-snoc :
      (l : GList V) (xs : List (Element V)) (e : Element V)
      → Numbered l.fresh l.elements
      → l.elements ≡ xs ++ e ∷ []
      → pop_back l ≡ (with_elements l xs, some e.value)
  unfolding pop_back remove
  pop_back-snoc l xs e d q =
      ap (pop_at l) (ap final q ∙ final-snoc xs e)
      ∙ ap (λ es. (with_elements l es, some e.value))
          (ap (take_out e.id) q ∙ take_out_between l.fresh xs [] e (rw q at d) ∙ append-nil xs)

  pop_backs_step :
      (n : ℕ) (l : GList V) (xs : List (Element V)) (e : Element V) (vs : List V)
      → Numbered l.fresh (xs ++ e ∷ [])
      → pop_backs_loop (suc n) (with_elements l (xs ++ e ∷ [])) vs
        ≡ pop_backs_loop n (with_elements l xs) (vs ++ e.value ∷ [])
  unfolding pop_backs_loop remove
  pop_backs_step n l xs e vs d =
      ap
        (λ (o : Option (Element V)). elim o [
          | none ↦ panic
          | some e' ↦
              pop_backs_loop n (remove (with_elements l (xs ++ e ∷ [])) e').0 (vs ++ e'.value ∷ [])
        ])
        (final-snoc xs e)
      ∙ ap (λ es. pop_backs_loop n (with_elements l es) (vs ++ e.value ∷ []))
          (take_out_between l.fresh xs [] e d ∙ append-nil xs)

  pop_backs_loop_lem :
      (n : ℕ) (l : GList V) (xs ys : List (Element V)) (vs : List V)
      → n ≡ length ys
      → Numbered l.fresh (xs ++ ys)
      → pop_backs_loop n (with_elements l (xs ++ ys)) vs
        ≡ ok (with_elements l xs, vs ++ values (reverse ys))
  unfolding pop_backs_loop
  pop_backs_loop_lem zero l xs [] vs h d = rw (append-nil vs, append-nil xs) refl
  pop_backs_loop_lem zero l xs (y ∷ ys) vs h d = absurd (omega arith)
  pop_backs_loop_lem (suc n) l xs ys vs h d = elim (snoc ys) [
    | empty q ↦ absurd (omega (arith, ap length q))
    | last init e q k ↦
        let shape : xs ++ ys ≡ (xs ++ init) ++ e ∷ [] =
          ap (◌++◌ xs) q ∙ sym (append_assoc xs init (e ∷ [])) in
        let valid : Numbered l.fresh ((xs ++ init) ++ e ∷ []) = rw shape at d in
        ap (λ es. pop_backs_loop (suc n) (with_elements l es) vs) shape
        ∙ pop_backs_step n l (xs ++ init) e vs valid
        ∙ pop_backs_loop_lem n l xs init (vs ++ e.value ∷ []) (omega arith)
            (front_init l.fresh (xs ++ init) (e ∷ []) valid)
        ∙ rw (q, reverse-append init (e ∷ []), append-cons vs (values (reverse init)) e.value) refl
  ]

  pop_backs_taken :
      (n : ℕ) (l : GList V)
      → n ≤ length l.elements
      → Numbered l.fresh l.elements
      → let kept = length l.elements - n in
        pop_backs_loop n l []
        ≡ ok (with_elements l (take kept l.elements), values (reverse (drop kept l.elements)))
  pop_backs_taken n l h d =
      let kept = length l.elements - n in
      let split = take-append-drop kept l.elements in
      ap (λ es. pop_backs_loop n (with_elements l es) []) (sym split)
      ∙ pop_backs_loop_lem n l (take kept l.elements) (drop kept l.elements) []
          (omega (arith, length-drop kept l.elements)) (rw split d)

  -- PopFronts takes the first values, and does not panic.
  pub pop_fronts_lem :
      (l : GList V) (max : ℤ)
      → let n = count max (length l.elements) in
        pop_fronts l max ≡ ok (with_elements l (drop n l.elements), values (take n l.elements))
  unfolding pop_fronts
  pop_fronts_lem l max =
      pop_fronts_loop_lem (count max (length l.elements)) l l.elements [] (ground arith)

  -- PopBacks of a well-formed list does not panic; it takes the last `max` elements, or all for a `max` that is
  -- not positive or not below the length, and returns their values in reverse.
  pub pop_backs_lem :
      (l : GList V) (max : ℤ)
      → Numbered l.fresh l.elements
      → let kept = length l.elements - count max (length l.elements) in
        pop_backs l max
        ≡ ok (with_elements l (take kept l.elements), values (reverse (drop kept l.elements)))
  unfolding pop_backs
  pop_backs_lem l max d = pop_backs_taken (count max (length l.elements)) l (ground arith) d

  -- PopFrontAll after NewFrom returns the values in their order, without a panic, and leaves an empty list.
  pub pop_front_all-new_from :
      (vs : List V) (safe : Bool)
      → (m : GList V) × (pop_front_all (new_from vs safe) ≡ ok (m, vs)) × (m.elements ≡ [])
  unfolding pop_front_all new_from new
  pop_front_all-new_from vs safe =
      let l = new_from vs safe in
      let all : count (negsuc 0) (length l.elements) ≡ length l.elements = ground arith in
      (
        with_elements l [],
        pop_fronts_lem l (negsuc 0)
            ∙ rw
                (
                  take-all (length l.elements) l.elements (omega arith),
                  drop-all (length l.elements) l.elements (omega arith),
                  push_backs-values (new safe) vs,
                )
                refl,
        refl,
      )
