-- ===== src/Glist/Steps.antt =====
-- utils/tools/glist/glist.go: its operations as steps, which keep the elements distinct.
use go_zero_admin_pkg.Prelude.{
  ℕ, zero, suc, ◌<◌, ◌≡◌, Bool, true, false, Option, none, some, List, [], ◌∷◌, ◌++◌, ◌==◌,
  Bool-cases, arith, inl, inr, length,
}
use go_zero_admin_pkg.Prelude.Int.{ℤ}
use go_zero_admin_pkg.Prelude.Run.{Run, ok, panic}
use go_zero_admin_pkg.Glist.{
  Element, GList, member, take_out, insert_next, move_to, first, final, pop_at, push_front,
  push_back, push_fronts, push_backs, remove, removes, pop_front, pop_back, pop_fronts, pop_backs,
  pop_fronts_loop, pop_backs_loop, move_before, move_after, move_to_front, move_to_back,
  push_back_list, push_front_list, insert_before, insert_after, clear, remove_all, count,
}
use go_zero_admin_pkg.Glist.Ids.{
  Numbered, Numbered-weaken, member_above, taken_out, take_out-Numbered, snoc-Numbered,
  insert_at-Numbered,
}

-- Each operation of the list that changes it.
pub data Step {V : Type 0} : GList V → GList V → Type 0 where
  pushed_front : (l : GList V) (v : V) → Step l (push_front l v).0
  pushed_back : (l : GList V) (v : V) → Step l (push_back l v).0
  pushed_fronts : (l : GList V) (vs : List V) → Step l (push_fronts l vs)
  pushed_backs : (l : GList V) (vs : List V) → Step l (push_backs l vs)
  pushed_front_list : (l other : GList V) → Step l (push_front_list l other)
  pushed_back_list : (l other : GList V) → Step l (push_back_list l other)
  removed : (l : GList V) (e : Element V) → Step l (remove l e).0
  removed_each : (l : GList V) (es : List (Element V)) → Step l (removes l es)
  popped_front : (l : GList V) → Step l (pop_front l).0
  popped_back : (l : GList V) → Step l (pop_back l).0
  popped_fronts : (l m : GList V) (max : ℤ) (vs : List V) → pop_fronts l max ≡ ok (m, vs) → Step l m
  popped_backs : (l m : GList V) (max : ℤ) (vs : List V) → pop_backs l max ≡ ok (m, vs) → Step l m
  moved_before : (l : GList V) (e p : Element V) → Step l (move_before l e p)
  moved_after : (l : GList V) (e p : Element V) → Step l (move_after l e p)
  moved_front : (l : GList V) (e : Element V) → Step l (move_to_front l e)
  moved_back : (l : GList V) (e : Element V) → Step l (move_to_back l e)
  inserted_before : (l : GList V) (p : Element V) (v : V) → Step l (insert_before l p v).0
  inserted_after : (l : GList V) (p : Element V) (v : V) → Step l (insert_after l p v).0
  cleared : (l : GList V) → Step l (clear l)

abbrev pub WellFormed : {V : Type 0} → GList V → Type 0
WellFormed l = Numbered l.fresh l.elements

module _ {V : Type 0} where
  member_below : (n i : ℕ) (xs : List (Element V)) → Numbered n xs → member i xs ≡ true → i < n
  member_below n i xs h k = ground (arith, member_above n i xs h)

  pub push_front-WellFormed : (l : GList V) (v : V) → WellFormed l → WellFormed (push_front l v).0
  unfolding push_front
  push_front-WellFormed l v h = (
    omega arith,
    member_above l.fresh l.fresh l.elements h (omega arith),
    Numbered-weaken l.fresh (suc l.fresh) l.elements (omega arith) h,
  )

  pub push_back-WellFormed : (l : GList V) (v : V) → WellFormed l → WellFormed (push_back l v).0
  unfolding push_back
  push_back-WellFormed l v h =
      snoc-Numbered (suc l.fresh) l.elements (record { id = l.fresh; value = v })
        (Numbered-weaken l.fresh (suc l.fresh) l.elements (omega arith) h) (omega arith)
        (member_above l.fresh l.fresh l.elements h (omega arith))

  pub push_fronts-WellFormed :
      (l : GList V) (vs : List V) → WellFormed l → WellFormed (push_fronts l vs)
  unfolding push_fronts
  push_fronts-WellFormed l [] h = h
  push_fronts-WellFormed l (v ∷ vs) h =
      push_fronts-WellFormed (push_front l v).0 vs (push_front-WellFormed l v h)

  pub push_backs-WellFormed :
      (l : GList V) (vs : List V) → WellFormed l → WellFormed (push_backs l vs)
  unfolding push_backs
  push_backs-WellFormed l [] h = h
  push_backs-WellFormed l (v ∷ vs) h =
      push_backs-WellFormed (push_back l v).0 vs (push_back-WellFormed l v h)

  pub remove-WellFormed : (l : GList V) (e : Element V) → WellFormed l → WellFormed (remove l e).0
  unfolding remove
  remove-WellFormed l e h = take_out-Numbered l.fresh e.id l.elements h

  removes-WellFormed :
      (l : GList V) (es : List (Element V)) → WellFormed l → WellFormed (removes l es)
  unfolding removes
  removes-WellFormed l [] h = h
  removes-WellFormed l (e ∷ es) h = removes-WellFormed (remove l e).0 es (remove-WellFormed l e h)

  pop_at-WellFormed :
      (l : GList V) (o : Option (Element V)) → WellFormed l → WellFormed (pop_at l o).0
  pop_at-WellFormed l none h = h
  pop_at-WellFormed l (some e) h = remove-WellFormed l e h

  -- What a computation that ends leaves is well formed.
  abbrev Leaves : Run (GList V × List V) → Type 0
  Leaves (ok r) = WellFormed r.0
  Leaves panic = Unit {0}

  taken-Leaves :
      (o : Option (Element V)) (f : Element V → Run (GList V × List V))
      → ((e : Element V) → Leaves (f e))
      → Leaves (elim o [ none ↦ panic | some e ↦ f e ])
  taken-Leaves none f h = tt
  taken-Leaves (some e) f h = h e

  pop_fronts_loop-Leaves :
      (n : ℕ) (l : GList V) (vs : List V) → WellFormed l → Leaves (pop_fronts_loop n l vs)
  unfolding pop_fronts_loop
  pop_fronts_loop-Leaves zero l vs h = h
  pop_fronts_loop-Leaves (suc n) l vs h =
      taken-Leaves (first l.elements) (λ e. pop_fronts_loop n (remove l e).0 (vs ++ e.value ∷ []))
        (λ e.
          pop_fronts_loop-Leaves n (remove l e).0 (vs ++ e.value ∷ []) (remove-WellFormed l e h))

  pop_backs_loop-Leaves :
      (n : ℕ) (l : GList V) (vs : List V) → WellFormed l → Leaves (pop_backs_loop n l vs)
  unfolding pop_backs_loop
  pop_backs_loop-Leaves zero l vs h = h
  pop_backs_loop-Leaves (suc n) l vs h =
      taken-Leaves (final l.elements) (λ e. pop_backs_loop n (remove l e).0 (vs ++ e.value ∷ []))
        (λ e. pop_backs_loop-Leaves n (remove l e).0 (vs ++ e.value ∷ []) (remove-WellFormed l e h))

  move_to-WellFormed :
      (b : Bool) (l : GList V) (e p : Element V) → WellFormed l → WellFormed (move_to b l e p)
  move_to-WellFormed b l e p h = elim (Bool-cases (member e.id l.elements)) [
    | inr c ↦ rw c h
    | inl c ↦ elim (Bool-cases (member p.id l.elements)) [
      | inr d ↦ rw (c, d) h
      | inl d ↦ elim (Bool-cases (e.id == p.id)) [
        | inl q ↦ rw (c, d, q) h
        | inr q ↦
            rw (c, d, q)
              (insert_at-Numbered b l.fresh p.id e (take_out e.id l.elements)
                (take_out-Numbered l.fresh e.id l.elements h)
                (member_below l.fresh e.id l.elements h c) (taken_out l.fresh e.id l.elements h))
      ]
    ]
  ]

  move_to_front-WellFormed :
      (l : GList V) (e : Element V) → WellFormed l → WellFormed (move_to_front l e)
  unfolding move_to_front
  move_to_front-WellFormed l e h = elim (Bool-cases (member e.id l.elements)) [
    | inr c ↦ rw c h
    | inl c ↦ rw c (
      member_below l.fresh e.id l.elements h c,
      taken_out l.fresh e.id l.elements h,
      take_out-Numbered l.fresh e.id l.elements h,
    )
  ]

  move_to_back-WellFormed :
      (l : GList V) (e : Element V) → WellFormed l → WellFormed (move_to_back l e)
  unfolding move_to_back
  move_to_back-WellFormed l e h = elim (Bool-cases (member e.id l.elements)) [
    | inr c ↦ rw c h
    | inl c ↦ rw c (
        snoc-Numbered l.fresh (take_out e.id l.elements) e
          (take_out-Numbered l.fresh e.id l.elements h) (member_below l.fresh e.id l.elements h c)
          (taken_out l.fresh e.id l.elements h))
  ]

  insert_next-WellFormed :
      (b : Bool) (l : GList V) (p : Element V) (v : V)
      → WellFormed l
      → WellFormed (insert_next b l p v).0
  insert_next-WellFormed b l p v h = elim (Bool-cases (member p.id l.elements)) [
    | inr c ↦ rw c h
    | inl c ↦ rw c (
        insert_at-Numbered b (suc l.fresh) p.id (record { id = l.fresh; value = v }) l.elements
          (Numbered-weaken l.fresh (suc l.fresh) l.elements (omega arith) h) (omega arith)
          (member_above l.fresh l.fresh l.elements h (omega arith)))
  ]

  -- Each step leaves the elements distinct and below `fresh`.
  pub Step-WellFormed : (l m : GList V) → Step l m → WellFormed l → WellFormed m
  unfolding pop_fronts pop_backs push_back_list push_front_list move_before move_after insert_before
      insert_after clear remove_all pop_front pop_back
  Step-WellFormed _ _ (pushed_front l v) h = push_front-WellFormed l v h
  Step-WellFormed _ _ (pushed_back l v) h = push_back-WellFormed l v h
  Step-WellFormed _ _ (pushed_fronts l vs) h = push_fronts-WellFormed l vs h
  Step-WellFormed _ _ (pushed_backs l vs) h = push_backs-WellFormed l vs h
  Step-WellFormed _ _ (pushed_front_list l other) h = push_fronts-WellFormed l _ h
  Step-WellFormed _ _ (pushed_back_list l other) h = push_backs-WellFormed l _ h
  Step-WellFormed _ _ (removed l e) h = remove-WellFormed l e h
  Step-WellFormed _ _ (removed_each l es) h = removes-WellFormed l es h
  Step-WellFormed _ _ (popped_front l) h = pop_at-WellFormed l (first l.elements) h
  Step-WellFormed _ _ (popped_back l) h = pop_at-WellFormed l (final l.elements) h
  Step-WellFormed _ _ (popped_fronts l m max vs e) h =
      rw e at (pop_fronts_loop-Leaves (count max (length l.elements)) l [] h)
  Step-WellFormed _ _ (popped_backs l m max vs e) h =
      rw e at (pop_backs_loop-Leaves (count max (length l.elements)) l [] h)
  Step-WellFormed _ _ (moved_before l e p) h = move_to-WellFormed true l e p h
  Step-WellFormed _ _ (moved_after l e p) h = move_to-WellFormed false l e p h
  Step-WellFormed _ _ (moved_front l e) h = move_to_front-WellFormed l e h
  Step-WellFormed _ _ (moved_back l e) h = move_to_back-WellFormed l e h
  Step-WellFormed _ _ (inserted_before l p v) h = insert_next-WellFormed true l p v h
  Step-WellFormed _ _ (inserted_after l p v) h = insert_next-WellFormed false l p v h
  Step-WellFormed _ _ (cleared l) h = tt
