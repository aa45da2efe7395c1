-- ===== src/Glist/Deque.antt =====
-- utils/tools/glist/glist.go: sequences of calls on a list against the same on the plain list of its values.
pub mod Pops
pub mod Places
pub mod Refines
use mathlib.Core.List.{reverse}
use go_zero_admin_pkg.Prelude.{
  ℕ, zero, suc, ◌-◌, Option, none, some, List, [], ◌∷◌, ◌++◌, length, take, drop, get_elem?, min,
}
use go_zero_admin_pkg.Prelude.Int.{ℤ, pos, negsuc}
use go_zero_admin_pkg.Prelude.Run.{Run, ok, panic, ◌>>=◌}
use go_zero_admin_pkg.Glist.{
  Element, GList, push_front, push_back, push_fronts, push_backs, push_front_list, push_back_list,
  pop_front, pop_back, pop_fronts, pop_backs, remove, insert_before, insert_after, move_to_front,
  move_to_back, clear, values, value_of,
}

-- A call that changes the list. An element is named by its place in the list at the time of the call.
pub data Call (V : Type 0) : Type 0 where
  pushes_front : V → Call V
  pushes_back : V → Call V
  pushes_fronts : List V → Call V
  pushes_backs : List V → Call V
  pushes_front_list : GList V → Call V
  pushes_back_list : GList V → Call V
  pops_front : Call V
  pops_back : Call V
  pops_fronts : ℤ → Call V
  pops_backs : ℤ → Call V
  removes_at : ℕ → Call V
  inserts_before : ℕ → V → Call V
  inserts_after : ℕ → V → Call V
  moves_to_front : ℕ → Call V
  moves_to_back : ℕ → Call V
  clears : Call V

-- How many values a call takes that asks for `max`.
abbrev pub asked : ℤ → ℕ → ℕ
asked (pos zero) n = n
asked (pos (suc max)) n = min (suc max) n
asked (negsuc max) n = n

module _ {V : Type 0} where
  abbrev pub returned : Option V → List V
  returned none = []
  returned (some v) = v ∷ []

  -- What is done with the element at a place; nothing is where there is none.
  abbrev pub on_element :
      GList V → Option (Element V) → (Element V → GList V × List V) → GList V × List V
  on_element l none f = (l, [])
  on_element l (some e) f = f e

  -- The list after a call, and the values that the call returns.
  abbrev pub called : GList V → Call V → Run (GList V × List V)
  called l (pushes_front v) = let (m, e) = push_front l v in ok (m, e.value ∷ [])
  called l (pushes_back v) = let (m, e) = push_back l v in ok (m, e.value ∷ [])
  called l (pushes_fronts vs) = ok (push_fronts l vs, [])
  called l (pushes_backs vs) = ok (push_backs l vs, [])
  called l (pushes_front_list other) = ok (push_front_list l other, [])
  called l (pushes_back_list other) = ok (push_back_list l other, [])
  called l pops_front = let (m, v) = pop_front l in ok (m, returned v)
  called l pops_back = let (m, v) = pop_back l in ok (m, returned v)
  called l (pops_fronts max) = pop_fronts l max
  called l (pops_backs max) = pop_backs l max
  called l (removes_at n) =
      ok (on_element l (get_elem? l.elements n) λ e. let (m, v) = remove l e in (m, v ∷ []))
  called l (inserts_before n v) = ok (
      on_element l (get_elem? l.elements n)
        λ p. let (m, e) = insert_before l p v in (m, returned (value_of e)))
  called l (inserts_after n v) = ok (
      on_element l (get_elem? l.elements n)
        λ p. let (m, e) = insert_after l p v in (m, returned (value_of e)))
  called l (moves_to_front n) =
      ok (on_element l (get_elem? l.elements n) λ e. (move_to_front l e, []))
  called l (moves_to_back n) =
      ok (on_element l (get_elem? l.elements n) λ e. (move_to_back l e, []))
  called l clears = ok (clear l, [])

  abbrev pub at_place : List V → Option V → (V → List V × List V) → List V × List V
  at_place vs none f = (vs, [])
  at_place vs (some v) f = f v

  -- The same on the values in their order.
  abbrev pub specified : List V → Call V → List V × List V
  specified vs (pushes_front v) = (v ∷ vs, v ∷ [])
  specified vs (pushes_back v) = (vs ++ v ∷ [], v ∷ [])
  specified vs (pushes_fronts new) = (reverse new ++ vs, [])
  specified vs (pushes_backs new) = (vs ++ new, [])
  specified vs (pushes_front_list other) = (values other.elements ++ vs, [])
  specified vs (pushes_back_list other) = (vs ++ values other.elements, [])
  specified vs pops_front = (drop 1 vs, take 1 vs)
  specified vs pops_back = let kept = length vs - 1 in (take kept vs, drop kept vs)
  specified vs (pops_fronts max) = let n = asked max (length vs) in (drop n vs, take n vs)
  specified vs (pops_backs max) =
      let kept = length vs - asked max (length vs) in (take kept vs, reverse (drop kept vs))
  specified vs (removes_at n) =
      at_place vs (get_elem? vs n) λ v. (take n vs ++ drop (suc n) vs, v ∷ [])
  specified vs (inserts_before n new) =
      at_place vs (get_elem? vs n) λ v. (take n vs ++ new ∷ v ∷ drop (suc n) vs, new ∷ [])
  specified vs (inserts_after n new) =
      at_place vs (get_elem? vs n) λ v. (take n vs ++ v ∷ new ∷ drop (suc n) vs, new ∷ [])
  specified vs (moves_to_front n) =
      at_place vs (get_elem? vs n) λ v. (v ∷ take n vs ++ drop (suc n) vs, [])
  specified vs (moves_to_back n) =
      at_place vs (get_elem? vs n) λ v. ((take n vs ++ drop (suc n) vs) ++ v ∷ [], [])
  specified vs clears = ([], [])

  -- The calls one after the other, with what each of them returns.
  abbrev pub run_calls : GList V → List (Call V) → Run (GList V × List (List V))
  run_calls l [] = ok (l, [])
  run_calls l (call ∷ calls) = do r ← called l call; s ← run_calls r.0 calls; ok (s.0, r.1 ∷ s.1)

  abbrev pub specified_calls : List V → List (Call V) → List V × List (List V)
  specified_calls vs [] = (vs, [])
  specified_calls vs (call ∷ calls) =
      let r = specified vs call in let s = specified_calls r.0 calls in (s.0, r.1 ∷ s.1)
