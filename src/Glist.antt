-- ===== src/Glist.antt =====
-- utils/tools/glist/glist.go: List over Go's container/list. An element is its value with a number
-- that no other element of the list ever has, in place of Go's pointer; `fresh` is the next such number.
-- A method is given elements of its own list, or elements that were removed from it: container/list leaves an
-- element of another list alone, which the number does not tell, so such a call is not modelled.
-- A list whose inner list is still nil is the empty list. A method returns the new list with its results.
pub mod Ids
pub mod Ends
pub mod Moves
pub mod Steps
pub mod Deque
mod Tests
use mathlib.Core.List.{reverse}
use go_zero_admin_pkg.Prelude.{
  ℕ, zero, suc, Bool, true, false, Option, none, some, List, [], ◌∷◌, ◌++◌, map, length, ltb, ◌==◌,
  ◌&&◌, if◌then◌else◌,
}
use go_zero_admin_pkg.Prelude.Int.{ℤ, pos, negsuc, is_pos, to_ℕ, ltb_ℤ}
use go_zero_admin_pkg.Prelude.Run.{Run, ok, panic, ◌>>=◌}
use go_zero_admin_pkg.Prelude.Maps.{is_some}

pub record Element (V : Type 0) : Type 0 where
  pub id : ℕ
  pub value : V

pub record GList (V : Type 0) : Type 0 where
  pub safe : Bool
  pub elements : List (Element V)
  pub fresh : ℕ

-- How many elements PopBacks and PopFronts take.
abbrev pub count : ℤ → ℕ → ℕ
count max n = if is_pos max && ltb_ℤ max (pos n) then to_ℕ max else n

module _ {V : Type 0} where
  unfoldable pub new : Bool → GList V
  new safe = record { safe = safe; elements = []; fresh = 0 }

  unfoldable pub push_front : GList V → V → GList V × Element V
  push_front l v =
      let e : Element V = record { id = l.fresh; value = v } in
      (record l { elements = e ∷ l.elements; fresh = suc l.fresh }, e)

  unfoldable pub push_back : GList V → V → GList V × Element V
  push_back l v =
      let e : Element V = record { id = l.fresh; value = v } in
      (record l { elements = l.elements ++ e ∷ []; fresh = suc l.fresh }, e)

  unfoldable pub push_fronts : GList V → List V → GList V
  push_fronts l [] = l
  push_fronts l (v ∷ values) = push_fronts (push_front l v).0 values

  unfoldable pub push_backs : GList V → List V → GList V
  push_backs l [] = l
  push_backs l (v ∷ values) = push_backs (push_back l v).0 values

  pub new_from : List V → Bool → GList V
  unfolding new
  new_from array safe = push_backs (new safe) array

  -- The element with the number, if it is in the list, and the list without it.
  abbrev pub member : ℕ → List (Element V) → Bool
  member i [] = false
  member i (x ∷ xs) = if x.id == i then true else member i xs

  abbrev pub take_out : ℕ → List (Element V) → List (Element V)
  take_out i [] = []
  take_out i (x ∷ xs) = if x.id == i then xs else x ∷ take_out i xs

  -- `e` is, or was, an element of this list; once removed, it is only read. The value is returned in any case.
  unfoldable pub remove : GList V → Element V → GList V × V
  remove l e = (record l { elements = take_out e.id l.elements }, e.value)

  unfoldable pub removes : GList V → List (Element V) → GList V
  removes l [] = l
  removes l (e ∷ es) = removes (remove l e).0 es

  abbrev pub first : List (Element V) → Option (Element V)
  first [] = none
  first (x ∷ xs) = some x

  abbrev pub final : List (Element V) → Option (Element V)
  final [] = none
  final (x ∷ []) = some x
  final (x ∷ y ∷ xs) = final (y ∷ xs)

  -- `e.Prev()` of container/list: the element in front of the one with the number.
  abbrev pub prev : ℕ → List (Element V) → Option (Element V)
  prev i [] = none
  prev i (x ∷ []) = none
  prev i (x ∷ y ∷ xs) = if y.id == i then some x else prev i (y ∷ xs)

  pub front : GList V → Option (Element V)
  front l = first l.elements

  pub back : GList V → Option (Element V)
  back l = final l.elements

  -- What PopFront and PopBack do with the element at that end.
  abbrev pub pop_at : GList V → Option (Element V) → GList V × Option V
  pop_at l none = (l, none)
  pop_at l (some e) = let (m, v) = remove l e in (m, some v)

  unfoldable pub pop_front : GList V → GList V × Option V
  pop_front l = pop_at l (first l.elements)

  unfoldable pub pop_back : GList V → GList V × Option V
  pop_back l = pop_at l (final l.elements)

  -- The loops of PopBacks and PopFronts; `Remove` of a nil element would panic.
  pop_backs_loop : ℕ → GList V → List V → Run (GList V × List V)
  pop_backs_loop zero l values = ok (l, values)
  pop_backs_loop (suc n) l values = elim (final l.elements) [
    | none ↦ panic
    | some e ↦ pop_backs_loop n (remove l e).0 (values ++ e.value ∷ [])
  ]

  pop_fronts_loop : ℕ → GList V → List V → Run (GList V × List V)
  pop_fronts_loop zero l values = ok (l, values)
  pop_fronts_loop (suc n) l values = elim (first l.elements) [
    | none ↦ panic
    | some e ↦ pop_fronts_loop n (remove l e).0 (values ++ e.value ∷ [])
  ]

  pub pop_backs : GList V → ℤ → Run (GList V × List V)
  unfolding pop_backs_loop
  pop_backs l max = pop_backs_loop (count max (length l.elements)) l []

  pub pop_fronts : GList V → ℤ → Run (GList V × List V)
  unfolding pop_fronts_loop
  pop_fronts l max = pop_fronts_loop (count max (length l.elements)) l []

  pub pop_back_all : GList V → Run (GList V × List V)
  unfolding pop_backs
  pop_back_all l = pop_backs l (negsuc 0)

  pub pop_front_all : GList V → Run (GList V × List V)
  unfolding pop_fronts
  pop_front_all l = pop_fronts l (negsuc 0)

  abbrev pub values : List (Element V) → List V
  values = map (λ e. e.value)

  pub front_all : GList V → List V
  front_all l = values l.elements

  pub back_all : GList V → List V
  back_all l = values (reverse l.elements)

  abbrev pub value_of : Option (Element V) → Option V
  value_of none = none
  value_of (some e) = some e.value

  pub front_value : GList V → Option V
  front_value l = value_of (first l.elements)

  pub back_value : GList V → Option V
  back_value l = value_of (final l.elements)

  pub size : GList V → ℕ
  size l = length l.elements

  -- The list with `e` before, or behind, the element with the number.
  abbrev pub insert_at : Bool → ℕ → Element V → List (Element V) → List (Element V)
  insert_at before i e [] = []
  insert_at before i e (x ∷ xs) =
      if x.id == i then (if before then e ∷ x ∷ xs else x ∷ e ∷ xs) else x ∷ insert_at before i e xs

  -- MoveBefore and MoveAfter: nothing unless both are in the list and differ.
  abbrev pub move_to : Bool → GList V → Element V → Element V → GList V
  move_to before l e p =
      if member e.id l.elements && member p.id l.elements
      then if e.id == p.id
        then l
        else record l { elements = insert_at before p.id e (take_out e.id l.elements) }
      else l

  pub move_before : GList V → Element V → Element V → GList V
  move_before l e p = move_to true l e p

  pub move_after : GList V → Element V → Element V → GList V
  move_after l e p = move_to false l e p

  pub move_to_front : GList V → Element V → GList V
  move_to_front l e =
      if member e.id l.elements then record l { elements = e ∷ take_out e.id l.elements } else l

  pub move_to_back : GList V → Element V → GList V
  move_to_back l e =
      if member e.id l.elements
      then record l { elements = take_out e.id l.elements ++ e ∷ [] }
      else l

  -- container/list copies the values that the other list has at the start.
  pub push_back_list : GList V → GList V → GList V
  push_back_list l other = push_backs l (values other.elements)

  pub push_front_list : GList V → GList V → GList V
  push_front_list l other = push_fronts l (values (reverse other.elements))

  -- `none` where `p` is not in the list.
  abbrev pub insert_next : Bool → GList V → Element V → V → GList V × Option (Element V)
  insert_next before l p v =
      let e : Element V = record { id = l.fresh; value = v } in
      if member p.id l.elements
      then (record l { elements = insert_at before p.id e l.elements; fresh = suc l.fresh }, some e)
      else (l, none)

  pub insert_after : GList V → Element V → V → GList V × Option (Element V)
  insert_after l p v = insert_next false l p v

  pub insert_before : GList V → Element V → V → GList V × Option (Element V)
  insert_before l p v = insert_next true l p v

  unfoldable pub remove_all : GList V → GList V
  remove_all l = record l { elements = [] }

  unfoldable pub clear : GList V → GList V
  clear l = remove_all l

  -- The callback has a state, and its Boolean tells whether to go on.
  unfoldable pub asc_loop : {S : Type 0} → (S → Element V → S × Bool) → S → List (Element V) → S
  asc_loop f s [] = s
  asc_loop f s (x ∷ xs) = let r = f s x in let rest = asc_loop f r.0 xs in if r.1 then rest else r.0

  unfoldable pub iterator_asc : {S : Type 0} → GList V → (S → Element V → S × Bool) → S → S
  iterator_asc l f s = asc_loop f s l.elements

  pub iterator : {S : Type 0} → GList V → (S → Element V → S × Bool) → S → S
  iterator l f s = iterator_asc l f s

  unfoldable pub iterator_desc : {S : Type 0} → GList V → (S → Element V → S × Bool) → S → S
  iterator_desc l f s = asc_loop f s (reverse l.elements)
