-- ===== src/Glist/Tests.antt =====
-- The lemmas on lists at concrete lists.
use go_zero_admin_pkg.Prelude.{ℕ, ◌≡◌, refl, true, List, [], ◌∷◌, arith}
use go_zero_admin_pkg.Prelude.Int.{pos}
use go_zero_admin_pkg.Glist.{Element, GList, move_to_front, move_to_back, move_before, move_after}
use go_zero_admin_pkg.Glist.Ids.{Numbered}
use go_zero_admin_pkg.Glist.Moves.{moves_lem}
use go_zero_admin_pkg.Glist.Deque.{
  Call, pushes_backs, inserts_after, pushes_front, removes_at, pops_backs,
}

abbrev element : ℕ → ℕ → Element ℕ
element i v = record { id = i; value = v }

abbrev four : GList ℕ
four = record {
  safe = true;
  elements = element 2 5 ∷ element 0 6 ∷ element 3 6 ∷ element 1 7 ∷ [];
  fresh = 4;
}

four-Numbered : Numbered 4 four.elements
four-Numbered =
    (omega arith, refl, (omega arith, refl, (omega arith, refl, (omega arith, refl, tt))))

-- On the values 5 and 7, between which 6 is inserted: the last two are popped from the back.
abbrev calls : List (Call ℕ)
calls =
    pushes_backs (5 ∷ 7 ∷ [])
    ∷ inserts_after 0 6
    ∷ pushes_front 4
    ∷ removes_at 0
    ∷ pops_backs (pos 2)
    ∷ []

moves_lem_example :
    ((move_to_front four (element 0 6)).elements
      ≡ element 0 6 ∷ element 2 5 ∷ element 3 6 ∷ element 1 7 ∷ [])
    × ((move_to_back four (element 0 6)).elements
        ≡ element 2 5 ∷ element 3 6 ∷ element 1 7 ∷ element 0 6 ∷ [])
    × ((move_before four (element 0 6) (element 1 7)).elements
        ≡ element 2 5 ∷ element 3 6 ∷ element 0 6 ∷ element 1 7 ∷ [])
    × ((move_after four (element 0 6) (element 1 7)).elements
        ≡ element 2 5 ∷ element 3 6 ∷ element 1 7 ∷ element 0 6 ∷ [])
moves_lem_example =
    moves_lem four (element 2 5 ∷ []) (element 3 6 ∷ element 1 7 ∷ [])
      (element 2 5 ∷ element 3 6 ∷ []) [] (element 0 6) (element 1 7) four-Numbered refl refl
