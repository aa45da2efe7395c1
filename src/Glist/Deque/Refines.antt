-- ===== src/Glist/Deque/Refines.antt =====
-- utils/tools/glist/glist.go: the calls on a list do what they do on the plain list of its values.
use mathlib.Core.List.{reverse}
use go_zero_admin_pkg.Prelude.{◌≡◌, List, length, get_elem?}
use go_zero_admin_pkg.Glist.{GList, front_all, back_all, front_value, back_value, size}

module _ {V : Type 0} where
  -- FrontAll, BackAll, FrontValue, BackValue and Len are those of the values.
  abbrev pub Shows : GList V → List V → Type 0
  Shows l vs =
      (front_all l ≡ vs)
      × (back_all l ≡ reverse vs)
      × (front_value l ≡ get_elem? vs 0)
      × (back_value l ≡ get_elem? (reverse vs) 0)
      × (size l ≡ length vs)
