-- ===== src/Gset.antt =====
-- utils/tools/gset/gset_int_set.go: IntSet, over any items with an equality, since StrSet and Set have the
-- same code. `items` are the keys of the field `data`, a Go map of empty structs, which has them in any order;
-- a nil map has none. That a method tells the same set from an equal one makes no difference here.
pub mod Members
pub mod Algebra
pub mod Unique
mod Tests
use go_zero_admin_pkg.Prelude.{
  ℕ, suc, map, Bool, true, false, not, ◌&&◌, ◌||◌, List, [], ◌∷◌, length, take, drop, if◌then◌else◌,
  ◌==◌,
}
use go_zero_admin_pkg.Prelude.Int.{ℤ, pos, negsuc, ltb_ℤ, eq_ℤ, is_pos, to_ℕ, ◌+ℤ◌}
use go_zero_admin_pkg.Prelude.Maps.{Key, occurs}

pub record IntSet (K : Type 0) : Type 0 where
  pub safe : Bool
  pub items : List K

-- How many items Pops takes.
abbrev pub pops_size : ℤ → ℕ → ℤ
pops_size n len = if ltb_ℤ (pos len) n || eq_ℤ n (negsuc 0) then pos len else n

module _ {K : Type 0} where
  unfoldable pub new_int_set : Bool → IntSet K
  new_int_set safe = record { safe = safe; items = [] }

  unfoldable pub clear : IntSet K → IntSet K
  clear s = record s { items = [] }

  pub size : IntSet K → ℕ
  size s = length s.items

  unfoldable pub slice : IntSet K → List K
  slice s = s.items

  -- The callback has a state, and its Boolean tells whether to go on.
  iterator_loop : {S : Type 0} → (S → K → S × Bool) → S → List K → S
  iterator_loop f st [] = st
  iterator_loop f st (x ∷ xs) =
      let r = f st x in let rest = iterator_loop f r.0 xs in if r.1 then rest else r.0

  pub iterator : {S : Type 0} → IntSet K → (S → K → S × Bool) → S → S
  iterator s f st = iterator_loop f st (slice s)

  -- The item that the range over the map gives first, and the zero value of an empty set.
  pub pop : K → IntSet K → IntSet K × K
  pop zero_value s = elim s.items [ [] ↦ (s, zero_value) | x ∷ xs ↦ (record s { items = xs }, x) ]

  unfoldable pub pops : IntSet K → ℤ → IntSet K × List K
  pops s n =
      let taken = pops_size n (length s.items) in
      if not (is_pos taken)
      then (s, [])
      else (record s { items = drop (to_ℕ taken) s.items }, take (to_ℕ taken) s.items)

pub sum : IntSet ℤ → ℤ
sum s = sum_loop (pos 0) s.items
  where
    sum_loop : ℤ → List ℤ → ℤ
    sum_loop total [] = total
    sum_loop total (x ∷ xs) = sum_loop (total +ℤ x) xs

module _ {K : Type 0} ⦃e : Key K⦄ where
  -- `m[k] = struct{}{}` and `delete(m, k)`
  abbrev pub insert : K → List K → List K
  insert k xs = if occurs k xs then xs else k ∷ xs

  abbrev pub discard : K → List K → List K
  discard k [] = []
  discard k (x ∷ xs) = if e.beq x k then discard k xs else x ∷ discard k xs

  -- The loops that set each key of a slice or a map.
  abbrev pub inserts : List K → List K → List K
  inserts [] xs = xs
  inserts (k ∷ ks) xs = inserts ks (insert k xs)

  unfoldable pub new_int_set_from : List K → Bool → IntSet K
  new_int_set_from ks safe = record { safe = safe; items = inserts ks [] }

  unfoldable pub add : IntSet K → List K → IntSet K
  add s ks = record s { items = inserts ks s.items }

  unfoldable pub contains : IntSet K → K → Bool
  contains s k = occurs k s.items

  -- The result of the callback is `go_on`.
  unfoldable pub add_if_not_exist_func : IntSet K → K → Bool → IntSet K × Bool
  add_if_not_exist_func s k go_on =
      if not (occurs k s.items) && go_on
      then (record s { items = insert k s.items }, true)
      else (s, false)

  unfoldable pub add_if_not_exist : IntSet K → K → IntSet K × Bool
  add_if_not_exist s k =
      if not (occurs k s.items) then (record s { items = insert k s.items }, true) else (s, false)

  unfoldable pub add_if_not_exist_func_lock : IntSet K → K → Bool → IntSet K × Bool
  add_if_not_exist_func_lock s k go_on = add_if_not_exist_func s k go_on

  unfoldable pub remove : IntSet K → K → IntSet K
  remove s k = record s { items = discard k s.items }

  -- Whether each key of the one map is a key of the other.
  abbrev pub all_occur : List K → List K → Bool
  all_occur [] ys = true
  all_occur (x ∷ xs) ys = if occurs x ys then all_occur xs ys else false

  unfoldable pub equal : IntSet K → IntSet K → Bool
  equal s other =
      if length s.items == length other.items then all_occur s.items other.items else false

  unfoldable pub is_subset_of : IntSet K → IntSet K → Bool
  is_subset_of s other = all_occur s.items other.items

  unfoldable pub merge : IntSet K → List (IntSet K) → IntSet K
  merge s [] = s
  merge s (other ∷ others) = merge (record s { items = inserts other.items s.items }) others

  abbrev pub union_loop : List K → List (IntSet K) → List K → List K
  union_loop xs [] made = made
  union_loop xs (other ∷ others) made = union_loop xs others (inserts other.items (inserts xs made))

  unfoldable pub union : IntSet K → List (IntSet K) → IntSet K
  union s others = record { safe = false; items = union_loop s.items others [] }

  -- The keys of one map that are, or are not, keys of another, set in the new map.
  abbrev pub insert_if : Bool → List K → List K → List K → List K
  insert_if wanted [] ys made = made
  insert_if wanted (x ∷ xs) ys made =
      insert_if wanted xs ys
        (if (if wanted then occurs x ys else not (occurs x ys)) then insert x made else made)

  abbrev pub each_insert_if : Bool → List K → List (IntSet K) → List K → List K
  each_insert_if wanted xs [] made = made
  each_insert_if wanted xs (other ∷ others) made =
      each_insert_if wanted xs others (insert_if wanted xs other.items made)

  unfoldable pub diff : IntSet K → List (IntSet K) → IntSet K
  diff s others = record { safe = false; items = each_insert_if false s.items others [] }

  unfoldable pub intersect : IntSet K → List (IntSet K) → IntSet K
  intersect s others = record { safe = false; items = each_insert_if true s.items others [] }

  unfoldable pub complement : IntSet K → IntSet K → IntSet K
  complement s full = record { safe = false; items = insert_if false full.items s.items [] }

  unfoldable pub walk : IntSet K → (K → K) → IntSet K
  walk s f = record s { items = inserts (map f s.items) [] }

  unfoldable pub deep_copy : IntSet K → IntSet K
  deep_copy s = new_int_set_from s.items s.safe
