-- ===== src/Gstr/Version.antt =====
-- utils/tools/gstr/gstr_version.go: IsGNUVersion and CompareVersion. `int_of` is what gconv.Int makes of a part.
pub mod Order
pub mod Gnu
use go_zero_admin_pkg.Prelude.{
  ℕ, zero, suc, ◌+◌, ◌-◌, Bool, true, false, not, List, [], ◌∷◌, ◌++◌, length, replicate,
  if◌then◌else◌, ltb, ◌==◌, ◌||◌, ◌&&◌,
}
use go_zero_admin_pkg.Prelude.Int.{ℤ, pos, negsuc, ltb_ℤ}
use go_zero_admin_pkg.Prelude.Run.{Run, ok, panic}

abbrev pub onto_first : ℕ → List (List ℕ) → List (List ℕ)
onto_first b [] = (b ∷ []) ∷ []
onto_first b (part ∷ parts) = (b ∷ part) ∷ parts

-- `strings.Split(s, ".")`: the part in front of the first dot, and the parts behind it.
abbrev pub split_dots : List ℕ → List (List ℕ)
split_dots [] = [] ∷ []
split_dots (b ∷ s) = let rest = split_dots s in if b == 46 then [] ∷ rest else onto_first b rest

abbrev pub is_digit : ℕ → Bool
is_digit b = not (ltb b 48) && not (ltb 57 b)

abbrev pub is_sign : ℕ → Bool
is_sign b = b == 45 || b == 43

-- The loop of IsNumeric of utils_str.go from `i` on.
abbrev pub numeric_loop : ℕ → ℕ → ℕ → List ℕ → Bool
numeric_loop len i dots [] = not (ltb 1 dots)
numeric_loop len i dots (b ∷ s) =
    let signed = numeric_loop len (suc i) dots s in
    let dotted = numeric_loop len (suc i) (suc dots) s in
    let digit = numeric_loop len (suc i) dots s in
    if is_sign b && i == 0
    then if len == 1 then false else signed
    else if b == 46
    then if ltb 0 i && ltb (suc i) len then dotted else false
    else if is_digit b
    then digit
    else false

unfoldable pub is_numeric : List ℕ → Bool
is_numeric [] = false
is_numeric (b ∷ s) = numeric_loop (length (b ∷ s)) 0 0 (b ∷ s)

-- The version without a `v` in front; IsGNUVersion also takes a `V` off.
abbrev pub strip_v : List ℕ → List ℕ
strip_v [] = []
strip_v (b ∷ s) = if b == 118 then s else b ∷ s

abbrev pub strip_any_v : List ℕ → List ℕ
strip_any_v [] = []
strip_any_v (b ∷ s) = if b == 118 || b == 86 then s else b ∷ s

-- The loop over the parts.
abbrev pub gnu_parts : List (List ℕ) → Bool
gnu_parts [] = true
gnu_parts ([] ∷ parts) = false
gnu_parts ((b ∷ part) ∷ parts) =
    let rest = gnu_parts parts in
    if not (is_numeric (b ∷ part)) then false else if is_sign b then false else rest

abbrev pub gnu_stripped : List ℕ → Bool
gnu_stripped [] = false
gnu_stripped (b ∷ s) =
    if ltb 3 (length (split_dots (b ∷ s))) then false else gnu_parts (split_dots (b ∷ s))

unfoldable pub is_gnu_version : List ℕ → Bool
is_gnu_version version = gnu_stripped (strip_any_v version)

-- The loops that append "0" until there are as many parts as in the other array.
abbrev pub fill_up : List (List ℕ) → List (List ℕ) → List (List ℕ)
fill_up parts other = parts ++ replicate (length other - length parts) (48 ∷ [])

module _ (int_of : List ℕ → ℤ) where
  abbrev pub compare_parts : List (List ℕ) → List (List ℕ) → Run ℤ
  compare_parts [] ys = ok (pos 0)
  compare_parts (x ∷ xs) [] = panic
  compare_parts (x ∷ xs) (y ∷ ys) =
      let rest = compare_parts xs ys in
      if ltb_ℤ (int_of y) (int_of x)
      then ok (pos 1)
      else if ltb_ℤ (int_of x) (int_of y)
      then ok (negsuc 0)
      else rest

  unfoldable pub compare_version : List ℕ → List ℕ → Run ℤ
  compare_version a b =
      let array1 = split_dots (strip_v a) in
      let array2 = split_dots (strip_v b) in
      let filled = fill_up array1 array2 in compare_parts filled (fill_up array2 filled)
