-- ===== src/Gstr/Tests.antt =====
-- The lemmas on strings at concrete strings.
use go_zero_admin_pkg.Prelude.{ℕ, ◌+◌, ◌*◌, ◌-◌, ◌≡◌, refl, true, none, some, List, [], ◌∷◌, arith}
use go_zero_admin_pkg.Prelude.Int.{ℤ, pos, negsuc, ◌≤ℤ◌, ◌+ℤ◌, ◌-ℤ◌}
use go_zero_admin_pkg.Prelude.Run.{ok, panic}
use go_zero_admin_pkg.Garray.Order.{IsComparator}
use go_zero_admin_pkg.Gstr.{levenshtein}
use go_zero_admin_pkg.Gstr.Distance.Scripts.{
  Edit, matched, deleted, source, target, cost, levenshtein-least,
}
use go_zero_admin_pkg.Gstr.Slashes.{
  strip_slashes, add_slashes, quote_meta, quote_meta_chars, strip_slashes-escapes,
}
use go_zero_admin_pkg.Gstr.Sub.{minus, plus, sub_str, sub_str_rune}
use go_zero_admin_pkg.Gstr.Sub.Between.{sub_str-between}
use go_zero_admin_pkg.Gstr.Version.{compare_version, is_gnu_version}
use go_zero_admin_pkg.Gstr.Version.Order.{version_order, compare_version-IsComparator}
use go_zero_admin_pkg.Gstr.Version.Gnu.{is_gnu_version-numbered}

-- From "abc" to "xc" by way of "xb".
abbrev script : List Edit
script = matched 97 120 ∷ deleted 98 ∷ matched 99 99 ∷ []

levenshtein-least_example :
    (d : ℤ) × (levenshtein (pos 2) (pos 3) (pos 4) (97 ∷ 98 ∷ 99 ∷ []) (120 ∷ 99 ∷ []) ≡ ok d)
    × (d ≤ℤ cost (pos 2) (pos 3) (pos 4) script)
    × ((best : List Edit) × (source best ≡ 97 ∷ 98 ∷ 99 ∷ [])
        × (target best ≡ 120 ∷ 99 ∷ [])
        × (cost (pos 2) (pos 3) (pos 4) best ≡ d))
levenshtein-least_example =
    levenshtein-least (pos 2) (pos 3) (pos 4) script (omega arith) (omega arith)

-- The number that decimal digits are.
abbrev number_from : ℕ → List ℕ → ℤ
number_from n [] = pos n
number_from n (b ∷ s) = number_from (10 * n + (b - 48)) s

compare_version-IsComparator_example :
    ((a b : List ℕ) → compare_version (number_from 0) a b ≡ ok (version_order (number_from 0) a b))
    × IsComparator (version_order (number_from 0))
compare_version-IsComparator_example = compare_version-IsComparator (number_from 0)

is_gnu_version-numbered_example : is_gnu_version (118 ∷ 49 ∷ 46 ∷ 48 ∷ []) ≡ true
is_gnu_version-numbered_example = is_gnu_version-numbered (118 ∷ 49 ∷ 46 ∷ 48 ∷ [])

-- Quotes and a backslash.
strip_slashes-escapes_example :
    (strip_slashes (add_slashes (39 ∷ 92 ∷ 97 ∷ [])) ≡ 39 ∷ 92 ∷ 97 ∷ [])
    × (strip_slashes (quote_meta (39 ∷ 92 ∷ 97 ∷ [])) ≡ 39 ∷ 92 ∷ 97 ∷ [])
    × (strip_slashes (quote_meta_chars (39 ∷ 92 ∷ 97 ∷ []) (97 ∷ 92 ∷ [])) ≡ 39 ∷ 92 ∷ 97 ∷ [])
strip_slashes-escapes_example = strip_slashes-escapes (39 ∷ 92 ∷ 97 ∷ []) (97 ∷ 92 ∷ []) refl

-- The last three bytes but the last one.
sub_str-between_example :
    (sub_str (97 ∷ 98 ∷ 99 ∷ 100 ∷ []) (negsuc 2) (some (negsuc 0)) ≡ ok (98 ∷ 99 ∷ []))
    × (sub_str_rune (97 ∷ 98 ∷ 99 ∷ 100 ∷ []) (negsuc 2) (some (negsuc 0)) ≡ ok (98 ∷ 99 ∷ []))
sub_str-between_example =
    sub_str-between (97 ∷ 98 ∷ 99 ∷ 100 ∷ []) (negsuc 2) (some (negsuc 0)) (omega arith)
      (omega arith) (omega arith)

-- The least `int` is its own negation, so the start stays below 0.
sub_str_least : sub_str (97 ∷ 98 ∷ []) (negsuc 9223372036854775807) none ≡ panic
unfolding sub_str minus plus ◌-ℤ◌ ◌+ℤ◌
sub_str_least = refl

-- "v1.0" is at least "1", and "1.2" is below "1.10".
shorter : compare_version (number_from 0) (118 ∷ 49 ∷ 46 ∷ 48 ∷ []) (49 ∷ []) ≡ ok (pos 0)
unfolding compare_version
shorter = refl

by_number :
    compare_version (number_from 0) (49 ∷ 46 ∷ 50 ∷ []) (49 ∷ 46 ∷ 49 ∷ 48 ∷ []) ≡ ok (negsuc 0)
unfolding compare_version
by_number = refl
