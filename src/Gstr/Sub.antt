-- ===== src/Gstr/Sub.antt =====
-- utils/tools/gstr/gstr_sub.go: parts of a string by their bounds. A string is its bytes, and its runes for the methods
-- that work on runes; the parts are taken in the same way. An `int` has 64 bits, and wraps.
pub mod Plain
pub mod Between
use go_zero_admin_pkg.Prelude.{ℕ, Option, none, some, List, [], ◌++◌, length, if◌then◌else◌, ltb}
use go_zero_admin_pkg.Prelude.Int.{ℤ, pos, negsuc, is_neg, ltb_ℤ, eq_ℤ, ◌+ℤ◌, ◌-ℤ◌}
use go_zero_admin_pkg.Prelude.Run.{Run, ok, panic, ◌>>=◌, slice}
use go_zero_admin_pkg.Gutil.{wrapped}

-- The difference and the sum of two `int`s.
unfoldable pub minus : ℤ → ℤ → ℤ
minus a b = wrapped 8 (a -ℤ b)

unfoldable pub plus : ℤ → ℤ → ℤ
plus a b = wrapped 8 (a +ℤ b)

-- `start` after the first `if`, for a string of length `n`, or none where it lies behind the string.
abbrev pub start_index : ℤ → ℤ → Option ℤ
start_index start n =
    if is_neg start
    then some (if ltb_ℤ n (minus (pos 0) start) then pos 0 else plus n start)
    else if ltb_ℤ n start
    then none
    else some start

-- `realLength`, for a string of length `n` from `start` on.
abbrev pub real_length : Option ℤ → ℤ → ℤ → ℤ
real_length none start n = minus n start
real_length (some real) start n =
    if is_neg real
    then if ltb_ℤ (minus n start) (minus (pos 0) real) then pos 0 else plus (minus n start) real
    else if ltb_ℤ (minus n start) real
    then minus n start
    else real

-- `str[start:end]`, which panics for a negative index.
abbrev pub slice_int : List ℕ → ℤ → ℤ → Run (List ℕ)
slice_int str (pos start) (pos end) = slice str start end
slice_int str _ _ = panic

abbrev pub sub_from : List ℕ → Option ℤ → Option ℤ → Run (List ℕ)
sub_from str len none = ok []
sub_from str len (some start) =
    let real = real_length len start (pos (length str)) in
    if eq_ℤ real (pos (length str)) then ok str else slice_int str start (plus start real)

unfoldable pub sub_str : List ℕ → ℤ → Option ℤ → Run (List ℕ)
sub_str str start len = sub_from str len (start_index start (pos (length str)))

-- The same on runes, with the bound of `end` written out.
abbrev pub sub_rune_from : List ℕ → Option ℤ → Option ℤ → Run (List ℕ)
sub_rune_from runes len none = ok []
sub_rune_from runes len (some start) =
    let n = pos (length runes) in
    let end = plus start (real_length len start n) in
    slice_int runes start (if ltb_ℤ n end then n else end)

unfoldable pub sub_str_rune : List ℕ → ℤ → Option ℤ → Run (List ℕ)
sub_str_rune runes start len = sub_rune_from runes len (start_index start (pos (length runes)))

-- `str[0:length] + suffixStr`; a negative length panics.
unfoldable pub str_limit : List ℕ → ℤ → List ℕ → Run (List ℕ)
str_limit str (negsuc n) suffix = panic
str_limit str (pos n) suffix =
    if ltb (length str) n then ok str else slice str 0 n >>= λ front. ok (front ++ suffix)

unfoldable pub str_limit_rune : List ℕ → ℤ → List ℕ → Run (List ℕ)
str_limit_rune runes (negsuc n) suffix = panic
str_limit_rune runes (pos n) suffix =
    if ltb (length runes) n then ok runes else slice runes 0 n >>= λ front. ok (front ++ suffix)
