-- ===== src/Gutil/Tests.antt =====
-- The lemmas on comparators and on Try at concrete values.
use go_zero_admin_pkg.Prelude.{ℕ, ◌≡◌, refl, true, some, none, [], ◌∷◌, arith}
use go_zero_admin_pkg.Prelude.Int.{pos, is_pos}
use go_zero_admin_pkg.Prelude.Maps.Keys.{nat_key}
use go_zero_admin_pkg.Gcode.{LocalCode, local_codes, code_internal_panic}
use go_zero_admin_pkg.Gerror.{nil, error, code, unwrap}
use go_zero_admin_pkg.Gutil.{comparator_uint8, comparator_uint16, comparator_uint32}
use go_zero_admin_pkg.Gutil.Orders.{comparator_uints-never_less}
use go_zero_admin_pkg.Gutil.TryCatch.{Outcome, thrown_error, throw, try, try-internal_panic}

abbrev as_it_is : ℕ → ℕ
as_it_is n = n

comparator_uints-never_less_example :
    (is_pos (comparator_uint8 as_it_is 3 5) ≡ true)
    × (is_pos (comparator_uint16 as_it_is 3 5) ≡ true)
    × (is_pos (comparator_uint32 as_it_is 3 5) ≡ true)
comparator_uints-never_less_example =
    comparator_uints-never_less as_it_is 3 5 (omega arith) (omega arith)

abbrev failing : ℕ → ℕ × Outcome (LocalCode ℕ)
failing n = (
  7,
  throw (
      thrown_error
        (error nil [] (97 ∷ []) (some (record { code = pos 52; message = []; detail = none })))),
)

try-internal_panic_example :
    ((try [] (some failing) 1).0 ≡ 7)
    × (code (try [] (some failing) 1).1 ≡ some code_internal_panic)
    × (unwrap (try [] (some failing) 1).1 ≡ nil)
try-internal_panic_example =
    try-internal_panic [] failing 1 7 nil [] (97 ∷ [])
      (some (record { code = pos 52; message = []; detail = none })) refl
