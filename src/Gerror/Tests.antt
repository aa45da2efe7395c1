-- ===== src/Gerror/Tests.antt =====
-- The lemmas on errors at concrete errors, with codes that have no detail.
use go_zero_admin_pkg.Prelude.{ℕ, ◌≡◌, refl, true, false, some, none, List, [], ◌∷◌}
use go_zero_admin_pkg.Prelude.Int.{pos}
use go_zero_admin_pkg.Prelude.Run.{ok}
use go_zero_admin_pkg.Prelude.Maps.Keys.{nat_key}
use go_zero_admin_pkg.Gcode.{LocalCode, local_codes}
use go_zero_admin_pkg.Gerror.{
  Text, AnyError, nil, error, coded, code, has_code, unwrap, error_text, cause, equal,
}
use go_zero_admin_pkg.Gerror.Api.{wrap, wrap_code}
use go_zero_admin_pkg.Gerror.Chains.{wrapped, wrap-codes, wrap_code-has_code, error_text-wrapped}
use go_zero_admin_pkg.Gerror.Causes.{cause-wrapped}
use go_zero_admin_pkg.Gerror.Equals.{equal-error}

abbrev code_of : ℕ → LocalCode ℕ
code_of n = record { code = pos n; message = []; detail = none }

abbrev root : AnyError (LocalCode ℕ)
root = coded (114 ∷ []) (some (code_of 52))

abbrev layers : List (List ℕ × Text)
layers = (1 ∷ [], 97 ∷ []) ∷ (2 ∷ [], 98 ∷ []) ∷ []

wrap-codes_example :
    (code (wrap [] root (97 ∷ [])) ≡ some (code_of 52))
    × (unwrap (wrap [] root (97 ∷ [])) ≡ root)
    × (has_code (wrap [] root (97 ∷ [])) (some (code_of 52)) ≡ true)
unfolding code has_code
wrap-codes_example = wrap-codes [] root (97 ∷ []) (some (code_of 52)) refl

wrap_code-has_code_example :
    has_code (wrap_code [] (some (code_of 53)) root ((97 ∷ []) ∷ [])) (some (code_of 52)) ≡ true
unfolding has_code
wrap_code-has_code_example =
    wrap_code-has_code [] (some (code_of 53)) (some (code_of 52)) root ((97 ∷ []) ∷ []) refl refl

error_text-wrapped_example :
    error_text (wrapped root layers) ≡ 98 ∷ 58 ∷ 32 ∷ 97 ∷ 58 ∷ 32 ∷ 114 ∷ []
unfolding error_text
error_text-wrapped_example = error_text-wrapped layers root refl (refl, (refl, tt))

cause-wrapped_example : cause (wrapped root layers) ≡ root
unfolding cause
cause-wrapped_example = cause-wrapped layers root refl refl

abbrev with : AnyError (LocalCode ℕ) → List ℕ → AnyError (LocalCode ℕ)
with inner callers = error inner callers (97 ∷ []) none

equal-error_example :
    (equal false (with nil []) (with nil (3 ∷ [])) ≡ ok true)
    × (equal false (with root []) (with root (3 ∷ [])) ≡ ok false)
equal-error_example = equal-error root [] (3 ∷ []) (97 ∷ []) none refl refl
