-- ===== src/Gerror/Causes.antt =====
-- utils/tools/gerror: the root cause of a chain of errors.
use go_zero_admin_pkg.Prelude.{ℕ, ◌≡◌, refl, ap, ◌∙◌, Bool, true, false, List, [], ◌∷◌}
use go_zero_admin_pkg.Gcode.{Codes}
use go_zero_admin_pkg.Gerror.{
  Text, AnyError, nil, nil_error, error, plain, wrapper, coded, causing, stacked, is_nil, code,
  cause, cause_loop,
}
use go_zero_admin_pkg.Gerror.Api.{wrap}
use go_zero_admin_pkg.Gerror.Chains.{wrapped, wrap-error}

-- Whether the error has Unwrap but not Cause.
abbrev pub is_wrapper : {C : Type 0} → AnyError C → Bool
is_wrapper (wrapper t inner) = true
is_wrapper _ = false

module _ {C : Type 0} ⦃e : Codes C⦄ where
  cause_loop-cause :
      (err : AnyError C) (t : Text)
      → is_nil err ≡ false
      → is_wrapper err ≡ false
      → cause_loop err t ≡ cause err
  unfolding cause
  cause_loop-cause nil t n w = absurd (cc)
  cause_loop-cause nil_error t n w = refl
  cause_loop-cause (error inner s u c) t n w = refl
  cause_loop-cause (plain u) t n w = refl
  cause_loop-cause (wrapper u inner) t n w = absurd (cc)
  cause_loop-cause (coded u c) t n w = refl
  cause_loop-cause (causing u inner) t n w = refl
  cause_loop-cause (stacked u s) t n w = refl

  cause-error :
      (err : AnyError C) (s : List ℕ) (t : Text)
      → is_nil err ≡ false
      → is_wrapper err ≡ false
      → cause (error err s t (code err)) ≡ cause err
  unfolding cause
  cause-error err s t n w = cause_loop-cause err t n w

  -- Wrapping an error any number of times keeps its cause, unless it is a foreign error that has Unwrap and
  -- not Cause.
  pub cause-wrapped :
      (layers : List (List ℕ × Text)) (err : AnyError C)
      → is_nil err ≡ false
      → is_wrapper err ≡ false
      → cause (wrapped err layers) ≡ cause err
  cause-wrapped [] err n w = refl
  cause-wrapped ((s, t) ∷ layers) err n w =
      let made = wrap-error s err t n in
      cause-wrapped layers (wrap s err t) (ap is_nil made) (ap is_wrapper made)
      ∙ ap cause made
      ∙ cause-error err s t n w

  -- The cause of a foreign error that has only Unwrap is that of the error in it; once it is wrapped, its
  -- cause is the foreign error itself.
  pub cause-wrapper :
      (s : List ℕ) (t u : Text) (inner : AnyError C)
      → (cause (wrapper u inner) ≡ cause inner)
        × (cause (wrap s (wrapper u inner) t) ≡ wrapper u inner)
  unfolding cause wrap
  cause-wrapper s t u inner = (refl, refl)
