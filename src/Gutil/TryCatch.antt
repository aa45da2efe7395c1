-- ===== src/Gutil/TryCatch.antt =====
-- utils/tools/gutil/gutil_try_catch.go: Try and TryCatch. A function has a state, and returns or throws an exception: an
-- error that is not nil, or another value, which is the text that fmt makes of it.
use go_zero_admin_pkg.Prelude.{ℕ, ◌≡◌, refl, false, Option, none, some, List, if◌then◌else◌}
use go_zero_admin_pkg.Gcode.{Codes}
use go_zero_admin_pkg.Gerror.{
  Text, AnyError, nil, nil_error, error, plain, wrapper, coded, causing, stacked, is_nil, code,
  has_stack, error_text, unwrap,
}
use go_zero_admin_pkg.Gerror.Api.{new_codef}

pub data Thrown (C : Type 0) : Type 0 where
  thrown_error : AnyError C → Thrown C
  thrown_value : Text → Thrown C

pub data Outcome (C : Type 0) : Type 0 where
  returned : Outcome C
  threw : Thrown C → Outcome C

-- Throw panics with the exception.
abbrev pub throw : {C : Type 0} → Thrown C → Outcome C
throw exception = threw exception

module _ {C : Type 0} ⦃e : Codes C⦄ where
  -- What the deferred function makes of the end of `try`; `callers` is the stack there.
  abbrev pub recovered : List ℕ → Outcome C → AnyError C
  recovered callers returned = nil
  recovered callers (threw (thrown_error v)) =
      if has_stack v then v else new_codef callers (some e.code_internal_panic) (error_text v)
  recovered callers (threw (thrown_value t)) = new_codef callers (some e.code_internal_panic) t

  unfoldable pub try : {S : Type 0} → List ℕ → Option (S → S × Outcome C) → S → S × AnyError C
  try callers none s = (s, nil)
  try callers (some f) s = ((f s).0, recovered callers (f s).1)

  abbrev pub catch_error : {S : Type 0} → Option (S → AnyError C → S) → S → AnyError C → S
  catch_error none s err = s
  catch_error (some catch) s err = if is_nil err then s else catch s err

  unfoldable pub try_catch :
      {S : Type 0} → List ℕ → Option (S → S × Outcome C) → Option (S → AnyError C → S) → S → S
  try_catch callers none catch s = s
  try_catch callers (some f) catch s = let r = try callers (some f) s in catch_error catch r.0 r.1

  recovered-error :
      (callers : List ℕ) (inner : AnyError C) (s : List ℕ) (t : Text) (c : Option C)
      → code (recovered callers (threw (thrown_error (error inner s t c))))
        ≡ some e.code_internal_panic
  unfolding has_stack new_codef code
  recovered-error callers inner s t c = rw e.panic_apart refl

  -- Try of a function that throws an error of gerror returns an error with the code "Internal Panic", which
  -- wraps nothing, whatever the code of the thrown error and whatever it wraps; its state is kept.
  pub try-internal_panic :
      {S : Type 0} (callers : List ℕ) (f : S → S × Outcome C) (s after : S) (inner : AnyError C)
      (st : List ℕ) (t : Text) (c : Option C)
      → f s ≡ (after, throw (thrown_error (error inner st t c)))
      → ((try callers (some f) s).0 ≡ after)
        × (code (try callers (some f) s).1 ≡ some e.code_internal_panic)
        × (unwrap (try callers (some f) s).1 ≡ nil)
  unfolding try unwrap has_stack new_codef
  try-internal_panic callers f s after inner st t c h =
      rw h (refl, recovered-error callers inner st t c, refl)

  recovered-threw : (callers : List ℕ) (x : Thrown C) → is_nil (recovered callers (threw x)) ≡ false
  unfolding has_stack new_codef
  recovered-threw callers (thrown_value t) = refl
  recovered-threw callers (thrown_error nil) = refl
  recovered-threw callers (thrown_error nil_error) = refl
  recovered-threw callers (thrown_error (error inner s t c)) = refl
  recovered-threw callers (thrown_error (plain t)) = refl
  recovered-threw callers (thrown_error (wrapper t inner)) = refl
  recovered-threw callers (thrown_error (coded t c)) = refl
  recovered-threw callers (thrown_error (causing t inner)) = refl
  recovered-threw callers (thrown_error (stacked t s)) = refl

  -- TryCatch calls `catch`, on what Try makes of the exception, when the function `f` throws, and only then;
  -- without `catch` the exception is ignored.
  pub try_catch_lem :
      {S : Type 0} (callers : List ℕ) (f g : S → S × Outcome C) (catch : S → AnyError C → S) (s : S)
      (x : Thrown C)
      → (f s).1 ≡ threw x
      → (g s).1 ≡ returned
      → (try_catch callers (some f) (some catch) s ≡ catch (f s).0 (recovered callers (threw x)))
        × (try_catch callers (some g) (some catch) s ≡ (g s).0)
        × (try_catch callers (some f) none s ≡ (f s).0)
  unfolding try_catch try
  try_catch_lem callers f g catch s x h k =
      (rw (h, recovered-threw callers x) refl, rw k refl, refl)
