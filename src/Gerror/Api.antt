-- ===== src/Gerror/Api.antt =====
-- utils/tools/gerror/gerror_api.go, gerror_api_code.go and gerror_api_option.go: the functions that make errors.
use go_zero_admin_pkg.Prelude.{ℕ, Bool, Option, some, List, [], if◌then◌else◌}
use go_zero_admin_pkg.Prelude.Maps.Keys.{nat_key}
use go_zero_admin_pkg.Gcode.{Codes}
use go_zero_admin_pkg.Gerror.{Text, AnyError, nil, error, join, is_nil, code}

-- The type Option, whose field Error is `wrapped` here.
pub record Options (C : Type 0) : Type 0 where
  pub wrapped : AnyError C
  pub stack : Bool
  pub text : Text
  pub code : Option C

module _ {C : Type 0} ⦃e : Codes C⦄ where
  -- The constructors; the text of Newf and the like is what fmt makes of its arguments,
  -- and the stack of those that skip callers what is left of it.
  unfoldable pub new : List ℕ → Text → AnyError C
  new callers text = error nil callers text (some e.code_nil)

  unfoldable pub newf : List ℕ → Text → AnyError C
  newf callers text = error nil callers text (some e.code_nil)

  unfoldable pub new_skip : List ℕ → Text → AnyError C
  new_skip callers text = error nil callers text (some e.code_nil)

  unfoldable pub new_skipf : List ℕ → Text → AnyError C
  new_skipf callers text = error nil callers text (some e.code_nil)

  unfoldable pub new_code : List ℕ → Option C → List Text → AnyError C
  new_code callers code text = error nil callers (join text) code

  unfoldable pub new_codef : List ℕ → Option C → Text → AnyError C
  new_codef callers code text = error nil callers text code

  unfoldable pub new_code_skip : List ℕ → Option C → List Text → AnyError C
  new_code_skip callers code text = error nil callers (join text) code

  unfoldable pub new_code_skipf : List ℕ → Option C → Text → AnyError C
  new_code_skipf callers code text = error nil callers text code

  unfoldable pub wrap : List ℕ → AnyError C → Text → AnyError C
  wrap callers err text = if is_nil err then nil else error err callers text (code err)

  unfoldable pub wrapf : List ℕ → AnyError C → Text → AnyError C
  wrapf callers err text = if is_nil err then nil else error err callers text (code err)

  unfoldable pub wrap_skip : List ℕ → AnyError C → Text → AnyError C
  wrap_skip callers err text = if is_nil err then nil else error err callers text (code err)

  unfoldable pub wrap_skipf : List ℕ → AnyError C → Text → AnyError C
  wrap_skipf callers err text = if is_nil err then nil else error err callers text (code err)

  unfoldable pub wrap_code : List ℕ → Option C → AnyError C → List Text → AnyError C
  wrap_code callers code err text = if is_nil err then nil else error err callers (join text) code

  unfoldable pub wrap_codef : List ℕ → Option C → AnyError C → Text → AnyError C
  wrap_codef callers code err text = if is_nil err then nil else error err callers text code

  unfoldable pub wrap_code_skip : List ℕ → Option C → AnyError C → List Text → AnyError C
  wrap_code_skip callers code err text =
      if is_nil err then nil else error err callers (join text) code

  unfoldable pub wrap_code_skipf : List ℕ → Option C → AnyError C → Text → AnyError C
  wrap_code_skipf callers code err text = if is_nil err then nil else error err callers text code

  unfoldable pub new_with_option : List ℕ → Options C → AnyError C
  new_with_option callers o = error o.wrapped (if o.stack then callers else []) o.text o.code

  unfoldable pub new_option : List ℕ → Options C → AnyError C
  new_option callers o = new_with_option callers o
