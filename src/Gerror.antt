-- ===== src/Gerror.antt =====
-- utils/tools/gerror: errors with a code, a text and a wrapped error. An interface value of type error is one of the
-- constructors: nil, a nil *Error, an *Error, or a foreign error that has at most one of the methods that gerror asks
-- for. A text is its bytes and a stack its program counters. A method on nil panics in Go where it reads a field.
pub mod Api
pub mod Chains
pub mod Causes
pub mod Equals
mod Tests
use go_zero_admin_pkg.Prelude.{
  ℕ, Bool, true, false, not, Option, none, some, List, [], ◌∷◌, ◌++◌, if◌then◌else◌,
}
use go_zero_admin_pkg.Prelude.Run.{Run, ok, panic}
use go_zero_admin_pkg.Prelude.Maps.{is_some}
use go_zero_admin_pkg.Prelude.Maps.Keys.{nat_key, beq_list}
use go_zero_admin_pkg.Gcode.{Codes}

abbrev pub Text : Type 0
Text = List ℕ

pub data AnyError (C : Type 0) : Type 0 where
  nil : AnyError C
  nil_error : AnyError C
  error : AnyError C → List ℕ → Text → Option C → AnyError C
  -- errors.New of the standard library, without any of the methods.
  plain : Text → AnyError C
  -- Foreign errors with Unwrap, Code, Cause and Stack.
  wrapper : Text → AnyError C → AnyError C
  coded : Text → Option C → AnyError C
  causing : Text → AnyError C → AnyError C
  stacked : Text → Text → AnyError C

-- `strings.Join(text, ", ")`
abbrev pub join : List Text → Text
join [] = []
join (t ∷ []) = t
join (t ∷ u ∷ texts) = t ++ 44 ∷ 32 ∷ join (u ∷ texts)

-- "%!s(<nil>)", which fmt writes for nil.
abbrev pub nil_text : Text
nil_text = 37 ∷ 33 ∷ 115 ∷ 40 ∷ 60 ∷ 110 ∷ 105 ∷ 108 ∷ 62 ∷ 41 ∷ []

abbrev pub is_empty : Text → Bool
is_empty [] = true
is_empty (b ∷ t) = false

module _ {C : Type 0} where
  abbrev pub is_nil : AnyError C → Bool
  is_nil nil = true
  is_nil _ = false

  -- Unwrap of gerror_api_stack.go, and the method of *Error.
  unfoldable pub unwrap : AnyError C → AnyError C
  unwrap (error inner s t c) = inner
  unwrap (wrapper t inner) = inner
  unwrap _ = nil

  -- Current, which drops what is wrapped.
  unfoldable pub current : AnyError C → AnyError C
  current nil_error = nil
  current (error inner s t c) = error nil s t c
  current e = e

  -- The method Cause of *Error: its loop, from the wrapped error and the text of the error around it.
  abbrev pub cause_loop : AnyError C → Text → AnyError C
  cause_loop nil t = plain t
  cause_loop nil_error t = nil
  cause_loop (error inner s u c) t = cause_loop inner u
  cause_loop (causing u e) t = e
  cause_loop e t = e

  -- Cause of gerror_api_stack.go.
  unfoldable pub cause : AnyError C → AnyError C
  cause nil = nil
  cause nil_error = nil
  cause (error inner s t c) = cause_loop inner t
  cause (causing t e) = e
  cause (wrapper t inner) = cause inner
  cause e = e

  -- No method Stack is declared for *Error.
  unfoldable pub has_stack : AnyError C → Bool
  has_stack (stacked t s) = true
  has_stack _ = false

  unfoldable pub set_code : AnyError C → Option C → AnyError C
  set_code (error inner s t c) code = error inner s t code
  set_code e code = e

module _ {C : Type 0} ⦃e : Codes C⦄ where
  abbrev pub same_code : Option C → Option C → Bool
  same_code none none = true
  same_code (some a) (some b) = e.beq a b
  same_code _ _ = false

  -- Code of gerror_api_code.go with the method of *Error.
  unfoldable pub code : AnyError C → Option C
  code (error inner s t c) =
      let rest = code inner in if same_code c (some e.code_nil) then rest else c
  code (coded t c) = c
  code (wrapper t inner) = code inner
  code _ = some e.code_nil

  unfoldable pub has_code : AnyError C → Option C → Bool
  has_code (error inner s t c) d =
      let rest = has_code inner d in if same_code d (code (error inner s t c)) then true else rest
  has_code (coded t c) d = same_code d c
  has_code (wrapper t inner) d = has_code inner d
  has_code nil_error d = same_code d (some e.code_nil)
  has_code _ d = false

  -- The text of an error, or the message of its code where the text is empty.
  abbrev pub own_text : Text → Option C → Text
  own_text [] none = []
  own_text [] (some c) = e.message c
  own_text (b ∷ t) c = b ∷ t

  -- The method Error.
  unfoldable pub error_text : AnyError C → Text
  error_text nil = []
  error_text nil_error = []
  error_text (error inner s t c) =
      let rest = error_text inner in
      let own = own_text t c in
      if is_nil inner then own else if is_empty own then rest else own ++ 58 ∷ 32 ∷ rest
  error_text (plain t) = t
  error_text (wrapper t inner) = t
  error_text (coded t c) = t
  error_text (causing t inner) = t
  error_text (stacked t s) = t

  -- Stack of gerror_api_stack.go.
  unfoldable pub stack : AnyError C → Text
  stack (stacked t s) = s
  stack err = error_text err

  -- `fmt.Sprintf("%-s", target)`
  abbrev pub formatted : AnyError C → Text
  formatted nil = nil_text
  formatted err = error_text err

  -- The method Equal of *Error; `same` is `err == target`, whether they are one pointer.
  unfoldable pub equal_error : Bool → AnyError C → AnyError C → Run Bool
  equal_error same (error inner s t c) target =
      if same
      then ok true
      else if same_code c (code target)
      then ok (beq_list t (formatted target))
      else ok false
  equal_error same err target = if same then ok true else panic

  -- Whether the error has the method Equal.
  abbrev pub has_equal : AnyError C → Bool
  has_equal nil_error = true
  has_equal (error inner s t c) = true
  has_equal _ = false

  unfoldable pub equal : Bool → AnyError C → AnyError C → Run Bool
  equal same err target =
      if same
      then ok true
      else if has_equal err
      then equal_error same err target
      else if has_equal target
      then equal_error same target err
      else ok false
