-- ===== src/Gerror/Chains.antt =====
-- utils/tools/gerror: codes and texts of errors that were wrapped.
use go_zero_admin_pkg.Prelude.{
  ℕ, ◌≡◌, refl, sym, ap, ◌∙◌, Bool, true, false, ◌||◌, Option, none, some, List, [], ◌∷◌, ◌++◌,
  if◌then◌else◌, arith, Bool-cases, inl, inr, ◌⊎◌,
}
use go_zero_admin_pkg.Gcode.{Codes}
use go_zero_admin_pkg.Gerror.{
  Text, AnyError, nil, nil_error, error, plain, wrapper, coded, causing, stacked, is_nil, is_empty,
  same_code, code, has_code, error_text, unwrap,
}
use go_zero_admin_pkg.Gerror.Api.{wrap, wrap_code}

-- The error wrapped once for each stack and text, the last around all others.
abbrev pub wrapped : {C : Type 0} ⦃e : Codes C⦄ → AnyError C → List (List ℕ × Text) → AnyError C
wrapped err [] = err
wrapped err ((s, t) ∷ layers) = wrapped (wrap s err t) layers

-- No text is empty.
abbrev pub Worded : List (List ℕ × Text) → Type 0
Worded [] = Unit {0}
Worded ((s, t) ∷ layers) = (is_empty t ≡ false) × Worded layers

-- The texts in front of the first, each with ": " behind it, the last first.
abbrev pub prefixed : List (List ℕ × Text) → Text → Text
prefixed [] text = text
prefixed ((s, t) ∷ layers) text = prefixed layers (t ++ 58 ∷ 32 ∷ text)

module _ {C : Type 0} ⦃e : Codes C⦄ where
  pub same_code_iff : (a b : Option C) → same_code a b ≡ true → a ≡ b
  same_code_iff none none h = refl
  same_code_iff none (some b) h = absurd (cc)
  same_code_iff (some a) none h = absurd (cc)
  same_code_iff (some a) (some b) h = ap some ((e.beq_iff a b).0 h)

  pub same_code_refl : (a : Option C) → same_code a a ≡ true
  same_code_refl none = refl
  same_code_refl (some a) = (e.beq_iff a a).1 refl

  -- An error that has a code is found by HasCode to have it.
  has_code-code :
      (err : AnyError C)
      → same_code (code err) (some e.code_nil) ≡ false
      → has_code err (code err) ≡ true
  unfolding code has_code
  has_code-code nil h = absurd (let r = same_code_refl (some e.code_nil) in cc)
  has_code-code nil_error h = absurd (let r = same_code_refl (some e.code_nil) in cc)
  has_code-code (error inner s t c) h = rw (same_code_refl (code (error inner s t c))) refl
  has_code-code (plain t) h = absurd (let r = same_code_refl (some e.code_nil) in cc)
  has_code-code (wrapper t inner) h = has_code-code inner h
  has_code-code (coded t c) h = same_code_refl c
  has_code-code (causing t inner) h = absurd (let r = same_code_refl (some e.code_nil) in cc)
  has_code-code (stacked t s) h = absurd (let r = same_code_refl (some e.code_nil) in cc)

  code-error :
      (err : AnyError C) (s : List ℕ) (t : Text) → code (error err s t (code err)) ≡ code err
  unfolding code
  code-error err s t = if_same (same_code (code err) (some e.code_nil))
    where
      if_same : (b : Bool) → (if b then code err else code err) ≡ code err
      if_same true = refl
      if_same false = refl

  code-wrap : (s : List ℕ) (err : AnyError C) (t : Text) → code (wrap s err t) ≡ code err
  unfolding wrap
  code-wrap s nil t = refl
  code-wrap s nil_error t = code-error nil_error s t
  code-wrap s (error inner r u c) t = code-error (error inner r u c) s t
  code-wrap s (plain u) t = code-error (plain u) s t
  code-wrap s (wrapper u inner) t = code-error (wrapper u inner) s t
  code-wrap s (coded u c) t = code-error (coded u c) s t
  code-wrap s (causing u inner) t = code-error (causing u inner) s t
  code-wrap s (stacked u r) t = code-error (stacked u r) s t

  unwrap-wrap : (s : List ℕ) (err : AnyError C) (t : Text) → unwrap (wrap s err t) ≡ err
  unfolding wrap unwrap
  unwrap-wrap s nil t = refl
  unwrap-wrap s nil_error t = refl
  unwrap-wrap s (error inner r u c) t = refl
  unwrap-wrap s (plain u) t = refl
  unwrap-wrap s (wrapper u inner) t = refl
  unwrap-wrap s (coded u c) t = refl
  unwrap-wrap s (causing u inner) t = refl
  unwrap-wrap s (stacked u r) t = refl

  pub nil-cases : (err : AnyError C) → (err ≡ nil) ⊎ (is_nil err ≡ false)
  nil-cases nil = inl refl
  nil-cases nil_error = inr refl
  nil-cases (error inner s t c) = inr refl
  nil-cases (plain t) = inr refl
  nil-cases (wrapper t inner) = inr refl
  nil-cases (coded t c) = inr refl
  nil-cases (causing t inner) = inr refl
  nil-cases (stacked t s) = inr refl

  pub wrap-error :
      (s : List ℕ) (err : AnyError C) (t : Text)
      → is_nil err ≡ false
      → wrap s err t ≡ error err s t (code err)
  unfolding wrap
  wrap-error s err t h = rw h refl

  -- A code found as the code of the error is found in the error.
  own_code :
      (err : AnyError C) (d : Option C)
      → same_code d (some e.code_nil) ≡ false
      → (if same_code d (code err) then true else has_code err d) ≡ has_code err d
  own_code err d h = elim (Bool-cases (same_code d (code err))) [
    | inr c ↦ rw c refl
    | inl c ↦
        let same = same_code_iff d (code err) c in
        let apart : same_code (code err) (some e.code_nil) ≡ false =
          ap (λ x. same_code x (some e.code_nil)) (sym same) ∙ h in
        rw c (sym (ap (has_code err) same ∙ has_code-code err apart))
  ]

  has_code-error :
      (err : AnyError C) (s : List ℕ) (t : Text) (c d : Option C)
      → has_code (error err s t c) d
        ≡ (if same_code d (code (error err s t c)) then true else has_code err d)
  unfolding has_code
  has_code-error err s t c d = refl

  -- Wrap keeps every code but CodeNil: Code of the wrapped error is Code of the error, Unwrap gives
  -- the error back, and HasCode finds the codes that it found in the error.
  pub wrap-codes :
      (s : List ℕ) (err : AnyError C) (t : Text) (d : Option C)
      → same_code d (some e.code_nil) ≡ false
      → (code (wrap s err t) ≡ code err)
        × (unwrap (wrap s err t) ≡ err)
        × (has_code (wrap s err t) d ≡ has_code err d)
  unfolding wrap
  wrap-codes s err t d h = (
    code-wrap s err t,
    unwrap-wrap s err t,
    elim (nil-cases err) [
      | inl n ↦ rw n refl
      | inr n ↦
          ap (λ x. has_code x d) (wrap-error s err t n)
          ∙ has_code-error err s t (code err) d
          ∙ ap (λ c. if same_code d c then true else has_code err d) (code-error err s t)
          ∙ own_code err d h
    ],
  )

  -- WrapCode of an error adds a code to those that HasCode finds; with CodeNil it adds none.
  pub wrap_code-has_code :
      (s : List ℕ) (c d : Option C) (err : AnyError C) (texts : List Text)
      → is_nil err ≡ false
      → same_code d (some e.code_nil) ≡ false
      → has_code (wrap_code s c err texts) d ≡ (same_code d c || has_code err d)
  unfolding wrap_code has_code code
  wrap_code-has_code s c d err texts n h = elim (Bool-cases (same_code c (some e.code_nil))) [
    | inr k ↦ rw (n, k) (ground arith)
    | inl k ↦
        let own = own_code err d h in
        let same = same_code_iff c (some e.code_nil) k in
        let apart : same_code d c ≡ false = ap (same_code d) same ∙ h in rw (n, k, apart) own
  ]

  pub worded :
      (err : AnyError C) (s : List ℕ) (t : Text) (c : Option C)
      → is_nil err ≡ false
      → is_empty t ≡ false
      → error_text (error err s t c) ≡ t ++ 58 ∷ 32 ∷ error_text err
  unfolding error_text
  worded err s [] c n k = absurd (cc)
  worded err s (b ∷ t) c n k = rw n refl

  error_text-wrap :
      (s : List ℕ) (err : AnyError C) (t : Text)
      → is_nil err ≡ false
      → is_empty t ≡ false
      → error_text (wrap s err t) ≡ t ++ 58 ∷ 32 ∷ error_text err
  error_text-wrap s err t n w = ap error_text (wrap-error s err t n) ∙ worded err s t (code err) n w

  -- The text of an error that was wrapped with texts that are not empty is those texts, the last first,
  -- each with ": " behind it, and then the text of the error.
  pub error_text-wrapped :
      (layers : List (List ℕ × Text)) (err : AnyError C)
      → is_nil err ≡ false
      → Worded layers
      → error_text (wrapped err layers) ≡ prefixed layers (error_text err)
  error_text-wrapped [] err n w = refl
  error_text-wrapped ((s, t) ∷ layers) err n w =
      error_text-wrapped layers (wrap s err t) (ap is_nil (wrap-error s err t n)) w.1
      ∙ ap (prefixed layers) (error_text-wrap s err t n w.0)
