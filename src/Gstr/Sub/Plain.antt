-- ===== src/Gstr/Sub/Plain.antt =====
-- utils/tools/gstr/gstr_sub.go: the bounds of a part where the arithmetic of `int` does not wrap.
use go_zero_admin_pkg.Prelude.{
  ℕ, suc, ◌+◌, ◌-◌, ◌≤◌, ◌<◌, ◌≡◌, ap, ◌∙◌, Option, none, some, if◌then◌else◌, ltb, arith,
  Bool-cases, inl, inr,
}
use go_zero_admin_pkg.Prelude.Int.{ℤ, pos, negsuc, ◌+ℤ◌, ◌-ℤ◌}
use go_zero_admin_pkg.Gutil.{wrapped}
use go_zero_admin_pkg.Gutil.Orders.{wrapped-small}
use go_zero_admin_pkg.Gstr.Sub.{minus, plus, start_index, real_length}

-- The negated `int` is the number with the other sign: the least of them, -2^63, has none.
abbrev pub Negatable : ℤ → Type 0
Negatable (pos n) = n < 9223372036854775808
Negatable (negsuc n) = suc n < 9223372036854775808

abbrev pub NegatableLength : Option ℤ → Type 0
NegatableLength none = Unit {0}
NegatableLength (some real) = Negatable real

-- The indices as numbers, in place of an `int`.
abbrev pub plain_start : ℤ → ℕ → Option ℕ
plain_start (pos s) n = if ltb n s then none else some s
plain_start (negsuc s) n = if ltb n (suc s) then some 0 else some (n - suc s)

abbrev pub plain_length : Option ℤ → ℕ → ℕ → ℕ
plain_length none s n = n - s
plain_length (some (pos l)) s n = if ltb (n - s) l then n - s else l
plain_length (some (negsuc l)) s n = if ltb (n - s) (suc l) then 0 else n - s - suc l

abbrev pub as_int : Option ℕ → Option ℤ
as_int none = none
as_int (some s) = some (pos s)

wrapped-pos : (x : ℤ) (n : ℕ) → x ≡ pos n → n < 9223372036854775808 → wrapped 8 x ≡ pos n
wrapped-pos x n e h = ap (wrapped 8) e ∙ wrapped-small 8 (pos n) (omega arith)

negated : (n : ℕ) → suc n < 9223372036854775808 → minus (pos 0) (negsuc n) ≡ pos (suc n)
unfolding minus ◌-ℤ◌
negated n h = wrapped-pos (pos 0 -ℤ negsuc n) (suc n) (ground arith) h

minus-pos : (n s : ℕ) → s ≤ n → n < 9223372036854775808 → minus (pos n) (pos s) ≡ pos (n - s)
unfolding minus ◌-ℤ◌
minus-pos n s h k = wrapped-pos (pos n -ℤ pos s) (n - s) (ground arith) (omega arith)

pub plus-pos : (s r : ℕ) → s + r < 9223372036854775808 → plus (pos s) (pos r) ≡ pos (s + r)
unfolding plus ◌+ℤ◌
plus-pos s r h = wrapped-pos (pos s +ℤ pos r) (s + r) (ground arith) h

plus-negsuc :
    (n s : ℕ) → suc s ≤ n → n < 9223372036854775808 → plus (pos n) (negsuc s) ≡ pos (n - suc s)
unfolding plus ◌+ℤ◌
plus-negsuc n s h k = wrapped-pos (pos n +ℤ negsuc s) (n - suc s) (ground arith) (omega arith)

pub start_index-plain :
    (start : ℤ) (n : ℕ)
    → Negatable start
    → n < 9223372036854775808
    → start_index start (pos n) ≡ as_int (plain_start start n)
start_index-plain (pos s) n h k = ground arith
start_index-plain (negsuc s) n h k = elim (Bool-cases (ltb n (suc s))) [
  | inl c ↦ rw (negated s h, c) (ground arith)
  | inr c ↦ rw (negated s h, c, plus-negsuc n s (ground arith) k) (ground arith)
]

pub real_length-plain :
    (len : Option ℤ) (s n : ℕ)
    → NegatableLength len
    → s ≤ n
    → n < 9223372036854775808
    → real_length len (pos s) (pos n) ≡ pos (plain_length len s n)
real_length-plain none s n h k b = minus-pos n s k b
real_length-plain (some (pos l)) s n h k b = rw (minus-pos n s k b) (ground arith)
real_length-plain (some (negsuc l)) s n h k b = elim (Bool-cases (ltb (n - s) (suc l))) [
  | inl c ↦ rw (minus-pos n s k b, negated l h, c) (ground arith)
  | inr c ↦
      rw (minus-pos n s k b, negated l h, c, plus-negsuc (n - s) l (ground arith) (omega arith))
        (ground arith)
]
