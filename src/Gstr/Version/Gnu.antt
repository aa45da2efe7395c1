-- ===== src/Gstr/Version/Gnu.antt =====
-- utils/tools/gstr/gstr_version.go: the versions that IsGNUVersion accepts.
use go_zero_admin_pkg.Prelude.{
  ℕ, suc, ◌<◌, ◌≡◌, refl, Bool, true, false, not, List, [], ◌∷◌, length, if◌then◌else◌, ltb, ◌==◌,
  ◌||◌, ◌&&◌, arith, Bool-cases, inl, inr,
}
use go_zero_admin_pkg.Gstr.Version.{
  onto_first, split_dots, is_digit, is_sign, numeric_loop, is_numeric, strip_any_v, gnu_parts,
  gnu_stripped, is_gnu_version,
}

abbrev pub digits : List ℕ → Bool
digits [] = true
digits (b ∷ s) = is_digit b && digits s

-- Each part has at least one byte, and digits only.
abbrev pub numbers : List (List ℕ) → Bool
numbers [] = true
numbers ([] ∷ parts) = false
numbers ((b ∷ part) ∷ parts) = (is_digit b && digits part) && numbers parts

-- One to three numbers with dots between them, behind a `v` or `V` or nothing.
abbrev pub numbered : List ℕ → Bool
numbered [] = false
numbered (b ∷ s) = not (ltb 3 (length (split_dots (b ∷ s)))) && numbers (split_dots (b ∷ s))

abbrev has_dot : List ℕ → Bool
has_dot [] = false
has_dot (b ∷ s) = b == 46 || has_dot s

abbrev Dotless : List (List ℕ) → Type 0
Dotless [] = Unit {0}
Dotless (part ∷ parts) = (has_dot part ≡ false) × Dotless parts

onto_first-Dotless :
    (b : ℕ) (parts : List (List ℕ))
    → (b == 46) ≡ false
    → Dotless parts
    → Dotless (onto_first b parts)
onto_first-Dotless b [] h d = (ground arith, tt)
onto_first-Dotless b (part ∷ parts) h d = (ground (arith, d.0), d.1)

split_dots-Dotless : (s : List ℕ) → Dotless (split_dots s)
split_dots-Dotless [] = (refl, tt)
split_dots-Dotless (b ∷ s) = elim (Bool-cases (b == 46)) [
  | inl c ↦ rw c (refl, split_dots-Dotless s)
  | inr c ↦ rw c (onto_first-Dotless b (split_dots s) c (split_dots-Dotless s))
]

numeric_loop-digits :
    (len i : ℕ) (s : List ℕ) → has_dot s ≡ false → 0 < i → numeric_loop len i 0 s ≡ digits s
numeric_loop-digits len i [] h k = refl
numeric_loop-digits len i (b ∷ s) h k = ground (arith, numeric_loop-digits len (suc i) s)

is_numeric-digits :
    (b : ℕ) (s : List ℕ)
    → has_dot (b ∷ s) ≡ false
    → is_sign b ≡ false
    → is_numeric (b ∷ s) ≡ (is_digit b && digits s)
unfolding is_numeric
is_numeric-digits b s h k = ground (arith, numeric_loop-digits (suc (length s)) 1 s)

gnu_parts-numbers : (parts : List (List ℕ)) → Dotless parts → gnu_parts parts ≡ numbers parts
gnu_parts-numbers [] d = refl
gnu_parts-numbers ([] ∷ parts) d = refl
gnu_parts-numbers ((b ∷ part) ∷ parts) d = elim (Bool-cases (is_sign b)) [
  | inl c ↦ ground arith
  | inr c ↦
      let same = is_numeric-digits b part d.0 c in
      let rest = gnu_parts-numbers parts d.1 in ground (arith, same, rest)
]

guarded : (t g n : Bool) → g ≡ n → (if t then false else g) ≡ (not t && n)
guarded true g n h = refl
guarded false g n h = h

gnu_stripped-numbered : (s : List ℕ) → gnu_stripped s ≡ numbered s
gnu_stripped-numbered [] = refl
gnu_stripped-numbered (b ∷ s) =
    guarded (ltb 3 (length (split_dots (b ∷ s)))) (gnu_parts (split_dots (b ∷ s)))
      (numbers (split_dots (b ∷ s)))
      (gnu_parts-numbers (split_dots (b ∷ s)) (split_dots-Dotless (b ∷ s)))

-- IsGNUVersion accepts one to three numbers of digits only, with dots between them, behind a `v` or `V` or
-- nothing, and no other string.
pub is_gnu_version-numbered :
    (version : List ℕ) → is_gnu_version version ≡ numbered (strip_any_v version)
unfolding is_gnu_version
is_gnu_version-numbered version = gnu_stripped-numbered (strip_any_v version)
