-- ===== src/Gstr/Slashes.antt =====
-- utils/tools/gstr/gstr_slashes.go and StripSlashes of utils_str.go. A string is its runes: a backslash is one byte, and
-- the byte behind it starts the next rune.
use go_zero_admin_pkg.Prelude.{
  ℕ, ◌≡◌, refl, ap, ◌∙◌, Bool, true, false, List, [], ◌∷◌, if◌then◌else◌, ◌==◌, ◌||◌, arith,
  Bool-cases, inl, inr,
}

-- A backslash in front of each rune that `f` holds of.
abbrev pub escape : (ℕ → Bool) → List ℕ → List ℕ
escape f [] = []
escape f (c ∷ s) = let rest = escape f s in if f c then 92 ∷ c ∷ rest else c ∷ rest

abbrev pub member : ℕ → List ℕ → Bool
member c [] = false
member c (d ∷ ds) = d == c || member c ds

-- ' " \
unfoldable pub add_slashes : List ℕ → List ℕ
add_slashes s = escape (λ c. member c (39 ∷ 34 ∷ 92 ∷ [])) s

-- . + \ ( $ ) [ ^ ] * ?
abbrev pub metas : List ℕ
metas = 46 ∷ 43 ∷ 92 ∷ 40 ∷ 36 ∷ 41 ∷ 91 ∷ 94 ∷ 93 ∷ 42 ∷ 63 ∷ []

-- QuoteMeta without and with `chars`.
unfoldable pub quote_meta : List ℕ → List ℕ
quote_meta s = escape (λ c. member c metas) s

unfoldable pub quote_meta_chars : List ℕ → List ℕ → List ℕ
quote_meta_chars s chars = escape (λ c. member c chars) s

-- `i+1 < l && str[i+1] == '\\'`
abbrev pub starts_with_slash : List ℕ → Bool
starts_with_slash [] = false
starts_with_slash (c ∷ s) = c == 92

-- The loop of StripSlashes with its flag `skip`.
abbrev pub strip_loop : Bool → List ℕ → List ℕ
strip_loop skip [] = []
strip_loop true (c ∷ s) = c ∷ strip_loop false s
strip_loop false (c ∷ s) =
    let kept = strip_loop false s in
    let skipping = strip_loop true s in
    if c == 92 then if starts_with_slash s then skipping else kept else c ∷ kept

unfoldable pub strip_slashes : List ℕ → List ℕ
strip_slashes s = strip_loop false s

strip_loop-escape : (f : ℕ → Bool) (s : List ℕ) → f 92 ≡ true → strip_loop false (escape f s) ≡ s
strip_loop-escape f [] h = refl
strip_loop-escape f (c ∷ s) h = elim (Bool-cases (c == 92)) [
  | inl k ↦
      let back : c ≡ 92 = ground arith in
      let escaped : f c ≡ true = ap f back ∙ h in
      rw (escaped, k) (ap (◌∷◌ c) (strip_loop-escape f s h))
  | inr k ↦ elim (Bool-cases (f c)) [
    | inl e ↦ rw (e, k) (ap (◌∷◌ c) (strip_loop-escape f s h))
    | inr e ↦ rw (e, k) (ap (◌∷◌ c) (strip_loop-escape f s h))
  ]
]

-- StripSlashes undoes AddSlashes, and QuoteMeta with its own runes, or with any `chars` among which the backslash is.
pub strip_slashes-escapes :
    (s chars : List ℕ)
    → member 92 chars ≡ true
    → (strip_slashes (add_slashes s) ≡ s)
      × (strip_slashes (quote_meta s) ≡ s)
      × (strip_slashes (quote_meta_chars s chars) ≡ s)
unfolding strip_slashes add_slashes quote_meta quote_meta_chars
strip_slashes-escapes s chars h = (
  strip_loop-escape (λ c. member c (39 ∷ 34 ∷ 92 ∷ [])) s refl,
  strip_loop-escape (λ c. member c metas) s refl,
  strip_loop-escape (λ c. member c chars) s h,
)
