-- ===== src/Garray/Reads/Ranges.antt =====
-- NewIntArrayRange against a progression.
use go_zero_admin_pkg.Prelude.{
  ℕ, zero, suc, ◌+◌, ◌≤◌, ◌<◌, ◌≡◌, refl, ap, ◌∙◌, Bool, true, List, [], ◌∷◌, ◌++◌, arith, inl, inr,
  Bool-cases, append-nil, append-cons, ltb→le, le→ltb,
}
use go_zero_admin_pkg.Prelude.Int.{ℤ, pos, negsuc, ltb_ℤ, ◌≤ℤ◌, ◌+ℤ◌, +ℤ_parts, pos_part, neg_part}
use go_zero_admin_pkg.Prelude.Permutations.{All}
use go_zero_admin_pkg.Prelude.Run.{ok, panic}
use go_zero_admin_pkg.Garray.Reads.{range_loop, new_int_array_range}

-- `n` numbers from `i` on, and the number behind them.
abbrev pub progression : ℕ → ℤ → ℤ → List ℤ
progression zero i step = []
progression (suc n) i step = i ∷ progression n (i +ℤ step) step

abbrev pub behind : ℕ → ℤ → ℤ → ℤ
behind zero i step = i
behind (suc n) i step = behind n (i +ℤ step) step

pub record IsRange (start end step : ℤ) (l : List ℤ) : Type 0 where
  pub count : ℕ
  pub shape : l ≡ progression count start step
  pub inside : All (λ x. x ≤ℤ end) l
  pub over : ltb_ℤ end (behind count start step) ≡ true

-- `k` rounds are enough from `i` on with steps of at least one.
abbrev pub Enough : ℕ → ℤ → ℤ → Type 0
Enough k i end = (1 ≤ k) × (pos_part end + neg_part i + 1 < k + pos_part i + neg_part end)

range_loop-IsRange :
    (k s : ℕ) (i end : ℤ) (slice : List ℤ)
    → Enough k i end
    → (l : List ℤ) × (range_loop k i end (pos (suc s)) slice ≡ ok (slice ++ l))
      × IsRange i end (pos (suc s)) l
unfolding range_loop
range_loop-IsRange zero s i end slice h = absurd (omega (arith, h.0))
range_loop-IsRange (suc k) s i end slice h = elim (Bool-cases (ltb_ℤ end i)) [
  | inl past ↦ (
    [],
    rw (past, append-nil slice) refl,
    record { count = 0; shape = refl; inside = tt; over = past },
  )
  | inr within ↦
      let step = pos (suc s) in
      let low : i ≤ℤ end = ltb→le _ _ within in
      let next : Enough k (i +ℤ step) end =
        (omega (arith, h.1, low), omega (arith, h.1, +ℤ_parts i step)) in
      let (l, e, r) = range_loop-IsRange k s (i +ℤ step) end (slice ++ i ∷ []) next in
      (
        i ∷ l,
        rw within (e ∙ ap ok (append-cons slice l i)),
        record {
          count = suc r.count;
          shape = ap (◌∷◌ i) r.shape;
          inside = (low, r.inside);
          over = r.over;
        },
      )
]

endless :
    (k s : ℕ) (i end : ℤ) (slice : List ℤ) → i ≤ℤ end → range_loop k i end (negsuc s) slice ≡ panic
unfolding range_loop
endless zero s i end slice h = refl
endless (suc k) s i end slice h =
    rw (le→ltb _ _ h)
      (endless k s (i +ℤ negsuc s) end (slice ++ i ∷ []) (omega (arith, +ℤ_parts i (negsuc s))))

-- With a positive step and rounds for every number from `start` to `end`, NewIntArrayRange returns the
-- numbers `start`, `start + step` and so on up to the last that is not above `end`.
pub new_int_array_range-IsRange :
    (k s : ℕ) (start end : ℤ) (safe : Bool)
    → Enough k start end
    → (l : List ℤ) × (new_int_array_range k start end (pos (suc s)) safe
        ≡ ok (record { safe = safe; array = l }))
      × IsRange start end (pos (suc s)) l
unfolding new_int_array_range
new_int_array_range-IsRange k s start end safe h =
    let (l, e, r) = range_loop-IsRange k s start end [] h in (l, rw e refl, r)

-- With a negative step and `start` at most `end` no number of rounds is enough for NewIntArrayRange.
pub new_int_array_range-endless :
    (k s : ℕ) (start end : ℤ) (safe : Bool)
    → start ≤ℤ end
    → new_int_array_range k start end (negsuc s) safe ≡ panic
unfolding new_int_array_range
new_int_array_range-endless k s start end safe h = rw (endless k s start end [] h) refl
