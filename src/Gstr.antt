-- ===== src/Gstr.antt =====
-- utils/tools/gstr/gstr_similar.go: Levenshtein. A string is its bytes; costs are integers without a bound.
pub mod Distance
pub mod Version
pub mod Slashes
pub mod Sub
mod Tests
use go_zero_admin_pkg.Prelude.{
  ℕ, zero, suc, ◌+◌, ◌-◌, Bool, true, false, List, [], ◌∷◌, length, replicate, if◌then◌else◌, ltb,
  ◌==◌, ◌||◌,
}
use go_zero_admin_pkg.Prelude.Int.{ℤ, pos, negsuc, ◌+ℤ◌, ltb_ℤ}
use go_zero_admin_pkg.Prelude.Run.{Run, ok, panic, ◌>>=◌, load, store}

-- `n * cost`, as a sum.
abbrev pub times : ℕ → ℤ → ℤ
times zero cost = pos 0
times (suc n) cost = times n cost +ℤ cost

-- The smaller, and the first of two that are equal.
abbrev pub less : ℤ → ℤ → ℤ
less a b = if ltb_ℤ b a then b else a

module _ (cost_ins cost_rep cost_del : ℤ) where
  -- The loop that fills `p1`, from `i2` on, with so many rounds left.
  unfoldable pub first_row : ℕ → ℕ → List ℤ → Run (List ℤ)
  first_row zero i2 p1 = ok p1
  first_row (suc n) i2 p1 = store p1 i2 (times i2 cost_ins) >>= first_row n (suc i2)

  -- What is stored as p2[i2+1], from p1[i2], p1[i2+1] and p2[i2].
  abbrev pub cell : Bool → ℤ → ℤ → ℤ → ℤ
  cell same diagonal above left =
      let c0 = if same then diagonal else diagonal +ℤ cost_rep in
      less (less c0 (above +ℤ cost_del)) (left +ℤ cost_ins)

  -- The loop over str2 for one byte `a` of str1, from `i2` on.
  unfoldable pub fill_row : ℕ → List ℕ → List ℤ → ℕ → List ℤ → Run (List ℤ)
  fill_row a [] p1 i2 p2 = ok p2
  fill_row a (b ∷ str2) p1 i2 p2 = load p1 i2 >>= λ diagonal. load p1 (suc i2) >>= λ above.
      load p2 i2 >>= λ left.
      store p2 (suc i2) (cell (a == b) diagonal above left) >>= fill_row a str2 p1 (suc i2)

  -- The loop over str1: fills `p2` and swaps the rows.
  unfoldable pub rows : List ℕ → List ℕ → List ℤ → List ℤ → Run (List ℤ)
  rows [] str2 p1 p2 = ok p1
  rows (a ∷ str1) str2 p1 p2 = load p1 0 >>= λ top. store p2 0 (top +ℤ cost_del) >>= λ started.
      fill_row a str2 p1 0 started >>= λ filled. rows str1 str2 filled p1

  unfoldable pub levenshtein : List ℕ → List ℕ → Run ℤ
  levenshtein [] str2 = ok (times (length str2) cost_ins)
  levenshtein (a ∷ str1) [] = ok (times (length (a ∷ str1)) cost_del)
  levenshtein (a ∷ str1) (b ∷ str2) =
      if ltb 255 (length (a ∷ str1)) || ltb 255 (length (b ∷ str2))
      then ok (negsuc 0)
      else first_row (suc (length (b ∷ str2))) 0 (replicate (suc (length (b ∷ str2))) (pos 0))
        >>= λ p1.
            rows (a ∷ str1) (b ∷ str2) p1 (replicate (suc (length (b ∷ str2))) (pos 0)) >>= λ row.
            load row (length (b ∷ str2))
