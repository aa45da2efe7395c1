-- ===== src/Garray/Normal/First.antt =====
-- The scan of doSearchWithoutLock, and the first occurrence of a value.
use go_zero_admin_pkg.Prelude.{
  ℕ, zero, suc, ◌+◌, ◌<◌, ◌≡◌, refl, ap, ◌∙◌, false, List, [], ◌∷◌, arith, length, inl, inr, ◌⊎◌,
  Bool-cases, get_or, ne→==,
}
use go_zero_admin_pkg.Prelude.Int.{pos, negsuc}
use go_zero_admin_pkg.Garray.Element.{Element}
use go_zero_admin_pkg.Garray.Normal.{search_loop, do_search_without_lock}
use go_zero_admin_pkg.Garray.Normal.Values.{occurs}

module _ {A : Type 0} ⦃e : Element A⦄ where
  -- The element stands at the index, and at none before.
  pub record IsFirst (v : A) (l : List A) (k : ℕ) : Type 0 where
    pub inside : k < length l
    pub here : get_or l k v ≡ v
    pub before : (j : ℕ) → j < k → e.beq (get_or l j v) v ≡ false

  before_suc :
      (x : A) (l : List A) (v : A) (k : ℕ)
      → e.beq x v ≡ false
      → ((j : ℕ) → j < k → e.beq (get_or l j v) v ≡ false)
      → (j : ℕ) → j < suc k
      → e.beq (get_or (x ∷ l) j v) v ≡ false
  before_suc x l v k h f zero p = h
  before_suc x l v k h f (suc j) p = f j (omega arith)

  search_loop-IsFirst :
      (i : ℕ) (l : List A) (v : A)
      → ((k : ℕ) × (search_loop i l v ≡ pos (i + k)) × IsFirst v l k)
        ⊎ ((search_loop i l v ≡ negsuc 0) × (occurs v l ≡ false))
  unfolding search_loop
  search_loop-IsFirst i [] v = inr (refl, refl)
  search_loop-IsFirst i (x ∷ l) v = elim (Bool-cases (e.beq x v)) [
    | inl hit ↦ inl (
      0,
      rw hit (ap pos (omega arith)),
      record {
        inside = omega arith;
        here = (e.beq_iff x v).0 hit;
        before = λ j h. absurd (omega arith);
      },
    )
    | inr miss ↦ elim (search_loop-IsFirst (suc i) l v) [
      | inl (k, r, f) ↦ inl (
        suc k,
        rw miss (r ∙ ap pos (omega arith)),
        record {
          inside = omega (arith, f.inside);
          here = f.here;
          before = before_suc x l v k miss f.before;
        },
      )
      | inr (r, o) ↦ inr (rw miss r, rw miss o)
    ]
  ]

  pub do_search-IsFirst :
      (l : List A) (v : A)
      → ((k : ℕ) × (do_search_without_lock l v ≡ pos k) × IsFirst v l k)
        ⊎ ((do_search_without_lock l v ≡ negsuc 0) × (occurs v l ≡ false))
  unfolding do_search_without_lock
  do_search-IsFirst [] v = inr (refl, refl)
  do_search-IsFirst (x ∷ l) v =
      rw (ne→== (suc (length l)) 0 (omega arith)) (elim (search_loop-IsFirst 0 (x ∷ l) v) [
        | inl (k, r, f) ↦ inl (k, r ∙ ap pos (omega arith), f)
        | inr (r, o) ↦ inr (r, o)
      ])
