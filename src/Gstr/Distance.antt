-- ===== src/Gstr/Distance.antt =====
-- utils/tools/gstr/gstr_similar.go: the rows of Levenshtein against the recursive distance of prefixes.
pub mod Scripts
use go_zero_admin_pkg.Prelude.{
  ℕ, zero, suc, ◌≤◌, ◌<◌, ◌+◌, ◌≡◌, refl, sym, ap, ◌∙◌, Bool, true, false, List, [], ◌∷◌, ◌++◌,
  length, replicate, length-replicate, append-cons, length-concat, length-append, set-length_append,
  set, if◌then◌else◌, ltb, ◌==◌, ◌||◌, arith, append-nil,
}
use go_zero_admin_pkg.Prelude.Int.{ℤ, pos, negsuc, ◌+ℤ◌}
use go_zero_admin_pkg.Prelude.Run.{Run, ok, panic, ◌>>=◌, load, store, store-ok}
use go_zero_admin_pkg.Gstr.{times, cell, first_row, fill_row, rows, levenshtein}

-- A prefix read from its end.
abbrev pub turned : {A : Type 0} → List A → List A → List A
turned [] done = done
turned (a ∷ rest) done = turned rest (a ∷ done)

pub length-turned : (rest done : List ℕ) → length (turned rest done) ≡ length rest + length done
length-turned [] done = omega arith
length-turned (b ∷ rest) done = omega (arith, length-turned rest (b ∷ done))

module _ {A : Type 0} where
  load_at : (xs ys : List A) (v : A) → load (xs ++ v ∷ ys) (length xs) ≡ ok v
  unfolding load
  load_at [] ys v = refl
  load_at (x ∷ xs) ys v = load_at xs ys v

  load_next : (xs ys : List A) (v w : A) → load (xs ++ v ∷ w ∷ ys) (suc (length xs)) ≡ ok w
  unfolding load
  load_next [] ys v w = refl
  load_next (x ∷ xs) ys v w = load_next xs ys v w

  store_at : (xs ys : List A) (v w : A) → store (xs ++ v ∷ ys) (length xs) w ≡ ok (xs ++ w ∷ ys)
  store_at xs ys v w =
      store-ok (xs ++ v ∷ ys) (length xs) w (omega (arith, length-append xs (v ∷ ys)))
      ∙ ap ok (set-length_append xs ys v w)

  set_next :
      (xs ys : List A) (u v w : A) → set (xs ++ u ∷ v ∷ ys) (suc (length xs)) w ≡ xs ++ u ∷ w ∷ ys
  set_next [] ys u v w = refl
  set_next (x ∷ xs) ys u v w = ap (◌∷◌ x) (set_next xs ys u v w)

  store_next :
      (xs ys : List A) (u v w : A)
      → store (xs ++ u ∷ v ∷ ys) (suc (length xs)) w ≡ ok (xs ++ u ∷ w ∷ ys)
  store_next xs ys u v w =
      store-ok (xs ++ u ∷ v ∷ ys) (suc (length xs)) w (omega (arith, length-append xs (u ∷ v ∷ ys)))
      ∙ ap ok (set_next xs ys u v w)

module _ (cost_ins cost_rep cost_del : ℤ) where
  -- The distance to the string `bs`, which is read from its end, of one more byte `a` than `previous` is about.
  abbrev pub longer : ℕ → (List ℕ → ℤ) → List ℕ → ℤ
  longer a previous [] = previous [] +ℤ cost_del
  longer a previous (b ∷ bs) =
      cell cost_ins cost_rep cost_del (a == b) (previous bs) (previous (b ∷ bs))
        (longer a previous bs)

  -- The distance of two strings that are read from their ends.
  abbrev pub distance : List ℕ → List ℕ → ℤ
  distance [] bs = times (length bs) cost_ins
  distance (a ∷ front) bs = longer a (distance front) bs

  -- The distances to the prefixes of a string behind `done`.
  abbrev row_tail : (List ℕ → ℤ) → List ℕ → List ℕ → List ℤ
  row_tail f done [] = []
  row_tail f done (b ∷ rest) = f (b ∷ done) ∷ row_tail f (b ∷ done) rest

  abbrev row : (List ℕ → ℤ) → List ℕ → List ℕ → List ℤ
  row f done rest = f done ∷ row_tail f done rest

  abbrev fill : ℕ → List ℕ → List ℤ → ℕ → List ℤ → Run (List ℤ)
  fill = fill_row cost_ins cost_rep cost_del

  length-row : (f : List ℕ → ℤ) (done rest : List ℕ) → length (row f done rest) ≡ suc (length rest)
  length-row f done [] = refl
  length-row f done (b ∷ rest) = ap suc (length-row f (b ∷ done) rest)

  fill_row-row :
      (a : ℕ) (f : List ℕ → ℤ) (rest done : List ℕ) (fr ft junk : List ℤ)
      → length ft ≡ length fr
      → length junk ≡ length rest
      → fill_row cost_ins cost_rep cost_del a rest
          (fr ++ row f done rest)
          (length fr)
          (ft ++ longer a f done ∷ junk)
        ≡ ok (ft ++ row (longer a f) done rest)
  unfolding fill_row
  fill_row-row a f [] done fr ft [] h k = refl
  fill_row-row a f [] done fr ft (j ∷ junk) h k = absurd (omega arith)
  fill_row-row a f (b ∷ rest) done fr ft [] h k = absurd (omega arith)
  fill_row-row a f (b ∷ rest) done fr ft (j ∷ junk) h k =
      let next = fr ++ f done ∷ [] in
      let made = ft ++ longer a f done ∷ [] in
      let c = longer a f (b ∷ done) in
      let same : length made ≡ length next =
        length-concat ft (longer a f done) ∙ ap suc h ∙ sym (length-concat fr (f done)) in
      let left : load (ft ++ longer a f done ∷ j ∷ junk) (length fr) ≡ ok (longer a f done) =
        ap (load (ft ++ longer a f done ∷ j ∷ junk)) (sym h)
        ∙ load_at ft (j ∷ junk) (longer a f done) in
      let stored : store (ft ++ longer a f done ∷ j ∷ junk) (suc (length fr)) c
          ≡ ok (ft ++ longer a f done ∷ c ∷ junk) =
        ap (λ i. store (ft ++ longer a f done ∷ j ∷ junk) (suc i) c) (sym h)
        ∙ store_next ft junk (longer a f done) j c in
      rw
        (
          load_at fr (row f (b ∷ done) rest) (f done),
          load_next fr (row_tail f (b ∷ done) rest) (f done) (f (b ∷ done)),
          left,
          stored,
        )
        (ap (λ p. fill a rest p (suc (length fr)) (ft ++ longer a f done ∷ c ∷ junk))
            (sym (append-cons fr (row f (b ∷ done) rest) (f done)))
          ∙ ap
              (λ i.
                fill a rest (next ++ row f (b ∷ done) rest) i (ft ++ longer a f done ∷ c ∷ junk))
              (sym (length-concat fr (f done)))
          ∙ ap (fill a rest (next ++ row f (b ∷ done) rest) (length next))
              (sym (append-cons ft (c ∷ junk) (longer a f done)))
          ∙ fill_row-row a f rest (b ∷ done) next made junk same (omega arith)
          ∙ ap ok (append-cons ft (row (longer a f) (b ∷ done) rest) (longer a f done)))

  rows-row :
      (str1 str2 front : List ℕ) (p2 : List ℤ)
      → length p2 ≡ suc (length str2)
      → rows cost_ins cost_rep cost_del str1 str2 (row (distance front) [] str2) p2
        ≡ ok (row (distance (turned str1 front)) [] str2)
  unfolding rows load
  rows-row [] str2 front p2 h = refl
  rows-row (a ∷ str1) str2 front [] h = absurd (omega arith)
  rows-row (a ∷ str1) str2 front (j ∷ junk) h =
      let filled : fill a str2 (row (distance front) [] str2) 0
            (longer a (distance front) [] ∷ junk)
          ≡ ok (row (longer a (distance front)) [] str2) =
        fill_row-row a (distance front) str2 [] [] [] junk refl (omega arith) in
      rw (store_at [] junk j (distance front [] +ℤ cost_del)) (
        ap
          (λ r.
            r >>= λ q. rows cost_ins cost_rep cost_del str1 str2 q (row (distance front) [] str2))
          filled
        ∙ rows-row str1 str2 (a ∷ front) (row (distance front) [] str2)
            (length-row (distance front) [] str2))

  stored_first :
      (done : List ℕ) (fr junk : List ℤ) (j : ℤ)
      → length fr ≡ length done
      → store (fr ++ j ∷ junk) (length done) (times (length done) cost_ins)
        ≡ ok (fr ++ times (length done) cost_ins ∷ junk)
  stored_first done fr junk j h =
      ap (λ i. store (fr ++ j ∷ junk) i (times (length done) cost_ins)) (sym h)
      ∙ store_at fr junk j (times (length done) cost_ins)

  first_row-row :
      (rest done : List ℕ) (fr junk : List ℤ)
      → length fr ≡ length done
      → length junk ≡ suc (length rest)
      → first_row cost_ins cost_rep cost_del (suc (length rest)) (length done) (fr ++ junk)
        ≡ ok (fr ++ row (distance []) done rest)
  unfolding first_row
  first_row-row rest done fr [] h k = absurd (omega arith)
  first_row-row [] done fr (j ∷ []) h k = rw (stored_first done fr [] j h) refl
  first_row-row [] done fr (j ∷ l ∷ junk) h k = absurd (omega arith)
  first_row-row (b ∷ rest) done fr (j ∷ junk) h k =
      let v = times (length done) cost_ins in
      rw (stored_first done fr junk j h) (
        ap (first_row cost_ins cost_rep cost_del (suc (length rest)) (suc (length done)))
          (sym (append-cons fr junk v))
        ∙ first_row-row rest (b ∷ done) (fr ++ v ∷ []) junk (length-concat fr v ∙ ap suc h)
            (omega arith)
        ∙ ap ok (append-cons fr (row (distance []) (b ∷ done) rest) v))

  load-row :
      (f : List ℕ → ℤ) (rest done : List ℕ)
      → load (row f done rest) (length rest) ≡ ok (f (turned rest done))
  unfolding load
  load-row f [] done = refl
  load-row f (b ∷ rest) done = load-row f rest (b ∷ done)

  distance-nil : (front : List ℕ) → distance front [] ≡ times (length front) cost_del
  distance-nil [] = refl
  distance-nil (a ∷ front) = ap (λ d. d +ℤ cost_del) (distance-nil front)

  start_row :
      (str2 : List ℕ)
      → first_row cost_ins cost_rep cost_del
          (suc (length str2))
          0
          (replicate (suc (length str2)) (pos 0))
        ≡ ok (row (distance []) [] str2)
  start_row str2 =
      first_row-row str2 [] [] (replicate (suc (length str2)) (pos 0)) refl
        (length-replicate (suc (length str2)) (pos 0))

  -- For strings of at most 255 bytes Levenshtein returns the distance, without a panic.
  pub levenshtein-distance :
      (str1 str2 : List ℕ)
      → length str1 ≤ 255
      → length str2 ≤ 255
      → levenshtein cost_ins cost_rep cost_del str1 str2
        ≡ ok (distance (turned str1 []) (turned str2 []))
  unfolding levenshtein
  levenshtein-distance [] str2 h k =
      let same : length str2 ≡ length (turned str2 []) = omega (arith, length-turned str2 []) in
      ap (λ n. ok (times n cost_ins)) same
  levenshtein-distance (a ∷ str1) [] h k =
      let front = turned (a ∷ str1) [] in
      let same : length (a ∷ str1) ≡ length front = omega (arith, length-turned (a ∷ str1) []) in
      ap ok (ap (λ n. times n cost_del) same ∙ sym (distance-nil front))
  levenshtein-distance (a ∷ str1) (b ∷ str2) h k =
      let short : (ltb 255 (suc (length str1)) || ltb 255 (suc (length str2))) ≡ false =
        ground arith in
      let spare = length-replicate (suc (length (b ∷ str2))) (pos 0) in
      rw
        (
          short,
          start_row (b ∷ str2),
          rows-row (a ∷ str1) (b ∷ str2) [] (replicate (suc (length (b ∷ str2))) (pos 0)) spare,
        )
        (load-row (distance (turned (a ∷ str1) [])) (b ∷ str2) [])
