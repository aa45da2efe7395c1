-- ===== src/Gstr/Version/Order.antt =====
-- utils/tools/gstr/gstr_version.go: CompareVersion as an order of versions, and the versions that IsGNUVersion accepts.
use go_zero_admin_pkg.Prelude.{
  ℕ, zero, suc, ◌+◌, ◌-◌, ◌≤◌, ◌≡◌, refl, sym, ap, ◌∙◌, false, List, [], ◌∷◌, ◌++◌, length,
  length-append, length-replicate, replicate, if◌then◌else◌, arith,
}
use go_zero_admin_pkg.Prelude.Int.{ℤ, pos, negsuc, ltb_ℤ, is_neg, is_pos}
use go_zero_admin_pkg.Prelude.Run.{ok}
use go_zero_admin_pkg.Garray.Order.{IsComparator}
use go_zero_admin_pkg.Gstr.Version.{split_dots, strip_v, fill_up, compare_parts, compare_version}

-- The first part, and the other parts, of a version that goes on with "0".
abbrev first_part : List (List ℕ) → List ℕ
first_part [] = 48 ∷ []
first_part (x ∷ xs) = x

abbrev other_parts : List (List ℕ) → List (List ℕ)
other_parts [] = []
other_parts (x ∷ xs) = xs

length-other_parts : (n : ℕ) (xs : List (List ℕ)) → length xs ≤ suc n → length (other_parts xs) ≤ n
length-other_parts n [] h = omega arith
length-other_parts n (x ∷ xs) h = omega arith

-- How many of the "0" parts are behind the first part.
abbrev left : ℕ → List (List ℕ) → ℕ
left k [] = k - 1
left k (x ∷ xs) = k

first-padded :
    (k : ℕ) (xs : List (List ℕ)) → first_part (xs ++ replicate k (48 ∷ [])) ≡ first_part xs
first-padded zero [] = refl
first-padded (suc k) [] = refl
first-padded k (x ∷ xs) = refl

other-padded :
    (k : ℕ) (xs : List (List ℕ))
    → other_parts (xs ++ replicate k (48 ∷ [])) ≡ other_parts xs ++ replicate (left k xs) (48 ∷ [])
other-padded zero [] = refl
other-padded (suc k) [] = ap (λ i. replicate i (48 ∷ [])) (omega arith)
other-padded k (x ∷ xs) = refl

length-fill_up :
    (xs ys : List (List ℕ)) → length (fill_up xs ys) ≡ length xs + (length ys - length xs)
length-fill_up xs ys =
    length-append xs (replicate (length ys - length xs) (48 ∷ []))
    ∙ ap (λ n. length xs + n) (length-replicate (length ys - length xs) (48 ∷ []))

module _ (int_of : List ℕ → ℤ) where
  -- The comparison of the first `n` parts.
  abbrev order : ℕ → List (List ℕ) → List (List ℕ) → ℤ
  order zero xs ys = pos 0
  order (suc n) xs ys =
      let rest = order n (other_parts xs) (other_parts ys) in
      if ltb_ℤ (int_of (first_part ys)) (int_of (first_part xs))
      then pos 1
      else if ltb_ℤ (int_of (first_part xs)) (int_of (first_part ys))
      then negsuc 0
      else rest

  order-turn : (n : ℕ) (xs ys : List (List ℕ)) → is_pos (order n xs ys) ≡ is_neg (order n ys xs)
  order-turn zero xs ys = refl
  order-turn (suc n) xs ys = ground (arith, order-turn n (other_parts xs) (other_parts ys))

  order-chain :
      (n : ℕ) (xs ys zs : List (List ℕ))
      → is_pos (order n xs ys) ≡ false
      → is_pos (order n ys zs) ≡ false
      → is_pos (order n xs zs) ≡ false
  order-chain zero xs ys zs h k = refl
  order-chain (suc n) xs ys zs h k =
      ground (arith, order-chain n (other_parts xs) (other_parts ys) (other_parts zs))

  order-none : (n : ℕ) → order n [] [] ≡ pos 0
  order-none zero = refl
  order-none (suc n) = ground (arith, order-none n)

  order-empty :
      (n : ℕ) (xs ys : List (List ℕ)) → length xs ≤ 0 → length ys ≤ 0 → order n xs ys ≡ pos 0
  order-empty n [] [] h k = order-none n
  order-empty n (x ∷ xs) ys h k = absurd (omega arith)
  order-empty n [] (y ∷ ys) h k = absurd (omega arith)

  -- Enough rounds give one result.
  order-enough :
      (n m : ℕ) (xs ys : List (List ℕ))
      → length xs ≤ n
      → length ys ≤ n
      → length xs ≤ m
      → length ys ≤ m
      → order n xs ys ≡ order m xs ys
  order-enough zero m xs ys a b c d = sym (order-empty m xs ys a b)
  order-enough (suc n) zero xs ys a b c d = order-empty (suc n) xs ys c d
  order-enough (suc n) (suc m) xs ys a b c d =
      let rest =
        order-enough n m (other_parts xs) (other_parts ys) (length-other_parts n xs a)
          (length-other_parts n ys b) (length-other_parts m xs c) (length-other_parts m ys d) in
      ground (arith, rest)

  order-padded :
      (n k l : ℕ) (xs ys : List (List ℕ))
      → order n (xs ++ replicate k (48 ∷ [])) (ys ++ replicate l (48 ∷ [])) ≡ order n xs ys
  order-padded zero k l xs ys = refl
  order-padded (suc n) k l xs ys =
      rw (first-padded k xs, first-padded l ys, other-padded k xs, other-padded l ys)
        (ground (arith, order-padded n (left k xs) (left l ys) (other_parts xs) (other_parts ys)))

  compare_parts-order :
      (xs ys : List (List ℕ))
      → length xs ≡ length ys
      → compare_parts int_of xs ys ≡ ok (order (length xs) xs ys)
  compare_parts-order [] ys h = refl
  compare_parts-order (x ∷ xs) [] h = absurd (omega arith)
  compare_parts-order (x ∷ xs) (y ∷ ys) h = ground (arith, compare_parts-order xs ys (omega arith))

  -- The order of two versions, by parts to which "0" is added without end.
  abbrev pub version_order : List ℕ → List ℕ → ℤ
  version_order a b =
      let xs = split_dots (strip_v a) in
      let ys = split_dots (strip_v b) in order (length xs + length ys) xs ys

  compare_version-version_order :
      (a b : List ℕ) → compare_version int_of a b ≡ ok (version_order a b)
  unfolding compare_version
  compare_version-version_order a b =
      let xs = split_dots (strip_v a) in
      let ys = split_dots (strip_v b) in
      let p = fill_up xs ys in
      let q = fill_up ys p in
      let longer = length-fill_up xs ys in
      let same = length-fill_up ys p in
      compare_parts-order p q (omega arith)
      ∙ ap ok (
          order-enough (length p) (length xs + length ys + length p) p q (omega arith) (omega arith)
            (omega arith) (omega arith)
          ∙ order-padded (length xs + length ys + length p) (length ys - length xs)
              (length p - length ys) xs ys
          ∙ order-enough (length xs + length ys + length p) (length xs + length ys) xs ys
              (omega arith) (omega arith) (omega arith) (omega arith))

  version_order-wider :
      (n : ℕ) (a b : List ℕ)
      → length (split_dots (strip_v a)) + length (split_dots (strip_v b)) ≤ n
      → version_order a b ≡ order n (split_dots (strip_v a)) (split_dots (strip_v b))
  version_order-wider n a b h =
      let xs = split_dots (strip_v a) in
      let ys = split_dots (strip_v b) in
      order-enough (length xs + length ys) n xs ys (omega arith) (omega arith) (omega arith)
        (omega arith)

  version-IsComparator : IsComparator version_order
  version-IsComparator = record {
    turn = λ a b.
        let xs = split_dots (strip_v a) in
        let ys = split_dots (strip_v b) in
        let n = length xs + length ys in
        order-turn n xs ys ∙ ap is_neg (sym (version_order-wider n b a (omega arith)));
    chain = λ a b c h k.
        let xs = split_dots (strip_v a) in
        let ys = split_dots (strip_v b) in
        let zs = split_dots (strip_v c) in
        let n = length xs + length ys + length zs in
        ap is_pos (version_order-wider n a c (omega arith))
        ∙ order-chain n xs ys zs (ap is_pos (sym (version_order-wider n a b (omega arith))) ∙ h)
            (ap is_pos (sym (version_order-wider n b c (omega arith))) ∙ k);
  }

  -- CompareVersion never panics and returns the comparison of the first parts that gconv.Int makes different
  -- numbers of, where a version goes on with "0" behind its last part. This is an order: to turn the
  -- arguments turns the sign, and "at most" is transitive.
  pub compare_version-IsComparator :
      ((a b : List ℕ) → compare_version int_of a b ≡ ok (version_order a b))
      × IsComparator version_order
  compare_version-IsComparator = (compare_version-version_order, version-IsComparator)
