-- ===== src/Prelude/Lists.antt =====
-- Lists measured and indexed by native numbers, under the library's names.
use Prim.Native.Nat.{ℕ, zero, suc, ◌+◌, ◌-◌, ◌<◌, ◌≤◌, min}
use mathlib.Core.Path.{◌≡◌, refl, ap}
use mathlib.Core.List.{List, [], ◌∷◌, ◌++◌}
use mathlib.Core.Option.{Option, none, some}
use native.Mathlib.Omega.{arith}

module _ {ℓ} {A : Type ℓ} where
  abbrev pub length : List A → ℕ
  length [] = 0
  length (x ∷ xs) = suc (length xs)

  abbrev pub get_elem? : List A → ℕ → Option A
  get_elem? [] i = none
  get_elem? (x ∷ xs) zero = some x
  get_elem? (x ∷ xs) (suc i) = get_elem? xs i

  -- A write out of bounds changes nothing.
  abbrev pub set : List A → ℕ → A → List A
  set [] i v = []
  set (x ∷ xs) zero v = v ∷ xs
  set (x ∷ xs) (suc i) v = x ∷ set xs i v

  abbrev pub get_or : List A → ℕ → A → A
  get_or [] i d = d
  get_or (x ∷ xs) zero d = x
  get_or (x ∷ xs) (suc i) d = get_or xs i d

  abbrev pub take : ℕ → List A → List A
  take zero xs = []
  take (suc n) [] = []
  take (suc n) (x ∷ xs) = x ∷ take n xs

  abbrev pub drop : ℕ → List A → List A
  drop zero xs = xs
  drop (suc n) [] = []
  drop (suc n) (x ∷ xs) = drop n xs

  abbrev pub replicate : ℕ → A → List A
  replicate zero a = []
  replicate (suc n) a = a ∷ replicate n a

  pub length-append : (xs ys : List A) → length (xs ++ ys) ≡ length xs + length ys
  length-append [] ys = omega arith
  length-append (x ∷ xs) ys = omega (arith, length-append xs ys)

  pub length-set : (xs : List A) (i : ℕ) (v : A) → length (set xs i v) ≡ length xs
  length-set [] i v = refl
  length-set (x ∷ xs) zero v = refl
  length-set (x ∷ xs) (suc i) v = ap suc (length-set xs i v)

  pub take-append-drop : (n : ℕ) (xs : List A) → take n xs ++ drop n xs ≡ xs
  take-append-drop zero xs = refl
  take-append-drop (suc n) [] = refl
  take-append-drop (suc n) (x ∷ xs) = rw (take-append-drop n xs)

  pub length-take : (n : ℕ) (xs : List A) → length (take n xs) ≡ min n (length xs)
  length-take zero xs = omega arith
  length-take (suc n) [] = omega arith
  length-take (suc n) (x ∷ xs) = omega (arith, length-take n xs)

  pub length-drop : (n : ℕ) (xs : List A) → length (drop n xs) ≡ length xs - n
  length-drop zero xs = omega arith
  length-drop (suc n) [] = omega arith
  length-drop (suc n) (x ∷ xs) = omega (arith, length-drop n xs)

  pub length-replicate : (n : ℕ) (a : A) → length (replicate n a) ≡ n
  length-replicate zero a = refl
  length-replicate (suc n) a = ap suc (length-replicate n a)

  pub take-all : (n : ℕ) (xs : List A) → length xs ≤ n → take n xs ≡ xs
  take-all zero [] h = refl
  take-all zero (x ∷ xs) h = absurd (omega arith)
  take-all (suc n) [] h = refl
  take-all (suc n) (x ∷ xs) h = ap (◌∷◌ x) (take-all n xs (omega arith))

  pub drop-all : (n : ℕ) (xs : List A) → length xs ≤ n → drop n xs ≡ []
  drop-all zero [] h = refl
  drop-all zero (x ∷ xs) h = absurd (omega arith)
  drop-all (suc n) [] h = refl
  drop-all (suc n) (x ∷ xs) h = drop-all n xs (omega arith)

  pub take-length_append : (xs ys : List A) → take (length xs) (xs ++ ys) ≡ xs
  take-length_append [] ys = refl
  take-length_append (x ∷ xs) ys = ap (◌∷◌ x) (take-length_append xs ys)

  pub drop-length_append : (xs ys : List A) → drop (length xs) (xs ++ ys) ≡ ys
  drop-length_append [] ys = refl
  drop-length_append (x ∷ xs) ys = drop-length_append xs ys

  pub get_elem?-get_or :
      (xs : List A) (i : ℕ) (d : A) → i < length xs → get_elem? xs i ≡ some (get_or xs i d)
  get_elem?-get_or [] i d h = absurd (omega arith)
  get_elem?-get_or (x ∷ xs) zero d h = refl
  get_elem?-get_or (x ∷ xs) (suc i) d h = get_elem?-get_or xs i d (omega arith)

  pub get_elem?-above : (xs : List A) (i : ℕ) → length xs ≤ i → get_elem? xs i ≡ none
  get_elem?-above [] i h = refl
  get_elem?-above (x ∷ xs) zero h = absurd (omega arith)
  get_elem?-above (x ∷ xs) (suc i) h = get_elem?-above xs i (omega arith)

  pub get_elem?-lt : (xs : List A) (i : ℕ) {v : A} → get_elem? xs i ≡ some v → i < length xs
  get_elem?-lt [] i h = absurd (cc)
  get_elem?-lt (x ∷ xs) zero h = omega arith
  get_elem?-lt (x ∷ xs) (suc i) h = omega (arith, get_elem?-lt xs i h)

  -- The element at an index splits the list there.
  pub take-get-drop :
      (xs : List A) (i : ℕ) {v : A}
      → get_elem? xs i ≡ some v
      → xs ≡ take i xs ++ v ∷ drop (suc i) xs
  take-get-drop [] i h = absurd (cc)
  take-get-drop (x ∷ xs) zero h = ground arith
  take-get-drop (x ∷ xs) (suc i) h = ap (◌∷◌ x) (take-get-drop xs i h)

  pub take_last : (xs : List A) (i : ℕ) → length xs ≡ suc i → drop (suc i) xs ≡ []
  take_last xs i h = drop-all (suc i) xs (omega arith)

  pub get_or-length_append : (xs ys : List A) (v d : A) → get_or (xs ++ v ∷ ys) (length xs) d ≡ v
  get_or-length_append [] ys v d = refl
  get_or-length_append (x ∷ xs) ys v d = get_or-length_append xs ys v d

  pub length-concat : (xs : List A) (v : A) → length (xs ++ v ∷ []) ≡ suc (length xs)
  length-concat xs v = omega (arith, length-append xs (v ∷ []))

  pub drop-suc_append : (xs ys : List A) (v : A) → drop (suc (length xs)) (xs ++ v ∷ ys) ≡ ys
  drop-suc_append [] ys v = refl
  drop-suc_append (x ∷ xs) ys v = drop-suc_append xs ys v

  pub set-length_append :
      (xs ys : List A) (v w : A) → set (xs ++ v ∷ ys) (length xs) w ≡ xs ++ w ∷ ys
  set-length_append [] ys v w = refl
  set-length_append (x ∷ xs) ys v w = ap (◌∷◌ x) (set-length_append xs ys v w)

  pub append-cons : (xs ys : List A) (v : A) → (xs ++ v ∷ []) ++ ys ≡ xs ++ v ∷ ys
  append-cons [] ys v = refl
  append-cons (x ∷ xs) ys v = ap (◌∷◌ x) (append-cons xs ys v)

  pub take-suc_append :
      (xs ys : List A) (v : A) → take (suc (length xs)) (xs ++ v ∷ ys) ≡ xs ++ v ∷ []
  take-suc_append [] ys v = refl
  take-suc_append (x ∷ xs) ys v = ap (◌∷◌ x) (take-suc_append xs ys v)

  pub drop_two_append :
      (xs ys : List A) (v w : A) → drop (suc (suc (length xs))) (xs ++ v ∷ w ∷ ys) ≡ ys
  drop_two_append [] ys v w = refl
  drop_two_append (x ∷ xs) ys v w = drop_two_append xs ys v w

  pub get_or-second :
      (xs ys : List A) (v w d : A) → get_or (xs ++ v ∷ w ∷ ys) (suc (length xs)) d ≡ w
  get_or-second [] ys v w d = refl
  get_or-second (x ∷ xs) ys v w d = get_or-second xs ys v w d

-- A list is empty or has a last element.
pub data Snoc {ℓ} {A : Type ℓ} (l : List A) : Type ℓ where
  empty : l ≡ [] → Snoc l
  last : (front : List A) (y : A) → l ≡ front ++ y ∷ [] → length l ≡ suc (length front) → Snoc l

pub snoc {ℓ} : {A : Type ℓ} (l : List A) → Snoc l
snoc [] = empty refl
snoc (x ∷ l) = elim (snoc l) [
  | empty e ↦ last [] x (ap (◌∷◌ x) e) (rw e)
  | last front y e h ↦ last (x ∷ front) y (ap (◌∷◌ x) e) (omega arith)
]
