-- ===== src/Gstr/Sub/Between.antt =====
-- utils/tools/gstr/gstr_sub.go: what SubStr and SubStrRune return, by the indices of the string.
use go_zero_admin_pkg.Prelude.{
  ℕ, zero, suc, ◌+◌, ◌-◌, ◌≤◌, ◌<◌, ◌≡◌, refl, sym, ap, ◌∙◌, Option, none, some, List, [], ◌∷◌,
  length, take, drop, take-all, if◌then◌else◌, ltb, ◌==◌, arith, Bool-cases, inl, inr, drop-all,
  length-take,
}
use go_zero_admin_pkg.Prelude.Int.{ℤ, pos, negsuc, ltb_ℤ}
use go_zero_admin_pkg.Prelude.Run.{ok, slice, slice-ok}
use go_zero_admin_pkg.Gstr.Sub.{sub_from, sub_rune_from, sub_str, sub_str_rune}
use go_zero_admin_pkg.Gstr.Sub.Plain.{
  Negatable, NegatableLength, plain_start, plain_length, as_int, plus-pos, start_index-plain,
  real_length-plain,
}

plain_length-bound : (len : Option ℤ) (s n : ℕ) → plain_length len s n ≤ n - s
plain_length-bound none s n = omega arith
plain_length-bound (some (pos l)) s n = ground arith
plain_length-bound (some (negsuc l)) s n = ground arith

-- The part of so many bytes.
abbrev part : List ℕ → Option ℤ → Option ℕ → List ℕ
part str len none = []
part str len (some s) = take (plain_length len s (length str)) (drop s str)

plain_start-bound : (start : ℤ) (n s : ℕ) → plain_start start n ≡ some s → s ≤ n
plain_start-bound (pos k) n s h = ground arith
plain_start-bound (negsuc k) n s h = ground arith

sliced :
    (str : List ℕ) (s real : ℕ)
    → s ≤ length str
    → real ≤ length str - s
    → slice str s (s + real) ≡ ok (take real (drop s str))
sliced str s real h k =
    let width : s + real - s ≡ real = omega arith in
    slice-ok str s (s + real) (omega arith) (omega arith) ∙ ap (λ n. ok (take n (drop s str))) width

all_of :
    (str : List ℕ) (s real : ℕ)
    → real ≡ length str
    → real ≤ length str - s
    → s ≤ length str
    → take real (drop s str) ≡ str
all_of str zero real e h k = take-all real str (omega arith)
all_of [] (suc s) real e h k = absurd (omega arith)
all_of (c ∷ str) (suc s) real e h k = absurd (omega arith)

sub_from-part :
    (str : List ℕ) (len : Option ℤ) (o : Option ℕ)
    → length str < 9223372036854775808
    → NegatableLength len
    → ((s : ℕ) → o ≡ some s → s ≤ length str)
    → (sub_from str len (as_int o) ≡ ok (part str len o))
      × (sub_rune_from str len (as_int o) ≡ ok (part str len o))
sub_from-part str len none b k h = (refl, refl)
sub_from-part str len (some s) b k h =
    let n = length str in
    let real = plain_length len s n in
    let bound = plain_length-bound len s n in
    let inside : s ≤ n = h s refl in
    let same = real_length-plain len s n k inside b in
    let sum = plus-pos s real (omega arith) in
    let end : (if ltb_ℤ (pos n) (pos (s + real)) then pos n else pos (s + real)) ≡ pos (s + real) =
      ground arith in
    (
      elim (Bool-cases (real == n)) [
        | inl c ↦ rw (same, c) (ap ok (sym (all_of str s real (ground arith) bound inside)))
        | inr c ↦ rw (same, c, sum) (sliced str s real inside bound)
      ],
      rw (same, sum, end) (sliced str s real inside bound),
    )

-- The index where the part starts, and the index behind it: a negative number counts from the end.
abbrev pub first_index : ℤ → ℕ → ℕ
first_index (pos s) n = s
first_index (negsuc s) n = n - suc s

abbrev pub end_index : Option ℤ → ℕ → ℕ → ℕ
end_index none s n = n
end_index (some (pos l)) s n = s + l
end_index (some (negsuc l)) s n = n - suc l

-- The bytes from the one index on up to the other.
abbrev pub between : ℕ → ℕ → List ℕ → List ℕ
between s end str = drop s (take end str)

between-none : (s end : ℕ) (str : List ℕ) → end ≤ s → between s end str ≡ []
between-none s end str h = drop-all s (take end str) (omega (arith, length-take end str))

between-behind : (s end : ℕ) (str : List ℕ) → length str ≤ s → between s end str ≡ []
between-behind s end str h = drop-all s (take end str) (omega (arith, length-take end str))

take-empty : (n : ℕ) → take {A = ℕ} n [] ≡ []
take-empty zero = refl
take-empty (suc n) = refl

-- So many bytes from an index on are those up to the index behind them.
take-between :
    (s real end : ℕ) (str : List ℕ) → end ≡ s + real → take real (drop s str) ≡ between s end str
take-between zero real end str h = ap (λ n. take n str) (omega arith)
take-between (suc s) real end [] h =
    take-empty real ∙ sym (between-behind (suc s) end [] (omega arith))
take-between (suc s) real zero (c ∷ str) h = absurd (omega arith)
take-between (suc s) real (suc end) (c ∷ str) h = take-between s real end str (omega arith)

between-all :
    (s end : ℕ) (str : List ℕ) → length str ≤ end → between s (length str) str ≡ between s end str
between-all s end str h =
    ap (drop s) (take-all (length str) str (omega arith) ∙ sym (take-all end str h))

-- The part by its length is the part by its end.
part-between :
    (str : List ℕ) (s : ℕ) (len : Option ℤ)
    → s ≤ length str
    → part str len (some s) ≡ between s (end_index len s (length str)) str
part-between str s none h = take-between s (length str - s) (length str) str (omega arith)
part-between str s (some (pos l)) h = elim (Bool-cases (ltb (length str - s) l)) [
  | inl c ↦ rw c (
      take-between s (length str - s) (length str) str (omega arith)
      ∙ between-all s (s + l) str (ground arith))
  | inr c ↦ rw c (take-between s l (s + l) str refl)
]
part-between str s (some (negsuc l)) h = elim (Bool-cases (ltb (length str - s) (suc l))) [
  | inl c ↦ rw c (sym (between-none s (length str - suc l) str (ground arith)))
  | inr c ↦ rw c (take-between s (length str - s - suc l) (length str - suc l) str (ground arith))
]

start_part :
    (str : List ℕ) (start : ℤ) (len : Option ℤ)
    → part str len (plain_start start (length str))
      ≡ between
          (first_index start (length str))
          (end_index len (first_index start (length str)) (length str))
          str
start_part str (pos s) len = elim (Bool-cases (ltb (length str) s)) [
  | inl c ↦ rw c (sym (between-behind s (end_index len s (length str)) str (ground arith)))
  | inr c ↦ rw c (part-between str s len (ground arith))
]
start_part str (negsuc s) len = elim (Bool-cases (ltb (length str) (suc s))) [
  | inl c ↦
      let none_left : 0 ≡ length str - suc s = ground arith in
      rw c (
        part-between str 0 len (omega arith)
        ∙ ap (λ f. between f (end_index len f (length str)) str) none_left)
  | inr c ↦ rw c (part-between str (length str - suc s) len (omega arith))
]

-- For a string shorter than 2^63, and a `start` and `length` other than -2^63, SubStr and SubStrRune do not panic, and
-- return what lies between two indices of the string: a negative `start` or `length` counts the index from the end of
-- the string, at least 0, and another `length` from the first index.
pub sub_str-between :
    (str : List ℕ) (start : ℤ) (len : Option ℤ)
    → length str < 9223372036854775808
    → Negatable start
    → NegatableLength len
    → let first = first_index start (length str) in
      let end = end_index len first (length str) in
      (sub_str str start len ≡ ok (between first end str))
      × (sub_str_rune str start len ≡ ok (between first end str))
unfolding sub_str sub_str_rune
sub_str-between str start len b h k =
    let done =
      sub_from-part str len (plain_start start (length str)) b k
        (plain_start-bound start (length str)) in
    let same = start_part str start len in
    rw (start_index-plain start (length str) h b) (done.0 ∙ ap ok same, done.1 ∙ ap ok same)
