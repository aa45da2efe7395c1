-- ===== src/Gbinary/RoundTrips.antt =====
-- utils/tools/gbinary/gbinary_le.go: decoding of what was encoded.
use native.Mathlib.Nat.{mod-eq_of_lt}
use go_zero_admin_pkg.Prelude.{
  ℕ, zero, suc, ◌-◌, ◌/◌, ◌%◌, ◌≡◌, ◌<◌, refl, ap, ◌∙◌, leb, arith, inl, inr, Bool-cases,
}
use go_zero_admin_pkg.Prelude.Int.{pos, negsuc}
use go_zero_admin_pkg.Prelude.Run.{ok}
use go_zero_admin_pkg.Gbinary.{
  values, put, value, bits, signed, le_encode_uint, le_encode_uint8, le_encode_uint16,
  le_encode_uint32, le_encode_uint64, le_encode_int, le_encode_int8, le_encode_int16,
  le_encode_int32, le_encode_int64, le_fill_up_size, le_decode_to_uint, le_decode_to_uint8,
  le_decode_to_uint16, le_decode_to_uint32, le_decode_to_uint64, le_decode_to_int,
}

value-put : (n x : ℕ) → x < values n → value (put n x) ≡ x
value-put zero x h = omega arith
value-put (suc n) x h = let rest = value-put n (x / 256) (omega arith) in omega (arith, rest)

-- LeDecodeToUint of what LeEncodeUint makes of a 64-bit number is that number, without a panic.
pub le_decode_to_uint-le_encode_uint :
    (i : ℕ) → i < values 8 → le_decode_to_uint (le_encode_uint i) ≡ ok i
unfolding le_encode_uint le_decode_to_uint le_encode_uint8 le_encode_uint16 le_encode_uint32
    le_encode_uint64 le_decode_to_uint8 le_decode_to_uint16 le_decode_to_uint32 le_decode_to_uint64
    le_fill_up_size
le_decode_to_uint-le_encode_uint i h = elim (Bool-cases (leb i 255)) [
  | inl a ↦ rw a refl
  | inr a ↦ elim (Bool-cases (leb i 65535)) [
    | inl b ↦ rw (a, b) (ap ok (value-put 2 i (ground arith)))
    | inr b ↦ elim (Bool-cases (leb i 4294967295)) [
      | inl c ↦ rw (a, b, c) (ap ok (value-put 4 i (ground arith)))
      | inr c ↦ rw (a, b, c) (ap ok (value-put 8 i h))
    ]
  ]
]

pub mod-small : (x n : ℕ) → x < n → x % n ≡ x
mod-small x n h = mod-eq_of_lt h

signed-small : (x : ℕ) → x < 9223372036854775808 → signed 8 x ≡ pos x
signed-small x h = ground arith

-- A non-negative `int` comes back from LeDecodeToInt as it went into LeEncodeInt. A number from -128
-- to -1 comes back as the byte that it was cut to, 256 more than it was. Neither panics.
pub le_decode_to_int-le_encode_int :
    (i x : ℕ)
    → i < 9223372036854775808
    → x < 128
    → (le_decode_to_int (le_encode_int (pos i)) ≡ ok (pos i))
      × (le_decode_to_int (le_encode_int (negsuc x)) ≡ ok (pos (255 - x)))
unfolding le_encode_int le_decode_to_uint le_decode_to_int le_encode_int8 le_encode_int16
    le_encode_int32 le_encode_int64 le_decode_to_uint8 le_decode_to_uint16 le_decode_to_uint32
    le_decode_to_uint64 le_fill_up_size
le_decode_to_int-le_encode_int i x h k =
    let back : (n : ℕ) → i < values n → value (put n (bits n (pos i))) ≡ i =
      λ n b. ap (λ y. value (put n y)) (mod-small i (values n) b) ∙ value-put n i b in
    (
      elim (Bool-cases (leb i 127)) [
        | inl a ↦ rw a (ap ok (ap (signed 8) (mod-small i 256 (ground arith)) ∙ signed-small i h))
        | inr a ↦ elim (Bool-cases (leb i 32767)) [
          | inl b ↦ rw (a, b) (ap ok (ap (signed 8) (back 2 (ground arith)) ∙ signed-small i h))
          | inr b ↦ elim (Bool-cases (leb i 2147483647)) [
            | inl c ↦
                rw (a, b, c) (ap ok (ap (signed 8) (back 4 (ground arith)) ∙ signed-small i h))
            | inr c ↦ rw (a, b, c) (ap ok (ap (signed 8) (back 8 (omega arith)) ∙ signed-small i h))
          ]
        ]
      ],
      ap ok (
          ap (signed 8) (ap (λ y. 255 - y) (mod-small x 256 (omega arith)))
          ∙ signed-small (255 - x) (omega arith)),
    )
