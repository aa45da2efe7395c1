-- ===== src/Gbinary.antt =====
-- utils/tools/gbinary/gbinary_le.go: numbers as little-endian bytes. A byte is a number below 256, and an unsigned
-- integer the number that its bits are; `int` has 64 bits. PutUint16 and so on of encoding/binary are `put`, and
-- Uint16 and so on are `value`.
pub mod RoundTrips
mod Tests
use go_zero_admin_pkg.Prelude.{
  ℕ, zero, suc, ◌+◌, ◌-◌, ◌*◌, ◌/◌, ◌%◌, Bool, true, false, not, List, [], ◌∷◌, ◌++◌, length, take,
  replicate, if◌then◌else◌, ltb, leb, ◌==◌, ◌&&◌,
}
use go_zero_admin_pkg.Prelude.Int.{ℤ, pos, negsuc}
use go_zero_admin_pkg.Prelude.Run.{Run, ok, panic}

-- How many values so many bytes have.
abbrev pub values : ℕ → ℕ
values zero = 1
values (suc n) = 256 * values n

abbrev pub put : ℕ → ℕ → List ℕ
put zero x = []
put (suc n) x = x % 256 ∷ put n (x / 256)

abbrev pub value : List ℕ → ℕ
value [] = 0
value (b ∷ bs) = b + 256 * value bs

-- The bits of an integer in so many bytes, in two's complement.
abbrev pub bits : ℕ → ℤ → ℕ
bits n (pos x) = x % values n
bits n (negsuc x) = values n - 1 - x % values n

-- `i <= m`
abbrev pub at_most : ℤ → ℕ → Bool
at_most (pos x) m = leb x m
at_most (negsuc x) m = true

unfoldable pub le_encode_uint8 : ℕ → List ℕ
le_encode_uint8 i = i ∷ []

unfoldable pub le_encode_uint16 : ℕ → List ℕ
le_encode_uint16 i = put 2 i

unfoldable pub le_encode_uint32 : ℕ → List ℕ
le_encode_uint32 i = put 4 i

unfoldable pub le_encode_uint64 : ℕ → List ℕ
le_encode_uint64 i = put 8 i

unfoldable pub le_encode_int8 : ℤ → List ℕ
le_encode_int8 i = bits 1 i ∷ []

unfoldable pub le_encode_int16 : ℤ → List ℕ
le_encode_int16 i = put 2 (bits 2 i)

unfoldable pub le_encode_int32 : ℤ → List ℕ
le_encode_int32 i = put 4 (bits 4 i)

unfoldable pub le_encode_int64 : ℤ → List ℕ
le_encode_int64 i = put 8 (bits 8 i)

unfoldable pub le_encode_uint : ℕ → List ℕ
le_encode_uint i =
    if leb i 255
    then le_encode_uint8 i
    else if leb i 65535
    then le_encode_uint16 i
    else if leb i 4294967295
    then le_encode_uint32 i
    else le_encode_uint64 i

unfoldable pub le_encode_int : ℤ → List ℕ
le_encode_int i =
    if at_most i 127
    then le_encode_int8 i
    else if at_most i 32767
    then le_encode_int16 i
    else if at_most i 2147483647
    then le_encode_int32 i
    else le_encode_int64 i

unfoldable pub le_fill_up_size : List ℕ → ℕ → List ℕ
le_fill_up_size b l = if leb l (length b) then take l b else b ++ replicate (l - length b) 0

unfoldable pub le_decode_to_uint8 : List ℕ → Run ℕ
le_decode_to_uint8 [] = panic
le_decode_to_uint8 (x ∷ b) = ok x

unfoldable pub le_decode_to_uint16 : List ℕ → ℕ
le_decode_to_uint16 b = value (le_fill_up_size b 2)

unfoldable pub le_decode_to_uint32 : List ℕ → ℕ
le_decode_to_uint32 b = value (le_fill_up_size b 4)

unfoldable pub le_decode_to_uint64 : List ℕ → ℕ
le_decode_to_uint64 b = value (le_fill_up_size b 8)

unfoldable pub le_decode_to_uint : List ℕ → Run ℕ
le_decode_to_uint b =
    if ltb (length b) 2
    then le_decode_to_uint8 b
    else if ltb (length b) 3
    then ok (le_decode_to_uint16 b)
    else if ltb (length b) 5
    then ok (le_decode_to_uint32 b)
    else ok (le_decode_to_uint64 b)

-- The integer that the bits of so many bytes are.
abbrev pub signed : ℕ → ℕ → ℤ
signed n x = if ltb (2 * x) (values n) then pos x else negsuc (values n - 1 - x)

abbrev pub signed_run : Run ℕ → Run ℤ
signed_run (ok x) = ok (signed 8 x)
signed_run panic = panic

-- `int(x)` of an unsigned integer `x` of at most 64 bits.
unfoldable pub le_decode_to_int : List ℕ → Run ℤ
le_decode_to_int b = signed_run (le_decode_to_uint b)
