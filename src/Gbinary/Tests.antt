-- ===== src/Gbinary/Tests.antt =====
-- The lemmas on little-endian bytes at concrete numbers.
use go_zero_admin_pkg.Prelude.{◌≡◌, arith}
use go_zero_admin_pkg.Prelude.Int.{pos, negsuc}
use go_zero_admin_pkg.Prelude.Run.{ok}
use go_zero_admin_pkg.Gbinary.{le_encode_uint, le_decode_to_uint, le_encode_int, le_decode_to_int}
use go_zero_admin_pkg.Gbinary.RoundTrips.{
  le_decode_to_uint-le_encode_uint, le_decode_to_int-le_encode_int,
}

le_decode_to_uint-le_encode_uint_example : le_decode_to_uint (le_encode_uint 70000) ≡ ok 70000
le_decode_to_uint-le_encode_uint_example = le_decode_to_uint-le_encode_uint 70000 (omega arith)

le_decode_to_int-le_encode_int_example :
    (le_decode_to_int (le_encode_int (pos 300)) ≡ ok (pos 300))
    × (le_decode_to_int (le_encode_int (negsuc 0)) ≡ ok (pos 255))
le_decode_to_int-le_encode_int_example =
    le_decode_to_int-le_encode_int 300 0 (omega arith) (omega arith)
