-- ===== src/Gutil.antt =====
-- utils/tools/gutil/gutil_comparator.go: the comparators of whole numbers. `conv` is what gconv makes of a value, in the
-- range of the type; a difference wraps in that type before it becomes an `int`.
pub mod Orders
pub mod TryCatch
mod Tests
use go_zero_admin_pkg.Prelude.{ℕ, ◌+◌, ◌-◌, ◌%◌}
use go_zero_admin_pkg.Prelude.Int.{ℤ, pos, ◌-ℤ◌}
use go_zero_admin_pkg.Gbinary.{bits, signed, values}

-- The difference of two signed, and of two unsigned, integers of so many bytes.
abbrev pub wrapped : ℕ → ℤ → ℤ
wrapped bytes x = signed bytes (bits bytes x)

abbrev pub wrapped_sub : ℕ → ℕ → ℕ → ℕ
wrapped_sub bytes a b = (a + values bytes - b) % values bytes

module _ {V : Type 0} where
  unfoldable pub comparator_int : (V → ℤ) → V → V → ℤ
  comparator_int conv a b = wrapped 8 (conv a -ℤ conv b)

  unfoldable pub comparator_int8 : (V → ℤ) → V → V → ℤ
  comparator_int8 conv a b = wrapped 1 (conv a -ℤ conv b)

  unfoldable pub comparator_int16 : (V → ℤ) → V → V → ℤ
  comparator_int16 conv a b = wrapped 2 (conv a -ℤ conv b)

  unfoldable pub comparator_int32 : (V → ℤ) → V → V → ℤ
  comparator_int32 conv a b = wrapped 4 (conv a -ℤ conv b)

  unfoldable pub comparator_int64 : (V → ℤ) → V → V → ℤ
  comparator_int64 conv a b = wrapped 8 (conv a -ℤ conv b)

  unfoldable pub comparator_uint : (V → ℕ) → V → V → ℤ
  comparator_uint conv a b = signed 8 (wrapped_sub 8 (conv a) (conv b))

  unfoldable pub comparator_uint8 : (V → ℕ) → V → V → ℤ
  comparator_uint8 conv a b = pos (wrapped_sub 1 (conv a) (conv b))

  unfoldable pub comparator_uint16 : (V → ℕ) → V → V → ℤ
  comparator_uint16 conv a b = pos (wrapped_sub 2 (conv a) (conv b))

  unfoldable pub comparator_uint32 : (V → ℕ) → V → V → ℤ
  comparator_uint32 conv a b = pos (wrapped_sub 4 (conv a) (conv b))

  unfoldable pub comparator_uint64 : (V → ℕ) → V → V → ℤ
  comparator_uint64 conv a b = signed 8 (wrapped_sub 8 (conv a) (conv b))

  unfoldable pub comparator_byte : (V → ℕ) → V → V → ℤ
  comparator_byte conv a b = pos (wrapped_sub 1 (conv a) (conv b))

  unfoldable pub comparator_rune : (V → ℤ) → V → V → ℤ
  comparator_rune conv a b = wrapped 4 (conv a -ℤ conv b)
