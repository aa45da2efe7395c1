-- ===== src/Gutil/Orders.antt =====
-- utils/tools/gutil/gutil_comparator.go: the signs that the comparators return.
use go_zero_admin_pkg.Prelude.{ℕ, ◌+◌, ◌*◌, ◌<◌, ◌≤◌, ◌≡◌, not, arith, ◌==◌}
use go_zero_admin_pkg.Prelude.Int.{ℤ, pos, negsuc, pos_part, neg_part, is_neg, is_pos, ltb_ℤ, ◌-ℤ◌}
use go_zero_admin_pkg.Gbinary.{signed, values}
use go_zero_admin_pkg.Gbinary.RoundTrips.{mod-small}
use go_zero_admin_pkg.Gutil.{
  wrapped, wrapped_sub, comparator_int, comparator_int64, comparator_uint64, comparator_uint8,
  comparator_uint16, comparator_uint32, comparator_uint,
}

-- The value lies in the middle half of a signed type of `values n` values.
abbrev pub Inner : ℕ → ℤ → Type 0
Inner n (pos x) = 4 * (x + 1) ≤ values n
Inner n (negsuc x) = 4 * (x + 1) ≤ values n

-- The result has the sign of the difference.
abbrev pub Signs : ℤ → ℤ → ℤ → Type 0
Signs r a b = (is_neg r ≡ ltb_ℤ a b) × (is_pos r ≡ ltb_ℤ b a)

-- A value that fits in the type does not wrap.
pub wrapped-small : (n : ℕ) (x : ℤ) → 2 * (pos_part x + neg_part x) < values n → wrapped n x ≡ x
wrapped-small n (pos x) h = rw (mod-small x (values n) (omega arith)) (ground arith)
wrapped-small n (negsuc x) h = rw (mod-small x (values n) (omega arith)) (ground arith)

sub-Signs : (x y : ℤ) → Signs (x -ℤ y) x y
unfolding ◌-ℤ◌
sub-Signs x y = ground arith

-- The difference of two such values does not wrap.
sub-small :
    (n : ℕ) (x y : ℤ)
    → Inner n x
    → Inner n y
    → 2 * (pos_part (x -ℤ y) + neg_part (x -ℤ y)) < values n
unfolding ◌-ℤ◌
sub-small n (pos x) (pos y) h k = ground arith
sub-small n (pos x) (negsuc y) h k = ground arith
sub-small n (negsuc x) (pos y) h k = ground arith
sub-small n (negsuc x) (negsuc y) h k = ground arith

wrapped-Signs : (n : ℕ) (x y : ℤ) → Inner n x → Inner n y → Signs (wrapped n (x -ℤ y)) x y
wrapped-Signs n x y h k = rw (wrapped-small n (x -ℤ y) (sub-small n x y h k)) (sub-Signs x y)

unsigned-Signs :
    (x y : ℕ)
    → x < 9223372036854775808
    → y < 9223372036854775808
    → Signs (signed 8 (wrapped_sub 8 x y)) (pos x) (pos y)
unsigned-Signs x y h k = ground arith

-- ComparatorInt and ComparatorInt64 have the sign of the order of values in the middle half of the type, and
-- ComparatorUint and ComparatorUint64 that of values below 2^63, where no difference wraps too far.
pub comparators-Signs :
    {V : Type 0} (conv : V → ℤ) (unsigned : V → ℕ) (a b : V)
    → Inner 8 (conv a)
    → Inner 8 (conv b)
    → unsigned a < 9223372036854775808
    → unsigned b < 9223372036854775808
    → Signs (comparator_int conv a b) (conv a) (conv b)
      × Signs (comparator_int64 conv a b) (conv a) (conv b)
      × Signs (comparator_uint unsigned a b) (pos (unsigned a)) (pos (unsigned b))
      × Signs (comparator_uint64 unsigned a b) (pos (unsigned a)) (pos (unsigned b))
unfolding comparator_int comparator_int64 comparator_uint comparator_uint64
comparators-Signs conv unsigned a b h k u v = (
  wrapped-Signs 8 (conv a) (conv b) h k,
  wrapped-Signs 8 (conv a) (conv b) h k,
  unsigned-Signs (unsigned a) (unsigned b) u v,
  unsigned-Signs (unsigned a) (unsigned b) u v,
)

-- The comparators of uint8, uint16 and uint32 return zero for equal values, and a positive number for all
-- others, also where the first is less, since the difference wraps before it becomes an `int`.
pub comparator_uints-never_less :
    {V : Type 0} (conv : V → ℕ) (a b : V)
    → conv a < 256
    → conv b < 256
    → (is_pos (comparator_uint8 conv a b) ≡ not (conv a == conv b))
      × (is_pos (comparator_uint16 conv a b) ≡ not (conv a == conv b))
      × (is_pos (comparator_uint32 conv a b) ≡ not (conv a == conv b))
unfolding comparator_uint8 comparator_uint16 comparator_uint32
comparator_uints-never_less conv a b h k = (ground arith, ground arith, ground arith)
