-- ===== src/Prelude/Run.antt =====
-- A Go computation that returns or panics.
use Prim.Native.Nat.{ℕ, ◌≤◌, ◌<◌, ◌-◌}
use mathlib.Core.Path.{◌≡◌, ap, ◌∙◌}
use mathlib.Core.List.{List}
use mathlib.Core.Option.{Option, none, some}
use go_zero_admin_pkg.Prelude.Lists.{
  length, get_elem?, get_or, set, take, drop, get_elem?-get_or, get_elem?-above, take-all,
  length-drop,
}
use go_zero_admin_pkg.Prelude.Tests.{leb, ltb, le→leb, lt→ltb, if◌then◌else◌}
use native.Mathlib.Nat.{sub-zero}
use native.Mathlib.Omega.{arith}
use mathlib.Core.Bool.{◌&&◌}

pub data Run {ℓ} (A : Type ℓ) : Type ℓ where
  ok : A → Run A
  panic : Run A

infixl 5 ◌>>=◌
abbrev pub ◌>>=◌ {ℓ κ} : {A : Type ℓ} {B : Type κ} → Run A → (A → Run B) → Run B
ok a >>= f = f a
panic >>= f = panic

abbrev pub or_panic {ℓ} : {A : Type ℓ} → Option A → Run A
or_panic none = panic
or_panic (some a) = ok a

module _ {ℓ} {A : Type ℓ} where
  -- `a[i]`
  unfoldable pub load : List A → ℕ → Run A
  load a i = or_panic (get_elem? a i)

  -- `a[i] = v`
  unfoldable pub store : List A → ℕ → A → Run (List A)
  store a i v = if ltb i (length a) then ok (set a i v) else panic

  -- `a[lo:hi]`, with the length as the bound of `hi`.
  unfoldable pub slice : List A → ℕ → ℕ → Run (List A)
  slice a lo hi = if leb lo hi && leb hi (length a) then ok (take (hi - lo) (drop lo a)) else panic

  pub load-ok : (a : List A) (i : ℕ) (d : A) → i < length a → load a i ≡ ok (get_or a i d)
  unfolding load
  load-ok a i d h = rw (get_elem?-get_or a i d h)

  pub store-ok : (a : List A) (i : ℕ) (v : A) → i < length a → store a i v ≡ ok (set a i v)
  unfolding store
  store-ok a i v h = rw (lt→ltb i (length a) h)

  pub slice-ok :
      (a : List A) (lo hi : ℕ)
      → lo ≤ hi
      → hi ≤ length a
      → slice a lo hi ≡ ok (take (hi - lo) (drop lo a))
  unfolding slice
  slice-ok a lo hi h k = rw (le→leb lo hi h, le→leb hi (length a) k)

  pub slice_front : (a : List A) (i : ℕ) → i ≤ length a → slice a 0 i ≡ ok (take i a)
  slice_front a i h = slice-ok a 0 i (omega arith) h ∙ rw sub-zero

  pub slice_rear : (a : List A) (i : ℕ) → i ≤ length a → slice a i (length a) ≡ ok (drop i a)
  slice_rear a i h =
      slice-ok a i (length a) h (omega arith)
      ∙ ap ok (take-all (length a - i) (drop i a) (omega (arith, length-drop i a)))

  pub load-panic : (a : List A) (i : ℕ) → length a ≤ i → load a i ≡ panic
  unfolding load
  load-panic a i h = rw (get_elem?-above a i h)
