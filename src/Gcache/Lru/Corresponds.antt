-- ===== src/Gcache/Lru/Corresponds.antt =====
-- utils/tools/gcache/gcache_adapter_memory_lru.go: the map of elements against the list they stand in.
use go_zero_admin_pkg.Prelude.{
  ℕ, ◌≡◌, refl, sym, ap, ◌∙◌, none, some, List, ◌∷◌, length, if◌then◌else◌, arith,
}
use go_zero_admin_pkg.Prelude.Maps.{
  Key, beq_refl, find, put, delete, Distinct, find-put, find-delete, put-Distinct, delete-Distinct,
  length-put, length-delete,
}
use go_zero_admin_pkg.Glist.{Element, take_out}
use go_zero_admin_pkg.Glist.Ids.{Numbered}
use go_zero_admin_pkg.Gcache.Lru.Keyed.{
  at_key, Alone, at_key-member, length-take_out, at_key-take_out, take_out-Alone,
}

-- The map leads from each key of the list, and from no other, to its element.
pub record Corresponds {K : Type 0} ⦃e : Key K⦄ (m : List (K × Element K)) (xs : List (Element K))
    : Type 0 where
  pub agree : (k : K) → find k m ≡ at_key k xs
  pub distinct : Distinct m
  pub alone : Alone xs
  pub sizes : length m ≡ length xs

module _ {K : Type 0} ⦃e : Key K⦄ where
  pub take_out-Corresponds :
      (n : ℕ) (k : K) (m : List (K × Element K)) (xs : List (Element K)) {x : Element K}
      → Numbered n xs
      → Corresponds m xs
      → at_key k xs ≡ some x
      → Corresponds (delete k m) (take_out x.id xs)
  take_out-Corresponds n k m xs {x} d c h = record {
    agree = λ j. find-delete k j m ∙ rw (c.agree j) (sym (at_key-take_out n k j xs d c.alone h));
    distinct = delete-Distinct k m c.distinct;
    alone = take_out-Alone x.id xs c.alone;
    sizes =
        let found : find k m ≡ some x = c.agree k ∙ h in
        let out = length-take_out x.id xs (at_key-member k xs h) in
        let less = length-delete k m c.distinct in let same = c.sizes in ground arith;
  }

  pub put-Corresponds :
      (k : K) (m : List (K × Element K)) (xs : List (Element K)) (x : Element K)
      → x.value ≡ k
      → Distinct m
      → Corresponds (delete k m) xs
      → Corresponds (put k x m) (x ∷ xs)
  put-Corresponds k m xs x q d c = record {
    agree = λ j.
        let other : (if e.beq k j then none else find j m) ≡ at_key j xs =
          sym (find-delete k j m) ∙ c.agree j in
        find-put k j x m ∙ rw q (ground arith);
    distinct = put-Distinct k x m d;
    alone = (
      ap (λ j. at_key j xs) q ∙ sym (c.agree k) ∙ find-delete k k m ∙ rw (beq_refl k) refl,
      c.alone,
    );
    sizes =
        let less = length-delete k m d in
        let more = length-put k x m in let same = c.sizes in ground arith;
  }
