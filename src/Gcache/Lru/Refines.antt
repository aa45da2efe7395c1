-- ===== src/Gcache/Lru/Refines.antt =====
-- utils/tools/gcache/gcache_adapter_memory_lru.go: the LRU manager against a plain list of keys.
use go_zero_admin_pkg.Prelude.{
  ℕ, suc, ◌≤◌, ◌<◌, ◌≡◌, refl, sym, ap, ◌∙◌, true, false, Option, none, some, List, [], ◌∷◌, ◌++◌,
  length, take, drop, Bool-cases, arith, inl, inr, empty, last, snoc, take-all, drop-all,
  take-length_append, drop-length_append, append-nil,
}
use go_zero_admin_pkg.Prelude.Int.{ℤ, pos, to_ℕ, ltb_ℤ}
use go_zero_admin_pkg.Prelude.Maps.{
  Key, Distinct, is_some, find, put, delete, beq_refl, delete_absent,
}
use go_zero_admin_pkg.Glist.{
  Element, GList, member, take_out, values, first, final, prev, push_front, pop_back, pop_at,
}
use go_zero_admin_pkg.Glist
use go_zero_admin_pkg.Glist.Ids.{take_out-Numbered}
use go_zero_admin_pkg.Glist.Ends.{pop_back-snoc, take_out_between, length-values, values-append}
use go_zero_admin_pkg.Glist.Steps.{WellFormed, push_front-WellFormed, remove-WellFormed}
use go_zero_admin_pkg.Gcache.Lru.{MemoryLru, evict, push, save_found, do_save_and_evict, or_more}
use go_zero_admin_pkg.Gcache.Lru.Keyed.{
  at_key, erase, Alone, at_key-member, values-take_out, erase_absent, prev-none, length-take_out,
}
use go_zero_admin_pkg.Gcache.Lru.Corresponds.{Corresponds, take_out-Corresponds, put-Corresponds}

-- The map and the list agree, and there are at most `cap` keys.
pub record IsLru {K : Type 0} ⦃e : Key K⦄ (l : MemoryLru K) : Type 0 where
  pub well : WellFormed l.list
  pub corresponds : Corresponds l.entries l.list.elements
  pub bounded : length l.list.elements ≤ to_ℕ l.cap

-- The keys, the most recently used first.
abbrev pub recent : {K : Type 0} → MemoryLru K → List K
recent l = values l.list.elements

-- `l` has the keys `ks` of which as many as `n` are kept, and the result is that with the others.
pub record Kept {K : Type 0} ⦃e : Key K⦄ (n : ℤ) (ks : List K) (r : MemoryLru K × Option K)
    : Type 0 where
  pub is_lru : IsLru r.0
  pub same_cap : r.0.cap ≡ n
  pub keys : recent r.0 ≡ take (to_ℕ n) ks
  pub evicted : or_more r.1 [] ≡ drop (to_ℕ n) ks

not_over : (c : ℤ) (n : ℕ) → ltb_ℤ c (pos n) ≡ false → n ≤ to_ℕ c
not_over c n h = ground arith

over : (c : ℤ) (n : ℕ) → 0 < n → ltb_ℤ c (pos n) ≡ true → to_ℕ c < n
over c n k h = ground arith

module _ {K : Type 0} ⦃e : Key K⦄ where
  at_key-last :
      (xs : List (Element K)) (x : Element K)
      → Alone (xs ++ x ∷ [])
      → at_key x.value (xs ++ x ∷ []) ≡ some x
  at_key-last [] x u = rw (beq_refl x.value) refl
  at_key-last (y ∷ xs) x u = elim (Bool-cases (e.beq y.value x.value)) [
    | inr c ↦ rw c (at_key-last xs x u.1)
    | inl c ↦
        let last_one = at_key-last xs x u.1 in
        let none_left = rw ((e.beq_iff y.value x.value).0 c) at (u.0) in absurd (cc)
  ]

  last_left :
      (n : ℕ) (init ks : List K) (k : K)
      → ks ≡ init ++ k ∷ []
      → length init ≡ n
      → (init ≡ take n ks) × (k ∷ [] ≡ drop n ks)
  last_left n init ks k q s =
      rw (q, sym s) (sym (take-length_append init (k ∷ [])), sym (drop-length_append init (k ∷ [])))

  evict-Kept :
      (l : MemoryLru K)
      → WellFormed l.list
      → Corresponds l.entries l.list.elements
      → 0 < length l.list.elements
      → length l.list.elements ≤ suc (to_ℕ l.cap)
      → Kept l.cap (recent l) (evict l)
  unfolding evict
  evict-Kept l w c some_key b = elim (Bool-cases (ltb_ℤ l.cap (pos (length l.entries)))) [
    | inr h ↦
        let le : length l.list.elements ≤ to_ℕ l.cap =
          omega (arith, not_over l.cap (length l.entries) h, c.sizes) in
        let short : length (recent l) ≤ to_ℕ l.cap = omega (arith, length-values l.list.elements) in
        rw h (record {
          is_lru = record { well = w; corresponds = c; bounded = le };
          same_cap = refl;
          keys = sym (take-all (to_ℕ l.cap) (recent l) short);
          evicted = sym (drop-all (to_ℕ l.cap) (recent l) short);
        })
    | inl h ↦ elim (snoc l.list.elements) [
      | empty q ↦ absurd (omega (arith, ap length q))
      | last init x q n ↦
          let full : length init ≡ to_ℕ l.cap =
            omega (arith, over l.cap (length l.entries) (omega (arith, c.sizes)) h, c.sizes) in
          let ks : recent l ≡ values init ++ x.value ∷ [] =
            ap values q ∙ values-append init (x ∷ []) in
          let size : length (values init) ≡ to_ℕ l.cap = length-values init ∙ full in
          let at : at_key x.value l.list.elements ≡ some x =
            ap (at_key x.value) q ∙ at_key-last init x (rw q at (c.alone)) in
          let left : take_out x.id l.list.elements ≡ init =
            ap (take_out x.id) q
            ∙ take_out_between l.list.fresh init [] x (rw q at w)
            ∙ append-nil init in
          rw (h, pop_back-snoc l.list init x w q)
            (record {
              is_lru = record {
                well = rw left at (take_out-Numbered l.list.fresh x.id l.list.elements w);
                corresponds =
                    rw left at
                      (take_out-Corresponds l.list.fresh x.value l.entries l.list.elements w c at);
                bounded = omega (arith, full);
              };
              same_cap = refl;
              keys = (last_left (to_ℕ l.cap) (values init) (recent l) x.value ks size).0;
              evicted = (last_left (to_ℕ l.cap) (values init) (recent l) x.value ks size).1;
            })
    ]
  ]

  push-Kept :
      (l : MemoryLru K) (k : K)
      → WellFormed l.list
      → Distinct l.entries
      → Corresponds (delete k l.entries) l.list.elements
      → length l.list.elements ≤ to_ℕ l.cap
      → Kept l.cap (k ∷ recent l) (push l k)
  unfolding push push_front
  push-Kept l k w d c b =
      let x : Element K = record { id = l.list.fresh; value = k } in
      evict-Kept (record l { entries = put k x l.entries; list = (push_front l.list k).0 })
        (push_front-WellFormed l.list k w) (put-Corresponds k l.entries l.list.elements x refl d c)
        (omega arith) (omega arith)

  save_found-Kept :
      (l : MemoryLru K) (k : K) (o : Option (Element K))
      → IsLru l
      → find k l.entries ≡ o
      → Kept l.cap (k ∷ erase k (recent l)) (save_found l k o)
  unfolding Glist.remove
  save_found-Kept l k none i q =
      rw (erase_absent k l.list.elements (sym (i.corresponds.agree k) ∙ q)) (
        push-Kept l k i.well i.corresponds.distinct
          (rw (delete_absent k l.entries q) (i.corresponds)) i.bounded)
  save_found-Kept l k (some x) i q =
      let at = sym (i.corresponds.agree k) ∙ q in
      elim (Bool-cases (is_some (prev x.id l.list.elements))) [
        | inr p ↦
            let same = prev-none l.list.fresh k l.list.elements i.well at p in
            let short : length (recent l) ≤ to_ℕ l.cap =
              omega (arith, length-values l.list.elements, i.bounded) in
            rw (p, same)
              (record {
                is_lru = i;
                same_cap = refl;
                keys = sym (take-all (to_ℕ l.cap) (recent l) short);
                evicted = sym (drop-all (to_ℕ l.cap) (recent l) short);
              })
        | inl p ↦
            let out =
              take_out-Corresponds l.list.fresh k l.entries l.list.elements i.well i.corresponds
                at in
            rw (p, sym (values-take_out l.list.fresh k l.list.elements i.well at))
              (push-Kept (record l { list = (Glist.remove l.list x).0 }) k
                (remove-WellFormed l.list x i.well) i.corresponds.distinct out
                (omega (
                  arith,
                  i.bounded,
                  length-take_out x.id l.list.elements (at_key-member k l.list.elements at),
                )))
      ]

  -- SaveAndEvict of one key puts it in front of the others; the keys beyond the capacity leave.
  pub do_save_and_evict-Kept :
      (l : MemoryLru K) (k : K)
      → IsLru l
      → Kept l.cap (k ∷ erase k (recent l)) (do_save_and_evict l k)
  unfolding do_save_and_evict
  do_save_and_evict-Kept l k i = save_found-Kept l k (find k l.entries) i refl
