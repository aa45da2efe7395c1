-- ===== src/Gcache/Bounded.antt =====
-- utils/tools/gcache/gcache_adapter_memory.go: a cache with an LRU manager, and the keys that it may hold.
use go_zero_admin_pkg.Prelude.{
  ◌≤◌, ◌≡◌, refl, ap, ◌∙◌, true, ◌||◌, Option, none, some, List, [], ◌∷◌, ◌++◌, length,
  if◌then◌else◌, arith,
}
use go_zero_admin_pkg.Prelude.Int.{ℤ, to_ℕ}
use go_zero_admin_pkg.Prelude.Maps.{
  Key, find, put, delete, has_key, Distinct, occurs, occurs-append, find-put, find-delete,
  put-Distinct, delete-Distinct,
}
use go_zero_admin_pkg.Glist.Ends.{length-values}
use go_zero_admin_pkg.Gcache.Lru.{MemoryLru, new_memory_lru, save_and_evict}
use go_zero_admin_pkg.Gcache.Lru
use go_zero_admin_pkg.Gcache.Lru.Refines.{IsLru, recent}
use go_zero_admin_pkg.Gcache.Lru.Spec.{saves, removes, called-Shows}
use go_zero_admin_pkg.Gcache.Data.{
  MemoryDataItem, Given, plain, func, is_expired, remove_loop, update_found, update_expire_found,
  set_given, set_with_lock_found,
}
use go_zero_admin_pkg.Gcache.Data
use go_zero_admin_pkg.Gcache.Adapter.{
  AdapterMemory, handle_with, handle_lru_key, remove_evicted, do_remove,
}
use go_zero_admin_pkg.Gcache.Covers.{
  save_keys-occurs, erase_keys-occurs, length-covered, find-remove_loop, remove_loop-Distinct,
}

-- The manager is sound with capacity `n`, and knows each key of the map but those in `extra`.
pub record Covered {K V : Type 0} ⦃e : Key K⦄ (n : ℤ) (extra : List K)
    (m : List (K × MemoryDataItem V)) (l : MemoryLru K) : Type 0 where
  pub distinct : Distinct m
  pub is_lru : IsLru l
  pub same_cap : l.cap ≡ n
  pub inside : (k : K) → has_key k m ≡ true → (occurs k extra || occurs k (recent l)) ≡ true

-- The same of a cache, which has an LRU manager.
abbrev pub IsCovered : {K V : Type 0} ⦃e : Key K⦄ → ℤ → List K → AdapterMemory K V → Type 0
IsCovered {K = K} n extra c = (l : MemoryLru K) × (c.lru ≡ some l) × Covered n extra c.entries l

module _ {K V : Type 0} ⦃e : Key K⦄ where
  pub length-Covered :
      (n : ℤ) (m : List (K × MemoryDataItem V)) (l : MemoryLru K)
      → Covered n [] m l
      → length m ≤ to_ℕ n
  length-Covered n m l c = omega (
    arith,
    length-covered m (recent l) c.distinct c.inside,
    length-values l.list.elements,
    c.is_lru.bounded,
    ap to_ℕ c.same_cap,
  )

  pub put-Covered :
      (n : ℤ) (extra : List K) (k : K) (item : MemoryDataItem V) (m : List (K × MemoryDataItem V))
      (l : MemoryLru K)
      → Covered n extra m l
      → Covered n (k ∷ extra) (put k item m) l
  put-Covered n extra k item m l c = record {
    distinct = put-Distinct k item m c.distinct;
    is_lru = c.is_lru;
    same_cap = c.same_cap;
    inside = λ j there. let found = find-put k j item m in let old = c.inside j in ground arith;
  }

  pub Covered-weaken :
      (n : ℤ) (extra : List K) (k : K) (m : List (K × MemoryDataItem V)) (l : MemoryLru K)
      → Covered n extra m l
      → Covered n (k ∷ extra) m l
  Covered-weaken n extra k m l c = record {
    distinct = c.distinct;
    is_lru = c.is_lru;
    same_cap = c.same_cap;
    inside = λ j there. let old = c.inside j there in ground arith;
  }

  -- The keys that are taken out of both.
  pub remove-Covered :
      (n : ℤ) (ks : List K) (m d : List (K × MemoryDataItem V)) (l : MemoryLru K)
      → Covered n [] m l
      → Distinct d
      → ((j : K) → find j d ≡ (if occurs j ks then none else find j m))
      → Covered n [] d (Lru.remove l ks)
  remove-Covered n ks m d l c u f =
      let s = called-Shows l (removes ks) c.is_lru in
      record {
        distinct = u;
        is_lru = s.is_lru;
        same_cap = s.same_cap ∙ c.same_cap;
        inside = λ j there.
            let found = f j in
            let old = c.inside j in
            let out = erase_keys-occurs j (recent l) ks in
            let shown = ap (occurs j) s.keys in ground arith;
      }

  pub delete-Covered :
      (n : ℤ) (k : K) (m : List (K × MemoryDataItem V)) (l : MemoryLru K)
      → Covered n [] m l
      → Covered n [] (delete k m) (Lru.remove l (k ∷ []))
  delete-Covered n k m l c =
      remove-Covered n (k ∷ []) m (delete k m) l c (delete-Distinct k m c.distinct)
        (λ j. rw (find-delete k j m) (ground arith))

  remove_loop-Covered :
      (n : ℤ) (ks more : List K) (m : List (K × MemoryDataItem V)) (l : MemoryLru K)
      → Distinct m
      → IsLru l
      → l.cap ≡ n
      → ((k : K)
          → has_key k m ≡ true
          → (occurs k more || (occurs k (recent l) || occurs k ks)) ≡ true)
      → Covered n more (remove_loop m ks none).0 l
  remove_loop-Covered n ks more m l d i q h = record {
    distinct = remove_loop-Distinct m ks none d;
    is_lru = i;
    same_cap = q;
    inside = λ j there. let found = find-remove_loop m ks none j in let old = h j in ground arith;
  }

  remove_evicted-IsCovered :
      (n now : ℤ) (out more : List K) (c : AdapterMemory K V) (l : MemoryLru K)
      → c.lru ≡ some l
      → Distinct c.entries
      → IsLru l
      → l.cap ≡ n
      → ((k : K)
          → has_key k c.entries ≡ true
          → (occurs k more || (occurs k (recent l) || occurs k out)) ≡ true)
      → IsCovered n more (remove_evicted c out now)
  unfolding do_remove Data.remove
  remove_evicted-IsCovered n now [] more c l q d i s h = (
    l,
    q,
    record {
      distinct = d;
      is_lru = i;
      same_cap = s;
      inside = λ k there. let old = h k there in ground arith;
    },
  )
  remove_evicted-IsCovered n now (k ∷ out) more c l q d i s h =
      (l, q, remove_loop-Covered n (k ∷ out) more c.entries l d i s h)

  handle_with-IsCovered :
      (n now : ℤ) (ks more : List K) (c : AdapterMemory K V) (o : Option (MemoryLru K))
      (l : MemoryLru K)
      → o ≡ some l
      → Covered n (ks ++ more) c.entries l
      → IsCovered n more (handle_with c o ks now)
  handle_with-IsCovered n now ks more c o l q v =
      let s = called-Shows l (saves ks) v.is_lru in
      rw q (
        remove_evicted-IsCovered n now (save_and_evict l ks).1 more
          (record c { lru = some (save_and_evict l ks).0 }) (save_and_evict l ks).0 refl v.distinct
          s.is_lru (s.same_cap ∙ v.same_cap)
          (λ k there.
            rw (s.keys, s.returned)
              (let old = v.inside k there in
                let split = occurs-append k ks more in
                let kept = save_keys-occurs (to_ℕ l.cap) k (recent l) ks in ground arith)))

  -- The keys that were waiting and are handled are known to the manager then, unless they are evicted.
  pub handle_lru_key-IsCovered :
      (n now : ℤ) (ks more : List K) (c : AdapterMemory K V)
      → IsCovered n (ks ++ more) c
      → IsCovered n more (handle_lru_key c ks now)
  unfolding handle_lru_key
  handle_lru_key-IsCovered n now ks more c (l, q, v) =
      handle_with-IsCovered n now ks more c c.lru l q v
