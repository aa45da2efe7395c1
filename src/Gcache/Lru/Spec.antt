-- ===== src/Gcache/Lru/Spec.antt =====
-- utils/tools/gcache/gcache_adapter_memory_lru.go: its operations against those on a list of keys.
use go_zero_admin_pkg.Prelude.{
  ℕ, ◌≡◌, refl, sym, ap, ◌∙◌, Option, none, some, List, [], ◌∷◌, ◌++◌, take, drop, arith,
}
use go_zero_admin_pkg.Prelude.Int.{ℤ, to_ℕ}
use go_zero_admin_pkg.Prelude.Maps.{Key, find}
use go_zero_admin_pkg.Glist.{Element, values, take_out}
use go_zero_admin_pkg.Glist
use go_zero_admin_pkg.Glist.Steps.{remove-WellFormed}
use go_zero_admin_pkg.Gcache.Lru.{
  MemoryLru, new_memory_lru, clear, remove_key, remove_found, remove, do_save_and_evict, or_more,
  save_and_evict,
}
use go_zero_admin_pkg.Gcache.Lru.Keyed.{
  erase, at_key-member, values-take_out, erase_absent, length-take_out,
}
use go_zero_admin_pkg.Gcache.Lru.Corresponds.{Corresponds, take_out-Corresponds}
use go_zero_admin_pkg.Gcache.Lru.Refines.{IsLru, recent, do_save_and_evict-Kept}

-- A call of the LRU manager.
pub data Call (K : Type 0) : Type 0 where
  saves : List K → Call K
  removes : List K → Call K
  clears : Call K

module _ {K : Type 0} ⦃e : Key K⦄ where
  -- The manager after the call, with the keys that SaveAndEvict returns.
  abbrev pub called : MemoryLru K → Call K → MemoryLru K × List K
  called l (saves keys) = save_and_evict l keys
  called l (removes keys) = (remove l keys, [])
  called l clears = (clear l, [])

  -- The same on the keys by recency, of which `n` may stay.
  abbrev pub save_keys : ℕ → List K → List K → List K × List K
  save_keys n ks [] = (ks, [])
  save_keys n ks (k ∷ keys) =
      let all = k ∷ erase k ks in
      let rest = save_keys n (take n all) keys in (rest.0, drop n all ++ rest.1)

  abbrev pub erase_keys : List K → List K → List K
  erase_keys ks [] = ks
  erase_keys ks (k ∷ keys) = erase_keys (erase k ks) keys

  abbrev pub specified : ℕ → List K → Call K → List K × List K
  specified n ks (saves keys) = save_keys n ks keys
  specified n ks (removes keys) = (erase_keys ks keys, [])
  specified n ks clears = ([], [])

  -- The manager is sound, with its capacity, and shows the keys `s`.
  pub record Shows (n : ℤ) (r : MemoryLru K × List K) (s : List K × List K) : Type 0 where
    pub is_lru : IsLru r.0
    pub same_cap : r.0.cap ≡ n
    pub keys : recent r.0 ≡ s.0
    pub returned : r.1 ≡ s.1

  or_more-append : (o : Option K) (ks : List K) → or_more o ks ≡ or_more o [] ++ ks
  or_more-append none ks = refl
  or_more-append (some k) ks = refl

  save_and_evict-Shows :
      (l : MemoryLru K) (keys : List K)
      → IsLru l
      → Shows l.cap (save_and_evict l keys) (save_keys (to_ℕ l.cap) (recent l) keys)
  unfolding save_and_evict
  save_and_evict-Shows l [] i = record { is_lru = i; same_cap = refl; keys = refl; returned = refl }
  save_and_evict-Shows l (k ∷ keys) i =
      let one = do_save_and_evict-Kept l k i in
      let rest = save_and_evict-Shows (do_save_and_evict l k).0 keys one.is_lru in
      let args : save_keys (to_ℕ (do_save_and_evict l k).0.cap) (recent (do_save_and_evict l k).0)
            keys
          ≡ save_keys (to_ℕ l.cap) (take (to_ℕ l.cap) (k ∷ erase k (recent l))) keys =
        rw (one.same_cap, one.keys) refl in
      record {
        is_lru = rest.is_lru;
        same_cap = rest.same_cap ∙ one.same_cap;
        keys = rest.keys ∙ ap (λ s. s.0) args;
        returned =
            or_more-append (do_save_and_evict l k).1
              (save_and_evict (do_save_and_evict l k).0 keys).1
            ∙ rw (one.evicted, rest.returned, args) refl;
      }

  remove_found-Shows :
      (l : MemoryLru K) (k : K) (o : Option (Element K))
      → IsLru l
      → find k l.entries ≡ o
      → Shows l.cap (remove_found l k o, []) (erase k (recent l), [])
  unfolding Glist.remove
  remove_found-Shows l k none i q = record {
    is_lru = i;
    same_cap = refl;
    keys = sym (erase_absent k l.list.elements (sym (i.corresponds.agree k) ∙ q));
    returned = refl;
  }
  remove_found-Shows l k (some x) i q =
      let at = sym (i.corresponds.agree k) ∙ q in
      record {
        is_lru = record {
          well = remove-WellFormed l.list x i.well;
          corresponds =
              take_out-Corresponds l.list.fresh k l.entries l.list.elements i.well i.corresponds at;
          bounded = omega (
            arith,
            i.bounded,
            length-take_out x.id l.list.elements (at_key-member k l.list.elements at),
          );
        };
        same_cap = refl;
        keys = values-take_out l.list.fresh k l.list.elements i.well at;
        returned = refl;
      }

  remove-Shows :
      (l : MemoryLru K) (keys : List K)
      → IsLru l
      → Shows l.cap (remove l keys, []) (erase_keys (recent l) keys, [])
  unfolding remove remove_key
  remove-Shows l [] i = record { is_lru = i; same_cap = refl; keys = refl; returned = refl }
  remove-Shows l (k ∷ keys) i =
      let one = remove_found-Shows l k (find k l.entries) i refl in
      let rest = remove-Shows (remove_key l k) keys one.is_lru in
      record {
        is_lru = rest.is_lru;
        same_cap = rest.same_cap ∙ one.same_cap;
        keys = rest.keys ∙ ap (λ ks. erase_keys ks keys) one.keys;
        returned = refl;
      }

  empty-Corresponds : Corresponds {K = K} [] []
  empty-Corresponds = record { agree = λ k. refl; distinct = tt; alone = tt; sizes = refl }

  pub new_memory_lru-IsLru : (cap : ℤ) → IsLru (new_memory_lru {K = K} cap)
  unfolding new_memory_lru Glist.new
  new_memory_lru-IsLru cap = record {
    well = tt;
    corresponds = empty-Corresponds;
    bounded = omega arith;
  }

  -- Each call of a sound LRU manager leaves it sound and does what is specified on the list of its
  -- keys by recency.
  pub called-Shows :
      (l : MemoryLru K) (c : Call K)
      → IsLru l
      → Shows l.cap (called l c) (specified (to_ℕ l.cap) (recent l) c)
  unfolding clear Glist.clear Glist.remove_all
  called-Shows l (saves keys) i = save_and_evict-Shows l keys i
  called-Shows l (removes keys) i = remove-Shows l keys i
  called-Shows l clears i = record {
    is_lru = record { well = tt; corresponds = empty-Corresponds; bounded = omega arith };
    same_cap = refl;
    keys = refl;
    returned = refl;
  }
