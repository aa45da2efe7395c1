-- ===== src/Gcache/Lru.antt =====
-- utils/tools/gcache/gcache_adapter_memory_lru.go: the keys by how recently they were used.
-- `entries` is the field `data`, a gmap.Map from a key to its element, as an association list; no key is nil. Locks are left out.
pub mod Keyed
pub mod Corresponds
pub mod Refines
pub mod Spec
use go_zero_admin_pkg.Prelude.{
  ℕ, zero, suc, Bool, true, false, Option, none, some, List, [], ◌∷◌, ◌++◌, length, if◌then◌else◌,
  not,
}
use go_zero_admin_pkg.Prelude.Int.{ℤ, pos, ltb_ℤ}
use go_zero_admin_pkg.Prelude.Maps.{Key, is_some, find, put, delete}
use go_zero_admin_pkg.Glist.{Element, GList, prev}
use go_zero_admin_pkg.Glist

pub record MemoryLru (K : Type 0) : Type 0 where
  pub cap : ℤ
  pub entries : List (K × Element K)
  pub list : GList K

-- An evicted key in front of those of the later keys.
abbrev pub or_more : {A : Type 0} → Option A → List A → List A
or_more none rest = rest
or_more (some a) rest = a ∷ rest

module _ {K : Type 0} where
  unfoldable pub new_memory_lru : ℤ → MemoryLru K
  new_memory_lru cap = record { cap = cap; entries = []; list = Glist.new false }

  unfoldable pub clear : MemoryLru K → MemoryLru K
  clear l = record l { entries = []; list = Glist.clear l.list }

module _ {K : Type 0} ⦃e : Key K⦄ where
  abbrev pub remove_found : MemoryLru K → K → Option (Element K) → MemoryLru K
  remove_found l key none = l
  remove_found l key (some el) = record l {
    entries = delete key l.entries;
    list = (Glist.remove l.list el).0;
  }

  unfoldable pub remove_key : MemoryLru K → K → MemoryLru K
  remove_key l key = remove_found l key (find key l.entries)

  unfoldable pub remove : MemoryLru K → List K → MemoryLru K
  remove l [] = l
  remove l (key ∷ keys) = remove (remove_key l key) keys

  -- What follows the push: the last key leaves when there are more than `cap`.
  unfoldable pub evict : MemoryLru K → MemoryLru K × Option K
  evict l =
      if not (ltb_ℤ l.cap (pos (length l.entries)))
      then (l, none)
      else let (list, evicted) = Glist.pop_back l.list in
        (
          record l {
            entries = elim evicted [ none ↦ l.entries | some key ↦ delete key l.entries ];
            list = list;
          },
          evicted,
        )

  unfoldable pub push : MemoryLru K → K → MemoryLru K × Option K
  push l key =
      let (list, el) = Glist.push_front l.list key in
      evict (record l { entries = put key el l.entries; list = list })

  -- What is done with the element that the key has, if it has one.
  abbrev pub save_found : MemoryLru K → K → Option (Element K) → MemoryLru K × Option K
  save_found l key none = push l key
  save_found l key (some el) =
      if is_some (prev el.id l.list.elements)
      then push (record l { list = (Glist.remove l.list el).0 }) key
      else (l, none)

  unfoldable pub do_save_and_evict : MemoryLru K → K → MemoryLru K × Option K
  do_save_and_evict l key = save_found l key (find key l.entries)

  unfoldable pub save_and_evict : MemoryLru K → List K → MemoryLru K × List K
  save_and_evict l [] = (l, [])
  save_and_evict l (key ∷ keys) =
      let (m, evicted) = do_save_and_evict l key in
      let (n, rest) = save_and_evict m keys in (n, or_more evicted rest)
