-- ===== src/Gcache/Gets.antt =====
-- utils/tools/gcache/gcache_adapter_memory.go: what Get returns after the operations that set a key.
use go_zero_admin_pkg.Prelude.{
  ℕ, zero, suc, ◌<◌, ◌≡◌, refl, ap, ◌∙◌, false, Option, none, some, List, [], ◌∷◌, drop,
  if◌then◌else◌, arith, inl, inr, Bool-cases, append-nil,
}
use go_zero_admin_pkg.Prelude.Int.{ℤ, to_ℕ}
use go_zero_admin_pkg.Prelude.Maps.{Key, find, put, occurs, beq_refl, find-put}
use go_zero_admin_pkg.Glist.{Element, values}
use go_zero_admin_pkg.Gcache.Lru.{MemoryLru, save_and_evict}
use go_zero_admin_pkg.Gcache.Lru.Keyed.{at_key, Alone, erase}
use go_zero_admin_pkg.Gcache.Lru.Refines.{IsLru, recent}
use go_zero_admin_pkg.Gcache.Lru.Spec.{saves, called-Shows}
use go_zero_admin_pkg.Gcache.Data.{
  MemoryDataItem, Given, plain, is_expired, set_given, set_with_lock_found,
}
use go_zero_admin_pkg.Gcache.Data
use go_zero_admin_pkg.Gcache.Adapter.{
  AdapterMemory, get_internal_expire, push_event, remove_evicted, do_remove, handle_with,
  handle_lru_key, get_item, get, set,
}
use go_zero_admin_pkg.Gcache.Covers.{find-remove_loop}
use go_zero_admin_pkg.Gcache.Handled.{get-IsCovered}
use go_zero_admin_pkg.Gcache.Bounded.{IsCovered}

module _ {K : Type 0} ⦃e : Key K⦄ where
  absent : (k : K) (xs : List (Element K)) → at_key k xs ≡ none → occurs k (values xs) ≡ false
  absent k [] h = refl
  absent k (x ∷ xs) h = ground (arith, absent k xs)

  occurs-erase_same :
      (k : K) (xs : List (Element K)) → Alone xs → occurs k (erase k (values xs)) ≡ false
  occurs-erase_same k [] u = refl
  occurs-erase_same k (x ∷ xs) u = elim (Bool-cases (e.beq x.value k)) [
    | inl c ↦ rw c (rw ((e.beq_iff x.value k).0 c) at (absent x.value xs u.0))
    | inr c ↦ rw c (rw c (occurs-erase_same k xs u.1))
  ]

  occurs-drop : (k : K) (n : ℕ) (xs : List K) → occurs k xs ≡ false → occurs k (drop n xs) ≡ false
  occurs-drop k zero xs h = h
  occurs-drop k (suc n) [] h = refl
  occurs-drop k (suc n) (x ∷ xs) h = occurs-drop k n xs (ground arith)

  -- The key that is used is not evicted, if the capacity is at least one.
  occurs-drop_used :
      (k : K) (n : ℕ) (xs : List (Element K))
      → Alone xs
      → 0 < n
      → occurs k (drop n (k ∷ erase k (values xs))) ≡ false
  occurs-drop_used k zero xs u h = absurd (omega arith)
  occurs-drop_used k (suc n) xs u h =
      occurs-drop k n (erase k (values xs)) (occurs-erase_same k xs u)

-- A cache that has no LRU manager, or one with a capacity of at least one.
pub data Keeps {K V : Type 0} ⦃e : Key K⦄ (c : AdapterMemory K V) : Type 0 where
  plainly : c.lru ≡ none → Keeps c
  with_lru : (n : ℤ) → IsCovered n [] c → 0 < to_ℕ n → Keeps c

module _ {V : Type 0} where
  -- What Get returns for an item.
  abbrev pub visible : Option (MemoryDataItem V) → ℤ → Option (Option V)
  visible none now = none
  visible (some item) now = if is_expired item now then none else some item.v

  -- The item that is there, unless it has expired, and otherwise the new one.
  abbrev pub chosen : Option (MemoryDataItem V) → MemoryDataItem V → ℤ → MemoryDataItem V
  chosen none new now = new
  chosen (some old) new now = if is_expired old now then new else old

module _ {K V : Type 0} ⦃e : Key K⦄ where
  remove_evicted-find :
      (c : AdapterMemory K V) (out : List K) (now : ℤ) (j : K)
      → find j (remove_evicted c out now).entries
        ≡ (if occurs j out then none else find j c.entries)
  unfolding do_remove Data.remove
  remove_evicted-find c [] now j = refl
  remove_evicted-find c (k ∷ out) now j = find-remove_loop c.entries (k ∷ out) none j

  handle_with-find :
      (c : AdapterMemory K V) (k : K) (now : ℤ) (o : Option (MemoryLru K)) (l : MemoryLru K)
      → o ≡ some l
      → IsLru l
      → 0 < to_ℕ l.cap
      → find k (handle_with c o (k ∷ []) now).entries ≡ find k c.entries
  handle_with-find c k now o l q i h =
      let s = called-Shows l (saves (k ∷ [])) i in
      let out : occurs k (save_and_evict l (k ∷ [])).1 ≡ false =
        ap (occurs k) (s.returned ∙ append-nil (drop (to_ℕ l.cap) (k ∷ erase k (recent l))))
        ∙ occurs-drop_used k (to_ℕ l.cap) l.list.elements i.corresponds.alone h in
      rw q (
        remove_evicted-find (record c { lru = some (save_and_evict l (k ∷ [])).0 })
          (save_and_evict l (k ∷ [])).1 now k
        ∙ rw out refl)

  pub handle_with-none :
      (c : AdapterMemory K V) (ks : List K) (now : ℤ) (o : Option (MemoryLru K))
      → o ≡ none
      → handle_with c o ks now ≡ c
  handle_with-none c ks now o q = rw q refl

  -- The item of the key that is handled stays.
  pub handled-find :
      (c d : AdapterMemory K V) (k : K) (now : ℤ)
      → Keeps c
      → d.lru ≡ c.lru
      → find k (handle_lru_key d (k ∷ []) now).entries ≡ find k d.entries
  unfolding handle_lru_key
  handled-find c d k now (plainly q) s =
      ap (λ (f : AdapterMemory K V). find k f.entries)
        (handle_with-none d (k ∷ []) now d.lru (s ∙ q))
  handled-find c d k now (with_lru n (l, q, v) h) s =
      handle_with-find d k now d.lru l (s ∙ q) v.is_lru (omega (arith, ap to_ℕ v.same_cap))

  pub get-visible :
      (c : AdapterMemory K V) (k : K) (now : ℤ) → (get c k now).1 ≡ visible (find k c.entries) now
  unfolding get Data.get
  get-visible c k now = by_item (find k c.entries)
    where
      by_item : (o : Option (MemoryDataItem V)) → (get_item c k now o).1 ≡ visible o now
      by_item none = refl
      by_item (some item) = ground arith

  -- Until it expires, and no longer, Get finds the value that was set last. The cache has no LRU
  -- manager, or one of a positive capacity.
  pub get-set :
      (c : AdapterMemory K V) (k : K) (v : Option V) (duration now later : ℤ)
      → Keeps c
      → (get (set c k v duration now) k later).1
        ≡ visible (some (record { v = v; e = get_internal_expire duration now })) later
  unfolding set Data.set push_event
  get-set c k v duration now later h =
      let t = get_internal_expire duration now in
      let item : MemoryDataItem V = record { v = v; e = t } in
      let d = push_event (record c { entries = put k item c.entries }) k t in
      get-visible (handle_lru_key d (k ∷ []) now) k later
      ∙ ap (λ o. visible o later)
          (handled-find c d k now h refl
            ∙ find-put k k item c.entries
            ∙ ap (λ b. if b then some item else find k c.entries) (beq_refl k))

  pub got-find :
      (c : AdapterMemory K V) (k : K) (now : ℤ)
      → Keeps c
      → find k (get c k now).0.entries ≡ find k c.entries
  unfolding get Data.get
  got-find c k now h = by_item (find k c.entries)
    where
      by_item :
          (o : Option (MemoryDataItem V)) → find k (get_item c k now o).0.entries ≡ find k c.entries
      by_item none = refl
      by_item (some item) = elim (Bool-cases (is_expired item now)) [
        | inl x ↦ rw x refl
        | inr x ↦ rw x (handled-find c c k now h refl)
      ]

  pub get-Keeps : (c : AdapterMemory K V) (k : K) (now : ℤ) → Keeps c → Keeps (get c k now).0
  unfolding get Data.get handle_lru_key
  get-Keeps c k now (with_lru n v h) = with_lru n (get-IsCovered n c k now v) h
  get-Keeps c k now (plainly q) = plainly (by_item (find k c.entries))
    where
      by_item : (o : Option (MemoryDataItem V)) → (get_item c k now o).0.lru ≡ none
      by_item none = q
      by_item (some item) = elim (Bool-cases (is_expired item now)) [
        | inl x ↦ rw x q
        | inr x ↦
            rw x
              (ap (λ (f : AdapterMemory K V). f.lru) (handle_with-none c (k ∷ []) now c.lru q) ∙ q)
      ]

  pub set_with_lock_found-missing :
      (m : List (K × MemoryDataItem V)) (k : K) (v : Option V) (t now : ℤ)
      (o : Option (MemoryDataItem V)) {E : Type 0}
      → visible o now ≡ none
      → set_with_lock_found {E = E} m k (plain v) t now o ≡ set_given m k (plain v) t
  set_with_lock_found-missing m k v t now none h = refl
  set_with_lock_found-missing m k v t now (some item) h = ground arith
