-- ===== src/Gcache/Due.antt =====
-- utils/tools/gcache/gcache_adapter_memory.go: the items that the task of each second deletes, by their times.
use mathlib.Core.Option.{some-injective}
use mathlib.Core.Path.{subst}
use go_zero_admin_pkg.Prelude.{
  ℕ, zero, suc, ◌+◌, ◌*◌, ◌/◌, ◌≤◌, ◌≡◌, refl, sym, ap, ◌∙◌, Bool, true, false, ◌&&◌, Option, none,
  some, List, [], ◌∷◌, ◌++◌, if◌then◌else◌, arith, inl, inr, Bool-cases, ltb, leb,
}
use go_zero_admin_pkg.Prelude.Int.{ℤ, pos, ◌-ℤ◌, ◌+ℤ◌}
use go_zero_admin_pkg.Prelude.Maps.{Key, find, put, find-put}
use go_zero_admin_pkg.Gcache.Data.{MemoryDataItem}
use go_zero_admin_pkg.Gcache.Data
use go_zero_admin_pkg.Gcache.Gets.{handle_with-none}
use go_zero_admin_pkg.Gcache.Adapter.{
  AdapterMemory, do_new_adapter_memory, push_event, set, handle_lru_key, get_internal_expire,
}
use go_zero_admin_pkg.Gcache.Expire.{
  make_expire_key, sync_events, expire_seconds, sync_event_and_clear_expired,
}
use go_zero_admin_pkg.Gcache.Sync.{latest, Indexed, zero_apart}
use go_zero_admin_pkg.Gcache.Sweep.{
  due, Nonzero, noted, sync_events-Noted, Swept, expire_seconds-Swept,
}

make_expire_key-pos : (n : ℕ) → make_expire_key (pos n) ≡ pos (suc (n / 1000) * 1000)
unfolding make_expire_key ◌+ℤ◌
make_expire_key-pos n = ground arith

second_before : (q : ℕ) → pos (suc q * 1000) -ℤ pos 1000 ≡ pos (q * 1000)
unfolding ◌-ℤ◌
second_before q = ground arith

-- The item's second is one of the `n` before the second `q`.
within : ℕ → ℕ → ℕ → Bool
within n q p = ltb p q && leb q (p + n)

due-within : (n q p : ℕ) → n ≤ q → due n (pos (suc q * 1000)) (pos (suc p * 1000)) ≡ within n q p
unfolding within
due-within zero q p h = ground arith
due-within (suc n) zero p h = absurd (omega arith)
due-within (suc n) (suc q) p h =
    rw (second_before (suc q), due-within n q p (omega arith)) (ground arith)

seconds-Nonzero : (n q : ℕ) → n ≤ q → Nonzero n (pos (suc q * 1000))
seconds-Nonzero zero q h = tt
seconds-Nonzero (suc n) zero h = absurd (omega arith)
seconds-Nonzero (suc n) (suc q) h =
    rw (second_before (suc q)) (ground arith, seconds-Nonzero n q (omega arith))

-- The sets of the seconds are indexed by the noted times, and those after the events to come are
-- the seconds of the items.
pub record Sound {K V : Type 0} ⦃e : Key K⦄ (c : AdapterMemory K V) : Type 0 where
  pub indexed : Indexed c.expire_times c.expire_sets
  pub tracked :
      (k : K) (item : MemoryDataItem V)
      → find k c.entries ≡ some item
      → latest k c.event_list (noted c k) ≡ make_expire_key item.e

module _ {K V : Type 0} ⦃e : Key K⦄ where
  -- What the task leaves of an open cache at a second `q`.
  synced :
      (c : AdapterMemory K V) (now q : ℕ)
      → now / 1000 ≡ q
      → 5 ≤ q
      → Sound c
      → Swept
          (sync_events c c.event_list)
          (expire_seconds 5 (sync_events c c.event_list) (make_expire_key (pos now)))
          (due 5 (pos (suc q * 1000)))
  synced c now q s h sound =
      let noted_all = sync_events-Noted c c.event_list sound.indexed in
      rw (make_expire_key-pos now, s)
        (expire_seconds-Swept 5 (sync_events c c.event_list) (pos (suc q * 1000)) noted_all.indexed
          (seconds-Nonzero 5 q h))

  opened :
      (b : Bool) (c d : AdapterMemory K V) (k : K)
      → b ≡ false
      → find k (if b then c else d).entries ≡ find k d.entries
  opened b c d k h = rw h refl

  -- The task on an open and sound cache, at a time of five seconds or more, deletes an item with a
  -- non-negative expire time exactly if the second of that time is one of the five whole seconds
  -- before the current one, and keeps it otherwise.
  pub sync_lem :
      (c : AdapterMemory K V) (now t : ℕ) (k : K) (item : MemoryDataItem V)
      → Sound c
      → c.closed ≡ false
      → 5000 ≤ now
      → find k c.entries ≡ some item
      → item.e ≡ pos t
      → find k (sync_event_and_clear_expired c (pos now)).entries ≡ (
          if ltb (t / 1000) (now / 1000) && leb (now / 1000) (t / 1000 + 5)
          then none
          else some item)
  unfolding sync_event_and_clear_expired within
  sync_lem c now t k item sound is_open h found expire =
      let q = now / 1000 in
      let five : 5 ≤ q = omega arith in
      let noted_all = sync_events-Noted c c.event_list sound.indexed in
      let swept = synced c now q refl five sound in
      let second : noted (sync_events c c.event_list) k ≡ pos (suc (t / 1000) * 1000) =
        noted_all.times k
        ∙ sound.tracked k item found
        ∙ ap make_expire_key expire
        ∙ make_expire_key-pos t in
      opened c.closed c (expire_seconds 5 (sync_events c c.event_list) (make_expire_key (pos now)))
        k is_open
      ∙ swept.entries k
      ∙ rw (second, due-within 5 q (t / 1000) five, noted_all.entries, found) refl

  -- A cache stays sound through the task at a time of five seconds or more.
  pub sync-Sound :
      (c : AdapterMemory K V) (now : ℕ)
      → Sound c
      → 5000 ≤ now
      → Sound (sync_event_and_clear_expired c (pos now))
  unfolding sync_event_and_clear_expired
  sync-Sound c now sound h = either c.closed
    where
      d : AdapterMemory K V
      d = sync_events c c.event_list

      either : (b : Bool) → Sound (if b then c else expire_seconds 5 d (make_expire_key (pos now)))
      either true = sound
      either false =
          let q = now / 1000 in
          let noted_all = sync_events-Noted c c.event_list sound.indexed in
          let swept = synced c now q refl (omega arith) sound in
          record {
            indexed = swept.indexed;
            tracked = λ k item found.
                let kept = sym (swept.entries k) ∙ found in
                elim (Bool-cases (due 5 (pos (suc q * 1000)) (noted d k))) [
                  | inl x ↦ absurd (let bad : none ≡ some item = rw x at kept in cc)
                  | inr x ↦
                      let before : find k c.entries ≡ some item =
                        ap (find k) (sym noted_all.entries) ∙ (rw x at kept) in
                      ap
                        (λ events.
                          latest k events
                            (noted (expire_seconds 5 d (make_expire_key (pos now))) k))
                        (swept.event_list ∙ noted_all.event_list)
                      ∙ swept.times k
                      ∙ rw x (noted_all.times k ∙ sound.tracked k item before)
                ];
          }

module _ {K : Type 0} ⦃e : Key K⦄ where
  latest-append :
      (k j : K) (t : ℤ) (events : List (K × ℤ)) (old : ℤ)
      → latest k (events ++ (j, t) ∷ []) old
        ≡ (if e.beq j k then make_expire_key t else latest k events old)
  latest-append k j t [] old = refl
  latest-append k j t ((i, u) ∷ events) old =
      latest-append k j t events (if e.beq i k then make_expire_key u else old)

module _ {K V : Type 0} ⦃e : Key K⦄ where
  pub new-Sound : Sound {K = K} {V = V} do_new_adapter_memory
  unfolding do_new_adapter_memory
  new-Sound = record {
    indexed = λ k t nz. sym (zero_apart (pos 0) t refl nz);
    tracked = λ k item found. absurd (cc);
  }

  -- An item that is put together with its event keeps a cache sound.
  put-Sound :
      (c : AdapterMemory K V) (k : K) (item : MemoryDataItem V)
      → Sound c
      → Sound (push_event (record c { entries = put k item c.entries }) k item.e)
  unfolding push_event
  put-Sound c k item sound = record {
    indexed = sound.indexed;
    tracked = λ j other found.
        let there = find-put k j item c.entries in
        let last = latest-append j k item.e c.event_list (noted c j) in
        let before = sound.tracked j other in
        elim (Bool-cases (e.beq k j)) [
          | inl x ↦
              let same : some item ≡ some other = sym (rw x at there) ∙ found in
              last
              ∙ rw x (
                  ap (λ (i : MemoryDataItem V). make_expire_key i.e)
                    (some-injective item other same))
          | inr x ↦ last ∙ rw x (before (sym (rw x at there) ∙ found))
        ];
  }

  -- Set on a sound cache without LRU manager leaves it sound.
  pub set-Sound :
      (c : AdapterMemory K V) (k : K) (v : Option V) (duration now : ℤ)
      → c.lru ≡ none
      → Sound c
      → Sound (set c k v duration now)
  unfolding set Data.set handle_lru_key push_event
  set-Sound c k v duration now q sound =
      let item : MemoryDataItem V = record { v = v; e = get_internal_expire duration now } in
      let d = push_event (record c { entries = put k item c.entries }) k item.e in
      subst Sound (sym (handle_with-none d (k ∷ []) now c.lru q)) (put-Sound c k item sound)
