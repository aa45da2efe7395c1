-- ===== src/Gcache/Sweep.antt =====
-- utils/tools/gcache/gcache_adapter_memory.go: which items the task of each second deletes.
use go_zero_admin_pkg.Prelude.{
  ℕ, zero, suc, ◌≡◌, refl, sym, ap, ◌∙◌, Bool, true, false, ◌||◌, Option, none, some, List, [], ◌∷◌,
  if◌then◌else◌, arith, inl, inr, Bool-cases,
}
use go_zero_admin_pkg.Prelude.Int.{ℤ, pos, eq_ℤ, eq_ℤ_iff, is_zero, ◌-ℤ◌}
use go_zero_admin_pkg.Prelude.Maps.{Key, int_key, find, delete, occurs, find-put, find-delete}
use go_zero_admin_pkg.Gcache.Data.{MemoryDataItem}
use go_zero_admin_pkg.Gcache.Data
use go_zero_admin_pkg.Gcache.Adapter.{AdapterMemory, lru_remove}
use go_zero_admin_pkg.Gcache.Expire.{
  make_expire_key, or_zero, or_new, sync_event, sync_events, delete_expired_key, expire_each,
  expire_set, expire_seconds,
}
use go_zero_admin_pkg.Gcache.Sync.{latest, Indexed, moved-Indexed, zero_apart}

-- One of the `n` seconds before `t` is `x`.
abbrev pub due : ℕ → ℤ → ℤ → Bool
due zero t x = false
due (suc n) t x = eq_ℤ x (t -ℤ pos 1000) || due n (t -ℤ pos 1000) x

-- None of those seconds is zero.
abbrev pub Nonzero : ℕ → ℤ → Type 0
Nonzero zero t = Unit {0}
Nonzero (suc n) t = (is_zero (t -ℤ pos 1000) ≡ false) × Nonzero n (t -ℤ pos 1000)

second_cleared :
    (x u t : ℤ)
    → is_zero t ≡ false
    → (if eq_ℤ u t then false else eq_ℤ x t) ≡ eq_ℤ (if eq_ℤ x u then pos 0 else x) t
second_cleared x u t h = elim (Bool-cases (eq_ℤ x u)) [
  | inl c ↦ rw (c, (eq_ℤ_iff x u).0 c, zero_apart (pos 0) t refl h) (ground arith)
  | inr c ↦ elim (Bool-cases (eq_ℤ u t)) [
    | inr d ↦ rw (c, d) refl
    | inl d ↦ rw (c, d) (sym (sym (ap (eq_ℤ x) ((eq_ℤ_iff u t).0 d)) ∙ c))
  ]
]

after_two :
    {A : Type 0} (b : Bool) (f : ℤ → Bool) (x : ℤ) (a o : A)
    → (if f (if b then pos 0 else x) then a else (if b then a else o)) ≡ (if b || f x then a else o)
after_two true f x a o = elim (Bool-cases (f (pos 0))) [ inl c ↦ rw c refl | inr c ↦ rw c refl ]
after_two false f x a o = refl

module _ {K : Type 0} ⦃e : Key K⦄ where
  emptied :
      (u t : ℤ) (k : K) (sets : List (ℤ × List K))
      → occurs k (or_new (find t (delete u sets)))
        ≡ (if eq_ℤ u t then false else occurs k (or_new (find t sets)))
  emptied u t k sets = ap (λ o. occurs k (or_new o)) (find-delete u t sets) ∙ ground arith

  -- What is left of a map when the keys are deleted.
  abbrev Without : {A : Type 0} → List K → List (K × A) → List (K × A) → Type 0
  Without ks m d = (k : K) → find k d ≡ (if occurs k ks then none else find k m)

module _ {K V : Type 0} ⦃e : Key K⦄ where
  -- The second that the cache has noted for the key, zero for none.
  abbrev pub noted : AdapterMemory K V → K → ℤ
  noted c k = or_zero (find k c.expire_times)

  -- What the events leave.
  pub record Noted (c d : AdapterMemory K V) (events : List (K × ℤ)) : Type 0 where
    pub indexed : Indexed d.expire_times d.expire_sets
    pub times : (k : K) → noted d k ≡ latest k events (noted c k)
    pub entries : d.entries ≡ c.entries
    pub event_list : d.event_list ≡ []

  sync_event-times :
      (c : AdapterMemory K V) (j : K) (t : ℤ) (k : K)
      → noted (sync_event c j t) k ≡ (if e.beq j k then make_expire_key t else noted c k)
  unfolding sync_event
  sync_event-times c j t k = elim (Bool-cases (eq_ℤ (make_expire_key t) (noted c j))) [
    | inl x ↦ rw x (elim (Bool-cases (e.beq j k)) [
      | inl y ↦ rw y (
          ap (noted c) (sym ((e.beq_iff j k).0 y))
          ∙ sym ((eq_ℤ_iff (make_expire_key t) (noted c j)).0 x))
      | inr y ↦ rw y refl
    ])
    | inr x ↦ rw x (ap or_zero (find-put j k (make_expire_key t) c.expire_times) ∙ ground arith)
  ]

  sync_event-Indexed :
      (c : AdapterMemory K V) (j : K) (t : ℤ)
      → Indexed c.expire_times c.expire_sets
      → Indexed (sync_event c j t).expire_times (sync_event c j t).expire_sets
  unfolding sync_event
  sync_event-Indexed c j t h = elim (Bool-cases (eq_ℤ (make_expire_key t) (noted c j))) [
    | inl x ↦ rw x h
    | inr x ↦ rw x (moved-Indexed c.expire_times c.expire_sets j (make_expire_key t) h x)
  ]

  sync_event-entries :
      (c : AdapterMemory K V) (j : K) (t : ℤ) → (sync_event c j t).entries ≡ c.entries
  unfolding sync_event
  sync_event-entries c j t = elim (Bool-cases (eq_ℤ (make_expire_key t) (noted c j))) [
    | inl x ↦ rw x refl
    | inr x ↦ rw x refl
  ]

  pub sync_events-Noted :
      (c : AdapterMemory K V) (events : List (K × ℤ))
      → Indexed c.expire_times c.expire_sets
      → Noted c (sync_events c events) events
  unfolding sync_events
  sync_events-Noted c [] h = record {
    indexed = h;
    times = λ k. refl;
    entries = refl;
    event_list = refl;
  }
  sync_events-Noted c ((j, t) ∷ events) h =
      let rest = sync_events-Noted (sync_event c j t) events (sync_event-Indexed c j t h) in
      record {
        indexed = rest.indexed;
        times = λ k. rest.times k ∙ ap (latest k events) (sync_event-times c j t k);
        entries = rest.entries ∙ sync_event-entries c j t;
        event_list = rest.event_list;
      }

  expire_each-Without :
      (c : AdapterMemory K V) (ks : List K)
      → Without ks c.entries (expire_each c ks).entries
        × Without ks c.expire_times (expire_each c ks).expire_times
        × ((expire_each c ks).expire_sets ≡ c.expire_sets)
        × ((expire_each c ks).event_list ≡ c.event_list)
  unfolding expire_each delete_expired_key Data.delete
  expire_each-Without c [] = (λ k. refl, λ k. refl, refl, refl)
  expire_each-Without c (j ∷ ks) =
      let d = delete_expired_key c j in
      let rest = expire_each-Without (record d { lru = lru_remove d.lru (j ∷ []) }) ks in
      (
        λ k. rest.0 k ∙ rw (find-delete j k c.entries) (ground arith),
        λ k. rest.1 k ∙ rw (find-delete j k c.expire_times) (ground arith),
        rest.2,
        rest.3,
      )

  -- What the sweep of one second leaves.
  pub record Swept (c d : AdapterMemory K V) (gone : ℤ → Bool) : Type 0 where
    pub indexed : Indexed d.expire_times d.expire_sets
    pub entries : (k : K) → find k d.entries ≡ (if gone (noted c k) then none else find k c.entries)
    pub times : (k : K) → noted d k ≡ (if gone (noted c k) then pos 0 else noted c k)
    pub event_list : d.event_list ≡ c.event_list

  expire_set-Swept :
      (c : AdapterMemory K V) (u : ℤ)
      → Indexed c.expire_times c.expire_sets
      → is_zero u ≡ false
      → Swept c (expire_set c u (find u c.expire_sets)) (λ x. eq_ℤ x u)
  expire_set-Swept c u h nz = by_set (find u c.expire_sets) refl
    where
      by_set :
          (o : Option (List K))
          → find u c.expire_sets ≡ o
          → Swept c (expire_set c u o) (λ x. eq_ℤ x u)
      by_set none q =
          let missing : (k : K) → eq_ℤ (noted c k) u ≡ false =
            λ k. sym (h k u nz) ∙ ap (λ o. occurs k (or_new o)) q in
          record {
            indexed = h;
            entries = λ k. rw (missing k) refl;
            times = λ k. rw (missing k) refl;
            event_list = refl;
          }
      by_set (some ks) q =
          let here : (k : K) → occurs k ks ≡ eq_ℤ (noted c k) u =
            λ k. ap (λ o. occurs k (or_new o)) (sym q) ∙ h k u nz in
          let (entries, times, sets, events) = expire_each-Without c ks in
          let left : (k : K)
              → or_zero (find k (expire_each c ks).expire_times)
                ≡ (if eq_ℤ (noted c k) u then pos 0 else noted c k) =
            λ k. ap or_zero (times k) ∙ rw (here k) (ground arith) in
          record {
            indexed = λ k t t_nz.
                let now_in = emptied u t k c.expire_sets in
                rw (sets, left k, now_in, h k t t_nz) (second_cleared (noted c k) u t t_nz);
            entries = λ k. entries k ∙ rw (here k) refl;
            times = left;
            event_list = events;
          }

  -- A key that one round deletes has no second in the next ones.
  pub expire_seconds-Swept :
      (n : ℕ) (c : AdapterMemory K V) (t : ℤ)
      → Indexed c.expire_times c.expire_sets
      → Nonzero n t
      → Swept c (expire_seconds n c t) (due n t)
  unfolding expire_seconds
  expire_seconds-Swept zero c t h nz = record {
    indexed = h;
    entries = λ k. refl;
    times = λ k. refl;
    event_list = refl;
  }
  expire_seconds-Swept (suc n) c t h nz =
      let u = t -ℤ pos 1000 in
      let d = expire_set c u (find u c.expire_sets) in
      let one = expire_set-Swept c u h nz.0 in
      let rest = expire_seconds-Swept n d u one.indexed nz.1 in
      record {
        indexed = rest.indexed;
        entries = λ k.
            rest.entries k
            ∙ rw (one.entries k, one.times k)
                (after_two (eq_ℤ (noted c k) u) (due n u) (noted c k) none (find k c.entries));
        times = λ k.
            rest.times k
            ∙ rw (one.times k)
                (after_two (eq_ℤ (noted c k) u) (due n u) (noted c k) (pos 0) (noted c k));
        event_list = rest.event_list ∙ one.event_list;
      }
