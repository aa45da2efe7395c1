-- ===== src/Gmap/ListMap/Ensured.antt =====
-- utils/tools/gmap/gmap_list_map.go: what the methods that set a missing key leave and return.
use go_zero_admin_pkg.Prelude.{
  ◌≡◌, refl, sym, ap, ◌∙◌, Bool, true, false, not, Option, none, some, List, if◌then◌else◌,
}
use go_zero_admin_pkg.Prelude.Maps.{Key, find, put, has_key, is_some}
use go_zero_admin_pkg.Glist.{Element}
use go_zero_admin_pkg.Gmap.ListMap.{Node, ListMap, value_found, search, contains}
use go_zero_admin_pkg.Gmap.ListMap.GetOrSet.{
  Given, plain, func, given_value, do_set_found, do_set_with_lock_check, search_first, get_or_set,
  get_or_set_func, get_or_set_func_lock, unless_contained, set_if_not_exist, set_if_not_exist_func,
  set_if_not_exist_func_lock,
}
use go_zero_admin_pkg.Gmap.ListMap.Linked.{
  Linked, content, find-content, content-set_found, set_found-Linked,
}
use go_zero_admin_pkg.Gmap.ListMap.Order.{Holds}

module _ {K V : Type 0} ⦃e : Key K⦄ where
  -- The pairs with the new value at the end, unless the key is there or the value is nil, and the value that is
  -- there or new.
  abbrev pub ensured :
      List (K × Option V) → K → Option V → Option (Option V) → List (K × Option V) × Option V
  ensured c k v (some old) = (c, old)
  ensured c k none none = (c, none)
  ensured c k (some v) none = (put k (some v) c, some v)

  do_set_found-ensured :
      (m : ListMap K (Option V)) (k : K) (g : Given V) (o : Option (Element (Node K (Option V))))
      → Linked m
      → find k m.entries ≡ o
      → let r = do_set_found m k g o in
        let s = ensured (content m) k (given_value g) (value_found o) in Holds r.0 s.0 × (r.1 ≡ s.1)
  do_set_found-ensured m k g (some x) l h = ((l, refl), refl)
  do_set_found-ensured m k (plain none) none l h = ((l, refl), refl)
  do_set_found-ensured m k (func none) none l h = ((l, refl), refl)
  do_set_found-ensured m k (plain (some v)) none l h =
      ((set_found-Linked m k (some v) none l h, content-set_found m k (some v) none l h), refl)
  do_set_found-ensured m k (func (some v)) none l h =
      ((set_found-Linked m k (some v) none l h, content-set_found m k (some v) none l h), refl)

  -- What `r` is, if the call is right.
  abbrev pub Ensured :
      ListMap K (Option V) × Option V → ListMap K (Option V) → K → Option V → Type 0
  Ensured r m k v =
      Holds r.0 (ensured (content m) k v (find k (content m))).0
      × (r.1 ≡ (ensured (content m) k v (find k (content m))).1)

  do_set-Ensured :
      (m : ListMap K (Option V)) (k : K) (g : Given V)
      → Linked m
      → Ensured (do_set_with_lock_check m k g) m k (given_value g)
  unfolding do_set_with_lock_check
  do_set-Ensured m k g l =
      let done = do_set_found-ensured m k g (find k m.entries) l refl in
      let same = ap (ensured (content m) k (given_value g)) (sym (find-content m k l)) in
      ((done.0.0, done.0.1 ∙ ap (λ p. p.0) same), done.1 ∙ ap (λ p. p.1) same)

  search_first-Ensured :
      (m : ListMap K (Option V)) (k : K) (g : Given V) (o : Option (Option V))
      → Linked m
      → find k (content m) ≡ o
      → Ensured (search_first m k g o) m k (given_value g)
  search_first-Ensured m k g none l h = do_set-Ensured m k g l
  search_first-Ensured m k g (some v) l h = rw h ((l, refl), refl)

  -- GetOrSet, GetOrSetFunc and GetOrSetFuncLock return the value of a key that is there and change
  -- nothing; a missing key gets the new value, behind all others, which they return, unless it is nil.
  pub get_or_sets-Ensured :
      (m : ListMap K (Option V)) (k : K) (g : Given V) (f : Option V)
      → Linked m
      → Ensured (get_or_set m k g) m k (given_value g)
        × Ensured (get_or_set_func m k f) m k f
        × Ensured (get_or_set_func_lock m k f) m k f
  unfolding get_or_set get_or_set_func get_or_set_func_lock search
  get_or_sets-Ensured m k g f l = (
    search_first-Ensured m k g (value_found (find k m.entries)) l (find-content m k l),
    search_first-Ensured m k (plain f) (value_found (find k m.entries)) l (find-content m k l),
    search_first-Ensured m k (func f) (value_found (find k m.entries)) l (find-content m k l),
  )

  -- What `r` is, if the call is right, by whether the key is there.
  abbrev pub SetUnless : ListMap K (Option V) × Bool → ListMap K (Option V) → K → Option V → Type 0
  SetUnless r m k v =
      Holds r.0 (ensured (content m) k v (find k (content m))).0
      × (r.1 ≡ not (has_key k (content m)))

  abbrev unless_found :
      ListMap K (Option V) → K → Given V → Option (Option V) → ListMap K (Option V) × Bool
  unless_found m k g none = ((do_set_with_lock_check m k g).0, true)
  unless_found m k g (some v) = (m, false)

  unless_found-SetUnless :
      (m : ListMap K (Option V)) (k : K) (g : Given V) (o : Option (Option V))
      → Linked m
      → find k (content m) ≡ o
      → SetUnless (unless_found m k g o) m k (given_value g)
  unless_found-SetUnless m k g none l h =
      ((do_set-Ensured m k g l).0, sym (ap (λ p. not (is_some p)) h))
  unless_found-SetUnless m k g (some v) l h = rw h ((l, refl), refl)

  unless_contained-unless_found :
      (m : ListMap K (Option V)) (k : K) (g : Given V)
      → unless_contained m k g ≡ unless_found m k g (value_found (find k m.entries))
  unfolding contains
  unless_contained-unless_found m k g = by_entry (find k m.entries)
    where
      by_entry :
          (o : Option (Element (Node K (Option V))))
          → (if not (is_some o) then ((do_set_with_lock_check m k g).0, true) else (m, false))
            ≡ unless_found m k g (value_found o)
      by_entry none = refl
      by_entry (some x) = refl

  unless_contained-SetUnless :
      (m : ListMap K (Option V)) (k : K) (g : Given V)
      → Linked m
      → SetUnless (unless_contained m k g) m k (given_value g)
  unless_contained-SetUnless m k g l =
      rw (unless_contained-unless_found m k g)
        (unless_found-SetUnless m k g (value_found (find k m.entries)) l (find-content m k l))

  -- SetIfNotExist, SetIfNotExistFunc and SetIfNotExistFuncLock return whether the key was missing, and
  -- true also where they set nothing, since the new value is nil; a key that is there keeps its value.
  pub set_if_not_exists-SetUnless :
      (m : ListMap K (Option V)) (k : K) (g : Given V) (f : Option V)
      → Linked m
      → SetUnless (set_if_not_exist m k g) m k (given_value g)
        × SetUnless (set_if_not_exist_func m k f) m k f
        × SetUnless (set_if_not_exist_func_lock m k f) m k f
  unfolding set_if_not_exist set_if_not_exist_func set_if_not_exist_func_lock
  set_if_not_exists-SetUnless m k g f l = (
    unless_contained-SetUnless m k g l,
    unless_contained-SetUnless m k (plain f) l,
    unless_contained-SetUnless m k (func f) l,
  )
