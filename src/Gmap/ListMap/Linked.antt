-- ===== src/Gmap/ListMap/Linked.antt =====
-- utils/tools/gmap/gmap_list_map.go: the map and the list of a ListMap against each other, and against the pairs that
-- the list holds in its order.
use go_zero_admin_pkg.Prelude.{
  suc, ◌≡◌, refl, sym, ap, ◌∙◌, Option, none, some, List, length, if◌then◌else◌, arith,
}
use go_zero_admin_pkg.Prelude.Maps.{
  Key, is_some, has_key, find, put, delete, Distinct, find-put, find-delete, put-Distinct,
  delete-Distinct, delete_absent, length-put_both, length-delete_both,
}
use go_zero_admin_pkg.Prelude.Maps.Loops.{put-absent}
use go_zero_admin_pkg.Glist
use go_zero_admin_pkg.Glist.{Element, take_out}
use go_zero_admin_pkg.Glist.Ids.{
  Numbered, Numbered-weaken, member_above, snoc-Numbered, take_out-Numbered,
}
use go_zero_admin_pkg.Gmap.ListMap.{Node, ListMap, set_found, value_found, remove_found}
use go_zero_admin_pkg.Gmap.ListMap.Nodes.{
  pairs, pairs-append, assign-Numbered, at_node, find-pairs, pairs-assign, pairs-take_out,
  at_node-assign, at_node-append, at_node-take_out,
}

-- The elements have numbers of their own, and the map leads from the key of each node, and from no other
-- key, to its element.
pub record Linked {K V : Type 0} ⦃e : Key K⦄ (m : ListMap K V) : Type 0 where
  pub numbered : Numbered m.list.fresh m.list.elements
  pub agree : (k : K) → find k m.entries ≡ at_node k m.list.elements
  pub distinct : Distinct m.entries
  pub unique : Distinct (pairs m.list.elements)
  pub sizes : length m.entries ≡ length (pairs m.list.elements)

-- The pairs of a ListMap in its order.
abbrev pub content : {K V : Type 0} → ListMap K V → List (K × V)
content m = pairs m.list.elements

module _ {K V : Type 0} ⦃e : Key K⦄ where
  pub find-content :
      (m : ListMap K V) (k : K) → Linked m → find k (content m) ≡ value_found (find k m.entries)
  find-content m k l = find-pairs k m.list.elements ∙ ap value_found (sym (l.agree k))

  pub content-set_found :
      (m : ListMap K V) (k : K) (v : V) (o : Option (Element (Node K V)))
      → Linked m
      → find k m.entries ≡ o
      → content (set_found m k v o) ≡ put k v (content m)
  unfolding Glist.push_back
  content-set_found m k v none l h =
      pairs-append m.list.elements _
      ∙ sym (put-absent k v (content m) (find-content m k l ∙ ap value_found h))
  content-set_found m k v (some x) l h =
      pairs-assign m.list.fresh k v m.list.elements l.numbered (sym (l.agree k) ∙ h)

  set_found-agree :
      (m : ListMap K V) (k j : K) (v : V) (o : Option (Element (Node K V)))
      → Linked m
      → find k m.entries ≡ o
      → find j (set_found m k v o).entries ≡ at_node j (set_found m k v o).list.elements
  unfolding Glist.push_back
  set_found-agree m k j v none l h =
      find-put k j _ m.entries
      ∙ rw (l.agree j) refl
      ∙ sym (at_node-append j m.list.elements _ (sym (l.agree k) ∙ h))
  set_found-agree m k j v (some x) l h =
      find-put k j _ m.entries
      ∙ rw (l.agree j) refl
      ∙ sym (at_node-assign m.list.fresh k j v m.list.elements l.numbered (sym (l.agree k) ∙ h))

  set_found-Numbered :
      (m : ListMap K V) (k : K) (v : V) (o : Option (Element (Node K V)))
      → Linked m
      → Numbered (set_found m k v o).list.fresh (set_found m k v o).list.elements
  unfolding Glist.push_back
  set_found-Numbered m k v none l =
      snoc-Numbered (suc m.list.fresh) m.list.elements _
        (Numbered-weaken m.list.fresh (suc m.list.fresh) m.list.elements (omega arith) l.numbered)
        (omega arith)
        (member_above m.list.fresh m.list.fresh m.list.elements l.numbered (omega arith))
  set_found-Numbered m k v (some x) l =
      assign-Numbered m.list.fresh x.id _ m.list.elements l.numbered

  set_found-distinct :
      (m : ListMap K V) (k : K) (v : V) (o : Option (Element (Node K V)))
      → Distinct m.entries
      → Distinct (set_found m k v o).entries
  unfolding Glist.push_back
  set_found-distinct m k v none d = put-Distinct k _ m.entries d
  set_found-distinct m k v (some x) d = put-Distinct k _ m.entries d

  pub has_key-content :
      (m : ListMap K V) (k : K) → Linked m → has_key k (content m) ≡ has_key k m.entries
  has_key-content m k l = ap is_some (find-content m k l) ∙ is_some-found (find k m.entries)
    where
      is_some-found : (o : Option (Element (Node K V))) → is_some (value_found o) ≡ is_some o
      is_some-found none = refl
      is_some-found (some x) = refl

  length-set_found :
      (m : ListMap K V) (k : K) (v : V) (o : Option (Element (Node K V)))
      → Linked m
      → length (set_found m k v o).entries ≡ length (put k v (content m))
  unfolding Glist.push_back
  length-set_found m k v none l =
      length-put_both k _ v m.entries (content m) l.sizes (has_key-content m k l)
  length-set_found m k v (some x) l =
      length-put_both k _ v m.entries (content m) l.sizes (has_key-content m k l)

  pub set_found-Linked :
      (m : ListMap K V) (k : K) (v : V) (o : Option (Element (Node K V)))
      → Linked m
      → find k m.entries ≡ o
      → Linked (set_found m k v o)
  set_found-Linked m k v o l h = record {
    numbered = set_found-Numbered m k v o l;
    agree = λ j. set_found-agree m k j v o l h;
    distinct = set_found-distinct m k v o l.distinct;
    unique = rw (content-set_found m k v o l h) (put-Distinct k v (content m) l.unique);
    sizes = length-set_found m k v o l ∙ ap length (sym (content-set_found m k v o l h));
  }

  pub content-remove_found :
      (m : ListMap K V) (k : K) (o : Option (Element (Node K V)))
      → Linked m
      → find k m.entries ≡ o
      → content (remove_found m k o) ≡ delete k (content m)
  unfolding Glist.remove
  content-remove_found m k none l h =
      sym (delete_absent k (content m) (find-content m k l ∙ ap value_found h))
  content-remove_found m k (some x) l h =
      pairs-take_out m.list.fresh k m.list.elements l.numbered l.unique (sym (l.agree k) ∙ h)

  entries-remove_found :
      (m : ListMap K V) (k : K) (o : Option (Element (Node K V)))
      → find k m.entries ≡ o
      → (remove_found m k o).entries ≡ delete k m.entries
  entries-remove_found m k none h = sym (delete_absent k m.entries h)
  entries-remove_found m k (some x) h = refl

  at_node-remove_found :
      (m : ListMap K V) (k j : K) (o : Option (Element (Node K V)))
      → Linked m
      → find k m.entries ≡ o
      → at_node j (remove_found m k o).list.elements
        ≡ (if e.beq k j then none else at_node j m.list.elements)
  unfolding Glist.remove
  at_node-remove_found m k j none l h =
      let gone : at_node k m.list.elements ≡ none = sym (l.agree k) ∙ h in
      ground (arith, e.beq_iff k j)
  at_node-remove_found m k j (some x) l h =
      at_node-take_out m.list.fresh k j m.list.elements l.numbered l.unique (sym (l.agree k) ∙ h)

  remove_found-Numbered :
      (m : ListMap K V) (k : K) (o : Option (Element (Node K V)))
      → Linked m
      → Numbered (remove_found m k o).list.fresh (remove_found m k o).list.elements
  unfolding Glist.remove
  remove_found-Numbered m k none l = l.numbered
  remove_found-Numbered m k (some x) l =
      take_out-Numbered m.list.fresh x.id m.list.elements l.numbered

  pub remove_found-Linked :
      (m : ListMap K V) (k : K) (o : Option (Element (Node K V)))
      → Linked m
      → find k m.entries ≡ o
      → Linked (remove_found m k o)
  remove_found-Linked m k o l h = record {
    numbered = remove_found-Numbered m k o l;
    agree = λ j.
        ap (find j) (entries-remove_found m k o h)
        ∙ find-delete k j m.entries
        ∙ rw (l.agree j) refl
        ∙ sym (at_node-remove_found m k j o l h);
    distinct = rw (entries-remove_found m k o h) (delete-Distinct k m.entries l.distinct);
    unique = rw (content-remove_found m k o l h) (delete-Distinct k (content m) l.unique);
    sizes =
        ap length (entries-remove_found m k o h)
        ∙ length-delete_both k m.entries (content m) l.distinct l.unique l.sizes
            (has_key-content m k l)
        ∙ ap length (sym (content-remove_found m k o l h));
  }
