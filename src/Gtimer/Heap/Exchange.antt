-- ===== src/Gtimer/Heap/Exchange.antt =====
-- The priorities after an exchange of two items.
use mathlib.Core.List.{perm_middle}
use mathlib.Core.List.Perm
use go_zero_admin_pkg.Prelude.{
  ℕ, zero, suc, ◌+◌, ◌<◌, ◌≡◌, ◌≢◌, refl, sym, ap, ◌∙◌, List, [], ◌∷◌, ◌++◌, Perm, arith, length,
  ne→==, length-append, ℕ_discrete,
}
use go_zero_admin_pkg.Prelude.Int.{ℤ, pos, ltb_ℤ}
use go_zero_admin_pkg.Prelude.Permutations.{length-perm}
use go_zero_admin_pkg.Prelude.Run.{ok, load}
use go_zero_admin_pkg.Prelude.Swap
use go_zero_admin_pkg.Prelude.Swap.{swap_apart, swap_same, load_at, regroup}
use go_zero_admin_pkg.Gtimer.Heap.{Item, less, swap}

module _ {V : Type 0} where
  -- The priority at an index; it is used below the length alone.
  abbrev pub prio : List (Item V) → ℕ → ℤ
  prio [] i = pos 0
  prio (x ∷ a) zero = x.priority
  prio (x ∷ a) (suc i) = prio a i

  -- The list cut at one index, and at two.
  record Cut (a : List (Item V)) (i : ℕ) : Type 0 where
    pre : List (Item V)
    item : Item V
    post : List (Item V)
    shape : a ≡ pre ++ item ∷ post
    at : i ≡ length pre

  cut : (a : List (Item V)) (i : ℕ) → i < length a → Cut a i
  cut [] i h = absurd (omega arith)
  cut (x ∷ a) zero h = record { pre = []; item = x; post = a; shape = refl; at = refl }
  cut (x ∷ a) (suc i) h =
      let c = cut a i (omega arith) in
      record {
        pre = x ∷ c.pre;
        item = c.item;
        post = c.post;
        shape = ap (◌∷◌ x) c.shape;
        at = ap suc c.at;
      }

  pub prio_at :
      (pre post : List (Item V)) (x : Item V) (i : ℕ)
      → i ≡ length pre
      → prio (pre ++ x ∷ post) i ≡ x.priority
  prio_at [] post x zero e = refl
  prio_at [] post x (suc i) e = absurd (omega arith)
  prio_at (y ∷ pre) post x zero e = absurd (omega arith)
  prio_at (y ∷ pre) post x (suc i) e = prio_at pre post x i (omega arith)

  prio_off :
      (pre post : List (Item V)) (x y : Item V) (i : ℕ)
      → i ≢ length pre
      → prio (pre ++ x ∷ post) i ≡ prio (pre ++ y ∷ post) i
  prio_off [] post x y zero h = absurd (h refl)
  prio_off [] post x y (suc i) h = refl
  prio_off (z ∷ pre) post x y zero h = refl
  prio_off (z ∷ pre) post x y (suc i) h = prio_off pre post x y i (λ e. h (ap suc e))

  load-prio :
      (a : List (Item V)) (i : ℕ)
      → i < length a
      → (x : Item V) × (load a i ≡ ok x) × (x.priority ≡ prio a i)
  load-prio a i h =
      let c = cut a i h in
      (
        c.item,
        rw c.shape (load_at c.pre c.post c.item i c.at),
        rw c.shape (sym (prio_at c.pre c.post c.item i c.at)),
      )

  pub less-ok :
      (a : List (Item V)) (i j : ℕ)
      → i < length a
      → j < length a
      → less a i j ≡ ok (ltb_ℤ (prio a i) (prio a j))
  unfolding less
  less-ok a i j hi hj =
      let (x, e, p) = load-prio a i hi in let (y, f, q) = load-prio a j hj in rw (e, f, p, q)

  -- `b` is `a` with the items at `i` and `j` exchanged.
  pub record Exchanged (a : List (Item V)) (i j : ℕ) (b : List (Item V)) : Type 0 where
    pub here : prio b i ≡ prio a j
    pub there : prio b j ≡ prio a i
    pub elsewhere : (k : ℕ) → k ≢ i → k ≢ j → prio b k ≡ prio a k
    pub size : length b ≡ length a
    pub same : Perm b a

  -- The priority at `k` afterwards, in terms of those before.
  pub data Placed (a : List (Item V)) (i j : ℕ) (b : List (Item V)) (k : ℕ) : Type 0 where
    first : k ≡ i → prio b k ≡ prio a j → Placed a i j b k
    second : k ≡ j → prio b k ≡ prio a i → Placed a i j b k
    off : k ≢ i → k ≢ j → prio b k ≡ prio a k → Placed a i j b k

  pub placed : (a b : List (Item V)) (i j k : ℕ) → Exchanged a i j b → Placed a i j b k
  placed a b i j k x = elim (ℕ_discrete k i) [
    | yes e ↦ Placed.first e (ap (prio b) e ∙ x.here)
    | no n ↦ elim (ℕ_discrete k j) [
      | yes e ↦ Placed.second e (ap (prio b) e ∙ x.there)
      | no m ↦ Placed.off n m (x.elsewhere k n m)
    ]
  ]

  ends-perm :
      (m post : List (Item V)) (x y : Item V) → Perm (y ∷ (m ++ x ∷ post)) (x ∷ (m ++ y ∷ post))
  ends-perm m post x y = Perm.trans (Perm.cons y (perm_middle {a = x} m post)) (
      Perm.trans (Perm.swap x y (m ++ post)) (Perm.cons x (Perm.symm (perm_middle {a = y} m post))))

  shaped-Exchanged :
      (p m post : List (Item V)) (x y : Item V) (i j : ℕ)
      → i ≡ length p
      → j ≡ suc (length p + length m)
      → Exchanged (p ++ x ∷ (m ++ y ∷ post)) i j (p ++ y ∷ (m ++ x ∷ post))
  shaped-Exchanged p m post x y i j ei ej =
      let last : (z : Item V) → j ≡ length (p ++ z ∷ m) =
        λ z. omega (arith, length-append p (z ∷ m)) in
      let second : (z w : Item V) → prio (p ++ z ∷ (m ++ w ∷ post)) j ≡ w.priority =
        λ z w. ap (λ l. prio l j) (regroup p m post z w) ∙ prio_at (p ++ z ∷ m) post w j (last z) in
      let same = Perm.append (Perm.refl p) (ends-perm m post x y) in
      record {
        here = prio_at p (m ++ x ∷ post) y i ei ∙ sym (second x y);
        there = second y x ∙ sym (prio_at p (m ++ y ∷ post) x i ei);
        elsewhere = λ k ni nj.
            prio_off p (m ++ x ∷ post) y x k (λ e. ni (e ∙ sym ei))
            ∙ ap (λ l. prio l k) (regroup p m post x x)
            ∙ prio_off (p ++ x ∷ m) post x y k (λ e. nj (e ∙ sym (last x)))
            ∙ ap (λ l. prio l k) (sym (regroup p m post x y));
        size = length-perm same;
        same = same;
      }

  of_shape : (a l b : List (Item V)) (i j : ℕ) → a ≡ l → Exchanged l i j b → Exchanged a i j b
  of_shape a l b i j e x = record {
    here = x.here ∙ ap (λ m. prio m j) (sym e);
    there = x.there ∙ ap (λ m. prio m i) (sym e);
    elsewhere = λ k p q. x.elsewhere k p q ∙ ap (λ m. prio m k) (sym e);
    size = x.size ∙ ap length (sym e);
    same = rw e (x.same);
  }

  pub swap-Exchanged :
      (a : List (Item V)) (i j : ℕ)
      → i < j
      → j < length a
      → (b : List (Item V)) × (swap a i j ≡ ok b) × Exchanged a i j b
  unfolding swap
  swap-Exchanged a i j h k =
      let c = cut a j k in
      let d = cut c.pre i (omega (arith, c.at)) in
      let shape : a ≡ d.pre ++ d.item ∷ (d.post ++ c.item ∷ c.post) =
        c.shape
        ∙ ap (λ l. l ++ c.item ∷ c.post) d.shape
        ∙ sym (regroup d.pre d.post c.post d.item c.item) in
      let far : j ≡ suc (length d.pre + length d.post) =
        omega (arith, c.at, ap length d.shape, length-append d.pre (d.item ∷ d.post)) in
      (
        d.pre ++ c.item ∷ (d.post ++ d.item ∷ c.post),
        rw (ne→== (length a) 0 (omega arith)) (
            ap (λ l. Swap.swap l i j) shape
            ∙ swap_apart d.pre d.post c.post d.item c.item i j d.at far),
        of_shape a (d.pre ++ d.item ∷ (d.post ++ c.item ∷ c.post))
            (d.pre ++ c.item ∷ (d.post ++ d.item ∷ c.post)) i j shape
            (shaped-Exchanged d.pre d.post c.post d.item c.item i j d.at far),
      )
