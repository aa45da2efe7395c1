-- ===== src/Gtimer/Timer/Proceed.antt =====
-- proceed: the entries that are due, and what keeps the timer sound.
use mathlib.Core.List.Perm
use go_zero_admin_pkg.Prelude.{
  ℕ, zero, suc, ◌+◌, ◌≤◌, ◌<◌, ◌≡◌, refl, ap, true, false, List, [], ◌∷◌, ◌++◌, Perm, arith, length,
  get_or, set, ltb, ltb→lt, ltb→le, lt→ltb, if◌then◌else◌, inl, inr, Bool-cases,
}
use go_zero_admin_pkg.Prelude.Int.{ℤ, pos, ltb_ℤ, ◌≤ℤ◌, ◌+ℤ◌, +ℤ_parts}
use go_zero_admin_pkg.Prelude.Permutations.{All, Tested, perm-Tested}
use go_zero_admin_pkg.Prelude.Run.{ok, load-ok}
use go_zero_admin_pkg.Gtimer.Heap.{Item}
use go_zero_admin_pkg.Gtimer.Entry.{closed, Entry, do_check_and_run_by_ticks}
use go_zero_admin_pkg.Gtimer.Entry.Runs.{check-next}
use go_zero_admin_pkg.Gtimer.Queue
use go_zero_admin_pkg.Gtimer.Queue.{PriorityQueue, max_int64}
use go_zero_admin_pkg.Gtimer.Queue.Next.{
  IsValid, push-IsValid, pop-IsValid, pop-none, emptied-IsValid,
}
use go_zero_admin_pkg.Gtimer.Timer.{Timer, is_closed, check_popped, proceed}

-- The entry comes back after at least one tick, and its tick counts fit an int64.
abbrev pub Advances : ℤ → Entry → Type 0
Advances now e = (pos 1 ≤ℤ e.ticks) × (now +ℤ e.ticks ≤ℤ max_int64) × (e.next_ticks ≤ℤ max_int64)

abbrev pub is_due : ℤ → Entry → ℕ
is_due now e = if ltb_ℤ now e.next_ticks then 0 else 1

-- How many entries are due.
abbrev pub due : ℤ → List Entry → ℕ
due now [] = 0
due now (e ∷ es) = is_due now e + due now es

pub due-length : (now : ℤ) (es : List Entry) → due now es ≤ length es
due-length now [] = omega arith
due-length now (e ∷ es) = elim (Bool-cases (ltb_ℤ now e.next_ticks)) [
  | inl early ↦ rw early (omega (arith, due-length now es))
  | inr late ↦ rw late (omega (arith, due-length now es))
]

due-set :
    (now : ℤ) (es : List Entry) (i : ℕ) (d f : Entry)
    → i < length es
    → is_due now (get_or es i d) ≡ 1
    → is_due now f ≡ 0
    → due now (set es i f) + 1 ≡ due now es
due-set now [] i d f h a b = absurd (omega arith)
due-set now (e ∷ es) zero d f h a b = omega arith
due-set now (e ∷ es) (suc i) d f h a b = omega (arith, due-set now es i d f (omega arith) a b)

All-set :
    (P : Entry → Type 0) (es : List Entry) (i : ℕ) (f : Entry) → All P es → P f → All P (set es i f)
All-set P [] i f h k = tt
All-set P (e ∷ es) zero f h k = (k, h.1)
All-set P (e ∷ es) (suc i) f h k = (h.0, All-set P es i f h.1 k)

All-get :
    (P : Entry → Type 0) (es : List Entry) (i : ℕ) (d : Entry)
    → i < length es
    → All P es
    → P (get_or es i d)
All-get P [] i d h k = absurd (omega arith)
All-get P (e ∷ es) zero d h k = k.0
All-get P (e ∷ es) (suc i) d h k = All-get P es i d (omega arith) k.1

length-set : (es : List Entry) (i : ℕ) (f : Entry) → length (set es i f) ≡ length es
length-set [] i f = refl
length-set (e ∷ es) zero f = refl
length-set (e ∷ es) (suc i) f = ap suc (length-set es i f)

-- The items point to entries.
abbrev pub Points : ℕ → List (Item ℕ) → Type 0
Points n = Tested (λ x. ltb x.value n) true

pub record IsSound (now : ℤ) (t : Timer) : Type 0 where
  pub queue : IsValid t.queue
  pub points : Points (length t.entries) t.queue.heap
  pub advances : All (Advances now) t.entries

-- Pushing an entry of the list keeps the timer sound.
push-IsSound :
    (now : ℤ) (t : Timer) (id : ℕ) (p : ℤ)
    → IsSound now t
    → id < length t.entries
    → p ≤ℤ max_int64
    → (q : PriorityQueue ℕ) × (Queue.push t.queue id p ≡ ok q)
      × IsSound now (record t { queue = q })
push-IsSound now t id p s h k =
    let (q, e, v, same) = push-IsValid t.queue id p s.queue k in
    (
      q,
      e,
      record {
        queue = v;
        points =
            perm-Tested (λ x. ltb x.value (length t.entries)) true (Perm.symm same)
              (lt→ltb id (length t.entries) h, s.points);
        advances = s.advances;
      },
    )

later : (now p : ℤ) (ticks : ℤ) → p ≡ now +ℤ ticks → pos 1 ≤ℤ ticks → ltb_ℤ now p ≡ true
later now p ticks e h = rw e (lt→ltb _ _ (omega (arith, +ℤ_parts now ticks)))

-- A round with an entry that is due: the timer stays sound, and one entry fewer is due.
check_popped-IsSound :
    (now : ℤ) (t : Timer) (id : ℕ) (d : Entry)
    → IsSound now t
    → id < length t.entries
    → ltb_ℤ now (get_or t.entries id d).next_ticks ≡ false
    → (r : Timer) × (check_popped now t id (get_or t.entries id d) ≡ ok r)
      × IsSound now r
      × (due now r.entries + 1 ≡ due now t.entries)
unfolding check_popped
check_popped-IsSound now t id d s h late =
    let entry = get_or t.entries id d in
    let checked = (do_check_and_run_by_ticks now entry).0 in
    let (next, same) = check-next now entry late in
    let adv = All-get (Advances now) t.entries id d h s.advances in
    let es = set t.entries id checked in
    let fewer : due now es + 1 ≡ due now t.entries =
      due-set now t.entries id d checked h (rw late refl)
        (rw (later now checked.next_ticks entry.ticks next adv.0) refl) in
    let ahead : IsSound now (record t { entries = es }) = record {
      queue = s.queue;
      points = rw (length-set t.entries id checked) (s.points);
      advances =
          All-set (Advances now) t.entries id checked s.advances
            (rw (same, next) (adv.0, adv.1, adv.1));
    } in
    elim (Bool-cases (is_closed checked.status)) [
      | inl shut ↦ (record t { entries = es }, rw shut refl, ahead, fewer)
      | inr lives ↦
          let (q, e, v) =
            push-IsSound now (record t { entries = es }) id checked.next_ticks ahead
              (omega (arith, length-set t.entries id checked)) (rw next (adv.1)) in
          (record t { entries = es; queue = q }, rw (lives, e) refl, v, fewer)
    ]

-- With the head of the queue taken off, the timer stays sound, and the head points to an entry.
popped-IsSound :
    (now : ℤ) (t : Timer) (q : PriorityQueue ℕ) (x : Item ℕ)
    → IsSound now t
    → IsValid q
    → Perm (x ∷ q.heap) t.queue.heap
    → IsSound now (record t { queue = q }) × (x.value < length t.entries)
popped-IsSound now t q x s v same =
    let points = perm-Tested (λ y. ltb y.value (length t.entries)) true (Perm.symm same) s.points in
    (record { queue = v; points = points.1; advances = s.advances }, ltb→lt _ _ points.0)

-- It stands for the element outside of a list, which is not met.
abbrev no_entry : Entry
no_entry = record {
  ticks = pos 1;
  times = pos 0;
  status = closed;
  is_singleton = false;
  next_ticks = pos 0;
  infinite = false;
}

nil_of_length : {A : Type 0} (l : List A) → length l ≤ 0 → l ≡ []
nil_of_length [] h = refl
nil_of_length (x ∷ l) h = absurd (omega arith)

-- With one round more than entries that are due, proceed on a sound timer returns, without a panic,
-- and leaves the timer sound.
pub proceed-IsSound :
    (k : ℕ) (now : ℤ) (t : Timer) (jobs : List ℕ)
    → IsSound now t
    → due now t.entries < k
    → (r : Timer) × (started : List ℕ) × (proceed k now t jobs ≡ ok (r, started)) × IsSound now r
unfolding proceed
proceed-IsSound zero now t jobs s h = absurd (omega arith)
proceed-IsSound (suc k) now t jobs s h = elim (Bool-cases (ltb 0 (length t.queue.heap))) [
  | inr none_left ↦
      let empty = nil_of_length t.queue.heap (ltb→le _ _ none_left) in
      let q : PriorityQueue ℕ = record { heap = []; next_priority = t.queue.next_priority } in
      (
        record t { queue = q },
        jobs,
        rw (pop-none t.queue empty) refl,
        record {
          queue = emptied-IsValid t.queue s.queue empty;
          points = tt;
          advances = s.advances;
        },
      )
  | inl some_left ↦
      let (q, x, e, v, same, first) = pop-IsValid t.queue s.queue (ltb→lt _ _ some_left) in
      let (u, inside) = popped-IsSound now t q x s v same in
      let d = no_entry in
      let entry = get_or t.entries x.value d in
      let loaded = load-ok t.entries x.value d inside in
      elim (Bool-cases (ltb_ℤ now entry.next_ticks)) [
        | inl early ↦
            let adv = All-get (Advances now) t.entries x.value d inside s.advances in
            let (p, f, w) =
              push-IsSound now (record t { queue = q }) x.value entry.next_ticks u inside (adv.2) in
            (record t { queue = p }, jobs, rw (e, loaded, early, f) refl, w)
        | inr late ↦
            let (r, f, w, fewer) =
              check_popped-IsSound now (record t { queue = q }) x.value d u inside late in
            let (r', jobs', g, z) =
              proceed-IsSound k now r
                (if (do_check_and_run_by_ticks now entry).1 then jobs ++ x.value ∷ [] else jobs) w
                (omega arith) in
            (r', jobs', rw (e, loaded, late, f) g, z)
      ]
]
