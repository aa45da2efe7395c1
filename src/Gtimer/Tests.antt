-- ===== src/Gtimer/Tests.antt =====
-- The lemmas on the priority queue and the timer at concrete states.
use go_zero_admin_pkg.Prelude.{
  ℕ, zero, suc, ◌≤◌, ◌≡◌, refl, true, false, Option, some, List, [], ◌∷◌, Perm, arith,
}
use go_zero_admin_pkg.Prelude.Int.{pos, ◌+ℤ◌, ◌-ℤ◌}
use go_zero_admin_pkg.Prelude.Run.{ok}
use go_zero_admin_pkg.Gtimer.Heap
use go_zero_admin_pkg.Gtimer.Heap.{Item}
use go_zero_admin_pkg.Gtimer.Heap.Ends.{IsHeap, Popped, pop_lem}
use go_zero_admin_pkg.Gtimer.Queue.{PriorityQueue, push, pop}
use go_zero_admin_pkg.Gtimer.Queue.Next.{IsValid, push-IsValid, pop-IsValid}
use go_zero_admin_pkg.Gtimer.Entry.{
  ready, running, Entry, run, run_by_status, do_check_and_run_by_ticks,
}
use go_zero_admin_pkg.Gtimer.Entry.Runs.{starts, starts_bound}
use go_zero_admin_pkg.Gtimer.Entry.Single.{Steps, done, more, checked, at_most_one}
use go_zero_admin_pkg.Gtimer.Timer.{Timer, proceed, tick}
use go_zero_admin_pkg.Gtimer.Timer.Proceed.{IsSound, proceed-IsSound}
use go_zero_admin_pkg.Gtimer.Timer.Tick.{IsTicked, tick-IsTicked}

abbrev item : ℕ → ℕ → Item ℕ
item v p = record { value = v; priority = pos p }

abbrev three : List (Item ℕ)
three = item 0 2 ∷ item 1 5 ∷ item 2 4 ∷ []

three-IsHeap : IsHeap three
unfolding IsHeap
three-IsHeap zero h k = absurd (omega arith)
three-IsHeap (suc zero) h k = omega arith
three-IsHeap (suc (suc zero)) h k = omega arith
three-IsHeap (suc (suc (suc c))) h k = absurd (omega arith)

pop_lem_example :
    (rest : List (Item ℕ)) × (x : Item ℕ) × (Heap.pop three ≡ ok (rest, some x))
    × Popped three rest x
pop_lem_example = pop_lem three three-IsHeap (omega arith)

abbrev queue : PriorityQueue ℕ
queue = record { heap = three; next_priority = pos 2 }

queue-IsValid : IsValid queue
queue-IsValid = record { heap = three-IsHeap; range = (refl, (refl, (refl, tt))); next = refl }

push-IsValid_example :
    (r : PriorityQueue ℕ) × (push queue 7 (pos 1) ≡ ok r)
    × IsValid r
    × Perm r.heap (item 7 1 ∷ three)
push-IsValid_example = push-IsValid queue 7 (pos 1) queue-IsValid (omega arith)

pop-IsValid_example :
    (r : PriorityQueue ℕ) × (x : Item ℕ) × (pop queue ≡ ok (r, some x.value))
    × IsValid r
    × Perm (x ∷ r.heap) three
    × (x.priority ≡ pos 2)
pop-IsValid_example = pop-IsValid queue queue-IsValid (omega arith)

-- Due at 3, every two ticks.
abbrev job : Entry
job = record {
  ticks = pos 2;
  times = pos 2;
  status = ready;
  is_singleton = true;
  next_ticks = pos 3;
  infinite = false;
}

abbrev waiting : Entry
waiting = record job { status = running; times = pos 1; next_ticks = pos 6 }

-- The job starts at tick 4, and is still running when the entry is due again at tick 6.
job-Steps : Steps job 0 (record waiting { next_ticks = pos 8 }) 1
unfolding do_check_and_run_by_ticks run run_by_status ◌+ℤ◌ ◌-ℤ◌
job-Steps = more (more (done job 0) (checked (pos 4) job 0)) (checked (pos 6) waiting 1)

at_most_one_example : 1 ≤ 1
at_most_one_example = at_most_one job (record waiting { next_ticks = pos 8 }) 1 refl refl job-Steps

starts_bound_example : starts (pos 3 ∷ pos 4 ∷ pos 5 ∷ pos 9 ∷ []) job ≤ 2
starts_bound_example = starts_bound (pos 3 ∷ pos 4 ∷ pos 5 ∷ pos 9 ∷ []) job refl

-- Two entries, one of which is due at tick 3.
abbrev timer : Timer
timer = record {
  queue = record { heap = item 0 3 ∷ item 1 6 ∷ []; next_priority = pos 3 };
  status = running;
  ticks = pos 2;
  interval = pos 100;
  quick = false;
  entries = job ∷ waiting ∷ [];
}

two-IsHeap : IsHeap (item 0 3 ∷ item 1 6 ∷ [])
unfolding IsHeap
two-IsHeap zero h k = absurd (omega arith)
two-IsHeap (suc zero) h k = omega arith
two-IsHeap (suc (suc c)) h k = absurd (omega arith)

timer-IsSound : IsSound (pos 3) timer
unfolding ◌+ℤ◌
timer-IsSound = record {
  queue = record { heap = two-IsHeap; range = (refl, (refl, tt)); next = refl };
  points = (refl, (refl, tt));
  advances =
      ((omega arith, omega arith, omega arith), ((omega arith, omega arith, omega arith), tt));
}

proceed-IsSound_example :
    (r : Timer) × (started : List ℕ) × (proceed 2 (pos 3) timer [] ≡ ok (r, started))
    × IsSound (pos 3) r
proceed-IsSound_example = proceed-IsSound 2 (pos 3) timer [] timer-IsSound (omega arith)

tick-IsTicked_example :
    (o : Option (Timer × List ℕ)) × (tick timer ≡ ok o) × IsTicked (pos 3) running o
unfolding ◌+ℤ◌
tick-IsTicked_example = tick-IsTicked timer timer-IsSound
