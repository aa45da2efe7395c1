-- ===== src/Gtimer/Timer.antt =====
-- utils/tools/gtimer/gtimer_timer.go and utils/tools/gtimer/gtimer_timer_loop.go: Timer. The queue holds
-- the indexes of the entries, in place of Go's pointers, in the timer's own list of every entry it made.
pub mod Proceed
pub mod Tick
use go_zero_admin_pkg.Prelude.{
  ℕ, zero, suc, ◌+◌, ◌/◌, Bool, true, false, not, ◌||◌, Option, none, some, List, [], ◌∷◌, ◌++◌,
  length, set, ◌==◌, if◌then◌else◌,
}
use go_zero_admin_pkg.Prelude.Int.{
  ℤ, pos, negsuc, is_neg, is_pos, is_zero, ltb_ℤ, ◌+ℤ◌, pos_part, neg_part, sub_ℕ,
}
use go_zero_admin_pkg.Prelude.Run.{Run, ok, panic, ◌>>=◌, load}
use go_zero_admin_pkg.Gtimer.Entry.{
  Status, ready, running, stopped, closed, other, Entry, do_check_and_run_by_ticks,
}
use go_zero_admin_pkg.Gtimer.Queue
use go_zero_admin_pkg.Gtimer.Queue.{PriorityQueue, new_priority_queue}

pub record Timer : Type 0 where
  pub queue : PriorityQueue ℕ
  pub status : Status
  pub ticks : ℤ
  pub interval : ℤ
  pub quick : Bool
  pub entries : List Entry

-- New, with the interval of the options, or `default_interval` for the zero one.
pub new : ℤ → ℤ → Bool → Timer
new default_interval interval quick = record {
  queue = new_priority_queue;
  status = running;
  ticks = pos 0;
  interval = if is_zero interval then default_interval else interval;
  quick = quick;
  entries = [];
}

-- Go's division of int64: towards zero, with a panic for the divisor zero.
abbrev pub quotient : ℤ → ℤ → Run ℤ
quotient a (pos zero) = panic
quotient (pos a) (pos (suc b)) = ok (pos (a / suc b))
quotient (pos a) (negsuc b) = ok (sub_ℕ 0 (a / suc b))
quotient (negsuc a) (pos (suc b)) = ok (sub_ℕ 0 (suc a / suc b))
quotient (negsuc a) (negsuc b) = ok (pos (suc a / suc b))

-- It returns the timer and the index of the new entry.
pub create_entry : Timer → ℤ → Bool → ℤ → Status → Run (Timer × ℕ)
create_entry t interval is_singleton times status = do
  whole ← quotient interval t.interval
  let ticks = if is_zero whole then pos 1 else whole
  let next_ticks = if t.quick then t.ticks else t.ticks +ℤ ticks
  let entry : Entry = record {
    ticks = ticks;
    times = times;
    status = status;
    is_singleton = is_singleton;
    next_ticks = next_ticks;
    infinite = not (is_pos times);
  }
  queue ← Queue.push t.queue (length t.entries) next_ticks
  ok (record t { queue = queue; entries = t.entries ++ entry ∷ [] }, length t.entries)

pub add : Timer → ℤ → Run (Timer × ℕ)
unfolding create_entry
add t interval = create_entry t interval false (negsuc 0) ready

pub add_entry : Timer → ℤ → Bool → ℤ → Status → Run (Timer × ℕ)
unfolding create_entry
add_entry t interval is_singleton times status = create_entry t interval is_singleton times status

pub add_singleton : Timer → ℤ → Run (Timer × ℕ)
unfolding create_entry
add_singleton t interval = create_entry t interval true (negsuc 0) ready

pub add_once : Timer → ℤ → Run (Timer × ℕ)
unfolding create_entry
add_once t interval = create_entry t interval true (pos 1) ready

pub add_times : Timer → ℤ → ℤ → Run (Timer × ℕ)
unfolding create_entry
add_times t interval times = create_entry t interval true times ready

unfoldable pub start : Timer → Timer
start t = record t { status = running }

unfoldable pub stop : Timer → Timer
stop t = record t { status = stopped }

unfoldable pub close : Timer → Timer
close t = record t { status = closed }

abbrev pub is_closed : Status → Bool
is_closed closed = true
is_closed _ = false

-- One round of proceed with the entry `id` popped, whose job is due: the entry checked goes back into
-- the queue unless it is closed.
pub check_popped : ℤ → Timer → ℕ → Entry → Run Timer
check_popped now t id entry = do
  let checked = (do_check_and_run_by_ticks now entry).0
  let t = record t { entries = set t.entries id checked }
  queue ←
      (if is_closed checked.status then ok t.queue else Queue.push t.queue id checked.next_ticks)
  ok (record t { queue = queue })

-- `jobs` are the entries whose jobs have been started, in order.
pub proceed : ℕ → ℤ → Timer → List ℕ → Run (Timer × List ℕ)
proceed zero now t jobs = panic
proceed (suc k) now t jobs = do
  popped ← Queue.pop t.queue
  let t = record t { queue = popped.0 }
  elim popped.1 [
    | none ↦ ok (t, jobs)
    | some id ↦ do
      entry ← load t.entries id
      let wait = Queue.push t.queue id entry.next_ticks >>= λ q. ok (record t { queue = q }, jobs)
      let started = if (do_check_and_run_by_ticks now entry).1 then jobs ++ id ∷ [] else jobs
      let go_on = check_popped now t id entry >>= λ t. proceed k now t started
      if ltb_ℤ now entry.next_ticks then wait else go_on
  ]

-- The running timer, with one round of proceed for each entry and one to see that there is no more.
pub advance : Timer → Run (Timer × List ℕ)
unfolding proceed
advance t =
    let now = t.ticks +ℤ pos 1 in
    let next = record t { ticks = now } in
    let work = proceed (length t.entries + 1) now next [] in
    if ltb_ℤ now t.queue.next_priority then ok (next, []) else work

-- The switch of loop on the status; `none` when the timer exits.
pub tick_by_status : Status → Timer → Run (Option (Timer × List ℕ))
unfolding advance
tick_by_status running t = do r ← advance t; ok (some r)
tick_by_status closed t = ok none
tick_by_status ready t = ok (some (t, []))
tick_by_status stopped t = ok (some (t, []))
tick_by_status (other k) t = ok (some (t, []))

-- One tick of loop.
pub tick : Timer → Run (Option (Timer × List ℕ))
unfolding tick_by_status
tick t = tick_by_status t.status t
