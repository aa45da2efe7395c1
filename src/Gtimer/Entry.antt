-- ===== src/Gtimer/Entry.antt =====
-- utils/tools/gtimer/gtimer_entry.go: Entry, the timing job. A method returns the new entry; where it
-- may start the job's goroutine, a Boolean tells whether it does. A cell is read and written in one step.
pub mod Runs
pub mod Single
use go_zero_admin_pkg.Prelude.{Bool, true, false, if◌then◌else◌}
use go_zero_admin_pkg.Prelude.Int.{ℤ, pos, is_neg, ltb_ℤ, ◌+ℤ◌, ◌-ℤ◌}

-- StatusReady, StatusRunning, StatusStopped, StatusClosed, and any other int that SetStatus stores.
pub data Status : Type 0 where
  ready : Status
  running : Status
  stopped : Status
  closed : Status
  other : ℤ → Status

pub record Entry : Type 0 where
  pub ticks : ℤ
  pub times : ℤ
  pub status : Status
  pub is_singleton : Bool
  pub next_ticks : ℤ
  pub infinite : Bool

unfoldable pub run : Entry → Entry × Bool
run e =
    if e.infinite
    then (e, true)
    else let left_running_times = e.times -ℤ pos 1 in
      if is_neg left_running_times
      then (record e { times = left_running_times; status = closed }, false)
      else (record e { times = left_running_times }, true)

-- What the switch on the status does, once the entry is due.
unfoldable pub run_by_status : Status → Entry → Entry × Bool
run_by_status running e = if e.is_singleton then (e, false) else run e
run_by_status ready e = run (record e { status = running })
run_by_status stopped e = (e, false)
run_by_status closed e = (e, false)
run_by_status (other k) e = run e

unfoldable pub do_check_and_run_by_ticks : ℤ → Entry → Entry × Bool
do_check_and_run_by_ticks current_timer_ticks e =
    if ltb_ℤ current_timer_ticks e.next_ticks
    then (e, false)
    else run_by_status e.status (record e { next_ticks = current_timer_ticks +ℤ e.ticks })

-- The end of callJobFunc: when the job returns, and when it leaves by Exit.
abbrev pub status_after : Status → Status
status_after running = ready
status_after s = s

unfoldable pub job_returned : Entry → Entry
job_returned e = record e { status = status_after e.status }

unfoldable pub set_status : Entry → Status → Entry
set_status e status = record e { status = status }

unfoldable pub start : Entry → Entry
start e = record e { status = ready }

unfoldable pub stop : Entry → Entry
stop e = record e { status = stopped }

unfoldable pub close : Entry → Entry
close e = record e { status = closed }

unfoldable pub job_exited : Entry → Entry
job_exited e = close e

-- `timer_ticks` is `entry.timer.ticks`.
unfoldable pub reset : Entry → ℤ → Entry
reset e timer_ticks = record e { next_ticks = timer_ticks +ℤ e.ticks }

unfoldable pub set_singleton : Entry → Bool → Entry
set_singleton e enabled = record e { is_singleton = enabled }

unfoldable pub set_times : Entry → ℤ → Entry
set_times e times = record e { times = times; infinite = false }
