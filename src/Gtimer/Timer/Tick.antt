-- ===== src/Gtimer/Timer/Tick.antt =====
-- One tick of loop.
use go_zero_admin_pkg.Prelude.{
  ℕ, ◌+◌, ◌≡◌, refl, false, Option, none, some, List, [], arith, length, inl, inr, Bool-cases,
}
use go_zero_admin_pkg.Prelude.Int.{ℤ, pos, ltb_ℤ, ◌+ℤ◌}
use go_zero_admin_pkg.Prelude.Run.{ok}
use go_zero_admin_pkg.Gtimer.Entry.{Status, ready, running, stopped, closed, other}
use go_zero_admin_pkg.Gtimer.Timer.{Timer, is_closed, advance, tick_by_status, tick}
use go_zero_admin_pkg.Gtimer.Timer.Proceed.{IsSound, due-length, proceed-IsSound}

-- What a tick in a status leaves, where the next tick count is `now`.
pub data IsTicked (now : ℤ) (s : Status) : Option (Timer × List ℕ) → Type 0 where
  exits : s ≡ closed → IsTicked now s none
  goes_on :
      (r : Timer) (jobs : List ℕ)
      → is_closed s ≡ false
      → IsSound now r
      → IsTicked now s (some (r, jobs))

advance-IsSound :
    (t : Timer)
    → IsSound (t.ticks +ℤ pos 1) t
    → (r : Timer) × (jobs : List ℕ) × (advance t ≡ ok (r, jobs)) × IsSound (t.ticks +ℤ pos 1) r
unfolding advance
advance-IsSound t s =
    let now = t.ticks +ℤ pos 1 in
    let next = record t { ticks = now } in
    let ahead : IsSound now next = record {
      queue = s.queue;
      points = s.points;
      advances = s.advances;
    } in
    elim (Bool-cases (ltb_ℤ now t.queue.next_priority)) [
      | inl early ↦ (next, [], rw early refl, ahead)
      | inr late ↦
          let (r, jobs, e, v) =
            proceed-IsSound (length t.entries + 1) now next [] ahead
              (omega (arith, due-length now t.entries)) in
          (r, jobs, rw late e, v)
    ]

by_status-IsTicked :
    (st : Status) (t : Timer)
    → IsSound (t.ticks +ℤ pos 1) t
    → (o : Option (Timer × List ℕ)) × (tick_by_status st t ≡ ok o)
      × IsTicked (t.ticks +ℤ pos 1) st o
unfolding tick_by_status
by_status-IsTicked running t s =
    let (r, jobs, e, v) = advance-IsSound t s in (some (r, jobs), rw e refl, goes_on r jobs refl v)
by_status-IsTicked closed t s = (none, refl, exits refl)
by_status-IsTicked ready t s = (some (t, []), refl, goes_on t [] refl s)
by_status-IsTicked stopped t s = (some (t, []), refl, goes_on t [] refl s)
by_status-IsTicked (other k) t s = (some (t, []), refl, goes_on t [] refl s)

-- A tick of a timer that is sound at its next tick count returns, without a panic: a closed timer
-- exits, and any other goes on and is sound at that count.
pub tick-IsTicked :
    (t : Timer)
    → IsSound (t.ticks +ℤ pos 1) t
    → (o : Option (Timer × List ℕ)) × (tick t ≡ ok o) × IsTicked (t.ticks +ℤ pos 1) t.status o
unfolding tick
tick-IsTicked t s = by_status-IsTicked t.status t s
