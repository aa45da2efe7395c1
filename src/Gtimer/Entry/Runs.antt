-- ===== src/Gtimer/Entry/Runs.antt =====
-- The limit on the runs of a job, and what a check does to the entry.
use go_zero_admin_pkg.Prelude.{
  ℕ, ◌+◌, ◌≤◌, ◌≡◌, refl, Bool, true, false, if◌then◌else◌, List, [], ◌∷◌, arith, inl, inr,
  Bool-cases,
}
use go_zero_admin_pkg.Prelude.Int.{ℤ, pos, is_neg, to_ℕ, ltb_ℤ, ◌+ℤ◌, ◌-ℤ◌}
use go_zero_admin_pkg.Gtimer.Entry.{
  Status, ready, running, stopped, closed, other, Entry, run, run_by_status,
  do_check_and_run_by_ticks,
}

either_way :
    (P : Entry × Bool → Type 0) (b : Bool) (x y : Entry × Bool) → P x → P y → P (if b then x else y)
either_way P true x y h k = h
either_way P false x y h k = k

run-times : (e : Entry) → ((run e).0.next_ticks ≡ e.next_ticks) × ((run e).0.ticks ≡ e.ticks)
unfolding run
run-times e = elim (Bool-cases e.infinite) [
  | inl i ↦ rw i (refl, refl)
  | inr l ↦ elim (Bool-cases (is_neg (e.times -ℤ pos 1))) [
    | inl over ↦ rw (l, over) (refl, refl)
    | inr left ↦ rw (l, left) (refl, refl)
  ]
]

by_status-times :
    (s : Status) (e : Entry)
    → ((run_by_status s e).0.next_ticks ≡ e.next_ticks) × ((run_by_status s e).0.ticks ≡ e.ticks)
unfolding run_by_status
by_status-times running e =
    either_way (λ r. (r.0.next_ticks ≡ e.next_ticks) × (r.0.ticks ≡ e.ticks)) e.is_singleton
      (e, false) (run e) (refl, refl) (run-times e)
by_status-times ready e = run-times (record e { status = running })
by_status-times stopped e = (refl, refl)
by_status-times closed e = (refl, refl)
by_status-times (other k) e = run-times e

-- A check of a due entry puts its next run `ticks` after the timer's ticks, whatever its status.
pub check-next :
    (now : ℤ) (e : Entry)
    → ltb_ℤ now e.next_ticks ≡ false
    → ((do_check_and_run_by_ticks now e).0.next_ticks ≡ now +ℤ e.ticks)
      × ((do_check_and_run_by_ticks now e).0.ticks ≡ e.ticks)
unfolding do_check_and_run_by_ticks
check-next now e due = rw due (by_status-times e.status (record e { next_ticks = now +ℤ e.ticks }))

-- The runs that a limited entry still has, and their change over a check.
abbrev runs_left : Entry → ℕ
runs_left e = to_ℕ e.times

abbrev count : Bool → ℕ
count true = 1
count false = 0

-- How many times a row of checks starts the job.
abbrev pub starts : List ℤ → Entry → ℕ
starts [] e = 0
starts (now ∷ nows) e = let r = do_check_and_run_by_ticks now e in count r.1 + starts nows r.0

sub_one : (t : ℤ) → is_neg (t -ℤ pos 1) ≡ false → to_ℕ (t -ℤ pos 1) + 1 ≡ to_ℕ t
unfolding ◌-ℤ◌
sub_one t h = ground arith

over_left : (t : ℤ) → is_neg (t -ℤ pos 1) ≡ true → to_ℕ (t -ℤ pos 1) + 0 ≤ to_ℕ t
unfolding ◌-ℤ◌
over_left t h = ground arith

-- A limited entry stays limited, and each start takes one of its runs.
abbrev Limits : Entry → Entry × Bool → Type 0
Limits e (f, b) = (f.infinite ≡ false) × (runs_left f + count b ≤ runs_left e)

run-Limits : (e : Entry) → e.infinite ≡ false → Limits e (run e)
unfolding run
run-Limits e l = elim (Bool-cases (is_neg (e.times -ℤ pos 1))) [
  | inl over ↦ rw (l, over) (refl, over_left e.times over)
  | inr left ↦ rw (l, left) (refl, omega (arith, sub_one e.times left))
]

by_status-Limits : (s : Status) (e : Entry) → e.infinite ≡ false → Limits e (run_by_status s e)
unfolding run_by_status
by_status-Limits running e l =
    either_way (Limits e) e.is_singleton (e, false) (run e) (l, omega arith) (run-Limits e l)
by_status-Limits ready e l = run-Limits (record e { status = running }) l
by_status-Limits stopped e l = (l, omega arith)
by_status-Limits closed e l = (l, omega arith)
by_status-Limits (other k) e l = run-Limits e l

check-Limits :
    (now : ℤ) (e : Entry) → e.infinite ≡ false → Limits e (do_check_and_run_by_ticks now e)
unfolding do_check_and_run_by_ticks
check-Limits now e l = elim (Bool-cases (ltb_ℤ now e.next_ticks)) [
  | inl early ↦ rw early (l, omega arith)
  | inr due ↦ rw due (by_status-Limits e.status (record e { next_ticks = now +ℤ e.ticks }) l)
]

-- However often a limited entry is checked, its job starts at most `times` times.
pub starts_bound : (nows : List ℤ) (e : Entry) → e.infinite ≡ false → starts nows e ≤ to_ℕ e.times
starts_bound [] e l = omega arith
starts_bound (now ∷ nows) e l =
    let r = do_check_and_run_by_ticks now e in
    let (m, h) = check-Limits now e l in let rest = starts_bound nows r.0 m in omega arith
