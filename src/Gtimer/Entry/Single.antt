-- ===== src/Gtimer/Entry/Single.antt =====
-- The life of an entry as steps, for a job that runs as a singleton.
use go_zero_admin_pkg.Prelude.{
  ℕ, suc, ◌≤◌, ◌≡◌, refl, Bool, true, false, if◌then◌else◌, ◌⊎◌, inl, inr, arith, Bool-cases,
}
use go_zero_admin_pkg.Prelude.Int.{ℤ, pos, is_neg, ltb_ℤ, ◌+ℤ◌, ◌-ℤ◌}
use go_zero_admin_pkg.Gtimer.Entry.{
  Status, ready, running, stopped, closed, other, Entry, run, run_by_status,
  do_check_and_run_by_ticks, status_after, job_returned, job_exited, start, stop, close, reset,
  set_times,
}

-- What happens to an entry whose `active` jobs have not ended. Start comes only while none is active,
-- and SetStatus and SetSingleton do not come.
pub data Step : Entry → ℕ → Entry → ℕ → Type 0 where
  checked :
      (now : ℤ) (e : Entry) (n : ℕ)
      → Step e n
          (do_check_and_run_by_ticks now e).0
          (if (do_check_and_run_by_ticks now e).1 then suc n else n)
  returned : (e : Entry) (n : ℕ) → Step e (suc n) (job_returned e) n
  exited : (e : Entry) (n : ℕ) → Step e (suc n) (job_exited e) n
  started : (e : Entry) → Step e 0 (start e) 0
  was_stopped : (e : Entry) (n : ℕ) → Step e n (stop e) n
  was_closed : (e : Entry) (n : ℕ) → Step e n (close e) n
  was_reset : (e : Entry) (n : ℕ) (ticks : ℤ) → Step e n (reset e ticks) n
  was_limited : (e : Entry) (n : ℕ) (times : ℤ) → Step e n (set_times e times) n

pub data Steps : Entry → ℕ → Entry → ℕ → Type 0 where
  done : (e : Entry) (n : ℕ) → Steps e n e n
  more : {e f g : Entry} {n m k : ℕ} → Steps e n f m → Step f m g k → Steps e n g k

-- A status with which a singleton job is not started, and one that the package defines.
abbrev pub is_held : Status → Bool
is_held ready = false
is_held running = true
is_held stopped = true
is_held closed = true
is_held (other k) = false

abbrev pub is_named : Status → Bool
is_named (other k) = false
is_named _ = true

-- No job is active, or one is and the status holds the next.
pub record IsSingle (e : Entry) (active : ℕ) : Type 0 where
  pub singleton : e.is_singleton ≡ true
  pub named : is_named e.status ≡ true
  pub free : (active ≡ 0) ⊎ ((active ≡ 1) × (is_held e.status ≡ true))

-- The entry and the number of active jobs after a method that may start one.
abbrev Singles : ℕ → Entry × Bool → Type 0
Singles n (e, starts) = IsSingle e (if starts then suc n else n)

run-IsSingle :
    (e : Entry) (n : ℕ) → e.is_singleton ≡ true → e.status ≡ running → n ≡ 0 → Singles n (run e)
unfolding run
run-IsSingle e n s r z = elim (Bool-cases e.infinite) [
  | inl i ↦ rw i (record { singleton = s; named = rw r refl; free = inr (rw z refl, rw r refl) })
  | inr l ↦ elim (Bool-cases (is_neg (e.times -ℤ pos 1))) [
    | inl over ↦ rw (l, over) (record { singleton = s; named = refl; free = inl z })
    | inr left ↦
        rw (l, left)
          (record { singleton = s; named = rw r refl; free = inr (rw z refl, rw r refl) })
  ]
]

skipped :
    (b : Bool) (e : Entry) (n : ℕ)
    → b ≡ true
    → IsSingle e n
    → Singles n (if b then (e, false) else run e)
skipped b e n h i = rw h i

by_status-IsSingle :
    (s : Status) (e : Entry) (n : ℕ) → e.status ≡ s → IsSingle e n → Singles n (run_by_status s e)
unfolding run_by_status
by_status-IsSingle running e n q i = skipped e.is_singleton e n i.singleton i
by_status-IsSingle stopped e n q i = i
by_status-IsSingle closed e n q i = i
by_status-IsSingle (other k) e n q i = let bad : false ≡ true = rw q at (i.named) in absurd (cc)
by_status-IsSingle ready e n q i = elim i.free [
  | inl z ↦ run-IsSingle (record e { status = running }) n i.singleton refl z
  | inr (z, h) ↦ let bad : false ≡ true = rw q at h in absurd (cc)
]

check-IsSingle :
    (now : ℤ) (e : Entry) (n : ℕ) → IsSingle e n → Singles n (do_check_and_run_by_ticks now e)
unfolding do_check_and_run_by_ticks
check-IsSingle now e n i = elim (Bool-cases (ltb_ℤ now e.next_ticks)) [
  | inl early ↦ rw early i
  | inr due ↦ rw due (
      by_status-IsSingle e.status (record e { next_ticks = now +ℤ e.ticks }) n refl
        (record { singleton = i.singleton; named = i.named; free = i.free }))
]

-- Nothing is active once the only active job has ended.
ended : (e : Entry) (n : ℕ) → IsSingle e (suc n) → n ≡ 0
ended e n i = elim i.free [ inl z ↦ absurd (omega arith) | inr (o, h) ↦ omega arith ]

after_named : (s : Status) → is_named s ≡ true → is_named (status_after s) ≡ true
after_named ready h = refl
after_named running h = refl
after_named stopped h = refl
after_named closed h = refl
after_named (other k) h = h

held : {b : Bool} {n : ℕ} → (n ≡ 0) ⊎ ((n ≡ 1) × (b ≡ true)) → (n ≡ 0) ⊎ ((n ≡ 1) × (true ≡ true))
held (inl z) = inl z
held (inr (o, h)) = inr (o, refl)

Step-IsSingle : {e f : Entry} {n m : ℕ} → Step e n f m → IsSingle e n → IsSingle f m
unfolding job_returned job_exited start stop close reset set_times
Step-IsSingle (checked now e n) i = check-IsSingle now e n i
Step-IsSingle (returned e n) i = record {
  singleton = i.singleton;
  named = after_named e.status i.named;
  free = inl (ended e n i);
}
Step-IsSingle (exited e n) i = record {
  singleton = i.singleton;
  named = refl;
  free = inl (ended e n i);
}
Step-IsSingle (started e) i = record { singleton = i.singleton; named = refl; free = inl refl }
Step-IsSingle (was_stopped e n) i = record {
  singleton = i.singleton;
  named = refl;
  free = held i.free;
}
Step-IsSingle (was_closed e n) i = record {
  singleton = i.singleton;
  named = refl;
  free = held i.free;
}
Step-IsSingle (was_reset e n ticks) i = record {
  singleton = i.singleton;
  named = i.named;
  free = i.free;
}
Step-IsSingle (was_limited e n times) i = record {
  singleton = i.singleton;
  named = i.named;
  free = i.free;
}

Steps-IsSingle : {e f : Entry} {n m : ℕ} → Steps e n f m → IsSingle e n → IsSingle f m
Steps-IsSingle (done e n) i = i
Steps-IsSingle (more r s) i = Step-IsSingle s (Steps-IsSingle r i)

-- A singleton entry with a status of the package and no active job never has two active jobs, whatever
-- checks, ends of jobs, Stop, Close, Reset and SetTimes follow, and Start while no job is active.
pub at_most_one :
    (e f : Entry) (n : ℕ) → e.is_singleton ≡ true → is_named e.status ≡ true → Steps e 0 f n → n ≤ 1
at_most_one e f n s k r =
    elim (Steps-IsSingle r (record { singleton = s; named = k; free = inl refl })).free [
      | inl z ↦ omega arith
      | inr (o, h) ↦ omega arith
    ]
