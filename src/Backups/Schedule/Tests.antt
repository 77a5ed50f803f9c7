-- ===== src/Backups/Schedule/Tests.antt =====
-- Runs of `next_due`, and the theorems on the scheduler at a concrete job.
use sqlide.Common.{ℕ, ◌+◌, ◌-◌, ◌*◌, true, false, none, some, [], ◌∷◌, ◌≡◌, refl, arith}
use sqlide.Common.Int.{pos}
use sqlide.Common.Text.{codes}
use sqlide.Backups.Jobs.{Schedule, hourly, weekly, record_run, has_schedule}
use sqlide.Backups.Jobs.Tests.{nightly, nightly_job, run_of, store, others, others-IsOther}
use sqlide.Backups.Jobs.History.{record_all}
use sqlide.Backups.Schedule.{
  Due, at_time, ParseInt, ParseStamp, next_due, advance, parse_at, is_due, hour_us, day_us,
  minute_us,
}
use sqlide.Backups.Schedule.Slots.{IsNext}
use sqlide.Backups.Schedule.Firing.{IsSlotIn, next_due-IsNext, is_due-record_run, is_due-record_all}

-- Two digits.
abbrev two_digits : ParseInt
two_digits s = elim s [
  | [] ↦ none
  | c ∷ r ↦ elim r [ [] ↦ none | d ∷ _ ↦ some (pos ((c - 48) * 10 + (d - 48))) ]
]

-- Every stamp is the tenth day at 03:00.
abbrev fixed_stamp : ParseStamp
fixed_stamp s = some (10 * day_us + 3 * hour_us)

run_due : Schedule → ℕ → Due
unfolding next_due advance parse_at has_schedule
run_due s last = next_due two_digits s (some last) 0

due_daily : run_due nightly (10 * day_us + 3 * hour_us) ≡ at_time (11 * day_us + 2 * hour_us)
unfolding run_due
due_daily = refl

-- Day 10 is a Thursday; the next Monday is day 14.
due_weekly :
    run_due (record nightly { mode = weekly }) (10 * day_us) ≡ at_time (14 * day_us + 2 * hour_us)
unfolding run_due
due_weekly = refl

due_hourly :
    run_due (record nightly { mode = hourly; minute = pos 5 }) (90 * minute_us)
    ≡ at_time (125 * minute_us)
unfolding run_due
due_hourly = refl

next_due-IsNext_example :
    (t : ℕ) × (next_due two_digits nightly (some (10 * day_us)) 0 ≡ at_time t)
    × IsNext (IsSlotIn two_digits nightly nightly.mode) (10 * day_us) t
next_due-IsNext_example = next_due-IsNext two_digits nightly (10 * day_us) 0 tt

is_due-record_run_example :
    is_due two_digits fixed_stamp (record_run store (run_of (codes "a"))) (10 * day_us) nightly_job
    ≡ false
is_due-record_run_example =
    is_due-record_run two_digits fixed_stamp store nightly_job (run_of (codes "a"))
      (10 * day_us + 3 * hour_us) (10 * day_us) refl refl refl (omega arith)

is_due-record_all_example :
    is_due two_digits fixed_stamp (record_all store others) (10 * day_us + 3 * hour_us) nightly_job
    ≡ true
unfolding has_schedule
is_due-record_all_example =
    is_due-record_all two_digits fixed_stamp store nightly_job others (10 * day_us + 3 * hour_us)
      refl refl refl refl (others-IsOther 200)
