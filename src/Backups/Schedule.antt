-- ===== src/Backups/Schedule.antt =====
-- backend/backups/schedule.py: when a job is next due. A `datetime` is its count of microseconds
-- since `datetime.min`, a Monday at midnight; that it must not pass `datetime.max` is not modelled.
pub mod Slots
pub mod Firing
mod Tests
use Prim.Native.Nat.{max}
use sqlide.Common.{
  ℕ, zero, suc, ◌+◌, ◌-◌, ◌*◌, ◌/◌, ◌%◌, Bool, true, false, not, ◌&&◌, ◌||◌, Option, none, some,
  List, [], ◌∷◌, ◌++◌, ◌==◌, ltb, leb, if◌then◌else◌, String,
}
use sqlide.Common.Int.{ℤ, pos_part, clamp, mod_seven}
use sqlide.Common.Text.{Str, codes, words, split_on}
use sqlide.Backups.Jobs.{
  Schedule, off, interval, hourly, daily, weekly, no_mode, has_schedule, Job, Run, Store, last_run,
  select,
}

abbrev pub minute_us : ℕ
minute_us = 60000000

abbrev pub hour_us : ℕ
hour_us = 3600000000

abbrev pub day_us : ℕ
day_us = 86400000000

-- `t.weekday()`
abbrev pub weekday_of : ℕ → ℕ
weekday_of t = t / day_us % 7

-- Never, at a time, or the loop ran out of fuel.
pub data Due : Type 0 where
  at_no_time : Due
  at_time : ℕ → Due
  out_of_fuel : Due

-- `while test(slot): slot += step`, on fuel.
unfoldable pub advance : ℕ → ℕ → (ℕ → Bool) → ℕ → Due
advance zero step test slot = out_of_fuel
advance (suc fuel) step test slot =
    let later = advance fuel step test (slot + step) in if test slot then later else at_time slot

-- Enough for a week of days, and one more.
abbrev pub rounds : ℕ
rounds = 8

-- `int(s)`, of the Python runtime; `none` is a ValueError.
abbrev pub ParseInt : Type 0
ParseInt = Str → Option ℤ

abbrev default_at : ℕ × ℕ
default_at = (2, 0)

clamp_at : Option ℤ → Option ℤ → ℕ × ℕ
clamp_at (some hour) (some minute) = (clamp 23 hour, clamp 59 minute)
clamp_at _ _ = default_at

parse_parts : ParseInt → Str × List Str → ℕ × ℕ
unfolding clamp_at
parse_parts int (hour, minute ∷ []) = clamp_at (int hour) (int minute)
parse_parts int (_, _) = default_at

-- `_parse_at`: the hour and the minute.
unfoldable pub parse_at : ParseInt → Str → ℕ × ℕ
unfolding parse_parts split_on
parse_at int value = parse_parts int (split_on b':' value)

-- `last_run.replace(hour=…, minute=…, second=0, microsecond=0)`
abbrev pub at_clock : ℕ × ℕ → ℕ → ℕ
at_clock (hour, minute) t = t / day_us * day_us + hour * hour_us + minute * minute_us

-- `last_run.replace(minute=…, second=0, microsecond=0)`
abbrev pub at_minute : ℕ → ℕ → ℕ
at_minute minute t = t / hour_us * hour_us + minute * minute_us

next_after : ParseInt → Schedule → ℕ → Due
unfolding advance parse_at
next_after int schedule last_run = elim schedule.mode [
  | off ↦ at_no_time
  | interval ↦ at_time (last_run + max 1 (pos_part schedule.every_minutes) * minute_us)
  | hourly ↦
      advance rounds hour_us (λ slot. leb slot last_run)
        (at_minute (clamp 59 schedule.minute) last_run)
  | daily ↦
      advance rounds day_us (λ slot. leb slot last_run)
        (at_clock (parse_at int schedule.at_time) last_run)
  | weekly ↦
      advance rounds day_us
        (λ slot. leb slot last_run || not (weekday_of slot == mod_seven schedule.weekday))
        (at_clock (parse_at int schedule.at_time) last_run)
  | no_mode ↦ at_no_time
]

unfoldable pub next_due : ParseInt → Schedule → Option ℕ → ℕ → Due
unfolding next_after
next_due int schedule last_run now =
    if not (has_schedule schedule)
    then at_no_time
    else elim last_run [ none ↦ at_time now | some t ↦ next_after int schedule t ]

-- `datetime.fromisoformat(s)`, of the Python runtime; `none` is an error.
abbrev pub ParseStamp : Type 0
ParseStamp = Str → Option ℕ

-- `_parse_stamp(last.started) if last else None`
last_stamp : ParseStamp → Option Run → Option ℕ
last_stamp stamp none = none
last_stamp stamp (some run) = stamp run.started

is_past : Due → ℕ → Bool
is_past (at_time t) now = leb t now
is_past _ now = false

unfoldable pub is_due : ParseInt → ParseStamp → Store → ℕ → Job → Bool
unfolding last_stamp is_past
is_due int stamp store now job =
    not (not job.enabled || not (has_schedule job.schedule) || job.schedule.systemd)
    && is_past (next_due int job.schedule (last_stamp stamp (last_run store job.id false)) now) now

unfoldable pub due_jobs : ParseInt → ParseStamp → Store → ℕ → List Job
unfolding is_due
due_jobs int stamp store now = select (is_due int stamp store now) store.jobs
