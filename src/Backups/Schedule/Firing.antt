-- ===== src/Backups/Schedule/Firing.antt =====
-- When the in-app scheduler fires a job, whatever its schedule.
use sqlide.Common.{
  ℕ, ◌≤◌, ◌<◌, true, false, Option, none, some, List, ◌≡◌, refl, arith, All, length,
}
use sqlide.Common.Int.{ℤ, pos, negsuc, clamp, mod_seven}
use sqlide.Common.Text.{Str, split_on}
use sqlide.Backups.Jobs.{
  Mode, off, Schedule, interval, hourly, daily, weekly, no_mode, has_schedule, Job, Run, Store,
  record_run, is_empty, max_runs,
}
use sqlide.Backups.Jobs.History.{record_all, IsOther, last_run-record_all, last_run-record_run_self}
use sqlide.Backups.Schedule.{
  at_time, ParseInt, ParseStamp, parse_at, parse_parts, clamp_at, next_after, next_due, last_stamp,
  is_past, is_due,
}
use sqlide.Backups.Schedule.Slots.{
  IsNext, IsHourly, IsDaily, IsWeekly, IsHourly-IsNext, IsDaily-IsNext, IsWeekly-IsNext,
}

clamp_at_bounds :
    (hour minute : Option ℤ) → ((clamp_at hour minute).0 ≤ 23) × ((clamp_at hour minute).1 ≤ 59)
unfolding clamp_at
clamp_at_bounds none m = omega arith
clamp_at_bounds (some h) none = omega arith
clamp_at_bounds (some h) (some m) = omega arith

parse_parts_bounds :
    (int : ParseInt) (parts : Str × List Str)
    → ((parse_parts int parts).0 ≤ 23) × ((parse_parts int parts).1 ≤ 59)
unfolding parse_parts
parse_parts_bounds int (hour, List.[]) = omega arith
parse_parts_bounds int (hour, List.◌∷◌ minute List.[]) = clamp_at_bounds (int hour) (int minute)
parse_parts_bounds int (hour, List.◌∷◌ minute (List.◌∷◌ more rest)) = omega arith

-- Whatever the text, a time of day comes out.
pub parse_at_bounds :
    (int : ParseInt) (value : Str) → ((parse_at int value).0 ≤ 23) × ((parse_at int value).1 ≤ 59)
unfolding parse_at
parse_at_bounds int value = parse_parts_bounds int (split_on b':' value)

mod_seven-lt : (i : ℤ) → mod_seven i < 7
mod_seven-lt (pos n) = omega arith
mod_seven-lt (negsuc n) = omega arith

-- The slots that the schedule names, for the modes that go by the clock.
abbrev pub IsSlotIn : ParseInt → Schedule → Mode → ℕ → Type 0
IsSlotIn int s hourly t = IsHourly (clamp 59 s.minute) t
IsSlotIn int s daily t = IsDaily (parse_at int s.at_time) t
IsSlotIn int s weekly t = IsWeekly (mod_seven s.weekday) (parse_at int s.at_time) t
IsSlotIn int s _ t = ⊥

abbrev pub IsClocked : Mode → Type 0
IsClocked hourly = Unit
IsClocked daily = Unit
IsClocked weekly = Unit
IsClocked _ = ⊥

module _ (int : ParseInt) where
  clocked-IsNext :
      (mode : Mode) (s : Schedule) (last : ℕ)
      → s.mode ≡ mode
      → IsClocked mode
      → (t : ℕ) × (next_after int s last ≡ at_time t) × IsNext (IsSlotIn int s mode) last t
  unfolding next_after
  clocked-IsNext hourly s last e c =
      rw (next_after, e) (IsHourly-IsNext last (clamp 59 s.minute) (omega arith))
  clocked-IsNext daily s last e c =
      let (h, m) = parse_at_bounds int s.at_time in
      rw (next_after, e)
        (IsDaily-IsNext last (parse_at int s.at_time).0 (parse_at int s.at_time).1 h m)
  clocked-IsNext weekly s last e c =
      let (h, m) = parse_at_bounds int s.at_time in
      rw (next_after, e)
        (IsWeekly-IsNext last (mod_seven s.weekday) (parse_at int s.at_time).0
          (parse_at int s.at_time).1 (mod_seven-lt s.weekday) h m)
  clocked-IsNext off s last e c = elim c [ ]
  clocked-IsNext interval s last e c = elim c [ ]
  clocked-IsNext no_mode s last e c = elim c [ ]

  -- A job with an hourly, daily or weekly schedule that has run is next due at the first slot of its
  -- schedule behind the last run: on the slot, later than the run, and no slot lies between.
  pub next_due-IsNext :
      (s : Schedule) (last now : ℕ)
      → IsClocked s.mode
      → (t : ℕ) × (next_due int s (some last) now ≡ at_time t)
        × IsNext (IsSlotIn int s s.mode) last t
  unfolding next_due has_schedule
  next_due-IsNext s last now c =
      let (t, e, n) = clocked-IsNext s.mode s last refl c in (t, ground (arith, e, c), n)

  -- Whatever the schedule, the next time lies behind the last run.
  next_after-behind :
      (mode : Mode) (s : Schedule) (last now : ℕ)
      → s.mode ≡ mode
      → now ≤ last
      → is_past (next_after int s last) now ≡ false
  unfolding next_after is_past
  next_after-behind off s last now e h = rw (next_after, e)
  next_after-behind no_mode s last now e h = rw (next_after, e)
  next_after-behind interval s last now e h = rw (next_after, e) (grind arith)
  next_after-behind hourly s last now e h =
      let (t, p, n) = clocked-IsNext hourly s last e tt in rw p (ground (arith, n.behind))
  next_after-behind daily s last now e h =
      let (t, p, n) = clocked-IsNext daily s last e tt in rw p (ground (arith, n.behind))
  next_after-behind weekly s last now e h =
      let (t, p, n) = clocked-IsNext weekly s last e tt in rw p (ground (arith, n.behind))

  module _ (stamp : ParseStamp) (store : Store) (j : Job) where
    -- Once a finished run of a job is recorded, the job is not due at the time that the run started:
    -- one tick of the scheduler does not fire it twice.
    pub is_due-record_run :
        (run : Run) (started now : ℕ)
        → is_empty run.finished ≡ false
        → run.job_id ≡ j.id
        → stamp run.started ≡ some started
        → now ≤ started
        → is_due int stamp (record_run store run) now j ≡ false
    unfolding is_due next_due has_schedule
    is_due-record_run run started now done same parsed h =
        let last = last_run-record_run_self store run done in
        let quiet = next_after-behind j.schedule.mode j.schedule started now refl h in
        rw (← same, last, last_stamp, parsed) (ground (arith, quiet))

    -- Once `max_runs` runs of other jobs are recorded, a job with a schedule is due at once, however
    -- recently it ran: its own runs have left the history.
    pub is_due-record_all :
        (rs : List Run) (now : ℕ)
        → j.enabled ≡ true
        → has_schedule j.schedule ≡ true
        → j.schedule.systemd ≡ false
        → length rs ≡ max_runs
        → All (IsOther j.id) rs
        → is_due int stamp (record_all store rs) now j ≡ true
    unfolding is_due next_due last_stamp
    is_due-record_all rs now enabled scheduled own full others =
        rw (last_run-record_all j.id store rs false full others)
          (ground (arith, enabled, scheduled, own))
