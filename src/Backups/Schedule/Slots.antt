-- ===== src/Backups/Schedule/Slots.antt =====
-- The slots of a clock: the loops of `next_due` stop at the first one behind the last run.
use sqlide.Common.{
  ℕ, zero, suc, ◌+◌, ◌-◌, ◌*◌, ◌/◌, ◌%◌, ◌≤◌, ◌<◌, Bool, true, false, not, ◌||◌, ◌≡◌, ap, ◌∙◌, inl,
  inr, arith, ◌==◌, leb, Bool-cases,
}
use native.Mathlib.Decide.{dec_lt}
use sqlide.Backups.Schedule.{
  minute_us, hour_us, day_us, weekday_of, at_time, advance, rounds, at_clock, at_minute,
}

-- The loop stops after `k` steps, at the first slot that fails the test.
record StopsAt (fuel step : ℕ) (test : ℕ → Bool) (slot : ℕ) : Type 0 where
  k : ℕ
  eq : advance fuel step test slot ≡ at_time (slot + k * step)
  stops : test (slot + k * step) ≡ false
  first : (i : ℕ) → i < k → test (slot + i * step) ≡ true

StopsAt-here :
    (fuel step : ℕ) (test : ℕ → Bool) (slot : ℕ)
    → test slot ≡ false
    → StopsAt (suc fuel) step test slot
unfolding advance
StopsAt-here fuel step test slot e =
    let same : slot + 0 * step ≡ slot = omega arith in
    record { k = 0; eq = rw (advance, e, same); stops = rw same e; first = λ i l. elim l [ ] }

StopsAt-later :
    (fuel step : ℕ) (test : ℕ → Bool) (slot : ℕ)
    → test slot ≡ true
    → StopsAt fuel step test (slot + step)
    → StopsAt (suc fuel) step test slot
unfolding advance
StopsAt-later fuel step test slot e s =
    let same : slot + step + s.k * step ≡ slot + suc s.k * step = grind arith in
    record {
      k = suc s.k;
      eq = rw (advance, e) (s.eq ∙ ap at_time same);
      stops = rw (← same) s.stops;
      first = before;
    }
  where
    before : (i : ℕ) → i < suc s.k → test (slot + i * step) ≡ true
    before zero l = let same : slot + 0 * step ≡ slot = omega arith in rw same e
    before (suc i) l =
        let same : slot + step + i * step ≡ slot + suc i * step = grind arith in
        rw (← same) (s.first i (omega arith))

-- If some slot within the fuel fails the test, the loop stops.
advance-StopsAt :
    (fuel step : ℕ) (test : ℕ → Bool) (slot j : ℕ)
    → j < fuel
    → test (slot + j * step) ≡ false
    → StopsAt fuel step test slot
advance-StopsAt zero step test slot j h t = elim h [ ]
advance-StopsAt (suc fuel) step test slot zero h t =
    let same : slot + 0 * step ≡ slot = omega arith in
    StopsAt-here fuel step test slot (rw same at t)
advance-StopsAt (suc fuel) step test slot (suc j) h t = elim (Bool-cases (test slot)) [
  | inl e ↦
      let same : slot + suc j * step ≡ slot + step + j * step = grind arith in
      StopsAt-later fuel step test slot e
        (advance-StopsAt fuel step test (slot + step) j (omega arith) (rw same at t))
  | inr e ↦ StopsAt-here fuel step test slot e
]

-- The first slot of a clock behind `last`.
pub record IsNext (IsSlot : ℕ → Type 0) (last t : ℕ) : Type 0 where
  pub is_slot : IsSlot t
  pub behind : last < t
  pub least : (s : ℕ) → IsSlot s → last < s → t ≤ s

-- The minutes past the hour, the time of day, and the weekday with it.
abbrev pub IsHourly : ℕ → ℕ → Type 0
IsHourly minute t = t % hour_us ≡ minute * minute_us

abbrev pub IsDaily : ℕ × ℕ → ℕ → Type 0
IsDaily (hour, minute) t = t % day_us ≡ hour * hour_us + minute * minute_us

abbrev pub IsWeekly : ℕ → ℕ × ℕ → ℕ → Type 0
IsWeekly weekday clock t = IsDaily clock t × (weekday_of t ≡ weekday)

-- A clock whose slots behind `last` are what its loop tests for, from `start` on.
record IsClock (IsSlot : ℕ → Type 0) (last step start : ℕ) (test : ℕ → Bool) : Type 0 where
  -- A slot of the loop that fails the test is one behind `last`.
  sound :
      (i : ℕ)
      → test (start + i * step) ≡ false
      → IsSlot (start + i * step) × (last < start + i * step)
  -- Each slot behind `last` is one of the loop's, and fails the test.
  complete : (t : ℕ) → IsSlot t → last < t → (i : ℕ) × (t ≡ start + i * step) × (test t ≡ false)

clock-IsNext :
    {IsSlot : ℕ → Type 0} {last step start : ℕ} (fuel : ℕ) (test : ℕ → Bool)
    → IsClock IsSlot last step start test
    → StopsAt fuel step test start
    → (t : ℕ) × (advance fuel step test start ≡ at_time t) × IsNext IsSlot last t
clock-IsNext {IsSlot} {last} {step} {start} fuel test c s = (
  start + s.k * step,
  s.eq,
  record { is_slot = (c.sound s.k s.stops).0; behind = (c.sound s.k s.stops).1; least = below },
)
  where
    below : (t : ℕ) → IsSlot t → last < t → start + s.k * step ≤ t
    below t p l =
        let (i, same, passes) = c.complete t p l in
        elim (dec_lt i s.k) [
          | yes early ↦ absurd (cc (s.first i early, rw same at passes))
          | no late ↦ rw same (grind arith)
        ]

module _ (last : ℕ) where
  abbrev pub not_behind : ℕ → Bool
  not_behind slot = leb slot last

  pub IsHourly-IsNext :
      (minute : ℕ)
      → minute ≤ 59
      → (t : ℕ) × (advance rounds hour_us not_behind (at_minute minute last) ≡ at_time t)
        × IsNext (IsHourly minute) last t
  IsHourly-IsNext minute h =
      clock-IsNext rounds not_behind
        (record {
          sound = λ i e. (omega arith, ground (arith, e));
          complete = λ t p l. (t / hour_us - last / hour_us, omega arith, ground arith);
        })
        (advance-StopsAt rounds hour_us not_behind (at_minute minute last) 1 (omega arith)
          (ground arith))

  pub IsDaily-IsNext :
      (hour minute : ℕ)
      → hour ≤ 23
      → minute ≤ 59
      → (t : ℕ) × (advance rounds day_us not_behind (at_clock (hour, minute) last) ≡ at_time t)
        × IsNext (IsDaily (hour, minute)) last t
  IsDaily-IsNext hour minute h m =
      clock-IsNext rounds not_behind
        (record {
          sound = λ i e. (omega arith, ground (arith, e));
          complete = λ t p l. (t / day_us - last / day_us, omega arith, ground arith);
        })
        (advance-StopsAt rounds day_us not_behind (at_clock (hour, minute) last) 1 (omega arith)
          (ground arith))

  -- The days from that of the last run to the next of the weekday, a week ahead if it is the same.
  abbrev days_ahead : ℕ → ℕ
  days_ahead weekday = 1 + (weekday + 6 + 7 - last / day_us % 7) % 7

  module _ (weekday hour minute : ℕ) (w : weekday < 7) (h : hour ≤ 23) (m : minute ≤ 59) where
    abbrev pub other_day : ℕ → Bool
    other_day slot = leb slot last || not (weekday_of slot == weekday)

    abbrev pub start : ℕ
    start = at_clock (hour, minute) last

    day_of_slot : (i : ℕ) → (start + i * day_us) / day_us ≡ last / day_us + i
    day_of_slot i = omega arith

    pub IsWeekly-IsNext :
        (t : ℕ) × (advance rounds day_us other_day start ≡ at_time t)
        × IsNext (IsWeekly weekday (hour, minute)) last t
    IsWeekly-IsNext =
        clock-IsNext rounds other_day
          (record {
            sound = λ i e. ((omega arith, ground (arith, e)), ground (arith, e));
            complete = λ t p l. (t / day_us - last / day_us, omega arith, ground arith);
          })
          (advance-StopsAt rounds day_us other_day start (days_ahead weekday) (omega arith)
            (ground (arith, day_of_slot (days_ahead weekday))))
