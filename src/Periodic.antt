-- ===== src/Periodic.antt =====
-- pkg/operator/periodic.go: the repeating reboot window.
pub mod Parse
pub mod Calendar
pub mod Occurrences
pub mod Daily
pub mod Validity
pub mod Schedule
use flatcar_linux_update_ope.Prelude.{ℕ, Bool, not, ◌||◌, if◌then◌else◌}
use flatcar_linux_update_ope.Prelude.Int.{ℤ, pos, negsuc, ◌+ℤ◌, ◌-ℤ◌, ltb_ℤ, eqb_ℤ}
use flatcar_linux_update_ope.Clock.{Clock}

pub record PeriodicStart : Type 0 where
  pub day_of_week : ℤ
  pub hour_of_day : ℤ
  pub minute_of_hour : ℤ
  pub second_of_minute : ℤ

pub record Periodic : Type 0 where
  pub start : PeriodicStart
  pub duration : ℤ

abbrev pub days_in_week : ℕ
days_in_week = 7

-- The value of `dayOfWeek` for a daily window.
abbrev pub unset : ℤ
unset = negsuc 0

-- `-a`
abbrev pub negate : ℤ → ℤ
negate a = pos 0 -ℤ a

module _ (c : Clock) where
  pub record Period : Type 0 where
    pub start : c.Time
    pub end : c.Time

  unfoldable pub shift_time_by_days : Periodic → c.Time → ℤ → c.Time
  shift_time_by_days pc ref daydiff =
      c.date (c.year ref) (c.month ref) (c.day ref +ℤ daydiff) pc.start.hour_of_day
        pc.start.minute_of_hour pc.start.second_of_minute (pos 0) (c.location ref)

  unfoldable pub cmp_day_of_week : Periodic → c.Time → ℤ
  cmp_day_of_week pc ref =
      c.sub ref (shift_time_by_days pc ref (negate (pos (c.weekday ref)) +ℤ pc.start.day_of_week))

  unfoldable pub cmp_hour_of_day : Periodic → c.Time → ℤ
  cmp_hour_of_day pc ref = c.sub ref (shift_time_by_days pc ref (pos 0))

  previous_start : Periodic → c.Time → c.Time
  previous_start pc ref =
      if not (eqb_ℤ pc.start.day_of_week unset)
      then if not (ltb_ℤ (cmp_day_of_week pc ref) (pos 0))
        then shift_time_by_days pc ref (negate (pos (c.weekday ref) -ℤ pc.start.day_of_week))
        else shift_time_by_days pc ref
            (negate (pos (c.weekday ref) +ℤ (pos days_in_week -ℤ pc.start.day_of_week)))
      else if not (eqb_ℤ pc.start.hour_of_day unset)
      then if not (ltb_ℤ (cmp_hour_of_day pc ref) (pos 0))
        then shift_time_by_days pc ref (pos 0)
        else shift_time_by_days pc ref (negsuc 0)
      else c.zero_time

  unfoldable pub previous : Periodic → c.Time → Period
  unfolding previous_start
  previous pc ref =
      let start = previous_start pc ref in record { start = start; end = c.add start pc.duration }

  next_start : Periodic → c.Time → c.Time
  next_start pc ref =
      if not (eqb_ℤ pc.start.day_of_week unset)
      then if ltb_ℤ (cmp_day_of_week pc ref) (pos 0)
        then shift_time_by_days pc ref (pc.start.day_of_week -ℤ pos (c.weekday ref))
        else shift_time_by_days pc ref
            (pos days_in_week -ℤ pos (c.weekday ref) +ℤ pc.start.day_of_week)
      else if not (eqb_ℤ pc.start.hour_of_day unset)
      then if ltb_ℤ (cmp_hour_of_day pc ref) (pos 0)
        then shift_time_by_days pc ref (pos 0)
        else shift_time_by_days pc ref (pos 1)
      else c.zero_time

  unfoldable pub next : Periodic → c.Time → Period
  unfolding next_start
  next pc ref =
      let start = next_start pc ref in record { start = start; end = c.add start pc.duration }

  unfoldable pub duration_to_start : Periodic → c.Time → ℤ
  duration_to_start pc ref =
      let prev = previous pc ref in
      if c.after prev.end ref || c.equal prev.end ref
      then c.sub prev.start ref
      else c.sub (next pc ref).start ref
