-- ===== src/Periodic/Schedule.antt =====
-- What a valid window promises, on a clock that is never changed: when it opens, and how
-- `Previous`, `Next` and `DurationToStart` of pkg/operator/periodic.go see it.
use flatcar_linux_update_ope.Prelude.{
  ℕ, ◌+◌, ◌*◌, ◌%◌, ◌≤◌, ◌<◌, ◌≡◌, refl, ◌∙◌, ap, ◌⊎◌, inl, inr, ltb, leb, eqb, ◌||◌, if◌then◌else◌,
  arith,
}
use flatcar_linux_update_ope.Prelude.Int.{ℤ, pos, pos_part, sub_ℕ, eqb_ℤ}
use flatcar_linux_update_ope.Clock.{Clock}
use flatcar_linux_update_ope.Periodic.{Periodic, previous, next, duration_to_start, unset}
use flatcar_linux_update_ope.Periodic.Calendar.{IsSteady}
use flatcar_linux_update_ope.Periodic.Occurrences.{weekly_lem, set_ne_unset}
use flatcar_linux_update_ope.Periodic.Daily.{daily_lem}
use flatcar_linux_update_ope.Periodic.Validity.{IsValid}

-- The time between two starts, a day or a week, in nanoseconds.
abbrev pub period : Periodic → ℕ
period p = if eqb_ℤ p.start.day_of_week unset then 86400000000000 else 604800000000000

ltb_or_eqb : (a b : ℕ) → (ltb a b || eqb b a) ≡ leb a b
ltb_or_eqb a b = ground arith

-- The instant `s` is a start: at the time of day, and on the day of the week if there is one.
pub record IsScheduled (p : Periodic) (s : ℕ) : Type 0 where
  pub day : ℕ
  pub at_time :
      s
      ≡ day * 86400000000000
        + (pos_part p.start.hour_of_day * 3600 + pos_part p.start.minute_of_hour * 60) * 1000000000
  pub on_day : (p.start.day_of_week ≡ unset) ⊎ (p.start.day_of_week ≡ pos (day % 7))

module _ (c : Clock) (steady : IsSteady c) where
  -- Around the instant `ref` the window starts at `s`, and then one period later.
  pub record Occurs (p : Periodic) (ref : c.Time) (s : ℕ) : Type 0 where
    pub scheduled : IsScheduled p s
    pub begun : s ≤ steady.instant ref
    pub latest : steady.instant ref < s + period p
    pub previous_start : steady.instant (previous c p ref).start ≡ s
    pub previous_end : steady.instant (previous c p ref).end ≡ s + pos_part p.duration
    pub next_start : steady.instant (next c p ref).start ≡ s + period p

  module _ (ref : c.Time) (later : 14 ≤ steady.day_of ref) where
    weekly-Occurs :
        (dow hour min n : ℕ)
        → dow < 7
        → hour < 24
        → min < 60
        → (s : ℕ) × Occurs
            (record {
              start = record {
                day_of_week = pos dow;
                hour_of_day = pos hour;
                minute_of_hour = pos min;
                second_of_minute = pos 0;
              };
              duration = pos n;
            })
            ref
            s
    weekly-Occurs dow hour min n dow-lt hour-lt min-lt =
        let (begun, latest, (week, at), over, following) =
          weekly_lem c steady ref later dow hour min n dow-lt hour-lt min-lt in
        let day : dow ≡ (week * 7 + dow) % 7 = omega arith in
        (
          steady.instant (previous c _ ref).start,
          record {
            scheduled = record {
              day = week * 7 + dow;
              at_time = at ∙ omega arith;
              on_day = inr (ap pos day);
            };
            begun = begun;
            latest = rw (set_ne_unset dow) latest;
            previous_start = refl;
            previous_end = over;
            next_start = rw (set_ne_unset dow) following;
          },
        )

    daily-Occurs :
        (hour min n : ℕ)
        → hour < 24
        → min < 60
        → (s : ℕ) × Occurs
            (record {
              start = record {
                day_of_week = unset;
                hour_of_day = pos hour;
                minute_of_hour = pos min;
                second_of_minute = pos 0;
              };
              duration = pos n;
            })
            ref
            s
    daily-Occurs hour min n hour-lt min-lt =
        let (begun, latest, (day, at), over, following) =
          daily_lem c steady ref later hour min n hour-lt min-lt in
        (
          steady.instant (previous c _ ref).start,
          record {
            scheduled = record { day = day; at_time = at ∙ omega arith; on_day = inl refl };
            begun = begun;
            latest = latest;
            previous_start = refl;
            previous_end = over;
            next_start = following;
          },
        )

    by_fields :
        (dow hour min sec d : ℤ)
        → IsValid (record {
          start = record {
            day_of_week = dow;
            hour_of_day = hour;
            minute_of_hour = min;
            second_of_minute = sec;
          };
          duration = d;
        })
        → (s : ℕ) × Occurs
            (record {
              start = record {
                day_of_week = dow;
                hour_of_day = hour;
                minute_of_hour = min;
                second_of_minute = sec;
              };
              duration = d;
            })
            ref
            s
    by_fields dow hour min sec d valid =
        let (h, h-lt, h-eq) = valid.start.hour in
        let (m, m-lt, m-eq) = valid.start.minute in
        let (n, n-lt, n-eq) = valid.duration in
        let no_second = valid.start.second in
        elim valid.start.day [
          | inl (day, day-lt, day-eq) ↦
              rw (day-eq, h-eq, m-eq, no_second, n-eq) (weekly-Occurs day h m n day-lt h-lt m-lt)
          | inr every ↦ rw (every, h-eq, m-eq, no_second, n-eq) (daily-Occurs h m n h-lt m-lt)
        ]

    -- `Previous` and `Next` of a valid window: the latest scheduled start at or before the instant
    -- and the next one, a day or a week later; the occurrence ends after the duration.
    pub valid-Occurs : (p : Periodic) → IsValid p → (s : ℕ) × Occurs p ref s
    valid-Occurs p valid =
        by_fields p.start.day_of_week p.start.hour_of_day p.start.minute_of_hour
          p.start.second_of_minute p.duration valid

    -- `DurationToStart` of a valid window: up to and including the instant at which the latest
    -- occurrence ends it is the time to that occurrence's start, which is not positive; after
    -- that, the time to the next start.
    pub duration_to_start-eq :
        (p : Periodic)
        → IsValid p
        → (s : ℕ) × Occurs p ref s
          × (duration_to_start c p ref ≡ (
              if leb (steady.instant ref) (s + pos_part p.duration)
              then sub_ℕ s (steady.instant ref)
              else sub_ℕ (s + period p) (steady.instant ref)))
    unfolding duration_to_start
    duration_to_start-eq p valid =
        let (s, o) = valid-Occurs p valid in
        (
          s,
          o,
          rw
              (
                steady.after-eq,
                steady.equal-eq,
                steady.sub-eq (previous c p ref).start ref,
                steady.sub-eq (next c p ref).start ref,
                o.previous_end,
                o.previous_start,
                o.next_start,
                ltb_or_eqb (steady.instant ref) (s + pos_part p.duration),
              )
              refl,
        )
