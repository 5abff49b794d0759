-- ===== src/Periodic/Daily.antt =====
-- `Previous` and `Next` give the occurrences of a daily window around an instant.
use flatcar_linux_update_ope.Prelude.{
  ℕ, ◌+◌, ◌-◌, ◌*◌, ◌≤◌, ◌<◌, ◌≡◌, inl, inr, ◌∙◌, Bool-cases, ltb, if◌then◌else◌, arith,
}
use flatcar_linux_update_ope.Prelude.Int.{pos, negsuc, ltb_ℤ}
use flatcar_linux_update_ope.Clock.{Clock}
use flatcar_linux_update_ope.Periodic.{
  Periodic, shift_time_by_days, cmp_hour_of_day, previous, next, unset,
}
use flatcar_linux_update_ope.Periodic.Calendar.{IsSteady}
use flatcar_linux_update_ope.Periodic.Occurrences.{sub_neg, set_ne_unset}

module _ (c : Clock) (steady : IsSteady c) (ref : c.Time) (later : 14 ≤ steady.day_of ref) where
  module _ (hour min n : ℕ) (hour-lt : hour < 24) (min-lt : min < 60) where
    abbrev daily : Periodic
    daily = record {
      start = record {
        day_of_week = unset;
        hour_of_day = pos hour;
        minute_of_hour = pos min;
        second_of_minute = pos 0;
      };
      duration = pos n;
    }

    abbrev time : ℕ
    time = (hour * 3600 + min * 60 + 0) * 1000000000

    -- The start on the day of the reference.
    abbrev today : ℕ
    today = steady.day_of ref * 86400000000000 + time

    shift-today : steady.instant (shift_time_by_days c daily ref (pos 0)) ≡ today
    unfolding shift_time_by_days
    shift-today =
        let same : steady.day_of ref + 0 - 0 ≡ steady.day_of ref = omega arith in
        steady.instant-date ref (pos 0) hour min 0 (omega arith) ∙ rw same

    shift-tomorrow :
        steady.instant (shift_time_by_days c daily ref (pos 1)) ≡ today + 86400000000000
    unfolding shift_time_by_days
    shift-tomorrow = steady.instant-date ref (pos 1) hour min 0 (omega arith) ∙ omega arith

    shift-yesterday :
        steady.instant (shift_time_by_days c daily ref (negsuc 0)) ≡ today - 86400000000000
    unfolding shift_time_by_days
    shift-yesterday = steady.instant-date ref (negsuc 0) hour min 0 (omega arith) ∙ omega arith

    cmp_hour_of_day-eq :
        ltb_ℤ (cmp_hour_of_day c daily ref) (pos 0) ≡ ltb (steady.instant ref) today
    unfolding cmp_hour_of_day
    cmp_hour_of_day-eq = rw (steady.sub-eq, shift-today) (sub_neg (steady.instant ref) today)

    previous-daily :
        steady.instant (previous c daily ref).start
        ≡ (if ltb (steady.instant ref) today then today - 86400000000000 else today)
    unfolding previous
    previous-daily =
        rw (set_ne_unset hour, cmp_hour_of_day-eq)
          (elim (Bool-cases (ltb (steady.instant ref) today)) [
            | inl earlier ↦ rw earlier shift-yesterday
            | inr begun ↦ rw begun shift-today
          ])

    next-daily :
        steady.instant (next c daily ref).start
        ≡ (if ltb (steady.instant ref) today then today else today + 86400000000000)
    unfolding next
    next-daily =
        rw (set_ne_unset hour, cmp_hour_of_day-eq)
          (elim (Bool-cases (ltb (steady.instant ref) today)) [
            | inl earlier ↦ rw earlier shift-today
            | inr begun ↦ rw begun shift-tomorrow
          ])

    previous-end :
        steady.instant (previous c daily ref).end ≡ steady.instant (previous c daily ref).start + n
    unfolding previous
    previous-end = steady.instant-add _ n

    -- For a daily window, `Previous` starts at its time of day, at most the reference and less
    -- than a day before it, and lasts for the duration; `Next` starts a day after `Previous`.
    pub daily_lem :
        let s = steady.instant (previous c daily ref).start in
        (s ≤ steady.instant ref)
        × (steady.instant ref < s + 86400000000000)
        × ((day : ℕ) × (s ≡ day * 86400000000000 + time))
        × (steady.instant (previous c daily ref).end ≡ s + n)
        × (steady.instant (next c daily ref).start ≡ s + 86400000000000)
    daily_lem =
        let known = steady.instant_in_day ref in
        let p = previous-daily in
        let x = next-daily in
        elim (Bool-cases (ltb (steady.instant ref) today)) [
          | inl earlier ↦
              let p' : steady.instant (previous c daily ref).start ≡ today - 86400000000000 =
                ground arith in
              let x' : steady.instant (next c daily ref).start ≡ today = ground arith in
              let b : steady.instant ref < today = ground arith in
              (
                omega arith,
                omega arith,
                (steady.day_of ref - 1, omega arith),
                previous-end,
                omega arith,
              )
          | inr begun ↦
              let p' : steady.instant (previous c daily ref).start ≡ today = ground arith in
              let x' : steady.instant (next c daily ref).start ≡ today + 86400000000000 =
                ground arith in
              let b : today ≤ steady.instant ref = ground arith in
              (
                omega arith,
                omega arith,
                (steady.day_of ref, omega arith),
                previous-end,
                omega arith,
              )
        ]
