-- ===== src/Periodic/Occurrences.antt =====
-- `Previous` and `Next` give the occurrences of the window around an instant.
use flatcar_linux_update_ope.Prelude.{
  ℕ, ◌+◌, ◌-◌, ◌*◌, ◌≤◌, ◌<◌, ◌≡◌, ◌⊎◌, inl, inr, refl, ◌∙◌, false, ltb, Bool-cases, if◌then◌else◌,
  arith,
}
use flatcar_linux_update_ope.Prelude.Int.{
  ℤ, pos, negsuc, pos_part, neg_part, sub_ℕ, ◌+ℤ◌, ◌-ℤ◌, ltb_ℤ, eqb_ℤ, +ℤ_parts, -ℤ_parts,
}
use flatcar_linux_update_ope.Clock.{Clock}
use flatcar_linux_update_ope.Periodic.{
  Periodic, shift_time_by_days, cmp_day_of_week, previous, next, negate, unset,
}
use flatcar_linux_update_ope.Periodic.Calendar.{IsSteady}

one_sided : (d : ℤ) → (pos_part d ≡ 0) ⊎ (neg_part d ≡ 0)
one_sided (pos n) = inr refl
one_sided (negsuc n) = inl refl

pub set_ne_unset : (n : ℕ) → eqb_ℤ (pos n) unset ≡ false
set_ne_unset n = ground arith

pub sub_neg : (a b : ℕ) → ltb_ℤ (sub_ℕ a b) (pos 0) ≡ ltb a b
sub_neg a b = ground arith

module _ (c : Clock) (steady : IsSteady c) (ref : c.Time) (later : 14 ≤ steady.day_of ref) where
  module _ (dow hour min n : ℕ) (dow-lt : dow < 7) (hour-lt : hour < 24) (min-lt : min < 60) where
    abbrev weekly : Periodic
    weekly = record {
      start = record {
        day_of_week = pos dow;
        hour_of_day = pos hour;
        minute_of_hour = pos min;
        second_of_minute = pos 0;
      };
      duration = pos n;
    }

    abbrev time : ℕ
    time = (hour * 3600 + min * 60 + 0) * 1000000000

    -- The start on the day `target`.
    shift_to :
        (d : ℤ) (target : ℕ)
        → pos_part d + steady.day_of ref ≡ neg_part d + target
        → steady.day_of ref ≤ target + 14
        → steady.instant (shift_time_by_days c weekly ref d) ≡ target * 86400000000000 + time
    unfolding shift_time_by_days
    shift_to d target e near =
        let side = one_sided d in
        let same : steady.day_of ref + pos_part d - neg_part d ≡ target = omega arith in
        steady.instant-date ref d hour min 0 (omega arith) ∙ rw same

    abbrev first_day : ℕ
    first_day = steady.week_of ref * 7

    -- The start in the week of the reference.
    abbrev this_week : ℕ
    this_week = (first_day + dow) * 86400000000000 + time

    cmp_day_of_week-eq :
        ltb_ℤ (cmp_day_of_week c weekly ref) (pos 0) ≡ ltb (steady.instant ref) this_week
    unfolding cmp_day_of_week
    cmp_day_of_week-eq =
        let w = c.weekday ref in
        let known = steady.day_in_week ref in
        let at =
          shift_to (negate (pos w) +ℤ pos dow) (first_day + dow)
            (omega (arith, +ℤ_parts (negate (pos w)) (pos dow), -ℤ_parts (pos 0) (pos w)))
            (omega arith) in
        rw (steady.sub-eq, at) (sub_neg (steady.instant ref) this_week)

    -- The start of the latest occurrence that began.
    previous-weekly :
        steady.instant (previous c weekly ref).start
        ≡ (if ltb (steady.instant ref) this_week then this_week - 604800000000000 else this_week)
    unfolding previous
    previous-weekly =
        let w = c.weekday ref in
        let known = steady.day_in_week ref in
        rw (set_ne_unset dow, cmp_day_of_week-eq)
          (elim (Bool-cases (ltb (steady.instant ref) this_week)) [
            | inl earlier ↦ rw earlier (
                shift_to (negate (pos w +ℤ (pos 7 -ℤ pos dow))) (first_day + dow - 7)
                  (omega (
                    arith,
                    +ℤ_parts (pos w) (pos 7 -ℤ pos dow),
                    -ℤ_parts (pos 7) (pos dow),
                    -ℤ_parts (pos 0) (pos w +ℤ (pos 7 -ℤ pos dow)),
                  ))
                  (omega arith)
                ∙ omega arith)
            | inr begun ↦ rw begun (
                shift_to (negate (pos w -ℤ pos dow)) (first_day + dow)
                  (omega (arith, -ℤ_parts (pos w) (pos dow), -ℤ_parts (pos 0) (pos w -ℤ pos dow)))
                  (omega arith))
          ])

    -- The start of the earliest occurrence to come.
    next-weekly :
        steady.instant (next c weekly ref).start
        ≡ (if ltb (steady.instant ref) this_week then this_week else this_week + 604800000000000)
    unfolding next
    next-weekly =
        let w = c.weekday ref in
        let known = steady.day_in_week ref in
        rw (set_ne_unset dow, cmp_day_of_week-eq)
          (elim (Bool-cases (ltb (steady.instant ref) this_week)) [
            | inl earlier ↦ rw earlier (
                shift_to (pos dow -ℤ pos w) (first_day + dow)
                  (omega (arith, -ℤ_parts (pos dow) (pos w))) (omega arith))
            | inr begun ↦ rw begun (
                shift_to (pos 7 -ℤ pos w +ℤ pos dow) (first_day + dow + 7)
                  (omega (arith, +ℤ_parts (pos 7 -ℤ pos w) (pos dow), -ℤ_parts (pos 7) (pos w)))
                  (omega arith)
                ∙ omega arith)
          ])

    previous-end :
        steady.instant (previous c weekly ref).end
        ≡ steady.instant (previous c weekly ref).start + n
    unfolding previous
    previous-end = steady.instant-add _ n

    -- For a window on a day of the week, `Previous` starts on that day and at that time, at most
    -- the reference and less than a week before it, and lasts for the duration; `Next` starts a
    -- week after `Previous`.
    pub weekly_lem :
        let s = steady.instant (previous c weekly ref).start in
        (s ≤ steady.instant ref)
        × (steady.instant ref < s + 604800000000000)
        × ((week : ℕ) × (s ≡ (week * 7 + dow) * 86400000000000 + time))
        × (steady.instant (previous c weekly ref).end ≡ s + n)
        × (steady.instant (next c weekly ref).start ≡ s + 604800000000000)
    weekly_lem =
        let known = steady.day_in_week ref in
        let inside = steady.instant_in_day ref in
        let p = previous-weekly in
        let x = next-weekly in
        elim (Bool-cases (ltb (steady.instant ref) this_week)) [
          | inl earlier ↦
              let p' : steady.instant (previous c weekly ref).start ≡ this_week - 604800000000000 =
                ground arith in
              let x' : steady.instant (next c weekly ref).start ≡ this_week = ground arith in
              let b : steady.instant ref < this_week = ground arith in
              (
                omega arith,
                omega arith,
                (steady.week_of ref - 1, omega arith),
                previous-end,
                omega arith,
              )
          | inr begun ↦
              let p' : steady.instant (previous c weekly ref).start ≡ this_week = ground arith in
              let x' : steady.instant (next c weekly ref).start ≡ this_week + 604800000000000 =
                ground arith in
              let b : this_week ≤ steady.instant ref = ground arith in
              (
                omega arith,
                omega arith,
                (steady.week_of ref, omega arith),
                previous-end,
                omega arith,
              )
        ]
