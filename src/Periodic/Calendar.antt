-- ===== src/Periodic/Calendar.antt =====
-- Documented behaviour of the package `time` in a location whose clocks are never changed. Instants
-- are counted in nanoseconds from the midnight that began a Sunday long ago, so that the instants
-- of interest are natural numbers, and so are the days.
use flatcar_linux_update_ope.Prelude.{ℕ, ◌+◌, ◌-◌, ◌*◌, ◌≤◌, ◌<◌, ◌≡◌, ltb, eqb}
use flatcar_linux_update_ope.Prelude.Int.{ℤ, pos, pos_part, neg_part, ◌+ℤ◌, sub_ℕ}
use flatcar_linux_update_ope.Clock.{Clock}

abbrev pub second_ns : ℕ
second_ns = 1000000000

abbrev pub day_ns : ℕ
day_ns = 86400000000000

abbrev pub week_ns : ℕ
week_ns = 604800000000000

-- The time of day of a start, in nanoseconds.
abbrev pub time_of_day : ℕ → ℕ → ℕ → ℕ
time_of_day hour min sec = (hour * 3600 + min * 60 + sec) * 1000000000

pub record IsSteady (c : Clock) : Type 0 where
  pub instant : c.Time → ℕ
  pub day_of : c.Time → ℕ
  pub week_of : c.Time → ℕ
  pub instant_in_day :
      (t : c.Time)
      → (day_of t * 86400000000000 ≤ instant t)
        × (instant t < day_of t * 86400000000000 + 86400000000000)
  pub day_in_week : (t : c.Time) → (day_of t ≡ week_of t * 7 + c.weekday t) × (c.weekday t < 7)
  -- `time.Date` accepts a day of the month outside its range, and counts on from the month.
  pub instant-date :
      (t : c.Time) (d : ℤ) (hour min sec : ℕ)
      → neg_part d ≤ day_of t
      → instant (
          c.date
            (c.year t)
            (c.month t)
            (c.day t +ℤ d)
            (pos hour)
            (pos min)
            (pos sec)
            (pos 0)
            (c.location t))
        ≡ (day_of t + pos_part d - neg_part d) * 86400000000000
          + (hour * 3600 + min * 60 + sec) * 1000000000
  pub sub-eq : (a b : c.Time) → c.sub a b ≡ sub_ℕ (instant a) (instant b)
  pub instant-add : (t : c.Time) (n : ℕ) → instant (c.add t (pos n)) ≡ instant t + n
  pub before-eq : (a b : c.Time) → c.before a b ≡ ltb (instant a) (instant b)
  pub after-eq : (a b : c.Time) → c.after a b ≡ ltb (instant b) (instant a)
  pub equal-eq : (a b : c.Time) → c.equal a b ≡ eqb (instant a) (instant b)
