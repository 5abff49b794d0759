-- ===== src/Periodic/Validity.antt =====
-- The windows that `ParsePeriodic` returns.
use flatcar_linux_update_ope.Prelude.{
  ℕ, ◌<◌, ◌≤◌, ◌≡◌, refl, subst, ◌⊎◌, inl, inr, String, true, false, not, ◌&&◌, ◌||◌, Option, none,
  some, List, [], ◌∷◌, arith, eqb,
}
use flatcar_linux_update_ope.Prelude.Int.{ℤ, pos, negsuc, ltb_ℤ, eqb_ℤ}
use flatcar_linux_update_ope.Result.{ok, guard_passed, call_passed, calls_passed, ok_injective}
use flatcar_linux_update_ope.Clock.{Scan, TextLib}
use flatcar_linux_update_ope.Periodic.{PeriodicStart, Periodic, unset}
use flatcar_linux_update_ope.Periodic.Parse.{
  weekdays, split_start, check_time, parse_start, check_duration, parse_periodic, day_period,
  week_period, is_error, day_or_error,
}

-- A day of the week, or none for a daily window.
abbrev pub IsDay : ℤ → Type 0
IsDay d = ((n : ℕ) × (n < 7) × (d ≡ pos n)) ⊎ (d ≡ unset)

pub record IsStart (s : PeriodicStart) : Type 0 where
  pub day : IsDay s.day_of_week
  pub hour : (h : ℕ) × (h < 24) × (s.hour_of_day ≡ pos h)
  pub minute : (m : ℕ) × (m < 60) × (s.minute_of_hour ≡ pos m)
  pub second : s.second_of_minute ≡ pos 0

pub record IsValid (p : Periodic) : Type 0 where
  pub start : IsStart p.start
  pub duration : (n : ℕ) × (n < 604800000000000) × (p.duration ≡ pos n)
  pub daily : p.start.day_of_week ≡ unset → ltb_ℤ p.duration day_period ≡ true

in_range :
    (z : ℤ) (n : ℕ) → (ltb_ℤ z (pos 0) || ltb_ℤ (pos n) z) ≡ false → (m : ℕ) × (m ≤ n) × (z ≡ pos m)
in_range (pos m) n h = (m, ground arith, refl)
in_range (negsuc m) n h = absurd (ground arith)

weekdays_lt : (name : String) (n : ℕ) → weekdays name ≡ some n → n < 7
unfolding weekdays
weekdays_lt name n h = ground arith

check_time-IsStart :
    (d : ℤ) (raw : String) (s : Scan) (p : PeriodicStart)
    → IsDay d
    → check_time d raw s ≡ ok p
    → IsStart p
unfolding check_time
check_time-IsStart d raw s p day h =
    let (scanned, h1) = guard_passed (not (eqb s.count 2) || is_error s.error) _ _ p h in
    let (hours, h2) = guard_passed (ltb_ℤ s.first (pos 0) || ltb_ℤ (pos 23) s.first) _ _ p h1 in
    let (minutes, h3) = guard_passed (ltb_ℤ s.second (pos 0) || ltb_ℤ (pos 59) s.second) _ _ p h2 in
    let (hour, hour-le, hour-eq) = in_range s.first 23 hours in
    let (minute, minute-le, minute-eq) = in_range s.second 59 minutes in
    subst IsStart (ok_injective _ p h3) (record {
      day = day;
      hour = (hour, omega arith, hour-eq);
      minute = (minute, omega arith, minute-eq);
      second = refl;
    })

chosen-IsDay :
    (weekday raw : String) (o : Option ℕ) (r : ℤ × String)
    → ((n : ℕ) → o ≡ some n → n < 7)
    → day_or_error weekday raw o ≡ ok r
    → IsDay r.0
chosen-IsDay weekday raw none r lt h = cc
chosen-IsDay weekday raw (some n) r lt h =
    subst (λ r. IsDay r.0) (ok_injective _ r h) (inl (n, lt n refl, refl))

split_start-IsDay :
    (t : TextLib) (fs : List String) (r : ℤ × String) → split_start t fs ≡ ok r → IsDay r.0
unfolding split_start
split_start-IsDay t [] r h = cc
split_start-IsDay t (a ∷ []) r h = subst (λ r. IsDay r.0) (ok_injective _ r h) (inr refl)
split_start-IsDay t (a ∷ b ∷ []) r h =
    chosen-IsDay a b (weekdays (t.to_lower a)) r (weekdays_lt (t.to_lower a)) h
split_start-IsDay t (a ∷ b ∷ c ∷ fs) r h = subst (λ r. IsDay r.0) (ok_injective _ r h) (inr refl)

parse_start-IsStart :
    (t : TextLib) (start : String) (s : PeriodicStart) → parse_start t start ≡ ok s → IsStart s
unfolding parse_start
parse_start-IsStart t start s h =
    let (r, split, checked) = call_passed (split_start t (t.fields start)) _ s h in
    check_time-IsStart r.0 r.1 (t.sscanf r.1) s (split_start-IsDay t _ r split) checked

check_duration-IsValid :
    (s : PeriodicStart) (d : ℤ) (p : Periodic) → IsStart s → check_duration s d ≡ ok p → IsValid p
unfolding check_duration
check_duration-IsValid s (negsuc n) p start h =
    let (positive, h1) = guard_passed (ltb_ℤ (negsuc n) (pos 0)) _ _ p h in absurd (ground arith)
check_duration-IsValid s (pos n) p start h =
    let (positive, h1) = guard_passed (ltb_ℤ (pos n) (pos 0)) _ _ p h in
    let (short, h2) =
      guard_passed
        (eqb_ℤ s.day_of_week unset && not (ltb_ℤ (pos n) day_period)
          || not (ltb_ℤ (pos n) week_period))
        _ _ p h1 in
    subst IsValid (ok_injective _ p h2) (record {
      start = start;
      duration = (n, ground arith, refl);
      daily = λ e. let at : eqb_ℤ s.day_of_week unset ≡ true = rw e refl in ground arith;
    })

-- A window that `ParsePeriodic` returns has a day of the week from Sunday to Saturday or none, a
-- time of day from 00:00 to 23:59, and a duration that is not negative and shorter than a week, or
-- than a day if it has no day of the week.
pub parse_periodic-IsValid :
    (t : TextLib) (start duration : String) (p : Periodic)
    → parse_periodic t start duration ≡ ok p
    → IsValid p
unfolding parse_periodic
parse_periodic-IsValid t start duration p h =
    let (s, started, h1) = calls_passed _ _ (parse_start t start) _ p h in
    let (d, lasted, h2) = calls_passed _ _ (t.parse_duration duration) _ p h1 in
    check_duration-IsValid s d p (parse_start-IsStart t start s started) h2
