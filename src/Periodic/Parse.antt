-- ===== src/Periodic/Parse.antt =====
-- pkg/operator/periodic.go: `ParsePeriodic`, `parseStart` and `weekdays`.
use flatcar_linux_update_ope.Prelude.{
  String, ◌==◌, Bool, true, false, not, ◌&&◌, ◌||◌, Option, none, some, List, [], ◌∷◌, ℕ, ◌*◌, eqb,
  if◌then◌else◌,
}
use flatcar_linux_update_ope.Prelude.Int.{ℤ, pos, ltb_ℤ, eqb_ℤ}
use flatcar_linux_update_ope.Exec.{Error, message, wrap}
use flatcar_linux_update_ope.Result.{Result, ok, err, ◌>>=◌, wrapping}
use flatcar_linux_update_ope.Clock.{Scan, TextLib}
use flatcar_linux_update_ope.Periodic.{PeriodicStart, Periodic, unset}

-- `weekdays()[name]`, with the values of `time.Sunday` to `time.Saturday`
unfoldable pub weekdays : String → Option ℕ
weekdays name =
    if name == "sun"
    then some 0
    else if name == "mon"
    then some 1
    else if name == "tue"
    then some 2
    else if name == "wed"
    then some 3
    else if name == "thu"
    then some 4
    else if name == "fri"
    then some 5
    else if name == "sat"
    then some 6
    else none

-- A duration of an hour, in nanoseconds.
abbrev pub hour : ℕ
hour = 3600 * 1000000000

abbrev pub day_period : ℤ
day_period = pos (24 * hour)

abbrev pub week_period : ℤ
week_period = pos (7 * (24 * hour))

abbrev pub day_or_error : String → String → Option ℕ → Result (ℤ × String)
day_or_error weekday start_time_raw none = err (message "invalid day of week %q" (weekday ∷ []))
day_or_error weekday start_time_raw (some dow) = ok (pos dow, start_time_raw)

-- The day of the week, if two fields give one, and the text of the time.
unfoldable pub split_start : TextLib → List String → Result (ℤ × String)
unfolding weekdays
split_start t [] = err (message "wrong number of fields" [])
split_start t (weekday ∷ start_time_raw ∷ []) =
    day_or_error weekday start_time_raw (weekdays (t.to_lower weekday))
split_start t (start_time_raw ∷ _) = ok (unset, start_time_raw)

abbrev scan_error : String → Option Error → Error
scan_error raw none = message "invalid time of day %q: %w" (raw ∷ [])
scan_error raw (some e) = wrap "invalid time of day %q: %w" (raw ∷ []) e

-- `err != nil`
abbrev pub is_error : Option Error → Bool
is_error none = false
is_error (some e) = true

unfoldable pub check_time : ℤ → String → Scan → Result PeriodicStart
check_time day_of_week raw s =
    if not (eqb s.count 2) || is_error s.error
    then err (scan_error raw s.error)
    else if ltb_ℤ s.first (pos 0) || ltb_ℤ (pos 23) s.first
    then err (message "invalid time of day %q: hour must be >= 0 and <= 23" (raw ∷ []))
    else if ltb_ℤ s.second (pos 0) || ltb_ℤ (pos 59) s.second
    then err (message "invalid time of day %q: minute must be >= 0 and <= 59" (raw ∷ []))
    else ok (record {
      day_of_week = day_of_week;
      hour_of_day = s.first;
      minute_of_hour = s.second;
      second_of_minute = pos 0;
    })

unfoldable pub parse_start : TextLib → String → Result PeriodicStart
parse_start t start = do
  (day_of_week, raw) ← split_start t (t.fields start)
  check_time day_of_week raw (t.sscanf raw)

unfoldable pub check_duration : PeriodicStart → ℤ → Result Periodic
check_duration start duration =
    if ltb_ℤ duration (pos 0)
    then err (message "duration cannot be negative" [])
    else if eqb_ℤ start.day_of_week unset && not (ltb_ℤ duration day_period)
        || not (ltb_ℤ duration week_period)
    then err (message "duration cannot exceed period" [])
    else ok (record { start = start; duration = duration })

unfoldable pub parse_periodic : TextLib → String → String → Result Periodic
parse_periodic t start duration = do
  s ← wrapping "parsing start: %w" [] (parse_start t start)
  d ← wrapping "parsing duration: %w" [] (t.parse_duration duration)
  check_duration s d
