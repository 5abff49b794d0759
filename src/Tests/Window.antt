-- ===== src/Tests/Window.antt =====
-- A weekly reboot window, from its text to the passes inside and outside it.
use flatcar_linux_update_ope.Prelude.{
  ◌≤◌, ℕ, ◌+◌, ◌-◌, ◌/◌, ◌≡◌, refl, String, ◌==◌, false, some, none, [], ◌∷◌, ltb, leb,
  if◌then◌else◌, arith,
}
use flatcar_linux_update_ope.Prelude.Int.{ℤ, pos, pos_part, neg_part, ◌+ℤ◌, ◌-ℤ◌, sub_ℕ}
use flatcar_linux_update_ope.Exec.{message}
use flatcar_linux_update_ope.Result.{Result, ok, err}
use flatcar_linux_update_ope.Clock.{TextLib}
use flatcar_linux_update_ope.Periodic.{
  Periodic, previous, duration_to_start, shift_time_by_days, cmp_day_of_week,
}
use flatcar_linux_update_ope.Periodic.Calendar.{IsSteady}
use flatcar_linux_update_ope.Periodic.Parse.{
  parse_periodic, parse_start, split_start, weekdays, check_time, check_duration,
}
use flatcar_linux_update_ope.Periodic.Validity.{IsValid, parse_periodic-IsValid}
use flatcar_linux_update_ope.Periodic.Schedule.{Occurs, valid-Occurs, duration_to_start-eq, period}
use flatcar_linux_update_ope.Operator.Config.{
  Config, Kontroller, check_config, new_resource_lock, make_reboot_window, new,
}
use flatcar_linux_update_ope.Operator.Config.Laws.{Accepted, new-Accepted, inside_reboot_window-new}
use flatcar_linux_update_ope.Operator.Marks.{inside_reboot_window}
use flatcar_linux_update_ope.Tests.Samples.{long_month}

shifted :
    (t : ℕ) (d : ℤ)
    → neg_part d ≤ t / 86400000000000
    → pos_part (pos (t / 86400000000000) +ℤ d) ≡ t / 86400000000000 + pos_part d - neg_part d
unfolding ◌+ℤ◌
shifted t d h = ground arith

abbrev long_month-IsSteady : IsSteady long_month
long_month-IsSteady = record {
  instant = λ t. t;
  day_of = λ t. t / 86400000000000;
  week_of = λ t. t / 86400000000000 / 7;
  instant_in_day = λ t. (omega arith, omega arith);
  day_in_week = λ t. (omega arith, omega arith);
  instant-date = λ t d hour min sec h. rw (shifted t d h) (omega arith);
  sub-eq = λ a b. refl;
  instant-add = λ t n. omega arith;
  before-eq = λ a b. refl;
  after-eq = λ a b. refl;
  equal-eq = λ a b. refl;
}

abbrev pub texts : TextLib
texts = record {
  fields = λ s. if s == "Mon 14:00" then "Mon" ∷ "14:00" ∷ [] else [];
  to_lower = λ s. if s == "Mon" then "mon" else s;
  sscanf = λ s. record { count = 2; error = none; first = pos 14; second = pos 0 };
  parse_duration = λ s.
      if s == "4h"
      then ok (pos 14400000000000)
      else err (message "time: invalid duration %q" (s ∷ []));
}

abbrev pub mondays : Periodic
mondays = record {
  start = record {
    day_of_week = pos 1;
    hour_of_day = pos 14;
    minute_of_hour = pos 0;
    second_of_minute = pos 0;
  };
  duration = pos 14400000000000;
}

abbrev config : Config Unit
config = record {
  client = some tt;
  before_reboot_annotations = "example.com/ready" ∷ [];
  after_reboot_annotations = "example.com/healthy" ∷ [];
  reboot_window_start = "Mon 14:00";
  reboot_window_length = "4h";
  namespace = "reboot-coordinator";
  lock_id = "operator-0";
  lock_type = "";
  reconciliation_period = pos 0;
  leader_election_lease = pos 0;
  max_rebooting_nodes = pos 3;
}

abbrev windowed : Kontroller
windowed = record {
  before_reboot_annotations = "example.com/ready" ∷ [];
  after_reboot_annotations = "example.com/healthy" ∷ [];
  namespace = "reboot-coordinator";
  reboot_window = some mondays;
  max_rebooting_nodes = pos 3;
  reconciliation_period = pos 30000000000;
  leader_election_lease = pos 90000000000;
}

parsed : parse_periodic texts "Mon 14:00" "4h" ≡ ok mondays
unfolding parse_periodic parse_start split_start weekdays check_time check_duration
parsed = refl

abbrev pub made : String → String → String → Unit {0} → String → Result String
made type namespace name client identity = ok identity

configured_so : new made texts config ≡ ok (windowed, "operator-0")
unfolding new check_config new_resource_lock make_reboot_window parsed
configured_so = refl

-- A Saturday, at 15:00.
abbrev saturday : ℕ
saturday = 1782000000000000

mondays-IsValid : IsValid mondays
mondays-IsValid = parse_periodic-IsValid texts "Mon 14:00" "4h" mondays parsed

later : 14 ≤ saturday / 86400000000000
later = omega arith

parse_periodic-IsValid_example : IsValid mondays
parse_periodic-IsValid_example = parse_periodic-IsValid texts "Mon 14:00" "4h" mondays parsed

valid-Occurs_example : (s : ℕ) × Occurs long_month long_month-IsSteady mondays saturday s
valid-Occurs_example =
    valid-Occurs long_month long_month-IsSteady saturday later mondays mondays-IsValid

duration_to_start-eq_example :
    (s : ℕ) × Occurs long_month long_month-IsSteady mondays saturday s
    × (duration_to_start long_month mondays saturday ≡ (
        if leb saturday (s + 14400000000000)
        then sub_ℕ s saturday
        else sub_ℕ (s + period mondays) saturday))
duration_to_start-eq_example =
    duration_to_start-eq long_month long_month-IsSteady saturday later mondays mondays-IsValid

new-Accepted_example : Accepted texts config windowed
new-Accepted_example = new-Accepted made texts config windowed "operator-0" configured_so

inside_reboot_window-new_example :
    (s : ℕ) × Occurs long_month long_month-IsSteady mondays saturday s
    × (inside_reboot_window long_month windowed saturday saturday
        ≡ ltb saturday (s + 14400000000000))
inside_reboot_window-new_example =
    inside_reboot_window-new made texts config long_month long_month-IsSteady saturday saturday
      later windowed "operator-0" mondays configured_so refl

closed : inside_reboot_window long_month windowed saturday saturday ≡ false
unfolding inside_reboot_window previous shift_time_by_days cmp_day_of_week ◌+ℤ◌ ◌-ℤ◌
closed = refl
