-- ===== src/Clock.antt =====
-- What the reboot window takes from Go's standard library: the package `time`, and the text
-- functions of `strings` and `fmt`.
use flatcar_linux_update_ope.Prelude.{ℕ, String, Bool, Option, List}
use flatcar_linux_update_ope.Prelude.Int.{ℤ}
use flatcar_linux_update_ope.Exec.{Error}
use flatcar_linux_update_ope.Result.{Result}

pub record Clock : Type 1 where
  pub Time : Type 0
  pub Location : Type 0
  pub year : Time → ℤ
  pub month : Time → ℤ
  pub day : Time → ℤ
  pub location : Time → Location
  -- `int(t.Weekday())`, with Sunday as 0
  pub weekday : Time → ℕ
  -- `time.Date(year, month, day, hour, min, sec, nsec, loc)`
  pub date : ℤ → ℤ → ℤ → ℤ → ℤ → ℤ → ℤ → Location → Time
  -- `time.Time{}`
  pub zero_time : Time
  pub sub : Time → Time → ℤ
  pub add : Time → ℤ → Time
  pub before : Time → Time → Bool
  pub after : Time → Time → Bool
  pub equal : Time → Time → Bool

-- What `fmt.Sscanf(s, "%d:%d", &a, &b)` leaves: its count, its error, and the variables.
pub record Scan : Type 0 where
  pub count : ℕ
  pub error : Option Error
  pub first : ℤ
  pub second : ℤ

pub record TextLib : Type 0 where
  -- `strings.Fields`
  pub fields : String → List String
  -- `strings.ToLower`
  pub to_lower : String → String
  pub sscanf : String → Scan
  -- `time.ParseDuration`, in nanoseconds
  pub parse_duration : String → Result ℤ
