-- ===== src/Audit/Scheduling.antt =====
-- audit/scheduling.py: the cadence, the days, the time and the timezone of a schedule. `none` stands
-- for the `ValueError`s. `digits` is `isdigit` with `int`, `two_digits` the format `02d`, and
-- `is_zone` tells whether `ZoneInfo` knows a name.
use Prim.Native.String.{slice, len}
use enji_guard_cli.Prelude.{not, any}
use text.Mathlib.Text.{find?}
use enji_guard_cli.Prelude.{◌>>=◌}
use enji_guard_cli.Prelude.{
  ◌+◌, String, ◌⧺◌, Bool, ◌&&◌, Option, none, some, List, [], ◌∷◌, leb, if◌then◌else◌, ◌=s◌,
}
use enji_guard_cli.Audit.Tasks.{or_text}
use enji_guard_cli.Audit.Lifecycle.{is_among, same_text}
use enji_guard_cli.Audit.Catalog.{no_twice, guarded}
use enji_guard_cli.Prelude.{ℕ}

abbrev pub cadences : List String
cadences = "daily" ∷ "workdays" ∷ "weekly-3x" ∷ "weekly-2x" ∷ "weekly" ∷ "monthly" ∷ []

abbrev pub week_days : List String
week_days = "mon" ∷ "tue" ∷ "wed" ∷ "thu" ∷ "fri" ∷ "sat" ∷ "sun" ∷ []

abbrev pub default_workdays : List String
default_workdays = "mon" ∷ "tue" ∷ "wed" ∷ "thu" ∷ "fri" ∷ []

abbrev pub auto_time_source : String
auto_time_source = "auto"

abbrev pub user_time_source : String
user_time_source = "user"

-- `ScheduleTimeSelection`
pub record ScheduleTimeSelection : Type 0 where
  pub schedule_time : String
  pub schedule_time_source : String

-- `split(":", 1)`, where it makes two parts
unfoldable pub time_parts : String → Option (String × String)
time_parts s = elim (find? s ":") [
  | none ↦ none
  | some i ↦ some (slice s 0 i, slice s (i + 1) (len s))
]

unfoldable pub validate_cadence : Option String → Option (Unit {0})
validate_cadence none = some tt
validate_cadence (some s) = guarded (is_among cadences s)

unfoldable pub validate_week_days : Option (List String) → Option (Unit {0})
validate_week_days none = some tt
validate_week_days (some []) = none
validate_week_days (some (d ∷ ds)) =
    guarded (not (any (λ s. not (is_among week_days s)) (d ∷ ds)) && no_twice (d ∷ ds))

pub record PythonTexts : Type 0 where
  pub digits : String → Option ℕ
  pub two_digits : ℕ → String
  pub is_zone : String → Bool

module _ (p : PythonTexts) where
  unfoldable pub validate_timezone : Option String → Option (Unit {0})
  validate_timezone none = some tt
  validate_timezone (some s) = guarded (p.is_zone s)

  unfoldable pub validate_schedule_time : String → Option String
  unfolding time_parts
  validate_schedule_time s = do
    parts ← time_parts s
    hour ← p.digits parts.0
    minute ← p.digits parts.1
    _ ← guarded (leb hour 23 && leb minute 59)
    some (p.two_digits hour ⧺ ":" ⧺ p.two_digits minute)

  unfoldable pub validate_time_update : Option String → Option (Unit {0})
  unfolding validate_schedule_time
  validate_time_update none = some tt
  validate_time_update (some s) =
      if s =s auto_time_source then some tt else do _ ← validate_schedule_time s; some tt

  -- The selection where no time is requested.
  abbrev pub existing_selection : Option String → Option String → String → ScheduleTimeSelection
  existing_selection time source default =
      if same_text source (some user_time_source)
      then record { schedule_time = or_text time default; schedule_time_source = user_time_source }
      else record { schedule_time = default; schedule_time_source = auto_time_source }

  unfoldable pub select_schedule_time :
      Option String → Option String → Option String → String → Option ScheduleTimeSelection
  unfolding validate_schedule_time
  select_schedule_time none time source default = some (existing_selection time source default)
  select_schedule_time (some r) time source default =
      if r =s auto_time_source
      then some (record { schedule_time = default; schedule_time_source = auto_time_source })
      else do
        t ← validate_schedule_time r
        some (record { schedule_time = t; schedule_time_source = user_time_source })

  unfoldable pub select_preserved_auto_time :
      Option String → Option String → Option String → String → Option ScheduleTimeSelection
  unfolding select_schedule_time
  select_preserved_auto_time requested time source default =
      if same_text requested (some auto_time_source)
      then some
          (record { schedule_time = or_text time default; schedule_time_source = auto_time_source })
      else select_schedule_time requested time source default
