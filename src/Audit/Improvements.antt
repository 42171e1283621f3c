-- ===== src/Audit/Improvements.antt =====
-- audit/improvement_jobs.py: the job that an update asks for, and whether it is written. `none`
-- stands for the `ValueError`s.
pub mod Fields
pub mod Laws
use Prim.Native.String.{slice, len}
use enji_guard_cli.Prelude.{starts_with}
use enji_guard_cli.Prelude.{◌>>=◌}
use enji_guard_cli.Prelude.{
  String, Bool, true, false, not, ◌&&◌, Option, none, some, List, [], ◌∷◌, if◌then◌else◌, is_none,
  ◌=s◌,
}
use enji_guard_cli.Audit.Tasks.{or_text}
use enji_guard_cli.Audit.Lifecycle.{is_among, same_text}
use enji_guard_cli.Audit.Ledger.{or_else_text}
use enji_guard_cli.Audit.Catalog.{guarded}
use enji_guard_cli.Audit.Scheduling.{
  default_workdays, auto_time_source, user_time_source, ScheduleTimeSelection, validate_cadence,
  validate_week_days, PythonTexts, validate_timezone, validate_time_update,
  select_preserved_auto_time,
}
use enji_guard_cli.Prelude.{ℕ}

-- `removeprefix("improvement.")`
unfoldable pub short_kind : String → String
short_kind key = if starts_with key "improvement." then slice key 12 (len key) else key

-- `ImprovementDefinition`, with the fields that a job is made of.
pub record ImprovementDefinition : Type 0 where
  pub action_key : String
  pub variant_key : String
  pub kind : Option String
  pub supported : Bool

pub record ImprovementJobUpdate : Type 0 where
  pub enabled : Option Bool
  pub frequency : Option String
  pub timezone : Option String
  pub days_of_week : Option (List String)
  pub schedule_time : Option String
  pub automatic_execution : Option Bool

-- `_effective`: the fields of a job that are compared.
pub record Effective : Type 0 where
  pub enabled : Option Bool
  pub automatic_execution : Option Bool
  pub provider_variant_key : Option String
  pub variant_key : String
  pub frequency : Option String
  pub days_of_week : List String
  pub schedule_time : Option String
  pub schedule_time_source : Option String
  pub timezone : Option String
  pub pentest_mode : Option String

-- `ImprovementJob`: its alias, and its other fields.
pub record ImprovementJob : Type 0 where
  pub action_key : String
  pub kind : Option String
  pub effective : Effective

abbrev pub same_flag : Option Bool → Option Bool → Bool
same_flag none none = true
same_flag (some true) (some true) = true
same_flag (some false) (some false) = true
same_flag _ _ = false

abbrev pub same_texts : List String → List String → Bool
same_texts [] [] = true
same_texts (s ∷ ss) (t ∷ ts) = (s =s t) && same_texts ss ts
same_texts _ _ = false

unfoldable pub same_effective : Effective → Effective → Bool
same_effective a b =
    same_flag a.enabled b.enabled
    && same_flag a.automatic_execution b.automatic_execution
    && same_text a.provider_variant_key b.provider_variant_key
    && (a.variant_key =s b.variant_key)
    && same_text a.frequency b.frequency
    && same_texts a.days_of_week b.days_of_week
    && same_text a.schedule_time b.schedule_time
    && same_text a.schedule_time_source b.schedule_time_source
    && same_text a.timezone b.timezone
    && same_text a.pentest_mode b.pentest_mode

-- `value if value is not None else default`
abbrev pub or_else_flag : Option Bool → Option Bool → Option Bool
or_else_flag none d = d
or_else_flag (some b) d = some b

-- `_days(existing) or DEFAULT_WORKDAYS`
abbrev pub or_workdays : List String → List String
or_workdays [] = default_workdays
or_workdays (d ∷ ds) = d ∷ ds

abbrev pub or_else_days : Option (List String) → List String → List String
or_else_days none d = d
or_else_days (some ds) d = ds

-- `_source`
abbrev pub known_source : Option String → Option String
known_source none = none
known_source (some s) =
    if is_among (auto_time_source ∷ user_time_source ∷ []) s then some s else none

-- What an absent job has in the place of each field.
abbrev pub effective_of : Option ImprovementJob → Effective
effective_of none = record {
  enabled = some true;
  automatic_execution = some true;
  provider_variant_key = none;
  variant_key = "";
  frequency = none;
  days_of_week = [];
  schedule_time = none;
  schedule_time_source = none;
  timezone = none;
  pentest_mode = none;
}
effective_of (some j) = j.effective

abbrev pub is_empty_update : ImprovementJobUpdate → Bool
is_empty_update u =
    is_none u.enabled
    && is_none u.automatic_execution
    && is_none u.frequency
    && is_none u.days_of_week
    && is_none u.schedule_time
    && is_none u.timezone

-- `ImprovementJobWriteResult`, where a change says what is written and where to.
pub data WriteResult : Type 0 where
  unchanged : Option ImprovementJob → WriteResult
  changed : String → ImprovementJob → WriteResult

module _ (p : PythonTexts) where
  unfoldable pub validate_improvement_job_update : ImprovementJobUpdate → Option (Unit {0})
  unfolding validate_cadence validate_week_days validate_time_update validate_timezone
  validate_improvement_job_update u = do
    _ ← guarded (not (is_empty_update u))
    _ ← validate_cadence u.frequency
    _ ← validate_week_days u.days_of_week
    _ ← validate_time_update p u.schedule_time
    validate_timezone p u.timezone

  unfoldable pub selected_timing : Effective → ImprovementJobUpdate → Option ScheduleTimeSelection
  unfolding select_preserved_auto_time
  selected_timing e u =
      select_preserved_auto_time p u.schedule_time e.schedule_time
        (known_source e.schedule_time_source) "09:00"

  unfoldable pub job_fields :
      Effective
      → ImprovementDefinition
      → ImprovementJobUpdate
      → String
      → ScheduleTimeSelection
      → Effective
  job_fields e d u timezone timing = record {
    enabled = or_else_flag u.enabled e.enabled;
    automatic_execution = or_else_flag u.automatic_execution e.automatic_execution;
    provider_variant_key = some (or_text e.provider_variant_key d.variant_key);
    variant_key = d.variant_key;
    frequency = some (or_text (or_else_text u.frequency e.frequency) "workdays");
    days_of_week = or_else_days u.days_of_week (or_workdays e.days_of_week);
    schedule_time = some timing.schedule_time;
    schedule_time_source = some timing.schedule_time_source;
    timezone = some timezone;
    pentest_mode = some (or_text e.pentest_mode "off");
  }

  abbrev pub kind_of : Option ImprovementJob → ImprovementDefinition → Option String
  kind_of none d = d.kind
  kind_of (some j) d = j.kind

  -- The job once the update is valid and there is one to ask for.
  unfoldable pub updated_job :
      Option ImprovementJob → ImprovementDefinition → ImprovementJobUpdate → Option ImprovementJob
  unfolding selected_timing job_fields
  updated_job existing d u = do
    timezone ← or_else_text u.timezone (effective_of existing).timezone
    timing ← selected_timing (effective_of existing) u
    some (record {
      action_key = d.action_key;
      kind = kind_of existing d;
      effective = job_fields (effective_of existing) d u timezone timing;
    })

  abbrev pub or_none : Bool → Option ImprovementJob → Option (Option ImprovementJob)
  or_none true j = some none
  or_none false none = none
  or_none false (some j) = some (some j)

  unfoldable pub desired_job :
      Option ImprovementJob
      → ImprovementDefinition
      → ImprovementJobUpdate
      → Option (Option ImprovementJob)
  unfolding validate_improvement_job_update updated_job
  desired_job existing d u = do
    _ ← validate_improvement_job_update u
    or_none (is_none existing && not (same_flag u.enabled (some true))) (updated_job existing d u)

  unfoldable pub compared : String → Option ImprovementJob → ImprovementJob → WriteResult
  unfolding same_effective
  compared endpoint none j = changed endpoint j
  compared endpoint (some e) j =
      if same_effective e.effective j.effective then unchanged (some e) else changed endpoint j

  unfoldable pub written : String → Option ImprovementJob → Option ImprovementJob → WriteResult
  unfolding compared
  written endpoint existing none = unchanged none
  written endpoint existing (some j) = compared endpoint existing j

  abbrev pub unless_disabled : Bool → Option WriteResult → Option WriteResult
  unless_disabled true r = some (unchanged none)
  unless_disabled false r = r

  unfoldable pub set_one :
      ImprovementDefinition → Option ImprovementJob → ImprovementJobUpdate → Option WriteResult
  unfolding desired_job short_kind written
  set_one d existing u = do
    _ ← guarded d.supported
    _ ← validate_improvement_job_update u
    unless_disabled (is_none existing && same_flag u.enabled (some false)) (do
      desired ← desired_job existing d u
      some (written (or_text d.kind (or_text d.kind (short_kind d.action_key))) existing desired))
