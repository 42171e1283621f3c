-- ===== src/Scenarios/Improvements.antt =====
-- An update of an improvement job at concrete inputs.
use enji_guard_cli.Prelude.{◌≡◌, refl, true, Option, none, some, [], ◌∷◌}
use enji_guard_cli.Audit.Improvements.{
  ImprovementDefinition, ImprovementJobUpdate, Effective, ImprovementJob, WriteResult,
  validate_improvement_job_update, selected_timing, job_fields, updated_job, desired_job, compared,
  written, set_one,
}
use enji_guard_cli.Audit.Scheduling.{
  validate_cadence, validate_week_days, PythonTexts, validate_timezone, validate_time_update,
  select_preserved_auto_time,
}
use enji_guard_cli.Audit.Improvements.Laws.{set_one_settles}
use enji_guard_cli.Prelude.{String}

-- Every name is a zone, and no text is a number.
abbrev texts : PythonTexts
texts = record { digits = λ s. none; two_digits = λ n. ""; is_zone = λ s. true }

abbrev vuln_fix : ImprovementDefinition
vuln_fix = record {
  action_key = "improvement.vuln-fix";
  variant_key = "v1";
  kind = some "vuln-fix";
  supported = true;
}

abbrev enabling : ImprovementJobUpdate
enabling = record {
  enabled = some true;
  frequency = none;
  timezone = some "Europe/Berlin";
  days_of_week = some ("mon" ∷ "thu" ∷ []);
  schedule_time = some "auto";
  automatic_execution = none;
}

abbrev wanted : Effective
wanted = record {
  enabled = some true;
  automatic_execution = some true;
  provider_variant_key = some "v1";
  variant_key = "v1";
  frequency = some "workdays";
  days_of_week = "mon" ∷ "thu" ∷ [];
  schedule_time = some "09:00";
  schedule_time_source = some "auto";
  timezone = some "Europe/Berlin";
  pentest_mode = some "off";
}

abbrev job : Option String → ImprovementJob
job kind = record { action_key = "improvement.vuln-fix"; kind = kind; effective = wanted }

first_write :
    set_one texts vuln_fix none enabling
    ≡ some (WriteResult.changed "vuln-fix" (job (some "vuln-fix")))
unfolding set_one desired_job updated_job validate_improvement_job_update validate_cadence
    validate_week_days validate_time_update validate_timezone selected_timing job_fields
    select_preserved_auto_time written compared
first_write = refl

-- The service reports the job without its alias.
set_one_settles_example :
    set_one texts vuln_fix (some (job none)) enabling
    ≡ some (WriteResult.unchanged (some (job none)))
set_one_settles_example =
    set_one_settles texts vuln_fix none enabling "vuln-fix" (job (some "vuln-fix")) (job none)
      first_write refl
