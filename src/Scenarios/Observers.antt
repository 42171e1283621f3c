-- ===== src/Scenarios/Observers.antt =====
-- What an observer of the files sees.
use enji_guard_cli.Prelude.{◌+◌, false, none, some, ◌≡◌, ◌≢◌, refl, if◌then◌else◌}
use enji_guard_cli.Json.{Json}
use enji_guard_cli.Timestamps.{binary_format}
use enji_guard_cli.StateMachine.{
  safe_retry_delay, safe_retry, outcome_unknown, requested, rejected, ready,
}
use enji_guard_cli.Store.{RotationAttempt, auth_loaded, JournalLoadResult, journal_loaded}
use enji_guard_cli.Store.Journal.{journal_payload, parse_journal}
use enji_guard_cli.Recovery.{classed, with_continuation, exhausted}
use enji_guard_cli.Projection.{
  ProjectionError, project_auth, network_credential, usable, refused, refresh_projection_status,
}
use enji_guard_cli.Projection.Renewal.{
  unknown_outcome_observed, exhausted_recovery_refused, is_stopped,
}
use enji_guard_cli.Scenarios.Fixtures.{
  valid_first, valid_retried, scheduled_time, auth, first, retried,
}

abbrev rejection : JournalLoadResult
rejection = journal_loaded (rejected "r1" "HTTP 401") false (some first) none

is_not_ready : requested "r0" ≢ ready "r0"
is_not_ready h = cc

abbrev continued : RotationAttempt
continued = with_continuation binary_format first safe_retry "T" 2

unknown_outcome_observed_example :
    (p : Json) × (j : JournalLoadResult) × (journal_payload
        (outcome_unknown "r1" "HTTP 502")
        false
        (some (classed continued none))
      ≡ some p)
    × (parse_journal binary_format p ≡ some j)
    × (network_credential (project_auth (auth_loaded auth) j) ≡ usable auth)
    × ((refresh_projection_status (project_auth (auth_loaded auth) j)).reauth_required
        ≡ is_stopped continued)
    × ((refresh_projection_status (project_auth (auth_loaded auth) j)).refresh_state
        ≡ some (if is_stopped continued then "exhausted" else "recovering"))
unknown_outcome_observed_example =
    unknown_outcome_observed binary_format auth "HTTP 502" "T" first safe_retry none 2 false refl
      valid_first

exhausted_recovery_refused_example :
    (p : Json) × (j : JournalLoadResult) × (e : ProjectionError) × (journal_payload
        (outcome_unknown "r1" "HTTP 502")
        false
        (some (exhausted retried))
      ≡ some p)
    × (parse_journal binary_format p ≡ some j)
    × (network_credential (project_auth (auth_loaded auth) j) ≡ refused e)
    × (e.code ≡ "AUTH_JOURNAL_CORRUPT")
exhausted_recovery_refused_example =
    exhausted_recovery_refused binary_format auth "HTTP 502"
      (binary_format.isoformat (2 + safe_retry_delay)) retried false refl valid_retried
      scheduled_time
