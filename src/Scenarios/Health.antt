-- ===== src/Scenarios/Health.antt =====
-- The readiness of the backend at concrete inputs.
use enji_guard_cli.Prelude.{
  pos, ℕ, ◌<◌, ◌≡◌, refl, ◌↔◌, true, false, none, some, List, [], ◌∷◌, arith,
}
use enji_guard_cli.Readiness.{
  BackendReadinessProbe, BackendReadinessState, ReadinessSettings, initial_state,
  write_backend_readiness_state, read_backend_readiness_state, state_after_probe, readiness_verdict,
}
use enji_guard_cli.Readiness.Laws.{
  readiness_round_trip, IsAvailable, readiness_verdict_iff, after_probes, readiness_grace,
}
use enji_guard_cli.Timestamps.{binary_format}

abbrev success : BackendReadinessProbe
success = record {
  ready = true;
  failure_kind = none;
  failure_code = none;
  failure_message = none;
  failure_status_code = none;
  credential_type = some "cookie";
  refresh_state = none;
  reauth_required = false;
  elapsed_ms = some (pos 12);
  bypass_grace = false;
}

abbrev failure : BackendReadinessProbe
failure = record success {
  ready = false;
  failure_kind = some "http";
  failure_status_code = some (pos 502);
}

abbrev settings : ReadinessSettings
settings = record { enabled = true; failure_threshold = 3; state_stale_after_seconds = 60 }

-- A success at 0, and failures at one and at two seconds.
abbrev failures : List (BackendReadinessProbe × ℕ)
failures = (failure, 2_000_000) ∷ (failure, 1_000_000) ∷ []

abbrev failed_twice : BackendReadinessState
failed_twice =
    after_probes binary_format (state_after_probe binary_format initial_state success 0) failures

readiness_round_trip_example :
    read_backend_readiness_state (write_backend_readiness_state failed_twice) ≡ some failed_twice
readiness_round_trip_example = readiness_round_trip failed_twice

readiness_grace_example :
    ((readiness_verdict binary_format settings
        (write_backend_readiness_state failed_twice)
        3_000_000).ready
      ≡ true)
    ↔ (2 < 3)
readiness_grace_example =
    readiness_grace binary_format settings initial_state success 0 failures 3_000_000 refl refl
      (refl, refl, (refl, refl, tt)) (omega arith) (omega arith)

readiness_verdict_iff_example :
    ((readiness_verdict binary_format settings
        (write_backend_readiness_state failed_twice)
        3_000_000).ready
      ≡ true)
    ↔ IsAvailable binary_format settings failed_twice 3_000_000
readiness_verdict_iff_example =
    readiness_verdict_iff binary_format settings (write_backend_readiness_state failed_twice)
      failed_twice 3_000_000 refl (readiness_round_trip failed_twice)
