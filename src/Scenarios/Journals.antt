-- ===== src/Scenarios/Journals.antt =====
-- The files of a refresh, written and read.
use enji_guard_cli.Timestamps.{digits, undigits}
use enji_guard_cli.Recovery.{continuation_available, parse_deadline, owned_by}
use enji_guard_cli.Store.{Continuation}
use enji_guard_cli.Store.JournalV2.{has_terminal_field}
use enji_guard_cli.Prelude.{
  ◌+◌, String, true, false, ◌||◌, ◌=s◌, none, some, [], ◌∷◌, ◌≡◌, ◌≢◌, refl, if◌then◌else◌, ltb,
}
use enji_guard_cli.Json.{Json, text, int, array, nil, Fields, object, members, get}
use enji_guard_cli.Timestamps.{binary_format}
use enji_guard_cli.StateMachine.{
  rotation_event_key, RotationOutcome, ready, requested, outcome_unknown, safe_retry,
  safe_retry_delay,
}
use enji_guard_cli.Store.{
  RotationAttempt, AttemptKind, attempt_of, OutcomeOutboxRecord, JournalLoadResult, journal_loaded,
  journal_corrupt, outbox_loaded, auth_loaded, auth_clock_anomaly, cookie,
}
use enji_guard_cli.Store.Attempt.{rotation_attempt_is_valid}
use enji_guard_cli.Store.AuthFile.{stored_auth, auth_fields, parse_auth, future_tolerance}
use enji_guard_cli.Store.AuthFile.Laws.{stored_auth_round_trip}
use enji_guard_cli.Store.Journal.{journal_payload, parse_journal}
use enji_guard_cli.Store.Journal.RoundTrip.{journal_round_trip}
use enji_guard_cli.Store.Journal.Malformed.{
  migrated_request_unreadable, unhashable_state_raises, IsRequestV2, list,
}
use enji_guard_cli.Store.JournalFields.{attempt_state_error}
use enji_guard_cli.Store.Outbox.{parse_outbox, outbox_payload, has_key}
use enji_guard_cli.Store.Outbox.Laws.{IsOutbox, outbox_round_trip}
use enji_guard_cli.Store.Outbox.Updates.{after_enqueue, enqueue_outcome_lem}
use enji_guard_cli.Recovery.{exhausted, classed, with_continuation}
use enji_guard_cli.Recovery.Schedule.{unknown_journal_readable, exhausted_journal_unreadable}
use enji_guard_cli.Scenarios.Fixtures.{
  valid_first, valid_retried, scheduled_time, first, retried, keyed,
}

is_not_ready : requested "r1" ≢ ready "r1"
is_not_ready h = cc

fits_first : attempt_state_error binary_format (text "REQUESTED") first ≡ some none
unfolding attempt_state_error classed with_continuation
    enji_guard_cli.Recovery.continuation_available enji_guard_cli.Recovery.owned_by
    enji_guard_cli.Recovery.parse_deadline enji_guard_cli.Timestamps.undigits
    enji_guard_cli.Timestamps.digits
fits_first = refl

journal_round_trip_example :
    (p : Json) × (journal_payload (requested "r1") false (some first) ≡ some p)
    × (parse_journal binary_format p
        ≡ some (journal_loaded (requested "r1") false (some first) none))
journal_round_trip_example =
    journal_round_trip binary_format (requested "r1") false first refl is_not_ready valid_first
      fits_first

-- A second dispatch that is not accounted for.
abbrev uncounted : RotationAttempt
uncounted = attempt_of "r1" AttemptKind.normal 2

miscounted : rotation_attempt_is_valid uncounted ≡ false
unfolding rotation_attempt_is_valid
miscounted = refl

retry_misfits :
    attempt_state_error binary_format (text "REQUESTED") retried
    ≡ some (some "scheduled recovery metadata is inconsistent")
unfolding attempt_state_error classed with_continuation
    enji_guard_cli.Recovery.continuation_available enji_guard_cli.Recovery.owned_by
    enji_guard_cli.Recovery.parse_deadline enji_guard_cli.Timestamps.undigits
    enji_guard_cli.Timestamps.digits
retry_misfits = refl

abbrev old_request : Fields
old_request =
    members (("version", int 2) ∷ ("state", text "REQUESTED") ∷ ("source_revision", text "r1") ∷ [])

request_v2 : IsRequestV2 old_request "r1" false
unfolding get enji_guard_cli.Store.JournalV2.has_terminal_field
request_v2 = record {
  version = refl;
  source = refl;
  named = refl;
  flagged = refl;
  state = refl;
  clean = refl;
}

migrated_request_unreadable_example :
    (a : RotationAttempt) × (p : Json) × (parse_journal binary_format (object old_request)
      ≡ some (
          journal_loaded
            (outcome_unknown "r1" "v2 in-flight refresh outcome is unknown")
            false
            (some a)
            (some 2)))
    × ((a.continuation ≡ some Continuation.stop) × (a.dispatch_cap ≡ 1) × (a.dispatch_count ≡ 1))
    × (journal_payload
          (outcome_unknown "r1" "v2 in-flight refresh outcome is unknown")
          true
          (some a)
        ≡ some p)
    × (parse_journal binary_format p ≡ some (journal_corrupt "journal recovery budget is invalid"))
migrated_request_unreadable_example =
    migrated_request_unreadable binary_format old_request "r1" false true request_v2

abbrev listed_state : Fields
listed_state =
    members (("version", int 2) ∷ ("state", array nil) ∷ ("source_revision", text "r1") ∷ [])

unhashable_state_raises_example : parse_journal binary_format (object listed_state) ≡ none
unfolding get
unhashable_state_raises_example =
    unhashable_state_raises binary_format listed_state "r1" false (array nil) list refl refl refl
      refl refl

stored_auth_round_trip_example :
    parse_auth binary_format 5 (
      object (
        auth_fields (stored_auth binary_format 3 "https://enji.example" (cookie "refresh=a") "r1")))
    ≡ (if ltb (5 + future_tolerance) 3
        then auth_clock_anomaly "imported_at"
        else auth_loaded
            (stored_auth binary_format 3 "https://enji.example" (cookie "refresh=a") "r1"))
stored_auth_round_trip_example =
    stored_auth_round_trip binary_format 3 5 "https://enji.example" "r1" (cookie "refresh=a") refl
      refl

keyed_key : "auth-rotation:r1:rejected" ≡ rotation_event_key "r1" RotationOutcome.rejected
unfolding rotation_event_key
keyed_key = refl

one_record : IsOutbox (keyed ∷ [])
one_record = record { keyed = (("r1", keyed_key), tt); unique = (refl, tt) }

outbox_round_trip_example :
    parse_outbox (outbox_payload (keyed ∷ [])) ≡ some (outbox_loaded (keyed ∷ []))
outbox_round_trip_example = outbox_round_trip (keyed ∷ []) one_record

empty-IsOutbox : IsOutbox []
empty-IsOutbox = record { keyed = tt; unique = tt }

enqueue_outcome_lem_example :
    IsOutbox (after_enqueue [] keyed)
    × (has_key "auth-rotation:r1:rejected" (after_enqueue [] keyed) ≡ true)
    × ((k : String)
        → has_key k (after_enqueue [] keyed) ≡ (has_key k [] || "auth-rotation:r1:rejected" =s k))
enqueue_outcome_lem_example = enqueue_outcome_lem [] keyed empty-IsOutbox ("r1", keyed_key)

unknown_journal_readable_example :
    (p : Json) × (journal_payload
        (outcome_unknown "r1" "HTTP 502")
        false
        (some (classed (with_continuation binary_format first safe_retry "T" 2) none))
      ≡ some p)
    × (parse_journal binary_format p
        ≡ some (
            journal_loaded
              (outcome_unknown "r1" "HTTP 502")
              false
              (some (classed (with_continuation binary_format first safe_retry "T" 2) none))
              none))
unknown_journal_readable_example =
    unknown_journal_readable binary_format "r1" "HTTP 502" "T" first safe_retry none 2 false refl
      valid_first

exhausted_journal_unreadable_example :
    (p : Json) × (journal_payload (outcome_unknown "r1" "HTTP 502") false (some (exhausted retried))
      ≡ some p)
    × (parse_journal binary_format p
        ≡ some (journal_corrupt "stopped recovery metadata is inconsistent"))
exhausted_journal_unreadable_example =
    exhausted_journal_unreadable binary_format "r1" "HTTP 502"
      (binary_format.isoformat (2 + safe_retry_delay)) retried false refl valid_retried
      scheduled_time
