-- ===== src/Store/Journal.antt =====
-- auth_session/store.py: `_parse_journal`, and the payload that `write_journal` stores
-- (`_journal_payload`, `_journal_payload_base`, `_initial_rotation_attempt`,
-- `_rotation_source_revision`). `none` under `Option` is a raised `TypeError`.
pub mod RoundTrip
pub mod Malformed
use enji_guard_cli.Prelude.{[], ◌∷◌, String, Bool, true, false, Option, none, some, if◌then◌else◌}
use enji_guard_cli.Json.{
  members, Json, null, text, bool, int, object, Fields, end, get, equals_int, text_or_null,
  int_or_null,
}
use enji_guard_cli.Timestamps.{IsoFormat}
use enji_guard_cli.StateMachine.{
  RotationState, RotationOutcome, ready, reserved, requested, rotated, rejected, outcome_unknown,
  Terminal, outcome_text, rotation_event_metadata,
}
use enji_guard_cli.Store.{
  AttemptKind, Continuation, RotationAttempt, attempt_of, JournalLoadResult, journal_corrupt,
  journal_loaded,
}
use enji_guard_cli.Prelude.{◌>>=◌}
use enji_guard_cli.Store.Attempt.{kind_text, continuation_or_null}
use enji_guard_cli.Store.JournalState.{journal_state}
use enji_guard_cli.Store.JournalFields.{JournalFields, Checked, good, corrupt, journal_fields}
use enji_guard_cli.Store.JournalV2.{parse_v2_journal}

abbrev with_state : JournalFields → Option RotationState → JournalLoadResult
with_state f (some s) = journal_loaded s f.outbox_enqueued (some f.attempt) none
with_state f none = journal_corrupt "journal state payload is inconsistent"

abbrev loaded_v3 : Option (Checked JournalFields) → Option JournalLoadResult
loaded_v3 none = none
loaded_v3 (some (corrupt e)) = some (journal_corrupt e)
loaded_v3 (some (good f)) = some (with_state f (journal_state f))

unfoldable pub parse_journal : IsoFormat → Json → Option JournalLoadResult
parse_journal iso (object payload) =
    if equals_int (get payload "version") 2
    then parse_v2_journal payload
    else if equals_int (get payload "version") 3
    then loaded_v3 (journal_fields iso payload)
    else some (journal_corrupt "journal version must be 2 or 3")
parse_journal iso _ = some (journal_corrupt "journal payload must be an object")

-- `_JournalPayloadFields` without the attempt.
pub record PayloadFields : Type 0 where
  pub source_revision : String
  pub state : String
  pub replacement_cookie_header : Option String
  pub reason : Option String
  pub successor_revision : Option String
  pub outcome : Option RotationOutcome
  pub event_key : Option String
  pub outbox_enqueued : Bool

abbrev pub outcome_or_null : Option RotationOutcome → Json
outcome_or_null none = null
outcome_or_null (some o) = text (outcome_text o)

pub journal_payload_base : PayloadFields → RotationAttempt → Fields
journal_payload_base f a = members (
    ("version", int 3)
    ∷ ("source_revision", text f.source_revision)
    ∷ ("state", text f.state)
    ∷ ("replacement_cookie_header", text_or_null f.replacement_cookie_header)
    ∷ ("reason", text_or_null f.reason)
    ∷ ("successor_revision", text_or_null f.successor_revision)
    ∷ ("outcome", outcome_or_null f.outcome)
    ∷ ("event_key", text_or_null f.event_key)
    ∷ ("outbox_enqueued", bool f.outbox_enqueued)
    ∷ ("rotation_id", text a.rotation_id)
    ∷ ("attempt_kind", text (kind_text a.attempt_kind))
    ∷ ("dispatch_count", int a.dispatch_count)
    ∷ ("safe_retry_count", int a.safe_retry_count)
    ∷ ("validation_retry_count", int a.validation_retry_count)
    ∷ ("ambiguity_replay_count", int a.ambiguity_replay_count)
    ∷ ("recovery_deadline", text_or_null a.recovery_deadline)
    ∷ ("continuation", continuation_or_null a.continuation)
    ∷ ("owner_boot_id", text_or_null a.owner_boot_id)
    ∷ ("owner_pid", int_or_null a.owner_pid)
    ∷ ("owner_start_ticks", text_or_null a.owner_start_ticks)
    ∷ ("next_attempt_at", text_or_null a.next_attempt_at)
    ∷ ("total_dispatch_cap", int a.dispatch_cap)
    ∷ ("response_class", text_or_null a.response_class)
    ∷ ("stop_reason", text_or_null a.stop_reason)
    ∷ [])

abbrev active : String → String → PayloadFields
active src name = record {
  source_revision = src;
  state = name;
  replacement_cookie_header = none;
  reason = none;
  successor_revision = none;
  outcome = none;
  event_key = none;
  outbox_enqueued = false;
}

abbrev stopped : String → String → Terminal → String → Bool → PayloadFields
stopped src name t why enqueued = record {
  source_revision = src;
  state = name;
  replacement_cookie_header = none;
  reason = some why;
  successor_revision = none;
  outcome = some (rotation_event_metadata t).outcome;
  event_key = some (rotation_event_metadata t).event_key;
  outbox_enqueued = enqueued;
}

-- `ready` cannot be persisted: `none` is the `TypeError`.
payload_fields : RotationState → Bool → Option PayloadFields
payload_fields (ready _) enqueued = none
payload_fields (reserved src) enqueued = some (active src "RESERVED")
payload_fields (requested src) enqueued = some (active src "REQUESTED")
payload_fields (rotated src cookie successor) enqueued =
    let t = Terminal.rotated src cookie successor in
    some (record {
      source_revision = src;
      state = "ROTATED";
      replacement_cookie_header = some cookie;
      reason = none;
      successor_revision = some successor;
      outcome = some (rotation_event_metadata t).outcome;
      event_key = some (rotation_event_metadata t).event_key;
      outbox_enqueued = enqueued;
    })
payload_fields (rejected src why) enqueued =
    some (stopped src "REJECTED" (Terminal.rejected src why) why enqueued)
payload_fields (outcome_unknown src why) enqueued =
    some (stopped src "OUTCOME_UNKNOWN" (Terminal.outcome_unknown src why) why enqueued)

abbrev pub rotation_source_revision : RotationState → Option String
rotation_source_revision (ready _) = none
rotation_source_revision (reserved src) = some src
rotation_source_revision (requested src) = some src
rotation_source_revision (rotated src _ _) = some src
rotation_source_revision (rejected src _) = some src
rotation_source_revision (outcome_unknown src _) = some src

abbrev terminal_attempt : String → RotationAttempt
terminal_attempt src =
    let base = attempt_of src AttemptKind.normal 0 in
    record base { continuation = some Continuation.stop; stop_reason = some "terminal-state" }

unfoldable pub initial_rotation_attempt : RotationState → Option RotationAttempt
initial_rotation_attempt (rejected src _) = some (terminal_attempt src)
initial_rotation_attempt (outcome_unknown src _) = some (terminal_attempt src)
initial_rotation_attempt s = do
  src ← rotation_source_revision s
  some (attempt_of src AttemptKind.normal 0)

resolved_attempt : RotationState → Option RotationAttempt → Option RotationAttempt
resolved_attempt s (some a) = some a
resolved_attempt s none = initial_rotation_attempt s

unfoldable pub journal_payload : RotationState → Bool → Option RotationAttempt → Option Json
unfolding payload_fields resolved_attempt
journal_payload s enqueued attempt = do
  resolved ← resolved_attempt s attempt
  f ← payload_fields s enqueued
  some (object (journal_payload_base f resolved))
