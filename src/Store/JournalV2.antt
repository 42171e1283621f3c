-- ===== src/Store/JournalV2.antt =====
-- auth_session/store.py: `_parse_v2_journal` and `_parse_v2_state`, the import of the previous
-- journal schema. `none` under `Option` is a raised `TypeError`.
use enji_guard_cli.Prelude.{
  String, Bool, false, Option, none, some, [], ◌∷◌, ◌&&◌, ◌||◌, ◌=s◌, not, if◌then◌else◌,
}
use enji_guard_cli.Json.{Json, text, bool, Fields, get, get_or, in_set, is_null, equals_text}
use enji_guard_cli.StateMachine.{RotationState, reserved, outcome_unknown, rotated, rejected}
use enji_guard_cli.Store.{
  Continuation, AttemptKind, RotationAttempt, attempt_of, JournalLoadResult, journal_corrupt,
  journal_loaded,
}
use enji_guard_cli.Prelude.{◌>>=◌}
use enji_guard_cli.Store.JournalFields.{Checked, good, corrupt}

rotated_of : String → Json → Json → Checked RotationState
rotated_of src (text replacement) (text successor) = good (rotated src replacement successor)
rotated_of src _ _ = corrupt "v2 rotated journal is incomplete"

terminal_of : (String → RotationState) → Json → Checked RotationState
terminal_of make (text why) = good (make why)
terminal_of make _ = corrupt "v2 terminal journal is incomplete"

unfoldable pub parse_v2_state : Fields → String → Json → Checked RotationState
unfolding rotated_of terminal_of
parse_v2_state payload src raw_state =
    if equals_text raw_state "RESERVED"
    then good (reserved src)
    else if equals_text raw_state "REQUESTED"
    then good (outcome_unknown src "v2 in-flight refresh outcome is unknown")
    else if equals_text raw_state "ROTATED"
    then rotated_of src (get payload "replacement_cookie_header") (get payload "successor_revision")
    else if equals_text raw_state "REJECTED"
    then terminal_of (rejected src) (get payload "reason")
    else if equals_text raw_state "OUTCOME_UNKNOWN"
    then terminal_of (outcome_unknown src) (get payload "reason")
    else corrupt "v2 journal state is unsupported"

unfoldable pub has_terminal_field : Fields → Bool
has_terminal_field payload =
    not (is_null (get payload "replacement_cookie_header"))
    || not (is_null (get payload "reason"))
    || not (is_null (get payload "successor_revision"))
    || not (is_null (get payload "outcome"))
    || not (is_null (get payload "event_key"))

-- The attempt that a version 2 journal is given. The second test of the state raises nothing: the
-- first has looked for its hash.
unfoldable pub v2_attempt : String → Json → RotationAttempt
v2_attempt src raw_state =
    let in_flight = equals_text raw_state "REQUESTED" in
    let ambiguous = in_flight || equals_text raw_state "OUTCOME_UNKNOWN" in
    let base = attempt_of src AttemptKind.normal (if in_flight then 1 else 0) in
    record base {
      dispatch_cap = if in_flight then 1 else 6;
      continuation = if ambiguous then some Continuation.stop else none;
      stop_reason = if ambiguous then some "v2-active-ambiguity" else none;
    }

loaded_v2 : String → Json → Bool → Checked RotationState → JournalLoadResult
loaded_v2 src raw_state enqueued (corrupt e) = journal_corrupt e
loaded_v2 src raw_state enqueued (good s) =
    journal_loaded s enqueued (some (v2_attempt src raw_state)) (some 2)

parse_v2_active : Fields → String → Bool → Option JournalLoadResult
unfolding has_terminal_field parse_v2_state loaded_v2 v2_attempt
parse_v2_active payload src enqueued = do
  let raw_state = get payload "state"
  active ← in_set ("RESERVED" ∷ "REQUESTED" ∷ []) raw_state
  some (
      if active && has_terminal_field payload
      then journal_corrupt "v2 active journal contains terminal fields"
      else loaded_v2 src raw_state enqueued (parse_v2_state payload src raw_state))

with_enqueued : Fields → String → Json → Option JournalLoadResult
unfolding parse_v2_active loaded_v2
with_enqueued payload src (bool enqueued) = parse_v2_active payload src enqueued
with_enqueued payload src _ = some (journal_corrupt "v2 journal outbox_enqueued must be a boolean")

with_source : Fields → Json → Option JournalLoadResult
unfolding with_enqueued
with_source payload (text src) =
    if src =s ""
    then some (journal_corrupt "v2 journal source_revision must be a non-empty string")
    else with_enqueued payload src (get_or (bool false) payload "outbox_enqueued")
with_source payload _ =
    some (journal_corrupt "v2 journal source_revision must be a non-empty string")

unfoldable pub parse_v2_journal : Fields → Option JournalLoadResult
unfolding with_source
parse_v2_journal payload = with_source payload (get payload "source_revision")
