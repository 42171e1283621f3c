-- ===== src/Store/JournalFields.antt =====
-- auth_session/store.py: the validation of a version 3 journal payload (`_journal_fields`,
-- `_journal_field_error`, `_journal_scalar_field_error`, `_attempt_state_error`,
-- `_valid_recovery_window`, `_parse_journal_outcome`). A result under
-- `Option` is `none` where Python raises: a set's test of a list or an object (`TypeError`).
use enji_guard_cli.Prelude.{
  String, Bool, true, false, Option, none, some, List, [], ◌∷◌, ◌&&◌, ◌||◌, ◌=s◌, leb, not, is_none,
  is_some, if◌then◌else◌,
}
use enji_guard_cli.Json.{
  Json, null, text, Fields, get, in_set, equals_text, is_bool, is_text, is_text_or_null, as_text,
  as_text_or_null, as_bool,
}
use enji_guard_cli.Timestamps.{IsoFormat, Datetime}
use enji_guard_cli.StateMachine.{RotationOutcome}
use enji_guard_cli.Store.{Continuation, RotationAttempt}
use enji_guard_cli.Prelude.{◌>>=◌}
use enji_guard_cli.Store.Attempt.{is_set, parse_rotation_attempt}

-- `X | JournalCorrupt`
pub data Checked {ℓ} (A : Type ℓ) : Type ℓ where
  good : A → Checked A
  corrupt : String → Checked A

-- The empty text counts as false.
abbrev pub is_empty : Json → Bool
is_empty (text s) = s =s ""
is_empty _ = false

unfoldable pub journal_scalar_field_error : Fields → Option String
unfolding get
journal_scalar_field_error payload =
    let source_revision = get payload "source_revision" in
    if not (is_text source_revision) || is_empty source_revision
    then some "journal source_revision must be a non-empty string"
    else if not (is_text_or_null (get payload "replacement_cookie_header"))
        || not (is_text_or_null (get payload "reason"))
    then some "journal replacement_cookie_header and reason must be strings or null"
    else if not (is_text_or_null (get payload "successor_revision"))
        || not (is_text_or_null (get payload "event_key"))
    then some "journal successor_revision and event_key must be strings or null"
    else if not (is_bool (get payload "outbox_enqueued"))
    then some "journal outbox_enqueued must be a boolean"
    else none

abbrev pub is_lane : Option Continuation → Bool
is_lane (some Continuation.safe_retry) = true
is_lane (some Continuation.validation_recovery) = true
is_lane (some Continuation.ambiguity_replay) = true
is_lane _ = false

abbrev pub is_stop : Option Continuation → Bool
is_stop (some Continuation.stop) = true
is_stop _ = false

-- Python's `and`, whose right side may raise
abbrev pub and_then : Bool → Option Bool → Option Bool
and_then false m = some false
and_then true m = m

-- Python's `or`, whose left side may raise
abbrev pub or_else : Option Bool → Bool → Option Bool
or_else none b = none
or_else (some a) b = some (a || b)

abbrev pub not_in : List String → Json → Option Bool
not_in names v = elim (in_set names v) [ none ↦ none | some b ↦ some (not b) ]

abbrev pub instants_in_order : Option Datetime → Option Datetime → Bool
instants_in_order (some (Datetime.aware _ a)) (some (Datetime.aware _ b)) = leb a b
instants_in_order _ _ = false

abbrev pub first_error : Option String → Option (Option String) → Option (Option String)
first_error (some e) later = some (some e)
first_error none later = later

module _ (iso : IsoFormat) where
  open iso use {fromisoformat}

  unfoldable pub valid_recovery_window : Option String → Option String → Bool
  valid_recovery_window (some not_before) (some deadline) =
      instants_in_order (fromisoformat not_before) (fromisoformat deadline)
  valid_recovery_window _ _ = false

  -- The tests of a scheduled attempt, then of a stopped one, then of an inactive one.
  settled_error : Json → RotationAttempt → Option (Option String)
  settled_error raw_state a = do
    unstopped ← and_then (is_stop a.continuation) (
        or_else (not_in ("OUTCOME_UNKNOWN" ∷ "REJECTED" ∷ []) raw_state)
          (is_some a.next_attempt_at || not (is_set a.stop_reason) || is_some a.owner_boot_id))
    some (
        if unstopped
        then some "stopped recovery metadata is inconsistent"
        else if is_none a.continuation && (is_some a.next_attempt_at || is_some a.stop_reason)
        then some "inactive recovery metadata is inconsistent"
        else none)

  scheduled_error : Json → RotationAttempt → Option (Option String)
  unfolding settled_error valid_recovery_window
  scheduled_error raw_state a =
      if is_lane a.continuation
        && (not (equals_text raw_state "OUTCOME_UNKNOWN")
            || is_none a.next_attempt_at
            || is_none a.recovery_deadline
            || is_some a.stop_reason)
      then some (some "scheduled recovery metadata is inconsistent")
      else if is_lane a.continuation
          && not (valid_recovery_window a.next_attempt_at a.recovery_deadline)
      then some (some "scheduled recovery timestamps are invalid")
      else settled_error raw_state a

  unfoldable pub attempt_state_error : Json → RotationAttempt → Option (Option String)
  unfolding scheduled_error
  attempt_state_error raw_state a = do
    owned ← and_then (is_some a.owner_boot_id) (not_in ("RESERVED" ∷ "REQUESTED" ∷ []) raw_state)
    (if owned
        then some (some "terminal journal cannot retain a dispatch owner")
        else scheduled_error raw_state a)

  unfoldable pub budget_error : Json → Option RotationAttempt → Option (Option String)
  budget_error raw_state none = some (some "journal recovery budget is invalid")
  budget_error raw_state (some a) = attempt_state_error raw_state a

  unfoldable pub journal_field_error : Fields → Option RotationAttempt → Option (Option String)
  journal_field_error payload attempt =
      first_error (journal_scalar_field_error payload) (budget_error (get payload "state") attempt)

-- `none` is the code's `_INVALID_OUTCOME`.
unfoldable pub parse_journal_outcome : Json → Option (Option RotationOutcome)
parse_journal_outcome (text s) =
    if s =s "rotated"
    then some (some RotationOutcome.rotated)
    else if s =s "rejected"
    then some (some RotationOutcome.rejected)
    else if s =s "outcome_unknown"
    then some (some RotationOutcome.outcome_unknown)
    else none
parse_journal_outcome null = some none
parse_journal_outcome _ = none

-- `_JournalFields`
pub record JournalFields : Type 0 where
  pub source_revision : String
  pub raw_state : Json
  pub replacement_cookie_header : Option String
  pub reason : Option String
  pub successor_revision : Option String
  pub outcome : Option RotationOutcome
  pub event_key : Option String
  pub outbox_enqueued : Bool
  pub attempt : RotationAttempt

-- The assertions of `_journal_fields`, which raise where they fail.
unfoldable pub asserted_fields :
    Fields → Option RotationAttempt → Option RotationOutcome → Option (Checked JournalFields)
unfolding get
asserted_fields payload attempt outcome = do
  source_revision ← as_text (get payload "source_revision")
  replacement ← as_text_or_null (get payload "replacement_cookie_header")
  reason ← as_text_or_null (get payload "reason")
  successor_revision ← as_text_or_null (get payload "successor_revision")
  event_key ← as_text_or_null (get payload "event_key")
  outbox_enqueued ← as_bool (get payload "outbox_enqueued")
  a ← attempt
  some (
      good (record {
        source_revision = source_revision;
        raw_state = get payload "state";
        replacement_cookie_header = replacement;
        reason = reason;
        successor_revision = successor_revision;
        outcome = outcome;
        event_key = event_key;
        outbox_enqueued = outbox_enqueued;
        attempt = a;
      }))

abbrev pub after_outcome :
    Fields
    → Option RotationAttempt
    → Option (Option RotationOutcome)
    → Option (Checked JournalFields)
after_outcome payload attempt none =
    some (corrupt "journal outcome must be a known terminal outcome or null")
after_outcome payload attempt (some outcome) = asserted_fields payload attempt outcome

abbrev pub after_validation :
    Fields → Option RotationAttempt → Option (Option String) → Option (Checked JournalFields)
after_validation payload attempt none = none
after_validation payload attempt (some (some e)) = some (corrupt e)
after_validation payload attempt (some none) =
    after_outcome payload attempt (parse_journal_outcome (get payload "outcome"))

unfoldable pub journal_fields : IsoFormat → Fields → Option (Checked JournalFields)
journal_fields iso payload =
    let attempt = parse_rotation_attempt payload in
    after_validation payload attempt (journal_field_error iso payload attempt)
