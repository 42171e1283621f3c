-- ===== src/Store/Journal/RoundTrip.antt =====
-- What `write_journal` stores, `load_journal` reads back.
use enji_guard_cli.Prelude.{
  ◌≢◌, ◌=s◌, =s_refl, false, Bool, ap, if◌then◌else◌, ℕ, String, true, Option, none, some, ◌≡◌,
  refl, arith,
}
use enji_guard_cli.Json.{
  Json, object, int, get, text, text_or_null, int_or_null, as_text_or_null, as_count_or_null,
  is_text_or_null,
}
use enji_guard_cli.Timestamps.{IsoFormat}
use enji_guard_cli.StateMachine.{
  RotationState, ready, reserved, requested, rotated, rejected, outcome_unknown, source_revision,
  RotationOutcome,
}
use enji_guard_cli.Store.{journal_loaded, AttemptKind, Continuation, RotationAttempt}
use enji_guard_cli.Store.Attempt.{
  as_attempt_kind, kind_text, as_continuation, continuation_or_null, rotation_attempt_is_valid,
  parse_rotation_attempt,
}
use enji_guard_cli.Store.JournalState.{journal_state}
use enji_guard_cli.Store.JournalFields.{
  budget_error, journal_fields, journal_field_error, JournalFields, asserted_fields,
  parse_journal_outcome, good, attempt_state_error, journal_scalar_field_error,
}
use enji_guard_cli.Store.Journal.{
  loaded_v3, journal_payload, parse_journal, PayloadFields, journal_payload_base, outcome_or_null,
}

text_or_null_lem : (o : Option String) → as_text_or_null (text_or_null o) ≡ some o
text_or_null_lem o = ground arith

is_text_or_null_lem : (o : Option String) → is_text_or_null (text_or_null o) ≡ true
is_text_or_null_lem o = ground arith

int_or_null_lem : (o : Option ℕ) → as_count_or_null (int_or_null o) ≡ some o
int_or_null_lem o = ground arith

kind_lem : (k : AttemptKind) → as_attempt_kind (text (kind_text k)) ≡ some k
unfolding as_attempt_kind
kind_lem AttemptKind.normal = refl
kind_lem AttemptKind.safe_retry = refl
kind_lem AttemptKind.validation_recovery = refl
kind_lem AttemptKind.ambiguity_replay = refl

continuation_lem : (c : Option Continuation) → as_continuation (continuation_or_null c) ≡ some c
unfolding as_continuation
continuation_lem none = refl
continuation_lem (some Continuation.safe_retry) = refl
continuation_lem (some Continuation.validation_recovery) = refl
continuation_lem (some Continuation.ambiguity_replay) = refl
continuation_lem (some Continuation.stop) = refl

ruleset printed = (text_or_null_lem, int_or_null_lem, kind_lem, continuation_lem)

pub attempt_round_trip :
    (f : PayloadFields) (a : RotationAttempt)
    → rotation_attempt_is_valid a ≡ true
    → parse_rotation_attempt (journal_payload_base f a) ≡ some a
attempt_round_trip f a v =
    unfold parse_rotation_attempt journal_payload_base in
    simp printed (ap (λ b. if b then some a else none) v)

pub attempt_not_read :
    (f : PayloadFields) (a : RotationAttempt)
    → rotation_attempt_is_valid a ≡ false
    → parse_rotation_attempt (journal_payload_base f a) ≡ none
attempt_not_read f a v =
    unfold parse_rotation_attempt journal_payload_base in
    simp printed (ap (λ b. if b then some a else none) v)

outcome_lem : (o : Option RotationOutcome) → parse_journal_outcome (outcome_or_null o) ≡ some o
unfolding parse_journal_outcome
outcome_lem none = refl
outcome_lem (some RotationOutcome.rotated) = refl
outcome_lem (some RotationOutcome.rejected) = refl
outcome_lem (some RotationOutcome.outcome_unknown) = refl

pub scalars_round_trip :
    (f : PayloadFields) (a : RotationAttempt)
    → (f.source_revision =s "") ≡ false
    → journal_scalar_field_error (journal_payload_base f a) ≡ none
scalars_round_trip f a n =
    unfold journal_scalar_field_error journal_payload_base in simp (is_text_or_null_lem, n)

-- The fields that are read back.
abbrev fields_of : PayloadFields → RotationAttempt → JournalFields
fields_of f a = record {
  source_revision = f.source_revision;
  raw_state = text f.state;
  replacement_cookie_header = f.replacement_cookie_header;
  reason = f.reason;
  successor_revision = f.successor_revision;
  outcome = f.outcome;
  event_key = f.event_key;
  outbox_enqueued = f.outbox_enqueued;
  attempt = a;
}

asserted_round_trip :
    (f : PayloadFields) (a : RotationAttempt)
    → asserted_fields (journal_payload_base f a) (some a) f.outcome ≡ some (good (fields_of f a))
asserted_round_trip f a = unfold asserted_fields journal_payload_base in simp printed

pub state_lem :
    (f : PayloadFields) (a : RotationAttempt)
    → get (journal_payload_base f a) "state" ≡ text f.state
unfolding get journal_payload_base
state_lem f a = refl

outcome_get_lem :
    (f : PayloadFields) (a : RotationAttempt)
    → get (journal_payload_base f a) "outcome" ≡ outcome_or_null f.outcome
unfolding get journal_payload_base
outcome_get_lem f a = refl

pub version_lem :
    (f : PayloadFields) (a : RotationAttempt) → get (journal_payload_base f a) "version" ≡ int 3
unfolding get journal_payload_base
version_lem f a = refl

field_error_lem :
    (iso : IsoFormat) (f : PayloadFields) (a : RotationAttempt)
    → (f.source_revision =s "") ≡ false
    → attempt_state_error iso (text f.state) a ≡ some none
    → journal_field_error iso (journal_payload_base f a) (some a) ≡ some none
field_error_lem iso f a n s =
    unfold journal_field_error budget_error in cc (scalars_round_trip f a n, state_lem f a)

fields_round_trip :
    (iso : IsoFormat) (f : PayloadFields) (a : RotationAttempt)
    → (f.source_revision =s "") ≡ false
    → rotation_attempt_is_valid a ≡ true
    → attempt_state_error iso (text f.state) a ≡ some none
    → journal_fields iso (journal_payload_base f a) ≡ some (good (fields_of f a))
fields_round_trip iso f a n v s =
    unfold journal_fields in
    cc (
      attempt_round_trip f a v,
      field_error_lem iso f a n s,
      outcome_get_lem f a,
      outcome_lem f.outcome,
      asserted_round_trip f a,
    )

-- The name and the flag that the payload of a state holds; an active journal's flag is `false`.
abbrev pub state_name : RotationState → String
state_name (ready _) = "READY"
state_name (reserved _) = "RESERVED"
state_name (requested _) = "REQUESTED"
state_name (rotated _ _ _) = "ROTATED"
state_name (rejected _ _) = "REJECTED"
state_name (outcome_unknown _ _) = "OUTCOME_UNKNOWN"

abbrev pub stored_flag : RotationState → Bool → Bool
stored_flag (reserved _) enqueued = false
stored_flag (requested _) enqueued = false
stored_flag _ enqueued = enqueued

parsed :
    (iso : IsoFormat) (f : PayloadFields) (a : RotationAttempt) (s : RotationState)
    → journal_fields iso (journal_payload_base f a) ≡ some (good (fields_of f a))
    → journal_state (fields_of f a) ≡ some s
    → parse_journal iso (object (journal_payload_base f a))
      ≡ some (journal_loaded s f.outbox_enqueued (some a) none)
parsed iso f a s h k = unfold parse_journal in rw (version_lem f a) (cc (ap loaded_v3 h))

-- A journal that is written for a state other than `ready` of a revision that is not empty, with a
-- valid attempt whose metadata fit the state, is read back with the same state and attempt. The
-- flag is read back too, except that an active journal is always stored with `false`.
pub journal_round_trip :
    (iso : IsoFormat) (s : RotationState) (enqueued : Bool) (a : RotationAttempt)
    → (source_revision s =s "") ≡ false
    → s ≢ ready (source_revision s)
    → rotation_attempt_is_valid a ≡ true
    → attempt_state_error iso (text (state_name s)) a ≡ some none
    → (p : Json) × (journal_payload s enqueued (some a) ≡ some p)
      × (parse_journal iso p ≡ some (journal_loaded s (stored_flag s enqueued) (some a) none))
unfolding journal_payload
journal_round_trip iso (ready r) enqueued a n k v e = absurd (k refl)
journal_round_trip iso (reserved src) enqueued a n k v e =
    (_, refl, parsed iso _ a _ (fields_round_trip iso _ a n v e) (unfold journal_state in refl))
journal_round_trip iso (requested src) enqueued a n k v e =
    (_, refl, parsed iso _ a _ (fields_round_trip iso _ a n v e) (unfold journal_state in refl))
journal_round_trip iso (rotated src cookie next) enqueued a n k v e = (
  _,
  refl,
  parsed iso _ a _ (fields_round_trip iso _ a n v e) (unfold journal_state in simp =s_refl),
)
journal_round_trip iso (rejected src why) enqueued a n k v e = (
  _,
  refl,
  parsed iso _ a _ (fields_round_trip iso _ a n v e) (unfold journal_state in simp =s_refl),
)
journal_round_trip iso (outcome_unknown src why) enqueued a n k v e = (
  _,
  refl,
  parsed iso _ a _ (fields_round_trip iso _ a n v e) (unfold journal_state in simp =s_refl),
)
