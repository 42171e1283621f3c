-- ===== src/Store/Journal/Malformed.antt =====
-- Journals that `load_journal` does not read back, or does not answer for at all.
use enji_guard_cli.Audit.Improvements.{written}
use enji_guard_cli.Audit.Ledger.{read}
use enji_guard_cli.Prelude.{true, ap, String, Bool, false, none, some, ◌≡◌, ◌≢◌, refl, ◌=s◌}
use enji_guard_cli.Json.{Json, text, bool, int, array, object, Items, Fields, get, get_or}
use enji_guard_cli.Timestamps.{IsoFormat}
use enji_guard_cli.StateMachine.{RotationState, ready, outcome_unknown, source_revision}
use enji_guard_cli.Store.{Continuation, RotationAttempt, journal_corrupt, journal_loaded}
use enji_guard_cli.Store.Attempt.{rotation_attempt_is_valid}
use enji_guard_cli.Store.JournalFields.{
  attempt_state_error, journal_field_error, budget_error, journal_fields, corrupt,
}
use enji_guard_cli.Store.JournalV2.{
  parse_v2_journal, v2_attempt, has_terminal_field, parse_v2_state,
}
use enji_guard_cli.Store.Journal.{
  PayloadFields, journal_payload_base, journal_payload, parse_journal, loaded_v3,
}
use enji_guard_cli.Store.Journal.RoundTrip.{
  attempt_round_trip, state_name, attempt_not_read, scalars_round_trip, state_lem, version_lem,
}

fields_refused :
    (iso : IsoFormat) (f : PayloadFields) (a : RotationAttempt)
    → (f.source_revision =s "") ≡ false
    → rotation_attempt_is_valid a ≡ false
    → journal_fields iso (journal_payload_base f a)
      ≡ some (corrupt "journal recovery budget is invalid")
fields_refused iso f a n v =
    unfold journal_fields journal_field_error budget_error in
    cc (attempt_not_read f a v, scalars_round_trip f a n, state_lem f a)

refused :
    (iso : IsoFormat) (f : PayloadFields) (a : RotationAttempt)
    → (f.source_revision =s "") ≡ false
    → rotation_attempt_is_valid a ≡ false
    → parse_journal iso (object (journal_payload_base f a))
      ≡ some (journal_corrupt "journal recovery budget is invalid")
refused iso f a n v =
    unfold parse_journal in rw (version_lem f a) (ap loaded_v3 (fields_refused iso f a n v))

-- `write_journal` does not look at the attempt: for a state other than `ready`, one that the
-- reader's validation refuses is written, and the journal is then corrupt.
pub invalid_attempt_unreadable :
    (iso : IsoFormat) (s : RotationState) (enqueued : Bool) (a : RotationAttempt)
    → (source_revision s =s "") ≡ false
    → s ≢ ready (source_revision s)
    → rotation_attempt_is_valid a ≡ false
    → (p : Json) × (journal_payload s enqueued (some a) ≡ some p)
      × (parse_journal iso p ≡ some (journal_corrupt "journal recovery budget is invalid"))
unfolding journal_payload
invalid_attempt_unreadable iso (ready r) enqueued a n k v = absurd (k refl)
invalid_attempt_unreadable iso _ enqueued a n k v = (_, refl, refused iso _ a n v)

fields_inconsistent :
    (iso : IsoFormat) (f : PayloadFields) (a : RotationAttempt) (e : String)
    → (f.source_revision =s "") ≡ false
    → rotation_attempt_is_valid a ≡ true
    → attempt_state_error iso (text f.state) a ≡ some (some e)
    → journal_fields iso (journal_payload_base f a) ≡ some (corrupt e)
fields_inconsistent iso f a e n v s =
    unfold journal_fields journal_field_error budget_error in
    cc (attempt_round_trip f a v, scalars_round_trip f a n, state_lem f a, s)

inconsistent :
    (iso : IsoFormat) (f : PayloadFields) (a : RotationAttempt) (e : String)
    → (f.source_revision =s "") ≡ false
    → rotation_attempt_is_valid a ≡ true
    → attempt_state_error iso (text f.state) a ≡ some (some e)
    → parse_journal iso (object (journal_payload_base f a)) ≡ some (journal_corrupt e)
inconsistent iso f a e n v s =
    unfold parse_journal in
    rw (version_lem f a) (ap loaded_v3 (fields_inconsistent iso f a e n v s))

-- `write_journal` does not look at how the attempt fits the state either: for a state other than
-- `ready`, a valid attempt whose metadata do not fit is written, and the journal is then corrupt.
pub inconsistent_attempt_unreadable :
    (iso : IsoFormat) (s : RotationState) (enqueued : Bool) (a : RotationAttempt) (e : String)
    → (source_revision s =s "") ≡ false
    → s ≢ ready (source_revision s)
    → rotation_attempt_is_valid a ≡ true
    → attempt_state_error iso (text (state_name s)) a ≡ some (some e)
    → (p : Json) × (journal_payload s enqueued (some a) ≡ some p)
      × (parse_journal iso p ≡ some (journal_corrupt e))
unfolding journal_payload
inconsistent_attempt_unreadable iso (ready r) enqueued a e n k v h = absurd (k refl)
inconsistent_attempt_unreadable iso _ enqueued a e n k v h = (_, refl, inconsistent iso _ a e n v h)

-- A version 2 payload of an in-flight request, as the previous release writes it.
pub record IsRequestV2 (payload : Fields) (src : String) (enqueued : Bool) : Type 0 where
  pub version : get payload "version" ≡ int 2
  pub source : get payload "source_revision" ≡ text src
  pub named : (src =s "") ≡ false
  pub flagged : get_or (bool false) payload "outbox_enqueued" ≡ bool enqueued
  pub state : get payload "state" ≡ text "REQUESTED"
  pub clean : has_terminal_field payload ≡ false

migrated :
    (payload : Fields) (src : String) (enqueued : Bool)
    → IsRequestV2 payload src enqueued
    → parse_v2_journal payload
      ≡ some (
          journal_loaded
            (outcome_unknown src "v2 in-flight refresh outcome is unknown")
            enqueued
            (some (v2_attempt src (text "REQUESTED")))
            (some 2))
unfolding parse_v2_journal
migrated payload src enqueued r =
    rw r.source (
      rw r.named
        (rw r.flagged (rw r.state (rw r.clean (unfold parse_v2_state v2_attempt in refl)))))

migrated_load :
    (iso : IsoFormat) (payload : Fields) (src : String) (enqueued : Bool)
    → IsRequestV2 payload src enqueued
    → parse_journal iso (object payload)
      ≡ some (
          journal_loaded
            (outcome_unknown src "v2 in-flight refresh outcome is unknown")
            enqueued
            (some (v2_attempt src (text "REQUESTED")))
            (some 2))
unfolding parse_journal
migrated_load iso payload src enqueued r = rw r.version (migrated payload src enqueued r)

stopped_request_unreadable :
    (iso : IsoFormat) (src : String) (rewritten : Bool)
    → (src =s "") ≡ false
    → (p : Json) × (journal_payload
          (outcome_unknown src "v2 in-flight refresh outcome is unknown")
          rewritten
          (some (v2_attempt src (text "REQUESTED")))
        ≡ some p)
      × (parse_journal iso p ≡ some (journal_corrupt "journal recovery budget is invalid"))
unfolding rotation_attempt_is_valid v2_attempt
stopped_request_unreadable iso src rewritten n =
    invalid_attempt_unreadable iso _ rewritten _ n (λ e. cc) (rw n)

stopped_request :
    (src : String)
    → ((v2_attempt src (text "REQUESTED")).continuation ≡ some Continuation.stop)
      × ((v2_attempt src (text "REQUESTED")).dispatch_cap ≡ 1)
      × ((v2_attempt src (text "REQUESTED")).dispatch_count ≡ 1)
unfolding v2_attempt
stopped_request src = (refl, refl, refl)

-- A version 2 in-flight journal is loaded as an unknown outcome of its revision, with a stopped
-- attempt that counts one dispatch of a cap of 1. Once that state and attempt are written back, with
-- the outbox flag either way, the journal is corrupt: its recovery budget is refused.
pub migrated_request_unreadable :
    (iso : IsoFormat) (payload : Fields) (src : String) (enqueued rewritten : Bool)
    → IsRequestV2 payload src enqueued
    → let unknown : RotationState = outcome_unknown src "v2 in-flight refresh outcome is unknown" in
      (a : RotationAttempt) × (p : Json) × (parse_journal iso (object payload)
        ≡ some (journal_loaded unknown enqueued (some a) (some 2)))
      × ((a.continuation ≡ some Continuation.stop) × (a.dispatch_cap ≡ 1) × (a.dispatch_count ≡ 1))
      × (journal_payload unknown rewritten (some a) ≡ some p)
      × (parse_journal iso p ≡ some (journal_corrupt "journal recovery budget is invalid"))
migrated_request_unreadable iso payload src enqueued rewritten r =
    let (p, written, read) = stopped_request_unreadable iso src rewritten r.named in
    (_, p, migrated_load iso payload src enqueued r, stopped_request src, written, read)

-- A value with no hash.
pub data IsUnhashable : Json → Type 0 where
  list : {xs : Items} → IsUnhashable (array xs)
  dict : {fs : Fields} → IsUnhashable (object fs)

unhashable_raises :
    (payload : Fields) (src : String) (enqueued : Bool) (v : Json)
    → IsUnhashable v
    → get payload "source_revision" ≡ text src
    → (src =s "") ≡ false
    → get_or (bool false) payload "outbox_enqueued" ≡ bool enqueued
    → get payload "state" ≡ v
    → parse_v2_journal payload ≡ none
unfolding parse_v2_journal
unhashable_raises payload src enqueued v list e n f st = rw e (rw n (rw f (rw st)))
unhashable_raises payload src enqueued v dict e n f st = rw e (rw n (rw f (rw st)))

-- A version 2 journal with a named source revision and a Boolean flag whose `state` is a list or
-- an object is not answered as corrupt: its load raises `TypeError`.
pub unhashable_state_raises :
    (iso : IsoFormat) (payload : Fields) (src : String) (enqueued : Bool) (v : Json)
    → IsUnhashable v
    → get payload "version" ≡ int 2
    → get payload "source_revision" ≡ text src
    → (src =s "") ≡ false
    → get_or (bool false) payload "outbox_enqueued" ≡ bool enqueued
    → get payload "state" ≡ v
    → parse_journal iso (object payload) ≡ none
unfolding parse_journal
unhashable_state_raises iso payload src enqueued v u e s n f st =
    rw e (unhashable_raises payload src enqueued v u s n f st)
