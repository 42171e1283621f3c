-- ===== src/Store/Outbox.antt =====
-- auth_session/store.py: the outbox of terminal outcomes (`_parse_outbox`,
-- `_parse_outbox_record`, `_outbox_payload`), and what `enqueue_outcome` and
-- `acknowledge_outcome` make of its records. `none` under `Option` is a raised `TypeError`.
pub mod Laws
pub mod Updates
use Prim.Native.String.{◌∷◌ as ◌◂◌, [] as empty}
use enji_guard_cli.Prelude.{
  starts_with, String, ◌⧺◌, Bool, true, false, Option, none, some, List, [], ◌∷◌, ◌++◌, ◌=s◌, ◌&&◌,
  ◌||◌, any, length, ◌==◌, not, if◌then◌else◌,
}
use enji_guard_cli.Json.{
  Json, text, int, array, object, Items, nil, cons, Fields, members, get, equals_int, in_set,
}
use enji_guard_cli.StateMachine.{RotationOutcome, Terminal, rotation_event_metadata, outcome_text}
use enji_guard_cli.Store.{
  OutcomeOutboxRecord, OutcomeOutboxLoadResult, outbox_corrupt, outbox_loaded,
}
use enji_guard_cli.Prelude.{◌>>=◌}

-- `s.endswith(t)`
unfoldable pub ends_with : String → String → Bool
ends_with empty t = empty =s t
ends_with (c ◂ s) t = (c ◂ s) =s t || ends_with s t

abbrev pub record_of : RotationOutcome → String → Option OutcomeOutboxRecord
record_of o key =
    if starts_with key "auth-rotation:" && ends_with key (":" ⧺ outcome_text o)
    then some (record { outcome = o; event_key = key })
    else none

-- The outcome of a text that the set's test has let through.
abbrev pub outcome_of_text : String → String → Option OutcomeOutboxRecord
outcome_of_text s key =
    if s =s "rotated"
    then record_of RotationOutcome.rotated key
    else if s =s "rejected"
    then record_of RotationOutcome.rejected key
    else if s =s "outcome_unknown"
    then record_of RotationOutcome.outcome_unknown key
    else none

abbrev pub with_outcome : Json → String → Option (Option OutcomeOutboxRecord)
with_outcome (text s) key = some (outcome_of_text s key)
with_outcome (array _) key = none
with_outcome (object _) key = none
with_outcome _ key = some none

abbrev pub with_key : Json → Json → Option (Option OutcomeOutboxRecord)
with_key outcome (text key) = if key =s "" then some none else with_outcome outcome key
with_key outcome _ = some none

unfoldable pub parse_outbox_record : Json → Option (Option OutcomeOutboxRecord)
parse_outbox_record (object payload) = with_key (get payload "outcome") (get payload "event_key")
parse_outbox_record _ = some none

abbrev pub has_key : String → List OutcomeOutboxRecord → Bool
has_key key = any (λ r. r.event_key =s key)

-- One round of the loop, and the rest of it; the set of seen keys is that of the records so far.
abbrev add_record :
    (List OutcomeOutboxRecord → Option OutcomeOutboxLoadResult)
    → List OutcomeOutboxRecord
    → Option (Option OutcomeOutboxRecord)
    → Option OutcomeOutboxLoadResult
add_record rest seen none = none
add_record rest seen (some none) =
    some (outbox_corrupt "outbox records must contain valid unique outcome event keys")
add_record rest seen (some (some r)) =
    if has_key r.event_key seen
    then some (outbox_corrupt "outbox event keys must be unique")
    else rest (seen ++ r ∷ [])

unfoldable pub parse_records : Items → List OutcomeOutboxRecord → Option OutcomeOutboxLoadResult
parse_records nil seen = some (outbox_loaded seen)
parse_records (cons raw rest) seen = add_record (parse_records rest) seen (parse_outbox_record raw)

abbrev records_of : Json → Option OutcomeOutboxLoadResult
records_of (array items) = parse_records items []
records_of _ = some (outbox_corrupt "outbox records must be a list")

unfoldable pub parse_outbox : Json → Option OutcomeOutboxLoadResult
parse_outbox (object payload) =
    if equals_int (get payload "version") 2
    then records_of (get payload "records")
    else some (outbox_corrupt "outbox version must be 2")
parse_outbox _ = some (outbox_corrupt "outbox version must be 2")

record_json : OutcomeOutboxRecord → Json
record_json r =
    object
      (members (("outcome", text (outcome_text r.outcome)) ∷ ("event_key", text r.event_key) ∷ []))

record_items : List OutcomeOutboxRecord → Items
record_items [] = nil
record_items (r ∷ rs) = cons (record_json r) (record_items rs)

unfoldable pub outbox_payload : List OutcomeOutboxRecord → Json
unfolding record_items record_json
outbox_payload rs =
    object (members (("version", int 2) ∷ ("records", array (record_items rs)) ∷ []))

-- What `enqueue_outcome` writes; `none` where the key is there and nothing is written.
unfoldable pub enqueued :
    List OutcomeOutboxRecord → OutcomeOutboxRecord → Option (List OutcomeOutboxRecord)
enqueued records r = if has_key r.event_key records then none else some (records ++ r ∷ [])

-- `tuple(record for record in records if record.event_key != event_key)`
unfoldable pub retained : String → List OutcomeOutboxRecord → List OutcomeOutboxRecord
retained key [] = []
retained key (r ∷ rs) = let rest = retained key rs in if r.event_key =s key then rest else r ∷ rest

-- `_outbox_record` of auth_session/coordinator.py
unfoldable pub outbox_record : Terminal → OutcomeOutboxRecord
outbox_record t =
    let m = rotation_event_metadata t in record { outcome = m.outcome; event_key = m.event_key }
