-- ===== src/Store/JournalState.antt =====
-- auth_session/store.py: `_journal_state`, the state that consistent journal fields stand for.
use enji_guard_cli.Prelude.{
  String, Bool, true, false, Option, none, some, ◌&&◌, ◌=s◌, not, is_none, if◌then◌else◌,
}
use enji_guard_cli.Json.{text}
use enji_guard_cli.StateMachine.{
  RotationState, RotationOutcome, Terminal, terminal_state, rotation_event_metadata,
}
use enji_guard_cli.Store.JournalFields.{JournalFields}

-- A terminal state, if the stored event key is its own.
abbrev keyed : Terminal → String → Option RotationState
keyed t key = if key =s (rotation_event_metadata t).event_key then some (terminal_state t) else none

abbrev is_outcome : Option RotationOutcome → RotationOutcome → Bool
is_outcome (some RotationOutcome.rotated) RotationOutcome.rotated = true
is_outcome (some RotationOutcome.rejected) RotationOutcome.rejected = true
is_outcome (some RotationOutcome.outcome_unknown) RotationOutcome.outcome_unknown = true
is_outcome _ _ = false

-- The five patterns of `_journal_state`, after the first component.
active_state : (String → RotationState) → JournalFields → Option RotationState
active_state make f =
    if is_none f.replacement_cookie_header
      && is_none f.reason
      && is_none f.successor_revision
      && is_none f.outcome
      && is_none f.event_key
      && not f.outbox_enqueued
    then some (make f.source_revision)
    else none

rotated_state :
    String
    → Option String
    → Option String
    → Option String
    → Option RotationOutcome
    → Option String
    → Option RotationState
rotated_state src (some cookie) none (some successor) (some RotationOutcome.rotated) (some key) =
    keyed (Terminal.rotated src cookie successor) key
rotated_state src _ _ _ _ _ = none

stopped_state :
    (String → Terminal)
    → RotationOutcome
    → Option String
    → Option String
    → Option String
    → Option RotationOutcome
    → Option String
    → Option RotationState
stopped_state make o none (some why) none outcome (some key) =
    if is_outcome outcome o then keyed (make why) key else none
stopped_state make o _ _ _ _ _ = none

state_of_name : String → JournalFields → Option RotationState
unfolding active_state rotated_state stopped_state rotation_event_metadata
state_of_name name f =
    if name =s "RESERVED"
    then active_state RotationState.reserved f
    else if name =s "REQUESTED"
    then active_state RotationState.requested f
    else if name =s "ROTATED"
    then rotated_state src replacement_cookie_header reason successor_revision outcome event_key
    else if name =s "REJECTED"
    then stopped_state (Terminal.rejected src) RotationOutcome.rejected replacement_cookie_header
        reason successor_revision outcome event_key
    else if name =s "OUTCOME_UNKNOWN"
    then stopped_state (Terminal.outcome_unknown src) RotationOutcome.outcome_unknown
        replacement_cookie_header reason successor_revision outcome event_key
    else none
  where
    open f use {
      source_revision as src, replacement_cookie_header, reason, successor_revision, outcome,
      event_key,
    }

unfoldable pub journal_state : JournalFields → Option RotationState
unfolding state_of_name
journal_state f = elim f.raw_state [ text name ↦ state_of_name name f | _ ↦ none ]
