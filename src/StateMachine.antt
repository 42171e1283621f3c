-- ===== src/StateMachine.antt =====
-- src/enji_guard_cli/auth_session/state_machine.py: the closed domain model of one cookie-refresh
-- credential generation. `InvalidTransitionError` is the error of a `Step`; a dataclass default
-- that draws a fresh `uuid4` is an argument of the constructor.
pub mod Diagram
pub mod Authorization
pub mod EventKeys
use enji_guard_cli.Prelude.{
  ℕ, ◌+◌, String, ◌⧺◌, Bool, ◌&&◌, List, [], ◌∷◌, ltb, leb, ◌==◌, if◌then◌else◌,
}

abbrev pub total_dispatch_cap : ℕ
total_dispatch_cap = 6

abbrev pub safe_retry_limit : ℕ
safe_retry_limit = 4

abbrev pub validation_retry_limit : ℕ
validation_retry_limit = 1

abbrev pub ambiguity_replay_limit : ℕ
ambiguity_replay_limit = 1

-- Durations in microseconds, the resolution of `timedelta`.
abbrev pub recovery_window : ℕ
recovery_window = 600_000_000

abbrev pub safe_retry_delay : ℕ
safe_retry_delay = 10_000_000

abbrev pub validation_retry_delay : ℕ
validation_retry_delay = 30_000_000

abbrev pub ambiguity_replay_delay : ℕ
ambiguity_replay_delay = 30_000_000

-- `RotationState`; `ready` carries the revision, every other state its source revision first.
pub data RotationState : Type 0 where
  ready : String → RotationState
  reserved : String → RotationState
  requested : String → RotationState
  rotated : String → String → String → RotationState
  rejected : String → String → RotationState
  outcome_unknown : String → String → RotationState

-- `Literal["safe_retry", "validation_recovery", "ambiguity_replay"]`
pub data RecoveryContinuation : Type 0 where
  safe_retry validation_recovery ambiguity_replay : RecoveryContinuation

pub record AuthorizeRecoveryDispatch : Type 0 where
  pub continuation : RecoveryContinuation
  pub dispatch_count : ℕ
  pub safe_retry_count : ℕ
  pub validation_retry_count : ℕ
  pub ambiguity_replay_count : ℕ
  pub dispatch_cap : ℕ
  pub deadline_open : Bool
  pub cooldown_elapsed : Bool

pub data RotationEvent : Type 0 where
  begin : String → RotationEvent
  dispatch_begun : RotationEvent
  exchange_succeeded : String → String → RotationEvent
  exchange_rejected : String → RotationEvent
  exchange_outcome_unknown : String → RotationEvent
  imported : String → RotationEvent
  recover : RotationEvent
  authorize_recovery_dispatch : AuthorizeRecoveryDispatch → RotationEvent

pub data Effect : Type 0 where
  persist_journal : RotationState → Effect
  dispatch_exchange : String → Effect
  persist_replacement : String → String → String → Effect
  delete_journal : Effect
  wait_for_terminal_revision : String → Effect

pub record Transition : Type 0 where
  pub state : RotationState
  pub effects : List Effect

-- A transition, or the raised `InvalidTransitionError`.
pub data Step : Type 0 where
  moved : Transition → Step
  invalid_transition : Step

abbrev to : RotationState → List Effect → Step
to s es = moved (record { state = s; effects = es })

ready_transition : RotationEvent → Step
ready_transition (begin r) = to (reserved r) (persist_journal (reserved r) ∷ [])
ready_transition (imported r) = to (ready r) []
ready_transition _ = invalid_transition

reserved_transition : String → RotationEvent → Step
reserved_transition src dispatch_begun =
    to (requested src) (persist_journal (requested src) ∷ dispatch_exchange src ∷ [])
reserved_transition src recover = to (ready src) (delete_journal ∷ [])
reserved_transition src (imported r) = to (ready r) (delete_journal ∷ [])
reserved_transition src _ = invalid_transition

requested_transition : String → RotationEvent → Step
requested_transition src (exchange_succeeded cookie successor) =
    to (rotated src cookie successor) (
      persist_journal (rotated src cookie successor)
      ∷ persist_replacement src cookie successor
      ∷ [])
requested_transition src (exchange_rejected why) =
    to (rejected src why) (persist_journal (rejected src why) ∷ [])
requested_transition src (exchange_outcome_unknown why) =
    to (outcome_unknown src why) (persist_journal (outcome_unknown src why) ∷ [])
requested_transition src (imported r) = to (ready r) (delete_journal ∷ [])
requested_transition src recover =
    let unknown = outcome_unknown src "interrupted after refresh dispatch" in
    to unknown (persist_journal unknown ∷ [])
requested_transition src _ = invalid_transition

rotated_transition : String → String → String → RotationEvent → Step
rotated_transition src cookie successor recover =
    to (rotated src cookie successor) (persist_replacement src cookie successor ∷ [])
rotated_transition src cookie successor (imported r) = to (ready r) (delete_journal ∷ [])
rotated_transition src cookie successor _ = invalid_transition

-- The entry of `lane_counts` for the continuation: the count and its limit.
pub lane_count : AuthorizeRecoveryDispatch → RecoveryContinuation → ℕ
lane_count e safe_retry = e.safe_retry_count
lane_count e validation_recovery = e.validation_retry_count
lane_count e ambiguity_replay = e.ambiguity_replay_count

abbrev pub lane_limit : RecoveryContinuation → ℕ
lane_limit safe_retry = safe_retry_limit
lane_limit validation_recovery = validation_retry_limit
lane_limit ambiguity_replay = ambiguity_replay_limit

unfoldable pub recovery_dispatch_is_authorized : AuthorizeRecoveryDispatch → Bool
unfolding lane_count
recovery_dispatch_is_authorized e =
    e.deadline_open
    && e.cooldown_elapsed
    && e.dispatch_cap == total_dispatch_cap
    && leb e.dispatch_count e.dispatch_cap
    && e.dispatch_count
      == 1 + e.safe_retry_count + e.validation_retry_count + e.ambiguity_replay_count
    && ltb 0 (lane_count e e.continuation)
    && leb (lane_count e e.continuation) (lane_limit e.continuation)

-- `Rejected() | OutcomeUnknown()`: only the second is dispatched again.
rejected_transition : String → String → RotationEvent → Step
rejected_transition src why (imported r) = to (ready r) (delete_journal ∷ [])
rejected_transition src why recover = to (rejected src why) (wait_for_terminal_revision src ∷ [])
rejected_transition src why _ = invalid_transition

outcome_unknown_transition : String → String → RotationEvent → Step
outcome_unknown_transition src why (authorize_recovery_dispatch e) =
    if recovery_dispatch_is_authorized e
    then to (reserved src) (persist_journal (reserved src) ∷ [])
    else invalid_transition
outcome_unknown_transition src why (imported r) = to (ready r) (delete_journal ∷ [])
outcome_unknown_transition src why recover =
    to (outcome_unknown src why) (wait_for_terminal_revision src ∷ [])
outcome_unknown_transition src why _ = invalid_transition

unfoldable pub transition : RotationState → RotationEvent → Step
unfolding ready_transition reserved_transition requested_transition rotated_transition
    rejected_transition outcome_unknown_transition
transition (ready r) e = ready_transition e
transition (reserved src) e = reserved_transition src e
transition (requested src) e = requested_transition src e
transition (rotated src cookie successor) e = rotated_transition src cookie successor e
transition (rejected src why) e = rejected_transition src why e
transition (outcome_unknown src why) e = outcome_unknown_transition src why e

-- The revision of the credential generation that a state is about.
abbrev pub source_revision : RotationState → String
source_revision (ready r) = r
source_revision (reserved src) = src
source_revision (requested src) = src
source_revision (rotated src _ _) = src
source_revision (rejected src _) = src
source_revision (outcome_unknown src _) = src

pub data RotationOutcome : Type 0 where
  rotated rejected outcome_unknown : RotationOutcome

-- The text of a `Literal` outcome.
abbrev pub outcome_text : RotationOutcome → String
outcome_text RotationOutcome.rotated = "rotated"
outcome_text RotationOutcome.rejected = "rejected"
outcome_text RotationOutcome.outcome_unknown = "outcome_unknown"

unfoldable pub rotation_event_key : String → RotationOutcome → String
rotation_event_key src o = "auth-rotation:" ⧺ (src ⧺ (":" ⧺ outcome_text o))

-- `RotationEventMetadata`, and the durable outbox record made of it.
pub record RotationEventMetadata : Type 0 where
  pub outcome : RotationOutcome
  pub event_key : String

abbrev metadata : String → RotationOutcome → RotationEventMetadata
metadata src o = record { outcome = o; event_key = rotation_event_key src o }

-- A terminal state: the argument type `Rotated | Rejected | OutcomeUnknown`.
pub data Terminal : Type 0 where
  rotated : String → String → String → Terminal
  rejected : String → String → Terminal
  outcome_unknown : String → String → Terminal

abbrev pub terminal_state : Terminal → RotationState
terminal_state (Terminal.rotated src cookie successor) = RotationState.rotated src cookie successor
terminal_state (Terminal.rejected src why) = RotationState.rejected src why
terminal_state (Terminal.outcome_unknown src why) = RotationState.outcome_unknown src why

unfoldable pub rotation_event_metadata : Terminal → RotationEventMetadata
rotation_event_metadata (Terminal.rotated src _ _) = metadata src RotationOutcome.rotated
rotation_event_metadata (Terminal.rejected src _) = metadata src RotationOutcome.rejected
rotation_event_metadata (Terminal.outcome_unknown src _) =
    metadata src RotationOutcome.outcome_unknown
