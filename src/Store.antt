-- ===== src/Store.antt =====
-- src/enji_guard_cli/auth_session/store.py: the durable values of an authentication session. The
-- children parse and print them, and `Disk` has the files.
pub mod AuthFile
pub mod Attempt
pub mod JournalFields
pub mod JournalState
pub mod JournalV2
pub mod Journal
pub mod Outbox
use enji_guard_cli.Prelude.{ℕ, String, Bool, List, Option, none, some}
use enji_guard_cli.Json.{Json}
use enji_guard_cli.StateMachine.{RotationState, RotationOutcome, total_dispatch_cap}

pub data Credential : Type 0 where
  cookie : String → Credential
  bearer_token : String → Credential

-- `version` is the constant 2 and has no field.
pub record StoredAuth : Type 0 where
  pub revision : String
  pub base_url : String
  pub credential : Credential
  pub imported_at : String

pub data AttemptKind : Type 0 where
  normal safe_retry validation_recovery ambiguity_replay : AttemptKind

pub data Continuation : Type 0 where
  safe_retry validation_recovery ambiguity_replay stop : Continuation

pub record RotationAttempt : Type 0 where
  pub rotation_id : String
  pub attempt_kind : AttemptKind
  pub dispatch_count : ℕ
  pub safe_retry_count : ℕ
  pub validation_retry_count : ℕ
  pub ambiguity_replay_count : ℕ
  pub recovery_deadline : Option String
  pub continuation : Option Continuation
  pub owner_boot_id : Option String
  pub owner_pid : Option ℕ
  pub owner_start_ticks : Option String
  pub next_attempt_at : Option String
  pub dispatch_cap : ℕ
  pub response_class : Option String
  pub stop_reason : Option String

-- `RotationAttempt(rotation_id, kind, dispatch_count)`, the rest by its defaults
abbrev pub attempt_of : String → AttemptKind → ℕ → RotationAttempt
attempt_of id kind n = record {
  rotation_id = id;
  attempt_kind = kind;
  dispatch_count = n;
  safe_retry_count = 0;
  validation_retry_count = 0;
  ambiguity_replay_count = 0;
  recovery_deadline = none;
  continuation = none;
  owner_boot_id = none;
  owner_pid = none;
  owner_start_ticks = none;
  next_attempt_at = none;
  dispatch_cap = total_dispatch_cap;
  response_class = none;
  stop_reason = none;
}

pub data AuthLoadResult : Type 0 where
  auth_absent : AuthLoadResult
  auth_corrupt : String → AuthLoadResult
  auth_unsupported : Json → AuthLoadResult
  auth_io_failure : String → AuthLoadResult
  auth_clock_anomaly : String → AuthLoadResult
  auth_loaded : StoredAuth → AuthLoadResult

pub data JournalLoadResult : Type 0 where
  journal_absent : JournalLoadResult
  journal_corrupt : String → JournalLoadResult
  journal_io_failure : String → JournalLoadResult
  journal_loaded : RotationState → Bool → Option RotationAttempt → Option ℕ → JournalLoadResult

pub record OutcomeOutboxRecord : Type 0 where
  pub outcome : RotationOutcome
  pub event_key : String

pub data OutcomeOutboxLoadResult : Type 0 where
  outbox_absent : OutcomeOutboxLoadResult
  outbox_corrupt : String → OutcomeOutboxLoadResult
  outbox_io_failure : String → OutcomeOutboxLoadResult
  outbox_loaded : List OutcomeOutboxRecord → OutcomeOutboxLoadResult

pub data CasResult : Type 0 where
  cas_written : StoredAuth → CasResult
  cas_superseded : Option String → CasResult
