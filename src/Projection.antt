-- ===== src/Projection.antt =====
-- src/enji_guard_cli/auth_session/projection.py: the observers' view of the stored credential and
-- of the refresh journal. An `OSError` is its text.
pub mod Access
pub mod Renewal
use enji_guard_cli.Prelude.{String, ◌⧺◌, Bool, true, false, Option, none, some, ◌=s◌, if◌then◌else◌}
use enji_guard_cli.Json.{Json}
use enji_guard_cli.StateMachine.{
  RotationState, ready, reserved, requested, rotated, rejected, outcome_unknown, source_revision,
}
use enji_guard_cli.Store.{
  StoredAuth, Continuation, RotationAttempt, AuthLoadResult, auth_absent, auth_corrupt,
  auth_unsupported, auth_io_failure, auth_clock_anomaly, auth_loaded, JournalLoadResult,
  journal_absent, journal_corrupt, journal_io_failure, journal_loaded,
}

-- The states that a class carries are its constructor's arguments: a revision is the credential's.
pub data AuthProjection : Type 0 where
  credential_ready : StoredAuth → AuthProjection
  rotation_reserved : StoredAuth → String → AuthProjection
  rotation_in_progress : StoredAuth → String → AuthProjection
  rotation_recovery_available : StoredAuth → String → String → String → AuthProjection
  rotation_recovering : StoredAuth → String → String → RotationAttempt → AuthProjection
  rotation_recovery_exhausted : StoredAuth → String → String → RotationAttempt → AuthProjection
  reimport_rejected : StoredAuth → String → String → AuthProjection
  reimport_unknown : StoredAuth → String → String → AuthProjection
  credential_absent : AuthProjection
  credential_corrupt : String → AuthProjection
  credential_unsupported : Json → AuthProjection
  credential_io_failure : String → AuthProjection
  credential_clock_anomaly : String → AuthProjection
  journal_corrupt_projection : String → AuthProjection
  journal_io_failure_projection : String → AuthProjection
  journal_impossible_state : RotationState → AuthProjection

-- `attempt is not None and attempt.continuation not in {None, "stop"}`, then `== "stop"`.
abbrev project_unknown :
    StoredAuth → String → String → RotationAttempt → Option Continuation → AuthProjection
project_unknown auth src why a none = reimport_unknown auth src why
project_unknown auth src why a (some Continuation.stop) = rotation_recovery_exhausted auth src why a
project_unknown auth src why a (some _) = rotation_recovering auth src why a

abbrev project_attempted : StoredAuth → String → String → Option RotationAttempt → AuthProjection
project_attempted auth src why none = reimport_unknown auth src why
project_attempted auth src why (some a) = project_unknown auth src why a a.continuation

project_matching_rotation_state :
    StoredAuth → RotationState → Option RotationAttempt → AuthProjection
project_matching_rotation_state auth (ready r) attempt = journal_impossible_state (ready r)
project_matching_rotation_state auth (reserved src) attempt = rotation_reserved auth src
project_matching_rotation_state auth (requested src) attempt = rotation_in_progress auth src
project_matching_rotation_state auth (rotated src header next) attempt =
    rotation_recovery_available auth src header next
project_matching_rotation_state auth (outcome_unknown src why) attempt =
    project_attempted auth src why attempt
project_matching_rotation_state auth (rejected src why) attempt = reimport_rejected auth src why

abbrev is_ready : RotationState → Bool
is_ready (ready _) = true
is_ready _ = false

project_rotation_state : StoredAuth → RotationState → Option RotationAttempt → AuthProjection
unfolding project_matching_rotation_state
project_rotation_state auth state attempt =
    if is_ready state
    then journal_impossible_state state
    else if source_revision state =s auth.revision
    then project_matching_rotation_state auth state attempt
    else credential_ready auth

project_loaded : StoredAuth → JournalLoadResult → AuthProjection
unfolding project_rotation_state
project_loaded auth journal_absent = credential_ready auth
project_loaded auth (journal_corrupt detail) = journal_corrupt_projection detail
project_loaded auth (journal_io_failure e) = journal_io_failure_projection e
project_loaded auth (journal_loaded state enqueued attempt migrated) =
    project_rotation_state auth state attempt

unfoldable pub project_auth : AuthLoadResult → JournalLoadResult → AuthProjection
unfolding project_loaded
project_auth (auth_loaded auth) journal = project_loaded auth journal
project_auth auth_absent journal = credential_absent
project_auth (auth_corrupt detail) journal = credential_corrupt detail
project_auth (auth_unsupported version) journal = credential_unsupported version
project_auth (auth_io_failure e) journal = credential_io_failure e
project_auth (auth_clock_anomaly name) journal = credential_clock_anomaly name

-- `AuthProjectionError`
pub record ProjectionError : Type 0 where
  pub code : String
  pub message : String

abbrev failure : String → String → Option ProjectionError
failure code message = some (record { code = code; message = message })

-- `_STATIC_PROJECTION_ERRORS`, by the class of the projection
abbrev static_projection_error : AuthProjection → Option ProjectionError
static_projection_error (rotation_recovery_available _ _ _ _) =
    failure "AUTH_ROTATION_RECOVERY_PENDING"
      "auth rotation recovery is pending; restart the service or import a fresh browser credential"
static_projection_error credential_absent = failure "AUTH_REQUIRED" "auth file does not exist"
static_projection_error (credential_corrupt _) =
    failure "AUTH_CORRUPT" "auth file is corrupt; import a fresh browser credential"
static_projection_error (credential_unsupported _) =
    failure "AUTH_UNSUPPORTED" "auth file version is unsupported; import a fresh browser credential"
static_projection_error (credential_io_failure _) =
    failure "AUTH_IO_FAILURE" "auth credential storage is unavailable"
static_projection_error (credential_clock_anomaly _) =
    failure "AUTH_CLOCK_ANOMALY" "auth file imported_at is in the future"
static_projection_error (journal_corrupt_projection _) =
    failure "AUTH_JOURNAL_CORRUPT" "refresh journal is corrupt; import a fresh browser credential"
static_projection_error (journal_io_failure_projection _) =
    failure "AUTH_JOURNAL_IO_FAILURE" "refresh journal storage is unavailable"
static_projection_error (journal_impossible_state _) =
    failure "AUTH_JOURNAL_INVALID" "refresh journal contains an invalid state"
static_projection_error _ = none

-- The credential, the raised error, or the `AssertionError` for a class that no case names.
pub data NetworkCredential : Type 0 where
  usable : StoredAuth → NetworkCredential
  refused : ProjectionError → NetworkCredential
  unexpected : NetworkCredential

abbrev refusal : Option ProjectionError → NetworkCredential
refusal (some e) = refused e
refusal none = unexpected

unfoldable pub network_credential : AuthProjection → NetworkCredential
network_credential (credential_ready auth) = usable auth
network_credential (rotation_reserved auth _) = usable auth
network_credential (rotation_in_progress auth _) = usable auth
network_credential (rotation_recovering auth _ _ _) = usable auth
network_credential (rotation_recovery_exhausted auth _ _ _) = usable auth
network_credential (reimport_rejected auth _ _) = usable auth
network_credential (reimport_unknown auth _ _) = usable auth
network_credential p = refusal (static_projection_error p)

-- `RefreshProjectionStatus`
pub record RefreshStatus : Type 0 where
  pub refresh_state : Option String
  pub reauth_required : Bool
  pub message : Option String

abbrev status : Option String → Bool → Option String → RefreshStatus
status s r m = record { refresh_state = s; reauth_required = r; message = m }

unfoldable pub refresh_projection_status : AuthProjection → RefreshStatus
refresh_projection_status (credential_ready _) = status none false none
refresh_projection_status (rotation_reserved _ _) = status (some "reserved") false none
refresh_projection_status (rotation_in_progress _ _) = status (some "requested") false none
refresh_projection_status (rotation_recovery_available _ _ _ _) = status (some "rotated") false (
    some
      "auth rotation recovery is pending; restart the service or import a fresh browser credential")
refresh_projection_status (rotation_recovering _ _ why _) =
    status (some "recovering") false (some ("refresh recovery is scheduled (" ⧺ (why ⧺ ")")))
refresh_projection_status (rotation_recovery_exhausted _ _ why _) =
    status (some "exhausted") true
      (some ("refresh recovery is exhausted (" ⧺ (why ⧺ "); import a fresh browser credential")))
refresh_projection_status (reimport_rejected _ _ why) =
    status (some "rejected") true
      (some ("refresh was rejected (" ⧺ (why ⧺ "); import a fresh browser credential")))
refresh_projection_status (reimport_unknown _ _ why) =
    status (some "outcome_unknown") true
      (some ("refresh outcome is unknown (" ⧺ (why ⧺ "); import a fresh browser credential")))
refresh_projection_status _ = status none true none
