-- ===== src/Coordinator/Startup.antt =====
-- auth_session/coordinator.py: `_recover_startup`, `_recover_startup_journal`, and
-- `project_retained_successor` with its helpers.
use enji_guard_cli.Prelude.{String, Bool, true, false, Option, none, some, ◌=s◌, if◌then◌else◌}
use enji_guard_cli.StateMachine.{
  RotationState, ready, reserved, requested, rotated, rejected, outcome_unknown, source_revision,
  Terminal, transition, exchange_outcome_unknown, ambiguity_replay,
}
use enji_guard_cli.Store.{
  Credential, cookie, bearer_token, StoredAuth, RotationAttempt, AuthLoadResult, auth_loaded,
  JournalLoadResult, journal_loaded, CasResult, cas_written, cas_superseded,
}
use enji_guard_cli.Recovery.{attempt_owner, with_continuation, without_owner}
use enji_guard_cli.Disk.{enji_error, M, ◌>>=◌, ◌>>◌, pure, raise, ask}
use enji_guard_cli.Disk.Files.{
  load_auth, load_journal, write_journal, delete_journal, cas_replace_cookie,
}
use enji_guard_cli.Coordinator.Outcomes.{
  locked, drain_outbox, record_terminal_outcome, discard_rotation_state,
}
use enji_guard_cli.Coordinator.Prepare.{stepped, still_owned, recovery_deadline, recover_rotated}
use enji_guard_cli.Coordinator.Commit.{as_terminal, attempt_for_source}

-- The owner of an interrupted request is alive, or its outcome is recorded as unknown.
abbrev pub abandoned : StoredAuth → String → RotationAttempt → Bool → M StoredAuth
abandoned current src attempt true = pure current
abandoned current src attempt false = do
  unknown ← stepped (
      transition (requested src) (exchange_outcome_unknown "process exited after refresh dispatch"))
  t ← as_terminal unknown
  deadline ← recovery_deadline
  next ← ask (λ w n. with_continuation w.iso attempt ambiguity_replay deadline (w.now n))
  write_journal unknown false next
  record_terminal_outcome t next false
  pure current

-- The branches for a state of the stored revision.
abbrev pub startup_current : StoredAuth → RotationState → RotationAttempt → Bool → M StoredAuth
startup_current current (ready r) attempt flag =
    raise (enji_error "STORAGE" "refresh journal contains an invalid ready state")
startup_current current (rotated src header next) attempt flag =
    recover_rotated src header next attempt flag
startup_current current (reserved src) attempt flag = do delete_journal; pure current
startup_current current (requested src) attempt flag = do
  alive ← still_owned (attempt_owner attempt)
  abandoned current src attempt alive
startup_current current (rejected src why) attempt flag = do
  record_terminal_outcome (Terminal.rejected src why) attempt flag
  pure current
startup_current current (outcome_unknown src why) attempt flag = do
  record_terminal_outcome (Terminal.outcome_unknown src why) attempt flag
  pure current

abbrev pub startup_source : StoredAuth → RotationState → RotationAttempt → Bool → M StoredAuth
startup_source current state attempt flag =
    if source_revision state =s current.revision
    then startup_current current state attempt flag
    else (do discard_rotation_state state flag; pure current)

abbrev pub startup_state : StoredAuth → RotationState → RotationAttempt → Bool → M StoredAuth
startup_state current (ready r) attempt flag =
    raise (enji_error "STORAGE" "refresh journal contains an invalid ready state")
startup_state current (rotated src header next) attempt flag =
    if next =s current.revision
    then (do record_terminal_outcome (Terminal.rotated src header next) attempt flag; pure current)
    else startup_source current (rotated src header next) attempt flag
startup_state current state attempt flag = startup_source current state attempt flag

-- A journal that cannot be read is passed over.
abbrev pub startup_journal : StoredAuth → JournalLoadResult → M StoredAuth
startup_journal current (journal_loaded state flag none migrated) =
    raise (enji_error "STORAGE" "refresh journal is missing its recovery budget")
startup_journal current (journal_loaded state flag (some attempt) migrated) =
    startup_state current state attempt flag
startup_journal current _ = pure current

abbrev pub startup_loaded : AuthLoadResult → M (Option StoredAuth)
startup_loaded (auth_loaded current) = do
  drain_outbox
  journal ← load_journal
  auth ← startup_journal current journal
  pure (some auth)
startup_loaded _ = pure none

unfoldable pub recover_startup : M (Option StoredAuth)
recover_startup = locked (do loaded ← load_auth; startup_loaded loaded)

-- `RetainedRefreshSuccessor`
pub record RetainedSuccessor : Type 0 where
  pub source_revision : String
  pub auth : StoredAuth

-- `RetainedSuccessorProjection`
pub data Projected : Type 0 where
  projected : StoredAuth → Projected
  superseded : Option String → Projected

unfoldable pub projected_auth_or_none : AuthLoadResult → RetainedSuccessor → Option StoredAuth
projected_auth_or_none (auth_loaded auth) r =
    if auth.revision =s r.auth.revision then some auth else none
projected_auth_or_none _ r = none

abbrev pub current_revision : AuthLoadResult → Option String
current_revision (auth_loaded auth) = some auth.revision
current_revision _ = none

abbrev pub retained_header : Credential → M String
retained_header (cookie header) = pure header
retained_header (bearer_token _) =
    raise (enji_error "AUTH_UNSUPPORTED" "retained refresh successor is not cookie based")

abbrev pub is_source : AuthLoadResult → String → Bool
is_source (auth_loaded auth) src = auth.revision =s src
is_source _ src = false

abbrev pub after_projection : Terminal → RotationAttempt → CasResult → M Projected
after_projection t attempt (cas_written auth) = do
  record_terminal_outcome t attempt false
  pure (projected auth)
after_projection t attempt (cas_superseded r) = pure (superseded r)

abbrev pub project_stored :
    AuthLoadResult → RetainedSuccessor → String → RotationAttempt → Option StoredAuth → M Projected
project_stored loaded r header attempt (some auth) = do
  record_terminal_outcome (Terminal.rotated r.source_revision header r.auth.revision) attempt false
  pure (projected auth)
project_stored loaded r header attempt none =
    if is_source loaded r.source_revision
    then (do
      write_journal (rotated r.source_revision header r.auth.revision) false attempt
      result ← cas_replace_cookie r.source_revision header r.auth.revision
      after_projection (Terminal.rotated r.source_revision header r.auth.revision) attempt result)
    else pure (superseded (current_revision loaded))

unfoldable pub project_retained_successor : RetainedSuccessor → M Projected
project_retained_successor r = locked (do
  loaded ← load_auth
  header ← retained_header r.auth.credential
  before ← attempt_for_source r.source_revision
  project_stored loaded r header (without_owner before) (projected_auth_or_none loaded r))
