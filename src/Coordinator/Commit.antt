-- ===== src/Coordinator/Commit.antt =====
-- auth_session/coordinator.py: what is written after an exchange (`_commit_response`,
-- `_commit_success`, `_commit_rejected`, `_commit_unknown`, `_attempt_for_source`,
-- `_is_superseded`) and `import_credential`. The coordinator has no event sink, so
-- `_emit_refresh_observation` returns at once. The number of a status in a reason and the class of
-- a response are texts that the world's printer makes: they are arguments.
use enji_guard_cli.Prelude.{String, Bool, true, false, Option, none, some, ◌=s◌, not, if◌then◌else◌}
use enji_guard_cli.StateMachine.{
  RotationState, ready, requested, rotated, rejected, outcome_unknown, source_revision, Terminal,
  transition, exchange_succeeded, exchange_rejected, exchange_outcome_unknown, RecoveryContinuation,
  safe_retry, validation_recovery, ambiguity_replay,
}
use enji_guard_cli.Store.{
  cookie, StoredAuth, AttemptKind, Continuation, RotationAttempt, attempt_of, AuthLoadResult,
  auth_loaded, JournalLoadResult, journal_loaded, CasResult, cas_written, cas_superseded,
}
use enji_guard_cli.Store.AuthFile.{stored_auth}
use enji_guard_cli.Recovery.{with_continuation, without_owner, classed}
use enji_guard_cli.Disk.{
  os_error, assertion_error, terminal_revision_required, recovery_required,
  post_dispatch_persistence, Result, err, M, ◌>>=◌, ◌>>◌, pure, raise, ask,
}
use enji_guard_cli.Disk.Files.{
  load_auth, load_journal, write_auth_file, write_journal, delete_journal, cas_replace_cookie,
}
use enji_guard_cli.Coordinator.Outcomes.{
  locked, loaded_or_raise, record_terminal_outcome, enqueue_if_terminal,
}
use enji_guard_cli.Coordinator.Prepare.{stepped, recovery_deadline}
use enji_guard_cli.Coordinator.Response.{Response, response_continuation, successful_replacement}

abbrev superseded_by : String → AuthLoadResult → Bool
superseded_by src (auth_loaded auth) = not (auth.revision =s src)
superseded_by src _ = true

unfoldable pub is_superseded : String → M Bool
is_superseded src = do loaded ← load_auth; pure (superseded_by src loaded)

abbrev attempt_in : String → JournalLoadResult → RotationAttempt
attempt_in src (journal_loaded (ready _) flag attempt migrated) =
    attempt_of src AttemptKind.normal 1
attempt_in src (journal_loaded state flag (some attempt) migrated) =
    if source_revision state =s src then attempt else attempt_of src AttemptKind.normal 1
attempt_in src _ = attempt_of src AttemptKind.normal 1

unfoldable pub attempt_for_source : String → M RotationAttempt
attempt_for_source src = do journal ← load_journal; pure (attempt_in src journal)

-- The stored credential, which is newer than the work.
abbrev pub newer : M StoredAuth
newer = do loaded ← load_auth; loaded_or_raise loaded

abbrev pub as_terminal : RotationState → M Terminal
as_terminal (rotated src header next) = pure (Terminal.rotated src header next)
as_terminal (rejected src why) = pure (Terminal.rejected src why)
as_terminal (outcome_unknown src why) = pure (Terminal.outcome_unknown src why)
as_terminal _ = raise assertion_error

-- `none` where the credential was not superseded and the outcome is written.
abbrev reject_current : String → String → Bool → M (Option StoredAuth)
reject_current src why true = do auth ← newer; pure (some auth)
reject_current src why false = do
  state ← stepped (transition (requested src) (exchange_rejected why))
  t ← as_terminal state
  before ← attempt_for_source src
  let attempt = without_owner before
  write_journal state false attempt
  record_terminal_outcome t attempt false
  pure none

abbrev or_reimport : String → Option StoredAuth → M StoredAuth
or_reimport src (some auth) = pure auth
or_reimport src none =
    raise (terminal_revision_required src "stored refresh cookie is not authenticated")

unfoldable pub commit_rejected : String → String → M StoredAuth
commit_rejected src why = do
  result ← locked (do stale ← is_superseded src; reject_current src why stale)
  or_reimport src result

abbrev is_stopped : RotationAttempt → Bool
is_stopped a = elim a.continuation [ some Continuation.stop ↦ true | _ ↦ false ]

-- The newer credential, or the attempt that was written.
pub data Unknown : Type 0 where
  superseded : StoredAuth → Unknown
  committed : RotationAttempt → Unknown

abbrev unknown_current : String → String → RecoveryContinuation → Option String → Bool → M Unknown
unknown_current src why c label true = do auth ← newer; pure (superseded auth)
unknown_current src why c label false = do
  state ← stepped (transition (requested src) (exchange_outcome_unknown why))
  t ← as_terminal state
  before ← attempt_for_source src
  deadline ← recovery_deadline
  continued ← ask (λ w n. with_continuation w.iso before c deadline (w.now n))
  let attempt = classed continued label
  write_journal state false attempt
  record_terminal_outcome t attempt false
  pure (committed attempt)

abbrev or_recover : String → RecoveryContinuation → Unknown → M StoredAuth
or_recover src c (superseded auth) = pure auth
or_recover src c (committed attempt) =
    if is_stopped attempt
    then raise (
        terminal_revision_required src
          "refresh recovery is exhausted; import a fresh browser credential")
    else raise (recovery_required src c 0)

-- `label` is the class of the response, if there was one.
unfoldable pub commit_unknown :
    String → String → RecoveryContinuation → Option String → M StoredAuth
commit_unknown src why c label = do
  result ← locked (do stale ← is_superseded src; unknown_current src why c label stale)
  or_recover src c result

abbrev pub after_success : Terminal → RotationAttempt → CasResult → M StoredAuth
after_success t attempt (cas_written auth) = do record_terminal_outcome t attempt false; pure auth
after_success t attempt (cas_superseded _) = newer

abbrev pub rotate_current : String → String → String → Bool → M StoredAuth
rotate_current src header successor true = newer
rotate_current src header successor false = do
  state ← stepped (transition (requested src) (exchange_succeeded header successor))
  t ← as_terminal state
  before ← attempt_for_source src
  let attempt = without_owner before
  write_journal state false attempt
  result ← cas_replace_cookie src header successor
  after_success t attempt result

-- `except (OSError, TimeoutError)`: the successor is retained in memory.
abbrev pub retaining : String → StoredAuth → Result StoredAuth → Result StoredAuth
retaining src successor (err os_error) = err (post_dispatch_persistence src successor)
retaining src successor r = r

abbrev pub keep_successor : String → StoredAuth → M StoredAuth → M StoredAuth
keep_successor src successor body w s = let (r, s') = body w s in (retaining src successor r, s')

unfoldable pub commit_success : StoredAuth → String → M StoredAuth
commit_success source header = do
  fresh ← ask (λ w n. w.uuid n)
  successor ← ask (λ w n. stored_auth w.iso (w.now n) source.base_url (cookie header) fresh)
  keep_successor source.revision successor (
      locked (do
        stale ← is_superseded source.revision
        rotate_current source.revision header fresh stale))

abbrev commit_failure : StoredAuth → String → String → Option String → Continuation → M StoredAuth
commit_failure source refused why label Continuation.stop = commit_rejected source.revision refused
commit_failure source refused why label Continuation.safe_retry =
    commit_unknown source.revision why safe_retry label
commit_failure source refused why label Continuation.validation_recovery =
    commit_unknown source.revision why validation_recovery label
commit_failure source refused why label Continuation.ambiguity_replay =
    commit_unknown source.revision why ambiguity_replay label

abbrev commit_replacement :
    StoredAuth → Response → String → String → Option String → Option String → M StoredAuth
commit_replacement source r refused why label (some header) = commit_success source header
commit_replacement source r refused why label none =
    commit_failure source refused why label (response_continuation r)

-- `refused` and `why` are the reasons with the status printed in them.
unfoldable pub commit_response :
    StoredAuth → Response → String → String → Option String → M StoredAuth
commit_response source r refused why label =
    commit_replacement source r refused why label (successful_replacement source.credential r)

abbrev enqueue_loaded : JournalLoadResult → M (Unit {0})
enqueue_loaded (journal_loaded state flag attempt migrated) = enqueue_if_terminal state flag
enqueue_loaded _ = pure tt

unfoldable pub import_credential : StoredAuth → M StoredAuth
import_credential auth = locked (do
  write_auth_file auth
  journal ← load_journal
  enqueue_loaded journal
  delete_journal
  pure auth)
