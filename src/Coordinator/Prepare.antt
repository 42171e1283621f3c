-- ===== src/Coordinator/Prepare.antt =====
-- auth_session/coordinator.py: `_prepare` and the recovery of an earlier journal
-- (`_recover_or_wait`, `_recover_matching_state`, `_recover_requested`, `_recover_rotated`,
-- `_recover_unknown`, `_prepare_dispatch`).
use enji_guard_cli.Prelude.{
  ℕ, String, ◌⧺◌, Bool, true, false, Option, none, some, ◌=s◌, ◌==◌, if◌then◌else◌,
}
use enji_guard_cli.StateMachine.{
  RotationState, ready, reserved, requested, rotated, rejected, outcome_unknown, source_revision,
  Terminal, Step, moved, invalid_transition, transition, begin, dispatch_begun,
  authorize_recovery_dispatch, RecoveryContinuation, ambiguity_replay, safe_retry,
  validation_recovery,
}
use enji_guard_cli.Store.{
  Credential, cookie, bearer_token, StoredAuth, AttemptKind, Continuation, RotationAttempt,
  attempt_of, JournalLoadResult, journal_absent, journal_corrupt, journal_io_failure,
  journal_loaded, CasResult, cas_written, cas_superseded,
}
use enji_guard_cli.Recovery.{
  RefreshOwner, attempt_owner, with_continuation, next_recovery_attempt, time_until,
  recovery_deadline_at, owned_by, exhausted, authorization, kind_lane,
}
use enji_guard_cli.Disk.{
  os_error, invalid_transition_error, assertion_error, type_error, enji_error, recovery_required, M,
  ◌>>=◌, ◌>>◌, pure, raise, ask, lift,
}
use enji_guard_cli.Disk.Files.{
  load_auth, load_journal, write_journal, delete_journal, cas_replace_cookie,
}
use enji_guard_cli.Coordinator.Outcomes.{
  locked, loaded_or_raise, drain_outbox, record_terminal_outcome, discard_rotation_state,
}

-- `_Dispatch`, `_ReturnAuth`, `_WaitForRevision`
pub data Preparation : Type 0 where
  dispatch : StoredAuth → Preparation
  return_auth : StoredAuth → Preparation
  wait_for_revision : String → Preparation

unfoldable pub read_clock : M ℕ
read_clock = ask (λ w n. w.now n)

unfoldable pub recovery_deadline : M String
recovery_deadline = ask (λ w n. recovery_deadline_at w.iso (w.now n))

abbrev pub stepped : Step → M RotationState
stepped (moved t) = pure t.state
stepped invalid_transition = raise invalid_transition_error

-- `assert isinstance(state, Reserved)`, and the same for the other states
abbrev pub assert_reserved : RotationState → M (Unit {0})
assert_reserved (reserved _) = pure tt
assert_reserved _ = raise assertion_error

abbrev pub assert_requested : RotationState → M (Unit {0})
assert_requested (requested _) = pure tt
assert_requested _ = raise assertion_error

-- The transition to a reservation: a recovery must be authorized, a first dispatch begins. The
-- clock is read for the deadline and for the cooldown. A `normal` attempt has no lane to look up:
-- the error stands for the `KeyError`.
abbrev pub authorize : StoredAuth → RotationAttempt → Option RotationState → M Step
authorize current attempt none = pure (transition (ready current.revision) (begin current.revision))
authorize current attempt (some state) = do
  now ← read_clock
  later ← read_clock
  c ← lift type_error (kind_lane attempt.attempt_kind)
  ask (λ w n.
      transition state (authorize_recovery_dispatch (authorization w.iso attempt c now later)))

-- Both journals are written before the dispatch is returned.
unfoldable pub prepare_dispatch :
    StoredAuth → RotationAttempt → Option RotationState → M Preparation
prepare_dispatch current attempt recovery_state = do
  answer ← ask (λ w n. w.owner n)
  owner ← lift os_error answer
  let owned = owned_by attempt owner
  authorized ← authorize current attempt recovery_state
  reservation ← stepped authorized
  assert_reserved reservation
  write_journal reservation false owned
  request ← stepped (transition reservation dispatch_begun)
  assert_requested request
  write_journal request false owned
  pure (dispatch current)

-- `cast(RecoveryContinuation, next_attempt.continuation)`, with its assertion
abbrev pub pending_lane : Option Continuation → Option RecoveryContinuation
pending_lane (some Continuation.safe_retry) = some safe_retry
pending_lane (some Continuation.validation_recovery) = some validation_recovery
pending_lane (some Continuation.ambiguity_replay) = some ambiguity_replay
pending_lane _ = none

abbrev pub resume_after :
    StoredAuth → String → String → RotationAttempt → ℕ → M (Option Preparation)
resume_after current src why next wait =
    if wait == 0
    then (do p ← prepare_dispatch current next (some (outcome_unknown src why)); pure (some p))
    else (do
      c ← lift assertion_error (pending_lane next.continuation)
      raise (recovery_required src c wait))

abbrev pub resume :
    StoredAuth → String → String → RotationAttempt → Option RotationAttempt → M (Option Preparation)
resume current src why attempt none = do
  write_journal (outcome_unknown src why) false (exhausted attempt)
  pure (some (wait_for_revision src))
resume current src why attempt (some next) = do
  wait ← ask (λ w n. time_until w.iso next.next_attempt_at (w.now n))
  resume_after current src why next wait

-- The clock is read whether the deadline's test needs it or not.
unfoldable pub recover_unknown :
    StoredAuth → String → String → RotationAttempt → M (Option Preparation)
recover_unknown current src why attempt = do
  next ← ask (λ w n. next_recovery_attempt w.iso attempt (w.now n))
  resume current src why attempt next

abbrev pub still_owned : Option RefreshOwner → M Bool
still_owned none = pure false
still_owned (some owner) = ask (λ w n. w.alive n owner)

abbrev pub interruption : String
interruption = "interrupted after refresh dispatch"

-- The journal of an interrupted request becomes an unknown outcome with one ambiguity replay.
abbrev pub interrupted : StoredAuth → String → RotationAttempt → Bool → M (Option Preparation)
interrupted current src attempt true = pure (some (wait_for_revision src))
interrupted current src attempt false = do
  deadline ← recovery_deadline
  next ← ask (λ w n. with_continuation w.iso attempt ambiguity_replay deadline (w.now n))
  write_journal (outcome_unknown src interruption) false next
  record_terminal_outcome (Terminal.outcome_unknown src interruption) next false
  recover_unknown current src interruption next

unfoldable pub recover_requested : StoredAuth → String → RotationAttempt → M (Option Preparation)
recover_requested current src attempt = do
  alive ← still_owned (attempt_owner attempt)
  interrupted current src attempt alive

abbrev pub after_cas : Terminal → RotationAttempt → Bool → CasResult → M StoredAuth
after_cas t attempt outbox_enqueued (cas_written auth) = do
  record_terminal_outcome t attempt outbox_enqueued
  pure auth
after_cas t attempt outbox_enqueued (cas_superseded _) = do
  loaded ← load_auth
  loaded_or_raise loaded

unfoldable pub recover_rotated : String → String → String → RotationAttempt → Bool → M StoredAuth
recover_rotated src header successor attempt outbox_enqueued = do
  recovered ← cas_replace_cookie src header successor
  after_cas (Terminal.rotated src header successor) attempt outbox_enqueued recovered

unfoldable pub recover_matching_state :
    StoredAuth → RotationState → RotationAttempt → Bool → M (Option Preparation)
recover_matching_state current (ready r) attempt flag = raise assertion_error
recover_matching_state current (rotated src header successor) attempt flag = do
  auth ← recover_rotated src header successor attempt flag
  pure (some (return_auth auth))
recover_matching_state current (reserved src) attempt flag = do delete_journal; pure none
recover_matching_state current (requested src) attempt flag = recover_requested current src attempt
recover_matching_state current (outcome_unknown src why) attempt flag = do
  record_terminal_outcome (Terminal.outcome_unknown src why) attempt flag
  recover_unknown current src why attempt
recover_matching_state current (rejected src why) attempt flag = do
  record_terminal_outcome (Terminal.rejected src why) attempt flag
  pure (some (wait_for_revision src))

-- The state is about the stored revision, or is dropped.
abbrev pub recover_source :
    StoredAuth → RotationState → RotationAttempt → Bool → M (Option Preparation)
recover_source current state attempt flag =
    if source_revision state =s current.revision
    then recover_matching_state current state attempt flag
    else (do discard_rotation_state state flag; pure none)

-- A rotated state whose successor is already stored is only reported.
abbrev pub recover_state :
    StoredAuth → RotationState → RotationAttempt → Bool → M (Option Preparation)
recover_state current (ready r) attempt flag =
    raise (enji_error "STORAGE" "refresh journal contains an invalid ready state")
recover_state current (rotated src header successor) attempt flag =
    if successor =s current.revision
    then (do
      record_terminal_outcome (Terminal.rotated src header successor) attempt flag
      pure (some (return_auth current)))
    else recover_source current (rotated src header successor) attempt flag
recover_state current state attempt flag = recover_source current state attempt flag

abbrev pub recover_journal : StoredAuth → JournalLoadResult → M (Option Preparation)
recover_journal current (journal_corrupt detail) =
    raise (enji_error "STORAGE" ("refresh journal is corrupt: " ⧺ detail))
recover_journal current (journal_io_failure e) =
    raise (enji_error "STORAGE" ("read refresh journal failed: " ⧺ e))
recover_journal current journal_absent = pure none
recover_journal current (journal_loaded state flag none migrated) =
    raise (enji_error "STORAGE" "refresh journal is missing its recovery budget")
recover_journal current (journal_loaded state flag (some attempt) migrated) =
    recover_state current state attempt flag

unfoldable pub recover_or_wait : StoredAuth → M (Option Preparation)
recover_or_wait current = do journal ← load_journal; recover_journal current journal

abbrev pub is_expected : StoredAuth → Option StoredAuth → Bool
is_expected current none = true
is_expected current (some expected) = current.revision =s expected.revision

abbrev pub first_dispatch : StoredAuth → M Preparation
first_dispatch current = do
  deadline ← recovery_deadline
  let base = attempt_of current.revision AttemptKind.normal 1
  prepare_dispatch current (record base { recovery_deadline = some deadline }) none

abbrev pub prepare_rest : StoredAuth → Option StoredAuth → Option Preparation → M Preparation
prepare_rest current expected (some p) = pure p
prepare_rest current expected none = do
  drain_outbox
  (if is_expected current expected then first_dispatch current else pure (return_auth current))

abbrev pub require_cookie : Credential → M (Unit {0})
require_cookie (cookie _) = pure tt
require_cookie (bearer_token _) =
    raise (enji_error "AUTH_REQUIRED" "stored credential is not cookie based")

unfoldable pub prepare : Option StoredAuth → M Preparation
prepare expected = locked (do
  loaded ← load_auth
  current ← loaded_or_raise loaded
  require_cookie current.credential
  found ← recover_or_wait current
  prepare_rest current expected found)
