-- ===== src/Scenarios/Retries.antt =====
-- A first refresh and its retries.
use enji_guard_cli.Prelude.{false, none, some, ◌≡◌, refl}
use enji_guard_cli.StateMachine.{requested}
use enji_guard_cli.Disk.{ok, Session}
use enji_guard_cli.Coordinator.Prepare.{prepare, dispatch}
use enji_guard_cli.Coordinator.Safety.{IsWritten}
use enji_guard_cli.Coordinator.Announcement.{dispatch_is_announced}
use enji_guard_cli.Store.{RotationAttempt, StoredAuth, journal_loaded}
use enji_guard_cli.Prelude.{◌+◌, ◌≤◌, ◌<◌, if◌then◌else◌}
use enji_guard_cli.Timestamps.{binary_format}
use enji_guard_cli.StateMachine.{
  RecoveryContinuation, safe_retry, safe_retry_delay, rejected, reserved, outcome_unknown,
  transition, authorize_recovery_dispatch, Step, moved, invalid_transition, persist_journal,
}
use enji_guard_cli.Prelude.{[], ◌∷◌}
use enji_guard_cli.Recovery.{
  next_recovery_attempt, deadline_passed, time_until, lane_kind, authorization, classed,
  with_continuation, next_of,
}
use enji_guard_cli.Recovery.Budget.{recovery_dispatch_reserved}
use enji_guard_cli.Recovery.Chain.{Life, dispatch_budget, redispatch_in_time}
use enji_guard_cli.Coordinator.Prepare.{wait_for_revision, recover_journal, Preparation}
use enji_guard_cli.Coordinator.Rules.{Ensures, AnyError}
use enji_guard_cli.Coordinator.Announcement.{rejected_revision_waits}
use enji_guard_cli.Disk.{Error}
use enji_guard_cli.Disk.{World, lost, err, post_dispatch_persistence}
use enji_guard_cli.Store.{StoredAuth, cookie}
use enji_guard_cli.Store.AuthFile.{stored_auth}
use enji_guard_cli.Coordinator.Commit.{commit_success}
use enji_guard_cli.Coordinator.Custody.{IsCustody, successor_retained}
use enji_guard_cli.Scenarios.Fixtures.{first, retried, owner, IsCounted-retried}
use enji_guard_cli.Scenarios.Fixtures.{auth, world, start}

abbrev after_prepare : Session
after_prepare = (prepare none world start).1

first_refresh : prepare none world start ≡ (ok (dispatch auth), after_prepare)
unfolding prepare enji_guard_cli.Coordinator.Outcomes.locked enji_guard_cli.Disk.◌>>=◌
    enji_guard_cli.Disk.ask enji_guard_cli.Disk.Files.load_auth
    enji_guard_cli.Coordinator.Outcomes.loaded_or_raise enji_guard_cli.Store.AuthFile.parse_auth
    enji_guard_cli.Json.get enji_guard_cli.Json.get_or enji_guard_cli.Store.AuthFile.auth_fields
    enji_guard_cli.Store.AuthFile.credential_metadata enji_guard_cli.Timestamps.digits
    enji_guard_cli.Store.AuthFile.validate_imported_at enji_guard_cli.Timestamps.undigits
    enji_guard_cli.Store.AuthFile.parse_credential enji_guard_cli.Disk.pure enji_guard_cli.Disk.◌>>◌
    enji_guard_cli.Coordinator.Prepare.recover_or_wait enji_guard_cli.Disk.Files.load_journal
    enji_guard_cli.Disk.lift enji_guard_cli.Coordinator.Outcomes.drain_outbox
    enji_guard_cli.Disk.Files.load_outbox enji_guard_cli.Coordinator.Prepare.recovery_deadline
    enji_guard_cli.Recovery.recovery_deadline_at enji_guard_cli.Coordinator.Prepare.prepare_dispatch
    enji_guard_cli.StateMachine.transition enji_guard_cli.Disk.Files.write_journal
    enji_guard_cli.Disk.Files.change enji_guard_cli.Store.Journal.journal_payload
    enji_guard_cli.Recovery.owned_by
first_refresh = refl

dispatch_is_announced_example :
    (attempt : RotationAttempt) × IsWritten (requested "r1") attempt after_prepare.disk.journal
dispatch_is_announced_example =
    dispatch_is_announced none world start after_prepare auth first_refresh

rejected_revision_waits_example :
    Ensures
      (λ p s. p ≡ some (wait_for_revision "r1"))
      AnyError
      (recover_journal auth (journal_loaded (rejected "r1" "HTTP 401") false (some first) none))
rejected_revision_waits_example = rejected_revision_waits auth "HTTP 401" false none (some first)

-- At time 20000000 the retry is due.
abbrev second : RotationAttempt
second = next_of retried safe_retry

second_chosen : next_recovery_attempt binary_format retried 20000000 ≡ some second
unfolding next_recovery_attempt classed with_continuation
    enji_guard_cli.Recovery.continuation_available enji_guard_cli.Recovery.owned_by
    enji_guard_cli.Recovery.parse_deadline enji_guard_cli.Timestamps.undigits
    enji_guard_cli.Timestamps.digits deadline_passed
second_chosen = refl

cooled_down : time_until binary_format retried.next_attempt_at 20000002 ≡ 0
unfolding time_until classed with_continuation enji_guard_cli.Recovery.continuation_available
    enji_guard_cli.Recovery.owned_by enji_guard_cli.Recovery.parse_deadline
    enji_guard_cli.Timestamps.undigits enji_guard_cli.Timestamps.digits
cooled_down = refl

recovery_dispatch_reserved_example :
    (c : RecoveryContinuation) × (second.attempt_kind ≡ lane_kind c)
    × (transition
          (outcome_unknown "r1" "HTTP 502")
          (authorize_recovery_dispatch (authorization binary_format second c 20000001 20000002))
        ≡ (if deadline_passed binary_format retried.recovery_deadline 20000001
            then invalid_transition
            else moved
                (record { state = reserved "r1"; effects = persist_journal (reserved "r1") ∷ [] })))
recovery_dispatch_reserved_example =
    recovery_dispatch_reserved binary_format retried second 20000000 20000001 20000002 "r1"
      "HTTP 502" IsCounted-retried second_chosen cooled_down

once : Life binary_format "r1" (binary_format.isoformat 900000000) 1 retried
once = Life.unknown safe_retry (binary_format.isoformat 900000000) 2 none (Life.dispatch owner)

dispatch_budget_example :
    (1 ≤ 6)
    × (1
        ≡ 1 + retried.safe_retry_count + retried.validation_retry_count
          + retried.ambiguity_replay_count)
    × (retried.safe_retry_count ≤ 4)
    × (retried.validation_retry_count ≤ 1)
    × (retried.ambiguity_replay_count ≤ 1)
unfolding enji_guard_cli.Timestamps.digits
dispatch_budget_example =
    dispatch_budget binary_format "r1" (binary_format.isoformat 900000000) 1 retried refl once

redispatch_in_time_example :
    (1 < 6)
    × (deadline_passed binary_format (some (binary_format.isoformat 900000000)) 20000000 ≡ false)
unfolding enji_guard_cli.Timestamps.digits
redispatch_in_time_example =
    redispatch_in_time binary_format "r1" (binary_format.isoformat 900000000) 1 retried second
      20000000 refl once second_chosen

-- The lock cannot be taken after the exchange.
abbrev failing : World
failing = record world { fate = λ n. lost }

abbrev unsaved : StoredAuth
unsaved = stored_auth binary_format 1 "https://enji.example" (cookie "refresh=b") "fresh"

abbrev after_failure : Session
after_failure = (commit_success auth "refresh=b" failing start).1

lock_fails :
    commit_success auth "refresh=b" failing start
    ≡ (err (post_dispatch_persistence "r1" unsaved), after_failure)
unfolding commit_success enji_guard_cli.Coordinator.Outcomes.locked enji_guard_cli.Disk.◌>>=◌
    enji_guard_cli.Disk.ask enji_guard_cli.Disk.raise
lock_fails = refl

successor_retained_example : IsCustody auth "refresh=b" (post_dispatch_persistence "r1" unsaved)
successor_retained_example =
    successor_retained auth "refresh=b" failing start after_failure
      (post_dispatch_persistence "r1" unsaved) lock_fails
