-- ===== src/Coordinator/Announcement.antt =====
-- auth_session/coordinator.py: `_prepare` and the recoveries it calls return a dispatch only with
-- its request in the journal; a rejected revision is never dispatched again.
use enji_guard_cli.Coordinator.Permits.{Permits, PermitsJournal, prepare-Announced}
use enji_guard_cli.Audit.Improvements.{written}
use enji_guard_cli.Prelude.{ℕ, String, Bool, Option, none, some, ◌=s◌, ◌≡◌, refl}
use enji_guard_cli.Prelude.{subst}
use enji_guard_cli.Disk.{World, Result, ok}
use enji_guard_cli.Coordinator.Rules.{Holds}
use enji_guard_cli.Coordinator.Safety.{IsWritten}
use enji_guard_cli.Prelude.{=s_refl}
use enji_guard_cli.StateMachine.{
  RotationState, ready, reserved, requested, rotated, rejected, outcome_unknown,
}
use enji_guard_cli.Store.{
  StoredAuth, RotationAttempt, JournalLoadResult, journal_absent, journal_corrupt,
  journal_io_failure, journal_loaded,
}
use enji_guard_cli.Disk.{Session, ◌>>◌}
use enji_guard_cli.Coordinator.Outcomes.{record_terminal_outcome}
use enji_guard_cli.Coordinator.Prepare.{
  Preparation, dispatch, wait_for_revision, recover_matching_state, recover_journal, prepare,
}
use enji_guard_cli.Coordinator.Rules.{
  Ensures, ensures_if, AnyError, ensures_raise, ensures_pure, after_any,
}
use enji_guard_cli.Coordinator.Safety.{Announced}

any_permitted :
    (j : JournalLoadResult) (current : StoredAuth) → PermitsJournal (λ a b. Unit {0}) current j
any_permitted journal_absent current = λ a o. tt
any_permitted (journal_corrupt d) current = tt
any_permitted (journal_io_failure d) current = tt
any_permitted (journal_loaded state flag none migrated) current = tt
any_permitted (journal_loaded state flag (some attempt) migrated) current =
    (λ h. of_state state attempt, λ h a o. tt)
  where
    of_state :
        (state : RotationState) (attempt : RotationAttempt)
        → Permits (λ a b. Unit {0}) current state attempt
    of_state (ready r) attempt = tt
    of_state (reserved src) attempt = λ a o. tt
    of_state (requested src) attempt = λ iso deadline now later b clock e o. tt
    of_state (outcome_unknown src why) attempt = λ iso b now e o. tt
    of_state (rejected src why) attempt = tt
    of_state (rotated src header next) attempt = tt

announced_in :
    (r : Result Preparation × Session) (auth : StoredAuth) (s : Session)
    → r ≡ (ok (dispatch auth), s)
    → Holds (Announced (λ a b. Unit {0})) AnyError r
    → (attempt : RotationAttempt) × IsWritten (requested auth.revision) attempt s.disk.journal
unfolding Announced
announced_in r auth s h k =
    let (attempt, _, written) = subst (λ x. Holds (Announced (λ a b. Unit {0})) AnyError x) h k in
    (attempt, written)

-- Whatever the files and the world are, if `_prepare` returns a dispatch, the journal file then
-- holds the payload of the request for the revision of the credential it dispatches, with its attempt.
pub dispatch_is_announced :
    (expected : Option StoredAuth) (w : World) (s s' : Session) (auth : StoredAuth)
    → prepare expected w s ≡ (ok (dispatch auth), s')
    → (attempt : RotationAttempt) × IsWritten (requested auth.revision) attempt s'.disk.journal
dispatch_is_announced expected w s s' auth h =
    announced_in _ auth s' h
      (prepare-Announced (λ a b. Unit {0}) expected w s (λ j e current. any_permitted j current))

-- A journal that says that the stored revision is rejected is answered by waiting for another
-- revision, or by an error, whatever its attempt, its flag, the files and the world are.
pub rejected_revision_waits :
    (current : StoredAuth) (why : String) (flag : Bool) (migrated : Option ℕ)
    (attempt : Option RotationAttempt)
    → Ensures
        (λ p s. p ≡ some (wait_for_revision current.revision))
        AnyError
        (recover_journal current
          (journal_loaded (rejected current.revision why) flag attempt migrated))
unfolding ◌>>◌ recover_matching_state
rejected_revision_waits current why flag migrated none = ensures_raise _ tt
rejected_revision_waits current why flag migrated (some attempt) =
    ensures_if (current.revision =s current.revision)
      (λ h. after_any (record_terminal_outcome _ _ _) _ (λ a. ensures_pure _ (λ s. refl)))
      (λ h. cc (h, =s_refl current.revision))
