-- ===== src/Coordinator/Permits.antt =====
-- auth_session/coordinator.py: what `_prepare` may dispatch, by the journal that it reads.
use enji_guard_cli.Coordinator.Safety.{Fresh}
use enji_guard_cli.StateMachine.{Terminal}
use enji_guard_cli.Coordinator.Rules.{ensures_with}
use enji_guard_cli.StateMachine.{ambiguity_replay}
use enji_guard_cli.Prelude.{◌≢◌}
use enji_guard_cli.Timestamps.{IsoFormat}
use enji_guard_cli.Recovery.{with_continuation, next_recovery_attempt}
use enji_guard_cli.Coordinator.Prepare.{interruption}
use enji_guard_cli.Coordinator.Safety.{Owned}
use enji_guard_cli.Coordinator.Given.{
  given_bind, given_with, given_then, given_locked, reads_auth, loaded_reads, cookie_reads,
  reads_journal,
}
use enji_guard_cli.Disk.Files.{journal_of}
use enji_guard_cli.Prelude.{
  ℕ, String, Bool, true, false, Option, none, some, ◌=s◌, ◌≡◌, refl, =s_iff, ◌==◌,
}
use enji_guard_cli.Coordinator.Prepare.{recovery_deadline, still_owned, is_expected}
use enji_guard_cli.Prelude.{subst, sym}
use enji_guard_cli.Disk.{World}
use enji_guard_cli.Coordinator.Rules.{Holds}
use enji_guard_cli.StateMachine.{
  RotationState, ready, reserved, requested, rotated, rejected, outcome_unknown, source_revision,
}
use enji_guard_cli.Store.{
  StoredAuth, RotationAttempt, JournalLoadResult, journal_absent, journal_corrupt,
  journal_io_failure, journal_loaded,
}
use enji_guard_cli.Recovery.{attempt_owner}
use enji_guard_cli.Disk.{Session, M, ◌>>=◌, ◌>>◌, pure, lift, assertion_error, ask}
use enji_guard_cli.Disk.Files.{write_journal}
use enji_guard_cli.Coordinator.Outcomes.{record_terminal_outcome, drain_outbox}
use enji_guard_cli.Coordinator.Prepare.{
  Preparation, wait_for_revision, resume_after, resume, recover_unknown, interrupted,
  recover_requested, recover_rotated, recover_matching_state, recover_source, recover_state,
  recover_journal, recover_or_wait, prepare_rest, prepare, pending_lane,
}
use enji_guard_cli.Coordinator.Rules.{
  Ensures, ensures_if, AnyError, ensures_raise, ensures_pure, after_any, ensures_map,
}
use enji_guard_cli.Coordinator.Safety.{Announced, AnnouncedIf, IsFor, prepare_dispatch-Announced}

module _ (P : StoredAuth → RotationAttempt → Type 0) (current : StoredAuth) where
  Announces : M (Option Preparation) → Type 0
  Announces m = Ensures (AnnouncedIf P current) AnyError m

  waiting_announced :
      (m : M (Unit {0})) (src : String) → Announces (m >>= λ u. pure (some (wait_for_revision src)))
  unfolding Announces AnnouncedIf Announced
  waiting_announced m src = after_any m _ (λ u. ensures_pure _ (λ s. tt))

  dropped_announced : (m : M (Unit {0})) → Fresh P current → Announces (m >>= λ u. pure none)
  unfolding Announces AnnouncedIf
  dropped_announced m h = after_any m _ (λ u. ensures_pure _ (λ s. h))

  -- What follows on this attempt may be dispatched.
  abbrev pub Resumable : RotationAttempt → Type 0
  Resumable attempt =
      (iso : IsoFormat) (b : RotationAttempt) (now : ℕ)
      → next_recovery_attempt iso attempt now ≡ some b
      → Owned P current b

  module _ (why : String) where
    resume_after_announced :
        (next : RotationAttempt) (wait : ℕ)
        → Owned P current next
        → Announces (resume_after current current.revision why next wait)
    unfolding Announces AnnouncedIf IsFor
    resume_after_announced next wait o =
        ensures_if (wait == 0)
          (λ _.
            ensures_map _ (λ p. some p)
              (prepare_dispatch-Announced P current next
                (some (outcome_unknown current.revision why)) refl o)
              (λ p s h. h))
          (λ _.
            after_any (lift assertion_error (pending_lane next.continuation)) _
              (λ c. ensures_raise _ tt))

    resume_announced :
        (attempt : RotationAttempt) (next : Option RotationAttempt)
        → ((b : RotationAttempt) → next ≡ some b → Owned P current b)
        → Announces (resume current current.revision why attempt next)
    unfolding Announces ◌>>◌
    resume_announced attempt none o = waiting_announced _ _
    resume_announced attempt (some next) o =
        after_any (ask _) _ (λ wait. resume_after_announced next wait (o next refl))

    recover_unknown_announced :
        (attempt : RotationAttempt)
        → Resumable attempt
        → Announces (recover_unknown current current.revision why attempt)
    unfolding Announces recover_unknown ask
    recover_unknown_announced attempt r =
        ensures_with {P = λ next. (b : RotationAttempt) → next ≡ some b → Owned P current b}
          (ask (λ w n. next_recovery_attempt w.iso attempt (w.now n))) _
          (record { at = λ w s b e. r w.iso b (w.now s.asked) e })
          (λ next o. resume_announced attempt next o)

  -- What follows on the interruption of this attempt may be dispatched.
  abbrev pub Interruptible : RotationAttempt → Type 0
  Interruptible attempt =
      (iso : IsoFormat) (deadline : String) (now : ℕ)
      → Resumable (with_continuation iso attempt ambiguity_replay deadline now)

  abbrev resume_interrupted : RotationAttempt → M (Option Preparation)
  resume_interrupted next = do
    write_journal (outcome_unknown current.revision interruption) false next
    record_terminal_outcome (Terminal.outcome_unknown current.revision interruption) next false
    recover_unknown current current.revision interruption next

  interrupted_announced :
      (attempt : RotationAttempt) (alive : Bool)
      → Interruptible attempt
      → Announces (interrupted current current.revision attempt alive)
  unfolding Announces AnnouncedIf Announced ◌>>◌ ask
  interrupted_announced attempt true r = ensures_pure _ (λ s. tt)
  interrupted_announced attempt false r = after_any recovery_deadline _ (λ deadline.
      ensures_with {P = Resumable}
        (ask (λ w n. with_continuation w.iso attempt ambiguity_replay deadline (w.now n)))
        resume_interrupted (record { at = λ w s. r w.iso deadline (w.now s.asked) })
        (λ next o. after_any (write_journal _ _ _) _ (λ a.
          after_any (record_terminal_outcome _ _ _) _
            (λ b. recover_unknown_announced interruption next o))))

  recover_requested_announced :
      (attempt : RotationAttempt)
      → Interruptible attempt
      → Announces (recover_requested current current.revision attempt)
  unfolding Announces recover_requested
  recover_requested_announced attempt r =
      after_any (still_owned (attempt_owner attempt)) _
        (λ alive. interrupted_announced attempt alive r)

  -- What may be dispatched after a journal of the stored revision.
  abbrev pub Permits : RotationState → RotationAttempt → Type 0
  Permits (reserved src) attempt = Fresh P current
  Permits (requested src) attempt = Interruptible attempt
  Permits (outcome_unknown src why) attempt = Resumable attempt
  Permits _ attempt = Unit {0}

  matching_announced :
      (state : RotationState) (attempt : RotationAttempt) (flag : Bool)
      → source_revision state ≡ current.revision
      → Permits state attempt
      → Announces (recover_matching_state current state attempt flag)
  unfolding Announces recover_matching_state AnnouncedIf Announced ◌>>◌
  matching_announced (ready r) attempt flag h o = ensures_raise _ tt
  matching_announced (rotated src header next) attempt flag h o =
      after_any (recover_rotated src header next attempt flag) _ (λ auth. ensures_pure _ (λ s. tt))
  matching_announced (reserved src) attempt flag h o = dropped_announced _ o
  matching_announced (requested src) attempt flag h o =
      subst (λ x. Announces (recover_requested current x attempt)) (sym h)
        (recover_requested_announced attempt o)
  matching_announced (outcome_unknown src why) attempt flag h o =
      after_any (record_terminal_outcome _ _ _) _ (λ a.
        subst (λ x. Announces (recover_unknown current x why attempt)) (sym h)
          (recover_unknown_announced why attempt o))
  matching_announced (rejected src why) attempt flag h o = waiting_announced _ _

  -- What may be dispatched after a journal: of another revision, a first attempt.
  abbrev pub PermitsSource : RotationState → RotationAttempt → Type 0
  PermitsSource state attempt =
      (source_revision state ≡ current.revision → Permits state attempt)
      × (source_revision state ≢ current.revision → Fresh P current)

  abbrev pub PermitsJournal : JournalLoadResult → Type 0
  PermitsJournal journal_absent = Fresh P current
  PermitsJournal (journal_loaded state flag (some attempt) migrated) = PermitsSource state attempt
  PermitsJournal _ = Unit {0}

  source_announced :
      (state : RotationState) (attempt : RotationAttempt) (flag : Bool)
      → PermitsSource state attempt
      → Announces (recover_source current state attempt flag)
  unfolding Announces ◌>>◌
  source_announced state attempt flag o =
      ensures_if (source_revision state =s current.revision)
        (λ h. matching_announced state attempt flag ((=s_iff _ _).0 h) (o.0 ((=s_iff _ _).0 h)))
        (λ h. dropped_announced _ (o.1 (λ e. absurd (cc (h, (=s_iff _ _).1 e)))))

  state_announced :
      (state : RotationState) (attempt : RotationAttempt) (flag : Bool)
      → PermitsSource state attempt
      → Announces (recover_state current state attempt flag)
  unfolding Announces AnnouncedIf Announced ◌>>◌
  state_announced (ready r) attempt flag o = ensures_raise _ tt
  state_announced (rotated src header next) attempt flag o =
      ensures_if (next =s current.revision)
        (λ h. after_any (record_terminal_outcome _ _ _) _ (λ a. ensures_pure _ (λ s. tt)))
        (λ h. source_announced (rotated src header next) attempt flag o)
  state_announced (reserved src) attempt flag o = source_announced (reserved src) attempt flag o
  state_announced (requested src) attempt flag o = source_announced (requested src) attempt flag o
  state_announced (rejected src why) attempt flag o =
      source_announced (rejected src why) attempt flag o
  state_announced (outcome_unknown src why) attempt flag o =
      source_announced (outcome_unknown src why) attempt flag o

  journal_announced :
      (found : JournalLoadResult) → PermitsJournal found → Announces (recover_journal current found)
  unfolding Announces AnnouncedIf
  journal_announced journal_absent o = ensures_pure _ (λ s. o)
  journal_announced (journal_corrupt d) o = ensures_raise _ tt
  journal_announced (journal_io_failure d) o = ensures_raise _ tt
  journal_announced (journal_loaded state flag none migrated) o = ensures_raise _ tt
  journal_announced (journal_loaded state flag (some attempt) migrated) o =
      state_announced state attempt flag o

  nothing_found :
      (expected : Option StoredAuth)
      → Fresh P current
      → Ensures (Announced P) AnyError (prepare_rest current expected none)
  unfolding Announced IsFor ◌>>◌
  nothing_found expected o = after_any drain_outbox _ (λ a.
      ensures_if (is_expected current expected)
        (λ h.
          after_any recovery_deadline _ (λ d. prepare_dispatch-Announced P current _ none tt (o d)))
        (λ h. ensures_pure _ (λ s. tt)))

  rest-Announced :
      (expected : Option StoredAuth) (found : Option Preparation) (w : World) (s : Session)
      → AnnouncedIf P current found s
      → Holds (Announced P) AnyError (prepare_rest current expected found w s)
  unfolding AnnouncedIf pure
  rest-Announced expected (some p) w s h = h
  rest-Announced expected none w s h = (nothing_found expected h).at w s

-- A preparation that reads this journal file dispatches only what the journal permits.
pub prepare-Announced :
    (P : StoredAuth → RotationAttempt → Type 0) (expected : Option StoredAuth) (w : World)
    (s : Session)
    → ((j : JournalLoadResult)
        → journal_of w s.disk.journal ≡ some j
        → (current : StoredAuth) → PermitsJournal P current j)
    → Holds (Announced P) AnyError (prepare expected w s)
unfolding prepare ◌>>◌ recover_or_wait Announces
prepare-Announced P expected w s o =
    (given_locked w s.disk _ _ (
        given_bind w s.disk _ _ _ (reads_auth w s.disk) (λ loaded.
          given_bind w s.disk _ _ _ (loaded_reads w s.disk loaded) (λ current.
            given_bind w s.disk _ _ _ (cookie_reads w s.disk current.credential) (λ u.
              given_then w s.disk _ _ _
                (given_with w s.disk _ _ _ (reads_journal w s.disk)
                  (λ j e. journal_announced P current j (o j e current)))
                (λ found s' h. rest-Announced P current expected found w s' h)))))).at
      s refl
