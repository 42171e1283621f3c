-- ===== src/Projection/Renewal.antt =====
-- From the journal that auth_session/coordinator.py writes, through the reader of
-- auth_session/store.py, to what auth_session/projection.py shows.
use enji_guard_cli.Prelude.{
  =s_refl, String, Bool, true, false, Option, none, some, ◌≡◌, refl, ◌=s◌, ℕ, if◌then◌else◌,
}
use enji_guard_cli.Json.{Json}
use enji_guard_cli.Timestamps.{IsoFormat}
use enji_guard_cli.StateMachine.{
  safe_retry, validation_recovery, ambiguity_replay, RecoveryContinuation, outcome_unknown,
}
use enji_guard_cli.Store.{
  StoredAuth, RotationAttempt, Continuation, auth_loaded, JournalLoadResult, journal_loaded,
}
use enji_guard_cli.Store.Attempt.{rotation_attempt_is_valid}
use enji_guard_cli.Store.Journal.{journal_payload, parse_journal}
use enji_guard_cli.Recovery.{classed, with_continuation, exhausted}
use enji_guard_cli.Recovery.Schedule.{
  IsContinued, stopped, scheduled, with_continuation-IsContinued, unknown_journal_readable,
  exhausted_journal_unreadable,
}
use enji_guard_cli.Projection.Access.{usable_iff}
use enji_guard_cli.Projection.{
  ProjectionError, project_auth, refresh_projection_status, network_credential, usable, refused,
}

abbrev pub is_stopped : RotationAttempt → Bool
is_stopped a = elim a.continuation [ some Continuation.stop ↦ true | _ ↦ false ]

shown :
    (iso : IsoFormat) (auth : StoredAuth) (why deadline : String) (a b : RotationAttempt)
    (c : RecoveryContinuation) (label : Option String) (now : ℕ) (enqueued : Bool)
    → IsContinued iso a c deadline now b
    → let s = refresh_projection_status (
        project_auth (auth_loaded auth) (
          journal_loaded
            (outcome_unknown auth.revision why)
            enqueued
            (some (classed b label))
            none)) in
      (s.reauth_required ≡ is_stopped b)
      × (s.refresh_state ≡ some (if is_stopped b then "exhausted" else "recovering"))
unfolding refresh_projection_status project_auth classed
shown iso auth why deadline a b c label now enqueued (stopped w n e) =
    rw e (rw =s_refl (refl, refl))
shown iso auth why deadline a b safe_retry label now enqueued (scheduled r t e) =
    rw e (rw =s_refl (refl, refl))
shown iso auth why deadline a b validation_recovery label now enqueued (scheduled r t e) =
    rw e (rw =s_refl (refl, refl))
shown iso auth why deadline a b ambiguity_replay label now enqueued (scheduled r t e) =
    rw e (rw =s_refl (refl, refl))

-- After an unknown outcome is committed for the stored credential's own revision, which is not
-- empty, on top of a valid attempt, the observers read the journal back, the credential stays
-- usable, and renewal shows as recovering while a retry is scheduled and as exhausted, with a new
-- import required, exactly when the attempt is stopped.
pub unknown_outcome_observed :
    (iso : IsoFormat) (auth : StoredAuth) (why deadline : String) (a : RotationAttempt)
    (c : RecoveryContinuation) (label : Option String) (now : ℕ) (enqueued : Bool)
    → (auth.revision =s "") ≡ false
    → rotation_attempt_is_valid a ≡ true
    → let b = with_continuation iso a c deadline now in
      (p : Json) × (j : JournalLoadResult) × (journal_payload
          (outcome_unknown auth.revision why)
          enqueued
          (some (classed b label))
        ≡ some p)
      × (parse_journal iso p ≡ some j)
      × (network_credential (project_auth (auth_loaded auth) j) ≡ usable auth)
      × ((refresh_projection_status (project_auth (auth_loaded auth) j)).reauth_required
          ≡ is_stopped b)
      × ((refresh_projection_status (project_auth (auth_loaded auth) j)).refresh_state
          ≡ some (if is_stopped b then "exhausted" else "recovering"))
unknown_outcome_observed iso auth why deadline a c label now enqueued n v =
    let (p, written, read) =
      unknown_journal_readable iso auth.revision why deadline a c label now enqueued n v in
    let (r, s) =
      shown iso auth why deadline a _ c label now enqueued
        (with_continuation-IsContinued iso a c deadline now) in
    (p, _, written, read, (usable_iff _ _ auth).1 (refl, refl), r, s)

-- Once `_recover_unknown` has stopped a valid attempt that had a next attempt scheduled, for the
-- stored credential's own revision, which is not empty, the journal is corrupt for its reader and
-- the observers are refused the credential.
pub exhausted_recovery_refused :
    (iso : IsoFormat) (auth : StoredAuth) (why t : String) (a : RotationAttempt) (enqueued : Bool)
    → (auth.revision =s "") ≡ false
    → rotation_attempt_is_valid a ≡ true
    → a.next_attempt_at ≡ some t
    → (p : Json) × (j : JournalLoadResult) × (e : ProjectionError) × (journal_payload
          (outcome_unknown auth.revision why)
          enqueued
          (some (exhausted a))
        ≡ some p)
      × (parse_journal iso p ≡ some j)
      × (network_credential (project_auth (auth_loaded auth) j) ≡ refused e)
      × (e.code ≡ "AUTH_JOURNAL_CORRUPT")
unfolding network_credential project_auth
exhausted_recovery_refused iso auth why t a enqueued n v h =
    let (p, written, read) =
      exhausted_journal_unreadable iso auth.revision why t a enqueued n v h in
    (p, _, _, written, read, refl, refl)
