-- ===== src/Coordinator/Safety.antt =====
-- auth_session/coordinator.py: a dispatch leaves `_prepare` only with its request in the journal,
-- and a rejected revision never dispatches.
use enji_guard_cli.Recovery.Chain.{first_attempt}
use enji_guard_cli.Recovery.{RefreshOwner}
use enji_guard_cli.Prelude.{String, false, Option, none, some, ◌≡◌, refl}
use enji_guard_cli.Json.{Json}
use enji_guard_cli.Recovery.{owned_by, authorization}
use enji_guard_cli.Coordinator.Prepare.{
  assert_requested, assert_reserved, authorize, prepare_dispatch,
}
use enji_guard_cli.Prelude.{subst, ◌∙◌}
use enji_guard_cli.Disk.{ask, os_error, lift, ◌>>=◌}
use enji_guard_cli.StateMachine.{outcome_unknown, rejected}
use enji_guard_cli.Disk.{ask, ◌>>=◌, ◌>>◌}
use enji_guard_cli.StateMachine.{
  rotated, authorize_recovery_dispatch, invalid_transition, dispatch_begun, moved, begin,
  AuthorizeRecoveryDispatch, transition, Transition, RotationState, ready, reserved, requested,
  source_revision, Step,
}
use enji_guard_cli.StateMachine.Diagram.{source_revision-transition}
use enji_guard_cli.Store.{StoredAuth, RotationAttempt}
use enji_guard_cli.Store.Journal.{journal_payload}
use enji_guard_cli.Disk.{
  pure, M, ◌>>◌, invalid_transition_error, File, json, Fate, done, lost, unsure, type_error,
  Session, lift,
}
use enji_guard_cli.Disk.Files.{by_fate, change, put_journal, write_journal}
use enji_guard_cli.Coordinator.Prepare.{
  Preparation, dispatch, return_auth, wait_for_revision, stepped,
}
use enji_guard_cli.Coordinator.Rules.{
  ensures_map, after_raise, after_any, Ensures, AnyError, Holds, ensures_with, ensures_lift,
  ensures_raise, ensures_pure,
}

-- The journal file holds the payload of the state, with this attempt.
pub data IsWritten (st : RotationState) (attempt : RotationAttempt) : File → Type 0 where
  payload_of :
      (p : Json) → journal_payload st false (some attempt) ≡ some p → IsWritten st attempt (json p)

-- What is said of the credential and of the attempt of a dispatch is `P`.
module _ (P : StoredAuth → RotationAttempt → Type 0) where
  -- Where a dispatch is returned, the journal holds its request, with such an attempt.
  unfoldable pub Announced : Preparation → Session → Type 0
  Announced (dispatch auth) s =
      (attempt : RotationAttempt) × P auth attempt
      × IsWritten (requested auth.revision) attempt s.disk.journal
  Announced (return_auth auth) s = Unit {0}
  Announced (wait_for_revision src) s = Unit {0}

  abbrev pub Owned : StoredAuth → RotationAttempt → Type 0
  Owned current a = (o : RefreshOwner) → P current (owned_by a o)

  abbrev pub Fresh : StoredAuth → Type 0
  Fresh current = (deadline : String) → Owned current (first_attempt current.revision deadline)

  -- Where nothing is found, a first attempt may be dispatched.
  unfoldable pub AnnouncedIf : StoredAuth → Option Preparation → Session → Type 0
  AnnouncedIf current none s = Fresh current
  AnnouncedIf current (some p) s = Announced p s

-- A step that leads to a state about the revision, if it leads anywhere.
data StepsAbout (src : String) : Step → Type 0 where
  about : (t : Transition) → source_revision t.state ≡ src → StepsAbout src (moved t)
  refused : StepsAbout src invalid_transition

begin_about : (r : String) → StepsAbout r (transition (ready r) (begin r))
unfolding transition
begin_about r = about _ refl

by_step :
    {src : String} (step : Step)
    → ((t : Transition) → step ≡ moved t → source_revision t.state ≡ src)
    → StepsAbout src step
by_step (moved t) h = about t (h t refl)
by_step invalid_transition h = refused

recovery_about :
    (s : RotationState) (e : AuthorizeRecoveryDispatch)
    → StepsAbout (source_revision s) (transition s (authorize_recovery_dispatch e))
recovery_about s e =
    by_step (transition s (authorize_recovery_dispatch e))
      (λ t h. source_revision-transition s (authorize_recovery_dispatch e) t h refl refl)

request_about : (r : String) → StepsAbout r (transition (reserved r) dispatch_begun)
unfolding transition
request_about r = about _ refl

stepped_about :
    (src : String) (t : Step)
    → StepsAbout src t
    → Ensures (λ u s. source_revision u ≡ src) AnyError (stepped t)
stepped_about src invalid_transition h = ensures_raise invalid_transition_error tt
stepped_about src (moved _) (about t h) = ensures_pure t.state (λ s. h)

put_written :
    (f : Fate) (s : Session) (st : RotationState) (attempt : RotationAttempt) (p : Json)
    → journal_payload st false (some attempt) ≡ some p
    → Holds
        (λ u s. IsWritten st attempt s.disk.journal)
        AnyError
        (by_fate f s (put_journal p s.disk))
put_written done s st attempt p h = payload_of p h
put_written lost s st attempt p h = tt
put_written unsure s st attempt p h = tt

written :
    (st : RotationState) (attempt : RotationAttempt)
    → Ensures (λ u s. IsWritten st attempt s.disk.journal) AnyError (write_journal st false attempt)
unfolding write_journal change
written st attempt =
    ensures_with (lift type_error (journal_payload st false (some attempt)))
      (λ p. change (put_journal p)) (ensures_lift type_error _ tt)
      (λ p h. record { at = λ w s. put_written (w.fate s.asked) s st attempt p h })

module _ (P : StoredAuth → RotationAttempt → Type 0) (current : StoredAuth)
    (owned : RotationAttempt) (allowed : P current owned) where
  abbrev request_tail : RotationState → M Preparation
  request_tail u = do assert_requested u; write_journal u false owned; pure (dispatch current)

  request-Announced :
      (u : RotationState)
      → source_revision u ≡ current.revision
      → Ensures (Announced P) AnyError (request_tail u)
  unfolding ◌>>◌ Announced
  request-Announced (requested r) h = after_any _ _ (λ a.
      ensures_map (write_journal (requested r) false owned) (λ b. dispatch current)
        (written (requested r) owned)
        (λ b s k. (owned, allowed, subst (λ x. IsWritten (requested x) owned s.disk.journal) h k)))
  request-Announced (ready r) h = after_raise _ _
  request-Announced (reserved r) h = after_raise _ _
  request-Announced (rotated r header next) h = after_raise _ _
  request-Announced (rejected r why) h = after_raise _ _
  request-Announced (outcome_unknown r why) h = after_raise _ _

  abbrev reservation_tail : RotationState → M Preparation
  reservation_tail u = do
    assert_reserved u
    write_journal u false owned
    request ← stepped (transition u dispatch_begun)
    request_tail request

  reservation-Announced :
      (u : RotationState)
      → source_revision u ≡ current.revision
      → Ensures (Announced P) AnyError (reservation_tail u)
  unfolding ◌>>◌
  reservation-Announced (reserved r) h = after_any (assert_reserved (reserved r)) _ (λ a.
      after_any (write_journal (reserved r) false owned) _ (λ b.
        ensures_with _ _ (stepped_about r _ (request_about r))
          (λ u k. request-Announced u (k ∙ h))))
  reservation-Announced (ready r) h = after_raise _ _
  reservation-Announced (requested r) h = after_raise _ _
  reservation-Announced (rotated r header next) h = after_raise _ _
  reservation-Announced (rejected r why) h = after_raise _ _
  reservation-Announced (outcome_unknown r why) h = after_raise _ _

-- The state that a recovery starts from is about the revision.
unfoldable pub IsFor : String → Option RotationState → Type 0
IsFor src none = Unit {0}
IsFor src (some state) = source_revision state ≡ src

authorize_about :
    (current : StoredAuth) (attempt : RotationAttempt) (from : Option RotationState)
    → IsFor current.revision from
    → Ensures (λ t s. StepsAbout current.revision t) AnyError (authorize current attempt from)
unfolding IsFor ask
authorize_about current attempt none h = ensures_pure _ (λ s. begin_about current.revision)
authorize_about current attempt (some state) h = after_any _ _ (λ now. after_any _ _ (λ later.
    after_any _ _ (λ c. record {
      at = λ w s.
          subst
            (λ x. StepsAbout x (
              transition state
                (authorize_recovery_dispatch (authorization w.iso attempt c now later))))
            h (recovery_about state _);
    })))

pub prepare_dispatch-Announced :
    (P : StoredAuth → RotationAttempt → Type 0) (current : StoredAuth) (attempt : RotationAttempt)
    (from : Option RotationState)
    → IsFor current.revision from
    → Owned P current attempt
    → Ensures (Announced P) AnyError (prepare_dispatch current attempt from)
unfolding prepare_dispatch ◌>>◌
prepare_dispatch-Announced P current attempt from h allowed =
    after_any (ask (λ w n. w.owner n)) _ (λ answer. after_any (lift os_error answer) _ (λ owner.
      ensures_with _ _ (authorize_about current attempt from h) (λ t k.
        ensures_with _ _ (stepped_about current.revision t k)
          (λ u e. reservation-Announced P current (owned_by attempt owner) (allowed owner) u e))))
