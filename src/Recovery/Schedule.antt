-- ===== src/Recovery/Schedule.antt =====
-- The attempts that auth_session/coordinator.py writes beside a state: which of them the reader of
-- the journal accepts.
use enji_guard_cli.Prelude.{
  Option, ◌∙◌, Bool, refl, Bool-cases, inl, inr, ◌+◌, ℕ, String, true, false, none, some, ◌≡◌,
  arith, ◌=s◌,
}
use enji_guard_cli.Json.{Json, text}
use enji_guard_cli.Timestamps.{IsoFormat}
use enji_guard_cli.Store.{RotationAttempt, journal_loaded, journal_corrupt}
use enji_guard_cli.Store.Attempt.{rotation_attempt_is_valid}
use enji_guard_cli.Store.Journal.{journal_payload, parse_journal}
use enji_guard_cli.Store.Journal.RoundTrip.{journal_round_trip}
use enji_guard_cli.StateMachine.{outcome_unknown, RecoveryContinuation}
use enji_guard_cli.Store.{RotationAttempt}
use enji_guard_cli.Store.JournalFields.{attempt_state_error, valid_recovery_window}
use enji_guard_cli.Store.Journal.Malformed.{inconsistent_attempt_unreadable}
use enji_guard_cli.Recovery.{
  classed, delay, or_deadline, continuation_available, with_continuation, exhausted, too_late,
  parse_deadline, stopped_with, scheduled_at,
}

stopped_settled :
    (iso : IsoFormat) (a : RotationAttempt) (d why : String)
    → (why =s "") ≡ false
    → attempt_state_error iso (text "OUTCOME_UNKNOWN") (stopped_with a d why) ≡ some none
unfolding attempt_state_error
stopped_settled iso a d why n = ground arith

window_ok :
    (iso : IsoFormat) (d : String) (now next : ℕ)
    → too_late (parse_deadline iso (some d)) now next ≡ false
    → valid_recovery_window iso (some (iso.isoformat next)) (some d) ≡ true
unfolding parse_deadline valid_recovery_window
window_ok iso d now next h = rw iso.fromisoformat-isoformat (ground arith)

scheduled_settled :
    (iso : IsoFormat) (a : RotationAttempt) (c : RecoveryContinuation) (d : String) (now next : ℕ)
    → too_late (parse_deadline iso (some d)) now next ≡ false
    → attempt_state_error iso (text "OUTCOME_UNKNOWN") (scheduled_at iso a c d next) ≡ some none
unfolding attempt_state_error
scheduled_settled iso a c d now next h = ground (arith, window_ok iso d now next h)

-- The attempt that `_with_continuation` returns: stopped for a reason, or scheduled in its lane, at
-- a time that the budget and the deadline allow.
pub data IsContinued (iso : IsoFormat) (a : RotationAttempt) (c : RecoveryContinuation)
    (deadline : String) (now : ℕ) (b : RotationAttempt) : Type 0 where
  stopped :
      (why : String)
      → (why =s "") ≡ false
      → b ≡ stopped_with a (or_deadline a.recovery_deadline deadline) why
      → IsContinued iso a c deadline now b
  scheduled :
      continuation_available a c ≡ true
      → too_late
          (parse_deadline iso (some (or_deadline a.recovery_deadline deadline)))
          now
          (now + delay c)
        ≡ false
      → b ≡ scheduled_at iso a c (or_deadline a.recovery_deadline deadline) (now + delay c)
      → IsContinued iso a c deadline now b

pub with_continuation-IsContinued :
    (iso : IsoFormat) (a : RotationAttempt) (c : RecoveryContinuation) (deadline : String) (now : ℕ)
    → IsContinued iso a c deadline now (with_continuation iso a c deadline now)
unfolding with_continuation
with_continuation-IsContinued iso a c deadline now =
    elim (Bool-cases (continuation_available a c)) [
      | inr full ↦ stopped "recovery-budget-exhausted" refl (rw full)
      | inl room ↦
          let d = or_deadline a.recovery_deadline deadline in
          elim (Bool-cases (too_late (parse_deadline iso (some d)) now (now + delay c))) [
            | inl late ↦ stopped "recovery-deadline-exhausted" refl (rw (room, late))
            | inr early ↦ scheduled room early (rw (room, early))
          ]
    ]

settled_of :
    (iso : IsoFormat) (a b : RotationAttempt) (c : RecoveryContinuation) (deadline : String)
    (now : ℕ)
    → IsContinued iso a c deadline now b
    → attempt_state_error iso (text "OUTCOME_UNKNOWN") b ≡ some none
settled_of iso a b c deadline now (stopped why n e) = rw e (stopped_settled iso a _ why n)
settled_of iso a b c deadline now (scheduled room early e) =
    rw e (scheduled_settled iso a c _ now (now + delay c) early)

stopped_valid :
    (a : RotationAttempt) (d why : String)
    → rotation_attempt_is_valid a ≡ true
    → rotation_attempt_is_valid (stopped_with a d why) ≡ true
unfolding rotation_attempt_is_valid
stopped_valid a d why v = ground arith

scheduled_valid :
    (iso : IsoFormat) (a : RotationAttempt) (c : RecoveryContinuation) (d : String) (next : ℕ)
    → rotation_attempt_is_valid a ≡ true
    → rotation_attempt_is_valid (scheduled_at iso a c d next) ≡ true
unfolding rotation_attempt_is_valid
scheduled_valid iso a c d next v = ground arith

valid_of :
    (iso : IsoFormat) (a b : RotationAttempt) (c : RecoveryContinuation) (deadline : String)
    (now : ℕ)
    → IsContinued iso a c deadline now b
    → rotation_attempt_is_valid a ≡ true
    → rotation_attempt_is_valid b ≡ true
valid_of iso a b c deadline now (stopped why n e) v = rw e (stopped_valid a _ why v)
valid_of iso a b c deadline now (scheduled room early e) v =
    rw e (scheduled_valid iso a c _ (now + delay c) v)

classed_settled :
    (iso : IsoFormat) (raw : Json) (a : RotationAttempt) (label : Option String)
    → attempt_state_error iso raw (classed a label) ≡ attempt_state_error iso raw a
unfolding attempt_state_error classed
classed_settled iso raw a label = refl

classed_valid :
    (a : RotationAttempt) (label : Option String)
    → rotation_attempt_is_valid (classed a label) ≡ rotation_attempt_is_valid a
unfolding rotation_attempt_is_valid classed
classed_valid a label = refl

-- Whatever the attempt is scheduled for, and whatever the clock reads, the journal that
-- `_commit_unknown` writes for an unknown outcome is read back, if the revision is not empty and
-- the attempt before was valid.
pub unknown_journal_readable :
    (iso : IsoFormat) (src why deadline : String) (a : RotationAttempt) (c : RecoveryContinuation)
    (label : Option String) (now : ℕ) (enqueued : Bool)
    → (src =s "") ≡ false
    → rotation_attempt_is_valid a ≡ true
    → let b = classed (with_continuation iso a c deadline now) label in
      (p : Json) × (journal_payload (outcome_unknown src why) enqueued (some b) ≡ some p)
      × (parse_journal iso p
          ≡ some (journal_loaded (outcome_unknown src why) enqueued (some b) none))
unknown_journal_readable iso src why deadline a c label now enqueued n v =
    let w = with_continuation-IsContinued iso a c deadline now in
    journal_round_trip iso (outcome_unknown src why) enqueued
      (classed (with_continuation iso a c deadline now) label) n (λ e. cc)
      (classed_valid _ label ∙ valid_of iso a _ c deadline now w v)
      (classed_settled iso _ _ label ∙ settled_of iso a _ c deadline now w)

exhausted_valid :
    (a : RotationAttempt)
    → rotation_attempt_is_valid a ≡ true
    → rotation_attempt_is_valid (exhausted a) ≡ true
unfolding exhausted rotation_attempt_is_valid
exhausted_valid a v = ground arith

exhausted_unsettled :
    (iso : IsoFormat) (a : RotationAttempt) (t : String)
    → a.next_attempt_at ≡ some t
    → attempt_state_error iso (text "OUTCOME_UNKNOWN") (exhausted a)
      ≡ some (some "stopped recovery metadata is inconsistent")
unfolding exhausted attempt_state_error
exhausted_unsettled iso a t h = rw h

-- `_recover_unknown` stops a recovery without clearing the time of the next attempt. Where a valid
-- attempt had one, for a revision that is not empty, the journal that it writes is corrupt for its
-- reader.
pub exhausted_journal_unreadable :
    (iso : IsoFormat) (src why t : String) (a : RotationAttempt) (enqueued : Bool)
    → (src =s "") ≡ false
    → rotation_attempt_is_valid a ≡ true
    → a.next_attempt_at ≡ some t
    → (p : Json) × (journal_payload (outcome_unknown src why) enqueued (some (exhausted a))
        ≡ some p)
      × (parse_journal iso p ≡ some (journal_corrupt "stopped recovery metadata is inconsistent"))
exhausted_journal_unreadable iso src why t a enqueued n v h =
    inconsistent_attempt_unreadable iso (outcome_unknown src why) enqueued (exhausted a) _ n
      (λ e. cc) (exhausted_valid a v) (exhausted_unsettled iso a t h)
