-- ===== src/Recovery/Budget.antt =====
-- What a dispatch spends of the recovery budget, and when the state machine authorizes it
-- (`_next_recovery_attempt` and `_prepare_dispatch` of auth_session/coordinator.py).
use enji_guard_cli.Prelude.{
  if◌then◌else◌, [], ◌∷◌, ℕ, ◌+◌, ◌≤◌, ◌<◌, String, false, Option, none, some, ◌≡◌, refl, arith,
  not,
}
use enji_guard_cli.Timestamps.{IsoFormat}
use enji_guard_cli.StateMachine.{
  reserved, moved, persist_journal, lane_limit, RecoveryContinuation, safe_retry,
  validation_recovery, ambiguity_replay, total_dispatch_cap, safe_retry_limit,
  validation_retry_limit, ambiguity_replay_limit, outcome_unknown, authorize_recovery_dispatch,
  transition, invalid_transition, recovery_dispatch_is_authorized,
}
use enji_guard_cli.Store.{Continuation, RotationAttempt}
use enji_guard_cli.Store.Attempt.{retry_count}
use enji_guard_cli.Recovery.{
  spent, continued, lane, lane_kind, next_of, next_recovery_attempt, authorization, deadline_passed,
  time_until,
}

-- The account of an attempt: its own dispatch, and one for each retry, within every limit.
pub record IsCounted (a : RotationAttempt) : Type 0 where
  pub counted : a.dispatch_count ≡ 1 + retry_count a
  pub safe : a.safe_retry_count ≤ safe_retry_limit
  pub validation : a.validation_retry_count ≤ validation_retry_limit
  pub ambiguity : a.ambiguity_replay_count ≤ ambiguity_replay_limit
  pub capped : a.dispatch_cap ≡ total_dispatch_cap
  pub within : a.dispatch_count ≤ total_dispatch_cap

-- A next attempt is the attempt of the scheduled lane, while there is room and time.
pub record IsNext (iso : IsoFormat) (a b : RotationAttempt) (now : ℕ) (c : RecoveryContinuation)
    : Type 0 where
  pub is_next : b ≡ next_of a c
  pub scheduled : a.continuation ≡ some (lane c)
  pub room : a.dispatch_count < a.dispatch_cap
  pub affordable : spent a c < lane_limit c
  pub in_time : deadline_passed iso a.recovery_deadline now ≡ false

room_left :
    (iso : IsoFormat) (a b : RotationAttempt) (now : ℕ)
    → next_recovery_attempt iso a now ≡ some b
    → (a.dispatch_count < a.dispatch_cap)
      × (deadline_passed iso a.recovery_deadline now ≡ false)
      × (continued a a.continuation ≡ some b)
unfolding next_recovery_attempt
room_left iso a b now h = ground arith

lane-IsNext :
    (a b : RotationAttempt) (o : Option Continuation)
    → a.continuation ≡ o
    → continued a o ≡ some b
    → (iso : IsoFormat) (now : ℕ) → a.dispatch_count < a.dispatch_cap
    → deadline_passed iso a.recovery_deadline now ≡ false
    → (c : RecoveryContinuation) × IsNext iso a b now c
lane-IsNext a b none e h iso now r d = absurd (cc)
lane-IsNext a b (some Continuation.stop) e h iso now r d = absurd (cc)
lane-IsNext a b (some Continuation.safe_retry) e h iso now r d = (safe_retry, ground arith)
lane-IsNext a b (some Continuation.validation_recovery) e h iso now r d =
    (validation_recovery, ground arith)
lane-IsNext a b (some Continuation.ambiguity_replay) e h iso now r d =
    (ambiguity_replay, ground arith)

pub next_recovery_attempt-IsNext :
    (iso : IsoFormat) (a b : RotationAttempt) (now : ℕ)
    → next_recovery_attempt iso a now ≡ some b
    → (c : RecoveryContinuation) × IsNext iso a b now c
unfolding next_recovery_attempt
next_recovery_attempt-IsNext iso a b now h =
    let room = room_left iso a b now h in
    lane-IsNext a b a.continuation refl room.2 iso now room.0 room.1

next_account :
    (iso : IsoFormat) (a b : RotationAttempt) (now : ℕ) (c : RecoveryContinuation)
    → IsCounted a
    → IsNext iso a b now c
    → IsCounted b × (b.dispatch_count ≡ a.dispatch_count + 1)
next_account iso a b now safe_retry k n = rw n.is_next (ground arith)
next_account iso a b now validation_recovery k n = rw n.is_next (ground arith)
next_account iso a b now ambiguity_replay k n = rw n.is_next (ground arith)

-- If an attempt's dispatches are one plus its retries, each retry count is within its limit and
-- the cap is that of the policy and not exceeded, then the same holds of the next attempt, if
-- there is one, and it counts one dispatch more.
pub next-IsCounted :
    (iso : IsoFormat) (a b : RotationAttempt) (now : ℕ)
    → IsCounted a
    → next_recovery_attempt iso a now ≡ some b
    → IsCounted b × (b.dispatch_count ≡ a.dispatch_count + 1)
next-IsCounted iso a b now k h =
    let (c, n) = next_recovery_attempt-IsNext iso a b now h in next_account iso a b now c k n

authorized_lane :
    (iso : IsoFormat) (a b : RotationAttempt) (now : ℕ) (c : RecoveryContinuation)
    → IsCounted a
    → IsNext iso a b now c
    → (second third : ℕ) → time_until iso a.next_attempt_at third ≡ 0
    → recovery_dispatch_is_authorized (authorization iso b c second third)
      ≡ not (deadline_passed iso a.recovery_deadline second)
unfolding recovery_dispatch_is_authorized authorization
authorized_lane iso a b now safe_retry k n second third z = rw (n.is_next, z) (ground arith)
authorized_lane iso a b now validation_recovery k n second third z =
    rw (n.is_next, z) (ground arith)
authorized_lane iso a b now ambiguity_replay k n second third z = rw (n.is_next, z) (ground arith)

-- The clock is read for the deadline once when the next attempt is chosen and once more when its
-- dispatch is authorized. Where the cooldown is over at the last reading, the dispatch of a next
-- attempt is reserved exactly if the deadline has not passed at the second reading; if it has,
-- the transition is invalid, which the code raises as an error.
pub recovery_dispatch_reserved :
    (iso : IsoFormat) (a b : RotationAttempt) (now second third : ℕ) (src why : String)
    → IsCounted a
    → next_recovery_attempt iso a now ≡ some b
    → time_until iso a.next_attempt_at third ≡ 0
    → (c : RecoveryContinuation) × (b.attempt_kind ≡ lane_kind c)
      × (transition
            (outcome_unknown src why)
            (authorize_recovery_dispatch (authorization iso b c second third))
          ≡ (if deadline_passed iso a.recovery_deadline second
              then invalid_transition
              else moved
                  (record { state = reserved src; effects = persist_journal (reserved src) ∷ [] })))
unfolding transition
recovery_dispatch_reserved iso a b now second third src why k h z =
    let (c, n) = next_recovery_attempt-IsNext iso a b now h in
    (c, rw n.is_next, rw (authorized_lane iso a b now c k n second third z) (ground arith))
