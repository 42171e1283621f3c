-- ===== src/Recovery.antt =====
-- The recovery policy of auth_session/coordinator.py: the pure functions that spend and schedule
-- the budget of a `RotationAttempt`. An instant is a number of microseconds; `_seconds_until` is
-- kept in microseconds too, so that 0 is 0 and nothing else.
pub mod Budget
pub mod Schedule
pub mod Chain
use enji_guard_cli.Prelude.{
  ◌=s◌, ℕ, ◌+◌, ◌-◌, String, Bool, true, false, Option, none, some, ◌&&◌, ◌||◌, leb, ltb, not,
  is_none, is_some, if◌then◌else◌,
}
use enji_guard_cli.Timestamps.{IsoFormat, Datetime, instant}
use enji_guard_cli.StateMachine.{
  RecoveryContinuation, safe_retry, validation_recovery, ambiguity_replay, safe_retry_delay,
  validation_retry_delay, ambiguity_replay_delay, recovery_window, lane_limit,
  AuthorizeRecoveryDispatch,
}
use enji_guard_cli.Store.{AttemptKind, Continuation, RotationAttempt}

-- `RefreshOwner`
pub record RefreshOwner : Type 0 where
  pub boot_id : String
  pub pid : ℕ
  pub start_ticks : String

abbrev owner_of : Option String → Option ℕ → Option String → Option RefreshOwner
owner_of (some boot_id) (some pid) (some start_ticks) =
    some (record { boot_id = boot_id; pid = pid; start_ticks = start_ticks })
owner_of _ _ _ = none

unfoldable pub attempt_owner : RotationAttempt → Option RefreshOwner
attempt_owner a = owner_of a.owner_boot_id a.owner_pid a.owner_start_ticks

unfoldable pub without_owner : RotationAttempt → RotationAttempt
without_owner a = record a { owner_boot_id = none; owner_pid = none; owner_start_ticks = none }

-- A lane as the stored continuation, and as the kind of the attempt that it leads to.
abbrev pub lane : RecoveryContinuation → Continuation
lane safe_retry = Continuation.safe_retry
lane validation_recovery = Continuation.validation_recovery
lane ambiguity_replay = Continuation.ambiguity_replay

abbrev pub lane_kind : RecoveryContinuation → AttemptKind
lane_kind safe_retry = AttemptKind.safe_retry
lane_kind validation_recovery = AttemptKind.validation_recovery
lane_kind ambiguity_replay = AttemptKind.ambiguity_replay

-- `limits[continuation]`: the count
abbrev pub spent : RotationAttempt → RecoveryContinuation → ℕ
spent a safe_retry = a.safe_retry_count
spent a validation_recovery = a.validation_retry_count
spent a ambiguity_replay = a.ambiguity_replay_count

unfoldable pub continuation_available : RotationAttempt → RecoveryContinuation → Bool
continuation_available a c =
    if leb a.dispatch_cap a.dispatch_count then false else ltb (spent a c) (lane_limit c)

abbrev pub delay : RecoveryContinuation → ℕ
delay safe_retry = safe_retry_delay
delay validation_recovery = validation_retry_delay
delay ambiguity_replay = ambiguity_replay_delay

abbrev pub passed : Option ℕ → ℕ → Bool
passed none now = true
passed (some t) now = leb t now

abbrev pub until : Option ℕ → ℕ → ℕ
until none now = 0
until (some t) now = t - now

abbrev pub stopped_with : RotationAttempt → String → String → RotationAttempt
stopped_with a deadline why = record a {
  recovery_deadline = some deadline;
  continuation = some Continuation.stop;
  owner_boot_id = none;
  owner_pid = none;
  owner_start_ticks = none;
  next_attempt_at = none;
  stop_reason = some why;
}

-- `attempt.recovery_deadline or deadline`: the empty text counts as absent
abbrev pub or_deadline : Option String → String → String
or_deadline none d = d
or_deadline (some s) d = if s =s "" then d else s

abbrev pub too_late : Option ℕ → ℕ → ℕ → Bool
too_late none now next = true
too_late (some t) now next = leb t now || ltb t next

-- The attempt that a lane's dispatch is made under. It keeps the lane as its continuation, and
-- by the defaults of the class it has no owner, response class or stop reason.
abbrev pub next_of : RotationAttempt → RecoveryContinuation → RotationAttempt
next_of a c = record a {
  attempt_kind = lane_kind c;
  dispatch_count = a.dispatch_count + 1;
  safe_retry_count = elim c [ safe_retry ↦ a.safe_retry_count + 1 | _ ↦ a.safe_retry_count ];
  validation_retry_count = elim c [
    | validation_recovery ↦ a.validation_retry_count + 1
    | _ ↦ a.validation_retry_count
  ];
  ambiguity_replay_count = elim c [
    | ambiguity_replay ↦ a.ambiguity_replay_count + 1
    | _ ↦ a.ambiguity_replay_count
  ];
  continuation = some (lane c);
  owner_boot_id = none;
  owner_pid = none;
  owner_start_ticks = none;
  response_class = none;
  stop_reason = none;
}

abbrev lane_attempt : RotationAttempt → RecoveryContinuation → Option RotationAttempt
lane_attempt a c = if ltb (spent a c) (lane_limit c) then some (next_of a c) else none

abbrev continued : RotationAttempt → Option Continuation → Option RotationAttempt
continued a (some Continuation.safe_retry) = lane_attempt a safe_retry
continued a (some Continuation.validation_recovery) = lane_attempt a validation_recovery
continued a (some Continuation.ambiguity_replay) = lane_attempt a ambiguity_replay
continued a (some Continuation.stop) = none
continued a none = none

-- `cast(RecoveryContinuation, attempt.attempt_kind)`; a `normal` attempt has no lane, and
-- `lane_counts[…]` raises `KeyError` for it: `none`.
abbrev pub kind_lane : AttemptKind → Option RecoveryContinuation
kind_lane AttemptKind.normal = none
kind_lane AttemptKind.safe_retry = some safe_retry
kind_lane AttemptKind.validation_recovery = some validation_recovery
kind_lane AttemptKind.ambiguity_replay = some ambiguity_replay

module _ (iso : IsoFormat) where
  open iso use {fromisoformat, isoformat}

  abbrev parse_text : Option String → Option ℕ
  parse_text none = none
  parse_text (some s) = instant (fromisoformat s)

  -- `_parse_deadline`: the instant, if there is a text and it is an aware timestamp
  unfoldable pub parse_deadline : Option String → Option ℕ
  parse_deadline deadline = parse_text deadline

  unfoldable pub deadline_passed : Option String → ℕ → Bool
  deadline_passed deadline now = passed (parse_deadline deadline) now

  -- `_seconds_until`, in microseconds
  unfoldable pub time_until : Option String → ℕ → ℕ
  time_until timestamp now = until (parse_text timestamp) now

  unfoldable pub recovery_deadline_at : ℕ → String
  recovery_deadline_at now = isoformat (now + recovery_window)

  abbrev pub scheduled_at : RotationAttempt → RecoveryContinuation → String → ℕ → RotationAttempt
  scheduled_at a c deadline next = record a {
    recovery_deadline = some deadline;
    continuation = some (lane c);
    owner_boot_id = none;
    owner_pid = none;
    owner_start_ticks = none;
    next_attempt_at = some (isoformat next);
    stop_reason = none;
  }

  unfoldable pub with_continuation :
      RotationAttempt → RecoveryContinuation → String → ℕ → RotationAttempt
  with_continuation a c deadline now =
      let parsed = or_deadline a.recovery_deadline deadline in
      if not (continuation_available a c)
      then stopped_with a parsed "recovery-budget-exhausted"
      else if too_late (parse_deadline (some parsed)) now (now + delay c)
      then stopped_with a parsed "recovery-deadline-exhausted"
      else scheduled_at a c parsed (now + delay c)

  unfoldable pub next_recovery_attempt : RotationAttempt → ℕ → Option RotationAttempt
  next_recovery_attempt a now =
      if leb a.dispatch_cap a.dispatch_count || deadline_passed a.recovery_deadline now
      then none
      else continued a a.continuation

  -- The authorization that `_prepare_dispatch` asks for, at its two readings of the clock.
  unfoldable pub authorization :
      RotationAttempt → RecoveryContinuation → ℕ → ℕ → AuthorizeRecoveryDispatch
  authorization a c now later = record {
    continuation = c;
    dispatch_count = a.dispatch_count;
    safe_retry_count = a.safe_retry_count;
    validation_retry_count = a.validation_retry_count;
    ambiguity_replay_count = a.ambiguity_replay_count;
    dispatch_cap = a.dispatch_cap;
    deadline_open = not (deadline_passed a.recovery_deadline now);
    cooldown_elapsed = leb (time_until a.next_attempt_at later) 0;
  }

-- `replace(attempt, continuation=None, owner_…, next_attempt_at=None, stop_reason=None)`
unfoldable pub owned_by : RotationAttempt → RefreshOwner → RotationAttempt
owned_by a o = record a {
  continuation = none;
  owner_boot_id = some o.boot_id;
  owner_pid = some o.pid;
  owner_start_ticks = some o.start_ticks;
  next_attempt_at = none;
  stop_reason = none;
}

abbrev or_exhausted : Option String → String
or_exhausted none = "recovery-budget-exhausted"
or_exhausted (some s) = if s =s "" then "recovery-budget-exhausted" else s

-- `replace(attempt, response_class=response_class)`
unfoldable pub classed : RotationAttempt → Option String → RotationAttempt
classed a label = record a { response_class = label }

-- The attempt that `_recover_unknown` stops with.
unfoldable pub exhausted : RotationAttempt → RotationAttempt
exhausted a = record a {
  continuation = some Continuation.stop;
  owner_boot_id = none;
  owner_pid = none;
  owner_start_ticks = none;
  stop_reason = some (or_exhausted a.stop_reason);
}
