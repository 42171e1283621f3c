-- ===== src/Store/Attempt.antt =====
-- auth_session/store.py: `_parse_attempt_counts`, `_parse_attempt_recovery`,
-- `_parse_rotation_attempt` and `_rotation_attempt_is_valid`. A negative integer is refused where
-- it is read: `_rotation_attempt_is_valid` refuses it in each of these fields.
use enji_guard_cli.Prelude.{
  ◌>>=◌, ℕ, ◌+◌, String, Bool, false, Option, none, some, ◌&&◌, ◌||◌, ◌=s◌, ◌==◌, leb, ltb, not,
  is_none, if◌then◌else◌,
}
use enji_guard_cli.Json.{
  Json, null, text, Fields, get, as_text, as_text_or_null, as_count, as_count_or_null,
}
use enji_guard_cli.StateMachine.{
  total_dispatch_cap, safe_retry_limit, validation_retry_limit, ambiguity_replay_limit,
}
use enji_guard_cli.Store.{AttemptKind, Continuation, RotationAttempt}

abbrev kind_of_text : String → Option AttemptKind
kind_of_text s =
    if s =s "normal"
    then some AttemptKind.normal
    else if s =s "safe_retry"
    then some AttemptKind.safe_retry
    else if s =s "validation_recovery"
    then some AttemptKind.validation_recovery
    else if s =s "ambiguity_replay"
    then some AttemptKind.ambiguity_replay
    else none

abbrev pub kind_text : AttemptKind → String
kind_text AttemptKind.normal = "normal"
kind_text AttemptKind.safe_retry = "safe_retry"
kind_text AttemptKind.validation_recovery = "validation_recovery"
kind_text AttemptKind.ambiguity_replay = "ambiguity_replay"

unfoldable pub as_attempt_kind : Json → Option AttemptKind
as_attempt_kind (text s) = kind_of_text s
as_attempt_kind _ = none

abbrev continuation_of_text : String → Option (Option Continuation)
continuation_of_text s =
    if s =s "safe_retry"
    then some (some Continuation.safe_retry)
    else if s =s "validation_recovery"
    then some (some Continuation.validation_recovery)
    else if s =s "ambiguity_replay"
    then some (some Continuation.ambiguity_replay)
    else if s =s "stop"
    then some (some Continuation.stop)
    else none

abbrev pub continuation_text : Continuation → String
continuation_text Continuation.safe_retry = "safe_retry"
continuation_text Continuation.validation_recovery = "validation_recovery"
continuation_text Continuation.ambiguity_replay = "ambiguity_replay"
continuation_text Continuation.stop = "stop"

abbrev pub continuation_or_null : Option Continuation → Json
continuation_or_null none = null
continuation_or_null (some c) = text (continuation_text c)

unfoldable pub as_continuation : Json → Option (Option Continuation)
as_continuation null = some none
as_continuation (text s) = continuation_of_text s
as_continuation _ = none

record AttemptCounts : Type 0 where
  rotation_id : String
  attempt_kind : AttemptKind
  dispatch_count : ℕ
  safe_retry_count : ℕ
  validation_retry_count : ℕ
  ambiguity_replay_count : ℕ

parse_attempt_counts : Fields → Option AttemptCounts
unfolding get as_attempt_kind
parse_attempt_counts payload = do
  rotation_id ← as_text (get payload "rotation_id")
  attempt_kind ← as_attempt_kind (get payload "attempt_kind")
  dispatch_count ← as_count (get payload "dispatch_count")
  safe_retry_count ← as_count (get payload "safe_retry_count")
  validation_retry_count ← as_count (get payload "validation_retry_count")
  ambiguity_replay_count ← as_count (get payload "ambiguity_replay_count")
  some (record {
    rotation_id = rotation_id;
    attempt_kind = attempt_kind;
    dispatch_count = dispatch_count;
    safe_retry_count = safe_retry_count;
    validation_retry_count = validation_retry_count;
    ambiguity_replay_count = ambiguity_replay_count;
  })

record AttemptRecovery : Type 0 where
  recovery_deadline : Option String
  continuation : Option Continuation
  owner_boot_id : Option String
  owner_pid : Option ℕ
  owner_start_ticks : Option String
  next_attempt_at : Option String
  dispatch_cap : ℕ
  response_class : Option String
  stop_reason : Option String

parse_attempt_recovery : Fields → Option AttemptRecovery
unfolding get as_continuation
parse_attempt_recovery payload = do
  recovery_deadline ← as_text_or_null (get payload "recovery_deadline")
  continuation ← as_continuation (get payload "continuation")
  owner_boot_id ← as_text_or_null (get payload "owner_boot_id")
  owner_pid ← as_count_or_null (get payload "owner_pid")
  owner_start_ticks ← as_text_or_null (get payload "owner_start_ticks")
  next_attempt_at ← as_text_or_null (get payload "next_attempt_at")
  dispatch_cap ← as_count (get payload "total_dispatch_cap")
  response_class ← as_text_or_null (get payload "response_class")
  stop_reason ← as_text_or_null (get payload "stop_reason")
  some (record {
    recovery_deadline = recovery_deadline;
    continuation = continuation;
    owner_boot_id = owner_boot_id;
    owner_pid = owner_pid;
    owner_start_ticks = owner_start_ticks;
    next_attempt_at = next_attempt_at;
    dispatch_cap = dispatch_cap;
    response_class = response_class;
    stop_reason = stop_reason;
  })

-- `bool(value)` of an optional text
abbrev pub is_set : Option String → Bool
is_set none = false
is_set (some s) = not (s =s "")

abbrev is_positive : Option ℕ → Bool
is_positive none = false
is_positive (some n) = ltb 0 n

abbrev pub retry_count : RotationAttempt → ℕ
retry_count a = a.safe_retry_count + a.validation_retry_count + a.ambiguity_replay_count

abbrev pub owner_absent : RotationAttempt → Bool
owner_absent a = is_none a.owner_boot_id && is_none a.owner_pid && is_none a.owner_start_ticks

abbrev pub owner_valid : RotationAttempt → Bool
owner_valid a = is_set a.owner_boot_id && is_positive a.owner_pid && is_set a.owner_start_ticks

unfoldable pub rotation_attempt_is_valid : RotationAttempt → Bool
rotation_attempt_is_valid a =
    not (a.rotation_id =s "")
    && leb a.safe_retry_count safe_retry_limit
    && leb a.validation_retry_count validation_retry_limit
    && leb a.ambiguity_replay_count ambiguity_replay_limit
    && a.dispatch_cap == total_dispatch_cap
    && leb a.dispatch_count a.dispatch_cap
    && (a.dispatch_count == retry_count a || a.dispatch_count == 1 + retry_count a)
    && (owner_absent a || owner_valid a)

abbrev assemble : AttemptCounts → AttemptRecovery → RotationAttempt
assemble c r = record {
  rotation_id = c.rotation_id;
  attempt_kind = c.attempt_kind;
  dispatch_count = c.dispatch_count;
  safe_retry_count = c.safe_retry_count;
  validation_retry_count = c.validation_retry_count;
  ambiguity_replay_count = c.ambiguity_replay_count;
  recovery_deadline = r.recovery_deadline;
  continuation = r.continuation;
  owner_boot_id = r.owner_boot_id;
  owner_pid = r.owner_pid;
  owner_start_ticks = r.owner_start_ticks;
  next_attempt_at = r.next_attempt_at;
  dispatch_cap = r.dispatch_cap;
  response_class = r.response_class;
  stop_reason = r.stop_reason;
}

unfoldable pub parse_rotation_attempt : Fields → Option RotationAttempt
unfolding parse_attempt_counts parse_attempt_recovery
parse_rotation_attempt payload = do
  counts ← parse_attempt_counts payload
  recovery ← parse_attempt_recovery payload
  let attempt = assemble counts recovery
  if rotation_attempt_is_valid attempt then some attempt else none
