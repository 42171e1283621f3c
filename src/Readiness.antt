-- ===== src/Readiness.antt =====
-- runtime_observability/readiness.py: the state file of the backend's readiness, what a probe makes
-- of it, and the verdict of a health check. The file is what `json.loads` makes of its text, or
-- `none` where it cannot be read or is no JSON. Times are microseconds.
use enji_guard_cli.Prelude.{◌>>=◌}
use enji_guard_cli.Prelude.{
  ℤ, pos, negsuc, sucℤ, at_least, at_most, ℕ, ◌+◌, ◌-◌, ◌/◌, String, Bool, true, false, not, ◌&&◌,
  Option, none, some, [], ◌∷◌, ltb, if◌then◌else◌, is_none,
}
use enji_guard_cli.Json.{Fields, Json, members, get, as_text_or_null, text_or_null}
use enji_guard_cli.Timestamps.{Datetime, IsoFormat}
pub mod Laws

pub record BackendReadinessProbe : Type 0 where
  pub ready : Bool
  pub failure_kind : Option String
  pub failure_code : Option String
  pub failure_message : Option String
  pub failure_status_code : Option ℤ
  pub credential_type : Option String
  pub refresh_state : Option String
  pub reauth_required : Bool
  pub elapsed_ms : Option ℤ
  pub bypass_grace : Bool

pub record BackendReadinessState : Type 0 where
  pub ready : Option Bool
  pub checked_at : Option String
  pub last_success_at : Option String
  pub failure_kind : Option String
  pub failure_code : Option String
  pub failure_message : Option String
  pub failure_status_code : Option ℤ
  pub credential_type : Option String
  pub refresh_state : Option String
  pub reauth_required : Bool
  pub consecutive_failures : ℤ
  pub bypass_grace : Bool

pub record ReadinessVerdict : Type 0 where
  pub ready : Bool
  pub reason : Option String
  pub state : Option BackendReadinessState

-- `ReadinessSettings`, whose numbers are positive
pub record ReadinessSettings : Type 0 where
  pub enabled : Bool
  pub failure_threshold : ℕ
  pub state_stale_after_seconds : ℕ

-- `READINESS_CLOCK_ANOMALY_TOLERANCE`
abbrev pub clock_anomaly_tolerance : ℕ
clock_anomaly_tolerance = 5_000_000

abbrev pub initial_state : BackendReadinessState
initial_state = record {
  ready = none;
  checked_at = none;
  last_success_at = none;
  failure_kind = none;
  failure_code = none;
  failure_message = none;
  failure_status_code = none;
  credential_type = none;
  refresh_state = none;
  reauth_required = false;
  consecutive_failures = pos 0;
  bypass_grace = false;
}

abbrev pub bool_or_null : Option Bool → Json
bool_or_null none = Json.null
bool_or_null (some b) = Json.bool b

abbrev pub integer : ℤ → Json
integer (pos n) = Json.int n
integer (negsuc n) = Json.negative n

abbrev pub integer_or_null : Option ℤ → Json
integer_or_null none = Json.null
integer_or_null (some i) = integer i

-- `asdict(state)`
unfoldable pub state_fields : BackendReadinessState → Fields
state_fields s = members (
    ("ready", bool_or_null s.ready)
    ∷ ("checked_at", text_or_null s.checked_at)
    ∷ ("last_success_at", text_or_null s.last_success_at)
    ∷ ("failure_kind", text_or_null s.failure_kind)
    ∷ ("failure_code", text_or_null s.failure_code)
    ∷ ("failure_message", text_or_null s.failure_message)
    ∷ ("failure_status_code", integer_or_null s.failure_status_code)
    ∷ ("credential_type", text_or_null s.credential_type)
    ∷ ("refresh_state", text_or_null s.refresh_state)
    ∷ ("reauth_required", Json.bool s.reauth_required)
    ∷ ("consecutive_failures", integer s.consecutive_failures)
    ∷ ("bypass_grace", Json.bool s.bypass_grace)
    ∷ [])

unfoldable pub write_backend_readiness_state : BackendReadinessState → Option Json
unfolding state_fields
write_backend_readiness_state s = some (Json.object (state_fields s))

abbrev pub optional_str : Json → Option String
optional_str (Json.text s) = some s
optional_str _ = none

-- `isinstance(value, int)`, which a Boolean is too
abbrev pub optional_int : Json → Option ℤ
optional_int (Json.int n) = some (pos n)
optional_int (Json.negative n) = some (negsuc n)
optional_int (Json.bool true) = some (pos 1)
optional_int (Json.bool false) = some (pos 0)
optional_int _ = none

abbrev pub optional_bool : Json → Bool
optional_bool (Json.bool b) = b
optional_bool _ = false

abbrev pub bool_or_none : Json → Option (Option Bool)
bool_or_none (Json.bool b) = some (some b)
bool_or_none Json.null = some none
bool_or_none _ = none

unfoldable pub state_from_payload : Fields → Option BackendReadinessState
unfolding get
state_from_payload fs = do
  is_ready ← bool_or_none (get fs "ready")
  checked ← as_text_or_null (get fs "checked_at")
  success ← as_text_or_null (get fs "last_success_at")
  failures ← optional_int (get fs "consecutive_failures")
  some (record {
    ready = is_ready;
    checked_at = checked;
    last_success_at = success;
    failure_kind = optional_str (get fs "failure_kind");
    failure_code = optional_str (get fs "failure_code");
    failure_message = optional_str (get fs "failure_message");
    failure_status_code = optional_int (get fs "failure_status_code");
    credential_type = optional_str (get fs "credential_type");
    refresh_state = optional_str (get fs "refresh_state");
    reauth_required = optional_bool (get fs "reauth_required");
    consecutive_failures = failures;
    bypass_grace = optional_bool (get fs "bypass_grace");
  })

unfoldable pub read_backend_readiness_state : Option Json → Option BackendReadinessState
unfolding state_from_payload
read_backend_readiness_state (some (Json.object fs)) = state_from_payload fs
read_backend_readiness_state _ = none

abbrev pub verdict : Bool → Option String → Option BackendReadinessState → ReadinessVerdict
verdict b reason state = record { ready = b; reason = reason; state = state }

unfoldable pub state_with_effective_ready :
    BackendReadinessState → ReadinessSettings → BackendReadinessState
state_with_effective_ready s settings =
    if at_most 0 s.consecutive_failures && at_least 0 s.consecutive_failures
    then s
    else record s { ready = some (at_most (settings.failure_threshold - 1) s.consecutive_failures) }

unfoldable pub readiness_unavailable_reason :
    BackendReadinessState → ReadinessSettings → ℕ → ℕ → Option String
readiness_unavailable_reason s settings checked now =
    if ltb (now + clock_anomaly_tolerance) checked
    then some "backend readiness state has a clock anomaly"
    else if ltb settings.state_stale_after_seconds ((now - checked) / 1_000_000)
    then some "backend readiness state is stale"
    else if s.bypass_grace
    then some "backend readiness has a terminal auth failure"
    else if is_none s.last_success_at
    then some "backend readiness has not succeeded yet"
    else if at_least settings.failure_threshold s.consecutive_failures
    then some "backend readiness failure threshold reached"
    else none

module _ (iso : IsoFormat) where
  unfoldable pub state_after_probe :
      BackendReadinessState → BackendReadinessProbe → ℕ → BackendReadinessState
  state_after_probe previous probe now =
      if probe.ready
      then record {
        ready = some true;
        checked_at = some (iso.isoformat now);
        last_success_at = some (iso.isoformat now);
        failure_kind = none;
        failure_code = none;
        failure_message = none;
        failure_status_code = none;
        credential_type = probe.credential_type;
        refresh_state = probe.refresh_state;
        reauth_required = probe.reauth_required;
        consecutive_failures = pos 0;
        bypass_grace = false;
      }
      else record {
        ready = some false;
        checked_at = some (iso.isoformat now);
        last_success_at = previous.last_success_at;
        failure_kind = probe.failure_kind;
        failure_code = probe.failure_code;
        failure_message = probe.failure_message;
        failure_status_code = probe.failure_status_code;
        credential_type = probe.credential_type;
        refresh_state = probe.refresh_state;
        reauth_required = probe.reauth_required;
        consecutive_failures = sucℤ previous.consecutive_failures;
        bypass_grace = probe.bypass_grace;
      }

  unfoldable pub starting_state : ℕ → BackendReadinessState
  starting_state now = record {
    ready = some false;
    checked_at = some (iso.isoformat now);
    last_success_at = none;
    failure_kind = some "startup";
    failure_code = some "STARTING";
    failure_message = some "backend readiness has not succeeded yet";
    failure_status_code = none;
    credential_type = none;
    refresh_state = none;
    reauth_required = false;
    consecutive_failures = pos 0;
    bypass_grace = false;
  }

  abbrev pub in_utc : Option Datetime → Option ℕ
  in_utc none = none
  in_utc (some (Datetime.naive t)) = some t
  in_utc (some (Datetime.aware _ t)) = some t

  unfoldable pub parse_datetime : Option String → Option ℕ
  parse_datetime none = none
  parse_datetime (some s) = in_utc (iso.fromisoformat s)

  abbrev pub verdict_for :
      BackendReadinessState → ReadinessSettings → Option String → ReadinessVerdict
  unfolding state_with_effective_ready
  verdict_for s settings (some reason) = verdict false (some reason) (some s)
  verdict_for s settings none = verdict true none (some (state_with_effective_ready s settings))

  abbrev pub verdict_at :
      BackendReadinessState → ReadinessSettings → ℕ → Option ℕ → ReadinessVerdict
  unfolding readiness_unavailable_reason verdict_for
  verdict_at s settings now none =
      verdict false (some "backend readiness state is invalid") (some s)
  verdict_at s settings now (some checked) =
      verdict_for s settings (readiness_unavailable_reason s settings checked now)

  abbrev pub verdict_of : ReadinessSettings → ℕ → Option BackendReadinessState → ReadinessVerdict
  unfolding verdict_at parse_datetime
  verdict_of settings now none = verdict false (some "backend readiness state is missing") none
  verdict_of settings now (some s) = verdict_at s settings now (parse_datetime s.checked_at)

  -- `readiness_verdict`, with the file and the present time
  unfoldable pub readiness_verdict : ReadinessSettings → Option Json → ℕ → ReadinessVerdict
  unfolding verdict_of read_backend_readiness_state
  readiness_verdict settings file now =
      let found = verdict_of settings now (read_backend_readiness_state file) in
      if not settings.enabled then verdict true none none else found
