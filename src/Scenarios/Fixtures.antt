-- ===== src/Scenarios/Fixtures.antt =====
-- The values that the scenarios share. Times are microseconds in the binary format.
use enji_guard_cli.Prelude.{true, none, some, ◌+◌, ◌≡◌, refl}
use enji_guard_cli.Json.{object}
use enji_guard_cli.Timestamps.{IsoFormat, binary_format}
use enji_guard_cli.StateMachine.{
  RotationOutcome, safe_retry, safe_retry_delay, AuthorizeRecoveryDispatch,
}
use enji_guard_cli.Store.{cookie, StoredAuth, RotationAttempt, OutcomeOutboxRecord}
use enji_guard_cli.Store.AuthFile.{auth_fields}
use enji_guard_cli.Store.Attempt.{rotation_attempt_is_valid}
use enji_guard_cli.Recovery.{RefreshOwner, owned_by, with_continuation, classed}
use enji_guard_cli.Recovery.Budget.{IsCounted}
use enji_guard_cli.Recovery.Chain.{first_attempt}
use enji_guard_cli.Prelude.{arith}
use enji_guard_cli.Disk.{World, Session, json, absent, done}

abbrev pub auth : StoredAuth
auth = record {
  revision = "r1";
  base_url = "https://enji.example";
  credential = cookie "refresh=a";
  imported_at = binary_format.isoformat 0;
}

abbrev pub owner : RefreshOwner
owner = record { boot_id = "boot"; pid = 7; start_ticks = "99" }

abbrev pub first : RotationAttempt
first = owned_by (first_attempt "r1" (binary_format.isoformat 900000000)) owner

-- The outcome of the first dispatch is unknown at time 2, and a safe retry is scheduled.
abbrev pub retried : RotationAttempt
retried =
    classed (with_continuation binary_format first safe_retry (binary_format.isoformat 900000000) 2)
      none

abbrev pub world : World
world = record {
  iso = binary_format;
  now = λ n. n;
  fate = λ n. done;
  uuid = λ n. "fresh";
  owner = λ n. some owner;
  alive = λ n o. true;
  accepts = λ n r. true;
}

abbrev pub start : Session
start = record {
  disk = record {
    credential = json (object (auth_fields auth));
    journal = absent;
    outbox = absent;
  };
  asked = 0;
}

abbrev pub keyed : OutcomeOutboxRecord
keyed = record { outcome = RotationOutcome.rejected; event_key = "auth-rotation:r1:rejected" }

abbrev pub permit : AuthorizeRecoveryDispatch
permit = record {
  continuation = safe_retry;
  dispatch_count = 2;
  safe_retry_count = 1;
  validation_retry_count = 0;
  ambiguity_replay_count = 0;
  dispatch_cap = 6;
  cooldown_elapsed = true;
  deadline_open = true;
}

pub valid_first : rotation_attempt_is_valid first ≡ true
unfolding rotation_attempt_is_valid owned_by
valid_first = refl

pub valid_retried : rotation_attempt_is_valid retried ≡ true
unfolding rotation_attempt_is_valid classed with_continuation
    enji_guard_cli.Recovery.continuation_available owned_by enji_guard_cli.Recovery.parse_deadline
    enji_guard_cli.Timestamps.undigits enji_guard_cli.Timestamps.digits
valid_retried = refl

pub scheduled_time : retried.next_attempt_at ≡ some (binary_format.isoformat (2 + safe_retry_delay))
unfolding classed with_continuation enji_guard_cli.Recovery.continuation_available owned_by
    enji_guard_cli.Recovery.parse_deadline enji_guard_cli.Timestamps.undigits
    enji_guard_cli.Timestamps.digits
scheduled_time = refl

pub IsCounted-retried : IsCounted retried
unfolding classed with_continuation enji_guard_cli.Recovery.continuation_available
    enji_guard_cli.Recovery.owned_by enji_guard_cli.Recovery.parse_deadline
    enji_guard_cli.Timestamps.undigits enji_guard_cli.Timestamps.digits
IsCounted-retried = record {
  counted = refl;
  safe = omega arith;
  validation = omega arith;
  ambiguity = omega arith;
  capped = refl;
  within = omega arith;
}
