-- ===== src/Audit/Waiting.antt =====
-- audit/wait.py: the wait for the audits of a repository, with the properties of `AuditStatus` that
-- it reads. Times are microseconds, where the code has seconds as floats.
pub mod Ends
use Prim.Native.Nat.{◌%◌}
use enji_guard_cli.Prelude.{◌>>=◌}
use enji_guard_cli.Prelude.{
  ℤ, pos, negsuc, ℕ, zero, suc, ◌+◌, ◌-◌, ◌/◌, String, Bool, true, false, not, ◌&&◌, ◌||◌, Option,
  none, some, List, [], ◌∷◌, ltb, leb, ◌==◌, if◌then◌else◌, any,
}
use enji_guard_cli.Audit.{AuditTaskLifecycle, AuditStatusItem, AuditStatus}
use enji_guard_cli.Audit.Lifecycle.{is_live, task_lifecycle}

-- The options may be negative.
pub record AuditWaitOptions : Type 0 where
  pub poll_seconds : ℤ
  pub timeout_seconds : ℤ
  pub heartbeat_seconds : ℤ

pub data WaitReason : Type 0 where
  all_complete waiting failed_run missing_report timeout : WaitReason

pub record AuditWaitResult : Type 0 where
  pub repo_id : String
  pub status : AuditStatus
  pub complete : Bool
  pub timed_out : Bool
  pub reason : WaitReason
  pub elapsed_seconds : ℕ

-- `AuditStatusItem.active`
abbrev pub is_active_item : AuditStatusItem → Bool
is_active_item i = is_live i.task_lifecycle

abbrev pub is_missing_item : AuditStatusItem → Bool
is_missing_item i = not i.can_read

abbrev pub is_failed : AuditTaskLifecycle → Bool
is_failed AuditTaskLifecycle.failed = true
is_failed _ = false

abbrev pub is_failed_item : AuditStatusItem → Bool
is_failed_item i = is_failed i.task_lifecycle

-- `AuditStatus.complete`
unfoldable pub is_complete : AuditStatus → Bool
is_complete s =
    not (any is_active_item s.items)
    && not (any is_missing_item s.items)
    && not (any is_failed_item s.items)

-- `round` of a number of microseconds to seconds: to the even one between two.
unfoldable pub round_seconds : ℕ → ℕ
round_seconds n =
    let q = n / 1_000_000 in
    let r = n % 1_000_000 in
    if ltb r 500_000 then q else if ltb 500_000 r then suc q else if (q % 2) == 0 then q else suc q

unfoldable pub wait_result : String → AuditStatus → ℕ → Bool → ℕ → AuditWaitResult
unfolding is_complete round_seconds
wait_result repo status started timed_out now = record {
  repo_id = repo;
  status = status;
  complete = is_complete status && not timed_out;
  timed_out = timed_out;
  reason =
      if any is_failed_item status.items
      then WaitReason.failed_run
      else if timed_out
      then WaitReason.timeout
      else if any is_active_item status.items
      then WaitReason.waiting
      else if any is_missing_item status.items
      then WaitReason.missing_report
      else WaitReason.all_complete;
  elapsed_seconds = round_seconds (now - started);
}

-- `AuditWaitDependencies`, with the readings that they answer: a status is `none` where reading it
-- raises. The heartbeat is a callback.
pub record AuditWaitDependencies : Type 0 where
  pub read_status : ℕ → Option AuditStatus
  pub monotonic : ℕ → ℕ

-- How a wait ends: with a result, or with the error of a reading; and the heartbeats before.
pub data WaitEnd : Type 0 where
  returned : AuditWaitResult → List AuditWaitResult → WaitEnd
  unread : List AuditWaitResult → WaitEnd

abbrev pub is_final : WaitReason → Bool
is_final WaitReason.failed_run = true
is_final WaitReason.missing_report = true
is_final _ = false

abbrev pub beat_first : AuditWaitResult → WaitEnd → WaitEnd
beat_first b (returned r beats) = returned r (b ∷ beats)
beat_first b (unread beats) = unread (b ∷ beats)

-- The heartbeat of a round, if it is time for one.
abbrev pub with_beat : Bool → AuditWaitResult → Option WaitEnd → Option WaitEnd
with_beat false b e = e
with_beat true b none = none
with_beat true b (some e) = some (beat_first b e)

-- The loop. Round `k` reads the clock for the `k + 1`-st time; `beat` is `next_heartbeat_at`, and
-- `beats` says whether there is a heartbeat. `none` means that the fuel ran out.
unfoldable pub wait_loop :
    ℕ → AuditWaitDependencies → String → Bool → ℕ → ℕ → ℕ → ℕ → ℕ → Option WaitEnd
unfolding wait_result
wait_loop zero d repo beats heartbeat started deadline beat k = none
wait_loop (suc f) d repo beats heartbeat started deadline beat k =
    let now = d.monotonic (suc k) in
    let due = beats && leb beat now in
    let rest =
      wait_loop f d repo beats heartbeat started deadline (if due then beat + heartbeat else beat)
        (suc k) in
    elim (d.read_status k) [
      | none ↦ some (unread [])
      | some status ↦
          let result = wait_result repo status started (leb deadline now) now in
          if result.complete || is_final result.reason || leb deadline now
          then some (returned result [])
          else with_beat due result rest
    ]

abbrev pub positive : ℤ → Option ℕ
positive (pos (suc n)) = some (suc n)
positive _ = none

abbrev pub not_negative : ℤ → Option ℕ
not_negative (pos n) = some n
not_negative (negsuc _) = none

pub record WaitTimes : Type 0 where
  pub poll : ℕ
  pub timeout : ℕ
  pub heartbeat : ℕ

-- `none` is the `ValueError`.
unfoldable pub validate_wait_options : AuditWaitOptions → Option WaitTimes
validate_wait_options o = do
  poll ← positive o.poll_seconds
  limit ← not_negative o.timeout_seconds
  heartbeat ← positive o.heartbeat_seconds
  some (record { poll = poll; timeout = limit; heartbeat = heartbeat })

-- `none` is the `ValueError`, `some none` that the fuel ran out.
unfoldable pub wait_for_completion :
    ℕ → AuditWaitDependencies → String → AuditWaitOptions → Bool → Option (Option WaitEnd)
unfolding wait_loop validate_wait_options
wait_for_completion fuel d repo options beats = do
  t ← validate_wait_options options
  let started = d.monotonic 0
  some (wait_loop fuel d repo beats t.heartbeat started (started + t.timeout) started 0)
