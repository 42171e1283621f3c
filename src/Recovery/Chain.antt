-- ===== src/Recovery/Chain.antt =====
-- The dispatches that one credential revision can be given, through any sequence of outcomes,
-- restarts and recoveries (auth_session/coordinator.py).
use enji_guard_cli.Prelude.{
  ℕ, suc, ◌+◌, ◌≤◌, ◌<◌, String, false, Option, some, ◌≡◌, arith, ◌∙◌, ap, ◌=s◌, subst,
}
use enji_guard_cli.Timestamps.{IsoFormat}
use enji_guard_cli.StateMachine.{RecoveryContinuation}
use enji_guard_cli.Store.{AttemptKind, RotationAttempt, attempt_of}
use enji_guard_cli.Recovery.{
  RefreshOwner, owned_by, without_owner, classed, exhausted, with_continuation,
  next_recovery_attempt, deadline_passed, next_of, or_deadline,
}
use enji_guard_cli.Recovery.Budget.{IsCounted, next_recovery_attempt-IsNext, next-IsCounted}
use enji_guard_cli.Recovery.Schedule.{
  IsContinued, stopped, scheduled, with_continuation-IsContinued,
}

-- `RotationAttempt(current["revision"], "normal", 1, recovery_deadline=self._recovery_deadline())`
abbrev pub first_attempt : String → String → RotationAttempt
first_attempt id deadline =
    let base = attempt_of id AttemptKind.normal 1 in
    record base { recovery_deadline = some deadline }

-- `Life iso id d n last a`: after `n` dispatches of one revision, the last chosen at the reading
-- `last` of the clock, its journal may hold the attempt `a`. The first deadline is `d`.
pub data Life (iso : IsoFormat) (id d : String) : ℕ → RotationAttempt → Type 0 where
  dispatch : (o : RefreshOwner) → Life iso id d 1 (owned_by (first_attempt id d) o)
  redispatch :
      {n : ℕ} {a : RotationAttempt} (b : RotationAttempt) (o : RefreshOwner) (now : ℕ)
      → Life iso id d n a
      → next_recovery_attempt iso a now ≡ some b
      → Life iso id d (suc n) (owned_by b o)
  unknown :
      {n : ℕ} {a : RotationAttempt} (c : RecoveryContinuation) (deadline : String) (now : ℕ)
      (label : Option String)
      → Life iso id d n a
      → Life iso id d n (classed (with_continuation iso a c deadline now) label)
  exhaust : {n : ℕ} {a : RotationAttempt} → Life iso id d n a → Life iso id d n (exhausted a)
  disown : {n : ℕ} {a : RotationAttempt} → Life iso id d n a → Life iso id d n (without_owner a)

-- What each of the attempts has: an account of exactly the dispatches made, and the first deadline.
pub record IsAccount (d : String) (n : ℕ) (a : RotationAttempt) : Type 0 where
  pub account : IsCounted a
  pub number : a.dispatch_count ≡ n
  pub deadline : a.recovery_deadline ≡ some d

owned-IsAccount :
    (d : String) (n : ℕ) (a : RotationAttempt) (o : RefreshOwner)
    → IsAccount d n a
    → IsAccount d n (owned_by a o)
unfolding owned_by
owned-IsAccount d n a o h = ground arith

or_deadline_lem :
    (d deadline : String) (o : Option String)
    → (d =s "") ≡ false
    → o ≡ some d
    → or_deadline o deadline ≡ d
or_deadline_lem d deadline o n e = rw e (rw n)

continued-IsAccount :
    (iso : IsoFormat) (d deadline : String) (n : ℕ) (a b : RotationAttempt)
    (c : RecoveryContinuation) (now : ℕ) (label : Option String)
    → (d =s "") ≡ false
    → IsAccount d n a
    → IsContinued iso a c deadline now b
    → IsAccount d n (classed b label)
unfolding classed
continued-IsAccount iso d deadline n a b c now label m h (stopped why e p) =
    rw p (ground (arith, or_deadline_lem d deadline a.recovery_deadline m h.deadline))
continued-IsAccount iso d deadline n a b c now label m h (scheduled room early p) =
    rw p (ground (arith, or_deadline_lem d deadline a.recovery_deadline m h.deadline))

next_deadline :
    (a b : RotationAttempt) (c : RecoveryContinuation)
    → b ≡ next_of a c
    → b.recovery_deadline ≡ a.recovery_deadline
next_deadline a b c e = ap (λ (x : RotationAttempt). x.recovery_deadline) e

next-IsAccount :
    (iso : IsoFormat) (d : String) (n : ℕ) (a b : RotationAttempt) (now : ℕ)
    → IsAccount d n a
    → next_recovery_attempt iso a now ≡ some b
    → IsAccount d (suc n) b
next-IsAccount iso d n a b now h e =
    let (k, m) = next-IsCounted iso a b now h.account e in
    let (c, s) = next_recovery_attempt-IsNext iso a b now e in
    record {
      account = k;
      number = omega (arith, m, h.number);
      deadline = next_deadline a b c s.is_next ∙ h.deadline;
    }

-- Every attempt of a life keeps the account.
Life-IsAccount :
    {iso : IsoFormat} {id d : String} {n : ℕ} {a : RotationAttempt}
    → (d =s "") ≡ false
    → Life iso id d n a
    → IsAccount d n a
unfolding owned_by exhausted without_owner
Life-IsAccount m (dispatch o) = ground arith
Life-IsAccount {iso} {d = d} m (redispatch {n} {a} b o now l e) =
    owned-IsAccount d (suc n) b o (next-IsAccount iso d n a b now (Life-IsAccount m l) e)
Life-IsAccount {iso} {d = d} m (unknown {n} {a} c deadline now label l) =
    continued-IsAccount iso d deadline n a _ c now label m (Life-IsAccount m l)
      (with_continuation-IsContinued iso a c deadline now)
Life-IsAccount m (exhaust l) = let h = Life-IsAccount m l in ground arith
Life-IsAccount m (disown l) = let h = Life-IsAccount m l in ground arith

redispatch_account :
    (iso : IsoFormat) (d : String) (n : ℕ) (a b : RotationAttempt) (now : ℕ)
    → IsAccount d n a
    → next_recovery_attempt iso a now ≡ some b
    → (n < 6) × (deadline_passed iso (some d) now ≡ false)
redispatch_account iso d n a b now h e =
    let (c, s) = next_recovery_attempt-IsNext iso a b now e in
    (
      omega (arith, s.room, h.account.capped, h.number),
      subst (λ x. deadline_passed iso x now ≡ false) h.deadline s.in_time,
    )

-- Through any sequence of dispatches, unknown outcomes, stops and recoveries that keeps the
-- journal's attempt, one credential revision, first dispatched with a deadline that is not empty,
-- is dispatched at most six times: once, and for at most four safe retries, one validation
-- recovery and one ambiguity replay, and the attempt counts each.
pub dispatch_budget :
    (iso : IsoFormat) (id d : String) (n : ℕ) (a : RotationAttempt)
    → (d =s "") ≡ false
    → Life iso id d n a
    → (n ≤ 6)
      × (n ≡ 1 + a.safe_retry_count + a.validation_retry_count + a.ambiguity_replay_count)
      × (a.safe_retry_count ≤ 4)
      × (a.validation_retry_count ≤ 1)
      × (a.ambiguity_replay_count ≤ 1)
dispatch_budget iso id d n a m l = let h = Life-IsAccount m l in omega arith

-- A further dispatch of such a revision is chosen only below the cap, and only before the
-- deadline that the first dispatch was given: no outcome moves it.
pub redispatch_in_time :
    (iso : IsoFormat) (id d : String) (n : ℕ) (a b : RotationAttempt) (now : ℕ)
    → (d =s "") ≡ false
    → Life iso id d n a
    → next_recovery_attempt iso a now ≡ some b
    → (n < 6) × (deadline_passed iso (some d) now ≡ false)
redispatch_in_time iso id d n a b now m l e =
    redispatch_account iso d n a b now (Life-IsAccount m l) e
