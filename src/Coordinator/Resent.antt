-- ===== src/Coordinator/Resent.antt =====
-- auth_session/coordinator.py: how the request that a whole `refresh` sends follows on the journal that
-- it finds.
use enji_guard_cli.Prelude.{inl, inr, ◌⊎◌, ◌≢◌, refl}
use enji_guard_cli.StateMachine.{ready, reserved, rotated, rejected}
use enji_guard_cli.Store.Attempt.{retry_count}
use enji_guard_cli.Recovery.Chain.{first_attempt}
use enji_guard_cli.Coordinator.Permits.{Permits}
use enji_guard_cli.Coordinator.Once.{AtMostOne, sent_after}
use enji_guard_cli.StateMachine.{ambiguity_replay}
use enji_guard_cli.Prelude.{arith, String, ℕ, ◌+◌, Option, some, List, ◌≡◌, refl}
use enji_guard_cli.StateMachine.{requested}
use enji_guard_cli.Store.{StoredAuth, RotationAttempt}
use enji_guard_cli.Disk.{World, Session}
use enji_guard_cli.Coordinator.Refresh.{Peer, Sent, refresh}
use enji_guard_cli.Coordinator.Permits.{Resumable, Interruptible, PermitsJournal, prepare-Announced}
use enji_guard_cli.Recovery.Budget.{IsCounted, next-IsCounted}
use enji_guard_cli.Recovery.Schedule.{
  IsContinued, stopped, scheduled, with_continuation-IsContinued,
}
use enji_guard_cli.Recovery.{RefreshOwner, owned_by}
use enji_guard_cli.Timestamps.{IsoFormat}
use enji_guard_cli.StateMachine.{
  RotationState, outcome_unknown, source_revision, RecoveryContinuation,
}
use enji_guard_cli.Store.{journal_loaded}
use enji_guard_cli.Disk.Files.{journal_of}
use enji_guard_cli.Prelude.{Bool, ap, sym, subst, ◌∙◌}

-- The attempt of a first dispatch.
pub record IsFirst (b : RotationAttempt) : Type 0 where
  pub number : b.dispatch_count ≡ 1
  pub no_retry : retry_count b ≡ 0

-- The attempt of a request that follows on the journal of its revision: it counts one dispatch more
-- for a request in flight and for an unknown outcome, is a first one after a reservation, whose own
-- attempt is dropped, and there is none after any other state.
abbrev pub Follows : RotationState → RotationAttempt → RotationAttempt → Type 0
Follows (requested src) a b = IsCounted b × (b.dispatch_count ≡ a.dispatch_count + 1)
Follows (outcome_unknown src why) a b = IsCounted b × (b.dispatch_count ≡ a.dispatch_count + 1)
Follows (reserved src) a b = IsFirst b
Follows _ a b = ⊥

-- What is sent is for the revision of the journal, and follows on it, or is a first request for
-- another revision.
abbrev pub SentAfter : RotationState → RotationAttempt → StoredAuth → RotationAttempt → Type 0
SentAfter st a auth b =
    ((auth.revision ≡ source_revision st) × Follows st a b)
    ⊎ ((auth.revision ≢ source_revision st) × IsFirst b)

owned-IsCounted : (b : RotationAttempt) (o : RefreshOwner) → IsCounted b → IsCounted (owned_by b o)
unfolding owned_by
owned-IsCounted b o k = ground arith

continued_counts :
    (iso : IsoFormat) (a b : RotationAttempt) (c : RecoveryContinuation) (deadline : String)
    (now : ℕ)
    → IsCounted a
    → IsContinued iso a c deadline now b
    → IsCounted b × (b.dispatch_count ≡ a.dispatch_count)
continued_counts iso a b c deadline now k (stopped why n e) = rw e (ground arith)
continued_counts iso a b c deadline now k (scheduled room early e) = rw e (ground arith)

module _ (st : RotationState) (a : RotationAttempt) (current : StoredAuth) where
  resumed_counts :
      (x : RotationAttempt)
      → ((b : RotationAttempt)
          → IsCounted b × (b.dispatch_count ≡ a.dispatch_count + 1)
          → SentAfter st a current b)
      → IsCounted x
      → x.dispatch_count ≡ a.dispatch_count
      → Resumable (SentAfter st a) current x
  unfolding owned_by
  resumed_counts x f h n iso b now e o =
      let (m, more) = next-IsCounted iso x b now h e in
      f (owned_by b o) (owned-IsCounted b o m, more ∙ ap (λ i. i + 1) n)

  interrupted_counts :
      ((b : RotationAttempt)
        → IsCounted b × (b.dispatch_count ≡ a.dispatch_count + 1)
        → SentAfter st a current b)
      → IsCounted a
      → Interruptible (SentAfter st a) current a
  interrupted_counts f k iso deadline now =
      let (h, n) =
        continued_counts iso a _ ambiguity_replay deadline now k
          (with_continuation-IsContinued iso a ambiguity_replay deadline now) in
      resumed_counts _ f h n

first_attempt-IsFirst :
    (id deadline : String) (o : RefreshOwner) → IsFirst (owned_by (first_attempt id deadline) o)
unfolding owned_by
first_attempt-IsFirst id deadline o = record { number = refl; no_retry = refl }

allowed_after :
    (st : RotationState) (a : RotationAttempt)
    → IsCounted a
    → (current : StoredAuth) → source_revision st ≡ current.revision
    → Permits (SentAfter st a) current st a
allowed_after (requested src) a k current h =
    interrupted_counts (requested src) a current (λ b f. inl (sym h, f)) k
allowed_after (outcome_unknown src why) a k current h =
    resumed_counts (outcome_unknown src why) a current a (λ b f. inl (sym h, f)) k refl
allowed_after (reserved src) a k current h =
    λ deadline o. inl (sym h, first_attempt-IsFirst current.revision deadline o)
allowed_after (ready src) a k current h = tt
allowed_after (rotated src header next) a k current h = tt
allowed_after (rejected src why) a k current h = tt

-- One call of `refresh` that finds a readable journal with a counted attempt sends at most one
-- request, whatever the environment, the peer and other processes do, and if it sends one, the
-- journal file held that request with its attempt when the lock was released before. If the request
-- is for the revision of the journal, then the journal had a request in flight or an unknown outcome,
-- and the attempt counts one dispatch more than the journal's, within the limit of every lane and of
-- six dispatches in all; or the journal had a reservation, and the attempt is a first one. If it is
-- for another revision, the attempt is a first one.
pub request_follows_journal :
    (fuel : ℕ) (w : World) (p : Peer) (expected : Option StoredAuth) (log : List Sent) (s : Session)
    (st : RotationState) (flag : Bool) (a : RotationAttempt) (migrated : Option ℕ)
    → journal_of w s.disk.journal ≡ some (journal_loaded st flag (some a) migrated)
    → IsCounted a
    → AtMostOne (SentAfter st a) log (refresh fuel w p expected log s).sent
unfolding refresh
request_follows_journal fuel w p expected log s st flag a migrated h k =
    sent_after (SentAfter st a) fuel w p log _ (
      prepare-Announced (SentAfter st a) expected w s (λ j e current.
        let same : journal_loaded st flag (some a) migrated ≡ j = cc (h, e) in
        subst (PermitsJournal (SentAfter st a) current) same (
          allowed_after st a k current,
          λ n deadline o.
              inr (λ q. absurd (n (sym q)), first_attempt-IsFirst current.revision deadline o),
        )))
