-- ===== src/Coordinator/Once.antt =====
-- auth_session/coordinator.py: `refresh` as a whole: it sends one request at most, and it ends.
use enji_guard_cli.Polling.{Sleeps}
use enji_guard_cli.Coordinator.Commit.{commit_unknown}
use enji_guard_cli.StateMachine.{ambiguity_replay}
use enji_guard_cli.Prelude.{
  arith, String, ℕ, suc, ◌+◌, ◌*◌, ◌≤◌, Option, none, some, List, ◌∷◌, ◌≡◌, ◌≢◌, refl,
}
use enji_guard_cli.StateMachine.{requested}
use enji_guard_cli.Store.{StoredAuth, RotationAttempt}
use enji_guard_cli.Disk.{World, Session, Result, ok, err, os_error}
use enji_guard_cli.Coordinator.Prepare.{
  Preparation, dispatch, return_auth, wait_for_revision, prepare,
}
use enji_guard_cli.Coordinator.Refresh.{
  plain, terminal_after, cancelling, Peer, Reply, responded, cancelled, http_failed, os_failed,
  Sent, unfinished, after_prepare, dispatch_and_commit, commit_reply, refresh, waited,
}
use enji_guard_cli.Coordinator.Rules.{Holds, AnyError}
use enji_guard_cli.Coordinator.Safety.{IsWritten, Announced}
use enji_guard_cli.Coordinator.Wait.{
  Waited, advanced, import_required, wait_for_terminal_revision, Watch, terminal_poll, wait_ends,
}

-- The journal file, as it was when the lock was released, holds the request with its attempt, of
-- which `P` is said.
pub record IsAnnounced (P : StoredAuth → RotationAttempt → Type 0) (e : Sent) : Type 0 where
  pub attempt : RotationAttempt
  pub allowed : P e.auth attempt
  pub written : IsWritten (requested e.auth.revision) attempt e.released.journal

-- Nothing was sent, or one request that was announced.
pub data AtMostOne (P : StoredAuth → RotationAttempt → Type 0) (log : List Sent)
    : List Sent → Type 0 where
  silent : AtMostOne P log log
  once : (e : Sent) → IsAnnounced P e → AtMostOne P log (e ∷ log)

commit_reply-sent :
    (w : World) (auth : StoredAuth) (log : List Sent) (s : Session) (r : Reply)
    → (commit_reply w auth log s r).sent ≡ log
unfolding commit_reply
commit_reply-sent w auth log s (responded r status) = refl
commit_reply-sent w auth log s cancelled = refl
commit_reply-sent w auth log s (http_failed code) = refl
commit_reply-sent w auth log s (os_failed name) = refl

module _ (P : StoredAuth → RotationAttempt → Type 0) where
  dispatched :
      (w : World) (p : Peer) (auth : StoredAuth) (log : List Sent) (s : Session)
      → Announced P (dispatch auth) s
      → AtMostOne P log (dispatch_and_commit w p auth log s).sent
  unfolding dispatch_and_commit Announced
  dispatched w p auth log s (attempt, allowed, written) =
      rw (commit_reply-sent w auth _ _ (p.reply auth)) (
        once (record { auth = auth; released = s.disk })
          (record { attempt = attempt; allowed = allowed; written = written }))

  pub sent_after :
      (fuel : ℕ) (w : World) (p : Peer) (log : List Sent) (r : Result Preparation × Session)
      → Holds (Announced P) AnyError r
      → AtMostOne P log (after_prepare fuel w p log r).sent
  sent_after fuel w p log (ok (dispatch auth), s) h = dispatched w p auth log s h
  sent_after fuel w p log (ok (return_auth auth), s) h = silent
  sent_after fuel w p log (ok (wait_for_revision src), s) h = silent
  sent_after fuel w p log (err os_error, s) h = silent
  sent_after fuel w p log (err _, s) h = silent

waited_ends :
    (v : Watch) (src : String) (seconds f : ℕ)
    → Sleeps terminal_poll (v.monotonic 0 + seconds) v.monotonic
    → seconds ≤ terminal_poll * f
    → waited (wait_for_terminal_revision (suc f) seconds v src) ≢ unfinished
waited_ends v src seconds f h d e =
    let (r, g, due) = wait_ends v src seconds f h d in answered r (rw (← g) e)
  where
    answered : (r : Waited) → waited (some r) ≢ unfinished
    answered (advanced auth) e = cc
    answered (import_required src) e = cc

plain_ends : (r : Result StoredAuth) → plain r ≢ unfinished
plain_ends (ok auth) e = cc
plain_ends (err x) e = cc

terminal_ends : (src : String) (r : Result StoredAuth) → terminal_after src r ≢ unfinished
terminal_ends src r e = ground arith

cancelling_ends : (r : Result StoredAuth) → cancelling r ≢ unfinished
cancelling_ends r e = ground arith

committed_ends :
    (w : World) (auth : StoredAuth) (log : List Sent) (s : Session) (r : Reply)
    → (commit_reply w auth log s r).outcome ≢ unfinished
unfolding commit_reply
committed_ends w auth log s (responded r status) e = terminal_ends _ _ e
committed_ends w auth log s cancelled e =
    cancelling_ends
      (commit_unknown auth.revision "refresh task cancelled" ambiguity_replay none w s).0 e
committed_ends w auth log s (http_failed code) e = plain_ends _ e
committed_ends w auth log s (os_failed name) e = plain_ends _ e

prepared_ends :
    (w : World) (p : Peer) (log : List Sent) (f : ℕ)
    → Sleeps terminal_poll (p.watch.monotonic 0 + p.wait_seconds) p.watch.monotonic
    → p.wait_seconds ≤ terminal_poll * f
    → (r : Result Preparation × Session) → (after_prepare (suc f) w p log r).outcome ≢ unfinished
unfolding dispatch_and_commit
prepared_ends w p log f h d (ok (dispatch auth), s) e = committed_ends w auth _ _ (p.reply auth) e
prepared_ends w p log f h d (ok (return_auth auth), s) e = cc
prepared_ends w p log f h d (ok (wait_for_revision src), s) e =
    waited_ends p.watch src p.wait_seconds f h d e
prepared_ends w p log f h d (err os_error, s) e = cc
prepared_ends w p log f h d (err _, s) e = cc

-- If the clock keeps the sleeps, one round more than the polls that the wait has time for is
-- enough fuel: every call of `refresh` ends with a credential or an exception.
pub refresh_ends :
    (f : ℕ) (w : World) (p : Peer) (expected : Option StoredAuth) (log : List Sent) (s : Session)
    → Sleeps terminal_poll (p.watch.monotonic 0 + p.wait_seconds) p.watch.monotonic
    → p.wait_seconds ≤ terminal_poll * f
    → (refresh (suc f) w p expected log s).outcome ≢ unfinished
unfolding refresh
refresh_ends f w p expected log s h d e = prepared_ends w p log f h d (prepare expected w s) e
