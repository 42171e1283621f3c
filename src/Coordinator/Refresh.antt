-- ===== src/Coordinator/Refresh.antt =====
-- auth_session/coordinator.py: `refresh` and `_dispatch_and_commit`. The exchange is the only
-- network seam: what it answers is the peer's, and so is what other processes do to the files, since
-- no lock is held from the end of `_prepare` to the commit: `before` until the request is sent, and
-- `meanwhile` until it is answered. A run keeps the requests that were sent, each with the files at
-- the release of the lock.
use enji_guard_cli.Prelude.{
  ℕ, String, ◌⧺◌, Bool, ◌||◌, Option, none, some, List, ◌∷◌, ◌=s◌, ◌==◌, if◌then◌else◌,
}
use enji_guard_cli.StateMachine.{ambiguity_replay}
use enji_guard_cli.Store.{StoredAuth}
use enji_guard_cli.Store.Attempt.{continuation_text}
use enji_guard_cli.Disk.{
  Disk, World, Session, Error, os_error, enji_error, terminal_revision_required, recovery_required,
  post_dispatch_persistence, Result, ok, err,
}
use enji_guard_cli.Coordinator.Prepare.{
  Preparation, dispatch, return_auth, wait_for_revision, prepare,
}
use enji_guard_cli.Coordinator.Response.{Response, response_continuation}
use enji_guard_cli.Coordinator.Commit.{commit_unknown, commit_response}
use enji_guard_cli.Coordinator.Wait.{
  Watch, Waited, advanced, import_required, wait_for_terminal_revision,
}

-- What `exchange_once` does: a response (with its status printed), a cancellation, an
-- `EnjiHttpError` with its code, or an `OSError` with the name of its type.
pub data Reply : Type 0 where
  responded : Response → String → Reply
  cancelled : Reply
  http_failed : String → Reply
  os_failed : String → Reply

pub record Peer : Type 0 where
  pub reply : StoredAuth → Reply
  pub before : Disk → Disk
  pub meanwhile : Disk → Disk
  pub watch : Watch
  pub wait_seconds : ℕ

pub record Sent : Type 0 where
  pub auth : StoredAuth
  pub released : Disk

-- `pre_dispatch_local` is `PreDispatchLocalError`; `raised` is any other exception.
pub data Outcome : Type 0 where
  returned : StoredAuth → Outcome
  raised : Error → Outcome
  pre_dispatch_local : Outcome
  task_cancelled : Outcome
  unfinished : Outcome

pub record Run : Type 0 where
  pub outcome : Outcome
  pub session : Session
  pub sent : List Sent

abbrev pub plain : Result StoredAuth → Outcome
plain (ok auth) = returned auth
plain (err e) = raised e

-- The codes that a cancelled task's commit may raise are dropped for the cancellation.
abbrev is_expected_code : String → Bool
is_expected_code code = code =s "AUTH_IMPORT_REQUIRED" || code =s "AUTH_RECOVERY_PENDING"

abbrev pub cancelling : Result StoredAuth → Outcome
cancelling (ok _) = task_cancelled
cancelling (err (terminal_revision_required _ _)) = task_cancelled
cancelling (err (recovery_required _ _ _)) = task_cancelled
cancelling (err (post_dispatch_persistence _ _)) = task_cancelled
cancelling (err (enji_error code message)) =
    if is_expected_code code then task_cancelled else raised (enji_error code message)
cancelling (err e) = raised e

-- An `OSError` of the commit of a response.
abbrev pub terminal_after : String → Result StoredAuth → Outcome
terminal_after src (err os_error) =
    raised (
      terminal_revision_required src
        "refresh dispatch completed; import a fresh browser credential")
terminal_after src r = plain r

-- `_normalized_response_class`; the status is printed by Python.
unfoldable pub normalized_response_class : Response → String → String
normalized_response_class r status =
    if r.status_code == 200
    then "success_or_incomplete_success"
    else "http_" ⧺ (status ⧺ ("_" ⧺ continuation_text (response_continuation r)))

abbrev ends : List Sent → (Result StoredAuth → Outcome) → Result StoredAuth × Session → Run
ends log f (r, s) = record { outcome = f r; session = s; sent = log }

unfoldable pub commit_reply : World → StoredAuth → List Sent → Session → Reply → Run
unfolding normalized_response_class
commit_reply w auth log s (responded r status) = ends log (terminal_after auth.revision) (
    commit_response auth r ("refresh rejected with HTTP " ⧺ status)
      ("refresh response HTTP " ⧺ status) (some (normalized_response_class r status)) w s)
commit_reply w auth log s cancelled =
    ends log cancelling
      (commit_unknown auth.revision "refresh task cancelled" ambiguity_replay none w s)
commit_reply w auth log s (http_failed code) =
    ends log plain
      (commit_unknown auth.revision ("transport failure: " ⧺ code) ambiguity_replay none w s)
commit_reply w auth log s (os_failed name) =
    ends log plain
      (commit_unknown auth.revision ("transport failure: " ⧺ name) ambiguity_replay none w s)

-- The request is sent once; the commit takes the lock again.
unfoldable pub dispatch_and_commit : World → Peer → StoredAuth → List Sent → Session → Run
dispatch_and_commit w p auth log s =
    commit_reply w auth (record { auth = auth; released = s.disk } ∷ log)
      (record s { disk = p.meanwhile (p.before s.disk) }) (p.reply auth)

abbrev pub waited : Option Waited → Outcome
waited none = unfinished
waited (some (advanced auth)) = returned auth
waited (some (import_required src)) = raised (
    terminal_revision_required src "refresh outcome is terminal; import a fresh browser credential")

abbrev pub after_prepare : ℕ → World → Peer → List Sent → Result Preparation × Session → Run
after_prepare fuel w p log (err os_error, s) = record {
  outcome = pre_dispatch_local;
  session = s;
  sent = log;
}
after_prepare fuel w p log (err e, s) = record { outcome = raised e; session = s; sent = log }
after_prepare fuel w p log (ok (return_auth auth), s) = record {
  outcome = returned auth;
  session = s;
  sent = log;
}
after_prepare fuel w p log (ok (wait_for_revision src), s) = record {
  outcome = waited (wait_for_terminal_revision fuel p.wait_seconds p.watch src);
  session = s;
  sent = log;
}
after_prepare fuel w p log (ok (dispatch auth), s) = dispatch_and_commit w p auth log s

unfoldable pub refresh : ℕ → World → Peer → Option StoredAuth → List Sent → Session → Run
refresh fuel w p expected log s = after_prepare fuel w p log (prepare expected w s)
