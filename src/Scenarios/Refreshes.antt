-- ===== src/Scenarios/Refreshes.antt =====
-- A whole refresh, and the projection of a retained successor, at concrete inputs.
use enji_guard_cli.Coordinator.Startup.{RetainedSuccessor, project_retained_successor}
use enji_guard_cli.Prelude.{◌*◌, ◌≢◌, none, [], arith}
use enji_guard_cli.Polling.{Sleeps}
use enji_guard_cli.Coordinator.Once.{AtMostOne, refresh_ends}
use enji_guard_cli.Coordinator.Resent.{SentAfter, request_follows_journal}
use enji_guard_cli.Store.{journal_loaded}
use enji_guard_cli.StateMachine.{outcome_unknown, safe_retry}
use enji_guard_cli.Disk.{World, Session, File, absent, json}
use enji_guard_cli.Disk.Files.{journal_of}
use enji_guard_cli.Store.Journal.{journal_payload}
use enji_guard_cli.Store.AuthFile.{auth_fields}
use enji_guard_cli.Json.{Json, object}
use enji_guard_cli.Timestamps.{binary_format}
use enji_guard_cli.Recovery.Schedule.{unknown_journal_readable}
use enji_guard_cli.Prelude.{Option, subst, sym, some, refl, false, ◌+◌, ◌≡◌}
use enji_guard_cli.Scenarios.Fixtures.{first, retried, valid_first, IsCounted-retried}
use enji_guard_cli.Coordinator.Refresh.{unfinished, cancelled, Peer, refresh}
use enji_guard_cli.Coordinator.Wait.{terminal_poll}
use enji_guard_cli.Store.{auth_absent, cookie}
use enji_guard_cli.Coordinator.Given.{FromFiles}
use enji_guard_cli.Coordinator.Retained.{IsRetained, project_retained_successor-IsRetained}
use enji_guard_cli.Scenarios.Fixtures.{auth, world, start}

-- The exchange is cancelled, nobody else touches the files, and the credential file cannot be read
-- by a waiter.
abbrev peer : Peer
peer = record {
  reply = λ a. cancelled;
  before = λ disk. disk;
  meanwhile = λ disk. disk;
  watch = record {
    monotonic = λ k. k * 50_000;
    revision_read = λ k. auth_absent;
    credential_read = λ k. auth_absent;
  };
  wait_seconds = 100_000;
}

-- The outcome of the first dispatch is unknown, and its retry is due at time 20000000.
abbrev due : World
due = record world { now = λ n. 20000000 + n }

abbrev file_of : Option Json → File
file_of none = absent
file_of (some p) = json p

abbrev pending_file : File
pending_file = file_of (journal_payload (outcome_unknown "r1" "HTTP 502") false (some retried))

abbrev pending : Session
pending = record {
  disk = record {
    credential = json (object (auth_fields auth));
    journal = pending_file;
    outbox = absent;
  };
  asked = 0;
}

pending_read :
    journal_of due pending_file
    ≡ some (journal_loaded (outcome_unknown "r1" "HTTP 502") false (some retried) none)
pending_read =
    let (p, w, r) =
      unknown_journal_readable binary_format "r1" "HTTP 502" (binary_format.isoformat 900000000)
        first safe_retry none 2 false refl valid_first in
    subst
      (λ o.
        journal_of due (file_of o)
        ≡ some (journal_loaded (outcome_unknown "r1" "HTTP 502") false (some retried) none))
      (sym w) r

request_follows_journal_example :
    AtMostOne
      (SentAfter (outcome_unknown "r1" "HTTP 502") retried)
      []
      (refresh 3 due peer none [] pending).sent
request_follows_journal_example =
    request_follows_journal 3 due peer none [] pending (outcome_unknown "r1" "HTTP 502") false
      retried none pending_read IsCounted-retried

peer-Sleeps : Sleeps terminal_poll 100_000 (λ k. k * 50_000)
peer-Sleeps = record { forward = omega arith; slept = λ k. ground arith }

refresh_ends_example : (refresh 3 world peer none [] start).outcome ≢ unfinished
refresh_ends_example = refresh_ends 2 world peer none [] start peer-Sleeps (omega arith)

-- A successor of the stored credential.
abbrev retained_next : RetainedSuccessor
retained_next = record {
  source_revision = "r1";
  auth = record auth { revision = "r2"; credential = cookie "refresh=b" };
}

project_retained_successor-IsRetained_example :
    FromFiles world start.disk
      (λ p s. IsRetained world start.disk retained_next p)
      (project_retained_successor retained_next)
project_retained_successor-IsRetained_example =
    project_retained_successor-IsRetained world start.disk retained_next
