-- ===== src/Lib.antt =====
-- enji-guard-cli keeps a browser credential for the Enji service on disk and renews it. A refresh
-- cookie is good for one exchange, so a renewal that is cut off, sent twice or stored badly loses
-- the account. With the credential it starts audits of repositories, which are billed, and keeps a
-- local ledger of the runs it has started, so that none is started twice. This library models the
-- parts of the program that guard against both, in src/enji_guard_cli/auth_session and
-- src/enji_guard_cli/audit.
--
-- How the parts interact. The coordinator (coordinator.py) takes the file lock, reads the credential
-- file and the refresh journal, and lets the state machine (state_machine.py) decide on a
-- transition. It writes the journal before the exchange that the transition asks for, classifies the
-- response, and commits: a new credential by compare and swap, a rejection, or an unknown outcome
-- with a scheduled retry. A terminal outcome goes to the outbox until a sink has accepted it. Other
-- processes only observe: they load the files (store.py) and project them (projection.py).
-- The start of an audit reads the active runs through the ledger (ledger.py), which adds the runs it
-- knows of to those of the service, refuses where one is active for the current head (runs.py), and
-- records a run that it has started. The status (status.py) is built from the same runs, and a
-- waiter reads it until a deadline (wait.py). A supervisor probes the backend, and a health check
-- judges the state that the probes have left (runtime_observability/readiness.py). An update of an
-- improvement job is written only where it changes the job (improvement_jobs.py).
--
-- Which file models which part:
--   StateMachine          state_machine.py: states, events, effects, `transition`, event keys; its
--                         children have the theorems on sequences of events, on the authorization
--                         of a retry and on event keys
--   Store                 store.py: the stored values. AuthFile is the credential file, Attempt the
--                         recovery budget in a journal; JournalFields, JournalState, JournalV2 and
--                         Journal are the reader and the writer of the journal, Outbox the outbox
--   Recovery              coordinator.py: `_with_continuation`, `_next_recovery_attempt` and the other
--                         pure functions on attempts; Budget, Schedule and Chain have the theorems
--   Projection            projection.py; Access and Renewal have the theorems
--   Disk                  the three files and the actions on them: `load_auth`, `write_journal`,
--                         `enqueue_outcome`, `cas_replace_cookie` and the rest of store.py
--   Coordinator           coordinator.py: Outcomes (outbox, lock), Prepare (`_prepare` and recovery),
--                         Response (with auth_protocol.py), Commit (commits, `import_credential`),
--                         Wait and Refresh (`refresh`), Startup (`recover_startup` and
--                         `project_retained_successor`); Rules and Given are laws of the
--                         actions; Safety, Permits, Announcement, Failures, Custody, Once, Resent
--                         and Retained have the theorems
--   Polling               loops that poll until a deadline, for Coordinator.Wait and Audit.Waiting
--   Audit                 the data of audit/ports.py and audit/models.py; Lifecycle is lifecycle.py,
--                         Ledger with Reconcile and Commit is ledger.py, Status is status.py and
--                         freshness.py, Tasks is tasks.py, Runs is runs.py with the request and the
--                         record of start.py, Waiting is wait.py, Catalog is catalog.py,
--                         Scheduling is scheduling.py, Improvements is improvement_jobs.py; the
--                         other children of these have the theorems
--   Readiness             runtime_observability/readiness.py: the state file of a health check, what a
--                         probe makes of it and the verdict; Laws has the theorems
--   Json, Timestamps      values that Python's `json` and `datetime` make
--   Scenarios             the theorems at concrete inputs
--
-- How state and operations correspond. A dataclass is a record, a tagged union a data type with the
-- source's constructors, and a function has its Python name without the leading underscore. An
-- operation on the files is a function of a World and a Session. The Session has the files and the
-- number of questions asked so far; the World answers the n-th question: the clock, the fate of a
-- file operation (done, lost, or raised although visible), a fresh identifier, the process, whether an
-- owner is alive, whether the sink accepts a record. A raised exception is a value of Error; what
-- was written before it stays written.
--
-- Bounds. Times are natural numbers of microseconds, and the program's constants (six dispatches; four
-- safe retries, one validation recovery, one ambiguity replay; the delays and the recovery window) are
-- the source's. Python's integers are unbounded, so the counters are natural numbers; a negative
-- number in a file is refused where it is read, since the validation refuses it. The two waits take
-- fuel, one for each round; that one round more than the sleeps that fit before the deadline is
-- enough is proved of a clock that keeps the sleeps. All other recursion is structural: the lookups
-- of the ledger have the source's three rounds.
--
-- What is not modelled, and why. The text of a JSON file, the bytes and the directory sync are
-- Python's and the operating system's: a file holds a JSON value, or is unreadable.
-- `datetime.fromisoformat` and `isoformat` are a parameter, IsoFormat, of which the proofs use that
-- an instant is read back as it was printed and is not printed as the empty text. `http.cookies`
-- merges the cookies: its result is a field of Response. OSError and TimeoutError are one error.
-- Log output and the optional observation sink are left out: without a sink the code returns at
-- once. What the exchange of a refresh answers, and what other processes do to the files while
-- the lock is released for it, before the request is sent and before it is answered,
-- is a parameter, and so are the answers of the audit service. `strip`, `lower`, `replace` and
-- `repr` of a text, `int` and the format of a number, and the table of timezones are parameters. A
-- write of the ledger succeeds in the model: one that fails raises and leaves the file. The command
-- line, the HTTP gateway, the audit reports, the schedules of audits, and the portfolio are not
-- modelled.
pub mod Prelude
pub mod Json
pub mod Timestamps
pub mod StateMachine
pub mod Store
pub mod Recovery
pub mod Projection
pub mod Disk
pub mod Polling
pub mod Coordinator
pub mod Audit
pub mod Readiness
pub mod Scenarios
