-- ===== src/Scenarios/Ledgers.antt =====
-- The ledger of started runs at concrete inputs.
use enji_guard_cli.Prelude.{List}
use enji_guard_cli.Audit.Ledger.Dedupe.{NoTwin, dedupe_runs_lem}
use enji_guard_cli.Audit.Ledger.Reconcile.{project}
use enji_guard_cli.Audit.Ledger.Commit.{identity_of, dedupe_runs}
use enji_guard_cli.Prelude.{
  ◌≡◌, refl, sym, subst, ◌⊎◌, none, some, [], ◌∷◌, In-single, filter_by-kept, filter_by, In, here,
}
use enji_guard_cli.Audit.{AuditRun, AuditLedgerEntry}
use enji_guard_cli.Audit.Lifecycle.{is_terminal_status}
use enji_guard_cli.Audit.Ledger.{File, expired, read, write, record_started}
use enji_guard_cli.Audit.Ledger.Reconcile.{
  LookupError, Lookup, Cache, Upstream, reconcile_task, reconcile_by, reconcile_entry, is_over,
}
use enji_guard_cli.Audit.Ledger.Commit.{commit_reconciliation}
use enji_guard_cli.Audit.Ledger.RoundTrip.{IsNamed, read-write}
use enji_guard_cli.Audit.Ledger.Guards.{decision, stays, commit_reconciliation_lem}
use enji_guard_cli.Audit.Ledger.Evidence.{IsSettled, commit_reconciliation-IsSettled}
use enji_guard_cli.Audit.Ledger.Shown.{IsShown, commit_reconciliation-IsShown}
use enji_guard_cli.Audit.Ledger.Identities.{Distinct, LedgerStep, IsReached, ledger-Distinct}
use enji_guard_cli.Timestamps.{binary_format}

abbrev pub entry : AuditLedgerEntry
entry = record {
  repo_id = "repo";
  project_id = "project";
  audit_key = "audit.security";
  task_id = some "t1";
  task_status = some "queued";
  current_head_sha = some "h1";
  audited_head_sha = none;
  observed_at = 5;
  started_at = none;
  expires_at = 1000;
}

entry-IsNamed : IsNamed entry
entry-IsNamed = record { repo = refl; project = refl; audit = refl }

pub entries-IsNamed : (e : AuditLedgerEntry) → In e (entry ∷ []) → IsNamed e
entries-IsNamed e m = subst IsNamed (In-single m) entry-IsNamed

read-write_example : read binary_format (write binary_format (entry ∷ [])) ≡ entry ∷ []
read-write_example = read-write binary_format (entry ∷ []) entries-IsNamed

abbrev pub ledger : File
ledger = write binary_format (entry ∷ [])

entry-In : In entry (read binary_format ledger)
entry-In = subst (In entry) (sym (read-write binary_format (entry ∷ []) entries-IsNamed)) here

-- A service that does not answer.
abbrev pub service : Upstream
service = record {
  normalized = λ s. s;
  iso = binary_format;
  lookup_grace = 300;
  task_lookup = λ id. some (Lookup.failed LookupError.audit_upstream);
}

abbrev pub answers : Cache
answers = ("t1", Lookup.failed LookupError.audit_upstream) ∷ []

commit_reconciliation_lem_example :
    read binary_format (commit_reconciliation service "repo" [] answers 20 ledger).1
    ≡ filter_by (stays service "repo" [] answers 20) (read binary_format ledger)
commit_reconciliation_lem_example = commit_reconciliation_lem service "repo" [] answers 20 ledger

commit_reconciliation-IsSettled_example :
    In entry (read binary_format (commit_reconciliation service "repo" [] answers 20 ledger).1)
    ⊎ ((entry.repo_id ≡ "repo") × IsSettled service answers 20 entry)
commit_reconciliation-IsSettled_example =
    commit_reconciliation-IsSettled service "repo" [] answers 20 ledger entry entry-In

pub entry_kept :
    In entry (read binary_format (commit_reconciliation service "repo" [] answers 20 ledger).1)
unfolding stays decision is_over expired is_terminal_status reconcile_entry reconcile_by
    reconcile_task
entry_kept =
    subst (In entry) (sym (commit_reconciliation_lem service "repo" [] answers 20 ledger))
      (filter_by-kept (stays service "repo" [] answers 20) entry-In refl)

commit_reconciliation-IsShown_example :
    (r : AuditRun) × (In r (commit_reconciliation service "repo" [] answers 20 ledger).0.projected
      ⊎ In r [])
    × IsShown (λ s. s) "audit.security" r
commit_reconciliation-IsShown_example =
    commit_reconciliation-IsShown service "repo" [] answers 20 ledger entry entry_kept refl

twice :
    IsReached binary_format
      (record_started binary_format entry (record_started binary_format entry none))
twice =
    IsReached.after (IsReached.after IsReached.missing (LedgerStep.started entry none))
      (LedgerStep.started entry (record_started binary_format entry none))

ledger-Distinct_example : Distinct (
    read binary_format
      (record_started binary_format entry (record_started binary_format entry none)))
ledger-Distinct_example =
    ledger-Distinct binary_format
      (record_started binary_format entry (record_started binary_format entry none)) twice

-- The same run, from the ledger and from the service.
abbrev seen_twice : List AuditRun
seen_twice = project binary_format entry none ∷ project binary_format entry none ∷ []

dedupe_runs_lem_example :
    NoTwin (dedupe_runs service seen_twice)
    × ((r : AuditRun) → In r (dedupe_runs service seen_twice) → In r seen_twice)
    × ((r : AuditRun)
        → In r seen_twice
        → (s : AuditRun) × In s (dedupe_runs service seen_twice) × (identity_of s ≡ identity_of r))
dedupe_runs_lem_example = dedupe_runs_lem service seen_twice
