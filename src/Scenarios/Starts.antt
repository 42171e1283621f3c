-- ===== src/Scenarios/Starts.antt =====
-- The start of an audit whose run the ledger holds, at concrete inputs.
use enji_guard_cli.Scenarios.Ledgers.{entry, entries-IsNamed, ledger, service, answers, entry_kept}
use enji_guard_cli.Scenarios.Audits.{audit, services, target, project_data, heads}
use enji_guard_cli.Prelude.{
  ◌≡◌, refl, sym, ap, subst, inl, inr, some, List, [], ◌∷◌, Bool-cases, ◌=s◌, In-single, In,
}
use enji_guard_cli.Timestamps.{binary_format}
use enji_guard_cli.Audit.{AuditRun, AuditLedgerEntry}
use enji_guard_cli.Audit.Runs.{StartOneState, no_effects, start_one_audit}
use enji_guard_cli.Audit.Ledger.{read}
use enji_guard_cli.Audit.Ledger.Commit.{commit_reconciliation, runs_after}
use enji_guard_cli.Audit.Ledger.RoundTrip.{read-write}
use enji_guard_cli.Audit.Ledger.Asked.{Truthful}
use enji_guard_cli.Audit.Ledger.Identities.{Distinct}
use enji_guard_cli.Audit.Runs.Ledgered.{ledgered_run_starts_once}
use enji_guard_cli.Audit.Runs.Laws.{IsAlready}

abbrev reconciled : List AuditRun
reconciled = runs_after service [] (commit_reconciliation service "repo" [] answers 20 ledger).0

abbrev state : StartOneState
state = record {
  rerun_state = record heads { current_head_sha = some "h1" };
  active_runs = reconciled;
  project = project_data;
}

-- What the ledger holds.
held : (e : AuditLedgerEntry) → In e (read binary_format ledger) → e ≡ entry
held e m = sym (In-single (subst (In e) (read-write binary_format (entry ∷ []) entries-IsNamed) m))

entries_apart : Distinct (read binary_format ledger)
entries_apart =
    subst Distinct (sym (read-write binary_format (entry ∷ []) entries-IsNamed))
      (λ x m. absurd (elim m [ ]), tt)

no_answer : Truthful service answers 20
no_answer id d h = elim (Bool-cases ("t1" =s id)) [
  | inl e ↦ absurd (cc (e, h))
  | inr e ↦ absurd (cc (e, h))
]

ledgered_run_starts_once_example :
    ((start_one_audit services target state audit).1 ≡ no_effects)
    × IsAlready services target state (start_one_audit services target state audit)
ledgered_run_starts_once_example =
    ledgered_run_starts_once service "repo" [] answers 20 ledger services target state audit entry
      "t1" refl refl refl refl entries_apart (λ y m t. ap (λ e. e.audit_key) (held y m)) no_answer
      entry_kept refl refl
