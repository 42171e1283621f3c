-- ===== src/Audit/Ledger/Commit.antt =====
-- audit/ledger.py: `_commit_reconciliation`, which decides every entry anew on a fresh reading of
-- the file, `_dedupe_runs`, and `reconcile`. The dictionary of the upstream runs by action is
-- `runs_of`: the runs with a given action key, in order.
use mathlib.Core.List.{map}
use enji_guard_cli.Prelude.{
  ℕ, String, Bool, true, false, not, Option, none, some, List, [], ◌∷◌, ◌++◌, if◌then◌else◌, ◌=s◌,
  any, filter_by,
}
use enji_guard_cli.Timestamps.{Datetime}
use enji_guard_cli.Audit.{AuditRun, AuditLedgerEntry}
use enji_guard_cli.Audit.Lifecycle.{
  same_text, run_projection, is_active_run, representative_projection,
}
use enji_guard_cli.Audit.Ledger.{File, utc, read, write}
use enji_guard_cli.Audit.Ledger.Reconcile.{
  EntryReconciliation, max_lookup_rounds, Cache, Upstream, reconcile_entry, is_over, lookup_rounds,
}
use enji_guard_cli.Prelude.{◌>>=◌}

-- `upstream_by_action.get(key, [])`
unfoldable pub runs_of : List AuditRun → String → List AuditRun
runs_of upstream key = filter_by (λ r. same_text r.action_key (some key)) upstream

-- The variables of the loop.
pub record Loop : Type 0 where
  pub projected : List AuditRun
  pub suppress_task_ids : List String
  pub retained : List AuditLedgerEntry
  pub changed : Bool

abbrev pub optional {ℓ} : {A : Type ℓ} → Option A → List A
optional none = []
optional (some a) = a ∷ []

abbrev pub kept : Loop → AuditLedgerEntry → Loop
kept l e = record {
  projected = l.projected;
  suppress_task_ids = l.suppress_task_ids;
  retained = l.retained ++ e ∷ [];
  changed = l.changed;
}

abbrev pub dropped : Loop → Loop
dropped l = record {
  projected = l.projected;
  suppress_task_ids = l.suppress_task_ids;
  retained = l.retained;
  changed = true;
}

unfoldable pub decided : Loop → AuditLedgerEntry → EntryReconciliation → Loop
decided l e o =
    let suppressed = l.suppress_task_ids ++ optional o.suppress_task_id in
    if not o.retained
    then record {
      projected = l.projected;
      suppress_task_ids = suppressed;
      retained = l.retained;
      changed = true;
    }
    else record {
      projected = l.projected ++ optional o.projected;
      suppress_task_ids = suppressed;
      retained = l.retained ++ e ∷ [];
      changed = l.changed;
    }

-- `_ReconciliationCommit`
pub record ReconciliationCommit : Type 0 where
  pub projected : List AuditRun
  pub suppress_task_ids : List String

-- The identity that runs are grouped by.
pub data Identity : Type 0 where
  by_task : String → Identity
  by_action : Option String → Identity

abbrev pub identity_by : Option String → AuditRun → Identity
identity_by (some id) r = by_task id
identity_by none r = by_action r.action_key

abbrev pub identity_of : AuditRun → Identity
identity_of r = identity_by r.task_id r

abbrev pub same_group : Identity → Identity → Bool
same_group (by_task a) (by_task b) = a =s b
same_group (by_action a) (by_action b) = same_text a b
same_group _ _ = false

-- A group of runs: its identity, its first run, and the others.
abbrev pub Group : Type 0
Group = Identity × AuditRun × List AuditRun

-- `grouped.setdefault(identity, []).append(run)`
unfoldable pub add_to_group : List Group → AuditRun → List Group
add_to_group [] run = (identity_of run, run, []) ∷ []
add_to_group ((key, first, others) ∷ groups) run =
    let rest = add_to_group groups run in
    if same_group key (identity_of run)
    then (key, first, others ++ run ∷ []) ∷ groups
    else (key, first, others) ∷ rest

unfoldable pub grouped : List Group → List AuditRun → List Group
unfolding add_to_group
grouped groups [] = groups
grouped groups (r ∷ rs) = grouped (add_to_group groups r) rs

module _ (u : Upstream) where
  unfoldable pub step : String → List AuditRun → Cache → ℕ → Loop → AuditLedgerEntry → Loop
  unfolding is_over reconcile_entry runs_of is_active_run decided
  step repo upstream cache now l e =
      if not (e.repo_id =s repo)
      then kept l e
      else if is_over u e now
      then dropped l
      else decided l e (
          reconcile_entry u e cache now
            (any (is_active_run u.normalized) (runs_of upstream e.audit_key)))

  unfoldable pub loop : String → List AuditRun → Cache → ℕ → Loop → List AuditLedgerEntry → Loop
  unfolding step
  loop repo upstream cache now l [] = l
  loop repo upstream cache now l (e ∷ es) =
      loop repo upstream cache now (step repo upstream cache now l e) es

  abbrev pub start : Loop
  start = record { projected = []; suppress_task_ids = []; retained = []; changed = false }

  -- `_commit_reconciliation`: what it answers, and the file after.
  unfoldable pub commit_reconciliation :
      String → List AuditRun → Cache → ℕ → File → ReconciliationCommit × File
  unfolding loop read write
  commit_reconciliation repo upstream cache now file =
      let l = loop repo upstream cache now start (read u.iso file) in
      (
        record { projected = l.projected; suppress_task_ids = l.suppress_task_ids },
        if l.changed then write u.iso l.retained else file,
      )

  unfoldable pub dedupe_runs : List AuditRun → List AuditRun
  unfolding grouped representative_projection
  dedupe_runs runs =
      map (λ g. representative_projection u.normalized u.iso run_projection g.1 g.2)
        (grouped [] runs)

  abbrev pub is_suppressed : List String → AuditRun → Bool
  is_suppressed ids r = elim r.task_id [ none ↦ false | some id ↦ any (λ i. i =s id) ids ]

  -- The runs that `reconcile` answers after a commit.
  unfoldable pub runs_after : List AuditRun → ReconciliationCommit → List AuditRun
  unfolding dedupe_runs
  runs_after upstream commit =
      dedupe_runs (
        commit.projected
        ++ filter_by (λ r. not (is_suppressed commit.suppress_task_ids r)) upstream)

  -- `reconcile`: `disk k` is read in round `k`, and `file` in the commit.
  unfoldable pub reconcile :
      String
      → List AuditRun
      → ℕ
      → Option Datetime
      → (ℕ → File)
      → File
      → Option (List AuditRun × File)
  unfolding lookup_rounds commit_reconciliation runs_after
  reconcile repo upstream clock now disk file = do
    let point = utc clock now
    cache ← lookup_rounds u max_lookup_rounds repo point disk 0 []
    let done = commit_reconciliation repo upstream cache point file
    some (runs_after upstream done.0, done.1)
