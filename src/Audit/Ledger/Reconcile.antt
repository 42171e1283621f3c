-- ===== src/Audit/Ledger/Reconcile.antt =====
-- audit/ledger.py: the reconciliation of the ledger with the upstream service. The lock is held for
-- each reading of the file and for the commit, and not while tasks are looked up: `disk k` is the
-- file at the reading of round k, and another process may write between the rounds and the commit.
-- `normalized` stands for `.strip().lower()`.
use enji_guard_cli.Prelude.{◌>>=◌}
use enji_guard_cli.Prelude.{
  ℕ, zero, suc, ◌+◌, String, Bool, true, false, not, ◌||◌, Option, none, some, List, [], ◌∷◌, ◌++◌,
  ltb, if◌then◌else◌, is_some, ◌=s◌, any,
}
use enji_guard_cli.Timestamps.{IsoFormat}
use enji_guard_cli.Audit.{AuditRun, AuditTaskDetail, AuditLedgerEntry}
use enji_guard_cli.Audit.Lifecycle.{is_terminal_status, is_active_run}
use enji_guard_cli.Audit.Ledger.{File, or_else_text, expired, read}

pub data LookupError : Type 0 where
  audit_not_found audit_upstream audit_malformed : LookupError

-- `_TaskLookupResult`
pub data Lookup : Type 0 where
  found : AuditTaskDetail → Lookup
  failed : LookupError → Lookup

-- `_EntryReconciliation`
pub record EntryReconciliation : Type 0 where
  pub retained : Bool
  pub suppress_task_id : Option String
  pub projected : Option AuditRun

-- `_MAX_LOOKUP_ROUNDS`
abbrev pub max_lookup_rounds : ℕ
max_lookup_rounds = 3

abbrev pub Cache : Type 0
Cache = List (String × Lookup)

abbrev pub cached : Cache → String → Option Lookup
cached [] id = none
cached ((k, r) ∷ rest) id = if k =s id then some r else cached rest id

-- The settings of the ledger, in microseconds, and the upstream service. A lookup is `none` where
-- it raises another error, which the reconciliation does not catch.
pub record Upstream : Type 0 where
  pub normalized : String → String
  pub iso : IsoFormat
  pub lookup_grace : ℕ
  pub task_lookup : String → Option Lookup

-- What a detail says, if there is one.
abbrev pub from_detail : (AuditTaskDetail → Option String) → Option AuditTaskDetail → Option String
from_detail f none = none
from_detail f (some d) = f d

-- `_project`
unfoldable pub project : IsoFormat → AuditLedgerEntry → Option AuditTaskDetail → AuditRun
project iso e detail = record {
  task_id = or_else_text (from_detail (λ d. some d.task_id) detail) e.task_id;
  action_key = some e.audit_key;
  status = or_else_text (from_detail (λ d. d.status) detail) e.task_status;
  created_at =
      or_else_text (from_detail (λ d. d.created_at) detail) (some (iso.isoformat e.observed_at));
  started_at = or_else_text (from_detail (λ d. d.started_at) detail) e.started_at;
  completed_at = from_detail (λ d. d.completed_at) detail;
  projection_source = some "local_started_task_ledger";
  projection_status_source = some (if is_some detail then "task_by_id" else "ledger");
  expires_at = some (iso.isoformat e.expires_at);
  current_head_sha = e.current_head_sha;
  last_audited_head_sha = e.audited_head_sha;
}

-- The grace that a missing task has is over.
abbrev pub is_past_grace : LookupError → AuditLedgerEntry → ℕ → ℕ → Bool
is_past_grace LookupError.audit_not_found e now grace = ltb (e.observed_at + grace) now
is_past_grace _ e now grace = false

abbrev pub add_once : List String → String → List String
add_once ids id = if any (λ i. i =s id) ids then ids else ids ++ id ∷ []

module _ (u : Upstream) where
  -- `_reconcile_entry` for an entry with a task id
  unfoldable pub reconcile_task :
      AuditLedgerEntry → String → Option Lookup → ℕ → EntryReconciliation
  unfolding project is_active_run
  reconcile_task e id none now = record {
    retained = true;
    suppress_task_id = some id;
    projected = some (project u.iso e none);
  }
  reconcile_task e id (some (Lookup.failed error)) now =
      if is_past_grace error e now u.lookup_grace
      then record { retained = false; suppress_task_id = none; projected = none }
      else record {
        retained = true;
        suppress_task_id = some id;
        projected = some (project u.iso e none);
      }
  reconcile_task e id (some (Lookup.found detail)) now =
      let run = project u.iso e (some detail) in
      if is_active_run u.normalized run
      then record { retained = true; suppress_task_id = some id; projected = some run }
      else record { retained = false; suppress_task_id = some id; projected = none }

  -- `_reconcile_entry` by the entry's task id
  unfoldable pub reconcile_by :
      AuditLedgerEntry → Option String → Cache → ℕ → Bool → EntryReconciliation
  unfolding reconcile_task project
  reconcile_by e (some id) cache now has_upstream = reconcile_task e id (cached cache id) now
  reconcile_by e none cache now has_upstream = record {
    retained = true;
    suppress_task_id = none;
    projected = if has_upstream then none else some (project u.iso e none);
  }

  unfoldable pub reconcile_entry : AuditLedgerEntry → Cache → ℕ → Bool → EntryReconciliation
  unfolding reconcile_by
  reconcile_entry e cache now has_upstream = reconcile_by e e.task_id cache now has_upstream

  -- The guards that need no upstream answer: gone, or terminal.
  unfoldable pub is_over : AuditLedgerEntry → ℕ → Bool
  unfolding expired is_terminal_status
  is_over e now = expired e now || is_terminal_status u.normalized e.task_status

  -- The task that an entry needs the detail of.
  unfoldable pub wanted : String → ℕ → Cache → AuditLedgerEntry → Option String
  unfolding is_over
  wanted repo now cache e = elim e.task_id [
    | none ↦ none
    | some id ↦
        if is_some (cached cache id)
        then none
        else if not (e.repo_id =s repo) || is_over e now
        then none
        else some id
  ]

  unfoldable pub pending_from :
      String → ℕ → Cache → List String → List AuditLedgerEntry → List String
  unfolding wanted
  pending_from repo now cache ids [] = ids
  pending_from repo now cache ids (e ∷ es) =
      pending_from repo now cache
        (elim (wanted repo now cache e) [ none ↦ ids | some id ↦ add_once ids id ]) es

  -- `_pending_lookups`
  unfoldable pub pending_lookups : String → ℕ → Cache → File → List String
  unfolding pending_from read
  pending_lookups repo now cache file = pending_from repo now cache [] (read u.iso file)

  -- `_resolve_lookups`
  unfoldable pub resolve_lookups : List String → Cache → Option Cache
  resolve_lookups [] cache = some cache
  resolve_lookups (id ∷ ids) cache = do r ← u.task_lookup id; resolve_lookups ids ((id, r) ∷ cache)

  unfoldable pub lookup_rounds : ℕ → String → ℕ → (ℕ → File) → ℕ → Cache → Option Cache
  unfolding pending_lookups resolve_lookups
  lookup_rounds zero repo now disk k cache = some cache
  lookup_rounds (suc n) repo now disk k cache = elim (pending_lookups repo now cache (disk k)) [
    | [] ↦ some cache
    | (id ∷ ids) ↦ do
      more ← resolve_lookups (id ∷ ids) cache
      lookup_rounds n repo now disk (suc k) more
  ]
