-- ===== src/Audit/Runs.antt =====
-- audit/runs.py, and how audit/start.py binds it: the start of audits. What the functions send and
-- record is their second result. `none` as an outcome stands for an error that leaves the function.
use enji_guard_cli.Prelude.{
  String, ◌⧺◌, Bool, true, false, not, ◌||◌, Option, none, List, [], ◌∷◌, ◌++◌, if◌then◌else◌,
  is_none, ◌=s◌, filter_by,
}
use enji_guard_cli.Timestamps.{IsoFormat}
use enji_guard_cli.Audit.{
  AuditTaskBody, some, AuditRun, AuditTaskLifecycle, AuditRunStart, lookup_text, AuditRerunState,
  AuditDefinition, AuditCatalog, AuditProject, AuditRunbookMetadata, AuditRunRequest,
  AuditRunResult, AuditRunState,
}
use enji_guard_cli.Audit.Tasks.{Texts, TaskResult, or_text, is_blank, task_body, task_for_repo}
use enji_guard_cli.Audit.Lifecycle.{
  same_text, run_projection, task_lifecycle, active_runs_for_action, representative_projection,
}
use enji_guard_cli.Audit.Ledger.Commit.{start}
pub mod Laws
pub mod Agreement
pub mod Ledgered

-- What the service says of a request: a task, a refusal (`AuditUpstreamError`, `AuditMalformedError`)
-- with its message, or another error.
pub data StartReply : Type 0 where
  accepted : AuditRunResult → StartReply
  refused : String → StartReply
  broken : StartReply

-- `StartAuditDependencies`: `runbook` answers `none` and `records` false where they raise.
pub record StartAuditDependencies : Type 0 where
  pub normalized : String → String
  pub iso : IsoFormat
  pub texts : Texts
  pub start_audit_run : AuditRunRequest → StartReply
  pub runbook : String → Option AuditRunbookMetadata
  pub records : AuditRunStart → Bool

-- `StartAuditsContext`, without the audits
pub record StartAuditsContext : Type 0 where
  pub repo_id : String
  pub project_id : String
  pub catalog : AuditCatalog

-- `_StartOneState`
pub record StartOneState : Type 0 where
  pub rerun_state : AuditRerunState
  pub active_runs : List AuditRun
  pub project : AuditProject

-- The dictionary of `_batch_result_item`; an absent key is `none`.
pub record BatchResultItem : Type 0 where
  pub action_key : String
  pub state : AuditRunState
  pub current_head_sha : Option String
  pub last_audited_head_sha : Option String
  pub reason : Option String
  pub task_id : Option String
  pub task_status : Option String

-- The requests that were sent and the starts that were recorded.
pub record Effects : Type 0 where
  pub requests : List AuditRunRequest
  pub recorded : List AuditRunStart

abbrev pub Started : Type 0
Started = Option BatchResultItem × Effects

abbrev pub no_effects : Effects
no_effects = record { requests = []; recorded = [] }

unfoldable pub out_of_date : Option String → Option String → Option Bool
out_of_date (some a) (some b) = some (not (a =s b))
out_of_date _ _ = none

abbrev pub is_current : Option Bool → Bool
is_current (some false) = true
is_current _ = false

-- `run.current_head_sha in {None, current_sha}`
abbrev pub may_be_of : Option String → AuditRun → Bool
may_be_of current r = is_none r.current_head_sha || same_text r.current_head_sha current

unfoldable pub current_head_active_runs : List AuditRun → Option String → List AuditRun
current_head_active_runs runs none = runs
current_head_active_runs runs (some sha) = filter_by (may_be_of (some sha)) runs

abbrev pub is_running : AuditTaskLifecycle → Bool
is_running AuditTaskLifecycle.running = true
is_running _ = false

abbrev pub find_action : List AuditDefinition → AuditDefinition → String → Option AuditDefinition
find_action [] recon key = if recon.action_key =s key then some recon else none
find_action (a ∷ audits) recon key =
    if a.action_key =s key then some a else find_action audits recon key

-- What building the body comes to; `none` where the runbook cannot be read.
abbrev pub TaskBuilt : Type 0
TaskBuilt = Option TaskResult

module _ (d : StartAuditDependencies) where
  open d use {normalized, iso, texts}

  abbrev pub no_runbook : String → TaskBuilt
  no_runbook key =
      some (TaskResult.action_unusable ("catalog does not contain runbook for action key: " ⧺ key))

  abbrev pub body_with :
      StartAuditsContext
      → AuditProject
      → AuditDefinition
      → String
      → Option AuditRunbookMetadata
      → TaskBuilt
  unfolding task_for_repo
  body_with c project action id none = none
  body_with c project action id (some runbook) = some (
      task_for_repo texts
        (record {
          project = project;
          audit = action;
          runbook = runbook;
          runbook_id = id;
          artifact_schema_name = or_text action.artifact_schema_name "";
          artifact_schema_version = or_text action.artifact_schema_version "";
          description_template = action.task_description_template;
        })
        c.repo_id)

  abbrev pub body_for :
      StartAuditsContext → AuditProject → String → AuditDefinition → Option String → TaskBuilt
  unfolding body_with
  body_for c project key action none = no_runbook key
  body_for c project key action (some id) =
      let built = body_with c project action id (d.runbook id) in
      if is_blank texts id then no_runbook key else built

  abbrev pub body_of_action :
      StartAuditsContext → AuditProject → String → Option AuditDefinition → TaskBuilt
  unfolding body_for
  body_of_action c project key none = no_runbook key
  body_of_action c project key (some action) = body_for c project key action action.runbook_id

  unfoldable pub audit_run_task_body : StartAuditsContext → AuditProject → String → TaskBuilt
  unfolding body_of_action
  audit_run_task_body c project key =
      body_of_action c project key (find_action c.catalog.published_audits c.catalog.recon key)

  -- An item without a task.
  abbrev pub plain_item :
      String → AuditRunState → Option String → Option String → Option String → BatchResultItem
  plain_item key state current last reason = record {
    action_key = key;
    state = state;
    current_head_sha = current;
    last_audited_head_sha = last;
    reason = reason;
    task_id = none;
    task_status = none;
  }

  abbrev pub task_item :
      String
      → AuditRunState
      → Option String
      → Option String
      → Option String
      → Option String
      → BatchResultItem
  task_item key state current last id status = record {
    action_key = key;
    state = state;
    current_head_sha = current;
    last_audited_head_sha = last;
    reason = none;
    task_id = id;
    task_status = status;
  }

  abbrev pub run_start :
      StartAuditsContext → String → Option String → Option String → AuditRunResult → AuditRunStart
  run_start c key current last r = record {
    repo_id = c.repo_id;
    project_id = c.project_id;
    action_key = key;
    task_id = r.task_id;
    task_status = r.status;
    current_head_sha = current;
    last_audited_head_sha = last;
  }

  abbrev pub run_request : StartAuditsContext → String → AuditTaskBody → AuditRunRequest
  run_request c key b = record {
    repo_id = c.repo_id;
    project_id = c.project_id;
    action_key = key;
    task_body = b;
  }

  abbrev pub after_reply :
      StartAuditsContext
      → String
      → Option String
      → Option String
      → AuditRunRequest
      → StartReply
      → Started
  after_reply c key current last request (StartReply.accepted r) =
      let start = run_start c key current last r in
      if d.records start
      then (
        some (task_item key AuditRunState.started_now current last r.task_id r.status),
        record { requests = request ∷ []; recorded = start ∷ [] },
      )
      else (none, record { requests = request ∷ []; recorded = [] })
  after_reply c key current last request (StartReply.refused reason) = (
    some (plain_item key AuditRunState.start_failed current last (some reason)),
    record { requests = request ∷ []; recorded = [] },
  )
  after_reply c key current last request StartReply.broken =
      (none, record { requests = request ∷ []; recorded = [] })

  abbrev pub request_run :
      StartAuditsContext → String → Option String → Option String → TaskBuilt → Started
  request_run c key current last none = (none, no_effects)
  request_run c key current last (some (TaskResult.repository_unusable reason)) = (none, no_effects)
  request_run c key current last (some (TaskResult.action_unusable reason)) =
      (some (plain_item key AuditRunState.start_failed current last (some reason)), no_effects)
  request_run c key current last (some (TaskResult.body b)) =
      let request = run_request c key b in
      after_reply c key current last request (d.start_audit_run request)

  abbrev pub start_unless :
      StartAuditsContext
      → StartOneState
      → String
      → Option String
      → Option String
      → List AuditRun
      → Started
  unfolding audit_run_task_body out_of_date task_lifecycle representative_projection
  start_unless c s key current last (r ∷ rs) =
      let run = representative_projection normalized iso run_projection r rs in
      let state =
        if is_running (task_lifecycle normalized run.status run.started_at run.completed_at)
        then AuditRunState.already_running
        else AuditRunState.already_queued in
      (some (task_item key state current last run.task_id run.status), no_effects)
  start_unless c s key current last [] =
      if is_current (out_of_date current last)
      then (some (plain_item key AuditRunState.up_to_date current last none), no_effects)
      else request_run c key current last (audit_run_task_body c s.project key)

  -- `_start_one_audit`
  unfoldable pub start_one_audit : StartAuditsContext → StartOneState → AuditDefinition → Started
  unfolding start_unless current_head_active_runs active_runs_for_action
  start_one_audit c s audit =
      let key = audit.action_key in
      let current = s.rerun_state.current_head_sha in
      let last = lookup_text s.rerun_state.audited_head_shas key in
      start_unless c s key current last
        (current_head_active_runs (active_runs_for_action normalized s.active_runs key) current)

  abbrev pub both : Effects → Effects → Effects
  both a b = record { requests = a.requests ++ b.requests; recorded = a.recorded ++ b.recorded }

  -- `start_audits_for_target`, from the state that it reads: an error ends the batch.
  unfoldable pub start_audits :
      StartAuditsContext
      → StartOneState
      → List AuditDefinition
      → Option (List BatchResultItem) × Effects
  unfolding start_one_audit
  start_audits c s [] = (some [], no_effects)
  start_audits c s (a ∷ audits) =
      let one = start_one_audit c s a in
      let rest = start_audits c s audits in
      elim one.0 [
        | none ↦ (none, one.1)
        | some item ↦
            (elim rest.0 [ none ↦ none | some items ↦ some (item ∷ items) ], both one.1 rest.1)
      ]
