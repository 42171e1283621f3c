-- ===== src/Audit.antt =====
-- src/enji_guard_cli/audit: the data of audit/ports.py that the ledger, the status and the start of
-- runs share. The children are the lifecycle of a task, the local ledger, the status and the start.
use enji_guard_cli.Json.{Fields}
use enji_guard_cli.Prelude.{Bool}
use enji_guard_cli.Prelude.{none, some, [], ◌∷◌, if◌then◌else◌, ◌=s◌}
pub mod Lifecycle
pub mod Ledger
pub mod Status
pub mod Tasks
pub mod Runs
pub mod Waiting
pub mod Catalog
pub mod Scheduling
pub mod Improvements
use enji_guard_cli.Prelude.{ℕ, String, Option, List}

pub record AuditRun : Type 0 where
  pub task_id : Option String
  pub action_key : Option String
  pub status : Option String
  pub created_at : Option String
  pub started_at : Option String
  pub completed_at : Option String
  pub projection_source : Option String
  pub projection_status_source : Option String
  pub expires_at : Option String
  pub current_head_sha : Option String
  pub last_audited_head_sha : Option String

pub record AuditTaskDetail : Type 0 where
  pub task_id : String
  pub status : Option String
  pub created_at : Option String
  pub started_at : Option String
  pub completed_at : Option String

pub record AuditTaskLink : Type 0 where
  pub task_id : Option String
  pub action_key : Option String
  pub status : Option String
  pub artifact_schema_name : Option String
  pub created_at : Option String
  pub started_at : Option String
  pub completed_at : Option String

-- Times are microseconds.
pub record AuditLedgerEntry : Type 0 where
  pub repo_id : String
  pub project_id : String
  pub audit_key : String
  pub task_id : Option String
  pub task_status : Option String
  pub current_head_sha : Option String
  pub audited_head_sha : Option String
  pub observed_at : ℕ
  pub started_at : Option String
  pub expires_at : ℕ

pub data AuditTaskLifecycle : Type 0 where
  idle queued running failed completed : AuditTaskLifecycle

pub record AuditRunStart : Type 0 where
  pub repo_id : String
  pub project_id : String
  pub action_key : String
  pub task_id : Option String
  pub task_status : Option String
  pub current_head_sha : Option String
  pub last_audited_head_sha : Option String

-- `get` on a dictionary of texts, in an association list.
abbrev pub lookup_text : List (String × String) → String → Option String
lookup_text [] key = none
lookup_text ((k, v) ∷ rest) key = if k =s key then some v else lookup_text rest key

pub record AuditRerunState : Type 0 where
  pub current_head_sha : Option String
  pub audited_head_sha : Option String
  pub rerun_allowed : Option Bool
  pub last_task_id : Option String
  pub audited_head_shas : List (String × String)

-- audit/models.py
pub record AuditDefinition : Type 0 where
  pub action_key : String
  pub title : String
  pub metric_group : Option String
  pub runbook_kind : String
  pub runbook_id : Option String
  pub artifact_schema_name : Option String
  pub artifact_schema_version : Option String
  pub task_description_template : Option String

pub record AuditCatalog : Type 0 where
  pub published_audits : List AuditDefinition
  pub recon : AuditDefinition

pub data AuditFreshnessState : Type 0 where
  fresh stale unknown_freshness : AuditFreshnessState

pub record AuditFreshness : Type 0 where
  pub current_head_sha : Option String
  pub audited_head_sha : Option String
  pub state : AuditFreshnessState

pub data AuditCurrentHeadState : Type 0 where
  ready running_head queued_head unverified missing_head blocked unknown_head :
      AuditCurrentHeadState

pub data AuditCurrentHeadAction : Type 0 where
  no_action wait_for_current_head_run start_current_head_run inspect_unverified_run
        resolve_unknown_head :
      AuditCurrentHeadAction

pub record AuditCurrentHeadStatus : Type 0 where
  pub state : AuditCurrentHeadState
  pub action_required : AuditCurrentHeadAction
  pub task_id : Option String
  pub task_status : Option String
  pub task_current_head_sha : Option String
  pub stale_active_task_id : Option String
  pub stale_active_current_head_sha : Option String

pub record AuditStatusItem : Type 0 where
  pub audit_key : String
  pub title : String
  pub freshness : AuditFreshness
  pub can_read : Bool
  pub task_lifecycle : AuditTaskLifecycle
  pub task_id : Option String
  pub task_status : Option String
  pub created_at : Option String
  pub started_at : Option String
  pub completed_at : Option String
  pub current_head : AuditCurrentHeadStatus

pub record AuditStatus : Type 0 where
  pub repo_id : String
  pub current_head_sha : Option String
  pub items : List AuditStatusItem

pub record AuditRepository : Type 0 where
  pub repo_id : String
  pub provider : String
  pub locator : String
  pub connected : Bool
  pub web_url : Option String

pub record AuditWebsite : Type 0 where
  pub url : String
  pub repo_ids : List String

pub record AuditProject : Type 0 where
  pub project_id : String
  pub repositories : List AuditRepository
  pub linked_websites : List AuditWebsite

-- The flow configuration is a dictionary of JSON values.
pub record AuditRunbookMetadata : Type 0 where
  pub runbook_id : String
  pub title : Option String
  pub description : Option String
  pub suggested_flow : Option String
  pub suggested_flow_config : Fields

pub record AuditTaskBody : Type 0 where
  pub title : String
  pub description : String
  pub project_id : String
  pub execution_flow : String
  pub flow_config : Fields
  pub runbook_id : String
  pub scope_owner : String
  pub repository_provider : String
  pub repository_locator : String
  pub repository_web_url : Option String

pub record AuditRunRequest : Type 0 where
  pub repo_id : String
  pub project_id : String
  pub action_key : String
  pub task_body : AuditTaskBody

pub record AuditRunResult : Type 0 where
  pub task_id : Option String
  pub status : Option String

pub data AuditRunState : Type 0 where
  started_now already_queued already_running up_to_date start_failed : AuditRunState
