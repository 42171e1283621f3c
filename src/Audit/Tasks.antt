-- ===== src/Audit/Tasks.antt =====
-- audit/tasks.py: the body of the task that starts an audit. Python's own operations on texts are
-- parameters: `strip`, `replace` and `repr`.
use mathlib.Core.List.{map}
use enji_guard_cli.Prelude.{
  String, ◌⧺◌, Bool, not, ◌||◌, Option, none, some, List, [], ◌∷◌, if◌then◌else◌, ◌=s◌, any,
  filter_by,
}
use enji_guard_cli.Audit.{
  AuditDefinition, AuditRepository, AuditProject, AuditRunbookMetadata, AuditTaskBody,
}

pub record Texts : Type 0 where
  pub strip : String → String
  pub replace : String → String → String → String
  pub repr : String → String

-- `AuditTaskContext`
pub record AuditTaskContext : Type 0 where
  pub project : AuditProject
  pub audit : AuditDefinition
  pub runbook : AuditRunbookMetadata
  pub runbook_id : String
  pub artifact_schema_name : String
  pub artifact_schema_version : String
  pub description_template : Option String

-- A body, or the error that is raised, with its message.
pub data TaskResult : Type 0 where
  body : AuditTaskBody → TaskResult
  repository_unusable : String → TaskResult
  action_unusable : String → TaskResult

abbrev pub join_lines : List String → String
join_lines [] = ""
join_lines (s ∷ []) = s
join_lines (s ∷ t ∷ ts) = s ⧺ "\n" ⧺ join_lines (t ∷ ts)

-- `value or default`, where `default` is a text
abbrev pub or_text : Option String → String → String
or_text none d = d
or_text (some s) d = if s =s "" then d else s

abbrev pub default_template : String
default_template =
    "{{recurring_prefix}}\n\nRepository:\n- locator: {{repository_locator}}\n"
    ⧺ "- url: {{repository_url}}\n\nLinked websites:\n{{linked_websites}}\n\n"
    ⧺ "Artifact contract for this run:\n- structured artifact metadata.schema_name={{artifact_schema_name}}\n"
    ⧺ "- structured artifact metadata.schema_version={{artifact_schema_version}}\n"
    ⧺ "- {{artifact_contract}}\n\nConstraints:\n{{constraints}}"

abbrev pub listed : List String → String
listed [] = "- none linked yet"
listed (u ∷ us) = join_lines (map (λ url. "- " ⧺ url) (u ∷ us))

abbrev pub find_repository : List AuditRepository → String → Option AuditRepository
find_repository [] id = none
find_repository (r ∷ rs) id = if r.repo_id =s id then some r else find_repository rs id

module _ (t : Texts) where
  open t use {strip, replace, repr}

  abbrev pub is_blank : String → Bool
  is_blank s = strip s =s ""

  abbrev pub replace_all : String → List (String × String) → String
  replace_all template [] = template
  replace_all template ((name, v) ∷ rest) =
      replace_all (replace template ("{{" ⧺ name ⧺ "}}") v) rest

  -- `_description`
  unfoldable pub description : AuditTaskContext → String → String → Option String → String
  description c locator repo web_url =
      replace_all (or_text c.description_template default_template) (
        ("recurring_prefix", "Task created from " ⧺ c.audit.action_key ⧺ " for " ⧺ locator ⧺ ".")
        ∷ ("repository_locator", locator)
        ∷ ("repository_url", or_text web_url "")
        ∷ (
          "linked_websites",
          listed (
              map (λ s. s.url)
                (filter_by (λ s. any (λ id. id =s repo) s.repo_ids) c.project.linked_websites)),
        )
        ∷ ("artifact_schema_name", c.artifact_schema_name)
        ∷ ("artifact_schema_version", c.artifact_schema_version)
        ∷ (
          "artifact_contract", "structured artifact metadata is machine-readable and deterministic",
        )
        ∷ ("constraints", "- use task title and description only")
        ∷ [])

  abbrev pub task_body : AuditTaskContext → String → AuditRepository → AuditTaskBody
  unfolding description
  task_body c repo r = record {
    title = c.audit.title ⧺ " for " ⧺ r.locator;
    description = description c r.locator repo r.web_url;
    project_id = c.project.project_id;
    execution_flow = or_text c.runbook.suggested_flow "single";
    flow_config = c.runbook.suggested_flow_config;
    runbook_id = c.runbook_id;
    scope_owner = c.project.project_id;
    repository_provider = r.provider;
    repository_locator = r.locator;
    repository_web_url = r.web_url;
  }

  abbrev pub task_in : AuditTaskContext → String → Option AuditRepository → TaskResult
  unfolding task_body
  task_in c repo none = repository_unusable ("project does not contain repo id: " ⧺ repo)
  task_in c repo (some r) =
      if not r.connected
      then repository_unusable ("repo is not connected: " ⧺ r.locator)
      else if is_blank r.locator || r.locator =s "/" || r.locator =s "//"
      then repository_unusable ("repository has incomplete locator: " ⧺ repr r.locator)
      else if is_blank c.artifact_schema_name
      then action_unusable "audit task is missing artifact schema name"
      else if is_blank c.artifact_schema_version
      then action_unusable "audit task is missing artifact schema version"
      else if is_blank c.runbook_id
      then action_unusable "audit task is missing runbook id"
      else body (task_body c repo r)

  unfoldable pub task_for_repo : AuditTaskContext → String → TaskResult
  unfolding task_in
  task_for_repo c repo = task_in c repo (find_repository c.project.repositories repo)
