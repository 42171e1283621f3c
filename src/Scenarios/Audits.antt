-- ===== src/Scenarios/Audits.antt =====
-- The status, the start and the wait of audits at concrete inputs.
use enji_guard_cli.Prelude.{String, ◌≢◌}
use enji_guard_cli.Prelude.{List}
use enji_guard_cli.Audit.Catalog.{AuditCatalogAction, parse_catalog_result}
use enji_guard_cli.Audit.Catalog.Laws.{IsCatalog, parse_catalog_result-IsCatalog}
use enji_guard_cli.Prelude.{pos, ◌*◌, ◌≡◌, refl, true, none, some, [], ◌∷◌, arith, length, In, here}
use enji_guard_cli.Audit.{
  AuditRun, AuditTaskLifecycle, lookup_text, AuditRerunState, AuditDefinition, AuditCatalog,
  AuditCurrentHeadState, AuditStatusItem, AuditStatus, AuditProject, AuditRunRequest,
}
use enji_guard_cli.Polling.{Sleeps}
use enji_guard_cli.Audit.Runs.{
  StartReply, StartAuditDependencies, StartAuditsContext, StartOneState, no_effects,
  start_one_audit,
}
use enji_guard_cli.Audit.Tasks.{task_body}
use enji_guard_cli.Audit.Waiting.{
  AuditWaitOptions, AuditWaitDependencies, WaitEnd, WaitTimes, validate_wait_options,
  wait_for_completion,
}
use enji_guard_cli.Audit.Lifecycle.{task_lifecycle, is_active_run}
use enji_guard_cli.Audit.Status.{compare_heads, awaited, run_by_action, status_item, build_status}
use enji_guard_cli.Audit.Waiting.Ends.{IsWaitEnd, wait_for_completion_ends}
use enji_guard_cli.Audit.Status.Laws.{IsActiveFor, build_status_total}
use enji_guard_cli.Audit.Runs.Laws.{start_one_audit-Only}
use enji_guard_cli.Audit.Runs.Agreement.{status_agrees}
use enji_guard_cli.Timestamps.{binary_format}
use enji_guard_cli.Json.{end}

abbrev pub audit : AuditDefinition
audit = record {
  action_key = "audit.security";
  title = "Security";
  metric_group = some "security";
  runbook_kind = "audit";
  runbook_id = some "rb";
  artifact_schema_name = some "schema";
  artifact_schema_version = some "1";
  task_description_template = none;
}

abbrev catalog : AuditCatalog
catalog = record {
  published_audits = audit ∷ [];
  recon = record audit { action_key = "audit.recon" };
}

abbrev run : AuditRun
run = record {
  task_id = some "t1";
  action_key = some "audit.security";
  status = some "running";
  created_at = none;
  started_at = none;
  completed_at = none;
  projection_source = none;
  projection_status_source = none;
  expires_at = none;
  current_head_sha = some "h2";
  last_audited_head_sha = none;
}

-- The audit was made of the head h1, and h2 is the current head.
abbrev pub heads : AuditRerunState
heads = record {
  current_head_sha = some "h2";
  audited_head_sha = some "h1";
  rerun_allowed = some true;
  last_task_id = none;
  audited_head_shas = ("audit.security", "h1") ∷ [];
}

build_status_total_example :
    (status : AuditStatus) × (build_status
        (λ s. s)
        binary_format
        "repo"
        catalog
        []
        (run ∷ [])
        (some heads)
      ≡ some status)
    × (length status.items ≡ 1)
build_status_total_example =
    build_status_total (λ s. s) binary_format "repo" catalog [] (run ∷ []) (some heads)

abbrev pub services : StartAuditDependencies
services = record {
  normalized = λ s. s;
  iso = binary_format;
  texts = record { strip = λ s. s; replace = λ s a b. s; repr = λ s. s };
  start_audit_run =
      λ r. StartReply.accepted (record { task_id = some "t2"; status = some "queued" });
  runbook = λ id. some (record {
    runbook_id = id;
    title = none;
    description = none;
    suggested_flow = none;
    suggested_flow_config = end;
  });
  records = λ start. true;
}

abbrev pub target : StartAuditsContext
target = record { repo_id = "repo"; project_id = "project"; catalog = catalog }

abbrev pub project_data : AuditProject
project_data = record {
  project_id = "project";
  repositories =
      record {
        repo_id = "repo";
        provider = "github";
        locator = "owner/repo";
        connected = true;
        web_url = none;
      }
      ∷ [];
  linked_websites = [];
}

-- No run is known, or the one above.
abbrev idle_state : StartOneState
idle_state = record { rerun_state = heads; active_runs = []; project = project_data }

abbrev busy_state : StartOneState
busy_state = record { rerun_state = heads; active_runs = run ∷ []; project = project_data }

abbrev request : AuditRunRequest
request = record {
  repo_id = "repo";
  project_id = "project";
  action_key = "audit.security";
  task_body =
      task_body services.texts
        (record {
          project = project_data;
          audit = audit;
          runbook = record {
            runbook_id = "rb";
            title = none;
            description = none;
            suggested_flow = none;
            suggested_flow_config = end;
          };
          runbook_id = "rb";
          artifact_schema_name = "schema";
          artifact_schema_version = "1";
          description_template = none;
        })
        "repo"
        (record {
          repo_id = "repo";
          provider = "github";
          locator = "owner/repo";
          connected = true;
          web_url = none;
        });
}

request_sent : In request (start_one_audit services target idle_state audit).1.requests
unfolding start_one_audit
request_sent = here

start_one_audit-Only_example :
    ((start_one_audit services target idle_state audit).1.requests ≡ request ∷ [])
    × (request.action_key ≡ audit.action_key)
    × (request.repo_id ≡ target.repo_id)
    × ((sha : String)
        → heads.current_head_sha ≡ some sha
        → lookup_text heads.audited_head_shas "audit.security" ≢ some sha)
    × ((r : AuditRun)
        → IsActiveFor (λ s. s) [] "audit.security" r
        → (sha : String) × (other : String) × (heads.current_head_sha ≡ some sha)
          × (r.current_head_sha ≡ some other)
          × (other ≢ sha))
start_one_audit-Only_example =
    start_one_audit-Only services target idle_state audit request request_sent

run_active : IsActiveFor (λ s. s) (run ∷ []) "audit.security" run
unfolding is_active_run task_lifecycle
run_active = (here, refl, refl)

abbrev awaited_item : AuditStatusItem
awaited_item = record {
  audit_key = "audit.security";
  title = "Security";
  freshness = compare_heads (some "h2") (some "h1");
  can_read = true;
  task_lifecycle = AuditTaskLifecycle.running;
  task_id = some "t1";
  task_status = some "running";
  created_at = none;
  started_at = none;
  completed_at = none;
  current_head = awaited AuditCurrentHeadState.running_head run;
}

item_awaited :
    status_item
      (λ s. s)
      binary_format
      audit
      none
      (run_by_action (λ s. s) binary_format (run ∷ []) (some "h2") "audit.security")
      (some "h2")
      (some heads)
    ≡ some awaited_item
unfolding status_item run_by_action is_active_run
item_awaited = refl

status_agrees_example : (start_one_audit services target busy_state audit).1 ≡ no_effects
status_agrees_example =
    status_agrees services target busy_state audit none awaited_item item_awaited refl

-- The status never changes, and the clock advances by a second with each reading.
abbrev watched : AuditWaitDependencies
watched = record {
  read_status = λ k.
      some (record { repo_id = "repo"; current_head_sha = some "h2"; items = awaited_item ∷ [] });
  monotonic = λ k. k * 1_000_000;
}

abbrev options : AuditWaitOptions
options = record {
  poll_seconds = pos 1_000_000;
  timeout_seconds = pos 3_000_000;
  heartbeat_seconds = pos 2_000_000;
}

abbrev times : WaitTimes
times = record { poll = 1_000_000; timeout = 3_000_000; heartbeat = 2_000_000 }

options_valid : validate_wait_options options ≡ some times
unfolding validate_wait_options
options_valid = refl

watched-Sleeps : Sleeps 1_000_000 3_000_000 (λ k. k * 1_000_000)
watched-Sleeps = record { forward = omega arith; slept = λ k. ground arith }

wait_for_completion_ends_example :
    (e : WaitEnd) × (wait_for_completion 4 watched "repo" options true ≡ some (some e))
    × IsWaitEnd watched "repo" 0 3_000_000 e
wait_for_completion_ends_example =
    wait_for_completion_ends watched "repo" options true times 3 options_valid watched-Sleeps
      (omega arith)

abbrev published : AuditCatalogAction
published = record {
  action_key = "audit.security";
  title = "Security";
  category = some "audit";
  status = some "published";
  metric_group = some "security";
  runbook_kind = some "audit";
  runbook_id = some "rb";
  artifact_schema_name = some "schema";
  artifact_schema_version = some "1";
  task_description_template = none;
}

abbrev actions : List AuditCatalogAction
actions =
    published
    ∷ record published { action_key = "audit.recon"; category = none; metric_group = none }
    ∷ []

accepted_catalog :
    parse_catalog_result (λ s. s) actions
    ≡ some (record {
      published_audits = audit ∷ [];
      recon = record audit { action_key = "audit.recon"; metric_group = none };
    })
unfolding parse_catalog_result
accepted_catalog = refl

parse_catalog_result-IsCatalog_example : IsCatalog (record {
  published_audits = audit ∷ [];
  recon = record audit { action_key = "audit.recon"; metric_group = none };
})
parse_catalog_result-IsCatalog_example =
    parse_catalog_result-IsCatalog (λ s. s) actions _ accepted_catalog
