-- ===== src/Audit/Status.antt =====
-- audit/status.py and audit/freshness.py: the status of the audits of a repository, built from the
-- projections that the service and the ledger give. The dictionaries by action are only asked for an
-- action's value: here they are that value. `none` stands for the `AssertionError` of a run whose
-- lifecycle is not active. `normalized` stands for `.strip().lower()`.
use enji_guard_cli.Audit.Lifecycle.{Projection}
use enji_guard_cli.Prelude.{
  ℕ, String, Bool, true, false, not, ◌&&◌, ◌||◌, Option, none, some, List, [], ◌∷◌, if◌then◌else◌,
  is_some, is_none, ◌=s◌, filter_by,
}
use enji_guard_cli.Timestamps.{IsoFormat}
use enji_guard_cli.Audit.{
  AuditRun, AuditTaskLink, AuditTaskLifecycle, lookup_text, AuditRerunState, AuditDefinition,
  AuditCatalog, AuditFreshnessState, AuditFreshness, AuditCurrentHeadState, AuditCurrentHeadAction,
  AuditCurrentHeadStatus, AuditStatusItem, AuditStatus,
}
use enji_guard_cli.Audit.Lifecycle.{
  same_text, run_projection, link_projection, Key, compare_keys, max_by, task_lifecycle,
  active_runs_for_action, projection_sort_key, representative_projection,
}
pub mod Laws
use Prim.Native.Nat.{Ordering, compare}
use Prim.Native.String.{then as first_of}
use enji_guard_cli.Prelude.{◌>>=◌}

abbrev pub freshness_of : Option String → Option String → AuditFreshnessState
freshness_of (some a) (some b) =
    if a =s b then AuditFreshnessState.fresh else AuditFreshnessState.stale
freshness_of _ _ = AuditFreshnessState.unknown_freshness

unfoldable pub compare_heads : Option String → Option String → AuditFreshness
compare_heads current audited = record {
  current_head_sha = current;
  audited_head_sha = audited;
  state = freshness_of current audited;
}

-- `AuditCurrentHeadStatus(state, action)`, whose other fields have no value
abbrev pub head_status : AuditCurrentHeadState → AuditCurrentHeadAction → AuditCurrentHeadStatus
head_status state action = record {
  state = state;
  action_required = action;
  task_id = none;
  task_status = none;
  task_current_head_sha = none;
  stale_active_task_id = none;
  stale_active_current_head_sha = none;
}

abbrev pub awaited : AuditCurrentHeadState → AuditRun → AuditCurrentHeadStatus
awaited state run = record {
  state = state;
  action_required = AuditCurrentHeadAction.wait_for_current_head_run;
  task_id = run.task_id;
  task_status = run.status;
  task_current_head_sha = run.current_head_sha;
  stale_active_task_id = none;
  stale_active_current_head_sha = none;
}

abbrev pub awaited_by : AuditTaskLifecycle → AuditRun → Option AuditCurrentHeadStatus
awaited_by AuditTaskLifecycle.queued run = some (awaited AuditCurrentHeadState.queued_head run)
awaited_by AuditTaskLifecycle.running run = some (awaited AuditCurrentHeadState.running_head run)
awaited_by _ run = none

abbrev pub blocked_by : AuditRun → AuditCurrentHeadStatus
blocked_by run = record {
  state = AuditCurrentHeadState.blocked;
  action_required = AuditCurrentHeadAction.start_current_head_run;
  task_id = none;
  task_status = none;
  task_current_head_sha = none;
  stale_active_task_id = run.task_id;
  stale_active_current_head_sha = run.current_head_sha;
}

abbrev pub unverified_by : AuditRun → AuditCurrentHeadStatus
unverified_by run = record {
  state = AuditCurrentHeadState.unverified;
  action_required = AuditCurrentHeadAction.inspect_unverified_run;
  task_id = run.task_id;
  task_status = run.status;
  task_current_head_sha = none;
  stale_active_task_id = none;
  stale_active_current_head_sha = none;
}

-- `a is not None and b is not None and a != b`
abbrev pub heads_differ : Option String → Option String → Bool
heads_differ (some a) (some b) = not (a =s b)
heads_differ _ _ = false

unfoldable pub active_current_head_status :
    Option String → AuditRun → AuditTaskLifecycle → Option AuditCurrentHeadStatus
active_current_head_status current run lifecycle =
    if heads_differ current run.current_head_sha
    then some (blocked_by run)
    else if is_none run.current_head_sha
    then some (unverified_by run)
    else awaited_by lifecycle run

unfoldable pub run_head_status :
    Option String → Option AuditRun → AuditTaskLifecycle → Option AuditCurrentHeadStatus
unfolding active_current_head_status
run_head_status current none lifecycle =
    some
      (head_status AuditCurrentHeadState.missing_head AuditCurrentHeadAction.start_current_head_run)
run_head_status current (some run) lifecycle = active_current_head_status current run lifecycle

unfoldable pub current_head_status :
    AuditFreshnessState
    → Option String
    → Option AuditRun
    → AuditTaskLifecycle
    → Option AuditCurrentHeadStatus
unfolding run_head_status
current_head_status AuditFreshnessState.fresh current run lifecycle =
    some (head_status AuditCurrentHeadState.ready AuditCurrentHeadAction.no_action)
current_head_status AuditFreshnessState.unknown_freshness current run lifecycle =
    some
      (head_status AuditCurrentHeadState.unknown_head AuditCurrentHeadAction.resolve_unknown_head)
current_head_status AuditFreshnessState.stale current run lifecycle =
    run_head_status current run lifecycle

abbrev pub is_completed : AuditTaskLifecycle → Bool
is_completed AuditTaskLifecycle.completed = true
is_completed _ = false

abbrev pub is_finished : AuditTaskLifecycle → Bool
is_finished AuditTaskLifecycle.completed = true
is_finished AuditTaskLifecycle.failed = true
is_finished _ = false

unfoldable pub artifact_expected : Option String → AuditTaskLifecycle → Bool
artifact_expected audited lifecycle = is_some audited || is_completed lifecycle

unfoldable pub head_evidence_priority : AuditRun → Option String → ℕ
head_evidence_priority run current =
    if is_some current && same_text run.current_head_sha current
    then 2
    else if is_some run.current_head_sha
    then 1
    else 0

abbrev pub compare_evidence : ℕ × Key → ℕ × Key → Ordering
unfolding compare_keys
compare_evidence a b = first_of (compare a.0 b.0) (compare_keys a.1 b.1)

module _ (normalized : String → String) (iso : IsoFormat) where
  abbrev pub evidence_key : Option String → AuditRun → ℕ × Key
  unfolding head_evidence_priority projection_sort_key
  evidence_key current run =
      (head_evidence_priority run current, projection_sort_key normalized iso (run_projection run))

  abbrev pub best_run : Option String → List AuditRun → Option AuditRun
  unfolding max_by evidence_key compare_evidence
  best_run current [] = none
  best_run current (r ∷ rs) = some (max_by compare_evidence (evidence_key current) r rs)

  -- `_runs_by_action(runs, current_sha).get(action)`
  unfoldable pub run_by_action : List AuditRun → Option String → String → Option AuditRun
  unfolding best_run active_runs_for_action
  run_by_action runs current action =
      best_run current (active_runs_for_action normalized runs action)

  abbrev pub best_link : List AuditTaskLink → Option AuditTaskLink
  unfolding representative_projection
  best_link [] = none
  best_link (l ∷ ls) = some (representative_projection normalized iso link_projection l ls)

  abbrev pub link_lifecycle : AuditTaskLink → AuditTaskLifecycle
  unfolding task_lifecycle
  link_lifecycle l = task_lifecycle normalized l.status l.started_at l.completed_at

  abbrev pub first_nonempty : List AuditTaskLink → List AuditTaskLink → List AuditTaskLink
  first_nonempty [] others = others
  first_nonempty (l ∷ ls) others = l ∷ ls

  unfoldable pub representative_link : List AuditTaskLink → Option AuditTaskLink
  unfolding best_link link_lifecycle
  representative_link links =
      let terminal = filter_by (λ l. is_finished (link_lifecycle l)) links in
      let readable = filter_by (λ l. is_completed (link_lifecycle l)) terminal in
      best_link (first_nonempty readable terminal)

  -- `_links_by_action(links).get(action)`
  unfoldable pub link_by_action : List AuditTaskLink → String → Option AuditTaskLink
  unfolding representative_link
  link_by_action links action =
      representative_link (filter_by (λ l. same_text l.action_key (some action)) links)

  unfoldable pub run_lifecycle : Option AuditRun → AuditTaskLifecycle
  unfolding task_lifecycle
  run_lifecycle none = AuditTaskLifecycle.idle
  run_lifecycle (some r) = task_lifecycle normalized r.status r.started_at r.completed_at

  -- The projection that the item's task is read from, and its lifecycle.
  unfoldable pub source_of :
      Option AuditTaskLink → Option AuditRun → Option Projection × AuditTaskLifecycle
  unfolding run_lifecycle link_lifecycle
  source_of link (some run) = (some (run_projection run), run_lifecycle (some run))
  source_of (some link) none =
      if is_finished (link_lifecycle link)
      then (some (link_projection link), link_lifecycle link)
      else (none, AuditTaskLifecycle.idle)
  source_of none none = (none, AuditTaskLifecycle.idle)

  abbrev pub from_source : (Projection → Option String) → Option Projection → Option String
  from_source f none = none
  from_source f (some p) = f p

  abbrev pub audited_sha : Option AuditRerunState → String → Option String
  audited_sha none key = none
  audited_sha (some s) key = lookup_text s.audited_head_shas key

  abbrev pub current_sha : Option AuditRerunState → Option String
  current_sha none = none
  current_sha (some s) = s.current_head_sha

  unfoldable pub status_item :
      AuditDefinition
      → Option AuditTaskLink
      → Option AuditRun
      → Option String
      → Option AuditRerunState
      → Option AuditStatusItem
  unfolding source_of compare_heads current_head_status artifact_expected run_lifecycle
  status_item audit link run current rerun =
      let audited = audited_sha rerun audit.action_key in
      let source = (source_of link run).0 in
      let lifecycle = (source_of link run).1 in
      let freshness = compare_heads current audited in
      do
        head ← current_head_status freshness.state current run (run_lifecycle run)
        some (record {
          audit_key = audit.action_key;
          title = audit.title;
          freshness = freshness;
          can_read = artifact_expected audited lifecycle;
          task_lifecycle = lifecycle;
          task_id = from_source (λ p. p.task_id) source;
          task_status = from_source (λ p. p.status) source;
          created_at = from_source (λ p. p.created_at) source;
          started_at = from_source (λ p. p.started_at) source;
          completed_at = from_source (λ p. p.completed_at) source;
          current_head = head;
        })

  unfoldable pub status_items :
      List AuditDefinition
      → List AuditTaskLink
      → List AuditRun
      → Option AuditRerunState
      → Option (List AuditStatusItem)
  unfolding status_item link_by_action run_by_action
  status_items [] links runs rerun = some []
  status_items (a ∷ audits) links runs rerun =
      let current = current_sha rerun in
      do
        item ←
            status_item a (link_by_action links a.action_key)
              (run_by_action runs current a.action_key) current rerun
        items ← status_items audits links runs rerun
        some (item ∷ items)

  unfoldable pub build_status :
      String
      → AuditCatalog
      → List AuditTaskLink
      → List AuditRun
      → Option AuditRerunState
      → Option AuditStatus
  unfolding status_items
  build_status repo catalog links runs rerun = do
    items ← status_items catalog.published_audits links runs rerun
    some (record { repo_id = repo; current_head_sha = current_sha rerun; items = items })
