-- ===== src/Audit/Status/Laws.antt =====
-- The status of the audits: it is always built, and it names a run to wait for only if that run is
-- active and of the current head.
use enji_guard_cli.Prelude.{Bool, false, if◌then◌else◌}
use enji_guard_cli.Prelude.{◌>>=◌}
use enji_guard_cli.Audit.Lifecycle.{same_text-some}
use enji_guard_cli.Prelude.{
  suc, String, ◌≡◌, refl, ap, subst, true, ◌&&◌, Option, none, some, List, [], ◌∷◌, arith, is_none,
  length, filter_by-inverse, In,
}
use enji_guard_cli.Timestamps.{IsoFormat}
use enji_guard_cli.Audit.{
  AuditRun, AuditTaskLink, AuditTaskLifecycle, AuditRerunState, AuditDefinition, AuditCatalog,
  AuditFreshnessState, AuditCurrentHeadStatus, AuditStatusItem, AuditStatus,
}
use enji_guard_cli.Audit.Lifecycle.{
  same_text, is_live, max_by-In, is_active_run, active_runs_for_action,
}
use enji_guard_cli.Audit.Status.{
  freshness_of, compare_heads, awaited_by, heads_differ, active_current_head_status,
  run_head_status, current_head_status, compare_evidence, evidence_key, best_run, run_by_action,
  link_by_action, run_lifecycle, audited_sha, current_sha, status_item, status_items, build_status,
}

-- The runs that an action's run is chosen from.
abbrev pub IsActiveFor : (String → String) → List AuditRun → String → AuditRun → Type 0
IsActiveFor normalized runs action r =
    In r runs × (r.action_key ≡ some action) × (is_active_run normalized r ≡ true)

-- There is a result.
abbrev IsSome : {A : Type 0} → Option A → Type 0
IsSome {A} o = (a : A) × (o ≡ some a)

if-IsSome :
    {A : Type 0} (b : Bool) (x y : Option A) → IsSome x → IsSome y → IsSome (if b then x else y)
if-IsSome true x y p q = p
if-IsSome false x y p q = q

bind-IsSome :
    {A B : Type 0} (m : Option A) (f : A → Option B)
    → IsSome m
    → ((a : A) → IsSome (f a))
    → IsSome (m >>= f)
bind-IsSome m f (a, e) h = let (b, g) = h a in (b, rw e g)

active_run :
    (normalized : String → String) (runs : List AuditRun) (action : String) (r : AuditRun)
    → In r (active_runs_for_action normalized runs action)
    → IsActiveFor normalized runs action r
unfolding active_runs_for_action
active_run normalized runs action r m =
    let (n, h) =
      filter_by-inverse (λ r. same_text r.action_key (some action) && is_active_run normalized r)
        runs m in
    (n, same_text-some r.action_key action (ground (arith, h)), ground (arith, h))

module _ (normalized : String → String) (iso : IsoFormat) where
  best_run-In :
      (current : Option String) (runs : List AuditRun) (r : AuditRun)
      → best_run normalized iso current runs ≡ some r
      → In r runs
  unfolding best_run compare_evidence evidence_key
  best_run-In current [] r h = absurd (cc h)
  best_run-In current (x ∷ xs) r h =
      subst (λ y. In y (x ∷ xs)) (cc h)
        (max_by-In compare_evidence (evidence_key normalized iso current) x xs)

  -- The run of an action is an active one.
  pub run_by_action-IsActiveFor :
      (runs : List AuditRun) (current : Option String) (action : String) (r : AuditRun)
      → run_by_action normalized iso runs current action ≡ some r
      → IsActiveFor normalized runs action r
  unfolding run_by_action
  run_by_action-IsActiveFor runs current action r h =
      active_run normalized runs action r
        (best_run-In current (active_runs_for_action normalized runs action) r h)

  awaited_live :
      (lifecycle : AuditTaskLifecycle) (run : AuditRun)
      → is_live lifecycle ≡ true
      → (s : AuditCurrentHeadStatus) × (awaited_by lifecycle run ≡ some s)
  awaited_live AuditTaskLifecycle.queued run h = (_, refl)
  awaited_live AuditTaskLifecycle.running run h = (_, refl)
  awaited_live AuditTaskLifecycle.idle run h = absurd (cc h)
  awaited_live AuditTaskLifecycle.failed run h = absurd (cc h)
  awaited_live AuditTaskLifecycle.completed run h = absurd (cc h)

  active_head :
      (current : Option String) (run : AuditRun) (lifecycle : AuditTaskLifecycle)
      → is_live lifecycle ≡ true
      → IsSome (active_current_head_status current run lifecycle)
  unfolding active_current_head_status
  active_head current run lifecycle h =
      if-IsSome (heads_differ current run.current_head_sha) _ _ (_, refl)
        (if-IsSome (is_none run.current_head_sha) _ _ (_, refl) (awaited_live lifecycle run h))

  head_of :
      (state : AuditFreshnessState) (current : Option String) (run : Option AuditRun)
      → ((r : AuditRun) → run ≡ some r → is_active_run normalized r ≡ true)
      → (s : AuditCurrentHeadStatus) × (current_head_status state current run
            (run_lifecycle normalized iso run)
          ≡ some s)
  unfolding current_head_status run_head_status run_lifecycle is_active_run
  head_of AuditFreshnessState.fresh current run h = (_, refl)
  head_of AuditFreshnessState.unknown_freshness current run h = (_, refl)
  head_of AuditFreshnessState.stale current none h = (_, refl)
  head_of AuditFreshnessState.stale current (some r) h = active_head current r _ (h r refl)

  -- The item of an audit, with the parts that the head's status does not decide.
  item_built :
      (audit : AuditDefinition) (link : Option AuditTaskLink) (run : Option AuditRun)
      (current : Option String) (rerun : Option AuditRerunState)
      → ((r : AuditRun) → run ≡ some r → is_active_run normalized r ≡ true)
      → IsSome (status_item normalized iso audit link run current rerun)
  unfolding status_item compare_heads run_lifecycle
  item_built audit link run current rerun h =
      bind-IsSome _ _
        (head_of (freshness_of current (audited_sha normalized iso rerun audit.action_key)) current
          run h)
        (λ head. (_, refl))

  items_built :
      (audits : List AuditDefinition) (links : List AuditTaskLink) (runs : List AuditRun)
      (rerun : Option AuditRerunState)
      → (items : List AuditStatusItem) × (status_items normalized iso audits links runs rerun
          ≡ some items)
        × (length items ≡ length audits)
  unfolding status_items
  items_built [] links runs rerun = ([], refl, refl)
  items_built (a ∷ audits) links runs rerun =
      let current = current_sha normalized iso rerun in
      let run = run_by_action normalized iso runs current a.action_key in
      let (item, e) =
        item_built a (link_by_action normalized iso links a.action_key) run current rerun
          (λ r h. (run_by_action-IsActiveFor runs current a.action_key r h).2) in
      let (items, es, n) = items_built audits links runs rerun in
      (item ∷ items, rw e (rw es refl), ap suc n)

  -- The status of a repository is built whatever the projections are, with one item for each
  -- published audit: the assertion that a chosen run is active never fails.
  pub build_status_total :
      (repo : String) (catalog : AuditCatalog) (links : List AuditTaskLink) (runs : List AuditRun)
      (rerun : Option AuditRerunState)
      → (status : AuditStatus) × (build_status normalized iso repo catalog links runs rerun
          ≡ some status)
        × (length status.items ≡ length catalog.published_audits)
  unfolding build_status
  build_status_total repo catalog links runs rerun =
      let (items, e, n) = items_built catalog.published_audits links runs rerun in
      (
        record {
          repo_id = repo;
          current_head_sha = current_sha normalized iso rerun;
          items = items;
        },
        rw e refl,
        n,
      )
