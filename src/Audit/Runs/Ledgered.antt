-- ===== src/Audit/Runs/Ledgered.antt =====
-- A run that the ledger keeps is not started again: audit/ledger.py and audit/runs.py together.
use enji_guard_cli.Audit.Ledger.Projected.{IsSource, loop_inverse, loop_suppresses}
use enji_guard_cli.Audit.Ledger.Asked.{
  IsRunOf, Truthful, decision-IsRunOf, retained_suppresses, same_fields, twins_equal,
}
use enji_guard_cli.Audit.{AuditDefinition}
use enji_guard_cli.Audit.Runs.{
  StartAuditDependencies, StartAuditsContext, StartOneState, no_effects, start_one_audit,
}
use enji_guard_cli.Audit.Runs.Laws.{may_count, IsAlready, start_one_audit-IsAlready}
use enji_guard_cli.Prelude.{not, ◌++◌, arith, filter_by-inverse, In-left, append-In, filter_by}
use enji_guard_cli.Audit.Ledger.Dedupe.{dedupe_runs_lem}
use enji_guard_cli.Audit.Ledger.Commit.{runs_after}
use enji_guard_cli.Audit.Ledger.Guards.{stays, commit_reconciliation_lem}
use enji_guard_cli.Audit.Ledger.Shown.{
  Projects, reconcile_task-Projects, loop_projects, stays_parts,
}
use enji_guard_cli.Audit.Ledger.Commit.{by_task}
use enji_guard_cli.Prelude.{
  ℕ, String, ◌≡◌, refl, sym, ap, ◌∙◌, subst, inl, inr, true, false, Option, none, some, List, ◌=s◌,
  =s_iff, =s_refl, any, In,
}
use enji_guard_cli.Audit.{AuditRun, AuditLedgerEntry}
use enji_guard_cli.Audit.Lifecycle.{is_active_run}
use enji_guard_cli.Audit.Ledger.{File, read}
use enji_guard_cli.Audit.Ledger.Reconcile.{
  Cache, cached, Upstream, reconcile_task, reconcile_by, reconcile_entry,
}
use enji_guard_cli.Audit.Ledger.Commit.{
  runs_of, ReconciliationCommit, identity_by, start, commit_reconciliation, is_suppressed,
}
use enji_guard_cli.Audit.Ledger.Guards.{decision}
use enji_guard_cli.Audit.Ledger.Identities.{Distinct}

identity_task :
    (r : AuditRun) (o : Option String) (id : String) → identity_by o r ≡ by_task id → o ≡ some id
identity_task r none id h = absurd (cc h)
identity_task r (some t) id h = cc h

suppressed :
    (u : Upstream) (ids : List String) (r : AuditRun) (id : String)
    → r.task_id ≡ some id
    → any (λ i. i =s id) ids ≡ true
    → is_suppressed u ids r ≡ true
suppressed u ids r id t h =
    subst (λ o. (elim o [ none ↦ false | some id ↦ any (λ i. i =s id) ids ]) ≡ true) (sym t) h

may_count-same : (o : Option String) (r : AuditRun) → r.current_head_sha ≡ o → may_count o r ≡ true
may_count-same none r h = refl
may_count-same (some sha) r h = rw h (=s_refl sha)

module _ (u : Upstream) (repo : String) (upstream : List AuditRun) (cache : Cache) (now : ℕ)
    (file : File) where
  unfoldable pub done : ReconciliationCommit × File
  unfolding commit_reconciliation
  done = commit_reconciliation u repo upstream cache now file

  origin_of :
      (r : AuditRun)
      → In r done.0.projected
      → (e : AuditLedgerEntry) × In e (read u.iso file) × IsSource u repo upstream cache now r e
  unfolding done commit_reconciliation
  origin_of r m = elim (loop_inverse u repo upstream cache now (start u) (read u.iso file) r m) [
    | inl n ↦ absurd (elim n [ ])
    | inr h ↦ h
  ]

  decision_by :
      (e : AuditLedgerEntry) (id : String)
      → e.task_id ≡ some id
      → decision u repo upstream cache now e ≡ reconcile_task u e id (cached cache id) now
  unfolding decision reconcile_entry reconcile_by
  decision_by e id t =
      ap
        (λ o.
          reconcile_by u e o cache now
            (any (is_active_run u.normalized) (runs_of upstream e.audit_key)))
        t

  -- The one source of the runs of a task.
  one_source :
      (e x : AuditLedgerEntry) (id : String) (r : AuditRun)
      → Distinct (read u.iso file)
      → In e (read u.iso file)
      → In x (read u.iso file)
      → e.repo_id ≡ repo
      → e.task_id ≡ some id
      → ((y : AuditLedgerEntry)
          → In y (read u.iso file)
          → y.task_id ≡ some id
          → y.audit_key ≡ e.audit_key)
      → Truthful u cache now
      → IsSource u repo upstream cache now r x
      → r.task_id ≡ some id
      → x ≡ e
  unfolding decision reconcile_entry
  one_source e x id r d m n same t one true_to h k =
      let i =
        decision-IsRunOf u cache now x x.task_id
          (any (is_active_run u.normalized) (runs_of upstream x.audit_key)) r true_to refl
          h.projects in
      let task = sym i.task ∙ k in
      let key = one x n task in
      let place = (=s_iff x.repo_id repo).0 h.repo_same ∙ sym same in
      twins_equal n m d (same_fields x e place key (task ∙ sym t))
        (same_fields e x (sym place) (sym key) (t ∙ sym task))

  -- The deduplicated runs hold the run of the entry's which is the entry's own.
  own_run :
      (e : AuditLedgerEntry) (id : String) (r s : AuditRun)
      → e.task_id ≡ some id
      → (decision u repo upstream cache now e).projected ≡ some r
      → ((x : AuditLedgerEntry)
          → In x (read u.iso file)
          → IsSource u repo upstream cache now s x
          → s.task_id ≡ some id
          → x ≡ e)
      → any (λ i. i =s id) done.0.suppress_task_ids ≡ true
      → s.task_id ≡ some id
      → In s (
          done.0.projected
          ++ filter_by (λ r. not (is_suppressed u done.0.suppress_task_ids r)) upstream)
      → s ≡ r
  own_run e id r s t p one h k m = elim (append-In done.0.projected _ m) [
    | inl n ↦
        let (x, i, source) = origin_of s n in
        let same = one x i source k in
        cc (source.projects, p, ap (λ y. (decision u repo upstream cache now y).projected) same)
    | inr n ↦
        let (i, q) =
          filter_by-inverse (λ r. not (is_suppressed u done.0.suppress_task_ids r)) upstream n in
        absurd (ground (arith, q, suppressed u done.0.suppress_task_ids s id k h))
  ]

  -- After a commit, every entry with a task that the file still holds has an active run of its audit
  -- and its head among the runs that the reconciliation answers, if the read entries are distinct,
  -- a task belongs to one audit, and the service answers with the task it is asked for.
  runs_after-IsRunOf :
      (e : AuditLedgerEntry) (id : String)
      → Distinct (read u.iso file)
      → ((y : AuditLedgerEntry)
          → In y (read u.iso file)
          → y.task_id ≡ some id
          → y.audit_key ≡ e.audit_key)
      → Truthful u cache now
      → In e (read u.iso done.1)
      → e.repo_id ≡ repo
      → e.task_id ≡ some id
      → (r : AuditRun) × In r (runs_after u upstream done.0)
        × (is_active_run u.normalized r ≡ true)
        × IsRunOf u cache now e r
  unfolding done commit_reconciliation runs_after decision Projects
  runs_after-IsRunOf e id d one true_to m same t =
      let (n, s) =
        filter_by-inverse (stays u repo upstream cache now) (read u.iso file)
          (subst (In e) (commit_reconciliation_lem u repo upstream cache now file) m) in
      let a = (=s_iff e.repo_id repo).1 same in
      let (o, k) = stays_parts u repo upstream cache now e a s in
      let by = decision_by e id t in
      let kept = sym (ap (λ x. x.retained) by) ∙ k in
      let (r, p, shown) = reconcile_task-Projects u cache now e id (cached cache id) o kept in
      let q = ap (λ x. x.projected) by ∙ p in
      let own =
        decision-IsRunOf u cache now e e.task_id
          (any (is_active_run u.normalized) (runs_of upstream e.audit_key)) r true_to refl q in
      let hidden = loop_suppresses u repo upstream cache now (start u) id n a o (
        ap (λ x. x.suppress_task_id) by
        ∙ retained_suppresses u cache now e id (cached cache id) kept) in
      let given = In-left _ (loop_projects u repo upstream cache now (start u) r n a o k q) in
      let (x, i, j) = (dedupe_runs_lem u _).2 r given in
      let task = identity_task x x.task_id id (j ∙ ap (λ o. identity_by o r) (own.task ∙ t)) in
      let equal =
        own_run e id r x t q (λ y m h w. one_source e y id x d n m same t one true_to h w) hidden
          task ((dedupe_runs_lem u _).1 x i) in
      (x, i, rw equal (shown.1), subst (IsRunOf u cache now e) (sym equal) own)

  -- A run that the ledger still holds after a commit is not started again: from the runs that the
  -- reconciliation answers, a start of the audit of the entry, for the head of the entry, sends
  -- nothing and records nothing, and answers that the run is already queued or running. The entry
  -- is of the reconciled repository and has a task; the entries read are distinct, the task belongs
  -- to one audit, a task found is the one asked for, and both parts normalize texts alike.
  pub ledgered_run_starts_once :
      (d : StartAuditDependencies) (c : StartAuditsContext) (s : StartOneState)
      (audit : AuditDefinition) (e : AuditLedgerEntry) (id : String)
      → d.normalized ≡ u.normalized
      → s.active_runs
        ≡ runs_after u upstream (commit_reconciliation u repo upstream cache now file).0
      → s.rerun_state.current_head_sha ≡ e.current_head_sha
      → audit.action_key ≡ e.audit_key
      → Distinct (read u.iso file)
      → ((y : AuditLedgerEntry)
          → In y (read u.iso file)
          → y.task_id ≡ some id
          → y.audit_key ≡ e.audit_key)
      → Truthful u cache now
      → In e (read u.iso (commit_reconciliation u repo upstream cache now file).1)
      → e.repo_id ≡ repo
      → e.task_id ≡ some id
      → ((start_one_audit d c s audit).1 ≡ no_effects)
        × IsAlready d c s (start_one_audit d c s audit)
  unfolding done
  ledgered_run_starts_once d c s audit e id words runs heads key distinct one true_to m same t =
      let (r, i, a, own) = runs_after-IsRunOf e id distinct one true_to m same t in
      start_one_audit-IsAlready d c s audit r
        (
          subst (In r) (sym runs) i,
          own.action ∙ ap some (sym key),
          subst (λ w. is_active_run w r ≡ true) (sym words) a,
        )
        (may_count-same s.rerun_state.current_head_sha r (own.head ∙ sym heads))
