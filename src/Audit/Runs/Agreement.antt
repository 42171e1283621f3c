-- ===== src/Audit/Runs/Agreement.antt =====
-- The status of an audit and the start of the audit agree: audit/lifecycle.py keeps their rules in
-- one place for that.
use enji_guard_cli.Prelude.{ap, ◌∙◌, ◌⊎◌, List, [], ◌∷◌, Option-cases}
use enji_guard_cli.Audit.{
  AuditTaskLink, lookup_text, AuditRerunState, AuditDefinition, AuditFreshnessState,
  AuditStatusItem,
}
use enji_guard_cli.Audit.Runs.{
  StartAuditDependencies, StartAuditsContext, StartOneState, no_effects, out_of_date, is_current,
  start_unless, start_one_audit,
}
use enji_guard_cli.Audit.Status.{
  freshness_of, compare_heads, run_head_status, current_head_status, run_by_action, run_lifecycle,
  audited_sha, status_item,
}
use enji_guard_cli.Audit.Status.Laws.{run_by_action-IsActiveFor}
use enji_guard_cli.Audit.Runs.Laws.{start_one_audit-IsAlready}
use enji_guard_cli.Prelude.{
  String, ◌≡◌, refl, sym, inl, inr, Bool, true, false, Option, none, some, arith, Bool-cases, ◌=s◌,
  =s_iff,
}
use enji_guard_cli.Audit.{
  AuditRun, AuditTaskLifecycle, AuditCurrentHeadAction, AuditCurrentHeadStatus,
}
use enji_guard_cli.Audit.Status.{heads_differ, active_current_head_status}
use enji_guard_cli.Audit.Runs.Laws.{may_count}

-- The status asks for a run of the current head, or cannot tell.
abbrev pub may_start : AuditCurrentHeadAction → Bool
may_start AuditCurrentHeadAction.start_current_head_run = true
may_start AuditCurrentHeadAction.resolve_unknown_head = true
may_start _ = false

=s_sym : (a b : String) → (a =s b) ≡ true → (b =s a) ≡ true
=s_sym a b h = (=s_iff b a).1 (sym ((=s_iff a b).0 h))

counts_unless_differ :
    (current head : Option String) (r : AuditRun)
    → r.current_head_sha ≡ head
    → heads_differ current head ≡ false
    → may_count current r ≡ true
counts_unless_differ none head r e h = refl
counts_unless_differ (some a) none r e h = simp (e)
counts_unless_differ (some a) (some b) r e h = simp (e, =s_sym a b (ground (arith, h)))

blocked_starts :
    (current : Option String) (r : AuditRun) (lifecycle : AuditTaskLifecycle)
    (h : AuditCurrentHeadStatus)
    → active_current_head_status current r lifecycle ≡ some h
    → may_start h.action_required ≡ false
    → heads_differ current r.current_head_sha ≡ false
unfolding active_current_head_status
blocked_starts current r lifecycle h e n =
    elim (Bool-cases (heads_differ current r.current_head_sha)) [
      | inr d ↦ d
      | inl d ↦ absurd (cc (d, e, n))
    ]

head_reason :
    (state : AuditFreshnessState) (current : Option String) (run : Option AuditRun)
    (lifecycle : AuditTaskLifecycle) (h : AuditCurrentHeadStatus)
    → current_head_status state current run lifecycle ≡ some h
    → may_start h.action_required ≡ false
    → (state ≡ AuditFreshnessState.fresh)
      ⊎ ((r : AuditRun) × (run ≡ some r) × (heads_differ current r.current_head_sha ≡ false))
unfolding current_head_status run_head_status
head_reason AuditFreshnessState.fresh current run lifecycle h e n = inl refl
head_reason AuditFreshnessState.unknown_freshness current run lifecycle h e n = absurd (cc (e, n))
head_reason AuditFreshnessState.stale current none lifecycle h e n = absurd (cc (e, n))
head_reason AuditFreshnessState.stale current (some r) lifecycle h e n =
    inr (r, refl, blocked_starts current r lifecycle h e n)

fresh_current :
    (a b : Option String)
    → freshness_of a b ≡ AuditFreshnessState.fresh
    → is_current (out_of_date a b) ≡ true
unfolding out_of_date
fresh_current none b h = absurd (cc h)
fresh_current (some a) none h = absurd (cc h)
fresh_current (some a) (some b) h = elim (Bool-cases (a =s b)) [
  | inl e ↦ rw e refl
  | inr e ↦ absurd (cc (e, h))
]

module _ (d : StartAuditDependencies) (c : StartAuditsContext) (s : StartOneState) where
  open d use {normalized, iso}

  item_head :
      (audit : AuditDefinition) (link : Option AuditTaskLink) (run : Option AuditRun)
      (current : Option String) (rerun : Option AuditRerunState) (item : AuditStatusItem)
      → status_item normalized iso audit link run current rerun ≡ some item
      → current_head_status
          (freshness_of current (audited_sha normalized iso rerun audit.action_key))
          current
          run
          (run_lifecycle normalized iso run)
        ≡ some item.current_head
  unfolding status_item compare_heads run_lifecycle
  item_head audit link run current rerun item e =
      elim (Option-cases (
        current_head_status
          (freshness_of current (audited_sha normalized iso rerun audit.action_key)) current run
          (run_lifecycle normalized iso run))) [
            | inl n ↦ absurd (cc (rw n at e))
            | inr (h, n) ↦
                n ∙ ap some (ap (λ i. elim i [ none ↦ h | some x ↦ x.current_head ]) (rw n at e))
          ]

  unless_current :
      (key : String) (current last : Option String) (runs : List AuditRun)
      → is_current (out_of_date current last) ≡ true
      → (start_unless d c s key current last runs).1 ≡ no_effects
  unfolding start_unless
  unless_current key current last (r ∷ rs) h = refl
  unless_current key current last [] h = rw h refl

  current_start :
      (audit : AuditDefinition)
      → is_current (
          out_of_date s.rerun_state.current_head_sha
            (lookup_text s.rerun_state.audited_head_shas audit.action_key))
        ≡ true
      → (start_one_audit d c s audit).1 ≡ no_effects
  unfolding start_one_audit
  current_start audit h = unless_current audit.action_key s.rerun_state.current_head_sha _ _ h

  -- Where the status of an audit, built from the runs and the heads that a start reads, neither asks
  -- for a run of the current head nor leaves the head unknown, the start sends and records nothing.
  pub status_agrees :
      (audit : AuditDefinition) (link : Option AuditTaskLink) (item : AuditStatusItem)
      → let current = s.rerun_state.current_head_sha in
        status_item normalized iso audit link
            (run_by_action normalized iso s.active_runs current audit.action_key)
            current
            (some s.rerun_state)
          ≡ some item
        → may_start item.current_head.action_required ≡ false
        → (start_one_audit d c s audit).1 ≡ no_effects
  unfolding run_lifecycle
  status_agrees audit link item e n =
      let current = s.rerun_state.current_head_sha in
      let run = run_by_action normalized iso s.active_runs current audit.action_key in
      let h = item_head audit link run current (some s.rerun_state) item e in
      elim (head_reason _ current run (run_lifecycle normalized iso run) item.current_head h n) [
        | inl f ↦ current_start audit (fresh_current current _ f)
        | inr (r, g, k) ↦
            (start_one_audit-IsAlready d c s audit r
              (run_by_action-IsActiveFor normalized iso s.active_runs current audit.action_key r g)
              (counts_unless_differ current r.current_head_sha r refl k)).0
      ]
