-- ===== src/Audit/Ledger/Asked.antt =====
-- audit/ledger.py: what a decision says of an entry with a task, if the service answers with the
-- task it is asked for.
use enji_guard_cli.Prelude.{=s_iff}
use enji_guard_cli.Audit.Lifecycle.{same_text}
use enji_guard_cli.Audit.Ledger.{same_identity}
use enji_guard_cli.Audit.Ledger.Identities.{Distinct}
use enji_guard_cli.Prelude.{arith}
use enji_guard_cli.Audit.Ledger.Reconcile.{reconcile_by}
use enji_guard_cli.Prelude.{ℕ, sym, subst, List, here, there}
use enji_guard_cli.Audit.{AuditTaskDetail}
use enji_guard_cli.Audit.Lifecycle.{is_active_run}
use enji_guard_cli.Audit.Ledger.{or_else_text}
use enji_guard_cli.Audit.Ledger.Reconcile.{
  Lookup, Cache, cached, Upstream, project, is_past_grace, reconcile_task,
}
use enji_guard_cli.Prelude.{
  String, ◌≡◌, refl, ap, ◌∙◌, inl, inr, Bool, true, false, Option, none, some, if◌then◌else◌,
  Bool-cases, ◌=s◌, =s_refl, In,
}
use enji_guard_cli.Audit.{AuditRun, AuditLedgerEntry}
use enji_guard_cli.Audit.Ledger.Reconcile.{EntryReconciliation}

module _ (u : Upstream) (cache : Cache) (now : ℕ) where
  -- The run of an entry.
  pub record IsRunOf (e : AuditLedgerEntry) (r : AuditRun) : Type 0 where
    pub action : r.action_key ≡ some e.audit_key
    pub head : r.current_head_sha ≡ e.current_head_sha
    pub task : r.task_id ≡ e.task_id

  -- The task that a lookup answers with.
  abbrev pub Truthful : Type 0
  Truthful =
      (id : String) (d : AuditTaskDetail) → cached cache id ≡ some (Lookup.found d) → d.task_id ≡ id

  same_task : (d id : String) → d ≡ id → or_else_text (some d) (some id) ≡ some id
  same_task d id h = by_test (d =s "")
    where
      by_test : (b : Bool) → (if b then some id else some d) ≡ some id
      by_test true = refl
      by_test false = ap some h

  of_projected :
      (e : AuditLedgerEntry) (x r : AuditRun) → some x ≡ some r → IsRunOf e x → IsRunOf e r
  of_projected e x r h i = let same : x ≡ r = cc h in subst (IsRunOf e) same i

  -- The projected run of a decision that may drop its entry.
  of_choice :
      (e : AuditLedgerEntry) (x r : AuditRun) (b : Bool) (dropping keeping : EntryReconciliation)
      → dropping.projected ≡ none
      → keeping.projected ≡ some x
      → IsRunOf e x
      → (if b then dropping else keeping).projected ≡ some r
      → IsRunOf e r
  of_choice e x r true dropping keeping n k i h = absurd (cc (n, h))
  of_choice e x r false dropping keeping n k i h = of_projected e x r (sym k ∙ h) i

  of_choice_not :
      (e : AuditLedgerEntry) (x r : AuditRun) (b : Bool) (keeping dropping : EntryReconciliation)
      → dropping.projected ≡ none
      → keeping.projected ≡ some x
      → IsRunOf e x
      → (if b then keeping else dropping).projected ≡ some r
      → IsRunOf e r
  of_choice_not e x r true keeping dropping n k i h = of_projected e x r (sym k ∙ h) i
  of_choice_not e x r false keeping dropping n k i h = absurd (cc (n, h))

  task-IsRunOf :
      (e : AuditLedgerEntry) (id : String) (o : Option Lookup) (r : AuditRun)
      → ((d : AuditTaskDetail) → o ≡ some (Lookup.found d) → d.task_id ≡ id)
      → e.task_id ≡ some id
      → (reconcile_task u e id o now).projected ≡ some r
      → IsRunOf e r
  unfolding reconcile_task project
  task-IsRunOf e id none r true_to t h =
      of_projected e (project u.iso e none) r h (record { action = refl; head = refl; task = refl })
  task-IsRunOf e id (some (Lookup.failed error)) r true_to t h =
      of_choice e (project u.iso e none) r (is_past_grace error e now u.lookup_grace) _ _ refl refl
        (record { action = refl; head = refl; task = refl }) h
  task-IsRunOf e id (some (Lookup.found d)) r true_to t h =
      of_choice_not e (project u.iso e (some d)) r
        (is_active_run u.normalized (project u.iso e (some d))) _ _ refl refl
        (record {
          action = refl;
          head = refl;
          task =
              ap (or_else_text (some d.task_id)) t
              ∙ same_task d.task_id id (true_to d refl)
              ∙ sym t;
        })
        h

  pub decision-IsRunOf :
      (e : AuditLedgerEntry) (t : Option String) (has : Bool) (r : AuditRun)
      → Truthful
      → e.task_id ≡ t
      → (reconcile_by u e t cache now has).projected ≡ some r
      → IsRunOf e r
  unfolding reconcile_by project
  decision-IsRunOf e (some id) has r true_to t h =
      task-IsRunOf e id (cached cache id) r (true_to id) t h
  decision-IsRunOf e none true r true_to t h = absurd (cc h)
  decision-IsRunOf e none false r true_to t h =
      of_projected e (project u.iso e none) r h (record { action = refl; head = refl; task = refl })

  -- What an entry with a task suppresses if it is retained.
  pub retained_suppresses :
      (e : AuditLedgerEntry) (id : String) (o : Option Lookup)
      → (reconcile_task u e id o now).retained ≡ true
      → (reconcile_task u e id o now).suppress_task_id ≡ some id
  unfolding reconcile_task
  retained_suppresses e id none h = refl
  retained_suppresses e id (some (Lookup.failed error)) h =
      elim (Bool-cases (is_past_grace error e now u.lookup_grace)) [
        | inl p ↦ absurd (ground (arith, p, h))
        | inr p ↦ rw p refl
      ]
  retained_suppresses e id (some (Lookup.found d)) h =
      elim (Bool-cases (is_active_run u.normalized (project u.iso e (some d)))) [
        | inl p ↦ rw p refl
        | inr p ↦ rw p refl
      ]

pub same_fields :
    (a b : AuditLedgerEntry)
    → a.repo_id ≡ b.repo_id
    → a.audit_key ≡ b.audit_key
    → a.task_id ≡ b.task_id
    → same_identity a b ≡ true
unfolding same_identity
same_fields a b r k t = rw ((=s_iff a.repo_id b.repo_id).1 r) (
    rw ((=s_iff a.audit_key b.audit_key).1 k)
      (subst (λ o. same_text a.task_id o ≡ true) t (same_refl a.task_id)))
  where
    same_refl : (o : Option String) → same_text o o ≡ true
    same_refl none = refl
    same_refl (some s) = =s_refl s

pub twins_equal :
    {a b : AuditLedgerEntry} {es : List AuditLedgerEntry}
    → In a es
    → In b es
    → Distinct es
    → same_identity a b ≡ true
    → same_identity b a ≡ true
    → a ≡ b
twins_equal here here d p q = refl
twins_equal {b = b} here (there m) (apart, d) p q = absurd (cc (apart b m, p))
twins_equal {a = a} (there m) here (apart, d) p q = absurd (cc (apart a m, q))
twins_equal (there m) (there n) (apart, d) p q = twins_equal m n d p q
