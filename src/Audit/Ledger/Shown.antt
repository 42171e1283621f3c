-- ===== src/Audit/Ledger/Shown.antt =====
-- A started run that the ledger keeps is shown as an active run of its audit.
use enji_guard_cli.Audit.Lifecycle.{same_text-some}
use enji_guard_cli.Prelude.{subst}
use enji_guard_cli.Audit.Ledger.{File, read}
use enji_guard_cli.Audit.Ledger.Commit.{optional, start, commit_reconciliation}
use enji_guard_cli.Audit.Ledger.Guards.{stays, commit_reconciliation_lem}
use enji_guard_cli.Audit.Ledger.Reconcile.{reconcile_by}
use enji_guard_cli.Prelude.{
  not, List, [], ◌∷◌, if◌then◌else◌, ◌=s◌, =s_iff, any, filter_by-inverse, any-In, In-left,
  In-right, In, here, there,
}
use enji_guard_cli.Audit.Lifecycle.{same_text}
use enji_guard_cli.Audit.Ledger.Commit.{runs_of, Loop, kept, dropped, decided, step, loop}
use enji_guard_cli.Audit.Ledger.Guards.{decision}
use enji_guard_cli.Prelude.{
  ℕ, String, ◌≡◌, refl, ◌⊎◌, inl, inr, Bool, true, false, Option, none, some, arith, Bool-cases,
}
use enji_guard_cli.Audit.{AuditRun, AuditLedgerEntry}
use enji_guard_cli.Audit.Lifecycle.{is_terminal_status, task_lifecycle, is_live, is_active_run}
use enji_guard_cli.Audit.Ledger.Reconcile.{
  Lookup, EntryReconciliation, Cache, cached, Upstream, project, is_past_grace, reconcile_task,
  reconcile_entry, is_over,
}

-- An active run of the audit.
abbrev pub IsShown : (String → String) → String → AuditRun → Type 0
IsShown normalized key r = (r.action_key ≡ some key) × (is_active_run normalized r ≡ true)

live_unless_terminal :
    (normalized : String → String) (status started : Option String)
    → is_terminal_status normalized status ≡ false
    → is_live (task_lifecycle normalized status started none) ≡ true
unfolding is_terminal_status task_lifecycle
live_unless_terminal normalized status started h = ground (arith, h)

module _ (u : Upstream) (cache : Cache) (now : ℕ) where
  -- The run that a decision projects.
  unfoldable pub Projects : AuditLedgerEntry → EntryReconciliation → Type 0
  Projects e o = (r : AuditRun) × (o.projected ≡ some r) × IsShown u.normalized e.audit_key r

  ledger_only :
      (e : AuditLedgerEntry)
      → is_over u e now ≡ false
      → IsShown u.normalized e.audit_key (project u.iso e none)
  unfolding is_over is_active_run project
  ledger_only e h =
      (refl, live_unless_terminal u.normalized e.task_status e.started_at (ground (arith, h)))

  pub reconcile_task-Projects :
      (e : AuditLedgerEntry) (id : String) (r : Option Lookup)
      → is_over u e now ≡ false
      → (reconcile_task u e id r now).retained ≡ true
      → Projects e (reconcile_task u e id r now)
  unfolding reconcile_task Projects project
  reconcile_task-Projects e id none o h = (project u.iso e none, refl, ledger_only e o)
  reconcile_task-Projects e id (some (Lookup.found d)) o h =
      elim (Bool-cases (is_active_run u.normalized (project u.iso e (some d)))) [
        | inl a ↦ (project u.iso e (some d), rw a refl, (refl, a))
        | inr a ↦ absurd (ground (arith, a, h))
      ]
  reconcile_task-Projects e id (some (Lookup.failed error)) o h =
      elim (Bool-cases (is_past_grace error e now u.lookup_grace)) [
        | inl p ↦ absurd (ground (arith, p, h))
        | inr p ↦ (project u.iso e none, rw p refl, ledger_only e o)
      ]

  reconcile_entry-Projects :
      (e : AuditLedgerEntry) (has : Bool)
      → is_over u e now ≡ false
      → (reconcile_entry u e cache now has).retained ≡ true
      → (has ≡ true) ⊎ Projects e (reconcile_entry u e cache now has)
  unfolding reconcile_entry reconcile_by Projects
  reconcile_entry-Projects e true o = λ h. inl refl
  reconcile_entry-Projects e false o = by_id e.task_id
    where
      by_id :
          (t : Option String)
          → (reconcile_by u e t cache now false).retained ≡ true
          → (false ≡ true) ⊎ Projects e (reconcile_by u e t cache now false)
      by_id none h = inr (project u.iso e none, refl, ledger_only e o)
      by_id (some id) h = inr (reconcile_task-Projects e id (cached cache id) o h)

module _ (u : Upstream) (repo : String) (upstream : List AuditRun) (cache : Cache) (now : ℕ) where
  step_projected :
      (a b : Bool) (l : Loop) (e : AuditLedgerEntry) (o : EntryReconciliation) (r : AuditRun)
      → In r l.projected
      → In r (if not a then kept l e else if b then dropped l else decided l e o).projected
  unfolding decided
  step_projected false b l e o r m = m
  step_projected true true l e o r m = m
  step_projected true false l e o r m = elim (Bool-cases o.retained) [
    | inl h ↦ rw h (In-left (optional o.projected) m)
    | inr h ↦ rw h m
  ]

  loop_grows :
      (l : Loop) (es : List AuditLedgerEntry) (r : AuditRun)
      → In r l.projected
      → In r (loop u repo upstream cache now l es).projected
  unfolding loop step decision
  loop_grows l [] r m = m
  loop_grows l (e ∷ es) r m = loop_grows (step u repo upstream cache now l e) es r (
      step_projected (e.repo_id =s repo) (is_over u e now) l e
        (decision u repo upstream cache now e) r m)

  pub loop_projects :
      {e : AuditLedgerEntry} {es : List AuditLedgerEntry} (l : Loop) (r : AuditRun)
      → In e es
      → (e.repo_id =s repo) ≡ true
      → is_over u e now ≡ false
      → (decision u repo upstream cache now e).retained ≡ true
      → (decision u repo upstream cache now e).projected ≡ some r
      → In r (loop u repo upstream cache now l es).projected
  unfolding loop step decided decision
  loop_projects {e = e} l r (here {xs = es}) a b k p =
      loop_grows _ es r (rw a (rw b (rw k (rw p (In-right l.projected here)))))
  loop_projects {e = e} l r (there {y = y} {xs = xs} m) a b k p =
      loop_projects (step u repo upstream cache now l y) r m a b k p

  active_upstream :
      (key : String)
      → any (is_active_run u.normalized) (runs_of upstream key) ≡ true
      → (r : AuditRun) × In r upstream × IsShown u.normalized key r
  unfolding runs_of
  active_upstream key h =
      let (r, m, a) = any-In (is_active_run u.normalized) (runs_of upstream key) h in
      let (n, k) = filter_by-inverse (λ r. same_text r.action_key (some key)) upstream m in
      (r, n, (same_text-some r.action_key key k, a))

  pub stays_parts :
      (e : AuditLedgerEntry)
      → (e.repo_id =s repo) ≡ true
      → stays u repo upstream cache now e ≡ true
      → (is_over u e now ≡ false) × ((decision u repo upstream cache now e).retained ≡ true)
  unfolding stays
  stays_parts e a s = elim (Bool-cases (is_over u e now)) [
    | inl o ↦ absurd (ground (arith, a, o, s))
    | inr o ↦ (o, ground (arith, a, o, s))
  ]

  -- After a commit, every entry of the repository that the file still holds has an active run of
  -- its audit: one that the commit projects, or one that the service reported.
  pub commit_reconciliation-IsShown :
      (file : File) (e : AuditLedgerEntry)
      → In e (read u.iso (commit_reconciliation u repo upstream cache now file).1)
      → e.repo_id ≡ repo
      → (r : AuditRun) × (In r (commit_reconciliation u repo upstream cache now file).0.projected
          ⊎ In r upstream)
        × IsShown u.normalized e.audit_key r
  unfolding commit_reconciliation decision Projects
  commit_reconciliation-IsShown file e m same =
      let (n, s) =
        filter_by-inverse (stays u repo upstream cache now) (read u.iso file)
          (subst (In e) (commit_reconciliation_lem u repo upstream cache now file) m) in
      let a = (=s_iff e.repo_id repo).1 same in
      let (o, k) = stays_parts e a s in
      elim (reconcile_entry-Projects u cache now e
        (any (is_active_run u.normalized) (runs_of upstream e.audit_key)) o k) [
          | inl h ↦ let (r, i, shown) = active_upstream e.audit_key h in (r, inr i, shown)
          | inr (r, p, shown) ↦ (r, inl (loop_projects (start u) r n a o k p), shown)
        ]
