-- ===== src/Audit/Ledger/Evidence.antt =====
-- Why the ledger drops a started run, and that a run that it keeps is seen as active: the guard
-- against a second start of the same audit.
use enji_guard_cli.Audit.Ledger.Reconcile.{reconcile_by}
use enji_guard_cli.Audit.Ledger.Guards.{decision}
use enji_guard_cli.Prelude.{
  any, filter_by-kept, ℕ, ◌+◌, ◌<◌, String, ◌≡◌, refl, sym, subst, ◌⊎◌, inl, inr, Bool, true, false,
  Option, none, some, List, arith, Bool-cases, ◌=s◌, =s_iff, In,
}
use enji_guard_cli.Audit.{AuditRun, AuditTaskDetail, AuditLedgerEntry}
use enji_guard_cli.Audit.Lifecycle.{is_terminal_status, is_active_run}
use enji_guard_cli.Audit.Ledger.{File, expired, read}
use enji_guard_cli.Audit.Ledger.Reconcile.{
  LookupError, Lookup, Cache, cached, Upstream, project, reconcile_task, reconcile_entry, is_over,
}
use enji_guard_cli.Audit.Ledger.Commit.{runs_of, commit_reconciliation}
use enji_guard_cli.Audit.Ledger.Guards.{stays, commit_reconciliation_lem}

module _ (u : Upstream) (cache : Cache) (now : ℕ) where
  -- What allows the entry of a run to be dropped: its time is over, its status is terminal, the
  -- service does not know its task after the grace, or the service says that it is not active.
  pub data IsSettled (e : AuditLedgerEntry) : Type 0 where
    lapsed : expired e now ≡ true → IsSettled e
    terminal : is_terminal_status u.normalized e.task_status ≡ true → IsSettled e
    missing :
        (id : String)
        → e.task_id ≡ some id
        → cached cache id ≡ some (Lookup.failed LookupError.audit_not_found)
        → e.observed_at + u.lookup_grace < now
        → IsSettled e
    inactive :
        (id : String) (d : AuditTaskDetail)
        → e.task_id ≡ some id
        → cached cache id ≡ some (Lookup.found d)
        → is_active_run u.normalized (project u.iso e (some d)) ≡ false
        → IsSettled e

  is_over-IsSettled : (e : AuditLedgerEntry) → is_over u e now ≡ true → IsSettled e
  unfolding is_over
  is_over-IsSettled e h = elim (Bool-cases (expired e now)) [
    | inl x ↦ lapsed x
    | inr x ↦ terminal (ground (arith, x, h))
  ]

  reconcile_task-IsSettled :
      (e : AuditLedgerEntry) (id : String) (r : Option Lookup)
      → e.task_id ≡ some id
      → cached cache id ≡ r
      → (reconcile_task u e id r now).retained ≡ false
      → IsSettled e
  unfolding reconcile_task
  reconcile_task-IsSettled e id none t c h = absurd (cc h)
  reconcile_task-IsSettled e id (some (Lookup.found d)) t c h =
      elim (Bool-cases (is_active_run u.normalized (project u.iso e (some d)))) [
        | inl a ↦ absurd (ground (arith, a, h))
        | inr a ↦ inactive id d t c a
      ]
  reconcile_task-IsSettled e id (some (Lookup.failed LookupError.audit_not_found)) t c h =
      missing id t c (ground (arith, h))
  reconcile_task-IsSettled e id (some (Lookup.failed LookupError.audit_upstream)) t c h =
      absurd (cc h)
  reconcile_task-IsSettled e id (some (Lookup.failed LookupError.audit_malformed)) t c h =
      absurd (cc h)

  reconcile_entry-IsSettled :
      (e : AuditLedgerEntry) (has : Bool)
      → (reconcile_entry u e cache now has).retained ≡ false
      → IsSettled e
  unfolding reconcile_entry reconcile_by
  reconcile_entry-IsSettled e has = by_id e.task_id refl
    where
      by_id :
          (t : Option String)
          → e.task_id ≡ t
          → (reconcile_by u e t cache now has).retained ≡ false
          → IsSettled e
      by_id none t h = absurd (cc h)
      by_id (some id) t h = reconcile_task-IsSettled e id (cached cache id) t refl h

module _ (u : Upstream) (repo : String) (upstream : List AuditRun) (cache : Cache) (now : ℕ) where
  not_staying :
      (e : AuditLedgerEntry)
      → stays u repo upstream cache now e ≡ false
      → (e.repo_id ≡ repo) × IsSettled u cache now e
  unfolding stays decision
  not_staying e h = elim (Bool-cases (e.repo_id =s repo)) [
    | inr r ↦ absurd (ground (arith, r, h))
    | inl r ↦ (
      (=s_iff e.repo_id repo).0 r,
      elim (Bool-cases (is_over u e now)) [
        | inl o ↦ is_over-IsSettled u cache now e o
        | inr o ↦
            reconcile_entry-IsSettled u cache now e
              (any (is_active_run u.normalized) (runs_of upstream e.audit_key))
              (ground (arith, r, o, h))
      ],
    )
  ]

  -- A commit drops an entry only if it is of the reconciled repository and settled: every other
  -- entry that it reads is in the file after.
  pub commit_reconciliation-IsSettled :
      (file : File) (e : AuditLedgerEntry)
      → In e (read u.iso file)
      → In e (read u.iso (commit_reconciliation u repo upstream cache now file).1)
        ⊎ ((e.repo_id ≡ repo) × IsSettled u cache now e)
  commit_reconciliation-IsSettled file e m = elim (Bool-cases (stays u repo upstream cache now e)) [
    | inl s ↦ inl (
        subst (In e) (sym (commit_reconciliation_lem u repo upstream cache now file))
          (filter_by-kept (stays u repo upstream cache now) m s))
    | inr s ↦ inr (not_staying e s)
  ]
