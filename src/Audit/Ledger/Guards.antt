-- ===== src/Audit/Ledger/Guards.antt =====
-- What a reconciliation keeps of the ledger, and on what evidence it drops a started run.
use enji_guard_cli.Prelude.{inl, inr, Bool-cases}
use enji_guard_cli.Audit.Ledger.{File, read, write}
use enji_guard_cli.Audit.Ledger.Commit.{start, commit_reconciliation}
use enji_guard_cli.Audit.Ledger.RoundTrip.{selection_round}
use mathlib.Core.List.{append-nil, append_assoc}
use enji_guard_cli.Prelude.{
  ℕ, String, ◌≡◌, refl, sym, ap, ◌∙◌, Bool, true, false, not, List, [], ◌∷◌, ◌++◌, arith,
  if◌then◌else◌, ◌=s◌, any, filter_by,
}
use enji_guard_cli.Audit.{AuditRun, AuditLedgerEntry}
use enji_guard_cli.Audit.Lifecycle.{is_active_run}
use enji_guard_cli.Audit.Ledger.Reconcile.{
  EntryReconciliation, Cache, Upstream, reconcile_entry, is_over,
}
use enji_guard_cli.Audit.Ledger.Commit.{runs_of, Loop, kept, dropped, decided, step, loop}

step_retained :
    (a b : Bool) (l : Loop) (e : AuditLedgerEntry) (o : EntryReconciliation) (c : Bool)
    → o.retained ≡ c
    → (if not a then kept l e else if b then dropped l else decided l e o).retained
      ≡ l.retained ++ filter_by (λ _. if not a then true else if b then false else c) (e ∷ [])
unfolding decided
step_retained false b l e o c h = refl
step_retained true true l e o c h = sym (append-nil _)
step_retained true false l e o true h = rw h refl
step_retained true false l e o false h = rw h (sym (append-nil _))

step_changed :
    (a b : Bool) (l : Loop) (e : AuditLedgerEntry) (o : EntryReconciliation) (c : Bool)
    → o.retained ≡ c
    → (if not a then kept l e else if b then dropped l else decided l e o).changed ≡ false
    → (l.changed ≡ false) × ((if not a then true else if b then false else c) ≡ true)
unfolding decided
step_changed false b l e o c h n = (n, refl)
step_changed true true l e o c h n = absurd (cc n)
step_changed true false l e o true h n = (rw (sym n) (rw h refl), refl)
step_changed true false l e o false h n = absurd (ground (arith, h, n))

module _ (u : Upstream) (repo : String) (upstream : List AuditRun) (cache : Cache) (now : ℕ) where
  unfoldable pub decision : AuditLedgerEntry → EntryReconciliation
  unfolding reconcile_entry is_active_run runs_of
  decision e =
      reconcile_entry u e cache now
        (any (is_active_run u.normalized) (runs_of upstream e.audit_key))

  -- Whether the entry is one that a reconciliation of the repository keeps.
  unfoldable pub stays : AuditLedgerEntry → Bool
  unfolding is_over decision
  stays e =
      if not (e.repo_id =s repo)
      then true
      else if is_over u e now
      then false
      else (decision e).retained

  loop_retained :
      (l : Loop) (es : List AuditLedgerEntry)
      → (loop u repo upstream cache now l es).retained ≡ l.retained ++ filter_by stays es
  unfolding loop step stays decision
  loop_retained l [] = sym (append-nil _)
  loop_retained l (e ∷ es) =
      loop_retained (step u repo upstream cache now l e) es
      ∙ ap (λ r. r ++ filter_by stays es)
          (step_retained (e.repo_id =s repo) (is_over u e now) l e (decision e) _ refl)
      ∙ append_assoc l.retained _ _
      ∙ ap (λ r. l.retained ++ r) (sym (one_more (stays e) e (filter_by stays es)))
    where
      one_more :
          (b : Bool) (e : AuditLedgerEntry) (es : List AuditLedgerEntry)
          → (if b then e ∷ es else es) ≡ filter_by (λ _. b) (e ∷ []) ++ es
      one_more true e es = refl
      one_more false e es = refl

  loop_changed :
      (l : Loop) (es : List AuditLedgerEntry)
      → (loop u repo upstream cache now l es).changed ≡ false
      → (l.changed ≡ false) × (filter_by stays es ≡ es)
  unfolding loop step stays decision
  loop_changed l [] n = (n, refl)
  loop_changed l (e ∷ es) n =
      let (m, same) = loop_changed (step u repo upstream cache now l e) es n in
      let (start, kept) =
        step_changed (e.repo_id =s repo) (is_over u e now) l e (decision e) _ refl m in
      (start, rw kept (ap (λ xs. e ∷ xs) same))

  -- After a commit the file holds the entries that stay, in their order, and no other, whether or
  -- not the commit had to write it.
  pub commit_reconciliation_lem :
      (file : File)
      → read u.iso (commit_reconciliation u repo upstream cache now file).1
        ≡ filter_by stays (read u.iso file)
  unfolding commit_reconciliation
  commit_reconciliation_lem file =
      let entries = read u.iso file in
      let l = loop u repo upstream cache now (start u) entries in
      elim (Bool-cases l.changed) [
        | inl e ↦ rw e (
            ap (λ es. read u.iso (write u.iso es)) (loop_retained (start u) entries)
            ∙ selection_round u.iso stays file)
        | inr e ↦ rw e (sym (loop_changed (start u) entries e).1)
      ]
