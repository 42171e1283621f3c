-- ===== src/Audit/Ledger/Projected.antt =====
-- audit/ledger.py: where the runs that a commit projects come from, and which tasks it suppresses.
use enji_guard_cli.Prelude.{ℕ, List, here, there}
use enji_guard_cli.Audit.Ledger.Reconcile.{Cache, Upstream, is_over}
use enji_guard_cli.Audit.Ledger.Commit.{step, loop}
use enji_guard_cli.Audit.Ledger.Guards.{decision}
use enji_guard_cli.Prelude.{
  String, ◌≡◌, refl, ap, ◌∙◌, ◌⊎◌, inl, inr, Bool, true, false, not, ◌||◌, Option, none, some, [],
  ◌∷◌, ◌++◌, if◌then◌else◌, Bool-cases, ◌=s◌, =s_refl, any, any-append, In-single, append-In, In,
}
use enji_guard_cli.Audit.{AuditRun, AuditLedgerEntry}
use enji_guard_cli.Audit.Ledger.Reconcile.{EntryReconciliation}
use enji_guard_cli.Audit.Ledger.Commit.{Loop, optional, kept, dropped, decided}

In-optional : {A : Type 0} (m : Option A) (x : A) → In x (optional m) → m ≡ some x
In-optional none x m = elim m [ ]
In-optional (some y) x m = ap some (In-single m)

step_inverse :
    (a b : Bool) (l : Loop) (e : AuditLedgerEntry) (o : EntryReconciliation) (r : AuditRun)
    → In r (if not a then kept l e else if b then dropped l else decided l e o).projected
    → In r l.projected ⊎ ((a ≡ true) × (b ≡ false) × (o.retained ≡ true) × (o.projected ≡ some r))
unfolding decided
step_inverse false b l e o r = λ m. inl m
step_inverse true true l e o r = λ m. inl m
step_inverse true false l e o r = by_retained o.retained refl
  where
    by_retained :
        (k : Bool)
        → o.retained ≡ k
        → In r
            (if not k
              then record l {
                suppress_task_ids = l.suppress_task_ids ++ optional o.suppress_task_id;
                changed = true;
              }
              else record {
                projected = l.projected ++ optional o.projected;
                suppress_task_ids = l.suppress_task_ids ++ optional o.suppress_task_id;
                retained = l.retained ++ e ∷ [];
                changed = l.changed;
              }).projected
        → In r l.projected
          ⊎ ((true ≡ true) × (false ≡ false) × (o.retained ≡ true) × (o.projected ≡ some r))
    by_retained false k m = inl m
    by_retained true k m = elim (append-In l.projected (optional o.projected) m) [
      | inl n ↦ inl n
      | inr n ↦ inr (refl, refl, k, In-optional o.projected r n)
    ]

step_suppresses :
    (a b : Bool) (l : Loop) (e : AuditLedgerEntry) (o : EntryReconciliation) (id : String)
    → (any (λ i. i =s id) l.suppress_task_ids ≡ true)
      ⊎ ((a ≡ true) × (b ≡ false) × (o.suppress_task_id ≡ some id))
    → any
        (λ i. i =s id)
        (if not a then kept l e else if b then dropped l else decided l e o).suppress_task_ids
      ≡ true
unfolding decided
step_suppresses false b l e o id (inl h) = h
step_suppresses false b l e o id (inr (f, _, _)) = absurd (cc f)
step_suppresses true true l e o id (inl h) = h
step_suppresses true true l e o id (inr (_, f, _)) = absurd (cc f)
step_suppresses true false l e o id h = elim (Bool-cases o.retained) [
  | inl k ↦ rw k (added h)
  | inr k ↦ rw k (added h)
]
  where
    last_hit : (b : Bool) → (b || ((id =s id) || false)) ≡ true
    last_hit true = refl
    last_hit false = rw (=s_refl id) refl

    added :
        (any (λ i. i =s id) l.suppress_task_ids ≡ true)
          ⊎ ((true ≡ true) × (false ≡ false) × (o.suppress_task_id ≡ some id))
        → any (λ i. i =s id) (l.suppress_task_ids ++ optional o.suppress_task_id) ≡ true
    added (inl h) =
        any-append (λ i. i =s id) l.suppress_task_ids (optional o.suppress_task_id)
        ∙ ap (λ b. b || any (λ i. i =s id) (optional o.suppress_task_id)) h
    added (inr (_, _, s)) = rw s (
        any-append (λ i. i =s id) l.suppress_task_ids (id ∷ [])
        ∙ last_hit (any (λ i. i =s id) l.suppress_task_ids))

module _ (u : Upstream) (repo : String) (upstream : List AuditRun) (cache : Cache) (now : ℕ) where
  -- The entry decides to project the run.
  pub record IsSource (r : AuditRun) (e : AuditLedgerEntry) : Type 0 where
    pub repo_same : (e.repo_id =s repo) ≡ true
    pub open_entry : is_over u e now ≡ false
    pub retains : (decision u repo upstream cache now e).retained ≡ true
    pub projects : (decision u repo upstream cache now e).projected ≡ some r

  pub loop_inverse :
      (l : Loop) (es : List AuditLedgerEntry) (r : AuditRun)
      → In r (loop u repo upstream cache now l es).projected
      → In r l.projected ⊎ ((e : AuditLedgerEntry) × In e es × IsSource r e)
  unfolding loop step decision
  loop_inverse l [] r m = inl m
  loop_inverse l (e ∷ es) r m = elim (loop_inverse (step u repo upstream cache now l e) es r m) [
    | inr (x, n, h) ↦ inr (x, there n, h)
    | inl n ↦
        elim (step_inverse (e.repo_id =s repo) (is_over u e now) l e
          (decision u repo upstream cache now e) r n) [
            | inl k ↦ inl k
            | inr (a, b, k, p) ↦
                inr (e, here, record { repo_same = a; open_entry = b; retains = k; projects = p })
          ]
  ]

  loop_keeps :
      (l : Loop) (es : List AuditLedgerEntry) (id : String)
      → any (λ i. i =s id) l.suppress_task_ids ≡ true
      → any (λ i. i =s id) (loop u repo upstream cache now l es).suppress_task_ids ≡ true
  unfolding loop step decision
  loop_keeps l [] id h = h
  loop_keeps l (e ∷ es) id h = loop_keeps (step u repo upstream cache now l e) es id (
      step_suppresses (e.repo_id =s repo) (is_over u e now) l e
        (decision u repo upstream cache now e) id (inl h))

  pub loop_suppresses :
      {e : AuditLedgerEntry} {es : List AuditLedgerEntry} (l : Loop) (id : String)
      → In e es
      → (e.repo_id =s repo) ≡ true
      → is_over u e now ≡ false
      → (decision u repo upstream cache now e).suppress_task_id ≡ some id
      → any (λ i. i =s id) (loop u repo upstream cache now l es).suppress_task_ids ≡ true
  unfolding loop step decision
  loop_suppresses {e = e} l id (here {xs = es}) a b s =
      loop_keeps (step u repo upstream cache now l e) es id (
        step_suppresses (e.repo_id =s repo) (is_over u e now) l e
          (decision u repo upstream cache now e) id (inr (a, b, s)))
  loop_suppresses {e = e} l id (there {y = y} {xs = xs} m) a b s =
      loop_suppresses (step u repo upstream cache now l y) id m a b s
