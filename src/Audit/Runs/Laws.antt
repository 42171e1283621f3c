-- ===== src/Audit/Runs/Laws.antt =====
-- What the start of an audit sends: at most one request, none where an active run of the current
-- head is known, and none where the status of the audit does not ask for a start.
use enji_guard_cli.Prelude.{◌≢◌, Option-cases}
use enji_guard_cli.Prelude.{ap, Bool-cases}
use enji_guard_cli.Audit.{lookup_text}
use enji_guard_cli.Audit.Runs.{
  out_of_date, is_current, TaskBuilt, audit_run_task_body, plain_item, request_run,
}
use enji_guard_cli.Audit.Tasks.{TaskResult}
use enji_guard_cli.Prelude.{here, there}
use enji_guard_cli.Audit.{AuditRunRequest}
use enji_guard_cli.Audit.Runs.{StartReply, run_start, after_reply}
use enji_guard_cli.Prelude.{
  String, ◌≡◌, refl, subst, ◌⊎◌, inl, inr, Bool, true, false, ◌&&◌, Option, none, some, List, [],
  ◌∷◌, if◌then◌else◌, =s_refl, filter_by-kept, In,
}
use enji_guard_cli.Audit.{AuditRun, AuditRunStart, AuditDefinition, AuditTaskBody, AuditRunState}
use enji_guard_cli.Audit.Runs.{
  StartAuditDependencies, StartAuditsContext, StartOneState, BatchResultItem, Effects, Started,
  no_effects, may_be_of, current_head_active_runs, run_request, start_unless, start_one_audit,
}
use enji_guard_cli.Audit.Lifecycle.{same_text, is_active_run, active_runs_for_action}
use enji_guard_cli.Audit.Status.Laws.{IsActiveFor}

-- An active run of the audit that is of the current head, as far as is known.
abbrev pub may_count : Option String → AuditRun → Bool
may_count none r = true
may_count (some sha) r = may_be_of (some sha) r

not_empty : {A : Type 0} {x : A} {xs : List A} → In x xs → xs ≡ [] → ⊥
not_empty {A} {x} m e = absurd (elim (subst (In x) e m) [ ])

-- What the two tests of the start say of the heads.
not_current :
    (current last : Option String) (sha : String)
    → is_current (out_of_date current last) ≡ false
    → current ≡ some sha
    → last ≢ some sha
unfolding out_of_date
not_current current last sha h c l = absurd (cc (rw (c, l, =s_refl sha) at h))

other_head :
    (current : Option String) (r : AuditRun)
    → may_count current r ≡ false
    → (sha : String) × (other : String) × (current ≡ some sha)
      × (r.current_head_sha ≡ some other)
      × (other ≢ sha)
other_head none r h = absurd (cc h)
other_head (some sha) r h = elim (Option-cases r.current_head_sha) [
  | inl n ↦ absurd (cc (rw n at h))
  | inr (other, n) ↦ (sha, other, refl, n, λ e. absurd (cc (rw (n, e, =s_refl sha) at h)))
]

module _ (d : StartAuditDependencies) (c : StartAuditsContext) (s : StartOneState) where
  open d use {normalized}

  matching : String → List AuditRun
  unfolding current_head_active_runs active_runs_for_action
  matching key =
      current_head_active_runs (active_runs_for_action normalized s.active_runs key)
        s.rerun_state.current_head_sha

  counted :
      (current : Option String) (runs : List AuditRun) (r : AuditRun)
      → In r runs
      → may_count current r ≡ true
      → In r (current_head_active_runs runs current)
  unfolding current_head_active_runs
  counted none runs r m h = m
  counted (some sha) runs r m h = filter_by-kept (may_be_of (some sha)) m h

  matched :
      (key : String) (r : AuditRun)
      → IsActiveFor normalized s.active_runs key r
      → may_count s.rerun_state.current_head_sha r ≡ true
      → In r (matching key)
  unfolding matching active_runs_for_action is_active_run
  matched key r (m, k, a) h =
      counted s.rerun_state.current_head_sha _ r
        (filter_by-kept (λ r. same_text r.action_key (some key) && is_active_run normalized r) m
          (rw k (rw (=s_refl key) a)))
        h

  -- The answer that the run is already there.
  abbrev pub IsAlready : Started → Type 0
  IsAlready x =
      (item : BatchResultItem) × (x.0 ≡ some item)
      × ((item.state ≡ AuditRunState.already_running) ⊎ (item.state ≡ AuditRunState.already_queued))

  one_state :
      (b : Bool)
      → let state = if b then AuditRunState.already_running else AuditRunState.already_queued in
        (state ≡ AuditRunState.already_running) ⊎ (state ≡ AuditRunState.already_queued)
  one_state true = inl refl
  one_state false = inr refl

  already :
      (key : String) (current last : Option String) (runs : List AuditRun) (r : AuditRun)
      → In r runs
      → ((start_unless d c s key current last runs).1 ≡ no_effects)
        × IsAlready (start_unless d c s key current last runs)
  unfolding start_unless
  already key current last (x ∷ xs) r m = (refl, (_, refl, one_state _))
  already key current last [] r m = absurd (elim m [ ])

  -- While an active run of the audit is known that is not of another head, a start sends nothing and
  -- records nothing, and answers that the run is already queued or running.
  pub start_one_audit-IsAlready :
      (audit : AuditDefinition) (r : AuditRun)
      → IsActiveFor normalized s.active_runs audit.action_key r
      → may_count s.rerun_state.current_head_sha r ≡ true
      → ((start_one_audit d c s audit).1 ≡ no_effects) × IsAlready (start_one_audit d c s audit)
  unfolding start_one_audit matching
  start_one_audit-IsAlready audit r a h =
      already audit.action_key s.rerun_state.current_head_sha _ _ r (matched audit.action_key r a h)

  -- The request is the only one, and it is for the repository and the audit.
  Only : String → AuditRunRequest → Effects → Type 0
  Only key request e =
      (e.requests ≡ request ∷ []) × (request.action_key ≡ key) × (request.repo_id ≡ c.repo_id)

  if-Only :
      (key : String) (request : AuditRunRequest) (b : Bool) (x y : Started)
      → (In request x.1.requests → Only key request x.1)
      → (In request y.1.requests → Only key request y.1)
      → In request (if b then x else y).1.requests
      → Only key request (if b then x else y).1
  if-Only key request true x y p q = p
  if-Only key request false x y p q = q

  one_sent :
      (key : String) (b : AuditTaskBody) (starts : List AuditRunStart) (request : AuditRunRequest)
      → In request (run_request d c key b ∷ [])
      → Only key request (record { requests = run_request d c key b ∷ []; recorded = starts })
  unfolding Only
  one_sent key b starts request here = (refl, refl, refl)
  one_sent key b starts request (there m) = elim m [ ]

  after_reply-Only :
      (key : String) (current last : Option String) (b : AuditTaskBody) (reply : StartReply)
      (request : AuditRunRequest)
      → In request (after_reply d c key current last (run_request d c key b) reply).1.requests
      → Only key request (after_reply d c key current last (run_request d c key b) reply).1
  after_reply-Only key current last b (StartReply.refused reason) request =
      one_sent key b [] request
  after_reply-Only key current last b StartReply.broken request = one_sent key b [] request
  after_reply-Only key current last b (StartReply.accepted r) request =
      if-Only key request (d.records (run_start d c key current last r)) _ _
        (one_sent key b _ request) (one_sent key b [] request)

  request_run-Only :
      (key : String) (current last : Option String) (built : TaskBuilt) (request : AuditRunRequest)
      → In request (request_run d c key current last built).1.requests
      → Only key request (request_run d c key current last built).1
  request_run-Only key current last none request = λ m. absurd (elim m [ ])
  request_run-Only key current last (some (TaskResult.repository_unusable _)) request =
      λ m. absurd (elim m [ ])
  request_run-Only key current last (some (TaskResult.action_unusable _)) request =
      λ m. absurd (elim m [ ])
  request_run-Only key current last (some (TaskResult.body b)) request =
      after_reply-Only key current last b (d.start_audit_run (run_request d c key b)) request

  start_unless-Only :
      (key : String) (current last : Option String) (runs : List AuditRun)
      (request : AuditRunRequest)
      → In request (start_unless d c s key current last runs).1.requests
      → Only key request (start_unless d c s key current last runs).1
        × (is_current (out_of_date current last) ≡ false)
  unfolding start_unless
  start_unless-Only key current last (r ∷ rs) request = λ m. absurd (elim m [ ])
  start_unless-Only key current last [] request = by_head (is_current (out_of_date current last))
    where
      by_head :
          (b : Bool)
          → let x = request_run d c key current last (audit_run_task_body d c s.project key) in
            let y : Started =
              (some (plain_item d key AuditRunState.up_to_date current last none), no_effects) in
            In request (if b then y else x).1.requests
            → Only key request (if b then y else x).1 × (b ≡ false)
      by_head true m = elim m [ ]
      by_head false m = (request_run-Only key current last _ request m, refl)

  -- If a start sends a request, it is the only one, for the audit and the repository; the current
  -- head and the head that the audit was made of are not both known and equal; and no active run of
  -- the audit is known whose head is the current one or unknown, and none at all where the current
  -- head is unknown.
  pub start_one_audit-Only :
      (audit : AuditDefinition) (request : AuditRunRequest)
      → In request (start_one_audit d c s audit).1.requests
      → ((start_one_audit d c s audit).1.requests ≡ request ∷ [])
        × (request.action_key ≡ audit.action_key)
        × (request.repo_id ≡ c.repo_id)
        × ((sha : String)
            → s.rerun_state.current_head_sha ≡ some sha
            → lookup_text s.rerun_state.audited_head_shas audit.action_key ≢ some sha)
        × ((r : AuditRun)
            → IsActiveFor normalized s.active_runs audit.action_key r
            → (sha : String) × (other : String) × (s.rerun_state.current_head_sha ≡ some sha)
              × (r.current_head_sha ≡ some other)
              × (other ≢ sha))
  unfolding start_one_audit Only
  start_one_audit-Only audit request m =
      let ((only, key, repo), stale) =
        start_unless-Only audit.action_key s.rerun_state.current_head_sha _ _ request m in
      (
        only,
        key,
        repo,
        λ sha. not_current _ _ sha stale,
        λ r a. elim (Bool-cases (may_count s.rerun_state.current_head_sha r)) [
          | inl h ↦
              absurd (not_empty m (ap (λ e. e.requests) (start_one_audit-IsAlready audit r a h).0))
          | inr h ↦ other_head s.rerun_state.current_head_sha r h
        ],
      )
