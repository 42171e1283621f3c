-- ===== src/Audit/Lifecycle.antt =====
-- audit/lifecycle.py: the lifecycle of a task, and the choice of one of several projections of it.
-- `normalized` stands for `.strip().lower()`, Python's own. A timestamp is its instant in
-- microseconds, where the code has seconds as a float.
use enji_guard_cli.Prelude.{◌≡◌, ap, =s_iff}
use enji_guard_cli.Prelude.{
  ℕ, String, inl, inr, Bool, true, false, ◌&&◌, ◌||◌, Option, none, some, List, [], ◌∷◌, leb,
  if◌then◌else◌, Bool-cases, is_some, ◌=s◌, any, filter_by, In, here, there,
}
use enji_guard_cli.Timestamps.{Datetime, IsoFormat}
use enji_guard_cli.Audit.{AuditRun, AuditTaskLink, AuditTaskLifecycle}
use Prim.Native.Nat.{Ordering, compare}
use Prim.Native.String.{then as first_of, compare as compare_text}

abbrev pub failure_statuses : List String
failure_statuses = "failed" ∷ "failure" ∷ "error" ∷ []

abbrev pub terminal_statuses : List String
terminal_statuses = "completed" ∷ "canceled" ∷ "cancelled" ∷ "skipped" ∷ failure_statuses

abbrev pub running_statuses : List String
running_statuses = "running" ∷ "started" ∷ "in_progress" ∷ "in-progress" ∷ []

abbrev pub queued_statuses : List String
queued_statuses = "queued" ∷ "pending" ∷ []

abbrev pub is_among : List String → String → Bool
is_among names s = any (λ n. s =s n) names

-- `value or ""`
abbrev pub or_empty : Option String → String
or_empty none = ""
or_empty (some s) = s

abbrev pub same_text : Option String → Option String → Bool
same_text none none = true
same_text (some s) (some t) = s =s t
same_text _ _ = false

pub same_text-some : (o : Option String) (s : String) → same_text o (some s) ≡ true → o ≡ some s
same_text-some none s h = absurd (cc h)
same_text-some (some t) s h = ap some ((=s_iff t s).0 h)

-- `_Projection`, with what `getattr` finds besides.
pub record Projection : Type 0 where
  pub status : Option String
  pub created_at : Option String
  pub started_at : Option String
  pub completed_at : Option String
  pub task_id : Option String
  pub action_key : Option String
  pub projection_source : Option String
  pub projection_status_source : Option String
  pub expires_at : Option String
  pub current_head_sha : Option String
  pub last_audited_head_sha : Option String
  pub artifact_schema_name : Option String

abbrev pub run_projection : AuditRun → Projection
run_projection r = record {
  status = r.status;
  created_at = r.created_at;
  started_at = r.started_at;
  completed_at = r.completed_at;
  task_id = r.task_id;
  action_key = r.action_key;
  projection_source = r.projection_source;
  projection_status_source = r.projection_status_source;
  expires_at = r.expires_at;
  current_head_sha = r.current_head_sha;
  last_audited_head_sha = r.last_audited_head_sha;
  artifact_schema_name = none;
}

abbrev pub link_projection : AuditTaskLink → Projection
link_projection l = record {
  status = l.status;
  created_at = l.created_at;
  started_at = l.started_at;
  completed_at = l.completed_at;
  task_id = l.task_id;
  action_key = l.action_key;
  projection_source = none;
  projection_status_source = none;
  expires_at = none;
  current_head_sha = none;
  last_audited_head_sha = none;
  artifact_schema_name = l.artifact_schema_name;
}

abbrev pub is_live : AuditTaskLifecycle → Bool
is_live AuditTaskLifecycle.queued = true
is_live AuditTaskLifecycle.running = true
is_live _ = false

-- `lifecycle_priority`
abbrev pub lifecycle_priority : AuditTaskLifecycle → ℕ
lifecycle_priority AuditTaskLifecycle.running = 4
lifecycle_priority AuditTaskLifecycle.queued = 3
lifecycle_priority AuditTaskLifecycle.failed = 2
lifecycle_priority AuditTaskLifecycle.completed = 1
lifecycle_priority AuditTaskLifecycle.idle = 0

-- `_timestamp`: a naive time is taken as UTC, and a text that is no time as missing.
unfoldable pub timestamp : IsoFormat → Option String → Option ℕ
timestamp iso none = none
timestamp iso (some s) = elim (iso.fromisoformat s) [
  | none ↦ none
  | some (Datetime.naive t) ↦ some t
  | some (Datetime.aware _ t) ↦ some t
]

-- The later of two times; `none`, the code's `-inf`, is before all.
abbrev pub later : Option ℕ → Option ℕ → Option ℕ
later none b = b
later (some a) none = some a
later (some a) (some b) = some (if leb a b then b else a)

abbrev pub compare_times : Option ℕ → Option ℕ → Ordering
compare_times none none = Ordering.eq
compare_times none (some _) = Ordering.lt
compare_times (some _) none = Ordering.gt
compare_times (some a) (some b) = compare a b

-- Tuples of equal length are compared from the left.
abbrev pub compare_texts : List String → List String → Ordering
compare_texts [] [] = Ordering.eq
compare_texts [] (_ ∷ _) = Ordering.lt
compare_texts (_ ∷ _) [] = Ordering.gt
compare_texts (s ∷ ss) (t ∷ ts) = first_of (compare_text s t) (compare_texts ss ts)

pub record Key : Type 0 where
  pub priority : ℕ
  pub newest : Option ℕ
  pub texts : List String

unfoldable pub compare_keys : Key → Key → Ordering
compare_keys a b =
    first_of (compare a.priority b.priority)
      (first_of (compare_times a.newest b.newest) (compare_texts a.texts b.texts))

abbrev pub is_gt : Ordering → Bool
is_gt Ordering.gt = true
is_gt _ = false

skip_second : {A : Type 0} {a x y : A} {ys : List A} → In a (x ∷ ys) → In a (x ∷ y ∷ ys)
skip_second here = here
skip_second (there m) = there (there m)

-- `max(x, *xs, key=key)`: the first of the greatest.
module _ {A K : Type 0} (compare_key : K → K → Ordering) (key : A → K) where
  unfoldable pub max_by : A → List A → A
  max_by x [] = x
  max_by x (y ∷ ys) = max_by (if is_gt (compare_key (key y) (key x)) then y else x) ys

  pub max_by-In : (x : A) (ys : List A) → In (max_by x ys) (x ∷ ys)
  unfolding max_by
  max_by-In x [] = here
  max_by-In x (y ∷ ys) = elim (Bool-cases (is_gt (compare_key (key y) (key x)))) [
    | inl e ↦ rw e (there (max_by-In y ys))
    | inr e ↦ rw e (skip_second (max_by-In x ys))
  ]

module _ (normalized : String → String) where
  unfoldable pub is_terminal_status : Option String → Bool
  is_terminal_status status = is_among terminal_statuses (normalized (or_empty status))

  unfoldable pub task_lifecycle : Option String → Option String → Option String → AuditTaskLifecycle
  task_lifecycle status started_at completed_at =
      let word = normalized (or_empty status) in
      if is_among failure_statuses word
      then AuditTaskLifecycle.failed
      else if is_some completed_at || is_among terminal_statuses word
      then AuditTaskLifecycle.completed
      else if is_among running_statuses word
      then AuditTaskLifecycle.running
      else if is_among queued_statuses word
      then AuditTaskLifecycle.queued
      else if is_some started_at
      then AuditTaskLifecycle.running
      else AuditTaskLifecycle.queued

  abbrev pub lifecycle_of : Projection → AuditTaskLifecycle
  unfolding task_lifecycle
  lifecycle_of p = task_lifecycle p.status p.started_at p.completed_at

  unfoldable pub is_active_run : AuditRun → Bool
  is_active_run r = is_live (task_lifecycle r.status r.started_at r.completed_at)

  unfoldable pub active_runs_for_action : List AuditRun → String → List AuditRun
  active_runs_for_action runs action =
      filter_by (λ r. same_text r.action_key (some action) && is_active_run r) runs

  unfoldable pub projection_sort_key : IsoFormat → Projection → Key
  projection_sort_key iso p = record {
    priority = lifecycle_priority (lifecycle_of p);
    newest =
        later (timestamp iso p.created_at)
          (later (timestamp iso p.started_at) (timestamp iso p.completed_at));
    texts =
        or_empty p.action_key
        ∷ or_empty p.task_id
        ∷ normalized (or_empty p.status)
        ∷ or_empty p.completed_at
        ∷ or_empty p.started_at
        ∷ or_empty p.created_at
        ∷ or_empty p.projection_source
        ∷ or_empty p.projection_status_source
        ∷ or_empty p.expires_at
        ∷ or_empty p.current_head_sha
        ∷ or_empty p.last_audited_head_sha
        ∷ or_empty p.artifact_schema_name
        ∷ [];
  }

  -- The code takes a sequence that is never empty: here its first element is apart.
  unfoldable pub representative_projection :
      {A : Type 0} → IsoFormat → (A → Projection) → A → List A → A
  representative_projection iso view = max_by compare_keys (λ a. projection_sort_key iso (view a))
