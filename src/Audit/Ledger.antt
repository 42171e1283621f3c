-- ===== src/Audit/Ledger.antt =====
-- audit/ledger.py: the local ledger of started runs. The file is what `json.loads` makes of its
-- text, or `none` where it cannot be read or is no JSON; a write replaces it whole, as
-- `write_atomic_json` does, and a write that fails raises and leaves it. Each operation is one
-- transaction under the ledger's lock. Times and durations are microseconds.
use enji_guard_cli.Prelude.{◌>>=◌}
use enji_guard_cli.Prelude.{
  ℕ, ◌+◌, ◌-◌, String, Bool, false, not, ◌&&◌, Option, none, some, List, [], ◌∷◌, ◌++◌, leb, ◌==◌,
  if◌then◌else◌, ◌=s◌, length, filter_by,
}
use enji_guard_cli.Json.{Json, Fields, Items, members, get, text_or_null}
use enji_guard_cli.Timestamps.{Datetime, IsoFormat}
use enji_guard_cli.Audit.{AuditLedgerEntry, AuditRunStart, lookup_text}
use enji_guard_cli.Audit.Lifecycle.{is_terminal_status, same_text}
pub mod Reconcile
pub mod Commit
pub mod Guards
pub mod Evidence
pub mod Shown
pub mod Projected
pub mod Asked
pub mod Grouping
pub mod Dedupe
pub mod Identities
pub mod RoundTrip

abbrev pub File : Type 0
File = Option Json

-- `value or ...` of a text
abbrev pub or_else_text : Option String → Option String → Option String
or_else_text none d = d
or_else_text (some s) d = if s =s "" then d else some s

-- `_utc`, where `clock` is what `datetime.now(UTC)` answers
abbrev pub utc : ℕ → Option Datetime → ℕ
utc clock none = clock
utc clock (some (Datetime.naive t)) = t
utc clock (some (Datetime.aware _ t)) = t

-- `value if isinstance(value, str) else None`
abbrev pub optional_text : Json → Option String
optional_text (Json.text s) = some s
optional_text _ = none

abbrev pub required_text : Json → Option String
required_text (Json.text s) = if s =s "" then none else some s
required_text _ = none

unfoldable pub expired : AuditLedgerEntry → ℕ → Bool
expired e now = leb e.expires_at now

abbrev pub heads_agree : Option String → Option String → Bool
heads_agree (some s) (some t) = s =s t
heads_agree _ _ = false

abbrev pub audited_for : Option (List (String × String)) → AuditLedgerEntry → Option String
audited_for none e = e.audited_head_sha
audited_for (some []) e = e.audited_head_sha
audited_for (some (p ∷ ps)) e = lookup_text (p ∷ ps) e.audit_key

unfoldable pub fresh_for : AuditLedgerEntry → Option String → Option (List (String × String)) → Bool
fresh_for e head audited = heads_agree head (audited_for audited e)

unfoldable pub same_identity : AuditLedgerEntry → AuditLedgerEntry → Bool
same_identity a b =
    if not (a.repo_id =s b.repo_id)
    then false
    else if not (a.audit_key =s b.audit_key)
    then false
    else same_text a.task_id b.task_id

unfoldable pub new_entry : AuditRunStart → ℕ → Option String → ℕ → AuditLedgerEntry
new_entry started observed started_at ttl = record {
  repo_id = started.repo_id;
  project_id = started.project_id;
  audit_key = started.action_key;
  task_id = started.task_id;
  task_status = started.task_status;
  current_head_sha = started.current_head_sha;
  audited_head_sha = started.last_audited_head_sha;
  observed_at = observed;
  started_at = started_at;
  expires_at = observed + ttl;
}

module _ (iso : IsoFormat) where
  open iso use {fromisoformat, isoformat}

  unfoldable pub encode : AuditLedgerEntry → Json
  encode e = Json.object (
      members (
        ("repo_id", Json.text e.repo_id)
        ∷ ("project_id", Json.text e.project_id)
        ∷ ("audit_key", Json.text e.audit_key)
        ∷ ("task_id", text_or_null e.task_id)
        ∷ ("task_status", text_or_null e.task_status)
        ∷ ("current_head_sha", text_or_null e.current_head_sha)
        ∷ ("audited_head_sha", text_or_null e.audited_head_sha)
        ∷ ("observed_at", Json.text (isoformat e.observed_at))
        ∷ ("started_at", text_or_null e.started_at)
        ∷ ("expires_at", Json.text (isoformat e.expires_at))
        ∷ []))

  unfoldable pub decode_fields : Fields → Option AuditLedgerEntry
  unfolding get
  decode_fields fs = do
    repo ← required_text (get fs "repo_id")
    project ← required_text (get fs "project_id")
    key ← required_text (get fs "audit_key")
    observed_text ← required_text (get fs "observed_at")
    expires_text ← required_text (get fs "expires_at")
    observed ← fromisoformat observed_text
    expires ← fromisoformat expires_text
    some (record {
      repo_id = repo;
      project_id = project;
      audit_key = key;
      task_id = optional_text (get fs "task_id");
      task_status = optional_text (get fs "task_status");
      current_head_sha = optional_text (get fs "current_head_sha");
      audited_head_sha = optional_text (get fs "audited_head_sha");
      observed_at = utc 0 (some observed);
      started_at = optional_text (get fs "started_at");
      expires_at = utc 0 (some expires);
    })

  unfoldable pub decode : Json → Option AuditLedgerEntry
  unfolding decode_fields
  decode (Json.object fs) = decode_fields fs
  decode _ = none

  unfoldable pub decode_items : Items → List AuditLedgerEntry
  unfolding decode
  decode_items Items.nil = []
  decode_items (Items.cons v vs) =
      let rest = decode_items vs in elim (decode v) [ none ↦ rest | some e ↦ e ∷ rest ]

  abbrev pub entries_of : Json → List AuditLedgerEntry
  unfolding decode_items
  entries_of (Json.array items) = decode_items items
  entries_of _ = []

  unfoldable pub read : File → List AuditLedgerEntry
  unfolding get
  read (some (Json.object fs)) = entries_of (get fs "entries")
  read _ = []

  unfoldable pub encode_items : List AuditLedgerEntry → Items
  unfolding encode
  encode_items [] = Items.nil
  encode_items (e ∷ es) = Items.cons (encode e) (encode_items es)

  unfoldable pub write : List AuditLedgerEntry → File
  unfolding encode_items
  write es = some (Json.object (members (("entries", Json.array (encode_items es)) ∷ [])))

  unfoldable pub record_started : AuditLedgerEntry → File → File
  unfolding read write same_identity
  record_started entry file =
      write (filter_by (λ item. not (same_identity item entry)) (read file) ++ entry ∷ [])

  module _ (normalized : String → String) where
    unfoldable pub survives :
        ℕ → Option String → Option (List (String × String)) → AuditLedgerEntry → Bool
    unfolding expired is_terminal_status fresh_for
    survives now head audited e =
        not (expired e now)
        && not (is_terminal_status normalized e.task_status)
        && not (fresh_for e head audited)

    -- The number of removed entries, and the file after.
    unfoldable pub prune :
        ℕ → Option Datetime → Option String → Option (List (String × String)) → File → ℕ × File
    unfolding read write survives
    prune clock now head audited file =
        let entries = read file in
        let retained = filter_by (survives (utc clock now) head audited) entries in
        let removed = length entries - length retained in
        (removed, if removed == 0 then file else write retained)
