-- ===== src/Audit/Catalog.antt =====
-- audit/catalog.py: the validation of the catalog that the service publishes. `none` stands for the
-- `ValueError`s, and `strip` for Python's. That a set of texts is as large as the list it is made of
-- is that the list has no text twice.
pub mod Laws
use mathlib.Core.List.{map}
use enji_guard_cli.Prelude.{
  String, Bool, true, false, not, ◌&&◌, ◌||◌, Option, none, some, List, [], ◌∷◌, ◌==◌,
  if◌then◌else◌, starts_with, ◌=s◌, any, filter_by,
}
use enji_guard_cli.Audit.{AuditDefinition, AuditCatalog}
use enji_guard_cli.Audit.Lifecycle.{same_text}
use Prim.Native.String.{slice, len}
use enji_guard_cli.Prelude.{◌>>=◌}

pub record AuditCatalogAction : Type 0 where
  pub action_key : String
  pub title : String
  pub category : Option String
  pub status : Option String
  pub metric_group : Option String
  pub runbook_kind : Option String
  pub runbook_id : Option String
  pub artifact_schema_name : Option String
  pub artifact_schema_version : Option String
  pub task_description_template : Option String

abbrev pub recon_action_key : String
recon_action_key = "audit.recon"

abbrev pub is_recon : AuditCatalogAction → Bool
is_recon a = a.action_key =s recon_action_key

-- `selector` of a definition: the key without its prefix
unfoldable pub selector : String → Option String
selector key =
    if not (starts_with key "audit.") || len key == 6 then none else some (slice key 6 (len key))

abbrev pub no_twice : List String → Bool
no_twice [] = true
no_twice (s ∷ ss) = not (any (λ t. t =s s) ss) && no_twice ss

-- The first error of a list's elements, or all their values.
abbrev pub all_some {ℓ κ} : {A : Type ℓ} {B : Type κ} → (A → Option B) → List A → Option (List B)
all_some f [] = some []
all_some f (x ∷ xs) = let rest = all_some f xs in do y ← f x; ys ← rest; some (y ∷ ys)

abbrev pub guarded : Bool → Option (Unit {0})
guarded true = some tt
guarded false = none

unfoldable pub unique_action_keys : List AuditDefinition → Option (Unit {0})
unfolding selector
unique_action_keys audits = do
  _ ← guarded (no_twice (map (λ a. a.action_key) audits))
  selectors ← all_some (λ a. selector a.action_key) audits
  guarded (no_twice selectors)

-- The one action of a list.
abbrev pub only_one : List AuditCatalogAction → Option AuditCatalogAction
only_one (a ∷ []) = some a
only_one _ = none

module _ (strip : String → String) where
  unfoldable pub required : Option String → Option String
  required none = none
  required (some s) = if strip s =s "" then none else some s

  unfoldable pub audit_definition : AuditCatalogAction → Option String → Option AuditDefinition
  unfolding required
  audit_definition a metric_group = do
    key ← required (some a.action_key)
    name ← required (some a.title)
    kind ← required a.runbook_kind
    some (record {
      action_key = key;
      title = name;
      metric_group = metric_group;
      runbook_kind = kind;
      runbook_id = a.runbook_id;
      artifact_schema_name = a.artifact_schema_name;
      artifact_schema_version = a.artifact_schema_version;
      task_description_template = a.task_description_template;
    })

  abbrev pub published_definition : AuditCatalogAction → Option AuditDefinition
  unfolding audit_definition
  published_definition a = do group ← required a.metric_group; audit_definition a (some group)

  abbrev pub is_published : AuditCatalogAction → Bool
  is_published a =
      not (is_recon a)
      && same_text a.category (some "audit")
      && same_text a.status (some "published")

  unfoldable pub parse_catalog_result : List AuditCatalogAction → Option AuditCatalog
  unfolding published_definition unique_action_keys
  parse_catalog_result actions = do
    recon_action ← only_one (filter_by is_recon actions)
    recon ← audit_definition recon_action none
    audits ← all_some published_definition (filter_by is_published actions)
    _ ← unique_action_keys (recon ∷ audits)
    some (record { published_audits = audits; recon = recon })
