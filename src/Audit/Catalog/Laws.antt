-- ===== src/Audit/Catalog/Laws.antt =====
-- An accepted catalog: each of its audits is found by its key where a run of it is started
-- (audit/runs.py, `audit_run_task_body`).
use enji_guard_cli.Prelude.{◌∙◌, if◌then◌else◌, filter_by-inverse, filter_by}
use enji_guard_cli.Audit.Catalog.{
  is_recon, required, audit_definition, published_definition, is_published, parse_catalog_result,
}
use mathlib.Core.List.{map}
use enji_guard_cli.Prelude.{
  OnSome, bind-OnSome, String, ◌≡◌, refl, sym, subst, inl, inr, Bool, true, false, Option, none,
  some, List, [], ◌∷◌, arith, Bool-cases, ◌=s◌, =s_iff, =s_refl, any, In, here, there,
}
use enji_guard_cli.Audit.{AuditDefinition, AuditCatalog}
use enji_guard_cli.Audit.Runs.{find_action}
use enji_guard_cli.Audit.Catalog.{
  AuditCatalogAction, recon_action_key, selector, no_twice, all_some, guarded, unique_action_keys,
  only_one,
}

=s_swap : (a b : String) → (a =s b) ≡ false → (b =s a) ≡ false
=s_swap a b h = elim (Bool-cases (b =s a)) [
  | inl e ↦ absurd (cc (sym ((=s_iff a b).1 (sym ((=s_iff b a).0 e))), h))
  | inr e ↦ e
]

keys_of : List AuditDefinition → List String
keys_of audits = map (λ a. a.action_key) audits

key_apart :
    (key : String) (audits : List AuditDefinition) (a : AuditDefinition)
    → In a audits
    → any (λ t. t =s key) (keys_of audits) ≡ false
    → (a.action_key =s key) ≡ false
unfolding keys_of
key_apart key (x ∷ xs) _ here h = ground (arith, h)
key_apart key (x ∷ xs) a (there m) h = key_apart key xs a m (ground (arith, h))
key_apart key [] a m h = elim m [ ]

find_action-In :
    (audits : List AuditDefinition) (recon a : AuditDefinition)
    → no_twice (keys_of audits) ≡ true
    → In a audits
    → find_action audits recon a.action_key ≡ some a
unfolding keys_of
find_action-In (x ∷ xs) recon _ n here = rw (=s_refl x.action_key) refl
find_action-In (x ∷ xs) recon a n (there m) =
    let apart =
      =s_swap a.action_key x.action_key (key_apart x.action_key xs a m (ground (arith, n))) in
    rw apart (find_action-In xs recon a (ground (arith, n)) m)
find_action-In [] recon a n m = elim m [ ]

recon_found :
    (audits : List AuditDefinition) (recon : AuditDefinition)
    → any (λ t. t =s recon.action_key) (keys_of audits) ≡ false
    → find_action audits recon recon.action_key ≡ some recon
unfolding keys_of
recon_found [] recon h = rw (=s_refl recon.action_key) refl
recon_found (x ∷ xs) recon h =
    let apart : (x.action_key =s recon.action_key) ≡ false = ground (arith, h) in
    rw apart (recon_found xs recon (ground (arith, h)))

-- What a catalog promises to the start of runs.
pub record IsCatalog (c : AuditCatalog) : Type 0 where
  pub recon_key : c.recon.action_key ≡ recon_action_key
  pub finds_recon : find_action c.published_audits c.recon c.recon.action_key ≡ some c.recon
  pub finds :
      (a : AuditDefinition)
      → In a c.published_audits
      → find_action c.published_audits c.recon a.action_key ≡ some a

guarded-true : (b : Bool) (u : Unit {0}) → guarded b ≡ some u → b ≡ true
guarded-true true u h = refl
guarded-true false u h = absurd (cc h)

unique_keys :
    (audits : List AuditDefinition)
    → OnSome (λ u. no_twice (keys_of audits) ≡ true) (unique_action_keys audits)
unfolding unique_action_keys keys_of
unique_keys audits = bind-OnSome _ (guarded (no_twice (map (λ a. a.action_key) audits))) _ (λ u e.
    bind-OnSome _ (all_some (λ a. selector a.action_key) audits) _
      (λ selectors f. kept (guarded (no_twice selectors)) (guarded-true _ u e)))
  where
    kept : {P : Type 0} (m : Option (Unit {0})) → P → OnSome (λ u. P) m
    kept none p = tt
    kept (some u) p = p

only_one-In :
    (actions : List AuditCatalogAction) (a : AuditCatalogAction)
    → only_one actions ≡ some a
    → In a actions
only_one-In [] a h = absurd (cc h)
only_one-In (x ∷ []) a h = subst (λ y. In y (x ∷ [])) (cc h) here
only_one-In (x ∷ y ∷ xs) a h = absurd (cc h)

module _ (strip : String → String) where
  required-same : (s k : String) → required strip (some s) ≡ some k → k ≡ s
  unfolding required
  required-same s k = by_test (strip s =s "")
    where
      by_test : (b : Bool) → (if b then none else some s) ≡ some k → k ≡ s
      by_test true h = absurd (cc h)
      by_test false h = cc h

  definition_key :
      (a : AuditCatalogAction) (group : Option String)
      → OnSome (λ d. d.action_key ≡ a.action_key) (audit_definition strip a group)
  unfolding audit_definition
  definition_key a group = bind-OnSome _ (required strip (some a.action_key)) _ (λ key k.
      bind-OnSome _ (required strip (some a.title)) _ (λ name n.
        bind-OnSome _ (required strip a.runbook_kind) _
          (λ kind e. required-same a.action_key key k)))

  recon_named :
      (actions : List AuditCatalogAction) (a : AuditCatalogAction) (d : AuditDefinition)
      → only_one (filter_by is_recon actions) ≡ some a
      → audit_definition strip a none ≡ some d
      → d.action_key ≡ recon_action_key
  recon_named actions a d e h =
      let (n, r) =
        filter_by-inverse is_recon actions (only_one-In (filter_by is_recon actions) a e) in
      subst (OnSome (λ d. d.action_key ≡ a.action_key)) h (definition_key a none)
      ∙ (=s_iff a.action_key recon_action_key).0 r

  distinct_keys-IsCatalog :
      (recon : AuditDefinition) (audits : List AuditDefinition)
      → recon.action_key ≡ recon_action_key
      → no_twice (keys_of (recon ∷ audits)) ≡ true
      → IsCatalog (record { published_audits = audits; recon = recon })
  unfolding keys_of
  distinct_keys-IsCatalog recon audits e n = record {
    recon_key = e;
    finds_recon = recon_found audits recon (ground (arith, n));
    finds = λ a m. find_action-In audits recon a (ground (arith, n)) m;
  }

  parsed-OnSome :
      (actions : List AuditCatalogAction) → OnSome IsCatalog (parse_catalog_result strip actions)
  unfolding parse_catalog_result
  parsed-OnSome actions = bind-OnSome _ (only_one (filter_by is_recon actions)) _ (λ a e.
      bind-OnSome _ (audit_definition strip a none) _ (λ recon h.
        bind-OnSome _
          (all_some (published_definition strip) (filter_by (is_published strip) actions)) _
          (λ audits f. bind-OnSome _ (unique_action_keys (recon ∷ audits)) _ (λ u g.
            distinct_keys-IsCatalog recon audits (recon_named actions a recon e h) (
              subst (OnSome (λ u. no_twice (keys_of (recon ∷ audits)) ≡ true)) g
                (unique_keys (recon ∷ audits)))))))

  -- If a catalog is accepted, its reconnaissance has the reserved key, and the definition of every
  -- audit in it, and of the reconnaissance, is the one that the start of a run finds by its key.
  pub parse_catalog_result-IsCatalog :
      (actions : List AuditCatalogAction) (c : AuditCatalog)
      → parse_catalog_result strip actions ≡ some c
      → IsCatalog c
  parse_catalog_result-IsCatalog actions c e = subst (OnSome IsCatalog) e (parsed-OnSome actions)
