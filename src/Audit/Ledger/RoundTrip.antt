-- ===== src/Audit/Ledger/RoundTrip.antt =====
-- The ledger's file: what is written is read back, and what is read can be written.
use enji_guard_cli.Prelude.{OnSome, bind-OnSome, ◌⊎◌, ◌++◌, Bool-cases}
use enji_guard_cli.Prelude.{filter_by-In, filter_by}
use enji_guard_cli.Audit.Ledger.{File}
use enji_guard_cli.Prelude.{Option-cases}
use enji_guard_cli.Prelude.{subst, Bool, true, if◌then◌else◌}
use enji_guard_cli.Prelude.{inl, inr}
use enji_guard_cli.Prelude.{◌∙◌}
use enji_guard_cli.Audit.Ledger.{Fields, Items, Json, entries_of}
use enji_guard_cli.Prelude.{
  String, ◌≡◌, refl, ap, false, Option, none, some, List, [], ◌∷◌, ◌=s◌, In, here, there,
}
use enji_guard_cli.Json.{get_or, get, text, text_or_null}
use enji_guard_cli.Timestamps.{IsoFormat}
use enji_guard_cli.Audit.{AuditLedgerEntry}
use enji_guard_cli.Audit.Ledger.{
  optional_text, required_text, encode, decode_fields, decode, decode_items, read, encode_items,
  write,
}

-- What `_decode` demands of an entry.
pub record IsNamed (e : AuditLedgerEntry) : Type 0 where
  pub repo : (e.repo_id =s "") ≡ false
  pub project : (e.project_id =s "") ≡ false
  pub audit : (e.audit_key =s "") ≡ false

optional_text-null : (o : Option String) → optional_text (text_or_null o) ≡ o
optional_text-null none = refl
optional_text-null (some s) = refl

required : (s : String) → (s =s "") ≡ false → required_text (text s) ≡ some s
required s h = rw h

module _ (iso : IsoFormat) where
  decode-encode : (e : AuditLedgerEntry) → IsNamed e → decode iso (encode iso e) ≡ some e
  unfolding decode decode_fields encode get get_or
  decode-encode e h = rw (
    required e.repo_id h.repo,
    required e.project_id h.project,
    required e.audit_key h.audit,
    required _ (iso.isoformat_named e.observed_at),
    required _ (iso.isoformat_named e.expires_at),
    iso.fromisoformat-isoformat e.observed_at,
    iso.fromisoformat-isoformat e.expires_at,
    optional_text-null e.task_id,
    optional_text-null e.task_status,
    optional_text-null e.current_head_sha,
    optional_text-null e.audited_head_sha,
    optional_text-null e.started_at,
  )

  decoded_first :
      (v : Json) (vs : Items) (e : AuditLedgerEntry)
      → decode iso v ≡ some e
      → decode_items iso (Items.cons v vs) ≡ e ∷ decode_items iso vs
  unfolding decode_items
  decoded_first v vs e h = rw (h, decode_items)

  items_round :
      (es : List AuditLedgerEntry)
      → ((e : AuditLedgerEntry) → In e es → IsNamed e)
      → decode_items iso (encode_items iso es) ≡ es
  unfolding decode_items encode_items
  items_round [] h = refl
  items_round (e ∷ es) h =
      decoded_first (encode iso e) (encode_items iso es) e (decode-encode e (h e here))
      ∙ ap (λ l. e ∷ l) (items_round es (λ x m. h x (there m)))

  -- Entries whose repository, project and audit are named are read back as they were written.
  pub read-write :
      (es : List AuditLedgerEntry)
      → ((e : AuditLedgerEntry) → In e es → IsNamed e)
      → read iso (write iso es) ≡ es
  unfolding read write get get_or entries_of decode_items
  read-write es h = items_round es h

no_member : {x : AuditLedgerEntry} → In x [] → ⊥
no_member m = elim m [ ]

first_or :
    {a : AuditLedgerEntry} {es : List AuditLedgerEntry}
    → IsNamed a
    → ((e : AuditLedgerEntry) → In e es → IsNamed e)
    → (e : AuditLedgerEntry) → In e (a ∷ es)
    → IsNamed e
first_or n h _ here = n
first_or n h e (there m) = h e m

-- A property of the entry, if there is one.
abbrev Decoded : Option AuditLedgerEntry → Type 0
Decoded = OnSome IsNamed

unless_true :
    (b : Bool) (t s : String) → (if b then none else some t) ≡ some s → (b ≡ false) × (t ≡ s)
unless_true true t s h = absurd (cc h)
unless_true false t s h = (refl, cc h)

required_named : (v : Json) (s : String) → required_text v ≡ some s → (s =s "") ≡ false
required_named (Json.text t) s h =
    let (e, same) = unless_true (t =s "") t s h in subst (λ u. (u =s "") ≡ false) same e
required_named Json.null s h = absurd (cc h)
required_named (Json.bool _) s h = absurd (cc h)
required_named (Json.int _) s h = absurd (cc h)
required_named (Json.negative _) s h = absurd (cc h)
required_named (Json.real _) s h = absurd (cc h)
required_named (Json.array _) s h = absurd (cc h)
required_named (Json.object _) s h = absurd (cc h)

module _ (iso : IsoFormat) where
  fields_named : (fs : Fields) → Decoded (decode_fields iso fs)
  unfolding decode_fields
  fields_named fs = bind-OnSome IsNamed (required_text (get fs "repo_id")) _ (λ repo r.
      bind-OnSome IsNamed (required_text (get fs "project_id")) _ (λ project p.
        bind-OnSome IsNamed (required_text (get fs "audit_key")) _ (λ key k.
          bind-OnSome IsNamed (required_text (get fs "observed_at")) _ (λ observed _.
            bind-OnSome IsNamed (required_text (get fs "expires_at")) _ (λ expires _.
              bind-OnSome IsNamed (iso.fromisoformat observed) _ (λ start _.
                bind-OnSome IsNamed (iso.fromisoformat expires) _ (λ stop _. record {
                  repo = required_named (get fs "repo_id") repo r;
                  project = required_named (get fs "project_id") project p;
                  audit = required_named (get fs "audit_key") key k;
                })))))))

  decode_named : (v : Json) → Decoded (decode iso v)
  unfolding decode
  decode_named (Json.object fs) = fields_named fs
  decode_named Json.null = tt
  decode_named (Json.bool _) = tt
  decode_named (Json.int _) = tt
  decode_named (Json.negative _) = tt
  decode_named (Json.real _) = tt
  decode_named (Json.array _) = tt
  decode_named (Json.text _) = tt

  decode_items-IsNamed :
      (vs : Items) (e : AuditLedgerEntry) → In e (decode_items iso vs) → IsNamed e
  unfolding decode_items
  decode_items-IsNamed Items.nil = λ e m. absurd (no_member m)
  decode_items-IsNamed (Items.cons v vs) = elim (Option-cases (decode iso v)) [
    | inl n ↦ rw (n, decode_items) (decode_items-IsNamed vs)
    | inr (e, s) ↦
        rw (s, decode_items) (first_or (subst Decoded s (decode_named v)) (decode_items-IsNamed vs))
  ]

  -- What the ledger reads can be written.
  pub read-IsNamed : (file : File) (e : AuditLedgerEntry) → In e (read iso file) → IsNamed e
  unfolding read entries_of
  read-IsNamed (some (Json.object fs)) = entries_named (get fs "entries")
    where
      entries_named : (v : Json) (e : AuditLedgerEntry) → In e (entries_of iso v) → IsNamed e
      entries_named (Json.array vs) = decode_items-IsNamed vs
      entries_named Json.null = λ e m. absurd (no_member m)
      entries_named (Json.bool _) = λ e m. absurd (no_member m)
      entries_named (Json.int _) = λ e m. absurd (no_member m)
      entries_named (Json.negative _) = λ e m. absurd (no_member m)
      entries_named (Json.real _) = λ e m. absurd (no_member m)
      entries_named (Json.text _) = λ e m. absurd (no_member m)
      entries_named (Json.object _) = λ e m. absurd (no_member m)
  read-IsNamed none = λ e m. absurd (no_member m)
  read-IsNamed (some Json.null) = λ e m. absurd (no_member m)
  read-IsNamed (some (Json.bool _)) = λ e m. absurd (no_member m)
  read-IsNamed (some (Json.int _)) = λ e m. absurd (no_member m)
  read-IsNamed (some (Json.negative _)) = λ e m. absurd (no_member m)
  read-IsNamed (some (Json.real _)) = λ e m. absurd (no_member m)
  read-IsNamed (some (Json.text _)) = λ e m. absurd (no_member m)
  read-IsNamed (some (Json.array _)) = λ e m. absurd (no_member m)

  -- A selection of what the file holds is read back as it was written.
  pub selection_round :
      (p : AuditLedgerEntry → Bool) (file : File)
      → read iso (write iso (filter_by p (read iso file))) ≡ filter_by p (read iso file)
  selection_round p file =
      read-write iso _ (λ e m. read-IsNamed file e (filter_by-In p (read iso file) m))

unnamed : (s : String) → (s =s "") ≡ true → required_text (Json.text s) ≡ none
unnamed s h = rw h refl

module _ (iso : IsoFormat) where
  decoded_none :
      (v : Json) (vs : Items)
      → decode iso v ≡ none
      → decode_items iso (Items.cons v vs) ≡ decode_items iso vs
  unfolding decode_items
  decoded_none v vs h = rw (h, decode_items)

  unread_last :
      (es : List AuditLedgerEntry) (e : AuditLedgerEntry)
      → ((x : AuditLedgerEntry) → In x es → IsNamed x)
      → decode iso (encode iso e) ≡ none
      → decode_items iso (encode_items iso (es ++ e ∷ [])) ≡ es
  unfolding decode_items encode_items
  unread_last [] e h n = decoded_none (encode iso e) Items.nil n
  unread_last (x ∷ es) e h n =
      decoded_first iso (encode iso x) (encode_items iso (es ++ e ∷ [])) x
        (decode-encode iso x (h x here))
      ∙ ap (λ l. x ∷ l) (unread_last es e (λ y m. h y (there m)) n)

  -- An entry behind the others that is not read back.
  pub read-unnamed :
      (es : List AuditLedgerEntry) (e : AuditLedgerEntry)
      → ((x : AuditLedgerEntry) → In x es → IsNamed x)
      → decode iso (encode iso e) ≡ none
      → read iso (write iso (es ++ e ∷ [])) ≡ es
  unfolding read write get get_or entries_of decode_items
  read-unnamed es e h n = unread_last es e h n

  pub IsNamed-or_none : (e : AuditLedgerEntry) → IsNamed e ⊎ (decode iso (encode iso e) ≡ none)
  unfolding decode decode_fields encode get get_or
  IsNamed-or_none e = elim (Bool-cases (e.repo_id =s "")) [
    | inl r ↦ inr (rw (unnamed e.repo_id r) refl)
    | inr r ↦ elim (Bool-cases (e.project_id =s "")) [
      | inl p ↦ inr (rw (required e.repo_id r, unnamed e.project_id p) refl)
      | inr p ↦ elim (Bool-cases (e.audit_key =s "")) [
        | inl a ↦
            inr (rw (required e.repo_id r, required e.project_id p, unnamed e.audit_key a) refl)
        | inr a ↦ inl (record { repo = r; project = p; audit = a })
      ]
    ]
  ]
