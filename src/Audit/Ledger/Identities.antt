-- ===== src/Audit/Ledger/Identities.antt =====
-- The ledger holds at most one entry of a run: an invariant of every sequence of its operations.
use enji_guard_cli.Prelude.{ℕ, ◌-◌, String, Option, none, ◌==◌, Bool-cases, length, In-single}
use enji_guard_cli.Timestamps.{Datetime}
use enji_guard_cli.Audit.{AuditRun}
use enji_guard_cli.Audit.Ledger.{utc, encode, decode, survives, prune}
use enji_guard_cli.Audit.Ledger.Reconcile.{Upstream, Lookup, Cache}
use enji_guard_cli.Audit.Ledger.Commit.{commit_reconciliation}
use enji_guard_cli.Audit.Ledger.RoundTrip.{selection_round, read-unnamed, IsNamed-or_none}
use enji_guard_cli.Audit.Ledger.Guards.{stays, commit_reconciliation_lem}
use enji_guard_cli.Prelude.{
  subst, ◌≡◌, sym, inl, inr, Bool, true, false, not, List, [], ◌∷◌, ◌++◌, arith, if◌then◌else◌,
  filter_by-inverse, In-left, In-right, filter_by-kept, filter_by-In, append-In, filter_by, In,
  here, there,
}
use enji_guard_cli.Timestamps.{IsoFormat}
use enji_guard_cli.Audit.{AuditLedgerEntry}
use enji_guard_cli.Audit.Ledger.{File, same_identity, read, record_started}
use enji_guard_cli.Audit.Ledger.RoundTrip.{IsNamed, read-write, read-IsNamed}

-- No entry has the identity of an earlier one.
abbrev pub Distinct : List AuditLedgerEntry → Type 0
Distinct [] = Unit
Distinct (e ∷ es) = ((x : AuditLedgerEntry) → In x es → same_identity e x ≡ false) × Distinct es

Distinct-filter_by :
    (p : AuditLedgerEntry → Bool) (es : List AuditLedgerEntry)
    → Distinct es
    → Distinct (filter_by p es)
Distinct-filter_by p [] d = tt
Distinct-filter_by p (e ∷ es) (apart, d) = if_kept (p e) (Distinct-filter_by p es d)
  where
    if_kept :
        (b : Bool)
        → Distinct (filter_by p es)
        → Distinct (if b then e ∷ filter_by p es else filter_by p es)
    if_kept true rest = (λ x m. apart x (filter_by-In p es m), rest)
    if_kept false rest = rest

Distinct-append :
    (es : List AuditLedgerEntry) (e : AuditLedgerEntry)
    → Distinct es
    → ((x : AuditLedgerEntry) → In x es → same_identity x e ≡ false)
    → Distinct (es ++ e ∷ [])
Distinct-append [] e d h = (λ x m. absurd (elim m [ ]), tt)
Distinct-append (x ∷ es) e (apart, d) h = (
  λ y m. elim (append-In es (e ∷ []) m) [
    | inl n ↦ apart y n
    | inr n ↦ subst (λ z. same_identity x z ≡ false) (In-single n) (h x here)
  ],
  Distinct-append es e d (λ y m. h y (there m)),
)

module _ (iso : IsoFormat) where
  others : AuditLedgerEntry → File → List AuditLedgerEntry
  others e file = filter_by (λ item. not (same_identity item e)) (read iso file)

  Distinct-others :
      (e : AuditLedgerEntry) (file : File)
      → Distinct (read iso file)
      → Distinct (others e file ++ e ∷ [])
  unfolding others
  Distinct-others e file d = Distinct-append _ e (Distinct-filter_by _ (read iso file) d) (λ x m.
      let (n, s) = filter_by-inverse (λ item. not (same_identity item e)) (read iso file) m in
      ground (arith, s))

  started_read :
      (e : AuditLedgerEntry) (file : File)
      → IsNamed e
      → read iso (record_started iso e file) ≡ others e file ++ e ∷ []
  unfolding record_started others
  started_read e file n = read-write iso _ (λ x m. elim (append-In (others e file) (e ∷ []) m) [
    | inl k ↦ read-IsNamed iso file x (filter_by-In _ (read iso file) k)
    | inr k ↦ subst IsNamed (In-single k) n
  ])

  -- The entry is not read back if it is not named.
  started_unread :
      (e : AuditLedgerEntry) (file : File)
      → decode iso (encode iso e) ≡ none
      → read iso (record_started iso e file) ≡ others e file
  unfolding record_started others
  started_unread e file n =
      read-unnamed iso _ e (λ x m. read-IsNamed iso file x (filter_by-In _ (read iso file) m)) n

  record_started-Distinct :
      (e : AuditLedgerEntry) (file : File)
      → Distinct (read iso file)
      → Distinct (read iso (record_started iso e file))
  unfolding others
  record_started-Distinct e file d = elim (IsNamed-or_none iso e) [
    | inl n ↦ subst Distinct (sym (started_read e file n)) (Distinct-others e file d)
    | inr n ↦
        subst Distinct (sym (started_unread e file n)) (Distinct-filter_by _ (read iso file) d)
  ]

  -- Recording a run that is named keeps the identities distinct, and the entry is in the file after,
  -- with every entry of another identity.
  pub record_started_lem :
      (e : AuditLedgerEntry) (file : File)
      → IsNamed e
      → Distinct (read iso file)
      → Distinct (read iso (record_started iso e file))
        × In e (read iso (record_started iso e file))
        × ((x : AuditLedgerEntry)
            → In x (read iso file)
            → same_identity x e ≡ false
            → In x (read iso (record_started iso e file)))
  unfolding others
  record_started_lem e file n d =
      subst
        (λ es.
          Distinct es
          × In e es
          × ((x : AuditLedgerEntry) → In x (read iso file) → same_identity x e ≡ false → In x es))
        (sym (started_read e file n))
        (
          Distinct-others e file d,
          In-right (others e file) here,
          λ x m s.
              In-left (e ∷ [])
                (filter_by-kept (λ item. not (same_identity item e)) m (ground (arith, s))),
        )

abbrev service_with : IsoFormat → (String → String) → ℕ → (String → Option Lookup) → Upstream
service_with iso normalized grace lookup = record {
  normalized = normalized;
  iso = iso;
  lookup_grace = grace;
  task_lookup = lookup;
}

-- What a transaction makes of the file. The upstream service may answer differently each time.
pub data LedgerStep (iso : IsoFormat) : File → File → Type 0 where
  started : (e : AuditLedgerEntry) (file : File) → LedgerStep iso file (record_started iso e file)
  reconciled :
      (normalized : String → String) (grace : ℕ) (lookup : String → Option Lookup) (repo : String)
      (upstream : List AuditRun) (cache : Cache) (now : ℕ) (file : File)
      → LedgerStep iso file
          (commit_reconciliation
            (service_with iso normalized grace lookup)
            repo
            upstream
            cache
            now
            file).1
  pruned :
      (normalized : String → String) (clock : ℕ) (now : Option Datetime) (head : Option String)
      (audited : Option (List (String × String))) (file : File)
      → LedgerStep iso file (prune iso normalized clock now head audited file).1

-- The files that transactions lead to, in any order, from a missing file.
pub data IsReached (iso : IsoFormat) : File → Type 0 where
  missing : IsReached iso none
  after :
      {before file : File} → IsReached iso before → LedgerStep iso before file → IsReached iso file

prune-Distinct :
    (iso : IsoFormat) (normalized : String → String) (clock : ℕ) (now : Option Datetime)
    (head : Option String) (audited : Option (List (String × String))) (file : File)
    → Distinct (read iso file)
    → Distinct (read iso (prune iso normalized clock now head audited file).1)
unfolding prune
prune-Distinct iso normalized clock now head audited file d =
    let p = survives iso normalized (utc clock now) head audited in
    let kept = filter_by p (read iso file) in
    elim (Bool-cases ((length (read iso file) - length kept) == 0)) [
      | inl e ↦ rw e d
      | inr e ↦ rw e (
          subst Distinct (sym (selection_round iso p file))
            (Distinct-filter_by p (read iso file) d))
    ]

step-Distinct :
    {iso : IsoFormat} {before file : File}
    → LedgerStep iso before file
    → Distinct (read iso before)
    → Distinct (read iso file)
step-Distinct {iso} (started e file) d = record_started-Distinct iso e file d
step-Distinct {iso} (reconciled normalized grace lookup repo upstream cache now file) d =
    let u = service_with iso normalized grace lookup in
    subst Distinct (sym (commit_reconciliation_lem u repo upstream cache now file))
      (Distinct-filter_by (stays u repo upstream cache now) (read iso file) d)
step-Distinct {iso} (pruned normalized clock now head audited file) d =
    prune-Distinct iso normalized clock now head audited file d

-- Whatever transactions lead to a file, it holds no two entries of the same identity.
pub ledger-Distinct :
    (iso : IsoFormat) (file : File) → IsReached iso file → Distinct (read iso file)
unfolding read
ledger-Distinct iso none missing = tt
ledger-Distinct iso file (after r s) = step-Distinct s (ledger-Distinct iso _ r)
