-- ===== src/Audit/Ledger/Dedupe.antt =====
-- The deduplication of runs: one run of each identity, none lost and none made up.
use enji_guard_cli.Audit.Ledger.Grouping.{Apart, grouped-IsGrouping}
use mathlib.Core.List.{map}
use enji_guard_cli.Prelude.{sym, ◌∙◌, subst}
use enji_guard_cli.Audit.Lifecycle.{
  run_projection, compare_keys, max_by-In, projection_sort_key, representative_projection,
}
use enji_guard_cli.Audit.Ledger.Reconcile.{Upstream}
use enji_guard_cli.Audit.Ledger.Commit.{grouped, dedupe_runs}
use enji_guard_cli.Prelude.{◌≡◌, refl, false, List, [], ◌∷◌, In, here, there}
use enji_guard_cli.Audit.{AuditRun}
use enji_guard_cli.Audit.Ledger.Commit.{same_group, identity_of, Group}

-- No run has the identity of an earlier one.
abbrev pub NoTwin : List AuditRun → Type 0
NoTwin [] = Unit
NoTwin (r ∷ rs) =
    ((x : AuditRun) → In x rs → same_group (identity_of r) (identity_of x) ≡ false) × NoTwin rs

module _ (u : Upstream) where
  chosen : Group → AuditRun
  unfolding representative_projection
  chosen g = representative_projection u.normalized u.iso run_projection g.1 g.2

  chosen-In : (g : Group) → In (chosen g) (g.1 ∷ g.2)
  unfolding chosen representative_projection
  chosen-In g =
      max_by-In compare_keys (λ r. projection_sort_key u.normalized u.iso (run_projection r)) g.1
        g.2

  map-inverse :
      (groups : List Group) (r : AuditRun)
      → In r (map chosen groups)
      → (g : Group) × In g groups × (chosen g ≡ r)
  map-inverse [] r m = absurd (elim m [ ])
  map-inverse (g ∷ groups) r here = (g, here, refl)
  map-inverse (g ∷ groups) r (there m) = let (h, n, e) = map-inverse groups r m in (h, there n, e)

  map-In : (g : Group) {groups : List Group} → In g groups → In (chosen g) (map chosen groups)
  map-In g here = here
  map-In g (there m) = there (map-In g m)

  map-NoTwin :
      (groups : List Group)
      → Apart groups
      → ((g : Group) → In g groups → identity_of (chosen g) ≡ g.0)
      → NoTwin (map chosen groups)
  unfolding Apart
  map-NoTwin [] d h = tt
  map-NoTwin (g ∷ groups) (apart, d) h = (
    λ x m.
        let (k, n, e) = map-inverse groups x m in
        subst (λ i. same_group i (identity_of x) ≡ false) (sym (h g here))
          (subst (λ y. same_group g.0 (identity_of y) ≡ false) e
            (subst (λ i. same_group g.0 i ≡ false) (sym (h k (there n))) (apart k n))),
    map-NoTwin groups d (λ k n. h k (there n)),
  )

  -- The deduplicated runs are among the given ones, no two of them have the same identity, and every
  -- given run has one of its identity among them.
  pub dedupe_runs_lem :
      (runs : List AuditRun)
      → NoTwin (dedupe_runs u runs)
        × ((r : AuditRun) → In r (dedupe_runs u runs) → In r runs)
        × ((r : AuditRun)
            → In r runs
            → (s : AuditRun) × In s (dedupe_runs u runs) × (identity_of s ≡ identity_of r))
  unfolding dedupe_runs chosen Apart
  dedupe_runs_lem runs =
      let i = grouped-IsGrouping [] [] runs (record {
        of = λ g m. absurd (elim m [ ]);
        apart = tt;
        taken = λ g m. absurd (elim m [ ]);
        covers = λ x m. absurd (elim m [ ]);
      }) in
      (
        map-NoTwin (grouped [] runs) i.apart (λ g m. i.of g m (chosen g) (chosen-In g)),
        λ r m.
            let (g, n, e) = map-inverse (grouped [] runs) r m in
            subst (λ x. In x runs) e (i.taken g n (chosen g) (chosen-In g)),
        λ r m.
            let (g, n, e) = i.covers r m in
            (chosen g, map-In g n, i.of g n (chosen g) (chosen-In g) ∙ e),
      )
