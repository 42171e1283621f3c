-- ===== src/Audit/Ledger/Grouping.antt =====
-- audit/ledger.py, `_dedupe_runs`: the groups of runs of one identity.
use mathlib.Core.List.{append-nil, append_assoc}
use enji_guard_cli.Prelude.{sym, ◌∙◌, subst, ◌⊎◌, In-left, In-right, In-single, append-In}
use enji_guard_cli.Audit.Ledger.Commit.{grouped}
use enji_guard_cli.Prelude.{
  String, ◌≡◌, refl, ap, inl, inr, Bool, true, false, Option, none, some, List, [], ◌∷◌, ◌++◌,
  if◌then◌else◌, Bool-cases, =s_iff, In, here, there,
}
use enji_guard_cli.Audit.{AuditRun}
use enji_guard_cli.Audit.Lifecycle.{same_text}
use enji_guard_cli.Audit.Ledger.Commit.{
  by_task, by_action, same_group, Identity, identity_of, Group, add_to_group,
}

same_text-true : (a b : Option String) → same_text a b ≡ true → a ≡ b
same_text-true none none h = refl
same_text-true none (some t) h = absurd (cc h)
same_text-true (some s) none h = absurd (cc h)
same_text-true (some s) (some t) h = ap some ((=s_iff s t).0 h)

same_group-true : (a b : Identity) → same_group a b ≡ true → a ≡ b
same_group-true (by_task a) (by_task b) h = ap by_task ((=s_iff a b).0 h)
same_group-true (by_task a) (by_action b) h = absurd (cc h)
same_group-true (by_action a) (by_task b) h = absurd (cc h)
same_group-true (by_action a) (by_action b) h = ap by_action (same_text-true a b h)

-- Where a group comes from when a run is added: it was there, it took the run, or it is new.
data Origin (groups : List Group) (r : AuditRun) : Group → Type 0 where
  old : (g : Group) → In g groups → Origin groups r g
  grown :
      (k : Identity) (x : AuditRun) (xs : List AuditRun)
      → In (k, x, xs) groups
      → k ≡ identity_of r
      → Origin groups r (k, x, xs ++ r ∷ [])
  fresh : Origin groups r (identity_of r, r, [])

Origin-behind :
    (g : Group) (groups : List Group) (r : AuditRun) (h : Group)
    → Origin groups r h
    → Origin (g ∷ groups) r h
Origin-behind g groups r h (old _ m) = old h (there m)
Origin-behind g groups r h (grown k x xs m e) = grown k x xs (there m) e
Origin-behind g groups r h fresh = fresh

head_or :
    (P : Group → Type 0) (g : Group) (groups : List Group)
    → P g
    → ((h : Group) → In h groups → P h)
    → (h : Group) → In h (g ∷ groups)
    → P h
head_or P g groups p rest _ here = p
head_or P g groups p rest h (there m) = rest h m

origin :
    (groups : List Group) (r : AuditRun) (h : Group)
    → In h (add_to_group groups r)
    → Origin groups r h
unfolding add_to_group
origin [] r = λ h m. subst (Origin [] r) (In-single m) fresh
origin ((k, x, xs) ∷ groups) r = by_key (same_group k (identity_of r)) refl (origin groups r)
  where
    by_key :
        (b : Bool)
        → same_group k (identity_of r) ≡ b
        → ((h : Group) → In h (add_to_group groups r) → Origin groups r h)
        → (h : Group)
        → In h (if b then (k, x, xs ++ r ∷ []) ∷ groups else (k, x, xs) ∷ add_to_group groups r)
        → Origin ((k, x, xs) ∷ groups) r h
    by_key true e rest =
        head_or (Origin ((k, x, xs) ∷ groups) r) (k, x, xs ++ r ∷ []) groups
          (grown k x xs here (same_group-true k (identity_of r) e)) (λ h m. old h (there m))
    by_key false e rest =
        head_or (Origin ((k, x, xs) ∷ groups) r) (k, x, xs) (add_to_group groups r)
          (old (k, x, xs) here) (λ h m. Origin-behind (k, x, xs) groups r h (rest h m))

-- Adding a run keeps every key, and the key of the run is there.
key_stays :
    (groups : List Group) (r : AuditRun) (g : Group)
    → In g groups
    → (h : Group) × In h (add_to_group groups r) × (h.0 ≡ g.0)
unfolding add_to_group
key_stays ((k, x, xs) ∷ groups) r g here = elim (Bool-cases (same_group k (identity_of r))) [
  | inl e ↦ ((k, x, xs ++ r ∷ []), rw e here, refl)
  | inr e ↦ ((k, x, xs), rw e here, refl)
]
key_stays ((k, x, xs) ∷ groups) r g (there m) = elim (Bool-cases (same_group k (identity_of r))) [
  | inl e ↦ (g, rw e (there m), refl)
  | inr e ↦ let (h, n, same) = key_stays groups r g m in (h, rw e (there n), same)
]
key_stays [] r g m = absurd (elim m [ ])

key_added :
    (groups : List Group) (r : AuditRun)
    → (h : Group) × In h (add_to_group groups r) × (h.0 ≡ identity_of r)
unfolding add_to_group
key_added [] r = ((identity_of r, r, []), here, refl)
key_added ((k, x, xs) ∷ groups) r = elim (Bool-cases (same_group k (identity_of r))) [
  | inl e ↦ ((k, x, xs ++ r ∷ []), rw e here, same_group-true k (identity_of r) e)
  | inr e ↦ let (h, n, same) = key_added groups r in (h, rw e (there n), same)
]

-- No group has the key of an earlier one.
unfoldable pub Apart : List Group → Type 0
Apart [] = Unit
Apart (g ∷ groups) = ((h : Group) → In h groups → same_group g.0 h.0 ≡ false) × Apart groups

add_to_group-Apart :
    (groups : List Group) (r : AuditRun) → Apart groups → Apart (add_to_group groups r)
unfolding Apart add_to_group
add_to_group-Apart [] r d = (λ h m. absurd (elim m [ ]), tt)
add_to_group-Apart ((k, x, xs) ∷ groups) r (apart, d) =
    elim (Bool-cases (same_group k (identity_of r))) [
      | inl e ↦ rw e (apart, d)
      | inr e ↦ rw e (λ h m. away e h (origin groups r h m), add_to_group-Apart groups r d)
    ]
  where
    away :
        same_group k (identity_of r) ≡ false
        → (h : Group) → Origin groups r h
        → same_group k h.0 ≡ false
    away e h (old _ m) = apart h m
    away e h (grown k2 y ys m same) = apart (k2, y, ys) m
    away e h fresh = e

-- What the groups are of the runs they were made of.
pub record IsGrouping (groups : List Group) (seen : List AuditRun) : Type 0 where
  pub of : (g : Group) → In g groups → (x : AuditRun) → In x (g.1 ∷ g.2) → identity_of x ≡ g.0
  pub apart : Apart groups
  pub taken : (g : Group) → In g groups → (x : AuditRun) → In x (g.1 ∷ g.2) → In x seen
  pub covers : (x : AuditRun) → In x seen → (g : Group) × In g groups × (g.0 ≡ identity_of x)

last_or :
    (y : AuditRun) (ys : List AuditRun) (r x : AuditRun)
    → In x (y ∷ ys ++ r ∷ [])
    → In x (y ∷ ys) ⊎ (r ≡ x)
last_or y ys r x m = elim (append-In (y ∷ ys) (r ∷ []) m) [
  | inl n ↦ inl n
  | inr n ↦ inr (In-single n)
]

Origin-of :
    (groups : List Group) (seen : List AuditRun) (r : AuditRun) (h : Group)
    → IsGrouping groups seen
    → Origin groups r h
    → (x : AuditRun) → In x (h.1 ∷ h.2)
    → identity_of x ≡ h.0
Origin-of groups seen r h i (old _ m) x n = i.of h m x n
Origin-of groups seen r h i fresh x n = ap identity_of (sym (In-single n))
Origin-of groups seen r h i (grown k y ys m e) x n = elim (last_or y ys r x n) [
  | inl p ↦ i.of (k, y, ys) m x p
  | inr p ↦ ap identity_of (sym p) ∙ sym e
]

Origin-taken :
    (groups : List Group) (seen : List AuditRun) (r : AuditRun) (h : Group)
    → IsGrouping groups seen
    → Origin groups r h
    → (x : AuditRun) → In x (h.1 ∷ h.2)
    → In x (seen ++ r ∷ [])
Origin-taken groups seen r h i (old _ m) x n = In-left (r ∷ []) (i.taken h m x n)
Origin-taken groups seen r h i fresh x n = In-right seen n
Origin-taken groups seen r h i (grown k y ys m e) x n = elim (last_or y ys r x n) [
  | inl p ↦ In-left (r ∷ []) (i.taken (k, y, ys) m x p)
  | inr p ↦ In-right seen (subst (λ z. In z (r ∷ [])) p here)
]

added_covers :
    (groups : List Group) (seen : List AuditRun) (r : AuditRun)
    → IsGrouping groups seen
    → (x : AuditRun) → In x (seen ++ r ∷ [])
    → (g : Group) × In g (add_to_group groups r) × (g.0 ≡ identity_of x)
added_covers groups seen r i x m = elim (append-In seen (r ∷ []) m) [
  | inl n ↦ let (g, k, e) = i.covers x n in let (h, l, f) = key_stays groups r g k in (h, l, f ∙ e)
  | inr n ↦ let (h, l, f) = key_added groups r in (h, l, f ∙ ap identity_of (In-single n))
]

add_to_group-IsGrouping :
    (groups : List Group) (seen : List AuditRun) (r : AuditRun)
    → IsGrouping groups seen
    → IsGrouping (add_to_group groups r) (seen ++ r ∷ [])
add_to_group-IsGrouping groups seen r i = record {
  of = λ g m. Origin-of groups seen r g i (origin groups r g m);
  apart = add_to_group-Apart groups r i.apart;
  taken = λ g m. Origin-taken groups seen r g i (origin groups r g m);
  covers = added_covers groups seen r i;
}

pub grouped-IsGrouping :
    (groups : List Group) (seen runs : List AuditRun)
    → IsGrouping groups seen
    → IsGrouping (grouped groups runs) (seen ++ runs)
unfolding grouped
grouped-IsGrouping groups seen [] i = subst (IsGrouping groups) (sym (append-nil seen)) i
grouped-IsGrouping groups seen (r ∷ rs) i =
    subst (IsGrouping (grouped (add_to_group groups r) rs)) (append_assoc seen (r ∷ []) rs) (
      grouped-IsGrouping (add_to_group groups r) (seen ++ r ∷ []) rs
        (add_to_group-IsGrouping groups seen r i))
