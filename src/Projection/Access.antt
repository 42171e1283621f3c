-- ===== src/Projection/Access.antt =====
-- Which credential an observer of auth_session/projection.py may use.
use enji_guard_cli.Prelude.{
  sym, ◌∙◌, ap, subst, ◌↔◌, Bool, true, false, Option, none, ◌≡◌, ◌≢◌, inl, inr, refl, ◌=s◌, arith,
  Bool-cases,
}
use enji_guard_cli.StateMachine.{RotationState, ready, rotated, source_revision}
use enji_guard_cli.Store.{
  StoredAuth, RotationAttempt, AuthLoadResult, auth_loaded, JournalLoadResult, journal_absent,
  journal_corrupt, journal_io_failure, journal_loaded,
}
use enji_guard_cli.Projection.{
  AuthProjection, project_auth, network_credential, usable, unexpected, credential_ready,
}

-- What stands in the way of a loaded credential: an unreadable journal, a journal that says
-- `ready`, or a rotation of this very revision whose successor is not yet projected.
abbrev pub blocks : StoredAuth → JournalLoadResult → Bool
blocks auth journal_absent = false
blocks auth (journal_corrupt _) = true
blocks auth (journal_io_failure _) = true
blocks auth (journal_loaded (ready _) _ _ _) = true
blocks auth (journal_loaded (rotated src _ _) _ _ _) = src =s auth.revision
blocks auth (journal_loaded _ _ _ _) = false

-- The table of static errors covers what the cases leave: no projection is unexpected.
pub network_credential_total : (p : AuthProjection) → network_credential p ≢ unexpected
unfolding network_credential
network_credential_total p h = ground arith

open_access :
    (a : StoredAuth) (j : JournalLoadResult)
    → blocks a j ≡ false
    → network_credential (project_auth (auth_loaded a) j) ≡ usable a
unfolding network_credential project_auth
open_access a journal_absent h = refl
open_access a (journal_corrupt e) h = cc
open_access a (journal_io_failure e) h = cc
open_access a (journal_loaded s q attempt m) h = ground arith

shut_access :
    (a b : StoredAuth) (j : JournalLoadResult)
    → blocks b j ≡ true
    → network_credential (project_auth (auth_loaded b) j) ≡ usable a
    → ⊥
unfolding network_credential project_auth
shut_access a b journal_absent h u = cc
shut_access a b (journal_corrupt e) h u = cc
shut_access a b (journal_io_failure e) h u = cc
shut_access a b (journal_loaded s q attempt m) h u = ground arith

same_auth : (a b : StoredAuth) → usable b ≡ usable a → b ≡ a
same_auth a b h = cc

usable_only :
    (l : AuthLoadResult) (j : JournalLoadResult) (a : StoredAuth)
    → network_credential (project_auth l j) ≡ usable a
    → (l ≡ auth_loaded a) × (blocks a j ≡ false)
usable_only (auth_loaded b) j a u = elim (Bool-cases (blocks b j)) [
  | inl shut ↦ absurd (shut_access a b j shut u)
  | inr is_open ↦
      let same : b ≡ a = same_auth a b (sym (open_access b j is_open) ∙ u) in
      (ap auth_loaded same, subst (λ x. blocks x j ≡ false) same is_open)
]
usable_only l j a u = absurd (unfold network_credential project_auth in cc)

-- An observer is given a credential exactly if it is the loaded one and the journal does not block
-- it: renewal that is reserved, requested, recovering, rejected or unknown does not take it away.
pub usable_iff :
    (l : AuthLoadResult) (j : JournalLoadResult) (a : StoredAuth)
    → (network_credential (project_auth l j) ≡ usable a)
      ↔ ((l ≡ auth_loaded a) × (blocks a j ≡ false))
usable_iff l j a = (usable_only l j a, λ h. rw (h.0) (open_access a j h.1))

-- A journal of a state other than `ready` about another revision does not concern the loaded
-- credential.
pub stale_journal_ignored :
    (auth : StoredAuth) (s : RotationState) (enqueued : Bool) (attempt : Option RotationAttempt)
    → s ≢ ready (source_revision s)
    → (source_revision s =s auth.revision) ≡ false
    → project_auth (auth_loaded auth) (journal_loaded s enqueued attempt none)
      ≡ credential_ready auth
unfolding project_auth
stale_journal_ignored auth (ready r) enqueued attempt k h = absurd (k refl)
stale_journal_ignored auth _ enqueued attempt k h = rw h
