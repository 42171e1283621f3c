-- ===== src/Coordinator/Custody.antt =====
-- auth_session/coordinator.py: `_commit_success`, after an exchange whose successor exists only in
-- memory.
use enji_guard_cli.Prelude.{String, Bool, true, false, ◌≡◌, refl, ◌=s◌, subst}
use enji_guard_cli.StateMachine.{
  RotationState, ready, reserved, requested, rotated, rejected, outcome_unknown, Terminal, Step,
  moved, invalid_transition,
}
use enji_guard_cli.Store.{
  Credential, cookie, bearer_token, StoredAuth, RotationAttempt, AuthLoadResult, auth_absent,
  auth_corrupt, auth_unsupported, auth_io_failure, auth_clock_anomaly, auth_loaded, CasResult,
  cas_written, cas_superseded,
}
use enji_guard_cli.Store.AuthFile.{stored_auth}
use enji_guard_cli.Recovery.{without_owner}
use enji_guard_cli.Disk.{
  Session, World, Error, os_error, type_error, assertion_error, invalid_transition_error,
  post_dispatch_persistence, Result, ok, err, ◌>>◌, ask, enji_error, terminal_revision_required,
  recovery_required,
}
use enji_guard_cli.Disk.Files.{
  load_auth, load_journal, write_auth_file, write_journal, cas_current, cas_loaded,
  cas_replace_cookie,
}
use enji_guard_cli.Coordinator.Outcomes.{loaded_or_raise, record_terminal_outcome}
use enji_guard_cli.Coordinator.Prepare.{stepped}
use enji_guard_cli.Coordinator.Commit.{
  is_superseded, attempt_for_source, newer, as_terminal, after_success, rotate_current,
  commit_success, retaining,
}
use enji_guard_cli.Coordinator.Rules.{
  Holds, Ensures, Anything, ensures_bind, ensures_with, ensures_pure, ensures_raise, ensures_ask,
  ensures_locked, ensures_if,
}
use enji_guard_cli.Coordinator.Failures.{
  IsLocal, Plain, write_journal-Plain, write_auth-Plain, load_auth-Plain, load_journal-Plain,
  record-Plain,
}

loaded-Plain : (l : AuthLoadResult) → Plain (loaded_or_raise l)
unfolding loaded_or_raise IsLocal
loaded-Plain (auth_loaded auth) = ensures_pure _ (λ s. tt)
loaded-Plain auth_absent = ensures_raise _ tt
loaded-Plain (auth_clock_anomaly _) = ensures_raise _ tt
loaded-Plain (auth_corrupt _) = ensures_raise _ tt
loaded-Plain (auth_unsupported _) = ensures_raise _ tt
loaded-Plain (auth_io_failure _) = ensures_raise _ tt

newer-Plain : Plain newer
newer-Plain = ensures_bind load_auth _ load_auth-Plain loaded-Plain

cas_current-Plain :
    (src header next : String) (a : StoredAuth) (c : Credential)
    → Plain (cas_current src header next a c)
unfolding ◌>>◌
cas_current-Plain src header next a (bearer_token _) = ensures_pure _ (λ s. tt)
cas_current-Plain src header next a (cookie _) =
    ensures_bind (ask _) _ (ensures_ask _)
      (λ r. ensures_bind (write_auth_file r) _ (write_auth-Plain r) (λ u. ensures_pure _ (λ s. tt)))

cas_loaded-Plain :
    (src header next : String) (l : AuthLoadResult) → Plain (cas_loaded src header next l)
cas_loaded-Plain src header next (auth_loaded a) =
    ensures_if (a.revision =s src) (λ _. cas_current-Plain src header next a a.credential)
      (λ _. ensures_pure _ (λ s. tt))
cas_loaded-Plain src header next auth_absent = ensures_pure _ (λ s. tt)
cas_loaded-Plain src header next (auth_clock_anomaly _) = ensures_pure _ (λ s. tt)
cas_loaded-Plain src header next (auth_corrupt _) = ensures_pure _ (λ s. tt)
cas_loaded-Plain src header next (auth_unsupported _) = ensures_pure _ (λ s. tt)
cas_loaded-Plain src header next (auth_io_failure _) = ensures_pure _ (λ s. tt)

cas-Plain : (src header next : String) → Plain (cas_replace_cookie src header next)
unfolding cas_replace_cookie
cas-Plain src header next =
    ensures_bind load_auth _ load_auth-Plain (cas_loaded-Plain src header next)

stepped-Plain : (t : Step) → Plain (stepped t)
unfolding IsLocal
stepped-Plain (moved t) = ensures_pure _ (λ s. tt)
stepped-Plain invalid_transition = ensures_raise _ tt

terminal-Plain : (u : RotationState) → Plain (as_terminal u)
unfolding IsLocal
terminal-Plain (rotated src header next) = ensures_pure _ (λ s. tt)
terminal-Plain (rejected src why) = ensures_pure _ (λ s. tt)
terminal-Plain (outcome_unknown src why) = ensures_pure _ (λ s. tt)
terminal-Plain (ready r) = ensures_raise _ tt
terminal-Plain (reserved r) = ensures_raise _ tt
terminal-Plain (requested r) = ensures_raise _ tt

superseded-Plain : (src : String) → Plain (is_superseded src)
unfolding is_superseded
superseded-Plain src = ensures_bind load_auth _ load_auth-Plain (λ l. ensures_pure _ (λ s. tt))

attempt-Plain : (src : String) → Plain (attempt_for_source src)
unfolding attempt_for_source
attempt-Plain src = ensures_bind load_journal _ load_journal-Plain (λ l. ensures_pure _ (λ s. tt))

after_success-Plain :
    (t : Terminal) (a : RotationAttempt) (r : CasResult) → Plain (after_success t a r)
unfolding ◌>>◌
after_success-Plain t a (cas_written auth) =
    ensures_bind (record_terminal_outcome t a false) _ (record-Plain t a false)
      (λ u. ensures_pure _ (λ s. tt))
after_success-Plain t a (cas_superseded _) = newer-Plain

rotate-Plain : (src header next : String) (b : Bool) → Plain (rotate_current src header next b)
unfolding ◌>>◌
rotate-Plain src header next true = newer-Plain
rotate-Plain src header next false = ensures_bind (stepped _) _ (stepped-Plain _) (λ u.
    ensures_bind (as_terminal u) _ (terminal-Plain u) (λ t.
      ensures_bind (attempt_for_source src) _ (attempt-Plain src) (λ a.
        ensures_bind (write_journal u false (without_owner a)) _
          (write_journal-Plain u false (without_owner a))
          (λ v.
            ensures_bind (cas_replace_cookie src header next) _ (cas-Plain src header next)
              (after_success-Plain t (without_owner a))))))

-- The credential that the response brought, for the service of the credential it replaces.
pub record IsSuccessor (source : StoredAuth) (header : String) (kept : StoredAuth) : Type 0 where
  pub credential : kept.credential ≡ cookie header
  pub base_url : kept.base_url ≡ source.base_url

-- No `OSError`; and a failure of the persistence has the replaced revision and the successor.
unfoldable pub IsCustody : StoredAuth → String → Error → Type 0
IsCustody source header os_error = ⊥
IsCustody source header (post_dispatch_persistence r kept) =
    (r ≡ source.revision) × IsSuccessor source header kept
IsCustody source header _ = Unit {0}

kept :
    (source successor : StoredAuth) (header : String) (r : Result StoredAuth × Session)
    → IsSuccessor source header successor
    → Holds Anything IsLocal r
    → Holds Anything (IsCustody source header) (retaining source.revision successor r.0, r.1)
unfolding IsLocal IsCustody
kept source successor header (ok a, s) k h = tt
kept source successor header (err os_error, s) k h = (refl, k)
kept source successor header (err type_error, s) k h = tt
kept source successor header (err invalid_transition_error, s) k h = tt
kept source successor header (err assertion_error, s) k h = tt
kept source successor header (err (enji_error _ _), s) k h = tt
kept source successor header (err (terminal_revision_required _ _), s) k h = tt
kept source successor header (err (recovery_required _ _ _), s) k h = tt
kept source successor header (err (post_dispatch_persistence _ _), s) k h = absurd h

IsSuccessor-asked :
    (source : StoredAuth) (header fresh : String)
    → Ensures
        (λ a s. IsSuccessor source header a)
        (IsCustody source header)
        (ask (λ w n. stored_auth w.iso (w.now n) source.base_url (cookie header) fresh))
unfolding ask stored_auth
IsSuccessor-asked source header fresh = record {
  at = λ w s. record { credential = refl; base_url = refl };
}

commit_success-IsCustody :
    (source : StoredAuth) (header : String)
    → Ensures Anything (IsCustody source header) (commit_success source header)
unfolding commit_success IsLocal
commit_success-IsCustody source header = ensures_bind (ask _) _ (ensures_ask _) (λ fresh.
    ensures_with _ _ (IsSuccessor-asked source header fresh) (λ successor k. record {
      at = λ w s. kept source successor header _ k (
          (ensures_locked _ tt (
              ensures_bind (is_superseded source.revision) _ (superseded-Plain source.revision)
                (rotate-Plain source.revision header fresh))).at
            w s);
    }))

raised :
    (source : StoredAuth) (header : String) (r : Result StoredAuth × Session) (e : Error)
    (s : Session)
    → r ≡ (err e, s)
    → Holds Anything (IsCustody source header) r
    → IsCustody source header e
raised source header r e s h k = subst (λ x. Holds Anything (IsCustody source header) x) h k

-- Whatever the files and the world do, if `_commit_success` raises, it is no bare `OSError`; and
-- if it raises the persistence error, that error has the replaced revision and a successor with
-- the cookie of the response and the base URL of the replaced credential.
pub successor_retained :
    (source : StoredAuth) (header : String) (w : World) (s s' : Session) (e : Error)
    → commit_success source header w s ≡ (err e, s')
    → IsCustody source header e
successor_retained source header w s s' e h =
    raised source header _ e s' h ((commit_success-IsCustody source header).at w s)
