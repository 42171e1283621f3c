-- ===== src/Coordinator/Retained.antt =====
-- auth_session/coordinator.py: what `project_retained_successor` puts into the credential file.
use enji_guard_cli.Prelude.{ℕ, Bool-cases, inl, inr, sym, ap, ◌∙◌}
use enji_guard_cli.Disk.{World, Disk}
use enji_guard_cli.Disk.Files.{auth_of}
use enji_guard_cli.Coordinator.Given.{FromFiles, given_with, given_locked, loads_auth}
use enji_guard_cli.Coordinator.Rules.{ensures_raise}
use enji_guard_cli.Prelude.{String, false, Option, none, some, ◌=s◌, ◌≡◌, refl, =s_iff}
use enji_guard_cli.StateMachine.{Terminal}
use enji_guard_cli.Store.{
  Credential, cookie, bearer_token, StoredAuth, RotationAttempt, AuthLoadResult, auth_absent,
  auth_corrupt, auth_unsupported, auth_io_failure, auth_clock_anomaly, auth_loaded, CasResult,
  cas_written, cas_superseded,
}
use enji_guard_cli.Store.AuthFile.{stored_auth}
use enji_guard_cli.Recovery.{without_owner}
use enji_guard_cli.Disk.{M, ◌>>◌, ask}
use enji_guard_cli.Disk.Files.{
  load_auth, write_auth_file, write_journal, cas_current, cas_loaded, cas_replace_cookie,
}
use enji_guard_cli.Coordinator.Outcomes.{record_terminal_outcome}
use enji_guard_cli.Coordinator.Commit.{attempt_for_source}
use enji_guard_cli.Coordinator.Rules.{
  Ensures, AnyError, ensures_with, ensures_pure, ensures_if, after_any,
}
use enji_guard_cli.Coordinator.Startup.{
  RetainedSuccessor, Projected, projected, superseded, projected_auth_or_none, retained_header,
  is_source, project_stored, after_projection, project_retained_successor,
}

-- What a swap has written has the given revision and cookie.
IsSwap : String → String → CasResult → Type 0
IsSwap header next (cas_written auth) = (auth.revision ≡ next) × (auth.credential ≡ cookie header)
IsSwap header next (cas_superseded r) = Unit {0}

module _ (src header next : String) where
  replacement_asked :
      (current : StoredAuth)
      → Ensures
          (λ a s. (a.revision ≡ next) × (a.credential ≡ cookie header))
          AnyError
          (ask (λ w n. stored_auth w.iso (w.now n) current.base_url (cookie header) next))
  unfolding ask stored_auth
  replacement_asked current = record { at = λ w s. (refl, refl) }

  cas_current-IsSwap :
      (current : StoredAuth) (c : Credential)
      → Ensures (λ r s. IsSwap header next r) AnyError (cas_current src header next current c)
  unfolding IsSwap ◌>>◌
  cas_current-IsSwap current (bearer_token t) = ensures_pure _ (λ s. tt)
  cas_current-IsSwap current (cookie h) =
      ensures_with _ _ (replacement_asked current)
        (λ a k. after_any (write_auth_file a) _ (λ u. ensures_pure _ (λ s. k)))

  cas_loaded-IsSwap :
      (l : AuthLoadResult)
      → Ensures (λ r s. IsSwap header next r) AnyError (cas_loaded src header next l)
  unfolding IsSwap
  cas_loaded-IsSwap (auth_loaded a) =
      ensures_if (a.revision =s src) (λ _. cas_current-IsSwap a a.credential)
        (λ _. ensures_pure _ (λ s. tt))
  cas_loaded-IsSwap auth_absent = ensures_pure _ (λ s. tt)
  cas_loaded-IsSwap (auth_clock_anomaly _) = ensures_pure _ (λ s. tt)
  cas_loaded-IsSwap (auth_corrupt _) = ensures_pure _ (λ s. tt)
  cas_loaded-IsSwap (auth_unsupported _) = ensures_pure _ (λ s. tt)
  cas_loaded-IsSwap (auth_io_failure _) = ensures_pure _ (λ s. tt)

  cas_replace_cookie-IsSwap :
      Ensures (λ r s. IsSwap header next r) AnyError (cas_replace_cookie src header next)
  unfolding cas_replace_cookie
  cas_replace_cookie-IsSwap = after_any load_auth _ cas_loaded-IsSwap

-- The credential of a retained successor: of its revision, and with its cookie, or as the credential
-- file had it.
pub data IsSuccessor (w : World) (disk : Disk) (r : RetainedSuccessor) (auth : StoredAuth)
    : Type 0 where
  swapped :
      auth.revision ≡ r.auth.revision
      → auth.credential ≡ r.auth.credential
      → IsSuccessor w disk r auth
  stored :
      (now : ℕ)
      → auth.revision ≡ r.auth.revision
      → auth_of w now disk.credential ≡ auth_loaded auth
      → IsSuccessor w disk r auth

-- What a projection answers, for these files.
unfoldable pub IsRetained : World → Disk → RetainedSuccessor → Projected → Type 0
IsRetained w disk r (projected auth) = IsSuccessor w disk r auth
IsRetained w disk r (superseded current) = Unit {0}

module _ (w : World) (disk : Disk) (r : RetainedSuccessor) where
  Keeps : M Projected → Type 0
  Keeps m = Ensures (λ p s. IsRetained w disk r p) AnyError m

  found :
      (now : ℕ) (l : AuthLoadResult) (auth : StoredAuth)
      → auth_of w now disk.credential ≡ l
      → projected_auth_or_none l r ≡ some auth
      → IsSuccessor w disk r auth
  unfolding projected_auth_or_none
  found now (auth_loaded a) auth h e = elim (Bool-cases (a.revision =s r.auth.revision)) [
    | inl q ↦
        let same : a ≡ auth = cc (rw q at e) in
        stored now (ap (λ (x : StoredAuth). x.revision) (sym same) ∙ (=s_iff _ _).0 q)
          (h ∙ ap auth_loaded same)
    | inr q ↦ absurd (cc (rw q at e))
  ]
  found now auth_absent auth h e = absurd (cc e)
  found now (auth_clock_anomaly _) auth h e = absurd (cc e)
  found now (auth_corrupt _) auth h e = absurd (cc e)
  found now (auth_unsupported _) auth h e = absurd (cc e)
  found now (auth_io_failure _) auth h e = absurd (cc e)

  header_lem :
      (c : Credential) → Ensures (λ header s. c ≡ cookie header) AnyError (retained_header c)
  header_lem (cookie header) = ensures_pure _ (λ s. refl)
  header_lem (bearer_token t) = ensures_raise _ tt

  after_projection-Keeps :
      (t : Terminal) (attempt : RotationAttempt) (header : String) (c : CasResult)
      → r.auth.credential ≡ cookie header
      → IsSwap header r.auth.revision c
      → Keeps (after_projection t attempt c)
  unfolding IsSwap IsRetained Keeps ◌>>◌
  after_projection-Keeps t attempt header (cas_written auth) k h =
      after_any (record_terminal_outcome t attempt false) _
        (λ u. ensures_pure _ (λ s. swapped h.0 (h.1 ∙ sym k)))
  after_projection-Keeps t attempt header (cas_superseded o) k h = ensures_pure _ (λ s. tt)

  project_stored-Keeps :
      (now : ℕ) (l : AuthLoadResult) (header : String) (attempt : RotationAttempt)
      (o : Option StoredAuth)
      → auth_of w now disk.credential ≡ l
      → r.auth.credential ≡ cookie header
      → projected_auth_or_none l r ≡ o
      → Keeps (project_stored l r header attempt o)
  unfolding IsRetained Keeps ◌>>◌
  project_stored-Keeps now l header attempt (some auth) h k e =
      after_any (record_terminal_outcome _ attempt false) _
        (λ u. ensures_pure _ (λ s. found now l auth h e))
  project_stored-Keeps now l header attempt none h k e =
      ensures_if (is_source l r.source_revision)
        (λ _. after_any (write_journal _ false attempt) _ (λ u.
          ensures_with _ _ (cas_replace_cookie-IsSwap r.source_revision header r.auth.revision)
            (λ c i. after_projection-Keeps _ attempt header c k i)))
        (λ _. ensures_pure _ (λ s. tt))

  -- Whatever the files and the world are, a projection of a retained successor that does not raise
  -- and does not answer that the successor is superseded answers with a credential of the retained
  -- revision: with the retained cookie, or just as the credential file had it at the start.
  pub project_retained_successor-IsRetained :
      FromFiles w disk (λ p s. IsRetained w disk r p) (project_retained_successor r)
  unfolding project_retained_successor Keeps
  project_retained_successor-IsRetained = given_locked w disk _ _ (
      given_with w disk _ _ _ (loads_auth w disk) (λ l (now, h).
        ensures_with _ _ (header_lem r.auth.credential) (λ header k.
          after_any (attempt_for_source r.source_revision) _ (λ before.
            project_stored-Keeps now l header (without_owner before) (projected_auth_or_none l r) h
              k refl))))
