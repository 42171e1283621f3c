-- ===== src/Coordinator/Given.antt =====
-- Reasoning about actions of auth_session/coordinator.py on given files: what holds of every answer if
-- the files are these at first, and the actions that only read them.
use enji_guard_cli.Prelude.{ℕ, ap, Option, none, some, ◌≡◌, refl, subst, sym}
use enji_guard_cli.Store.{
  Credential, cookie, bearer_token, AuthLoadResult, auth_absent, auth_corrupt, auth_unsupported,
  auth_io_failure, auth_clock_anomaly, auth_loaded,
}
use enji_guard_cli.Disk.{
  Disk, Fate, done, lost, unsure, World, Session, Error, type_error, Result, ok, err, M, ◌>>=◌,
  pure, raise, ask, lift, continue,
}
use enji_guard_cli.Disk.Files.{auth_of, journal_of, load_auth, load_journal}
use enji_guard_cli.Coordinator.Outcomes.{locked, if_taken, loaded_or_raise}
use enji_guard_cli.Coordinator.Prepare.{require_cookie}
use enji_guard_cli.Coordinator.Rules.{Ensures, AnyError, Holds}

module _ (w : World) (disk : Disk) where
  -- Every answer is as said, if the files are the given ones.
  pub record FromFiles {A : Type 0} (answers : A → Session → Type 0) (m : M A) : Type 0 where
    pub at : (s : Session) → s.disk ≡ disk → Holds answers AnyError (m w s)

  -- The files are still the given ones.
  abbrev pub KeepsFiles : {A : Type 0} → (A → Type 0) → M A → Type 0
  KeepsFiles Q m = FromFiles (λ a s. (s.disk ≡ disk) × Q a) m

module _ (w : World) (disk : Disk) {A B : Type 0} (answers : B → Session → Type 0) where
  after_read :
      {Q : A → Type 0} (f : A → M B) (r : Result A × Session)
      → Holds (λ a s. (s.disk ≡ disk) × Q a) AnyError r
      → ((a : A) → Q a → (s : Session) → s.disk ≡ disk → Holds answers AnyError (f a w s))
      → Holds answers AnyError (continue r.0 f w r.1)
  after_read f (ok a, s) (e, q) k = k a q s e
  after_read f (err x, s) h k = tt

  after_answer :
      {P : A → Session → Type 0} (f : A → M B) (r : Result A × Session)
      → Holds P AnyError r
      → ((a : A) (s : Session) → P a s → Holds answers AnyError (f a w s))
      → Holds answers AnyError (continue r.0 f w r.1)
  after_answer f (ok a, s) h k = k a s h
  after_answer f (err x, s) h k = tt

  pub given_bind :
      (m : M A) (f : A → M B)
      → KeepsFiles w disk (λ a. Unit {0}) m
      → ((a : A) → FromFiles w disk answers (f a))
      → FromFiles w disk answers (m >>= f)
  unfolding ◌>>=◌
  given_bind m f h k = record {
    at = λ s e. after_read f (m w s) (h.at s e) (λ a q s' d. (k a).at s' d);
  }

  pub given_with :
      {Q : A → Type 0} (m : M A) (f : A → M B)
      → KeepsFiles w disk Q m
      → ((a : A) → Q a → Ensures answers AnyError (f a))
      → FromFiles w disk answers (m >>= f)
  unfolding ◌>>=◌
  given_with m f h k = record {
    at = λ s e. after_read f (m w s) (h.at s e) (λ a q s' d. (k a q).at w s');
  }

  pub given_then :
      {P : A → Session → Type 0} (m : M A) (f : A → M B)
      → FromFiles w disk P m
      → ((a : A) (s : Session) → P a s → Holds answers AnyError (f a w s))
      → FromFiles w disk answers (m >>= f)
  unfolding ◌>>=◌
  given_then m f h k = record { at = λ s e. after_answer f (m w s) (h.at s e) k }

module _ (w : World) (disk : Disk) {A : Type 0} (answers : A → Session → Type 0) where
  given_taken :
      (t : Fate) (m : M A) → FromFiles w disk answers m → FromFiles w disk answers (if_taken t m)
  unfolding raise
  given_taken done m h = h
  given_taken lost m h = record { at = λ s e. tt }
  given_taken unsure m h = record { at = λ s e. tt }

  pub given_locked : (m : M A) → FromFiles w disk answers m → FromFiles w disk answers (locked m)
  unfolding locked ask
  given_locked m h =
      given_bind w disk answers _ _ (record { at = λ s e. (e, tt) }) (λ t. given_taken t m h)

module _ (w : World) (disk : Disk) where
  pub reads_auth : KeepsFiles w disk (λ a. Unit {0}) load_auth
  unfolding load_auth
  reads_auth = record { at = λ s e. (e, tt) }

  -- The answer is that of the file, at some reading of the clock.
  pub loads_auth :
      KeepsFiles w disk (λ a. (now : ℕ) × (auth_of w now disk.credential ≡ a)) load_auth
  unfolding load_auth
  loads_auth = record {
    at = λ s e. (e, (w.now s.asked, ap (λ x. auth_of w (w.now s.asked) x.credential) (sym e)));
  }

  raises : {A : Type 0} (x : Error) → KeepsFiles w disk (λ (a : A). Unit {0}) (raise x)
  unfolding raise
  raises x = record { at = λ s e. tt }

  pub loaded_reads : (l : AuthLoadResult) → KeepsFiles w disk (λ a. Unit {0}) (loaded_or_raise l)
  unfolding loaded_or_raise pure
  loaded_reads (auth_loaded auth) = record { at = λ s e. (e, tt) }
  loaded_reads auth_absent = raises _
  loaded_reads (auth_clock_anomaly _) = raises _
  loaded_reads (auth_corrupt detail) = raises _
  loaded_reads (auth_unsupported _) = raises _
  loaded_reads (auth_io_failure e) = raises _

  pub cookie_reads : (c : Credential) → KeepsFiles w disk (λ a. Unit {0}) (require_cookie c)
  unfolding pure
  cookie_reads (cookie h) = record { at = λ s e. (e, tt) }
  cookie_reads (bearer_token t) = raises _

  lifted :
      {A : Type 0} (x : Error) (o : Option A) (s : Session)
      → s.disk ≡ disk
      → Holds (λ a s. (s.disk ≡ disk) × (o ≡ some a)) AnyError (lift x o w s)
  unfolding lift
  lifted x none s e = tt
  lifted x (some a) s e = (e, refl)

  pub reads_journal : KeepsFiles w disk (λ j. journal_of w disk.journal ≡ some j) load_journal
  unfolding load_journal
  reads_journal = record {
    at = λ s e.
        subst
          (λ x.
            Holds (λ j s. (s.disk ≡ disk) × (journal_of w disk.journal ≡ some j)) AnyError
              (lift type_error (journal_of w x.journal) w s))
          (sym e) (lifted type_error (journal_of w disk.journal) s e);
  }
