-- ===== src/Coordinator/Rules.antt =====
-- Reasoning about actions that may raise: what holds of every answer, and of every raised error.
use enji_guard_cli.Prelude.{ℕ, Bool, true, false, if◌then◌else◌, Option, none, some, ◌≡◌, refl}
use enji_guard_cli.Disk.{
  Fate, done, lost, unsure, World, Error, os_error, Session, Result, ok, err, M, ◌>>=◌, pure, raise,
  lift, ask, continue,
}
use enji_guard_cli.Coordinator.Outcomes.{locked, if_taken}

module _ {A : Type 0} (answers : A → Session → Type 0) (raises : Error → Type 0) where
  abbrev pub Holds : Result A × Session → Type 0
  Holds (ok a, s) = answers a s
  Holds (err e, s) = raises e

  -- Every answer and every error is as said, whatever the world and the files are.
  pub record Ensures (m : M A) : Type 0 where
    pub at : (w : World) (s : Session) → Holds (m w s)

abbrev pub Anything : {A : Type 0} → A → Session → Type 0
Anything a s = Unit {0}

module _ {A B : Type 0} {answers : B → Session → Type 0} {raises : Error → Type 0} where
  after_result :
      {P : A → Type 0} (f : A → M B) (r : Result A × Session)
      → Holds (λ a s. P a) raises r
      → ((a : A) → P a → Ensures answers raises (f a))
      → (w : World) → Holds answers raises (continue r.0 f w r.1)
  after_result f (ok a, s) h k w = (k a h).at w s
  after_result f (err e, s) h k w = h

  -- The rest may use what is known of the answer.
  pub ensures_with :
      {P : A → Type 0} (m : M A) (f : A → M B)
      → Ensures (λ a s. P a) raises m
      → ((a : A) → P a → Ensures answers raises (f a))
      → Ensures answers raises (m >>= f)
  unfolding ◌>>=◌
  ensures_with m f h k = record { at = λ w s. after_result f (m w s) (h.at w s) k w }

  -- What the rest ensures, the whole ensures.
  pub ensures_bind :
      (m : M A) (f : A → M B)
      → Ensures Anything raises m
      → ((a : A) → Ensures answers raises (f a))
      → Ensures answers raises (m >>= f)
  ensures_bind m f h k = ensures_with m f h (λ a _. k a)

module _ {A : Type 0} {answers : A → Session → Type 0} {raises : Error → Type 0} where
  pub ensures_raise : (e : Error) → raises e → Ensures answers raises (raise e)
  unfolding raise
  ensures_raise e h = record { at = λ w s. h }

  pub ensures_pure : (a : A) → ((s : Session) → answers a s) → Ensures answers raises (pure a)
  unfolding pure
  ensures_pure a h = record { at = λ w s. h s }

module _ {A : Type 0} {raises : Error → Type 0} where
  pub ensures_ask : (q : World → ℕ → A) → Ensures Anything raises (ask q)
  unfolding ask
  ensures_ask q = record { at = λ w s. tt }

  pub ensures_lift :
      (e : Error) (a : Option A) → raises e → Ensures (λ x s. a ≡ some x) raises (lift e a)
  unfolding lift
  ensures_lift e none h = record { at = λ w s. h }
  ensures_lift e (some a) h = record { at = λ w s. refl }

module _ {A : Type 0} {answers : A → Session → Type 0} {raises : Error → Type 0} where
  taken :
      (t : Fate) (m : M A)
      → raises os_error
      → Ensures answers raises m
      → Ensures answers raises (if_taken t m)
  taken done m e h = h
  taken lost m e h = ensures_raise os_error e
  taken unsure m e h = ensures_raise os_error e

  pub ensures_locked :
      (m : M A) → raises os_error → Ensures answers raises m → Ensures answers raises (locked m)
  unfolding locked
  ensures_locked m e h =
      ensures_bind (ask (λ w n. w.fate n)) (λ t. if_taken t m) (ensures_ask (λ w n. w.fate n))
        (λ t. taken t m e h)

abbrev pub AnyError : Error → Type 0
AnyError e = Unit {0}

module _ {A : Type 0} where
  nothing_said : (r : Result A × Session) → Holds Anything AnyError r
  nothing_said (ok a, s) = tt
  nothing_said (err e, s) = tt

  pub ensures_nothing : (m : M A) → Ensures Anything AnyError m
  ensures_nothing m = record { at = λ w s. nothing_said (m w s) }

module _ {A B : Type 0} (answers : B → Session → Type 0) where
  returned :
      {P : A → Session → Type 0} (f : A → M B) (r : Result A × Session)
      → Holds P AnyError r
      → ((a : A) (w : World) (s : Session) → P a s → Holds answers AnyError (f a w s))
      → (w : World) → Holds answers AnyError (continue r.0 f w r.1)
  returned f (ok a, s) h k w = k a w s h
  returned f (err e, s) h k w = h

module _ {A B : Type 0} {answers : B → Session → Type 0} where
  -- What the first action says is not needed.
  pub after_any :
      (m : M A) (f : A → M B)
      → ((a : A) → Ensures answers AnyError (f a))
      → Ensures answers AnyError (m >>= f)
  after_any m f h = ensures_bind m f (ensures_nothing m) h

  pub after_raise : (e : Error) (f : A → M B) → Ensures answers AnyError (raise e >>= f)
  after_raise e f =
      ensures_with (raise e) f (ensures_raise {answers = λ a s. ⊥} e tt) (λ a h. absurd h)

  -- The rest may use what is known of the answer and of the files.
  pub ensures_from :
      {P : A → Session → Type 0} (m : M A) (f : A → M B)
      → Ensures P AnyError m
      → ((a : A) (w : World) (s : Session) → P a s → Holds answers AnyError (f a w s))
      → Ensures answers AnyError (m >>= f)
  unfolding ◌>>=◌
  ensures_from m f h k = record { at = λ w s. returned answers f (m w s) (h.at w s) k w }

  pub ensures_map :
      {P : A → Session → Type 0} (m : M A) (f : A → B)
      → Ensures P AnyError m
      → ((a : A) (s : Session) → P a s → answers (f a) s)
      → Ensures answers AnyError (m >>= λ a. pure (f a))
  unfolding pure
  ensures_map m f h k = ensures_from m (λ a. pure (f a)) h (λ a w s. k a s)

module _ {A : Type 0} {answers : A → Session → Type 0} {raises : Error → Type 0} where
  pub ensures_if :
      (b : Bool) {m n : M A}
      → (b ≡ true → Ensures answers raises m)
      → (b ≡ false → Ensures answers raises n)
      → Ensures answers raises (if b then m else n)
  ensures_if true h k = h refl
  ensures_if false h k = k refl
