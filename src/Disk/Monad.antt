-- ===== src/Disk/Monad.antt =====
-- The state, the answers of the environment, and actions that may raise.
use enji_guard_cli.Prelude.{ℕ, ◌+◌, String, Bool, Option, none, some}
use enji_guard_cli.Json.{Json}
use enji_guard_cli.Timestamps.{IsoFormat}
use enji_guard_cli.StateMachine.{RecoveryContinuation}
use enji_guard_cli.Store.{StoredAuth, OutcomeOutboxRecord}
use enji_guard_cli.Recovery.{RefreshOwner}

-- What a read of a file finds. The text of a JSON file is its value.
pub data File : Type 0 where
  absent : File
  unreadable : String → File
  not_utf8 : File
  not_json : String → File
  json : Json → File

pub record Disk : Type 0 where
  pub credential : File
  pub journal : File
  pub outbox : File

-- A file operation that succeeds; one that raises before it is visible; one that raises after.
pub data Fate : Type 0 where
  done lost unsure : Fate

-- The n-th question put to the environment gets the n-th answer.
pub record World : Type 0 where
  pub iso : IsoFormat
  pub now : ℕ → ℕ
  pub fate : ℕ → Fate
  pub uuid : ℕ → String
  pub owner : ℕ → Option RefreshOwner
  pub alive : ℕ → RefreshOwner → Bool
  pub accepts : ℕ → OutcomeOutboxRecord → Bool

pub record Session : Type 0 where
  pub disk : Disk
  pub asked : ℕ

-- `OSError` and `TimeoutError` are one.
pub data Error : Type 0 where
  os_error type_error invalid_transition_error assertion_error : Error
  enji_error : String → String → Error
  terminal_revision_required : String → String → Error
  recovery_required : String → RecoveryContinuation → ℕ → Error
  post_dispatch_persistence : String → StoredAuth → Error

pub data Result {ℓ} (A : Type ℓ) : Type ℓ where
  ok : A → Result A
  err : Error → Result A

-- What was written before a raise stays written.
abbrev pub M : Type 0 → Type 0
M A = World → Session → Result A × Session

module _ {A B : Type 0} where
  abbrev pub continue : Result A → (A → M B) → M B
  continue (ok a) f w s = f a w s
  continue (err e) f w s = (err e, s)

  infixl 10 ◌>>=◌ ◌>>◌
  unfoldable pub ◌>>=◌ : M A → (A → M B) → M B
  ◌>>=◌ m f w s = let (r, s') = m w s in continue r f w s'

  unfoldable pub ◌>>◌ : M A → M B → M B
  unfolding ◌>>=◌
  m >> k = m >>= λ _. k

module _ {A : Type 0} where
  unfoldable pub pure : A → M A
  pure a w s = (ok a, s)

  unfoldable pub raise : Error → M A
  raise e w s = (err e, s)

  -- One question to the environment.
  unfoldable pub ask : (World → ℕ → A) → M A
  ask q w s = (ok (q w s.asked), record s { asked = s.asked + 1 })

  -- The answer of pure code that may raise.
  unfoldable pub lift : Error → Option A → M A
  lift e none w s = (err e, s)
  lift e (some a) w s = (ok a, s)
