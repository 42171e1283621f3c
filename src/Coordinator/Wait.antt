-- ===== src/Coordinator/Wait.antt =====
-- auth_session/coordinator.py: `wait_for_terminal_revision`, which only watches the credential file
-- until another process changes it. `_stored_auth_revision` is `revision_of`.
use enji_guard_cli.Prelude.{refl}
use enji_guard_cli.Polling.{Sleeps, polling-Ends}
use enji_guard_cli.Prelude.{
  true, Option-cases, Bool-cases, inl, inr, ◌*◌, ◌≡◌, arith, ℕ, zero, suc, ◌+◌, ◌≤◌, String, Bool,
  false, Option, none, some, ◌=s◌, leb, not, if◌then◌else◌,
}
use enji_guard_cli.Store.{StoredAuth, AuthLoadResult, auth_loaded}

-- `TERMINAL_POLL_SECONDS`, in microseconds
abbrev pub terminal_poll : ℕ
terminal_poll = 50_000

-- What the waiter observes: the readings of the monotonic clock, and the loads of the credential
-- file, two in a round.
pub record Watch : Type 0 where
  pub monotonic : ℕ → ℕ
  pub revision_read : ℕ → AuthLoadResult
  pub credential_read : ℕ → AuthLoadResult

pub data Waited : Type 0 where
  advanced : StoredAuth → Waited
  import_required : String → Waited

unfoldable pub revision_of : AuthLoadResult → Option String
revision_of (auth_loaded auth) = some auth.revision
revision_of _ = none

abbrev pub differs : Option String → String → Bool
differs none src = false
differs (some r) src = not (r =s src)

abbrev loaded_auth : AuthLoadResult → Option StoredAuth
loaded_auth (auth_loaded auth) = some auth
loaded_auth _ = none

-- The credential that a round returns, if it returns one.
unfoldable pub seen : Watch → String → ℕ → Option StoredAuth
unfolding revision_of
seen v src k =
    if differs (revision_of (v.revision_read k)) src
    then loaded_auth (v.credential_read k)
    else none

-- Round `k` reads the clock for the `k + 1`-st time; the first reading is for the deadline. `none`
-- means that the fuel ran out.
unfoldable pub wait_rounds : ℕ → Watch → String → ℕ → ℕ → Option Waited
wait_rounds zero v src deadline k = none
wait_rounds (suc f) v src deadline k =
    let rest = wait_rounds f v src deadline (suc k) in
    elim (seen v src k) [
      | some auth ↦ some (advanced auth)
      | none ↦ if leb deadline (v.monotonic (suc k)) then some (import_required src) else rest
    ]

unfoldable pub wait_for_terminal_revision : ℕ → ℕ → Watch → String → Option Waited
wait_for_terminal_revision fuel seconds v src = wait_rounds fuel v src (v.monotonic 0 + seconds) 0

-- What the answer of a wait rests on: a credential was read in a round that saw another revision
-- than the awaited one, or the deadline had passed at a reading of the clock.
pub data IsDue (v : Watch) (src : String) (deadline : ℕ) : Waited → Type 0 where
  seen_at :
      (k : ℕ) (auth : StoredAuth) → seen v src k ≡ some auth → IsDue v src deadline (advanced auth)
  late_at : (k : ℕ) → deadline ≤ v.monotonic (suc k) → IsDue v src deadline (import_required src)

module _ (v : Watch) (src : String) (deadline : ℕ) where
  Ends : ℕ → ℕ → Type 0
  Ends f k = (r : Waited) × (wait_rounds f v src deadline k ≡ some r) × IsDue v src deadline r

  seen_end : (f k : ℕ) (auth : StoredAuth) → seen v src k ≡ some auth → Ends (suc f) k
  unfolding Ends wait_rounds
  seen_end f k auth e = (advanced auth, rw (e, wait_rounds), seen_at k auth e)

  late_end :
      (f k : ℕ) → seen v src k ≡ none → leb deadline (v.monotonic (suc k)) ≡ true → Ends (suc f) k
  unfolding Ends wait_rounds
  late_end f k e l = (import_required src, rw (e, wait_rounds) (rw l), late_at k (ground arith))

  later_end :
      (f k : ℕ)
      → seen v src k ≡ none
      → leb deadline (v.monotonic (suc k)) ≡ false
      → Ends f (suc k)
      → Ends (suc f) k
  unfolding Ends wait_rounds
  later_end f k e l (r, g, due) = (r, rw (e, wait_rounds) (rw l g), due)

  round_end :
      (f k : ℕ) → (leb deadline (v.monotonic (suc k)) ≡ false → Ends f (suc k)) → Ends (suc f) k
  round_end f k rest = elim (Option-cases (seen v src k)) [
    | inr (auth, e) ↦ seen_end f k auth e
    | inl e ↦ elim (Bool-cases (leb deadline (v.monotonic (suc k)))) [
      | inl l ↦ late_end f k e l
      | inr l ↦ later_end f k e l (rest l)
    ]
  ]

-- If the clock keeps the sleeps, one round more than the polls that the wait has time for is
-- enough: the wait ends, with a credential that it read in a round that saw another revision, or
-- with the demand for an import, which is made only after the deadline.
pub wait_ends :
    (v : Watch) (src : String) (seconds f : ℕ)
    → Sleeps terminal_poll (v.monotonic 0 + seconds) v.monotonic
    → seconds ≤ terminal_poll * f
    → (r : Waited) × (wait_for_terminal_revision (suc f) seconds v src ≡ some r)
      × IsDue v src (v.monotonic 0 + seconds) r
unfolding wait_for_terminal_revision Ends
wait_ends v src seconds f h d =
    let deadline = v.monotonic 0 + seconds in
    polling-Ends terminal_poll deadline v.monotonic h (Ends v src deadline)
      (round_end v src deadline) seconds f refl d
