-- ===== src/Polling.antt =====
-- Loops that poll until a deadline on a monotonic clock: `wait_for_terminal_revision` of
-- auth_session/coordinator.py and `wait_for_completion` of audit/wait.py. Times are microseconds.
use enji_guard_cli.Prelude.{ℕ, zero, suc, ◌+◌, ◌-◌, ◌*◌, ◌≤◌, ◌≡◌, false, arith, leb, if◌then◌else◌}

abbrev pub min : ℕ → ℕ → ℕ
min a b = if leb a b then a else b

-- A monotonic clock does not run backwards, and a sleep lasts at least as long as it is asked to: a
-- reading after a sleep is that much later. The first reading is for the deadline.
pub record Sleeps (poll deadline : ℕ) (monotonic : ℕ → ℕ) : Type 0 where
  pub forward : monotonic 0 ≤ monotonic 1
  pub slept :
      (k : ℕ)
      → let now = monotonic (suc k) in now + min poll (deadline - now) ≤ monotonic (suc (suc k))

module _ (poll deadline : ℕ) (monotonic : ℕ → ℕ) (h : Sleeps poll deadline monotonic) where
  closer :
      (f k : ℕ)
      → deadline - monotonic (suc k) ≤ poll * suc f
      → deadline - monotonic (suc (suc k)) ≤ poll * f
  closer f k d = ground (arith, h.slept k)

  -- A loop whose round asks for another one only before the deadline ends within one round more
  -- than the sleeps that the time left has room for.
  module _ (Ends : ℕ → ℕ → Type 0)
      (round : (f k : ℕ)
        → (leb deadline (monotonic (suc k)) ≡ false → Ends f (suc k))
        → Ends (suc f) k) where
    pub rounds_end : (f k : ℕ) → deadline - monotonic (suc k) ≤ poll * f → Ends (suc f) k
    rounds_end zero k d = round zero k (λ l. absurd (ground arith))
    rounds_end (suc f) k d = round (suc f) k (λ l. rounds_end f (suc k) (closer f k d))

    pub polling-Ends :
        (seconds f : ℕ) → deadline ≡ monotonic 0 + seconds → seconds ≤ poll * f → Ends (suc f) 0
    polling-Ends seconds f e d = rounds_end f 0 (ground (arith, h.forward))
