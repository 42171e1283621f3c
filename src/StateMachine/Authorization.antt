-- ===== src/StateMachine/Authorization.antt =====
-- The budget test of auth_session/state_machine.py, `_recovery_dispatch_is_authorized`.
use enji_guard_cli.Prelude.{refl, ◌+◌, ◌≤◌, ◌<◌, String, true, ◌≡◌, ◌↔◌, arith}
use enji_guard_cli.StateMachine.{
  RotationState, reserved, outcome_unknown, AuthorizeRecoveryDispatch, authorize_recovery_dispatch,
  Transition, moved, transition, recovery_dispatch_is_authorized, total_dispatch_cap, lane_limit,
  lane_count,
}

-- What the budget promises, as inequalities.
pub record InBudget (e : AuthorizeRecoveryDispatch) : Type 0 where
  pub opened : e.deadline_open ≡ true
  pub cooled : e.cooldown_elapsed ≡ true
  pub capped : e.dispatch_cap ≡ total_dispatch_cap
  pub counted :
      e.dispatch_count
      ≡ 1 + e.safe_retry_count + e.validation_retry_count + e.ambiguity_replay_count
  pub within : e.dispatch_count ≤ total_dispatch_cap
  pub spent : 0 < lane_count e e.continuation
  pub limited : lane_count e e.continuation ≤ lane_limit e.continuation

authorized_of_InBudget :
    (e : AuthorizeRecoveryDispatch) → InBudget e → recovery_dispatch_is_authorized e ≡ true
unfolding recovery_dispatch_is_authorized
authorized_of_InBudget e b = ground arith

InBudget-of_authorized :
    (e : AuthorizeRecoveryDispatch) → recovery_dispatch_is_authorized e ≡ true → InBudget e
unfolding recovery_dispatch_is_authorized
InBudget-of_authorized e b = ground arith

-- The test of an authorization passes exactly within the budget: the deadline is open, the
-- cooldown is over, the cap is the policy's, the dispatches are one plus the retries and within
-- the cap, and the lane of the retry has been counted and is within its limit.
pub authorized_iff :
    (e : AuthorizeRecoveryDispatch) → (recovery_dispatch_is_authorized e ≡ true) ↔ InBudget e
authorized_iff e = (InBudget-of_authorized e, authorized_of_InBudget e)

lanes_spent : (e : AuthorizeRecoveryDispatch) → InBudget e → 2 ≤ e.dispatch_count
unfolding lane_count
lanes_spent e b = ground (arith, b.counted, b.spent)

-- An authorization moves a state only from `outcome_unknown`, only within the budget, and to a
-- reservation of the same revision; so an authorized dispatch is the second to the sixth.
pub authorized_dispatch :
    (s : RotationState) (e : AuthorizeRecoveryDispatch) (t : Transition)
    → transition s (authorize_recovery_dispatch e) ≡ moved t
    → (src : String) × (why : String) × (s ≡ outcome_unknown src why)
      × (t.state ≡ reserved src)
      × InBudget e
      × (2 ≤ e.dispatch_count)
      × (e.dispatch_count ≤ 6)
unfolding transition
authorized_dispatch (outcome_unknown src why) e t h =
    let b : InBudget e = InBudget-of_authorized e (ground arith) in
    (src, why, refl, ground arith, b, lanes_spent e b, b.within)
authorized_dispatch _ e t h = absurd (cc)
