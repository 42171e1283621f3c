-- ===== src/Scenarios/Machine.antt =====
-- Transitions of a credential's rotation.
use enji_guard_cli.Prelude.{◌+◌, ◌≤◌, String, List, [], ◌∷◌, ◌++◌, ◌≡◌, refl, arith}
use enji_guard_cli.StateMachine.{
  RotationState, ready, reserved, requested, rejected, outcome_unknown, RotationEvent, begin,
  dispatch_begun, recover, persist_journal, dispatch_exchange, wait_for_terminal_revision,
  Transition, transition, recovery_dispatch_is_authorized, RotationOutcome,
}
use enji_guard_cli.StateMachine.Diagram.{
  dispatches, Run, stop, next, grants, outstanding, dispatch_needs_persisted_request,
  dispatches-le-grants, rejected_until_import,
}
use enji_guard_cli.StateMachine.Authorization.{InBudget, authorized_dispatch}
use enji_guard_cli.StateMachine.EventKeys.{rotation_event_key-injective}
use enji_guard_cli.Scenarios.Fixtures.{permit}

abbrev revision : String
revision = "r1"

abbrev outcome : RotationOutcome
outcome = RotationOutcome.rejected

abbrev refused : RotationState
refused = rejected "r1" "HTTP 401"

abbrev unknown : RotationState
unknown = outcome_unknown "r1" "HTTP 502"

abbrev dispatching : Transition
dispatching = record {
  state = requested "r1";
  effects = persist_journal (requested "r1") ∷ dispatch_exchange "r1" ∷ [];
}

abbrev reserving : Transition
reserving = record { state = reserved "r1"; effects = persist_journal (reserved "r1") ∷ [] }

dispatch_needs_persisted_request_example :
    (reserved "r1" ≡ reserved "r1")
    × (requested "r1" ≡ requested "r1")
    × (dispatching.effects ≡ persist_journal (requested "r1") ∷ dispatch_exchange "r1" ∷ [])
unfolding transition
dispatch_needs_persisted_request_example =
    dispatch_needs_persisted_request (reserved "r1") dispatch_begun dispatching refl (omega arith)

abbrev first_events : List RotationEvent
first_events = begin "r1" ∷ dispatch_begun ∷ []

first-Run :
    Run
      (ready "r1")
      first_events
      (requested "r1")
      (reserving.effects ++ (dispatching.effects ++ []))
unfolding transition
first-Run = next (begin "r1") reserving refl (next dispatch_begun dispatching refl stop)

dispatches-le-grants_example :
    dispatches (reserving.effects ++ (dispatching.effects ++ [])) + outstanding (requested "r1")
    ≤ outstanding (ready "r1") + grants first_events
dispatches-le-grants_example = dispatches-le-grants first-Run

abbrev refusing : Transition
refusing = record {
  state = rejected "r1" "HTTP 401";
  effects = wait_for_terminal_revision "r1" ∷ [];
}

refused-Run :
    Run
      (rejected "r1" "HTTP 401")
      (recover ∷ [])
      (rejected "r1" "HTTP 401")
      (refusing.effects ++ [])
unfolding transition
refused-Run = next recover refusing refl stop

rejected_until_import_example : (refused ≡ refused) × (dispatches (refusing.effects ++ []) ≡ 0)
rejected_until_import_example =
    rejected_until_import "r1" "HTTP 401" (rejected "r1" "HTTP 401") (recover ∷ [])
      (refusing.effects ++ []) refused-Run refl

authorized_dispatch_example :
    (src : String) × (why : String) × (unknown ≡ outcome_unknown src why)
    × (reserved "r1" ≡ reserved src)
    × InBudget permit
    × (2 ≤ permit.dispatch_count)
    × (permit.dispatch_count ≤ 6)
unfolding transition recovery_dispatch_is_authorized
authorized_dispatch_example =
    authorized_dispatch (outcome_unknown "r1" "HTTP 502") permit reserving refl

rotation_event_key-injective_example : (revision ≡ revision) × (outcome ≡ outcome)
rotation_event_key-injective_example =
    rotation_event_key-injective "r1" "r1" RotationOutcome.rejected RotationOutcome.rejected refl
