-- ===== src/StateMachine/Diagram.antt =====
-- What `transition` of auth_session/state_machine.py allows along any sequence of events: which
-- effects stand before a network dispatch, which revision is concerned, and what ends a generation.
use enji_guard_cli.Prelude.{
  inl, inr, ◌||◌, ℕ, ◌+◌, ◌≤◌, ◌<◌, String, Bool, true, false, List, [], ◌∷◌, ◌++◌, ◌≡◌, refl,
  arith, ◌⊎◌,
}
use enji_guard_cli.StateMachine.{
  rejected, delete_journal, RotationState, ready, reserved, requested, RotationEvent, begin,
  imported, authorize_recovery_dispatch, Effect, persist_journal, dispatch_exchange, Transition,
  moved, transition, source_revision,
}

abbrev is_dispatch : Effect → ℕ
is_dispatch (dispatch_exchange _) = 1
is_dispatch _ = 0

-- The number of network dispatches that a list of effects asks for.
abbrev pub dispatches : List Effect → ℕ
dispatches [] = 0
dispatches (e ∷ es) = is_dispatch e + dispatches es

dispatches-append : (xs ys : List Effect) → dispatches (xs ++ ys) ≡ dispatches xs + dispatches ys
dispatches-append [] ys = omega arith
dispatches-append (x ∷ xs) ys = omega (arith, dispatches-append xs ys)

-- A transition that asks for a dispatch leads from `reserved` to `requested` of one revision, and
-- asks for the journal of `requested` to be persisted first.
pub dispatch_needs_persisted_request :
    (s : RotationState) (e : RotationEvent) (t : Transition)
    → transition s e ≡ moved t
    → 0 < dispatches t.effects
    → let src = source_revision s in
      (s ≡ reserved src)
      × (t.state ≡ requested src)
      × (t.effects ≡ persist_journal (requested src) ∷ dispatch_exchange src ∷ [])
unfolding transition
dispatch_needs_persisted_request s e t h d = ground arith

abbrev is_import : RotationEvent → Bool
is_import (imported _) = true
is_import _ = false

abbrev is_begin : RotationEvent → Bool
is_begin (begin _) = true
is_begin _ = false

-- Apart from an import, and from `begin` which names its own revision, a transition stays with
-- the revision that it is about.
pub source_revision-transition :
    (s : RotationState) (e : RotationEvent) (t : Transition)
    → transition s e ≡ moved t
    → is_import e ≡ false
    → is_begin e ≡ false
    → source_revision t.state ≡ source_revision s
unfolding transition
source_revision-transition s e t h i b = ground arith

-- `Run s es u fx`: the events `es`, each valid where it comes, lead from `s` to `u` and ask for the
-- effects `fx`, in order.
pub data Run : RotationState → List RotationEvent → RotationState → List Effect → Type 0 where
  stop : {s : RotationState} → Run s [] s []
  next :
      {s u : RotationState} {es : List RotationEvent} {fx : List Effect} (e : RotationEvent)
      (t : Transition)
      → transition s e ≡ moved t
      → Run t.state es u fx
      → Run s (e ∷ es) u (t.effects ++ fx)

-- The events that a caller needs for a dispatch: a `begin`, or a budgeted authorization.
abbrev is_grant : RotationEvent → ℕ
is_grant (begin _) = 1
is_grant (authorize_recovery_dispatch _) = 1
is_grant _ = 0

abbrev pub grants : List RotationEvent → ℕ
grants [] = 0
grants (e ∷ es) = is_grant e + grants es

-- A reservation is one dispatch that is granted and not yet made.
abbrev pub outstanding : RotationState → ℕ
outstanding (reserved _) = 1
outstanding _ = 0

dispatches_step :
    (s : RotationState) (e : RotationEvent) (t : Transition)
    → transition s e ≡ moved t
    → dispatches t.effects + outstanding t.state ≤ outstanding s + is_grant e
unfolding transition
dispatches_step s e t h = ground arith

-- Along any sequence of valid events, network dispatches are at most the grants: a reservation held
-- at the start, the `begin`s and the authorizations.
pub dispatches-le-grants :
    {s u : RotationState} {es : List RotationEvent} {fx : List Effect}
    → Run s es u fx
    → dispatches fx + outstanding u ≤ outstanding s + grants es
dispatches-le-grants stop = omega arith
dispatches-le-grants (next {s} {es = es} {fx = fx} e t h r) =
    omega (arith, dispatches_step s e t h, dispatches-append t.effects fx, dispatches-le-grants r)

abbrev imports : List RotationEvent → Bool
imports [] = false
imports (e ∷ es) = is_import e || imports es

rejected_step :
    (src why : String) (e : RotationEvent) (t : Transition)
    → transition (rejected src why) e ≡ moved t
    → is_import e ≡ false
    → (t.state ≡ rejected src why) × (dispatches t.effects ≡ 0)
unfolding transition
rejected_step src why e t h i = ground arith

rejected-Run :
    {s u : RotationState} {es : List RotationEvent} {fx : List Effect} (src why : String)
    → Run s es u fx
    → s ≡ rejected src why
    → imports es ≡ false
    → (u ≡ rejected src why) × (dispatches fx ≡ 0)
rejected-Run src why stop e i = (e, refl)
rejected-Run src why (next {s} {es = es} {fx = fx} e t h r) p i =
    let (at, none_here) = rejected_step src why e t (rw (← p) h) (ground arith) in
    let (ends, none_later) = rejected-Run src why r at (ground arith) in
    (ends, omega (arith, none_here, none_later, dispatches-append t.effects fx))

-- A rejected generation is final: until an import, whatever valid events come, the state stays
-- rejected with the same reason, and no dispatch is asked for.
pub rejected_until_import :
    (src why : String) (u : RotationState) (es : List RotationEvent) (fx : List Effect)
    → Run (rejected src why) es u fx
    → imports es ≡ false
    → (u ≡ rejected src why) × (dispatches fx ≡ 0)
rejected_until_import src why u es fx r i = rejected-Run src why r refl i

-- An import is valid in every state: it makes its revision ready and, unless the state was ready
-- already, asks for nothing but the deletion of the journal.
pub import_supersedes :
    (s : RotationState) (r : String)
    → (t : Transition) × (transition s (imported r) ≡ moved t)
      × (t.state ≡ ready r)
      × ((s ≡ ready (source_revision s)) ⊎ (t.effects ≡ delete_journal ∷ []))
unfolding transition
import_supersedes (ready _) r = (_, refl, refl, inl refl)
import_supersedes _ r = (_, refl, refl, inr refl)
