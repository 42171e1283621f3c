-- ===== src/StateMachine/EventKeys.antt =====
-- `rotation_event_key` of auth_session/state_machine.py identifies the outcome that it is made of,
-- whatever the revision holds: also where a revision has a colon or an outcome's name in it.
use Prim.Native.Char.{code}
use Prim.Native.String.{◌∷◌ as ◌◂◌, [] as empty}
use text.Mathlib.TextLemmas.{append_cancel_left, append_cancel_right, nil-append, cons-append}
use enji_guard_cli.Prelude.{ℕ, String, ◌⧺◌, ◌≡◌, refl, ap, sym, ◌∙◌, arith}
use enji_guard_cli.StateMachine.{
  RotationOutcome, rotated, rejected, outcome_unknown, outcome_text, rotation_event_key,
}

abbrev Window : Type 0
Window = ℕ × ℕ × ℕ × ℕ

-- The last four characters of a text read after the window.
last_four : Window → String → Window
last_four w empty = w
last_four (a, b, c, d) (x ◂ s) = last_four (b, c, d, code x) s

last_four-append : (w : Window) (s t : String) → last_four w (s ⧺ t) ≡ last_four (last_four w s) t
unfolding last_four
last_four-append w empty t = rw nil-append
last_four-append (a, b, c, d) (x ◂ s) t = rw cons-append (last_four-append (b, c, d, code x) s t)

-- The last four characters of an outcome's name, which are its own.
abbrev ending : RotationOutcome → Window
ending o = last_four (0, 0, 0, 0) (outcome_text o)

-- The fourth character from the end, by which the names differ.
abbrev mark : RotationOutcome → ℕ
mark rotated = b'a'
mark rejected = b'c'
mark outcome_unknown = b'n'

last_four-key :
    (src : String) (o : RotationOutcome)
    → last_four (0, 0, 0, 0) (rotation_event_key src o) ≡ ending o
unfolding last_four rotation_event_key
last_four-key src rotated =
    rw (last_four-append _ "auth-rotation:" _) (rw (last_four-append _ src _) refl)
last_four-key src rejected =
    rw (last_four-append _ "auth-rotation:" _) (rw (last_four-append _ src _) refl)
last_four-key src outcome_unknown =
    rw (last_four-append _ "auth-rotation:" _) (rw (last_four-append _ src _) refl)

first : Window → ℕ
first (a, b, c, d) = a

first-ending : (o : RotationOutcome) → first (ending o) ≡ mark o
unfolding first last_four
first-ending rotated = refl
first-ending rejected = refl
first-ending outcome_unknown = refl

mark-injective : (o p : RotationOutcome) → mark o ≡ mark p → o ≡ p
mark-injective o p h = ground arith

ending-injective : (o p : RotationOutcome) → ending o ≡ ending p → o ≡ p
ending-injective o p h = mark-injective o p (sym (first-ending o) ∙ ap first h ∙ first-ending p)

outcome-eq :
    (s t : String) (o p : RotationOutcome) → rotation_event_key s o ≡ rotation_event_key t p → o ≡ p
outcome-eq s t o p h =
    ending-injective o p
      (sym (last_four-key s o) ∙ ap (last_four (0, 0, 0, 0)) h ∙ last_four-key t p)

-- Two outcomes share an event key only if they are the same outcome of the same revision.
pub rotation_event_key-injective :
    (s t : String) (o p : RotationOutcome)
    → rotation_event_key s o ≡ rotation_event_key t p
    → (s ≡ t) × (o ≡ p)
unfolding rotation_event_key
rotation_event_key-injective s t o p h =
    let e = outcome-eq s t o p h in
    let h' : rotation_event_key s p ≡ rotation_event_key t p =
      ap (rotation_event_key s) (sym e) ∙ h in
    (
      append_cancel_right s t (":" ⧺ outcome_text p) (
          append_cancel_left "auth-rotation:" (s ⧺ (":" ⧺ outcome_text p))
            (t ⧺ (":" ⧺ outcome_text p)) h'),
      e,
    )
