-- ===== src/Store/Outbox/Laws.antt =====
-- The outbox of terminal outcomes: its file is read back, its keys stay unique, an enqueued record
-- is there until it is acknowledged, and an acknowledgement removes its own key only.
use Prim.Native.String.{◌∷◌ as ◌◂◌, [] as empty}
use text.Mathlib.TextLemmas.{nil-append, cons-append}
use mathlib.Core.List.{append-nil, append_assoc}
use enji_guard_cli.Json.{text as json_text, get}
use enji_guard_cli.Prelude.{
  starts_with, ap, ◌∙◌, refl, starts_with-append, =s_iff, =s_refl, Bool-cases, inl, inr, String,
  ◌⧺◌, true, false, some, List, [], ◌∷◌, ◌++◌, ◌=s◌, ◌≡◌, arith,
}
use enji_guard_cli.StateMachine.{RotationOutcome, rotation_event_key, outcome_text}
use enji_guard_cli.Store.{OutcomeOutboxRecord, outbox_loaded}
use enji_guard_cli.Store.Outbox.{
  with_key, ends_with, parse_outbox_record, record_json, has_key, parse_records, record_items,
  parse_outbox, outbox_payload,
}

ends_with_refl : (t : String) → ends_with t t ≡ true
unfolding ends_with
ends_with_refl empty = refl
ends_with_refl (c ◂ s) = rw =s_refl

ends_with-append : (u s t : String) → ends_with s t ≡ true → ends_with (u ⧺ s) t ≡ true
unfolding ends_with
ends_with-append empty s t h = rw nil-append h
ends_with-append (c ◂ u) s t h = rw cons-append (ground (arith, ends_with-append u s t h))

-- The key is that of the record's outcome, for some revision.
abbrev pub IsKeyed : OutcomeOutboxRecord → Type 0
IsKeyed r = (src : String) × (r.event_key ≡ rotation_event_key src r.outcome)

abbrev pub AllKeyed : List OutcomeOutboxRecord → Type 0
AllKeyed [] = Unit
AllKeyed (r ∷ rs) = IsKeyed r × AllKeyed rs

-- No key of the records is among those seen, nor twice in the records.
abbrev pub Fresh : List OutcomeOutboxRecord → List OutcomeOutboxRecord → Type 0
Fresh seen [] = Unit
Fresh seen (r ∷ rs) = (has_key r.event_key seen ≡ false) × Fresh (seen ++ r ∷ []) rs

-- What the file may hold: keyed records with different keys.
pub record IsOutbox (rs : List OutcomeOutboxRecord) : Type 0 where
  pub keyed : AllKeyed rs
  pub unique : Fresh [] rs

key_starts :
    (src : String) (o : RotationOutcome)
    → starts_with (rotation_event_key src o) "auth-rotation:" ≡ true
unfolding rotation_event_key
key_starts src o = starts_with-append "auth-rotation:" _

key_ends :
    (src : String) (o : RotationOutcome)
    → ends_with (rotation_event_key src o) (":" ⧺ outcome_text o) ≡ true
unfolding rotation_event_key
key_ends src o = ends_with-append "auth-rotation:" _ _ (ends_with-append src _ _ (ends_with_refl _))

not_empty_of_starts : (s : String) → starts_with s "auth-rotation:" ≡ true → (s =s "") ≡ false
not_empty_of_starts s h = elim (Bool-cases (s =s "")) [
  | inl e ↦ absurd (cc (ap (λ v. starts_with v "auth-rotation:") ((=s_iff s "").0 e)))
  | inr e ↦ e
]

key_read :
    (o : RotationOutcome) (key : String)
    → starts_with key "auth-rotation:" ≡ true
    → ends_with key (":" ⧺ outcome_text o) ≡ true
    → with_key (json_text (outcome_text o)) (json_text key)
      ≡ some (some (record { outcome = o; event_key = key }))
key_read RotationOutcome.rotated key s e = rw (not_empty_of_starts key s) (rw s (rw e))
key_read RotationOutcome.rejected key s e = rw (not_empty_of_starts key s) (rw s (rw e))
key_read RotationOutcome.outcome_unknown key s e = rw (not_empty_of_starts key s) (rw s (rw e))

record_round_trip :
    (r : OutcomeOutboxRecord) → IsKeyed r → parse_outbox_record (record_json r) ≡ some (some r)
unfolding parse_outbox_record record_json get
record_round_trip r (src, e) =
    key_read r.outcome r.event_key (rw e (key_starts src r.outcome)) (rw e (key_ends src r.outcome))

-- The loop over the printed records collects them behind those seen.
records_round_trip :
    (seen rs : List OutcomeOutboxRecord)
    → AllKeyed rs
    → Fresh seen rs
    → parse_records (record_items rs) seen ≡ some (outbox_loaded (seen ++ rs))
unfolding parse_records record_items
records_round_trip seen [] k f = rw append-nil
records_round_trip seen (r ∷ rs) k f = rw (record_round_trip r k.0) (
    rw f.0 (
      records_round_trip (seen ++ r ∷ []) rs k.1 f.1
      ∙ ap (λ l. some (outbox_loaded l)) (append_assoc seen (r ∷ []) rs)))

-- An outbox of keyed records with different keys is read back as it was written.
pub outbox_round_trip :
    (rs : List OutcomeOutboxRecord)
    → IsOutbox rs
    → parse_outbox (outbox_payload rs) ≡ some (outbox_loaded rs)
unfolding parse_outbox outbox_payload get
outbox_round_trip rs v = records_round_trip [] rs v.keyed v.unique
