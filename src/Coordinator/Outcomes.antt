-- ===== src/Coordinator/Outcomes.antt =====
-- auth_session/coordinator.py: terminal outcomes and their delivery (`_record_terminal_outcome`,
-- `_drain_outbox`, `_outbox_contains`, `_deliver_outbox_record`, `_discard_rotation_state`), the
-- lock, and `_loaded_or_raise`. A sink that is missing or raises does not accept.
use enji_guard_cli.Prelude.{String, ◌⧺◌, Bool, true, false, List, [], ◌∷◌}
use enji_guard_cli.StateMachine.{
  RotationState, rotated, rejected, outcome_unknown, Terminal, terminal_state,
}
use enji_guard_cli.Store.{
  StoredAuth, RotationAttempt, AuthLoadResult, auth_absent, auth_corrupt, auth_unsupported,
  auth_io_failure, auth_clock_anomaly, auth_loaded, OutcomeOutboxRecord, OutcomeOutboxLoadResult,
  outbox_absent, outbox_corrupt, outbox_io_failure, outbox_loaded,
}
use enji_guard_cli.Store.Outbox.{outbox_record, has_key}
use enji_guard_cli.Disk.{Fate, done, Error, os_error, enji_error, M, ◌>>=◌, ◌>>◌, pure, raise, ask}
use enji_guard_cli.Disk.Files.{
  write_journal, delete_journal, enqueue_outcome, acknowledge_outcome, load_outbox,
}

module _ {A : Type 0} where
  abbrev pub if_taken : Fate → M A → M A
  if_taken done body = body
  if_taken _ body = raise os_error

  -- `with auth_file_lock(…)`: taking the lock may raise.
  unfoldable pub locked : M A → M A
  locked body = do taken ← ask (λ w n. w.fate n); if_taken taken body

-- The printed version of an unsupported file is left out of the message.
unfoldable pub loaded_or_raise : AuthLoadResult → M StoredAuth
loaded_or_raise (auth_loaded auth) = pure auth
loaded_or_raise auth_absent = raise (enji_error "AUTH_REQUIRED" "auth file does not exist")
loaded_or_raise (auth_clock_anomaly _) =
    raise (enji_error "AUTH_CLOCK_ANOMALY" "auth file imported_at is in the future")
loaded_or_raise (auth_corrupt detail) =
    raise (enji_error "AUTH_CORRUPT" ("auth file is corrupt: " ⧺ detail))
loaded_or_raise (auth_unsupported _) =
    raise (enji_error "AUTH_UNSUPPORTED" "auth file version is unsupported")
loaded_or_raise (auth_io_failure e) =
    raise (enji_error "AUTH_IO_FAILURE" ("read credential failed: " ⧺ e))

unfoldable pub deliver_outbox_record : OutcomeOutboxRecord → M Bool
deliver_outbox_record r = ask (λ w n. w.accepts n r)

abbrev pub acknowledge_if : Bool → OutcomeOutboxRecord → M (Unit {0})
acknowledge_if true r = acknowledge_outcome r.event_key
acknowledge_if false r = pure tt

unfoldable pub drain_records : List OutcomeOutboxRecord → M (Unit {0})
drain_records [] = pure tt
drain_records (r ∷ rs) = do
  accepted ← deliver_outbox_record r
  acknowledge_if accepted r
  drain_records rs

abbrev corrupt_outbox : String → Error
corrupt_outbox detail = enji_error "STORAGE" ("outcome outbox is corrupt: " ⧺ detail)

abbrev unread_outbox : String → Error
unread_outbox e = enji_error "STORAGE" ("read outcome outbox failed: " ⧺ e)

abbrev pub drain_loaded : OutcomeOutboxLoadResult → M (Unit {0})
drain_loaded (outbox_corrupt detail) = raise (corrupt_outbox detail)
drain_loaded (outbox_io_failure e) = raise (unread_outbox e)
drain_loaded outbox_absent = pure tt
drain_loaded (outbox_loaded records) = drain_records records

unfoldable pub drain_outbox : M (Unit {0})
drain_outbox = do loaded ← load_outbox; drain_loaded loaded

abbrev pub contains_loaded : String → OutcomeOutboxLoadResult → M Bool
contains_loaded key (outbox_corrupt detail) = raise (corrupt_outbox detail)
contains_loaded key (outbox_io_failure e) = raise (unread_outbox e)
contains_loaded key outbox_absent = pure false
contains_loaded key (outbox_loaded records) = pure (has_key key records)

unfoldable pub outbox_contains : String → M Bool
outbox_contains key = do loaded ← load_outbox; contains_loaded key loaded

abbrev pub delete_unless : Bool → M (Unit {0})
delete_unless true = pure tt
delete_unless false = delete_journal

-- A rotated journal is deleted once its outcome has left the outbox.
abbrev pub settle_terminal : Terminal → M (Unit {0})
settle_terminal (Terminal.rotated src header next) = do
  held ← outbox_contains (outbox_record (Terminal.rotated src header next)).event_key
  delete_unless held
settle_terminal (Terminal.rejected _ _) = pure tt
settle_terminal (Terminal.outcome_unknown _ _) = pure tt

abbrev pub enqueue_terminal : Terminal → RotationAttempt → Bool → M (Unit {0})
enqueue_terminal t attempt true = pure tt
enqueue_terminal t attempt false = do
  enqueue_outcome (outbox_record t)
  write_journal (terminal_state t) true attempt

unfoldable pub record_terminal_outcome : Terminal → RotationAttempt → Bool → M (Unit {0})
record_terminal_outcome t attempt outbox_enqueued = do
  enqueue_terminal t attempt outbox_enqueued
  drain_outbox
  settle_terminal t

abbrev pub enqueue_if_terminal : RotationState → Bool → M (Unit {0})
enqueue_if_terminal (rotated src header next) false =
    enqueue_outcome (outbox_record (Terminal.rotated src header next))
enqueue_if_terminal (rejected src why) false =
    enqueue_outcome (outbox_record (Terminal.rejected src why))
enqueue_if_terminal (outcome_unknown src why) false =
    enqueue_outcome (outbox_record (Terminal.outcome_unknown src why))
enqueue_if_terminal _ _ = pure tt

unfoldable pub discard_rotation_state : RotationState → Bool → M (Unit {0})
discard_rotation_state state outbox_enqueued = do
  enqueue_if_terminal state outbox_enqueued
  delete_journal
