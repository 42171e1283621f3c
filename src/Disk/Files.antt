-- ===== src/Disk/Files.antt =====
-- auth_session/store.py: loading and writing the three files. `write_atomic_json` and the
-- directory sync are one operation with one fate.
use enji_guard_cli.Prelude.{
  ℕ, ◌+◌, String, ◌⧺◌, Bool, Option, none, some, List, [], ◌∷◌, ◌=s◌, length, ◌==◌, if◌then◌else◌,
}
use enji_guard_cli.Json.{Json, object}
use enji_guard_cli.StateMachine.{RotationState}
use enji_guard_cli.Store.{
  Credential, cookie, bearer_token, StoredAuth, RotationAttempt, AuthLoadResult, auth_absent,
  auth_corrupt, auth_io_failure, auth_loaded, JournalLoadResult, journal_absent, journal_corrupt,
  journal_io_failure, OutcomeOutboxRecord, OutcomeOutboxLoadResult, outbox_absent, outbox_corrupt,
  outbox_io_failure, outbox_loaded, CasResult, cas_written, cas_superseded,
}
use enji_guard_cli.Store.AuthFile.{stored_auth, auth_fields, parse_auth}
use enji_guard_cli.Store.Journal.{journal_payload, parse_journal}
use enji_guard_cli.Store.Outbox.{parse_outbox, outbox_payload, enqueued, retained}
use enji_guard_cli.Disk.Monad.{
  File, absent, unreadable, not_utf8, not_json, json, Disk, Fate, done, lost, unsure, World,
  Session, os_error, type_error, Result, ok, err, M, ◌>>=◌, ◌>>◌, pure, raise, ask, lift,
}

abbrev pub auth_of : World → ℕ → File → AuthLoadResult
auth_of w now absent = auth_absent
auth_of w now (unreadable e) = auth_io_failure e
auth_of w now not_utf8 = auth_corrupt "credential file is not valid UTF-8"
auth_of w now (not_json e) = auth_corrupt ("invalid JSON: " ⧺ e)
auth_of w now (json j) = parse_auth w.iso now j

-- `load_auth`; the clock is read once, where the timestamp is validated
unfoldable pub load_auth : M AuthLoadResult
load_auth w s = (ok (auth_of w (w.now s.asked) s.disk.credential), record s { asked = s.asked + 1 })

abbrev pub journal_of : World → File → Option JournalLoadResult
journal_of w absent = some journal_absent
journal_of w (unreadable e) = some (journal_io_failure e)
journal_of w not_utf8 = some (journal_corrupt "refresh journal file is not valid UTF-8")
journal_of w (not_json e) = some (journal_corrupt ("invalid JSON: " ⧺ e))
journal_of w (json j) = parse_journal w.iso j

unfoldable pub load_journal : M JournalLoadResult
unfolding lift
load_journal w s = lift type_error (journal_of w s.disk.journal) w s

abbrev pub outbox_of : File → Option OutcomeOutboxLoadResult
outbox_of absent = some outbox_absent
outbox_of (unreadable e) = some (outbox_io_failure e)
outbox_of not_utf8 = some (outbox_corrupt "outcome outbox file is not valid UTF-8")
outbox_of (not_json e) = some (outbox_corrupt ("invalid JSON: " ⧺ e))
outbox_of (json j) = parse_outbox j

unfoldable pub load_outbox : M OutcomeOutboxLoadResult
unfolding lift
load_outbox w s = lift type_error (outbox_of s.disk.outbox) w s

abbrev pub by_fate : Fate → Session → Disk → Result (Unit {0}) × Session
by_fate done s after = (ok tt, record { disk = after; asked = s.asked + 1 })
by_fate lost s after = (err os_error, record s { asked = s.asked + 1 })
by_fate unsure s after = (err os_error, record { disk = after; asked = s.asked + 1 })

-- An operation on the files that succeeds, or raises with its effect visible or not.
unfoldable pub change : (Disk → Disk) → M (Unit {0})
change f w s = by_fate (w.fate s.asked) s (f s.disk)

abbrev pub put_credential : Json → Disk → Disk
put_credential j d = record d { credential = json j }

abbrev pub put_journal : Json → Disk → Disk
put_journal j d = record d { journal = json j }

abbrev pub drop_journal : Disk → Disk
drop_journal d = record d { journal = absent }

abbrev pub put_outbox : Json → Disk → Disk
put_outbox j d = record d { outbox = json j }

abbrev pub drop_outbox : Disk → Disk
drop_outbox d = record d { outbox = absent }

unfoldable pub write_auth_file : StoredAuth → M (Unit {0})
write_auth_file a = change (put_credential (object (auth_fields a)))

-- The payload of `ready` raises `TypeError` before anything is written.
unfoldable pub write_journal : RotationState → Bool → RotationAttempt → M (Unit {0})
write_journal state flag attempt = do
  p ← lift type_error (journal_payload state flag (some attempt))
  change (put_journal p)

-- A missing file is no error.
unfoldable pub delete_journal : M (Unit {0})
delete_journal = change drop_journal

abbrev pub records_or_raise : OutcomeOutboxLoadResult → M (List OutcomeOutboxRecord)
records_or_raise outbox_absent = pure []
records_or_raise (outbox_loaded rs) = pure rs
records_or_raise (outbox_corrupt _) = raise os_error
records_or_raise (outbox_io_failure _) = raise os_error

abbrev pub write_enqueued : Option (List OutcomeOutboxRecord) → M (Unit {0})
write_enqueued none = pure tt
write_enqueued (some rs) = change (put_outbox (outbox_payload rs))

unfoldable pub enqueue_outcome : OutcomeOutboxRecord → M (Unit {0})
enqueue_outcome r = do
  loaded ← load_outbox
  records ← records_or_raise loaded
  write_enqueued (enqueued records r)

abbrev pub write_retained : List OutcomeOutboxRecord → M (Unit {0})
write_retained [] = change drop_outbox
write_retained (r ∷ rs) = change (put_outbox (outbox_payload (r ∷ rs)))

unfoldable pub acknowledge_outcome : String → M (Unit {0})
acknowledge_outcome key = do
  loaded ← load_outbox
  records ← records_or_raise loaded
  (if length (retained key records) == length records
      then pure tt
      else write_retained (retained key records))

-- The replacement is stored under the given revision, at a new reading of the clock.
abbrev pub cas_current : String → String → String → StoredAuth → Credential → M CasResult
cas_current source header successor current (bearer_token _) =
    pure (cas_superseded (some current.revision))
cas_current source header successor current (cookie _) = do
  replacement ← ask (λ w n. stored_auth w.iso (w.now n) current.base_url (cookie header) successor)
  write_auth_file replacement
  pure (cas_written replacement)

abbrev pub cas_loaded : String → String → String → AuthLoadResult → M CasResult
cas_loaded source header successor (auth_loaded current) =
    if current.revision =s source
    then cas_current source header successor current current.credential
    else pure (cas_superseded (some current.revision))
cas_loaded source header successor _ = pure (cas_superseded none)

unfoldable pub cas_replace_cookie : String → String → String → M CasResult
cas_replace_cookie source header successor = do
  loaded ← load_auth
  cas_loaded source header successor loaded
