-- ===== src/Coordinator/Failures.antt =====
-- auth_session/store.py and the recording of outcomes in auth_session/coordinator.py: which errors
-- they may raise.
use enji_guard_cli.Prelude.{
  String, Bool, true, false, Option, none, some, List, [], ◌∷◌, length, ◌==◌,
}
use enji_guard_cli.StateMachine.{RotationState, Terminal}
use enji_guard_cli.Store.{
  StoredAuth, RotationAttempt, OutcomeOutboxRecord, OutcomeOutboxLoadResult, outbox_absent,
  outbox_corrupt, outbox_io_failure, outbox_loaded,
}
use enji_guard_cli.Store.Outbox.{retained, enqueued}
use enji_guard_cli.Disk.{
  Fate, done, lost, unsure, Disk, Session, World, Error, type_error, post_dispatch_persistence, M,
  ◌>>=◌, ◌>>◌, lift,
}
use enji_guard_cli.Disk.Files.{
  change, by_fate, load_auth, load_journal, load_outbox, write_auth_file, write_journal,
  delete_journal, records_or_raise, write_enqueued, enqueue_outcome, write_retained,
  acknowledge_outcome, put_journal, journal_of, outbox_of,
}
use enji_guard_cli.Coordinator.Outcomes.{
  deliver_outbox_record, acknowledge_if, drain_records, drain_loaded, drain_outbox, contains_loaded,
  outbox_contains, delete_unless, settle_terminal, enqueue_terminal, record_terminal_outcome,
}
use enji_guard_cli.Coordinator.Rules.{
  Holds, Ensures, Anything, ensures_bind, ensures_with, ensures_pure, ensures_raise, ensures_ask,
  ensures_lift, ensures_if,
}

-- An error of the files or of the state, which carries no successor.
unfoldable pub IsLocal : Error → Type 0
IsLocal (post_dispatch_persistence _ _) = ⊥
IsLocal _ = Unit {0}

abbrev pub Plain : {A : Type 0} → M A → Type 0
Plain m = Ensures Anything IsLocal m

changed : (f : Fate) (s : Session) (after : Disk) → Holds Anything IsLocal (by_fate f s after)
unfolding IsLocal
changed done s after = tt
changed lost s after = tt
changed unsure s after = tt

change-Plain : (f : Disk → Disk) → Plain (change f)
unfolding change
change-Plain f = record { at = λ w s. changed (w.fate s.asked) s (f s.disk) }

pub lift_then :
    {A B : Type 0} (e : Error) (a : Option A) (f : A → M B)
    → IsLocal e
    → ((x : A) → Plain (f x))
    → Plain (lift e a >>= f)
lift_then e a f h k = ensures_with _ f (ensures_lift e a h) (λ x _. k x)

pub write_journal-Plain :
    (st : RotationState) (b : Bool) (a : RotationAttempt) → Plain (write_journal st b a)
unfolding write_journal IsLocal
write_journal-Plain st b a = lift_then _ _ _ tt (λ p. change-Plain (put_journal p))

pub write_auth-Plain : (a : StoredAuth) → Plain (write_auth_file a)
unfolding write_auth_file
write_auth-Plain a = change-Plain _

delete_journal-Plain : Plain delete_journal
unfolding delete_journal
delete_journal-Plain = change-Plain _

pub load_auth-Plain : Plain load_auth
unfolding load_auth
load_auth-Plain = record { at = λ w s. tt }

lifted :
    {A : Type 0} (e : Error) (a : Option A) (w : World) (s : Session)
    → IsLocal e
    → Holds {A = A} Anything IsLocal (lift e a w s)
unfolding lift
lifted e none w s h = h
lifted e (some a) w s h = tt

pub load_journal-Plain : Plain load_journal
unfolding load_journal lift IsLocal
load_journal-Plain = record { at = λ w s. lifted type_error (journal_of w s.disk.journal) w s tt }

load_outbox-Plain : Plain load_outbox
unfolding load_outbox lift IsLocal
load_outbox-Plain = record { at = λ w s. lifted type_error (outbox_of s.disk.outbox) w s tt }

records-Plain : (r : OutcomeOutboxLoadResult) → Plain (records_or_raise r)
unfolding IsLocal
records-Plain outbox_absent = ensures_pure _ (λ s. tt)
records-Plain (outbox_loaded rs) = ensures_pure _ (λ s. tt)
records-Plain (outbox_corrupt _) = ensures_raise _ tt
records-Plain (outbox_io_failure _) = ensures_raise _ tt

write_enqueued-Plain : (rs : Option (List OutcomeOutboxRecord)) → Plain (write_enqueued rs)
write_enqueued-Plain none = ensures_pure _ (λ s. tt)
write_enqueued-Plain (some rs) = change-Plain _

enqueue-Plain : (r : OutcomeOutboxRecord) → Plain (enqueue_outcome r)
unfolding enqueue_outcome
enqueue-Plain r = ensures_bind load_outbox _ load_outbox-Plain (λ l.
    ensures_bind (records_or_raise l) _ (records-Plain l)
      (λ rs. write_enqueued-Plain (enqueued rs r)))

write_retained-Plain : (rs : List OutcomeOutboxRecord) → Plain (write_retained rs)
write_retained-Plain [] = change-Plain _
write_retained-Plain (r ∷ rs) = change-Plain _

acknowledge-Plain : (key : String) → Plain (acknowledge_outcome key)
unfolding acknowledge_outcome
acknowledge-Plain key = ensures_bind load_outbox _ load_outbox-Plain (λ l.
    ensures_bind (records_or_raise l) _ (records-Plain l) (λ rs.
      ensures_if (length (retained key rs) == length rs) (λ _. ensures_pure _ (λ s. tt))
        (λ _. write_retained-Plain _)))

acknowledge_if-Plain : (b : Bool) (r : OutcomeOutboxRecord) → Plain (acknowledge_if b r)
acknowledge_if-Plain true r = acknowledge-Plain r.event_key
acknowledge_if-Plain false r = ensures_pure _ (λ s. tt)

drain_records-Plain : (rs : List OutcomeOutboxRecord) → Plain (drain_records rs)
unfolding drain_records ◌>>◌ deliver_outbox_record
drain_records-Plain [] = ensures_pure _ (λ s. tt)
drain_records-Plain (r ∷ rs) = ensures_bind (deliver_outbox_record r) _ (ensures_ask _) (λ b.
    ensures_bind (acknowledge_if b r) _ (acknowledge_if-Plain b r) (λ u. drain_records-Plain rs))

drain_loaded-Plain : (l : OutcomeOutboxLoadResult) → Plain (drain_loaded l)
unfolding IsLocal
drain_loaded-Plain outbox_absent = ensures_pure _ (λ s. tt)
drain_loaded-Plain (outbox_loaded rs) = drain_records-Plain rs
drain_loaded-Plain (outbox_corrupt _) = ensures_raise _ tt
drain_loaded-Plain (outbox_io_failure _) = ensures_raise _ tt

drain-Plain : Plain drain_outbox
unfolding drain_outbox
drain-Plain = ensures_bind load_outbox _ load_outbox-Plain drain_loaded-Plain

contains-Plain : (key : String) (l : OutcomeOutboxLoadResult) → Plain (contains_loaded key l)
unfolding IsLocal
contains-Plain key outbox_absent = ensures_pure _ (λ s. tt)
contains-Plain key (outbox_loaded rs) = ensures_pure _ (λ s. tt)
contains-Plain key (outbox_corrupt _) = ensures_raise _ tt
contains-Plain key (outbox_io_failure _) = ensures_raise _ tt

outbox_contains-Plain : (key : String) → Plain (outbox_contains key)
unfolding outbox_contains
outbox_contains-Plain key = ensures_bind load_outbox _ load_outbox-Plain (contains-Plain key)

delete_unless-Plain : (b : Bool) → Plain (delete_unless b)
delete_unless-Plain true = ensures_pure _ (λ s. tt)
delete_unless-Plain false = delete_journal-Plain

settle-Plain : (t : Terminal) → Plain (settle_terminal t)
settle-Plain (Terminal.rotated src header next) =
    ensures_bind (outbox_contains _) _ (outbox_contains-Plain _) delete_unless-Plain
settle-Plain (Terminal.rejected src why) = ensures_pure _ (λ s. tt)
settle-Plain (Terminal.outcome_unknown src why) = ensures_pure _ (λ s. tt)

enqueue_terminal-Plain :
    (t : Terminal) (a : RotationAttempt) (b : Bool) → Plain (enqueue_terminal t a b)
unfolding ◌>>◌
enqueue_terminal-Plain t a true = ensures_pure _ (λ s. tt)
enqueue_terminal-Plain t a false =
    ensures_bind (enqueue_outcome _) _ (enqueue-Plain _) (λ u. write_journal-Plain _ true a)

pub record-Plain :
    (t : Terminal) (a : RotationAttempt) (b : Bool) → Plain (record_terminal_outcome t a b)
unfolding record_terminal_outcome ◌>>◌
record-Plain t a b =
    ensures_bind (enqueue_terminal t a b) _ (enqueue_terminal-Plain t a b)
      (λ u. ensures_bind drain_outbox _ drain-Plain (λ v. settle-Plain t))
