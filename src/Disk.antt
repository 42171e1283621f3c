-- ===== src/Disk.antt =====
-- The three files of auth_session/store.py (credential, refresh journal, outcome outbox) and the
-- operations on them, as actions that may raise. What the program does not decide comes from a
-- `World`, which answers by the number of the question: the clock, whether a file operation fails
-- and whether its effect is then visible, fresh identifiers, processes and the outcome sink.
mod Monad
pub use Monad.{
  File, absent, unreadable, not_utf8, not_json, json, Disk, Fate, done, lost, unsure, World,
  Session, Error, os_error, type_error, invalid_transition_error, assertion_error, enji_error,
  terminal_revision_required, recovery_required, post_dispatch_persistence, Result, ok, err, M,
}
unfoldable pub use Monad.{continue, ◌>>=◌, ◌>>◌, pure, raise, ask, lift}
pub mod Files
