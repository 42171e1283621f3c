-- ===== src/Coordinator.antt =====
-- src/enji_guard_cli/auth_session/coordinator.py: the effects of a refresh on the files, under the
-- file lock. The children are the outbox of terminal outcomes, the preparation of a dispatch with
-- the recovery of what an earlier one left, the commit of a response, and the theorems on these.
pub mod Outcomes
pub mod Prepare
pub mod Response
pub mod Commit
pub mod Rules
pub mod Given
pub mod Safety
pub mod Permits
pub mod Announcement
pub mod Failures
pub mod Custody
pub mod Wait
pub mod Refresh
pub mod Once
pub mod Resent
pub mod Startup
pub mod Retained
