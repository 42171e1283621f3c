-- ===== src/Scenarios.antt =====
-- The theorems at concrete inputs: a first refresh of a stored credential, its journal, what a
-- retry of it may do, and what an observer sees.
mod Fixtures
mod Machine
mod Journals
mod Retries
mod Observers
mod Refreshes
mod Ledgers
mod Starts
mod Improvements
mod Audits
mod Health
