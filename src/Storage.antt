-- ===== src/Storage.antt =====
-- storage.py: the run ledger.
pub mod Tables
pub mod Monad
pub mod State
pub mod Reads
pub mod Runs
pub mod Rows
pub mod Memories
pub mod Calls
pub mod Evidence
pub mod Attempts
pub mod Transition
