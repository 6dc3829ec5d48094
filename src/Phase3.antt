-- ===== src/Phase3.antt =====
-- phase3.py: one mutation of a fixture's repository, over the ledger and the workspace.
pub mod Data
pub mod Ledger
pub mod Methods
pub mod Mutate
pub mod Through
pub mod Kept
pub mod Stored
pub mod CrashRecovery
pub mod Eligible
pub mod Reports
pub mod Answers
pub mod Creates
