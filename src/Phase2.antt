-- ===== src/Phase2.antt =====
-- phase2.py: up to three steps with a persistent memory and one supervisor.
pub mod Payload
pub mod Refresh
pub mod Methods
pub mod Fresh
pub mod Answers
pub mod Recovers
pub mod Advises
pub mod OneCall
pub mod Heard
pub mod CrashRecovery
pub mod Through
pub mod Supervise
