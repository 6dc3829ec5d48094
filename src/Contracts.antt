-- ===== src/Contracts.antt =====
-- contracts.py: the immutable, versioned contracts.
pub mod Checks
pub mod Freeze
pub mod Json
pub mod Identity
pub mod Paths
pub mod RunSpec
pub mod Candidate
pub mod Evaluation
pub mod Memory
pub mod Advice
pub mod Agreement
pub mod MutationReceipt
pub mod SandboxReceipt
pub mod TerminalReceipt
