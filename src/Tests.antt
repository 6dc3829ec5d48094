-- ===== src/Tests.antt =====
-- Tests of the definitions on concrete inputs, and the theorems at inputs that meet their
-- hypotheses.
mod Samples
mod States
mod Patches
mod Ledger
mod Evaluations
mod Phase1
mod Phase2
mod Commands
mod Disk
mod Executable
mod Mutations
mod Creations
