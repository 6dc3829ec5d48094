-- ===== src/Workspace.antt =====
-- phase3_workspace.py: a repository of two files under a fixed root.
pub mod Files
pub mod Methods
pub mod Confined
