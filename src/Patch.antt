-- ===== src/Patch.antt =====
-- phase4_patch.py: the closed unified-diff contract. A text is a native string, a line a string
-- with no line boundary.
pub mod Lines
pub mod Parse
pub mod Apply
pub mod Text
