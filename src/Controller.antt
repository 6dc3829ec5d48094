-- ===== src/Controller.antt =====
-- controller.py: one child step under the fixture of Phase 1.
pub mod Payload
pub mod Fixture
pub mod Steps
pub mod Cancel
pub mod Answers
pub mod StepAnswers
pub mod Through
pub mod Stripped
