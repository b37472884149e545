-- ===== src/Realize/Journal.antt =====
-- internal/realize/journal.go: transactions over the files of a project, and their recovery.
pub mod Store
pub mod Parents
pub mod Manifest
pub mod Machine
pub mod Recovery
pub mod Apply
pub mod Run
pub mod TestProject
mod Tests
