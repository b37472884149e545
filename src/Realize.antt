-- ===== src/Realize.antt =====
-- internal/realize: ownership of the files that acr writes, and the plan of their changes.
pub mod Model
pub mod RealizationPath
pub mod Ledger
pub mod Filesystem
pub mod Git
pub mod Planner
pub mod Journal
pub mod Engine
