-- ===== src/Realize/Planner.antt =====
-- internal/realize/planner.go: the plan of a realization. The children hold its parts: the
-- decision for one target, and the loop over all of them.
pub mod Decide
pub mod Remove
pub mod Run
pub mod Spec
pub mod Places
pub mod Fragments
pub mod Ensure
pub mod Removal
pub mod Trace
pub mod Safety
pub mod UserContent
pub mod Ownership
pub mod NextLedger
pub mod Steady
mod Tests
mod PathTests
