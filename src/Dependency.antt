-- ===== src/Dependency.antt =====
-- internal/dependency: the declared dependencies of a project, the locks they resolve to, and the
-- rollback holds between the two.
pub mod Model
pub mod Source
pub mod Hold
pub mod Downgrade
pub mod Migrate
pub mod Validate
pub mod Resolver
pub mod Policy
pub mod Resolution
mod Tests
