-- ===== src/Dependency/Migrate/Stamped.antt =====
-- What a migration leaves.
use agentic_context_registry.Base.{true, false, ok, ◌≡◌}
use agentic_context_registry.Dependency.Model.{ℤ, lt, State}
use agentic_context_registry.Dependency.Migrate.{
  required_version, is_feature, project_feature, lock_feature, migrate_state,
}

abbrev stamped : State → ℤ → ℤ → State
stamped state p l = record {
  project = record state.project { schema_version = p };
  lock = record state.lock { schema_version = l };
}

-- What a migrated state is to the one before.
pub record IsStamped (state next : State) : Type 0 where
  pub project_version :
      next.project.schema_version ≡ required_version (project_feature state.project)
  pub lock_version : next.lock.schema_version ≡ required_version (lock_feature state.lock)
  pub project_kept :
      next.project ≡ record state.project { schema_version = next.project.schema_version }
  pub lock_kept : next.lock ≡ record state.lock { schema_version = next.lock.schema_version }
  pub project_had :
      is_feature (project_feature state.project) ≡ true
      → lt state.project.schema_version next.project.schema_version ≡ false
  pub lock_had :
      is_feature (lock_feature state.lock) ≡ true
      → lt state.lock.schema_version next.lock.schema_version ≡ false
  pub settled : migrate_state next ≡ ok next
