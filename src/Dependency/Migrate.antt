-- ===== src/Dependency/Migrate.antt =====
-- internal/dependency/migrate.go: loaded state is stamped with the oldest schema version that can
-- express it, and refused where its own stamp is older than a feature that it uses.
pub mod Stamped
use agentic_context_registry.Base.{
  Bool, true, false, ◌&&◌, ◌||◌, List, [], ◌∷◌, Option, none, some, Bytes, codes, equal, is_empty,
  is_some, any, if◌then◌else◌, Result, ok, err, ◌>>=◌, ◌>>◌, fail_if, not,
}
use agentic_context_registry.Dependency.Model.{
  ℤ, lt, current_schema_version, minimum_schema_version, baseline_schema_version, Declaration,
  hold_schema_version, vendor_schema_version, shared_skills_schema_version, local_schema_version,
  requested_local, vendored, Project, Lockfile, State, LockedDependency, ResolutionKind,
  resolution_local, resolution_vendor, Scheme, scheme_vendor, DependencyError,
  unsupported_schema_version, feature_under_version,
}
use agentic_context_registry.Dependency.Source.{source_scheme}

-- The newest feature that a file uses.
pub data Feature : Type 0 where
  feature_none feature_hold feature_vendor feature_shared_skills feature_local : Feature

-- The first version with the feature; without any, the baseline.
abbrev pub required_version : Feature → ℤ
required_version feature_none = baseline_schema_version
required_version feature_hold = hold_schema_version
required_version feature_vendor = vendor_schema_version
required_version feature_shared_skills = shared_skills_schema_version
required_version feature_local = local_schema_version

abbrev pub is_feature : Feature → Bool
is_feature feature_none = false
is_feature _ = true

unfoldable pub migrate_schema_version : ℤ → Feature → Result DependencyError ℤ
migrate_schema_version version feature = do
  fail_if (lt version minimum_schema_version || lt current_schema_version version)
      unsupported_schema_version
  fail_if (is_feature feature && lt version (required_version feature)) feature_under_version
  ok (required_version feature)

abbrev is_vendor_scheme : Result DependencyError Scheme → Bool
is_vendor_scheme (ok scheme_vendor) = true
is_vendor_scheme _ = false

abbrev is_vendor_kind : ResolutionKind → Bool
is_vendor_kind resolution_vendor = true
is_vendor_kind _ = false

abbrev is_local_kind : ResolutionKind → Bool
is_local_kind resolution_local = true
is_local_kind _ = false

pub is_local_declaration : Declaration → Bool
unfolding equal
is_local_declaration d = equal d.requested requested_local || not (is_empty d.path)

is_vendor_declaration : Declaration → Bool
unfolding equal source_scheme
is_vendor_declaration d = is_vendor_scheme (source_scheme d.source) || equal d.requested vendored

is_local_lock : LockedDependency → Bool
unfolding equal
is_local_lock l = is_local_kind l.kind || equal l.requested requested_local || not (is_empty l.path)

is_vendor_lock : LockedDependency → Bool
unfolding equal source_scheme
is_vendor_lock l =
    is_vendor_scheme (source_scheme l.source) || equal l.requested vendored || is_vendor_kind l.kind

unfoldable pub project_feature : Project → Feature
unfolding is_local_declaration is_vendor_declaration
project_feature project =
    if any is_local_declaration project.dependencies
    then feature_local
    else if project.shared_skills
    then feature_shared_skills
    else if any is_vendor_declaration project.dependencies
    then feature_vendor
    else if any (λ d. is_some d.hold) project.dependencies
    then feature_hold
    else feature_none

unfoldable pub lock_feature : Lockfile → Feature
unfolding is_local_lock is_vendor_lock
lock_feature lock =
    if any is_local_lock lock.dependencies
    then feature_local
    else if any is_vendor_lock lock.dependencies
    then feature_vendor
    else if any (λ l. is_some l.hold) lock.dependencies
    then feature_hold
    else feature_none

unfoldable pub migrate_state : State → Result DependencyError State
unfolding migrate_schema_version project_feature lock_feature
migrate_state state = do
  project_version ←
      migrate_schema_version state.project.schema_version (project_feature state.project)
  lock_version ← migrate_schema_version state.lock.schema_version (lock_feature state.lock)
  ok (record {
    project = record state.project { schema_version = project_version };
    lock = record state.lock { schema_version = lock_version };
  })
