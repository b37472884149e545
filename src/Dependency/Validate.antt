-- ===== src/Dependency/Validate.antt =====
-- internal/dependency/model.go: when a project's declarations and locks are consistent. What
-- `realize.DecodeLedger` reads from YAML is the parameter `decode`.
pub mod Consistent
pub mod Whole
use agentic_context_registry.Base.{
  Bool, true, false, not, ◌&&◌, ◌||◌, List, [], ◌∷◌, Option, none, some, Bytes, codes, equal,
  is_empty, is_some, any, is_ok, if◌then◌else◌, Result, ok, err, ◌>>=◌, ◌>>◌, fail_if, has_prefix,
  map, to_lower_byte,
}
use agentic_context_registry.Realize.Model.{Ledger}
use agentic_context_registry.Realize.Ledger.{validate_ledger}
use agentic_context_registry.Dependency.Model.{
  ℤ, lt, is_zero, is_positive, current_schema_version, minimum_schema_version, Declaration, Hold,
  requested_local, latest, vendored, Project, Lockfile, State, LockedDependency, ResolutionKind,
  resolution_local, resolution_vendor, resolution_release, resolution_commit, unsupported, Scheme,
  scheme_vendor, scheme_github, DependencyError, unsupported_schema_version, realization_invalid,
  agent_unsupported, agent_duplicate, freshness_unsupported, declared_twice, locked_twice,
  lock_undeclared, lock_path_differs, lock_request_differs, lock_incomplete, local_kind_required,
  inconsistent_local, inconsistent_release, inconsistent_commit, inconsistent_vendor,
  kind_unsupported,
}
use agentic_context_registry.Dependency.Source.{
  source_scheme, validate_requested_for_scheme, validate_local_path, is_full_commit,
  is_content_hash, is_commit_request,
}
use agentic_context_registry.Dependency.Hold.{validate_hold, validate_lock_hold}

unfoldable pub resolved_reference : Declaration → Bytes
resolved_reference declaration = elim declaration.hold [
  | none ↦ declaration.requested
  | some hold ↦ hold.pin
]

is_adapter : Bytes → Bool
unfolding equal
is_adapter id =
    equal id (codes "claude-code") || equal id (codes "codex") || equal id (codes "cursor")

validate_agents : List Bytes → List Bytes → Result DependencyError (Unit {0})
unfolding is_adapter equal
validate_agents seen [] = ok tt
validate_agents seen (id ∷ ids) = do
  fail_if (not (is_adapter id)) agent_unsupported
  fail_if (any (equal id) seen) agent_duplicate
  validate_agents (id ∷ seen) ids

is_policy : Bytes → Bool
unfolding equal
is_policy policy =
    is_empty policy
    || equal policy (codes "outdated")
    || equal policy (codes "install")
    || equal policy (codes "none")

unfoldable pub validate_declaration : List Bytes → Declaration → Result DependencyError (Unit {0})
unfolding source_scheme validate_requested_for_scheme validate_local_path validate_hold equal
validate_declaration seen declaration = do
  scheme ← source_scheme declaration.source
  validate_requested_for_scheme scheme declaration.requested
  validate_local_path declaration.requested declaration.path
  validate_hold declaration.hold declaration.requested
  fail_if (any (equal declaration.source) seen) declared_twice

unfoldable pub validate_declarations :
    List Bytes → List Declaration → Result DependencyError (Unit {0})
unfolding validate_declaration
validate_declarations seen [] = ok tt
validate_declarations seen (d ∷ ds) = do
  validate_declaration seen d
  validate_declarations (d.source ∷ seen) ds

unfoldable pub find_declaration : List Declaration → Bytes → Option Declaration
unfolding equal
find_declaration [] source = none
find_declaration (d ∷ ds) source =
    if equal d.source source then some d else find_declaration ds source

unfoldable pub find_lock : List LockedDependency → Bytes → Option LockedDependency
unfolding equal
find_lock [] source = none
find_lock (l ∷ ls) source = if equal l.source source then some l else find_lock ls source

abbrev is_github : Scheme → Bool
is_github scheme_github = true
is_github scheme_vendor = false

abbrev is_local_kind : ResolutionKind → Bool
is_local_kind resolution_local = true
is_local_kind _ = false

-- The switch on the kind of a lock whose declaration resolves `resolved`.
unfoldable pub validate_kind :
    ResolutionKind → Scheme → Bytes → LockedDependency → Result DependencyError (Unit {0})
unfolding equal is_full_commit is_commit_request has_prefix to_lower_byte
validate_kind resolution_local scheme resolved l =
    fail_if
      (not (is_github scheme)
        || not (equal l.requested requested_local)
        || is_empty l.path
        || not (is_zero l.release_id)
        || not (is_empty l.tag)
        || not (is_empty l.commit)
        || is_some l.hold)
      inconsistent_local
validate_kind resolution_release scheme resolved l =
    fail_if
      (not (is_github scheme)
        || not (is_full_commit l.commit)
        || not (is_positive l.release_id)
        || is_empty l.tag
        || is_commit_request resolved
        || not (equal resolved latest) && not (equal l.tag resolved))
      inconsistent_release
validate_kind resolution_commit scheme resolved l =
    fail_if
      (not (is_github scheme)
        || not (is_full_commit l.commit)
        || not (is_zero l.release_id)
        || not (is_empty l.tag)
        || not (is_commit_request resolved)
        || not (has_prefix l.commit (map to_lower_byte resolved)))
      inconsistent_commit
validate_kind resolution_vendor scheme resolved l =
    fail_if
      (is_github scheme
        || not (equal l.requested vendored)
        || not (is_zero l.release_id)
        || not (is_empty l.tag)
        || not (is_empty l.commit)
        || is_some l.hold)
      inconsistent_vendor
validate_kind (unsupported _) scheme resolved l = err kind_unsupported

-- A lock against its declaration.
unfoldable pub validate_against :
    Scheme → Declaration → LockedDependency → Result DependencyError (Unit {0})
unfolding equal validate_requested_for_scheme is_content_hash validate_lock_hold validate_kind
    resolved_reference
validate_against scheme declaration l = do
  fail_if (not (equal l.path declaration.path)) lock_path_differs
  fail_if (not (equal l.requested declaration.requested)) lock_request_differs
  fail_if
      (not (is_ok (validate_requested_for_scheme scheme l.requested))
        || is_empty l.package_version
        || not (is_content_hash l.content_hash))
      lock_incomplete
  validate_lock_hold declaration.hold l.hold
  fail_if (equal l.requested requested_local && not (is_local_kind l.kind)) local_kind_required
  validate_kind l.kind scheme (resolved_reference declaration) l

validate_declared :
    Option Declaration → Scheme → LockedDependency → Result DependencyError (Unit {0})
unfolding validate_against
validate_declared none scheme l = err lock_undeclared
validate_declared (some declaration) scheme l = validate_against scheme declaration l

unfoldable pub validate_locks :
    List Declaration → List Bytes → List LockedDependency → Result DependencyError (Unit {0})
unfolding source_scheme equal find_declaration validate_declared
validate_locks declarations seen [] = ok tt
validate_locks declarations seen (l ∷ ls) = do
  scheme ← source_scheme l.source
  fail_if (any (equal l.source) seen) locked_twice
  validate_declared (find_declaration declarations l.source) scheme l
  validate_locks declarations (l.source ∷ seen) ls

abbrev is_supported_version : ℤ → Bool
is_supported_version v = not (lt v minimum_schema_version || lt current_schema_version v)

module _ (decode : Bytes → Option Ledger) where
  -- `realize.DecodeLedger`, as far as it fails.
  decode_ledger : Option Bytes → Result DependencyError (Unit {0})
  unfolding validate_ledger
  decode_ledger none = ok tt
  decode_ledger (some text) = elim (decode text) [
    | none ↦ err realization_invalid
    | some ledger ↦ fail_if (not (is_ok (validate_ledger ledger))) realization_invalid
  ]

  unfoldable pub validate_state : Project → Lockfile → Result DependencyError (Unit {0})
  unfolding decode_ledger validate_agents is_policy validate_declarations validate_locks
  validate_state project lock = do
    fail_if (not (is_supported_version project.schema_version)) unsupported_schema_version
    fail_if (not (is_supported_version lock.schema_version)) unsupported_schema_version
    decode_ledger lock.realization
    validate_agents [] project.agents
    fail_if (not (is_policy project.freshness)) freshness_unsupported
    validate_declarations [] project.dependencies
    validate_locks project.dependencies [] lock.dependencies
