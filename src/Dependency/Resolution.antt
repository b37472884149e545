-- ===== src/Dependency/Resolution.antt =====
-- internal/dependency/service.go: `resolveState`, the pass that gives each declaration its lock. The
-- local and vendored packages, which are read from the file system, are the fields of `Sources`.
pub mod Held
pub mod Pass
pub mod Barrier
pub mod Offline
use agentic_context_registry.Base.{
  Bool, true, false, not, ◌&&◌, ◌||◌, List, [], ◌∷◌, ◌++◌, Option, none, some, Bytes, codes, equal,
  is_some, is_ok, is_empty, if◌then◌else◌, Result, ok, err, ◌>>=◌, ◌>>◌, fail_if, ◌≡◌, sort, less,
}
use agentic_context_registry.Realize.Model.{Ledger}
use agentic_context_registry.Dependency.Model.{
  ℤ, current_schema_version, local_schema_version, vendor_schema_version, requested_local, latest,
  Declaration, LockedDependency, Release, State, Project, Lockfile, Scheme, scheme_vendor,
  VendorIdentity, vendored, resolution_vendor, pos, DependencyError, skip_and_pin,
  skip_without_lock, invalid_held_pin, local_source_changed,
}
use agentic_context_registry.Dependency.Source.{source_scheme, parse_source, parse_vendor_source}
use agentic_context_registry.Dependency.Validate.{find_lock, validate_state}
use agentic_context_registry.Dependency.Resolver.{Remote, resolve_at, resolve_declaration}
use agentic_context_registry.Dependency.Policy.{HoldPolicy, HoldDecision}

-- `authorizeLocal`; `snapshotLocal` and its cleanup; the hash and the recorded
-- version of a vendored tree.
pub record Sources : Type 0 where
  pub authorize_local : Declaration → Result DependencyError Bytes
  pub snapshot_local : Bytes → Result DependencyError LockedDependency
  pub hash_vendor_tree : VendorIdentity → Result DependencyError Bytes
  pub vendor_version : VendorIdentity → Result DependencyError Bytes

-- What the loop has so far.
pub record Progress : Type 0 where
  pub project_version : ℤ
  pub lock_version : ℤ
  pub locks : List LockedDependency
  pub notices : List Bytes
  pub held : List Bytes

-- What one latest declaration resolved to, with its notice and whether it is held.
pub record Outcome : Type 0 where
  pub locked : LockedDependency
  pub notices : List Bytes
  pub held : List Bytes

abbrev pub with_lock : Progress → LockedDependency → Progress
with_lock progress locked = record progress { locks = progress.locks ++ (locked ∷ []) }

-- `refresh`: the sources of the map, with their flags.
abbrev pub Refresh : Type 0
Refresh = Bytes → Option Bool

abbrev is_refreshed : Option Bool → Bool
is_refreshed none = false
is_refreshed (some flag) = flag

abbrev pub is_vendor : Result DependencyError Scheme → Bool
is_vendor (ok scheme_vendor) = true
is_vendor _ = false

-- The state of one declaration and its pin.
abbrev pinned_project : Declaration → Project
pinned_project declaration = record {
  schema_version = current_schema_version;
  agents = [];
  freshness = [];
  shared_skills = false;
  dependencies = declaration ∷ [];
}

abbrev pinned_lock : LockedDependency → Lockfile
pinned_lock locked = record {
  schema_version = current_schema_version;
  dependencies = locked ∷ [];
  realization = none;
}

module _ (decode : Bytes → Option Ledger) (remote : Remote) (policy : HoldPolicy)
    (sources : Sources) where
  unfoldable pub validate_held_pin :
      Declaration → LockedDependency → Result DependencyError (Unit {0})
  unfolding validate_state
  validate_held_pin declaration locked =
      fail_if
        (not (is_ok (validate_state decode (pinned_project declaration) (pinned_lock locked))))
        invalid_held_pin

  skip_outcome : Declaration → Option LockedDependency → List Bytes → Result DependencyError Outcome
  skip_outcome declaration none notices = err skip_without_lock
  skip_outcome declaration (some existing) notices = ok (record {
    locked = record existing { requested = declaration.requested };
    notices = notices;
    held = declaration.source ∷ [];
  })

  pin_outcome :
      Declaration → Release → Option LockedDependency → List Bytes → Result DependencyError Outcome
  unfolding validate_held_pin resolve_at
  pin_outcome declaration release (some pinned) notices = do
    validate_held_pin declaration pinned
    ok (record { locked = pinned; notices = notices; held = declaration.source ∷ [] })
  pin_outcome declaration release none notices = do
    locked ← resolve_at remote declaration release
    ok (record { locked = locked; notices = notices; held = [] })

  unfoldable pub resolve_latest :
      Declaration → Option LockedDependency → Result DependencyError Outcome
  unfolding parse_source skip_outcome pin_outcome
  resolve_latest declaration existing = do
    repository ← parse_source declaration.source
    release ← remote.latest_release repository
    decision ← policy.resolve declaration existing release
    let notices = if is_empty decision.notice then [] else decision.notice ∷ [] in
        do
          fail_if (decision.skip && is_some decision.pin) skip_and_pin
          if decision.skip
              then skip_outcome declaration existing notices
              else pin_outcome declaration release decision.pin notices

  resolve_local :
      Declaration → Option LockedDependency → Bool → Progress → Result DependencyError Progress
  unfolding equal
  resolve_local declaration existing refreshed progress = do
    root ← sources.authorize_local declaration
    if is_some existing && not refreshed
        then (elim existing [ none ↦ ok progress | some l ↦ ok (with_lock progress l) ])
        else (do
          locked ← sources.snapshot_local root
          fail_if (not (equal locked.source declaration.source)) local_source_changed
          ok (
              with_lock
                (record progress {
                  project_version = local_schema_version;
                  lock_version = local_schema_version;
                })
                (record locked { path = declaration.path })))

  rebuild_vendor_lock : Declaration → Result DependencyError LockedDependency
  unfolding parse_vendor_source
  rebuild_vendor_lock declaration = do
    identity ← parse_vendor_source declaration.source
    hash ← sources.hash_vendor_tree identity
    version ← sources.vendor_version identity
    ok (record {
      source = declaration.source;
      requested = vendored;
      path = [];
      kind = resolution_vendor;
      release_id = pos 0;
      tag = [];
      commit = [];
      package_version = version;
      content_hash = hash;
      hold = none;
    })

  rebuild_vendor : Declaration → Progress → Result DependencyError Progress
  unfolding rebuild_vendor_lock
  rebuild_vendor declaration progress = do
    locked ← rebuild_vendor_lock declaration
    ok (with_lock (record progress { lock_version = vendor_schema_version }) locked)

  resolve_vendor :
      Declaration → Option LockedDependency → Progress → Result DependencyError Progress
  unfolding equal rebuild_vendor
  resolve_vendor declaration none progress = rebuild_vendor declaration progress
  resolve_vendor declaration (some l) progress =
      if equal l.requested declaration.requested
      then ok (with_lock progress l)
      else rebuild_vendor declaration progress

  resolve_remote :
      Declaration → Option LockedDependency → Progress → Result DependencyError Progress
  unfolding equal resolve_latest resolve_declaration
  resolve_remote declaration existing progress =
      if equal declaration.requested latest
      then (do
        outcome ← resolve_latest declaration existing
        ok (record progress {
          locks = progress.locks ++ (outcome.locked ∷ []);
          notices = progress.notices ++ outcome.notices;
          held = progress.held ++ outcome.held;
        }))
      else (do locked ← resolve_declaration remote declaration; ok (with_lock progress locked))

  -- The lock that is there already serves the same request, and is not to be refreshed.
  is_current : Declaration → LockedDependency → Bool → Bool
  unfolding equal
  is_current declaration l refreshed = equal l.requested declaration.requested && not refreshed

  resolve_github :
      Declaration → Option LockedDependency → Bool → Progress → Result DependencyError Progress
  unfolding is_current resolve_remote
  resolve_github declaration none refreshed progress = resolve_remote declaration none progress
  resolve_github declaration (some l) refreshed progress =
      if is_current declaration l refreshed
      then ok (with_lock progress l)
      else resolve_remote declaration (some l) progress

  keep_unselected : Option LockedDependency → Progress → Progress
  keep_unselected none progress = progress
  keep_unselected (some l) progress = with_lock progress l

  -- One round of the loop.
  unfoldable pub resolve_turn :
      List LockedDependency
      → Refresh
      → Bool
      → Declaration
      → Progress
      → Result DependencyError Progress
  unfolding find_lock source_scheme equal keep_unselected resolve_local resolve_vendor
      resolve_github
  resolve_turn locks refresh only_requested declaration progress =
      let existing = find_lock locks declaration.source in
      let refreshed = is_refreshed (refresh declaration.source) in
      if only_requested && not (is_some (refresh declaration.source))
      then ok (keep_unselected existing progress)
      else if equal declaration.requested requested_local
      then resolve_local declaration existing refreshed progress
      else if is_vendor (source_scheme declaration.source)
      then resolve_vendor declaration existing progress
      else resolve_github declaration existing refreshed progress

  unfoldable pub resolve_turns :
      List LockedDependency
      → Refresh
      → Bool
      → List Declaration
      → Progress
      → Result DependencyError Progress
  unfolding resolve_turn
  resolve_turns locks refresh only_requested [] progress = ok progress
  resolve_turns locks refresh only_requested (d ∷ ds) progress = do
    next ← resolve_turn locks refresh only_requested d progress
    resolve_turns locks refresh only_requested ds next

  unfoldable pub resolve_state :
      State → Refresh → Bool → Result DependencyError (State × List Bytes × List Bytes)
  unfolding resolve_turns sort less
  resolve_state state refresh only_requested = do
    done ←
        resolve_turns state.lock.dependencies refresh only_requested state.project.dependencies
          (record {
            project_version = state.project.schema_version;
            lock_version = state.lock.schema_version;
            locks = [];
            notices = [];
            held = [];
          })
    ok (
      record {
        project = record state.project {
          schema_version = done.project_version;
          agents = sort less state.project.agents;
          dependencies = sort (λ a b. less a.source b.source) state.project.dependencies;
        };
        lock = record state.lock {
          schema_version = done.lock_version;
          dependencies = sort (λ a b. less a.source b.source) done.locks;
        };
      },
      done.notices,
      sort less done.held,
    )
