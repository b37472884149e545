-- ===== src/Dependency/Tests.antt =====
-- A project with one dependency, held at release 1 after release 2 was rejected; the theorems on
-- declarations, locks and holds at this project.
use agentic_context_registry.Base.{
  sort, inr, List, ℕ, zero, suc, true, false, [], ◌∷◌, ◌++◌, Option, none, some, Bytes, codes,
  equal, less, ◌==◌, if◌then◌else◌, length, ok, err, In, ◌≡◌, ◌≢◌, ◌⊎◌, inl, refl,
}
use agentic_context_registry.Realize.Model.{Ledger}
use agentic_context_registry.Dependency.Model.{
  requested_local, pos, Hold, LockHold, Declaration, LockedDependency, resolution_release, State,
  Release, latest, remote_failed,
}
use agentic_context_registry.Dependency.Hold.{
  Semver, Comparison, below, same, above, lock_matches_reference, validate_hold, validate_lock_hold,
  semver_comparable, tag_strictly_newer,
}
use agentic_context_registry.Dependency.Hold.Accepted.{IsHold, validate_hold-IsHold}
use agentic_context_registry.Dependency.Downgrade.{
  downgrade_pin, advance_barrier, locked_tag, recorded_rejection_is_newer, apply_downgrade_choice,
}
use agentic_context_registry.Dependency.Downgrade.Barrier.{
  advance_barrier-forward, apply_downgrade_choice-keeps_hold,
}
use agentic_context_registry.Dependency.Validate.{validate_state, find_lock}
use agentic_context_registry.Dependency.Validate.Whole.{
  latest-not_local, IsConsistent, validate_state-IsConsistent,
}
use agentic_context_registry.Dependency.Resolver.{Remote}
use agentic_context_registry.Dependency.Policy.{
  project_holds_resolve, repair_held_lock, barrier_record,
}
use agentic_context_registry.Dependency.Policy.Stands.{
  Decides, IsPinned, project_holds, project_holds_resolve-Decides, repair_held_lock_idem,
  barrier_record-valid,
}
use agentic_context_registry.Dependency.Resolution.{Sources, Refresh, resolve_state}
use agentic_context_registry.Dependency.Resolution.Offline.{Kept, resolve_state-offline, no_refresh}
use agentic_context_registry.Dependency.Resolution.Barrier.{resolve_state-stays_held}

zeros : ℕ → Bytes
zeros zero = []
zeros (suc n) = b'0' ∷ zeros n

order : Bytes → Bytes → Comparison
unfolding less
order left right = if less left right then below else if less right left then above else same

-- Versions of one digit.
abbrev semver : Semver
semver = record {
  is_valid = λ version. length version == 2;
  compare_versions = order;
  prerelease_of = λ _. [];
}

abbrev package_source : Bytes
package_source = codes "github:o/p"

abbrev hold : Hold
hold = record { pin = codes "1"; rejected = codes "2"; reason = [] }

abbrev declaration : Declaration
declaration = record { source = package_source; requested = latest; path = []; hold = some hold }

abbrev lock_hold : LockHold
lock_hold = record {
  rejected_tag = codes "2";
  rejected_release_id = pos 7;
  rejected_commit = zeros 40;
}

abbrev locked : LockedDependency
locked = record {
  source = package_source;
  requested = latest;
  path = [];
  kind = resolution_release;
  release_id = pos 5;
  tag = codes "1";
  commit = zeros 40;
  package_version = codes "1";
  content_hash = codes "sha256:" ++ zeros 64;
  hold = some lock_hold;
}

abbrev state : State
state = record {
  project = record {
    schema_version = pos 2;
    agents = codes "codex" ∷ [];
    freshness = [];
    shared_skills = false;
    dependencies = declaration ∷ [];
  };
  lock = record { schema_version = pos 2; dependencies = locked ∷ []; realization = none };
}

abbrev rejected_release : Release
rejected_release = record {
  id = pos 7;
  tag = codes "2";
  draft = false;
  prerelease = false;
  assets = [];
}

abbrev remote : Remote
remote = record {
  latest_release = λ _. ok rejected_release;
  release_by_tag = λ _ _. ok rejected_release;
  resolve_commit = λ _ _. ok (zeros 40);
  verified_archive = λ _ _. err remote_failed;
  tag_matches_version = equal;
  download_asset = λ _ _. none;
  decode_metadata = λ _. none;
  warn = ok tt;
}

abbrev sources : Sources
sources = record {
  authorize_local = λ _. err remote_failed;
  snapshot_local = λ _. err remote_failed;
  hash_vendor_tree = λ _. err remote_failed;
  vendor_version = λ _. err remote_failed;
}

abbrev decode : Bytes → Option Ledger
decode _ = none

abbrev refresh_all : Refresh
refresh_all _ = some true

named-result : hold.rejected ≢ []
named-result e = cc

advance_barrier-forward_example :
    (advance_barrier semver (some hold) (some locked) ≡ codes "2")
    ⊎ ((advance_barrier semver (some hold) (some locked) ≡ locked_tag (some locked))
        × ((tag_strictly_newer semver (locked_tag (some locked)) (codes "2") ≡ true)
            ⊎ ((semver_comparable semver (locked_tag (some locked)) (codes "2") ≡ false)
                × (recorded_rejection_is_newer (some locked) ≡ true))))
advance_barrier-forward_example = advance_barrier-forward semver hold (some locked) named-result

-- Release 0 below the locked release 1.
abbrev older : Declaration
older = record declaration { requested = codes "0"; hold = none }

abbrev held_older : Declaration
held_older = record declaration {
  hold = some (record { pin = codes "0"; rejected = codes "2"; reason = [] });
}

pin-result :
    apply_downgrade_choice semver declaration (some locked) older downgrade_pin ≡ ok (older, true)
unfolding apply_downgrade_choice order
pin-result = refl

apply_downgrade_choice-keeps_hold_example : downgrade_pin ≡ downgrade_pin
apply_downgrade_choice-keeps_hold_example =
    apply_downgrade_choice-keeps_hold semver declaration (some locked) older downgrade_pin refl refl
      pin-result refl

hold-valid : validate_hold (some hold) latest ≡ ok tt
unfolding validate_hold
hold-valid = refl

validate_hold-IsHold_example : IsHold hold latest
validate_hold-IsHold_example = validate_hold-IsHold hold latest hold-valid

state-valid : validate_state decode state.project state.lock ≡ ok tt
unfolding validate_state zeros
state-valid = refl

validate_state-IsConsistent_example : IsConsistent state.project state.lock
validate_state-IsConsistent_example =
    validate_state-IsConsistent decode state.project state.lock state-valid

repair_held_lock_idem_example :
    repair_held_lock declaration hold (repair_held_lock declaration hold locked).0
    ≡ ((repair_held_lock declaration hold locked).0, false)
repair_held_lock_idem_example = repair_held_lock_idem declaration hold locked

-- A remote that has the pin's release, and a lock of another one.
abbrev pinning_remote : Remote
pinning_remote = record remote {
  release_by_tag = λ _ tag. ok (record rejected_release { tag = tag });
  verified_archive = λ _ _. ok (record { version = codes "1"; content_hash = [] });
}

abbrev stale : LockedDependency
stale = record locked { tag = codes "0" }

abbrev pinned : LockedDependency
pinned = record locked { release_id = pos 7; content_hash = []; hold = some lock_hold }

decision-result :
    project_holds_resolve semver pinning_remote declaration (some stale) rejected_release
    ≡ ok (record { skip = false; pin = some pinned; notice = [] })
unfolding project_holds_resolve zeros
decision-result = refl

project_holds_resolve-Decides_example :
    Decides semver pinning_remote
      (IsPinned semver pinning_remote declaration hold)
      declaration
      hold
      (some stale)
      (record { skip = false; pin = some pinned; notice = [] })
unfolding equal
project_holds_resolve-Decides_example =
    project_holds_resolve-Decides semver pinning_remote declaration hold (some stale)
      rejected_release refl refl decision-result

barrier_record-valid_example :
    validate_lock_hold (some hold) (some (barrier_record semver remote package_source hold)) ≡ ok tt
barrier_record-valid_example = barrier_record-valid semver remote package_source hold

pass-result :
    resolve_state decode remote (project_holds semver remote) sources state refresh_all false
    ≡ ok (state, [], package_source ∷ [])
unfolding resolve_state project_holds_resolve
pass-result = refl

resolve_state-stays_held_example :
    ((d : Declaration) × In d state.project.dependencies × (package_source ≡ d.source))
    × ((d : Declaration) (h : Hold)
        → In d state.project.dependencies
        → package_source ≡ d.source
        → d.hold ≡ some h
        → lock_matches_reference locked h.pin ≡ true)
resolve_state-stays_held_example =
    resolve_state-stays_held decode remote (project_holds semver remote) sources state refresh_all
      false state-valid pass-result locked (inl refl)

all_locked :
    (d : Declaration)
    → In d state.project.dependencies
    → (d.requested ≢ requested_local)
      × (l : LockedDependency) × (find_lock state.lock.dependencies d.source ≡ some l)
unfolding find_lock equal
all_locked d (inl e) = rw e (latest-not_local, locked, refl)
all_locked d (inr m) = absurd m

resolve_state-offline_example :
    (result : State) × (ls : List LockedDependency) × (resolve_state decode remote
        (project_holds semver remote)
        sources
        state
        no_refresh
        false
      ≡ ok (result, [], []))
    × Kept state.lock.dependencies state.project.dependencies ls
    × (result.lock.dependencies ≡ sort (λ a b. less a.source b.source) ls)
    × (result.lock.schema_version ≡ state.lock.schema_version)
resolve_state-offline_example =
    resolve_state-offline decode remote (project_holds semver remote) sources state state-valid
      all_locked
