-- ===== src/Dependency/Model.antt =====
-- internal/dependency/model.go, hold.go, github.go: the declarations and locks of a project. The
-- `Extra` fields, which no function here reads, are left out; an error is its kind, without its text.
use agentic_context_registry.Base.{ℕ, Bool, true, false, List, Option, Bytes, codes, ltb, ◌==◌}

-- Go's `int` and `int64`, which no function here computes with beyond comparing.
pub data ℤ : Type 0 where
  pos negsuc : ℕ → ℤ

abbrev pub is_zero : ℤ → Bool
is_zero (pos n) = n == 0
is_zero (negsuc n) = false

abbrev pub is_positive : ℤ → Bool
is_positive (pos n) = ltb 0 n
is_positive (negsuc n) = false

abbrev pub lt : ℤ → ℤ → Bool
lt (pos a) (pos b) = ltb a b
lt (pos a) (negsuc b) = false
lt (negsuc a) (pos b) = true
lt (negsuc a) (negsuc b) = ltb b a

abbrev pub current_schema_version : ℤ
current_schema_version = pos 5

abbrev pub minimum_schema_version : ℤ
minimum_schema_version = pos 1

abbrev pub baseline_schema_version : ℤ
baseline_schema_version = pos 2

abbrev pub hold_schema_version : ℤ
hold_schema_version = pos 2

abbrev pub vendor_schema_version : ℤ
vendor_schema_version = pos 3

abbrev pub shared_skills_schema_version : ℤ
shared_skills_schema_version = pos 4

abbrev pub local_schema_version : ℤ
local_schema_version = pos 5

abbrev pub latest : Bytes
latest = codes "latest"

abbrev pub requested_local : Bytes
requested_local = codes "local"

abbrev pub vendored : Bytes
vendored = codes "vendored"

pub record Hold : Type 0 where
  pub pin : Bytes
  pub rejected : Bytes
  pub reason : Bytes

pub record LockHold : Type 0 where
  pub rejected_tag : Bytes
  pub rejected_release_id : ℤ
  pub rejected_commit : Bytes

pub record Declaration : Type 0 where
  pub source : Bytes
  pub requested : Bytes
  pub path : Bytes
  pub hold : Option Hold

-- A kind that none of the four names is `unsupported`.
pub data ResolutionKind : Type 0 where
  resolution_release resolution_commit resolution_vendor resolution_local : ResolutionKind
  unsupported : Bytes → ResolutionKind

pub record LockedDependency : Type 0 where
  pub source : Bytes
  pub requested : Bytes
  pub path : Bytes
  pub kind : ResolutionKind
  pub release_id : ℤ
  pub tag : Bytes
  pub commit : Bytes
  pub package_version : Bytes
  pub content_hash : Bytes
  pub hold : Option LockHold

pub record Project : Type 0 where
  pub schema_version : ℤ
  pub agents : List Bytes
  pub freshness : Bytes
  pub shared_skills : Bool
  pub dependencies : List Declaration

-- `realization` is the mapping under that name, as its YAML text.
pub record Lockfile : Type 0 where
  pub schema_version : ℤ
  pub dependencies : List LockedDependency
  pub realization : Option Bytes

pub record State : Type 0 where
  pub project : Project
  pub lock : Lockfile

pub record Repository : Type 0 where
  pub owner : Bytes
  pub name : Bytes

pub record VendorIdentity : Type 0 where
  pub workspace : Bytes
  pub package_name : Bytes

pub data Scheme : Type 0 where
  scheme_github scheme_vendor : Scheme

pub record ReleaseAsset : Type 0 where
  pub id : ℤ
  pub name : Bytes
  pub url : Bytes

pub record Release : Type 0 where
  pub id : ℤ
  pub tag : Bytes
  pub draft : Bool
  pub prerelease : Bool
  pub assets : List ReleaseAsset

pub data DependencyError : Type 0 where
  invalid_source local_reserved invalid_requested vendored_required vendored_on_github :
      DependencyError
  path_without_local invalid_local_path : DependencyError
  hold_without_latest hold_names_latest hold_reference_invalid hold_rejects_commit : DependencyError
  hold_pins_rejected hold_reason_padded : DependencyError
  lock_hold_undeclared lock_hold_differs lock_hold_commit_invalid : DependencyError
  unsupported_schema_version feature_under_version : DependencyError
  choice_without_rollback held_moves_forward nothing_to_reject rejects_requested : DependencyError
  downgrade_required : Bytes → Bytes → Bytes → DependencyError
  realization_invalid agent_unsupported agent_duplicate freshness_unsupported : DependencyError
  declared_twice locked_twice lock_undeclared lock_path_differs lock_request_differs :
      DependencyError
  lock_incomplete local_kind_required : DependencyError
  inconsistent_local inconsistent_release inconsistent_commit inconsistent_vendor : DependencyError
  kind_unsupported : DependencyError
  release_unstable version_mismatch metadata_commit_mismatch metadata_hash_mismatch :
      DependencyError
  skip_and_pin skip_without_lock invalid_held_pin local_source_changed remote_failed :
      DependencyError
