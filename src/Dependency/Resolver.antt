-- ===== src/Dependency/Resolver.antt =====
-- internal/dependency/resolver.go: from a requested policy to an immutable lock. The GitHub API, the
-- archive's verification, the JSON of a release's metadata, and the comparison of tag and version are
-- the fields of `Remote`, which answers one question the same way each time.
pub mod Named
use agentic_context_registry.Base.{
  Bool, true, false, not, ◌&&◌, ◌||◌, List, [], ◌∷◌, Option, none, some, Bytes, codes, equal,
  is_empty, if◌then◌else◌, Result, ok, err, ◌>>=◌, ◌>>◌, fail_if, ◌==◌, ℕ,
}
use agentic_context_registry.Dependency.Model.{
  ℤ, is_positive, pos, Declaration, LockedDependency, ResolutionKind, resolution_release,
  resolution_commit, Repository, Release, ReleaseAsset, DependencyError, release_unstable,
  version_mismatch, metadata_commit_mismatch, metadata_hash_mismatch, latest,
}
use agentic_context_registry.Dependency.Source.{parse_source, validate_requested, is_commit_request}
use agentic_context_registry.Dependency.Hold.{is_release}

pub record VerifiedPackage : Type 0 where
  pub version : Bytes
  pub content_hash : Bytes

pub record ReleaseMetadata : Type 0 where
  pub metadata_version : ℕ
  pub commit : Bytes
  pub content_hash : Bytes

-- `warn` says whether the warning about an ignored asset could be written.
pub record Remote : Type 0 where
  pub latest_release : Repository → Result DependencyError Release
  pub release_by_tag : Repository → Bytes → Result DependencyError Release
  pub resolve_commit : Repository → Bytes → Result DependencyError Bytes
  pub verified_archive : Repository → Bytes → Result DependencyError VerifiedPackage
  pub tag_matches_version : Bytes → Bytes → Bool
  pub download_asset : Repository → ReleaseAsset → Option Bytes
  pub decode_metadata : Bytes → Option ReleaseMetadata
  pub warn : Result DependencyError (Unit {0})

abbrev no_release : Release
no_release = record { id = pos 0; tag = []; draft = false; prerelease = false; assets = [] }

metadata_asset : List ReleaseAsset → Option ReleaseAsset
unfolding equal
metadata_asset [] = none
metadata_asset (asset ∷ assets) =
    if equal asset.name (codes "acr-package.json") then some asset else metadata_asset assets

unlocked : Declaration → LockedDependency
unlocked declaration = record {
  source = declaration.source;
  requested = declaration.requested;
  path = [];
  kind = resolution_commit;
  release_id = pos 0;
  tag = [];
  commit = [];
  package_version = [];
  content_hash = [];
  hold = none;
}

module _ (remote : Remote) where
  unfoldable pub candidate : Declaration → Result DependencyError Release
  unfolding parse_source validate_requested equal is_commit_request
  candidate declaration = do
    repository ← parse_source declaration.source
    validate_requested declaration.requested
    if equal declaration.requested latest
        then remote.latest_release repository
        else if is_commit_request declaration.requested
        then ok no_release
        else remote.release_by_tag repository declaration.requested

  finish_resolution : Repository → LockedDependency → Result DependencyError LockedDependency
  finish_resolution repository locked = do
    verified ← remote.verified_archive repository locked.commit
    fail_if (is_release locked.kind && not (remote.tag_matches_version locked.tag verified.version))
        version_mismatch
    ok (record locked { package_version = verified.version; content_hash = verified.content_hash })

  check_metadata : Option ReleaseMetadata → Bytes → Bytes → Result DependencyError (Unit {0})
  unfolding equal
  check_metadata none commit content_hash = remote.warn
  check_metadata (some metadata) commit content_hash =
      if not (metadata.metadata_version == 1) then remote.warn else do
        fail_if (not (equal metadata.commit commit)) metadata_commit_mismatch
        fail_if (not (equal metadata.content_hash content_hash)) metadata_hash_mismatch

  verify_release_metadata : Repository → Release → Bytes → Bytes → Result DependencyError (Unit {0})
  unfolding metadata_asset check_metadata
  verify_release_metadata repository release commit content_hash =
      elim (metadata_asset release.assets) [
        | none ↦ ok tt
        | some asset ↦ elim (remote.download_asset repository asset) [
          | none ↦ remote.warn
          | some contents ↦ check_metadata (remote.decode_metadata contents) commit content_hash
        ]
      ]

  finish_release_resolution :
      Repository → Release → LockedDependency → Result DependencyError LockedDependency
  unfolding finish_resolution verify_release_metadata
  finish_release_resolution repository release locked = do
    finished ← finish_resolution repository locked
    verify_release_metadata repository release finished.commit finished.content_hash
    ok finished

  unfoldable pub resolve_at : Declaration → Release → Result DependencyError LockedDependency
  unfolding parse_source validate_requested is_commit_request finish_resolution unlocked
      finish_release_resolution
  resolve_at declaration release = do
    repository ← parse_source declaration.source
    validate_requested declaration.requested
    if is_commit_request declaration.requested
        then (do
          commit ← remote.resolve_commit repository declaration.requested
          finish_resolution repository
              (record (unlocked declaration) { kind = resolution_commit; commit = commit }))
        else (do
          fail_if
              (not (is_positive release.id)
                || is_empty release.tag
                || release.draft
                || release.prerelease)
              release_unstable
          commit ← remote.resolve_commit repository release.tag
          finish_release_resolution repository release (record (unlocked declaration) {
            kind = resolution_release;
            release_id = release.id;
            tag = release.tag;
            commit = commit;
          }))

  unfoldable pub resolve_declaration : Declaration → Result DependencyError LockedDependency
  unfolding candidate resolve_at
  resolve_declaration declaration = do
    release ← candidate declaration
    resolve_at declaration release
