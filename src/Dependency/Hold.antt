-- ===== src/Dependency/Hold.antt =====
-- internal/dependency/hold.go and holds.go: the validation of holds, and the order on release tags.
-- `golang.org/x/mod/semver` is a parameter, the record `Semver`.
pub mod Accepted
use agentic_context_registry.Base.{
  Bool, true, false, not, ◌&&◌, ◌||◌, List, [], ◌∷◌, Option, none, some, Bytes, codes, equal,
  cut_prefix, is_empty, if◌then◌else◌, Result, ok, err, ◌>>=◌, ◌>>◌, fail_if, has_prefix, map,
  to_lower_byte,
}
use agentic_context_registry.Dependency.Model.{
  Hold, LockHold, LockedDependency, Release, DependencyError, hold_without_latest,
  hold_names_latest, hold_reference_invalid, hold_rejects_commit, hold_pins_rejected,
  hold_reason_padded, lock_hold_undeclared, lock_hold_differs, lock_hold_commit_invalid, latest,
  is_positive, lt, ResolutionKind, resolution_release, resolution_commit,
}
use agentic_context_registry.Dependency.Source.{
  is_commit_request, is_full_commit, is_padded, validate_requested,
}

-- What `semver.Compare` answers.
pub data Comparison : Type 0 where
  below same above : Comparison

-- `semver.IsValid`, `semver.Compare` and `semver.Prerelease`.
pub record Semver : Type 0 where
  pub is_valid : Bytes → Bool
  pub compare_versions : Bytes → Bytes → Comparison
  pub prerelease_of : Bytes → Bytes

validate_held_reference : Bytes → Result DependencyError (Unit {0})
unfolding equal validate_requested
validate_held_reference value =
    if equal value latest
    then err hold_names_latest
    else elim (validate_requested value) [ ok _ ↦ ok tt | err _ ↦ err hold_reference_invalid ]

unfoldable pub validate_hold : Option Hold → Bytes → Result DependencyError (Unit {0})
unfolding equal validate_held_reference is_commit_request is_padded
validate_hold none requested = ok tt
validate_hold (some hold) requested = do
  fail_if (not (equal requested latest)) hold_without_latest
  validate_held_reference hold.pin
  validate_held_reference hold.rejected
  fail_if (is_commit_request hold.rejected) hold_rejects_commit
  fail_if (equal hold.pin hold.rejected) hold_pins_rejected
  fail_if (is_padded hold.reason) hold_reason_padded

unfoldable pub validate_lock_hold :
    Option Hold → Option LockHold → Result DependencyError (Unit {0})
unfolding equal is_full_commit
validate_lock_hold none none = ok tt
validate_lock_hold none (some _) = err lock_hold_undeclared
validate_lock_hold (some hold) none = ok tt
validate_lock_hold (some hold) (some lock_hold) = do
  fail_if (not (equal lock_hold.rejected_tag hold.rejected)) lock_hold_differs
  fail_if
      (not (is_empty lock_hold.rejected_commit) && not (is_full_commit lock_hold.rejected_commit))
      lock_hold_commit_invalid

abbrev pub is_release : ResolutionKind → Bool
is_release resolution_release = true
is_release _ = false

abbrev pub is_commit : ResolutionKind → Bool
is_commit resolution_commit = true
is_commit _ = false

unfoldable pub lock_matches_reference : LockedDependency → Bytes → Bool
unfolding is_commit_request has_prefix to_lower_byte equal
lock_matches_reference locked reference =
    if is_commit_request reference
    then is_commit locked.kind && has_prefix locked.commit (map to_lower_byte reference)
    else is_release locked.kind && equal locked.tag reference

unfoldable pub semver_form : Bytes → Bytes
unfolding cut_prefix
semver_form tag = elim (cut_prefix tag (codes "v")) [ none ↦ b'v' ∷ tag | some rest ↦ b'v' ∷ rest ]

is_above : Comparison → Bool
is_above above = true
is_above _ = false

module _ (semver : Semver) where
  unfoldable pub semver_comparable : Bytes → Bytes → Bool
  unfolding semver_form
  semver_comparable left right =
      semver.is_valid (semver_form left) && semver.is_valid (semver_form right)

  unfoldable pub tag_strictly_newer : Bytes → Bytes → Bool
  unfolding semver_comparable is_above
  tag_strictly_newer left right =
      if not (semver_comparable left right)
      then false
      else is_empty (semver.prerelease_of (semver_form left))
        && is_above (semver.compare_versions (semver_form left) (semver_form right))

  unfoldable pub tag_proven_not_newer : Bytes → Bytes → Bool
  unfolding semver_comparable is_above
  tag_proven_not_newer left right =
      semver_comparable left right
      && not (is_above (semver.compare_versions (semver_form left) (semver_form right)))

  -- The rejected release's identity that the lock records.
  recorded_rejection : Option LockedDependency → Option LockHold
  recorded_rejection none = none
  recorded_rejection (some existing) = existing.hold

  unfoldable pub strictly_newer : Release → Option LockedDependency → Bytes → Bool
  unfolding tag_strictly_newer recorded_rejection
  strictly_newer candidate existing rejected =
      if semver_comparable candidate.tag rejected
      then tag_strictly_newer candidate.tag rejected
      else elim (recorded_rejection existing) [
        | none ↦ false
        | some hold ↦
            if not (is_positive hold.rejected_release_id)
            then false
            else lt hold.rejected_release_id candidate.id
      ]

  unfoldable pub beyond_barrier : Release → Option LockedDependency → Hold → Bool
  unfolding strictly_newer equal
  beyond_barrier candidate existing hold =
      if is_empty candidate.tag
        || candidate.draft
        || candidate.prerelease
        || equal candidate.tag hold.rejected
      then false
      else strictly_newer candidate existing hold.rejected
