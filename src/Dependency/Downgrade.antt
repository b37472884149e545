-- ===== src/Dependency/Downgrade.antt =====
-- internal/dependency/downgrade.go: what an install below the locked release does to a declaration.
pub mod Barrier
use agentic_context_registry.Base.{
  Bool, true, false, not, ◌&&◌, ◌||◌, List, [], ◌∷◌, Option, none, some, Bytes, codes, equal,
  is_empty, is_some, if◌then◌else◌, Result, ok, err, has_prefix, map, to_lower_byte,
}
use agentic_context_registry.Dependency.Model.{
  Hold, LockHold, LockedDependency, Declaration, DependencyError, choice_without_rollback,
  held_moves_forward, downgrade_required, nothing_to_reject, rejects_requested, latest, is_positive,
  lt,
}
use agentic_context_registry.Dependency.Source.{is_commit_request}
use agentic_context_registry.Dependency.Hold.{
  Semver, is_release, semver_comparable, tag_strictly_newer, tag_proven_not_newer,
}

pub data DowngradeChoice : Type 0 where
  downgrade_unset downgrade_hold downgrade_pin : DowngradeChoice

unfoldable pub locked_tag : Option LockedDependency → Bytes
locked_tag none = []
locked_tag (some existing) = if is_release existing.kind then existing.tag else []

unfoldable pub lock_resolves_reference : LockedDependency → Bytes → Bool
unfolding is_commit_request equal has_prefix to_lower_byte
lock_resolves_reference locked reference =
    if is_commit_request reference
    then not (is_empty locked.commit) && has_prefix locked.commit (map to_lower_byte reference)
    else is_release locked.kind && equal locked.tag reference

unfoldable pub rejects_requested_release : Option LockedDependency → Bytes → Bytes → Bool
unfolding equal locked_tag lock_resolves_reference
rejects_requested_release none requested rejected = equal requested rejected
rejects_requested_release (some existing) requested rejected =
    equal requested rejected
    || equal rejected (locked_tag (some existing)) && lock_resolves_reference existing requested

unfoldable pub current_reference : Option LockedDependency → Option Hold → Bytes
current_reference (some existing) hold =
    if not (is_empty existing.tag) then existing.tag else existing.commit
current_reference none (some hold) = hold.pin
current_reference none none = latest

unfoldable pub recorded_rejection_is_newer : Option LockedDependency → Bool
recorded_rejection_is_newer none = false
recorded_rejection_is_newer (some existing) = elim existing.hold [
  | none ↦ false
  | some hold ↦
      is_positive existing.release_id
      && is_positive hold.rejected_release_id
      && lt hold.rejected_release_id existing.release_id
]

module _ (semver : Semver) where
  unfoldable pub requires_downgrade_choice : Declaration → Option LockedDependency → Bytes → Bool
  unfolding equal is_commit_request tag_strictly_newer
  requires_downgrade_choice declaration existing requested =
      if not (equal declaration.requested latest) || equal requested latest
      then false
      else if is_some declaration.hold
      then true
      else elim existing [
        | none ↦ false
        | some locked ↦
            if is_commit_request requested || not (is_release locked.kind)
            then true
            else not (tag_strictly_newer semver requested locked.tag)
      ]

  unfoldable pub proven_not_newer_than_lock : Option LockedDependency → Bytes → Bool
  unfolding lock_resolves_reference is_commit_request tag_proven_not_newer
  proven_not_newer_than_lock none requested = false
  proven_not_newer_than_lock (some existing) requested =
      if lock_resolves_reference existing requested
      then true
      else if is_commit_request requested || not (is_release existing.kind)
      then false
      else tag_proven_not_newer semver requested existing.tag

  -- The barrier that stands: none without a hold, and without a name.
  standing_barrier : Option Hold → Bytes
  standing_barrier none = []
  standing_barrier (some hold) = hold.rejected

  unfoldable pub advance_barrier : Option Hold → Option LockedDependency → Bytes
  unfolding locked_tag standing_barrier tag_strictly_newer recorded_rejection_is_newer
  advance_barrier existing_hold existing =
      let rejected = locked_tag existing in
      let standing = standing_barrier existing_hold in
      if is_empty standing
      then rejected
      else if is_empty rejected
      then standing
      else if semver_comparable semver rejected standing
      then (if tag_strictly_newer semver rejected standing then rejected else standing)
      else (if recorded_rejection_is_newer existing then rejected else standing)

  -- A reason stays with the barrier that it was written for.
  pub kept_reason : Option Hold → Bytes → Bytes
  unfolding equal
  kept_reason none rejected = []
  kept_reason (some hold) rejected = if equal hold.rejected rejected then hold.reason else []

  apply_hold :
      Declaration
      → Option LockedDependency
      → Declaration
      → Result DependencyError (Declaration × Bool)
  unfolding advance_barrier rejects_requested_release kept_reason
  apply_hold previous existing declaration =
      let rejected = advance_barrier previous.hold existing in
      if is_empty rejected
      then err nothing_to_reject
      else if rejects_requested_release existing declaration.requested rejected
      then err rejects_requested
      else ok (
        record {
          source = declaration.source;
          requested = previous.requested;
          path = [];
          hold = some (record {
            pin = declaration.requested;
            rejected = rejected;
            reason = kept_reason previous.hold rejected;
          });
        },
        true,
      )

  is_chosen : DowngradeChoice → Bool
  is_chosen downgrade_unset = false
  is_chosen _ = true

  unfoldable pub apply_downgrade_choice :
      Declaration
      → Option LockedDependency
      → Declaration
      → DowngradeChoice
      → Result DependencyError (Declaration × Bool)
  unfolding requires_downgrade_choice proven_not_newer_than_lock apply_hold current_reference equal
      is_chosen
  apply_downgrade_choice previous existing declaration choice =
      if not (requires_downgrade_choice previous existing declaration.requested)
      then (if is_chosen choice
          then err choice_without_rollback
          else if is_some previous.hold && equal declaration.requested latest
          then ok (record declaration { hold = previous.hold }, false)
          else ok (declaration, false))
      else if is_some previous.hold
          && not (proven_not_newer_than_lock existing declaration.requested)
      then err held_moves_forward
      else elim choice [
        | downgrade_unset ↦ err (
            downgrade_required declaration.source (current_reference existing previous.hold)
              declaration.requested)
        | downgrade_pin ↦ ok (declaration, true)
        | downgrade_hold ↦ apply_hold previous existing declaration
      ]
