-- ===== src/Realize/Planner/Remove.antt =====
-- internal/realize/planner.go: what is planned where a target is removed, omitted or preserved
-- (planRemoval, planOmitted, planSharedRemoval, and the remove and preserve branches of Plan).
use agentic_context_registry.Base.{
  Bool, true, not, ◌&&◌, ◌||◌, [], ◌∷◌, Option, none, some, Bytes, ltb, ◌==◌, if◌then◌else◌, length,
  is_empty,
}
use agentic_context_registry.Realize.Model.{
  shared, unmanaged, unset, Target, Intent, Operation, Reason, op_preserve, op_remove,
  preserved_target, drop_ownership_tracked, remove_content_tracked, remove_retaining_unmanaged,
  remove_owned, remove_final_entries, cannot_preserve_changed, refuse_absent_from_ledger,
  target_too_large, shared_removal_needs_intent, tracked_removal_unproven, refuse_modified_removal,
  missing_shared_removal, removal_retains_entries, removal_keeps_ownership,
  removal_changes_permissions, removal_not_bound, same_ownership,
}
use agentic_context_registry.Realize.Filesystem.{FileSnapshot, max_target_bytes}
use agentic_context_registry.Realize.Planner.Decide.{
  Delta, nothing, operation, conflict_at, kept, refuse, is_changed, preserves,
  has_nonempty_fragment, has_unpreserved_content, ownership_before, is_bound_merge,
}

-- Whether the removal of an intent is bound to the file and proves what it keeps.
unfoldable pub is_proven_removal : Intent → FileSnapshot → Bool
is_proven_removal intent snapshot =
    is_empty intent.entries
    && (same_ownership intent.ownership shared || same_ownership intent.ownership unmanaged)
    && is_bound_merge intent snapshot
    && has_nonempty_fragment intent.preserved_content
    && not (has_unpreserved_content snapshot intent)
    && (intent.mode_bits == 0 || intent.mode_bits == snapshot.mode_bits)

unfoldable pub shared_removal_refusal : Intent → FileSnapshot → Option Reason
shared_removal_refusal intent snapshot =
    if not snapshot.exists
    then some missing_shared_removal
    else if ltb max_target_bytes (length intent.content)
    then some target_too_large
    else if not (is_empty intent.entries)
    then some removal_retains_entries
    else if not (same_ownership intent.ownership unset)
        && not (same_ownership intent.ownership unmanaged)
    then some removal_keeps_ownership
    else if not (intent.mode_bits == 0) && not (intent.mode_bits == snapshot.mode_bits)
    then some removal_changes_permissions
    else if not (is_bound_merge intent snapshot)
        || not (preserves snapshot.content intent.preserved_content)
    then some removal_not_bound
    else none

module _ (content_hash : Bytes → Bytes) where
  -- The bytes that a removal leaves in place of the file.
  unfoldable pub retain : Target → FileSnapshot → Bytes → Reason → Operation
  retain previous snapshot content reason =
      let base = operation op_remove previous.path previous.ownership unmanaged reason in
      record base {
        before_hash = snapshot.hash;
        after_hash = content_hash content;
        mode_bits = snapshot.mode_bits;
        content = content;
        before_exists = true;
        before_mode = snapshot.mode_bits;
      }

  -- The intent of a removal is `none` where the target is omitted: the source passes `Intent{}`.
  unfoldable pub plan_removal : Target → Option Intent → FileSnapshot → Bool → Delta
  unfolding refuse retain is_changed
  plan_removal previous intent snapshot tracked =
      if not snapshot.exists
      then nothing
      else if tracked && not (is_changed snapshot previous)
      then (elim intent [
        | none ↦ record {
          targets = [];
          operations = retain previous snapshot snapshot.content drop_ownership_tracked ∷ [];
        }
        | some i ↦
            if not (is_proven_removal i snapshot)
            then refuse previous.path (some previous) tracked_removal_unproven
            else record {
              targets = [];
              operations = retain previous snapshot i.content remove_content_tracked ∷ [];
            }
      ])
      else if is_changed snapshot previous
      then (elim intent [
        | none ↦ refuse previous.path (some previous) refuse_modified_removal
        | some i ↦
            if is_proven_removal i snapshot
            then record {
              targets = [];
              operations = retain previous snapshot i.content remove_retaining_unmanaged ∷ [];
            }
            else refuse previous.path (some previous) refuse_modified_removal
      ])
      else let base = operation op_remove previous.path previous.ownership unmanaged remove_owned in
        record {
          targets = [];
          operations =
              record base {
                before_hash = snapshot.hash;
                deletes = true;
                before_exists = true;
                before_mode = snapshot.mode_bits;
              }
              ∷ [];
        }

  unfoldable pub plan_omitted : Target → FileSnapshot → Bool → Delta
  unfolding refuse plan_removal
  plan_omitted previous snapshot tracked =
      if same_ownership previous.ownership shared
      then refuse previous.path (some previous) shared_removal_needs_intent
      else plan_removal previous none snapshot tracked

  unfoldable pub plan_shared_removal : Target → Intent → FileSnapshot → Delta
  unfolding shared_removal_refusal refuse retain
  plan_shared_removal previous intent snapshot = elim (shared_removal_refusal intent snapshot) [
    | some reason ↦ refuse previous.path (some previous) reason
    | none ↦ record {
      targets = [];
      operations = retain previous snapshot intent.content remove_final_entries ∷ [];
    }
  ]

-- The preserve branch of `Plan`.
unfoldable pub plan_preserve : Bytes → Option Target → FileSnapshot → Delta
unfolding ownership_before is_changed
plan_preserve path previous snapshot =
    let stays : Bool = elim previous [
      | none ↦ true
      | some owned ↦ snapshot.exists && not (is_changed snapshot owned)
    ] in
    let before = ownership_before previous in
    let base = operation op_preserve path before before preserved_target in
    record {
      targets = kept previous;
      operations =
          (if stays
            then record base { before_hash = snapshot.hash }
            else conflict_at path before cannot_preserve_changed)
          ∷ [];
    }

-- The remove branch of `Plan`.
unfoldable pub plan_remove : (Bytes → Bytes) → Option Target → Intent → FileSnapshot → Bool → Delta
unfolding plan_shared_removal plan_removal
plan_remove content_hash none intent snapshot tracked =
    if snapshot.exists
    then record {
      targets = [];
      operations = conflict_at intent.path unmanaged refuse_absent_from_ledger ∷ [];
    }
    else nothing
plan_remove content_hash (some previous) intent snapshot tracked =
    if same_ownership previous.ownership shared
    then plan_shared_removal content_hash previous intent snapshot
    else plan_removal content_hash previous (some intent) snapshot tracked
