-- ===== src/Realize/Model.antt =====
-- internal/realize/model.go: the types of the ownership ledger, intents, operations and plans.
use native.Mathlib.Decide.{ℕ_discrete}
use agentic_context_registry.Base.{
  ℕ, Bool, true, false, List, ◌≡◌, ◌↔◌, Bytes, codes, equal, equal_iff, arith,
}

-- A `string` with named constants; `unsupported` is any other text that a caller can put there.
pub data Ownership : Type 0 where
  generated shared unmanaged unset : Ownership
  unsupported_ownership : Bytes → Ownership

pub data ArtifactKind : Type 0 where
  artifact_file managed_block structured_entry : ArtifactKind
  unsupported_kind : Bytes → ArtifactKind

pub record Entry : Type 0 where
  pub source : Bytes
  pub artifact_id : Bytes
  pub artifact_kind : ArtifactKind
  pub source_path : Bytes
  pub adapter : Bytes
  pub adapter_version : Bytes
  pub managed_hash : Bytes

pub record Target : Type 0 where
  pub path : Bytes
  pub owner : Bytes
  pub mode_bits : ℕ
  pub ownership : Ownership
  pub output_hash : Bytes
  pub excluded : Bool
  pub entries : List Entry

pub record Ledger : Type 0 where
  pub schema_version : ℕ
  pub targets : List Target

-- `default_action` is the empty string, which the planner reads as `ensure`.
pub data IntentAction : Type 0 where
  ensure preserve remove default_action : IntentAction
  unsupported_action : Bytes → IntentAction

pub record Intent : Type 0 where
  pub action : IntentAction
  pub path : Bytes
  pub owner : Bytes
  pub content : Bytes
  pub mode_bits : ℕ
  pub ownership : Ownership
  pub entries : List Entry
  pub observed_hash : Bytes
  pub managed_intact : Bool
  pub explicit_demotion : Bool
  pub preserved_content : List Bytes

pub data OperationKind : Type 0 where
  op_create op_update op_merge op_preserve op_promote op_demote op_conflict op_remove :
      OperationKind

-- One constructor for each message that the planner gives an operation.
pub data Reason : Type 0 where
  create_missing merge_unmanaged update_generated promote_output demote_output merge_managed :
      Reason
  preserved_target drop_ownership_tracked remove_content_tracked remove_retaining_unmanaged : Reason
  remove_owned remove_final_entries synchronize_exclusions : Reason
  cannot_preserve_changed refuse_absent_from_ledger target_too_large invalid_next_target : Reason
  missing_shared_target unmanaged_needs_merge merge_not_bound ownership_sticky : Reason
  demotion_has_unmanaged merge_preserves_nothing generated_modified promotion_not_bound : Reason
  shared_removal_needs_intent tracked_removal_unproven refuse_modified_removal : Reason
  missing_shared_removal removal_retains_entries removal_keeps_ownership : Reason
  removal_changes_permissions removal_not_bound exclusion_markers unstated : Reason

pub record Operation : Type 0 where
  pub kind : OperationKind
  pub path : Bytes
  pub ownership_before : Ownership
  pub ownership_after : Ownership
  pub before_hash : Bytes
  pub after_hash : Bytes
  pub reason : Reason
  pub git_exclusion : Bool
  pub mode_bits : ℕ
  pub content : Bytes
  pub deletes : Bool
  pub before_exists : Bool
  pub before_mode : ℕ
  pub physical_root : Bytes
  pub physical_path : Bytes
  pub state_file : Bool

pub record Plan : Type 0 where
  pub operations : List Operation
  pub next_ledger : Ledger
  pub ledger_changed : Bool

abbrev pub baseline_version : ℕ
baseline_version = 1

abbrev pub shared_surface_version : ℕ
shared_surface_version = 2

abbrev pub current_version : ℕ
current_version = 2

abbrev pub owner_coordinator : Bytes
owner_coordinator = codes "coordinator"

unfoldable pub Ownership-discrete : Discrete Ownership
unfolding ℕ_discrete
Ownership-discrete = hlevel ℕ_discrete

unfoldable pub Target-discrete : Discrete Target
unfolding ℕ_discrete
Target-discrete = hlevel ℕ_discrete

unfoldable pub Ledger-discrete : Discrete Ledger
unfolding ℕ_discrete
Ledger-discrete = hlevel ℕ_discrete

-- `==` on the ownership constants.
unfoldable pub same_ownership : Ownership → Ownership → Bool
same_ownership generated generated = true
same_ownership shared shared = true
same_ownership unmanaged unmanaged = true
same_ownership unset unset = true
same_ownership (unsupported_ownership s) (unsupported_ownership t) = equal s t
same_ownership _ _ = false

pub same_ownership_iff : (a b : Ownership) → (same_ownership a b ≡ true) ↔ (a ≡ b)
unfolding same_ownership
same_ownership_iff (unsupported_ownership s) (unsupported_ownership t) =
    ground (arith, equal_iff s t)
same_ownership_iff generated _ = ground arith
same_ownership_iff shared _ = ground arith
same_ownership_iff unmanaged _ = ground arith
same_ownership_iff unset _ = ground arith
same_ownership_iff (unsupported_ownership s) _ = ground arith
