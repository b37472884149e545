-- ===== src/Realize/Planner/Decide.antt =====
-- internal/realize/planner.go: what is planned for one target (planEnsure), and what the
-- other decisions share. The source appends to the plan; each function here returns what it appends.
use agentic_context_registry.Base.{
  ℕ, Bool, true, false, not, ◌&&◌, ◌||◌, List, [], ◌∷◌, Option, none, some, Bytes, equal, contains,
  ltb, ◌==◌, if◌then◌else◌, length, is_empty, is_ok, is_yes,
}
use agentic_context_registry.Realize.Model.{
  Ownership, generated, shared, unmanaged, Target, Intent, Operation, OperationKind, Reason,
  op_create, op_update, op_merge, op_promote, op_demote, op_conflict, create_missing,
  merge_unmanaged, update_generated, promote_output, demote_output, merge_managed, target_too_large,
  invalid_next_target, missing_shared_target, unmanaged_needs_merge, merge_not_bound,
  ownership_sticky, demotion_has_unmanaged, merge_preserves_nothing, generated_modified,
  promotion_not_bound, current_version, same_ownership, Target-discrete,
}
use agentic_context_registry.Realize.Ledger.{canonical_target, canonical_ledger, validate_ledger}
use agentic_context_registry.Realize.Filesystem.{FileSnapshot, max_target_bytes}

-- What one target adds to the next ledger and to the operations.
pub record Delta : Type 0 where
  pub targets : List Target
  pub operations : List Operation

abbrev pub nothing : Delta
nothing = record { targets = []; operations = [] }

-- `ownershipBefore`, where `none` is a target that is not owned.
unfoldable pub ownership_before : Option Target → Ownership
ownership_before none = unmanaged
ownership_before (some previous) = previous.ownership

unfoldable pub preserves : Bytes → List Bytes → Bool
preserves rendered [] = true
preserves rendered (fragment ∷ fragments) =
    (is_empty fragment || contains rendered fragment) && preserves rendered fragments

unfoldable pub has_nonempty_fragment : List Bytes → Bool
has_nonempty_fragment [] = false
has_nonempty_fragment (fragment ∷ fragments) =
    not (is_empty fragment) || has_nonempty_fragment fragments

unfoldable pub has_unpreserved_content : FileSnapshot → Intent → Bool
has_unpreserved_content snapshot intent =
    snapshot.exists
    && (not (preserves snapshot.content intent.preserved_content)
        || not (is_empty snapshot.content) && not (has_nonempty_fragment intent.preserved_content))

-- An operation with the zero value in every field that the source leaves out.
abbrev pub operation : OperationKind → Bytes → Ownership → Ownership → Reason → Operation
operation kind path before after reason = record {
  kind = kind;
  path = path;
  ownership_before = before;
  ownership_after = after;
  before_hash = [];
  after_hash = [];
  reason = reason;
  git_exclusion = false;
  mode_bits = 0;
  content = [];
  deletes = false;
  before_exists = false;
  before_mode = 0;
  physical_root = [];
  physical_path = [];
  state_file = false;
}

-- `addConflict`.
abbrev pub conflict_at : Bytes → Ownership → Reason → Operation
conflict_at path before reason = operation op_conflict path before before reason

abbrev pub kept : Option Target → List Target
kept none = []
kept (some previous) = previous ∷ []

-- A conflict; an owned target stays in the ledger as it was.
unfoldable pub refuse : Bytes → Option Target → Reason → Delta
unfolding ownership_before
refuse path previous reason = record {
  targets = kept previous;
  operations = conflict_at path (ownership_before previous) reason ∷ [];
}

unfoldable pub mutation :
    OperationKind → Option Target → FileSnapshot → Target → Bytes → Reason → Operation
unfolding ownership_before
mutation kind previous snapshot next content reason =
    let base = operation kind next.path (ownership_before previous) next.ownership reason in
    record base {
      before_hash = snapshot.hash;
      after_hash = next.output_hash;
      mode_bits = next.mode_bits;
      content = content;
      before_exists = snapshot.exists;
      before_mode = snapshot.mode_bits;
    }

unfoldable pub commit :
    OperationKind → Option Target → FileSnapshot → Target → Bytes → Reason → Delta
unfolding mutation
commit kind previous snapshot next content reason = record {
  targets = next ∷ [];
  operations = mutation kind previous snapshot next content reason ∷ [];
}

-- The file is not as the ledger records it.
unfoldable pub is_changed : FileSnapshot → Target → Bool
is_changed snapshot previous =
    not (equal snapshot.hash previous.output_hash) || not (snapshot.mode_bits == previous.mode_bits)

-- The merge speaks of the file that is there, and keeps every fragment that it names.
unfoldable pub is_bound_merge : Intent → FileSnapshot → Bool
is_bound_merge intent snapshot =
    intent.managed_intact
    && equal intent.observed_hash snapshot.hash
    && preserves intent.content intent.preserved_content

unfoldable pub shared_refusal : Intent → FileSnapshot → Target → Option Reason
shared_refusal intent snapshot next =
    if not (is_bound_merge intent snapshot)
    then some merge_not_bound
    else if same_ownership next.ownership generated && not intent.explicit_demotion
    then some ownership_sticky
    else if same_ownership next.ownership generated
        && has_nonempty_fragment intent.preserved_content
    then some demotion_has_unmanaged
    else if same_ownership next.ownership shared && has_unpreserved_content snapshot intent
    then some merge_preserves_nothing
    else none

unfoldable pub generated_refusal : Intent → FileSnapshot → Target → Option Reason
generated_refusal intent snapshot next =
    if not intent.managed_intact
    then some generated_modified
    else if not (same_ownership next.ownership shared)
        || not (equal intent.observed_hash snapshot.hash)
        || not (preserves intent.content intent.preserved_content)
        || has_unpreserved_content snapshot intent
    then some promotion_not_bound
    else none

-- The tests of an owned target that is there, in their order.
unfoldable pub owned_refusal : Target → Intent → FileSnapshot → Target → Option Reason
unfolding shared_refusal generated_refusal
owned_refusal previous intent snapshot next =
    if same_ownership previous.ownership shared
    then shared_refusal intent snapshot next
    else if same_ownership previous.ownership generated && is_changed snapshot previous
    then generated_refusal intent snapshot next
    else none

unfoldable pub owned_kind : Target → Target → OperationKind × Reason
owned_kind previous next =
    if same_ownership previous.ownership generated && same_ownership next.ownership shared
    then (op_promote, promote_output)
    else if same_ownership previous.ownership shared && same_ownership next.ownership generated
    then (op_demote, demote_output)
    else if same_ownership previous.ownership shared
    then (op_merge, merge_managed)
    else (op_update, update_generated)

unfoldable pub plan_owned : Target → Intent → FileSnapshot → Target → Delta
unfolding owned_refusal owned_kind commit refuse is_changed
plan_owned previous intent snapshot next = elim (owned_refusal previous intent snapshot next) [
  | some reason ↦ refuse intent.path (some previous) reason
  | none ↦
      if equal snapshot.hash next.output_hash
        && snapshot.mode_bits == next.mode_bits
        && is_yes (Target-discrete previous next)
      then record { targets = next ∷ []; operations = [] }
      else let (kind, reason) = owned_kind previous next in
        commit kind (some previous) snapshot next intent.content reason
]

unfoldable pub plan_missing : Option Target → Intent → FileSnapshot → Target → Delta
unfolding refuse commit
plan_missing previous intent snapshot next =
    if same_ownership next.ownership shared
    then refuse intent.path previous missing_shared_target
    else commit op_create previous snapshot next intent.content create_missing

unfoldable pub plan_unmanaged : Intent → FileSnapshot → Target → Delta
unfolding refuse commit
plan_unmanaged intent snapshot next =
    if not (same_ownership next.ownership shared)
      || not intent.managed_intact
      || not (equal intent.observed_hash snapshot.hash)
      || not (preserves intent.content intent.preserved_content)
      || has_unpreserved_content snapshot intent
    then refuse intent.path none unmanaged_needs_merge
    else commit op_merge none snapshot next intent.content merge_unmanaged

intent_mode : Intent → FileSnapshot → ℕ
intent_mode intent snapshot =
    if not (intent.mode_bits == 0)
    then intent.mode_bits
    else if snapshot.exists
    then snapshot.mode_bits
    else 0o644

next_excluded : Option Target → Ownership → Bool
next_excluded none ownership = false
next_excluded (some previous) ownership =
    if same_ownership ownership generated then previous.excluded else false

module _ (content_hash : Bytes → Bytes) where
  unfoldable pub next_target : Option Target → Intent → FileSnapshot → Target
  unfolding intent_mode next_excluded
  next_target previous intent snapshot = record {
    path = intent.path;
    owner = intent.owner;
    mode_bits = intent_mode intent snapshot;
    ownership = intent.ownership;
    output_hash = content_hash intent.content;
    excluded = next_excluded previous intent.ownership;
    entries = intent.entries;
  }

  unfoldable pub plan_next : Option Target → Intent → FileSnapshot → Target → Delta
  unfolding plan_missing plan_unmanaged plan_owned
  plan_next previous intent snapshot next =
      if not snapshot.exists then plan_missing previous intent snapshot next else elim previous [
        | none ↦ plan_unmanaged intent snapshot next
        | some owned ↦ plan_owned owned intent snapshot next
      ]

  unfoldable pub plan_ensure : Option Target → Intent → FileSnapshot → Delta
  unfolding plan_next refuse
  plan_ensure previous intent snapshot =
      if ltb max_target_bytes (length intent.content)
      then refuse intent.path previous target_too_large
      else let next = next_target previous intent snapshot in
        let next_ledger =
          canonical_ledger (record { schema_version = current_version; targets = next ∷ [] }) in
        if not (is_ok (validate_ledger next_ledger))
        then refuse intent.path previous invalid_next_target
        else plan_next previous intent snapshot (canonical_target next)
