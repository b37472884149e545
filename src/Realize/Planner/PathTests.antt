-- ===== src/Realize/Planner/PathTests.antt =====
-- The planner's decision for one path, and the ledger's operations, at small inputs.
use agentic_context_registry.Base.{
  true, false, [], ◌∷◌, ◌++◌, none, some, codes, equal, ◌≡◌, ◌≢◌, refl, inl, ok, In, sort, less,
  insert_all, ltb, length, is_ok, insert_sorted, has_prefix, cut_prefix, contains, split, in_range,
  IsSorted,
}
use agentic_context_registry.Realize.Model.{
  generated, Target, Ledger, Intent, Operation, op_demote, refuse_modified_removal, demote_output,
  same_ownership, Target-discrete, Ledger-discrete, current_version,
}
use agentic_context_registry.Realize.RealizationPath.{
  validate_relative_path, validate_target_path, validate_shared_surface_path,
  validate_realization_path, valid_hash, matches_ledger_source, matches_kebab,
}
use agentic_context_registry.Realize.Ledger.{
  canonical_ledger, canonical_target, canonical_version, required_ledger_schema_version,
  validate_ledger, validate_targets, validate_target, validate_target_owner, validate_entries,
  validate_entry, entry_key, entry_less, target_less, merge_targets, merge_ledgers,
}
use agentic_context_registry.Realize.Ledger.Valid.{
  IsValidLedger, validate_ledger-IsValidLedger, merge_ledgers_exact,
}
use agentic_context_registry.Realize.Ledger.Sorted.{canonical_ledger_idem}
use agentic_context_registry.Realize.Filesystem.{FileSnapshot, max_target_bytes}
use agentic_context_registry.Realize.Planner.Decide.{
  Delta, plan_ensure, next_target, preserves, has_unpreserved_content, has_nonempty_fragment,
  is_bound_merge, conflict_at, commit,
}
use agentic_context_registry.Realize.Planner.Remove.{plan_omitted}
use agentic_context_registry.Realize.Planner.Run.{plan_path}
use agentic_context_registry.Realize.Planner.Spec.{Planned}
use agentic_context_registry.Realize.Planner.Removal.{plan_path-Planned}
use agentic_context_registry.Realize.Planner.Ownership.{
  plan_path-keeps_on_conflict, plan_path-stays_shared, DemotedOnRequest,
}
use agentic_context_registry.Realize.Planner.Steady.{IsSteady, plan_ensure-IsSteady_iff}
use agentic_context_registry.Realize.Planner.Tests.{
  zeros, toy_hash, entry, old_target, mine_target, ledger, merge_intent,
}

abbrev changed : FileSnapshot
changed = record { exists = true; content = codes "ch"; hash = toy_hash []; mode_bits = 0o644 }

abbrev recorded : FileSnapshot
recorded = record {
  exists = true;
  content = codes "x";
  hash = toy_hash (codes "x");
  mode_bits = 0o644;
}

abbrev demote_intent : Intent
demote_intent = record merge_intent {
  ownership = generated;
  explicit_demotion = true;
  preserved_content = [];
  observed_hash = toy_hash (codes "x");
}

abbrev conflicted : Operation
conflicted = conflict_at (codes "old") generated refuse_modified_removal

abbrev conflict_delta : Delta
conflict_delta = record { targets = old_target ∷ []; operations = conflicted ∷ [] }

conflict-result : plan_path toy_hash (some old_target) none changed false ≡ ok conflict_delta
unfolding plan_path is_bound_merge Target-discrete plan_ensure plan_omitted commit next_target
    merge_ledgers merge_targets validate_ledger canonical_ledger canonical_version
    required_ledger_schema_version sort canonical_target validate_targets validate_target
    validate_realization_path validate_target_owner same_ownership valid_hash toy_hash
    validate_entries validate_entry matches_ledger_source matches_kebab validate_relative_path
    validate_target_path validate_shared_surface_path entry_key entry_less target_less zeros equal
    less insert_all insert_sorted has_prefix cut_prefix contains split in_range preserves
    has_unpreserved_content has_nonempty_fragment Ledger-discrete
conflict-result = refl

plan_path-keeps_on_conflict_example : conflict_delta.targets ≡ old_target ∷ []
plan_path-keeps_on_conflict_example =
    plan_path-keeps_on_conflict toy_hash old_target none changed false conflict-result conflicted
      (inl refl) refl

plan_path-Planned_example : Planned toy_hash changed false (some old_target) none conflict_delta
plan_path-Planned_example =
    plan_path-Planned toy_hash changed false (some old_target) none conflict-result

abbrev demoted_target : Target
demoted_target = record mine_target { ownership = generated }

abbrev demote_delta : Delta
demote_delta =
    commit op_demote (some mine_target) recorded demoted_target (codes "um") demote_output

demote-result :
    plan_path toy_hash (some mine_target) (some demote_intent) recorded false ≡ ok demote_delta
unfolding plan_path is_bound_merge Target-discrete plan_ensure plan_omitted commit next_target
    merge_ledgers merge_targets validate_ledger canonical_ledger canonical_version
    required_ledger_schema_version sort canonical_target validate_targets validate_target
    validate_realization_path validate_target_owner same_ownership valid_hash toy_hash
    validate_entries validate_entry matches_ledger_source matches_kebab validate_relative_path
    validate_target_path validate_shared_surface_path entry_key entry_less target_less zeros equal
    less insert_all insert_sorted has_prefix cut_prefix contains split in_range preserves
    has_unpreserved_content has_nonempty_fragment Ledger-discrete
demote-result = refl

plan_path-stays_shared_example : DemotedOnRequest (some demote_intent)
unfolding commit
plan_path-stays_shared_example =
    plan_path-stays_shared toy_hash mine_target (some demote_intent) recorded false refl refl
      demote-result demoted_target (inl refl) refl

abbrev same_intent : Intent
same_intent = record merge_intent {
  path = codes "old";
  content = codes "x";
  mode_bits = 0o644;
  ownership = generated;
  entries = entry ∷ [];
}

small-result : ltb max_target_bytes (length same_intent.content) ≡ false
small-result = refl

abbrev next : Target
next = next_target toy_hash (some old_target) same_intent recorded

valid-result :
    is_ok (
      validate_ledger
        (canonical_ledger (record { schema_version = current_version; targets = next ∷ [] })))
    ≡ true
unfolding plan_path is_bound_merge Target-discrete plan_ensure plan_omitted commit next_target
    merge_ledgers merge_targets validate_ledger canonical_ledger canonical_version
    required_ledger_schema_version sort canonical_target validate_targets validate_target
    validate_realization_path validate_target_owner same_ownership valid_hash toy_hash
    validate_entries validate_entry matches_ledger_source matches_kebab validate_relative_path
    validate_target_path validate_shared_surface_path entry_key entry_less target_less zeros equal
    less insert_all insert_sorted has_prefix cut_prefix contains split in_range preserves
    has_unpreserved_content has_nonempty_fragment Ledger-discrete
valid-result = refl

same-result : canonical_target next ≡ old_target
unfolding plan_path is_bound_merge Target-discrete plan_ensure plan_omitted commit next_target
    merge_ledgers merge_targets validate_ledger canonical_ledger canonical_version
    required_ledger_schema_version sort canonical_target validate_targets validate_target
    validate_realization_path validate_target_owner same_ownership valid_hash toy_hash
    validate_entries validate_entry matches_ledger_source matches_kebab validate_relative_path
    validate_target_path validate_shared_surface_path entry_key entry_less target_less zeros equal
    less insert_all insert_sorted has_prefix cut_prefix contains split in_range preserves
    has_unpreserved_content has_nonempty_fragment Ledger-discrete
same-result = refl

same-IsSteady : IsSteady toy_hash old_target same_intent recorded
same-IsSteady = record {
  small = small-result;
  valid = valid-result;
  recorded = same-result;
  there = refl;
  holds = refl;
  mode = refl;
}

steady_test :
    plan_ensure toy_hash (some old_target) same_intent recorded
    ≡ record { targets = old_target ∷ []; operations = [] }
steady_test =
    (plan_ensure-IsSteady_iff toy_hash old_target same_intent recorded refl).1 same-IsSteady

abbrev carried : Ledger
carried = record { schema_version = 1; targets = mine_target ∷ [] }

abbrev both : Ledger
both = record { schema_version = 1; targets = mine_target ∷ old_target ∷ [] }

merge-result : merge_ledgers ledger carried ≡ ok both
unfolding plan_path is_bound_merge Target-discrete plan_ensure plan_omitted commit next_target
    merge_ledgers merge_targets validate_ledger canonical_ledger canonical_version
    required_ledger_schema_version sort canonical_target validate_targets validate_target
    validate_realization_path validate_target_owner same_ownership valid_hash toy_hash
    validate_entries validate_entry matches_ledger_source matches_kebab validate_relative_path
    validate_target_path validate_shared_surface_path entry_key entry_less target_less zeros equal
    less insert_all insert_sorted has_prefix cut_prefix contains split in_range preserves
    has_unpreserved_content has_nonempty_fragment Ledger-discrete
merge-result = refl

merge_ledgers_exact_example :
    IsValidLedger both
    × ((s t : Target) → In s ledger.targets → In t carried.targets → s.path ≢ t.path)
    × ((t : Target)
        → In t both.targets
        → (s : Target) × In s (ledger.targets ++ carried.targets) × (t ≡ canonical_target s))
    × ((s : Target)
        → In s (ledger.targets ++ carried.targets)
        → In (canonical_target s) both.targets)
merge_ledgers_exact_example = merge_ledgers_exact ledger carried merge-result

ledger-result : validate_ledger ledger ≡ ok tt
unfolding plan_path is_bound_merge Target-discrete plan_ensure plan_omitted commit next_target
    merge_ledgers merge_targets validate_ledger canonical_ledger canonical_version
    required_ledger_schema_version sort canonical_target validate_targets validate_target
    validate_realization_path validate_target_owner same_ownership valid_hash toy_hash
    validate_entries validate_entry matches_ledger_source matches_kebab validate_relative_path
    validate_target_path validate_shared_surface_path entry_key entry_less target_less zeros equal
    less insert_all insert_sorted has_prefix cut_prefix contains split in_range preserves
    has_unpreserved_content has_nonempty_fragment Ledger-discrete
ledger-result = refl

validate_ledger-IsValidLedger_example : IsValidLedger ledger
validate_ledger-IsValidLedger_example = validate_ledger-IsValidLedger ledger ledger-result

abbrev unsorted : Ledger
unsorted = record { schema_version = 1; targets = old_target ∷ mine_target ∷ [] }

canonical_ledger_idem_example :
    (canonical_ledger (canonical_ledger unsorted) ≡ canonical_ledger unsorted)
    × IsSorted target_less (canonical_ledger unsorted).targets
canonical_ledger_idem_example = canonical_ledger_idem unsorted
