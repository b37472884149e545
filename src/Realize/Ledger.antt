-- ===== src/Realize/Ledger.antt =====
-- internal/realize/model.go: validation, canonical form and merge of ownership ledgers.
pub mod Sorted
pub mod Valid
use agentic_context_registry.Base.{
  ℕ, Bool, true, false, not, ◌&&◌, ◌||◌, List, [], ◌∷◌, ◌++◌, Bytes, codes, equal, ltb, ◌==◌,
  if◌then◌else◌, any, is_empty, map, Result, ok, err, ◌>>=◌, ◌>>◌, fail_if, is_ok, less, sort,
}
use agentic_context_registry.Realize.Model.{
  Ownership, generated, shared, ArtifactKind, artifact_file, managed_block, structured_entry, Entry,
  Target, Ledger, baseline_version, shared_surface_version, current_version, owner_coordinator,
  same_ownership,
}
use agentic_context_registry.Realize.RealizationPath.{
  validate_relative_path, validate_shared_surface_path, validate_realization_path, valid_hash,
  matches_ledger_source, matches_kebab,
}

pub data LedgerError : Type 0 where
  unsupported_schema coordinator_under_baseline target_path_invalid : LedgerError
  shared_without_owner coordinator_outside_surface unsupported_owner : LedgerError
  duplicate_target invalid_mode unsupported_target_ownership shared_excluded : LedgerError
  invalid_output_hash no_entries entry_incomplete entry_source_invalid : LedgerError
  artifact_id_invalid adapter_invalid unsupported_artifact_kind source_path_invalid : LedgerError
  invalid_managed_hash duplicate_entry merged_twice : LedgerError

unfoldable pub required_ledger_schema_version : Ledger → ℕ
required_ledger_schema_version ledger =
    if any (λ t. not (is_empty t.owner)) ledger.targets
    then shared_surface_version
    else baseline_version

unfoldable pub validate_target_owner : Target → Result LedgerError (Unit {0})
validate_target_owner target =
    let on_surface = is_ok (validate_shared_surface_path target.path) in
    if is_empty target.owner
    then fail_if on_surface shared_without_owner
    else if equal target.owner owner_coordinator
    then fail_if (not on_surface) coordinator_outside_surface
    else err unsupported_owner

is_supported_kind : ArtifactKind → Bool
is_supported_kind artifact_file = true
is_supported_kind managed_block = true
is_supported_kind structured_entry = true
is_supported_kind _ = false

unfoldable pub validate_entry : Entry → Result LedgerError (Unit {0})
unfolding is_supported_kind
validate_entry entry = do
  fail_if
      (is_empty entry.source
        || is_empty entry.artifact_id
        || is_empty entry.source_path
        || is_empty entry.adapter
        || is_empty entry.adapter_version)
      entry_incomplete
  fail_if (not (matches_ledger_source entry.source)) entry_source_invalid
  fail_if (not (matches_kebab entry.artifact_id)) artifact_id_invalid
  fail_if (not (matches_kebab entry.adapter)) adapter_invalid
  fail_if (not (is_supported_kind entry.artifact_kind)) unsupported_artifact_kind
  fail_if (not (is_ok (validate_relative_path entry.source_path))) source_path_invalid
  fail_if (not (valid_hash entry.managed_hash)) invalid_managed_hash

-- The key by which entries are sorted and told apart.
unfoldable pub entry_key : Entry → Bytes
entry_key entry = entry.source ++ (0 ∷ (entry.artifact_id ++ (0 ∷ entry.adapter)))

unfoldable pub validate_entries : List Bytes → List Entry → Result LedgerError (Unit {0})
validate_entries seen [] = ok tt
validate_entries seen (entry ∷ entries) = do
  validate_entry entry
  fail_if (any (equal (entry_key entry)) seen) duplicate_entry
  validate_entries (entry_key entry ∷ seen) entries

-- The checks of one target, in the order of the loop; `seen` holds the paths before it.
unfoldable pub validate_target : List Bytes → Target → Result LedgerError (Unit {0})
validate_target seen target = do
  fail_if (not (is_ok (validate_realization_path target.path))) target_path_invalid
  validate_target_owner target
  fail_if (any (equal target.path) seen) duplicate_target
  fail_if (target.mode_bits == 0 || ltb 0x1ff target.mode_bits) invalid_mode
  fail_if
      (not (same_ownership target.ownership generated || same_ownership target.ownership shared))
      unsupported_target_ownership
  fail_if (same_ownership target.ownership shared && target.excluded) shared_excluded
  fail_if (not (valid_hash target.output_hash)) invalid_output_hash
  fail_if (is_empty target.entries) no_entries
  validate_entries [] target.entries

unfoldable pub validate_targets : List Bytes → List Target → Result LedgerError (Unit {0})
validate_targets seen [] = ok tt
validate_targets seen (target ∷ targets) = do
  validate_target seen target
  validate_targets (target.path ∷ seen) targets

unfoldable pub validate_ledger : Ledger → Result LedgerError (Unit {0})
validate_ledger ledger = do
  fail_if
      (not (
        ledger.schema_version == baseline_version
        || ledger.schema_version == shared_surface_version))
      unsupported_schema
  fail_if (ltb ledger.schema_version (required_ledger_schema_version ledger))
      coordinator_under_baseline
  validate_targets [] ledger.targets

unfoldable pub entry_less : Entry → Entry → Bool
entry_less left right = less (entry_key left) (entry_key right)

unfoldable pub target_less : Target → Target → Bool
target_less left right = less left.path right.path

unfoldable pub canonical_target : Target → Target
canonical_target target = record target { entries = sort entry_less target.entries }

unfoldable pub canonical_version : Ledger → ℕ
canonical_version ledger =
    if ledger.schema_version == baseline_version || ledger.schema_version == shared_surface_version
    then required_ledger_schema_version ledger
    else ledger.schema_version

unfoldable pub canonical_ledger : Ledger → Ledger
canonical_ledger ledger = record {
  schema_version = canonical_version ledger;
  targets = sort target_less (map canonical_target ledger.targets);
}

-- The paths seen, first come first, or the refusal of a target that both inputs record.
unfoldable pub merge_targets : List Bytes → List Target → Result LedgerError (Unit {0})
merge_targets seen [] = ok tt
merge_targets seen (target ∷ targets) = do
  fail_if (any (equal target.path) seen) merged_twice
  merge_targets (target.path ∷ seen) targets

unfoldable pub merge_ledgers : Ledger → Ledger → Result LedgerError Ledger
unfolding merge_targets
merge_ledgers base carried = do
  let both = base.targets ++ carried.targets
  merge_targets [] both
  let merged = canonical_ledger (record { schema_version = current_version; targets = both })
  validate_ledger merged
  ok merged
