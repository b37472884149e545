-- ===== src/Realize/Planner/Tests.antt =====
-- A small project: one generated file that no intent wants any more, and a user's file that an
-- intent merges into; the theorems of the planner at these inputs.
use agentic_context_registry.Base.{
  ℕ, zero, suc, true, false, List, [], ◌∷◌, ◌++◌, some, Bytes, codes, equal, ◌≡◌, refl, inl, inr,
  if◌then◌else◌, is_empty, ok, In, ◌⊎◌, sort, less, insert_all, insert_sorted, has_prefix,
  cut_prefix, contains, split, in_range,
}
use agentic_context_registry.Realize.Model.{
  generated, shared, artifact_file, managed_block, Entry, Target, Ledger, ensure, Intent, Operation,
  Plan, op_merge, op_remove, unmanaged, merge_unmanaged, remove_owned, same_ownership,
  Ledger-discrete,
}
use agentic_context_registry.Realize.RealizationPath.{
  validate_relative_path, validate_target_path, validate_shared_surface_path,
  validate_realization_path, valid_hash, matches_ledger_source, matches_kebab,
}
use agentic_context_registry.Realize.Ledger.{
  canonical_ledger, canonical_target, canonical_version, required_ledger_schema_version,
  validate_ledger, validate_targets, validate_target, validate_target_owner, validate_entries,
  validate_entry, entry_key, entry_less, target_less,
}
use agentic_context_registry.Realize.Filesystem.{
  Disk, missing, regular, snapshot_file, FileSnapshot,
}
use agentic_context_registry.Realize.Git.{GitContext}
use agentic_context_registry.Realize.Planner.Decide.{
  plan_ensure, next_target, preserves, has_unpreserved_content, has_nonempty_fragment,
}
use agentic_context_registry.Realize.Planner.Remove.{plan_omitted}
use agentic_context_registry.Realize.Planner.Safety.{plan-deletes-IsRecorded, IsRecorded}
use agentic_context_registry.Realize.Planner.UserContent.{
  plan-keeps_user_content, HasUserBytes, Harmless,
}
use agentic_context_registry.Realize.Planner.Trace.{IsExclusion}
use agentic_context_registry.Realize.Planner.NextLedger.{plan-IsSound, IsSound}
use agentic_context_registry.Realize.Planner.Run.{Environment, plan, find_target}

unfoldable pub zeros : ℕ → Bytes
zeros zero = []
zeros (suc n) = b'0' ∷ zeros n

-- A stand-in for SHA-256 that tells the empty file from the others.
unfoldable pub toy_hash : Bytes → Bytes
unfolding zeros
toy_hash content = codes "sha256:" ++ ((if is_empty content then b'1' else b'2') ∷ zeros 63)

abbrev pub entry : Entry
entry = record {
  source = codes "github:o/p";
  artifact_id = codes "r";
  artifact_kind = artifact_file;
  source_path = codes "r.md";
  adapter = codes "codex";
  adapter_version = codes "1";
  managed_hash = codes "sha256:" ++ zeros 64;
}

abbrev pub old_target : Target
old_target = record {
  path = codes "old";
  owner = [];
  mode_bits = 0o644;
  ownership = generated;
  output_hash = toy_hash (codes "x");
  excluded = false;
  entries = entry ∷ [];
}

abbrev pub ledger : Ledger
ledger = record { schema_version = 1; targets = old_target ∷ [] }

unfoldable pub disk : Disk
disk path =
    if equal path (codes "old")
    then regular (codes "x") 0o644
    else if equal path (codes "mine")
    then regular (codes "u") 0o644
    else missing

abbrev env : Environment
env = record {
  content_hash = toy_hash;
  open_root = λ _. some disk;
  inspect = λ _ _.
      ok (record { enabled = false; tracked = λ _. false; exclude_root = []; exclude_path = [] });
}

-- The user's file "mine" keeps its byte, and gets a managed one behind it.
abbrev pub merge_intent : Intent
merge_intent = record {
  action = ensure;
  path = codes "mine";
  owner = [];
  content = codes "um";
  mode_bits = 0;
  ownership = shared;
  entries = record entry { artifact_kind = managed_block } ∷ [];
  observed_hash = toy_hash (codes "u");
  managed_intact = true;
  explicit_demotion = false;
  preserved_content = codes "u" ∷ [];
}

abbrev pub mine_target : Target
mine_target = record {
  path = codes "mine";
  owner = [];
  mode_bits = 0o644;
  ownership = shared;
  output_hash = toy_hash (codes "um");
  excluded = false;
  entries = record entry { artifact_kind = managed_block } ∷ [];
}

abbrev pub merge_mine : Operation
merge_mine = record {
  kind = op_merge;
  path = codes "mine";
  ownership_before = unmanaged;
  ownership_after = shared;
  before_hash = toy_hash (codes "u");
  after_hash = toy_hash (codes "um");
  reason = merge_unmanaged;
  git_exclusion = false;
  mode_bits = 0o644;
  content = codes "um";
  deletes = false;
  before_exists = true;
  before_mode = 0o644;
  physical_root = [];
  physical_path = [];
  state_file = false;
}

abbrev pub remove_old : Operation
remove_old = record {
  kind = op_remove;
  path = codes "old";
  ownership_before = generated;
  ownership_after = unmanaged;
  before_hash = toy_hash (codes "x");
  after_hash = [];
  reason = remove_owned;
  git_exclusion = false;
  mode_bits = 0;
  content = [];
  deletes = true;
  before_exists = true;
  before_mode = 0o644;
  physical_root = [];
  physical_path = [];
  state_file = false;
}

abbrev pub the_plan : Plan
the_plan = record {
  operations = merge_mine ∷ remove_old ∷ [];
  next_ledger = record { schema_version = 1; targets = mine_target ∷ [] };
  ledger_changed = true;
}

plan-result : plan env [] ledger (merge_intent ∷ []) [] ≡ ok the_plan
unfolding plan validate_ledger canonical_ledger canonical_version required_ledger_schema_version
    sort canonical_target validate_targets validate_target validate_realization_path
    validate_target_owner same_ownership valid_hash toy_hash validate_entries validate_entry
    matches_ledger_source matches_kebab validate_relative_path validate_target_path
    validate_shared_surface_path entry_key entry_less target_less snapshot_file zeros disk equal
    less insert_all insert_sorted has_prefix cut_prefix contains split in_range plan_ensure
    next_target preserves has_unpreserved_content has_nonempty_fragment plan_omitted Ledger-discrete
plan-result = refl

plan-deletes-IsRecorded_example :
    (root : Disk) × (git : GitContext) × (inspected : List Bytes) × (env.open_root [] ≡ some root)
    × (env.inspect [] inspected ≡ ok git)
    × IsRecorded toy_hash root (canonical_ledger ledger).targets remove_old
    × (git.tracked (codes "old") ≡ false)
    × In (codes "old") inspected
plan-deletes-IsRecorded_example =
    plan-deletes-IsRecorded env [] ledger (merge_intent ∷ []) [] plan-result remove_old
      (inr (inl refl)) refl

plan-keeps_user_content_example :
    IsExclusion merge_mine
    ⊎ ((root : Disk) × (snapshot : FileSnapshot) × (env.open_root [] ≡ some root)
        × (snapshot_file toy_hash root merge_mine.path ≡ ok snapshot)
        × (HasUserBytes (find_target merge_mine.path (canonical_ledger ledger).targets) snapshot
            → Harmless (merge_intent ∷ []) snapshot merge_mine))
plan-keeps_user_content_example =
    plan-keeps_user_content env [] ledger (merge_intent ∷ []) [] plan-result merge_mine (inl refl)

plan-IsSound_example : IsSound env [] ledger the_plan
plan-IsSound_example = plan-IsSound env [] ledger (merge_intent ∷ []) [] plan-result
