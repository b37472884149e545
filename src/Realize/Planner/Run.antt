-- ===== src/Realize/Planner/Run.antt =====
-- internal/realize/planner.go: Plan, with the retained ledger and the Git exclusions.
use agentic_context_registry.Base.{
  Bool, true, false, not, ◌&&◌, ◌||◌, List, [], ◌∷◌, ◌++◌, Option, none, some, Bytes, codes, equal,
  if◌then◌else◌, any, is_empty, map, is_some, is_yes, Result, ok, err, ◌>>=◌, ◌>>◌, fail_if, is_ok,
  less, sort,
}
use agentic_context_registry.Realize.Model.{
  generated, shared, Target, Ledger, IntentAction, preserve, remove, unsupported_action, Intent,
  OperationKind, op_create, op_update, op_merge, op_preserve, op_promote, op_demote, op_conflict,
  op_remove, exclusion_markers, synchronize_exclusions, Operation, Plan, baseline_version,
  current_version, same_ownership, Ledger-discrete,
}
use agentic_context_registry.Realize.RealizationPath.{validate_realization_path}
use agentic_context_registry.Realize.Ledger.{LedgerError, canonical_ledger, validate_ledger}
use agentic_context_registry.Realize.Filesystem.{Disk, SnapshotError, FileSnapshot, snapshot_file}
use agentic_context_registry.Realize.Git.{
  GitError, GitContext, git_exclude_path, rewrite_git_exclude,
}
use agentic_context_registry.Realize.Planner.Decide.{
  Delta, nothing, operation, conflict_at, plan_ensure,
}
use agentic_context_registry.Realize.Planner.Remove.{plan_omitted, plan_preserve, plan_remove}

pub data PlanError : Type 0 where
  current_ledger_invalid retained_ledger_invalid planned_ledger_invalid : LedgerError → PlanError
  too_many_retained project_unavailable intent_path_invalid duplicate_intent : PlanError
  retained_is_intent retained_is_owned unsupported_action_error : PlanError
  exclusion_file_unnamed exclusion_root_unavailable : PlanError
  git_failed : GitError → PlanError
  snapshot_failed : SnapshotError → PlanError

-- What the planner calls: SHA-256, `os.OpenRoot`, and the Git inspector that it is built with.
pub record Environment : Type 0 where
  pub content_hash : Bytes → Bytes
  pub open_root : Bytes → Option Disk
  pub inspect : Bytes → List Bytes → Result GitError GitContext

-- `fmt.Errorf("…: %w", err)`.
abbrev pub wrap {ℓ κ μ} : {E : Type ℓ} {F : Type κ} {A : Type μ} → (E → F) → Result E A → Result F A
wrap f (ok a) = ok a
wrap f (err e) = err (f e)

abbrev pub or_fail {ℓ κ} : {E : Type ℓ} {A : Type κ} → E → Option A → Result E A
or_fail e none = err e
or_fail e (some a) = ok a

pub resolve_retained : List Ledger → Result PlanError Ledger
resolve_retained [] = ok (record { schema_version = baseline_version; targets = [] })
resolve_retained (retained ∷ []) = do
  wrap retained_ledger_invalid (validate_ledger (canonical_ledger retained))
  ok (canonical_ledger retained)
resolve_retained (_ ∷ _ ∷ _) = err too_many_retained

unfoldable pub find_intent : Bytes → List Intent → Option Intent
find_intent path [] = none
find_intent path (i ∷ is) = if equal i.path path then some i else find_intent path is

unfoldable pub find_target : Bytes → List Target → Option Target
find_target path [] = none
find_target path (t ∷ ts) = if equal t.path path then some t else find_target path ts

-- The loop over the intents that fills `intentByPath`; `seen` are its keys.
pub check_intents : List Bytes → List Intent → Result PlanError (Unit {0})
check_intents seen [] = ok tt
check_intents seen (i ∷ is) = do
  fail_if (not (is_ok (validate_realization_path i.path))) intent_path_invalid
  fail_if (any (equal i.path) seen) duplicate_intent
  check_intents (i.path ∷ seen) is

pub check_retained : List Intent → List Target → List Target → Result PlanError (Unit {0})
unfolding find_intent find_target
check_retained intents current [] = ok tt
check_retained intents current (t ∷ ts) = do
  fail_if (is_some (find_intent t.path intents)) retained_is_intent
  fail_if (is_some (find_target t.path current)) retained_is_owned
  check_retained intents current ts

unfoldable pub omitted_paths : List Intent → List Target → List Bytes
unfolding find_intent
omitted_paths intents [] = []
omitted_paths intents (t ∷ ts) =
    let rest = omitted_paths intents ts in
    if is_some (find_intent t.path intents) then rest else t.path ∷ rest

-- One turn of the loop over the paths, behind the snapshot.
unfoldable pub plan_wanted :
    (Bytes → Bytes)
    → Option Target
    → Intent
    → FileSnapshot
    → Bool
    → IntentAction
    → Result PlanError Delta
plan_wanted content_hash previous intent snapshot tracked preserve =
    ok (plan_preserve intent.path previous snapshot)
plan_wanted content_hash previous intent snapshot tracked remove =
    ok (plan_remove content_hash previous intent snapshot tracked)
plan_wanted content_hash previous intent snapshot tracked (unsupported_action _) =
    err unsupported_action_error
plan_wanted content_hash previous intent snapshot tracked _ =
    ok (plan_ensure content_hash previous intent snapshot)

unfoldable pub plan_path :
    (Bytes → Bytes) → Option Target → Option Intent → FileSnapshot → Bool → Result PlanError Delta
unfolding plan_wanted
plan_path content_hash previous (some intent) snapshot tracked =
    plan_wanted content_hash previous intent snapshot tracked intent.action
plan_path content_hash (some previous) none snapshot tracked =
    ok (plan_omitted content_hash previous snapshot tracked)
plan_path content_hash none none snapshot tracked = ok nothing

abbrev pub append : Delta → Delta → Delta
append a b = record { targets = a.targets ++ b.targets; operations = a.operations ++ b.operations }

module _ (content_hash : Bytes → Bytes) (disk : Disk) (git : GitContext) where
  -- One turn of the loop over the paths; `rest` is what the later turns give.
  unfoldable pub plan_turn :
      List Target → List Intent → Bytes → Result PlanError Delta → Result PlanError Delta
  unfolding plan_path find_intent find_target
  plan_turn current intents path rest = do
    snapshot ← wrap snapshot_failed (snapshot_file content_hash disk path)
    delta ←
        plan_path content_hash (find_target path current) (find_intent path intents) snapshot
          (git.tracked path)
    later ← rest
    ok (append delta later)

  -- The loop over the sorted paths; a path that was seen is passed over.
  unfoldable pub plan_paths :
      List Target → List Intent → List Bytes → List Bytes → Result PlanError Delta
  unfolding plan_turn
  plan_paths current intents seen [] = ok nothing
  plan_paths current intents seen (path ∷ paths) =
      let rest = plan_paths current intents (path ∷ seen) paths in
      let skipped = plan_paths current intents seen paths in
      if any (equal path) seen then skipped else plan_turn current intents path rest

-- `Excluded` of a target in a project that Git knows.
unfoldable pub is_excluded : GitContext → Target → Bool
is_excluded git t = same_ownership t.ownership generated && not (git.tracked t.path)

unfoldable pub excluded_paths : GitContext → List Target → List Bytes
unfolding is_excluded
excluded_paths git [] = []
excluded_paths git (t ∷ ts) =
    let rest = excluded_paths git ts in if is_excluded git t then t.path ∷ rest else rest

-- The root that holds the exclusion file, and its name there.
pub exclusion_file : Environment → Disk → GitContext → Result PlanError (Disk × Bytes)
exclusion_file env root git =
    if is_empty git.exclude_root
    then ok (root, git_exclude_path)
    else if is_empty git.exclude_path
    then err exclusion_file_unnamed
    else do
      opened ← or_fail exclusion_root_unavailable (env.open_root git.exclude_root)
      ok (opened, git.exclude_path)

unfoldable pub exclusion_operation : Environment → GitContext → FileSnapshot → Bytes → Operation
exclusion_operation env git snapshot updated =
    let base = operation op_merge git_exclude_path shared shared synchronize_exclusions in
    record base {
      before_hash = snapshot.hash;
      after_hash = env.content_hash updated;
      git_exclusion = true;
      mode_bits = if snapshot.exists then snapshot.mode_bits else 0o644;
      content = updated;
      before_exists = snapshot.exists;
      before_mode = snapshot.mode_bits;
      physical_root = git.exclude_root;
      physical_path = git.exclude_path;
      state_file = false;
    }

unfoldable pub synchronize :
    Environment → GitContext → FileSnapshot → Result GitError Bytes → List Operation
unfolding exclusion_operation
synchronize env git snapshot (err e) = conflict_at git_exclude_path shared exclusion_markers ∷ []
synchronize env git snapshot (ok updated) =
    if equal snapshot.content updated then [] else exclusion_operation env git snapshot updated ∷ []

unfoldable pub set_excluded : GitContext → Target → Target
unfolding is_excluded
set_excluded git t = record t { excluded = git.enabled && is_excluded git t }

-- `planGitExclusions`: the targets with their flags, and the operations that are added.
unfoldable pub plan_git_exclusions :
    Environment → Disk → GitContext → List Target → List Target → Result PlanError Delta
unfolding set_excluded excluded_paths exclusion_file synchronize
plan_git_exclusions env root git targets retained =
    let flagged = map (set_excluded git) targets in
    if not git.enabled then ok (record { targets = flagged; operations = [] }) else do
      (exclude_disk, exclude_path) ← exclusion_file env root git
      snapshot ← wrap snapshot_failed (snapshot_file env.content_hash exclude_disk exclude_path)
      let excluded = excluded_paths git targets ++ excluded_paths git retained
      let updated = rewrite_git_exclude snapshot.content excluded
      ok (record { targets = flagged; operations = synchronize env git snapshot updated })

kind_text : OperationKind → Bytes
kind_text op_create = codes "create"
kind_text op_update = codes "update"
kind_text op_merge = codes "merge"
kind_text op_preserve = codes "preserve"
kind_text op_promote = codes "promote"
kind_text op_demote = codes "demote"
kind_text op_conflict = codes "conflict"
kind_text op_remove = codes "remove"

unfoldable pub operation_less : Operation → Operation → Bool
unfolding kind_text
operation_less left right =
    if equal left.path right.path
    then less (kind_text left.kind) (kind_text right.kind)
    else less left.path right.path

-- The part of `Plan` behind the loop: flags, validation and the order of the operations.
unfoldable pub finish_plan :
    Environment → Disk → GitContext → Ledger → Ledger → Delta → Result PlanError Plan
unfolding plan_git_exclusions operation_less
finish_plan env root git current retained planned = do
  let before =
      canonical_ledger (record { schema_version = current_version; targets = planned.targets })
  exclusions ← plan_git_exclusions env root git before.targets retained.targets
  let next = canonical_ledger (record before { targets = exclusions.targets })
  wrap planned_ledger_invalid (validate_ledger next)
  ok (record {
    operations = sort operation_less (planned.operations ++ exclusions.operations);
    next_ledger = next;
    ledger_changed = not (is_yes (Ledger-discrete current next));
  })

unfoldable pub plan :
    Environment → Bytes → Ledger → List Intent → List Ledger → Result PlanError Plan
unfolding resolve_retained check_intents check_retained omitted_paths plan_paths finish_plan
plan env project ledger intents retained = do
  let current = canonical_ledger ledger
  wrap current_ledger_invalid (validate_ledger current)
  retained_ledger ← resolve_retained retained
  root ← or_fail project_unavailable (env.open_root project)
  check_intents [] intents
  check_retained intents current.targets retained_ledger.targets
  let paths = sort less (map (λ i. i.path) intents ++ omitted_paths intents current.targets)
  let inspected = sort less (paths ++ map (λ t. t.path) retained_ledger.targets)
  git ← wrap git_failed (env.inspect project inspected)
  planned ← plan_paths env.content_hash root git current.targets intents [] paths
  finish_plan env root git current retained_ledger planned

-- `Plan.HasConflicts` and `Plan.HasChanges` of model.go.
is_conflict : Operation → Bool
is_conflict o = elim o.kind [ op_conflict ↦ true | _ ↦ false ]

is_preserve : Operation → Bool
is_preserve o = elim o.kind [ op_preserve ↦ true | _ ↦ false ]

unfoldable pub has_conflicts : Plan → Bool
unfolding is_conflict
has_conflicts p = any is_conflict p.operations

unfoldable pub has_changes : Plan → Bool
unfolding is_preserve
has_changes p = p.ledger_changed || any (λ o. not (is_preserve o)) p.operations
