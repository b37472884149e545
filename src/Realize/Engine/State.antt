-- ===== src/Realize/Engine/State.antt =====
-- internal/realize/transaction.go and tessl_guard.go: the operations on the state files that join a
-- plan, and the targets that a live Tessl manifest owns.
use agentic_context_registry.Base.{
  ℕ, Bool, true, false, not, ◌&&◌, ◌||◌, List, [], ◌∷◌, ◌++◌, Option, none, some, Bytes, codes,
  equal, has_prefix, split, if◌then◌else◌, any, ltb, ◌==◌, Result, ok, err, ◌>>=◌, ◌>>◌, fail_if,
  sort,
}
use agentic_context_registry.Realize.Model.{
  unset, Ledger, Operation, op_create, op_update, unstated, Plan,
}
use agentic_context_registry.Realize.RealizationPath.{clean}
use agentic_context_registry.Realize.Filesystem.{FileSnapshot}
use agentic_context_registry.Realize.Planner.Run.{operation_less}
use agentic_context_registry.Realize.Journal.Store.{unreadable, file, Store, lookup}
use agentic_context_registry.Realize.Journal.Manifest.{JournalError}
use agentic_context_registry.Realize.Journal.Machine.{Machine}
use agentic_context_registry.Realize.Journal.Apply.{snapshot_at}

pub record StateFile : Type 0 where
  pub path : Bytes
  pub content : Bytes
  pub mode_bits : ℕ

pub data StateError : Type 0 where
  unsupported_path repeated_path invalid_mode : Bytes → StateError
  state_unreadable : JournalError → StateError
  state_not_prepared : StateError

-- It renders the state files from the planned ledger, or fails.
abbrev pub StateFinalizer : Type 0
StateFinalizer = Ledger → Option (List StateFile)

unfoldable pub is_state_path : Bytes → Bool
unfolding equal
is_state_path path = equal path (codes "agents.yaml") || equal path (codes ".agents/registry.lock")

state_operation : Machine → StateFile → FileSnapshot → Operation
state_operation m state snapshot = record {
  kind = if snapshot.exists then op_update else op_create;
  path = state.path;
  ownership_before = unset;
  ownership_after = unset;
  before_hash = snapshot.hash;
  after_hash = m.content_hash state.content;
  reason = unstated;
  git_exclusion = false;
  mode_bits = state.mode_bits;
  content = state.content;
  deletes = false;
  before_exists = snapshot.exists;
  before_mode = snapshot.mode_bits;
  physical_root = [];
  physical_path = [];
  state_file = true;
}

-- The file is there as it should be.
is_current_state : Machine → StateFile → FileSnapshot → Bool
unfolding equal
is_current_state m state snapshot =
    snapshot.exists
    && equal snapshot.hash (m.content_hash state.content)
    && snapshot.mode_bits == state.mode_bits

state_snapshot : Machine → Store → Bytes → Result StateError FileSnapshot
unfolding snapshot_at
state_snapshot m s path = elim (snapshot_at m s (record { root = []; path = path })) [
  | ok snapshot ↦ ok snapshot
  | err e ↦ err (state_unreadable e)
]

-- The loop; `seen` are the paths of the files before.
unfoldable pub state_operations :
    Machine → Store → List Bytes → List StateFile → Result StateError (List Operation)
unfolding is_state_path state_snapshot is_current_state state_operation equal
state_operations m s seen [] = ok []
state_operations m s seen (state ∷ states) = do
  fail_if (not (is_state_path state.path)) (unsupported_path state.path)
  fail_if (any (equal state.path) seen) (repeated_path state.path)
  fail_if (state.mode_bits == 0 || ltb 0o777 state.mode_bits) (invalid_mode state.path)
  snapshot ← state_snapshot m s state.path
  rest ← state_operations m s (state.path ∷ seen) states
  ok (if is_current_state m state snapshot then rest else state_operation m state snapshot ∷ rest)

or_unprepared : Option (List StateFile) → Result StateError (List StateFile)
or_unprepared none = err state_not_prepared
or_unprepared (some files) = ok files

unfoldable pub append_state_operations :
    Machine → Store → StateFinalizer → Plan → Result StateError Plan
unfolding state_operations or_unprepared operation_less
append_state_operations m s finalize plan = do
  files ← or_unprepared (finalize plan.next_ledger)
  added ← state_operations m s [] files
  ok (record plan { operations = sort operation_less (plan.operations ++ added) })

-- `liveTesslManifest`: `none` when it cannot be inspected.
unfoldable pub live_tessl_manifest : Store → Option Bool
unfolding lookup
live_tessl_manifest s = elim (lookup s (record { root = []; path = codes "tessl.json" })) [
  | unreadable ↦ none
  | file _ _ ↦ some true
  | _ ↦ some false
]

unfoldable pub tessl_owned_target : Bytes → Bool
unfolding equal has_prefix split
tessl_owned_target filename =
    let (component, components) = split b'/' filename in
    equal filename (codes ".tessl")
    || has_prefix filename (codes ".tessl/")
    || any (λ c. has_prefix c (codes "tessl__")) (component ∷ components)

-- The first path that Tessl owns.
unfoldable pub validate_tessl_owned_targets : List Operation → Result Bytes (Unit {0})
unfolding tessl_owned_target clean
validate_tessl_owned_targets [] = ok tt
validate_tessl_owned_targets (o ∷ os) = do
  fail_if (tessl_owned_target (clean o.path)) (clean o.path)
  validate_tessl_owned_targets os
