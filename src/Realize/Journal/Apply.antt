-- ===== src/Realize/Journal/Apply.antt =====
-- internal/realize/journal.go and transaction.go: applyPlanJournaled, with its journal. Nothing else
-- changes the project while it runs.
use agentic_context_registry.Base.{
  ℕ, suc, Bool, true, false, not, ◌&&◌, ◌||◌, List, [], ◌∷◌, ◌++◌, none, some, Bytes, codes, equal,
  has_prefix, contains_byte, if◌then◌else◌, length, is_empty, is_some, ◌==◌, Result, ok, err, ◌>>=◌,
  ◌>>◌, fail_if, is_ok, index_digits,
}
use agentic_context_registry.Realize.Model.{Operation, OperationKind, op_preserve}
use agentic_context_registry.Realize.RealizationPath.{
  validate_target_path, validate_realization_path,
}
use agentic_context_registry.Realize.Filesystem.{FileSnapshot, snapshot_file}
use agentic_context_registry.Realize.Journal.Store.{file, Location, Store, put, disk_at}
use agentic_context_registry.Realize.Journal.Manifest.{
  journal_schema_version, JournalEntry, JournalManifest, World, JournalError, planned_path_invalid,
  planned_root_invalid, planned_target_invalid, planned_root_unavailable, target_changed,
  hash_inconsistent, snapshot_failed, transaction_id_invalid, staging_not_created,
  journal_not_written, find_journal,
}
use agentic_context_registry.Realize.Journal.Machine.{Machine, clean_absolute}
use agentic_context_registry.Realize.Journal.Recovery.{image}

pub record PreparedOperation : Type 0 where
  pub operation : Operation
  pub location : Location
  pub snapshot : FileSnapshot

unfoldable pub resolve_operation_location : Machine → Operation → Result JournalError Location
unfolding clean_absolute validate_target_path
resolve_operation_location m o =
    let external = do
      fail_if (not (clean_absolute o.physical_root)) (planned_root_invalid o.path)
      fail_if (not (is_ok (validate_target_path o.physical_path))) (planned_target_invalid o.path)
      fail_if (not (m.opens o.physical_root)) (planned_root_unavailable o.path)
      ok (record { root = o.physical_root; path = o.physical_path })
    in if not o.git_exclusion || is_empty o.physical_root
      then ok (record { root = []; path = o.path })
      else external

unfoldable pub matches_before_state : Operation → FileSnapshot → Bool
unfolding equal
matches_before_state o snapshot =
    if snapshot.exists
    then o.before_exists && equal snapshot.hash o.before_hash && snapshot.mode_bits == o.before_mode
    else not o.before_exists

unfoldable pub needs_write : FileSnapshot → Operation → Bool
unfolding equal
needs_write snapshot o =
    not snapshot.exists
    || not (equal snapshot.hash o.after_hash)
    || not (snapshot.mode_bits == o.mode_bits)

unfoldable pub snapshot_at : Machine → Store → Location → Result JournalError FileSnapshot
unfolding snapshot_file disk_at
snapshot_at m s l = elim (snapshot_file m.content_hash (disk_at s l.root) l.path) [
  | ok snapshot ↦ ok snapshot
  | err e ↦ err (snapshot_failed e)
]

-- One turn of the loop that checks the operations, for one that is not is_preserved as it is.
unfoldable pub prepare_operation :
    Machine → Store → Operation → Result JournalError PreparedOperation
unfolding resolve_operation_location snapshot_at matches_before_state validate_realization_path
    equal
prepare_operation m s o = do
  fail_if
      (not o.git_exclusion && not o.state_file && not (is_ok (validate_realization_path o.path)))
      (planned_path_invalid o.path)
  location ← resolve_operation_location m o
  snapshot ← snapshot_at m s location
  fail_if (not (matches_before_state o snapshot)) (target_changed o.path)
  fail_if (not o.deletes && not (equal (m.content_hash o.content) o.after_hash))
      (hash_inconsistent o.path)
  ok (record { operation = o; location = location; snapshot = snapshot })

unfoldable pub is_mutation : PreparedOperation → Bool
unfolding needs_write
is_mutation p =
    not p.operation.deletes && needs_write p.snapshot p.operation
    || p.operation.deletes && p.snapshot.exists

is_preserved : OperationKind → Bool
is_preserved op_preserve = true
is_preserved _ = false

unfoldable pub prepare_operations :
    Machine → Store → List Operation → Result JournalError (List PreparedOperation)
unfolding prepare_operation is_mutation is_preserved
prepare_operations m s [] = ok []
prepare_operations m s (o ∷ os) =
    let rest = prepare_operations m s os in
    if is_preserved o.kind
    then rest
    else (prepare_operation m s o >>= λ p. rest >>= λ ps. ok (if is_mutation p then p ∷ ps else ps))

-- `before/%06d`.
unfoldable pub image_name : ℕ → Bytes
unfolding index_digits
image_name i = codes "before/" ++ index_digits i

unfoldable pub journal_entry : ℕ → PreparedOperation → JournalEntry
unfolding image_name
journal_entry i p = record {
  path = p.operation.path;
  operation = [];
  before_exists = p.snapshot.exists;
  before_hash = p.snapshot.hash;
  before_size = length p.snapshot.content;
  before_mode = p.snapshot.mode_bits;
  symlink_target = [];
  before_image = if p.snapshot.exists then image_name i else [];
  removed_image = [];
  after_exists = not p.operation.deletes;
  after_hash = p.operation.after_hash;
  after_mode = p.operation.mode_bits;
  git_exclusion = p.operation.git_exclusion;
  physical_root = p.operation.physical_root;
  physical_path = p.operation.physical_path;
}

unfoldable pub journal_entries : ℕ → List PreparedOperation → List JournalEntry
unfolding journal_entry
journal_entries i [] = []
journal_entries i (p ∷ ps) = journal_entry i p ∷ journal_entries (suc i) ps

unfoldable pub journal_images : ℕ → List PreparedOperation → Store
unfolding image_name
journal_images i [] = []
journal_images i (p ∷ ps) =
    let rest = journal_images (suc i) ps in
    if p.snapshot.exists
    then put (image (image_name i)) (file p.snapshot.content 0o600) rest
    else rest

-- `marshalJournal`.
abbrev pub marshal_journal : Machine → JournalManifest → Bytes
marshal_journal m manifest = m.encode manifest ++ codes "\n"

-- The manifest and the images of a new transaction.
unfoldable pub new_manifest : Bytes → List PreparedOperation → JournalManifest
unfolding journal_entries
new_manifest id ps = record {
  schema_version = journal_schema_version;
  id = id;
  entries = journal_entries 0 ps;
  directories = [];
}

-- The journal appears by one rename of the staging directory; before that, nothing stays.
unfoldable pub open_journal :
    Machine → List PreparedOperation → World → Bytes → Result JournalError (Bytes × World)
unfolding new_manifest journal_images contains_byte has_prefix find_journal
open_journal m ps w id = do
  fail_if (is_empty id || contains_byte id b'/' || has_prefix id (codes ".")) transaction_id_invalid
  fail_if (is_some (find_journal (codes ".staging-" ++ id) w.transactions)) staging_not_created
  fail_if (m.journal_fails id || is_some (find_journal id w.transactions)) journal_not_written
  ok (
    id,
    record w {
      transactions =
          (
            id,
            record {
              manifest_file = some (marshal_journal m (new_manifest id ps));
              images = journal_images 0 ps;
            },
          )
          ∷ w.transactions;
    },
  )

unfoldable pub create_journal :
    Machine → List PreparedOperation → World → Result JournalError (Bytes × World)
unfolding open_journal
create_journal m ps w = elim m.transaction_id [
  | none ↦ err transaction_id_invalid
  | some id ↦ open_journal m ps w id
]
