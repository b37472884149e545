-- ===== src/Realize/Journal/Manifest.antt =====
-- internal/realize/journal.go: the manifest of a transaction, what loadJournal accepts, and which
-- transactions are pending. The JSON codec and `git rev-parse` are parameters.
use agentic_context_registry.Base.{
  ℕ, Bool, true, false, not, ◌&&◌, ◌||◌, List, [], ◌∷◌, ◌++◌, Option, none, some, Bytes, codes,
  equal, has_prefix, split, if◌then◌else◌, is_empty, ◌==◌, Result, ok, err, ◌>>=◌, ◌>>◌, fail_if,
  is_ok, less, sort,
}
use agentic_context_registry.Realize.RealizationPath.{
  validate_relative_path, validate_target_path, validate_realization_path,
  validate_realization_directory_path,
}
use agentic_context_registry.Realize.Filesystem.{SnapshotError, path_dir}
use agentic_context_registry.Realize.Journal.Store.{
  Item, absent, unreadable, folder, Store, lookup, FileError,
}

abbrev pub transaction_directory : Bytes
transaction_directory = codes ".agents/.acr-transactions"

abbrev pub journal_schema_version : ℕ
journal_schema_version = 1

pub record JournalEntry : Type 0 where
  pub path : Bytes
  pub operation : Bytes
  pub before_exists : Bool
  pub before_hash : Bytes
  pub before_size : ℕ
  pub before_mode : ℕ
  pub symlink_target : Bytes
  pub before_image : Bytes
  pub removed_image : Bytes
  pub after_exists : Bool
  pub after_hash : Bytes
  pub after_mode : ℕ
  pub git_exclusion : Bool
  pub physical_root : Bytes
  pub physical_path : Bytes

pub record JournalDirectory : Type 0 where
  pub path : Bytes
  pub git_exclusion : Bool
  pub physical_root : Bytes
  pub physical_path : Bytes
  pub device : ℕ
  pub inode : ℕ

pub record JournalManifest : Type 0 where
  pub schema_version : ℕ
  pub id : Bytes
  pub entries : List JournalEntry
  pub directories : List JournalDirectory

-- The directory of one transaction: `manifest.json`, and the files of `before` and `removed`, whose
-- locations have the empty root.
pub record Journal : Type 0 where
  pub manifest_file : Option Bytes
  pub images : Store

-- The project, and the directories below `transaction_directory` by name.
pub record World : Type 0 where
  pub store : Store
  pub transactions : List (Bytes × Journal)

-- What the message of a RecoveryConflictError says; the text is the path that it names.
pub data Detail : Type 0 where
  multiple_journals no_readable_manifest undecodable_manifest disagreeing_id : Detail
  exclusion_unresolved root_unavailable : Detail
  invalid_target_path incomplete_before_image invalid_before_image : Bytes → Detail
  unsupported_operation invalid_removed_image invalid_directory : Bytes → Detail
  unidentified_directory invalid_exclusion_root invalid_exclusion_path : Bytes → Detail
  exclusion_elsewhere before_image_corrupt matches_neither : Bytes → Detail
  target_unreadable : FileError → Detail

pub data JournalError : Type 0 where
  pending_transaction : Bytes → ℕ → JournalError
  recovery_conflict : Bytes → Detail → JournalError
  unsupported_journal_version : ℕ → JournalError
  transaction_parent_invalid transaction_parent_unreadable : JournalError
  parents_not_recreated target_not_removed target_not_restored : Bytes → JournalError
  directory_unreadable : Bytes → JournalError
  journal_not_retired : JournalError
  planned_path_invalid planned_root_invalid planned_target_invalid : Bytes → JournalError
  planned_root_unavailable target_changed hash_inconsistent : Bytes → JournalError
  snapshot_failed : SnapshotError → JournalError
  transaction_id_invalid staging_not_created journal_not_written journal_not_synced : JournalError
  parents_not_created write_failed : Bytes → JournalError
  ledger_not_persisted : JournalError
  rolled_back : JournalError → JournalError
  incomplete_recovery : JournalError → JournalError → JournalError

unfoldable pub is_file_transaction_removal : Bytes → Bool
unfolding equal
is_file_transaction_removal operation =
    equal operation (codes "remove") || equal operation (codes "vendor-remove")

within : Bytes → Bytes → Bool
unfolding equal has_prefix
within directory filename = equal filename directory || has_prefix filename (directory ++ codes "/")

unfoldable pub validate_file_transaction_path : Bytes → Bool
unfolding validate_relative_path within
validate_file_transaction_path filename =
    is_ok (validate_relative_path filename)
    && not (
        within (codes ".git") filename
        || within transaction_directory filename
        || within (codes ".agents/vendor") filename)

vendor_parts : List Bytes → Bool
vendor_parts (vendor ∷ workspace ∷ pkg ∷ _ ∷ _) =
    equal vendor (codes "vendor") && not (is_empty workspace) && not (is_empty pkg)
vendor_parts _ = false

unfoldable pub validate_vendor_removal_path : Bytes → Bool
unfolding validate_relative_path split vendor_parts equal
validate_vendor_removal_path filename =
    let (first, parts) = split b'/' filename in
    is_ok (validate_relative_path filename) && equal first (codes ".agents") && vendor_parts parts

-- A valid target of an entry inside the project, by the operation that changes it.
valid_entry_path : Bytes → Bytes → Bool
unfolding equal validate_realization_path validate_vendor_removal_path
    validate_file_transaction_path
valid_entry_path operation path =
    if is_empty operation
    then equal path (codes "agents.yaml")
      || equal path (codes ".agents/registry.lock")
      || is_ok (validate_realization_path path)
    else if equal operation (codes "vendor-remove")
    then validate_vendor_removal_path path
    else validate_file_transaction_path path

valid_image : Bytes → Bytes → Bool
unfolding validate_target_path path_dir equal
valid_image directory image = is_ok (validate_target_path image) && equal (path_dir image) directory

known_operation : Bytes → Bool
unfolding is_file_transaction_removal equal
known_operation operation =
    is_empty operation || is_file_transaction_removal operation || equal operation (codes "splice")

unfoldable pub check_entry_form : JournalEntry → Result Detail (Unit {0})
unfolding valid_entry_path valid_image known_operation is_file_transaction_removal
check_entry_form e = do
  fail_if (is_empty e.path || not e.git_exclusion && not (valid_entry_path e.operation e.path))
      (invalid_target_path e.path)
  fail_if
      (e.before_exists && (is_empty e.before_image || is_empty e.before_hash || e.before_mode == 0))
      (incomplete_before_image e.path)
  fail_if (not (is_empty e.before_image) && not (valid_image (codes "before") e.before_image))
      (invalid_before_image e.path)
  fail_if (not (known_operation e.operation)) (unsupported_operation e.path)
  fail_if
      (not (is_empty e.removed_image)
        && not (
            is_file_transaction_removal e.operation
            && valid_image (codes "removed") e.removed_image))
      (invalid_removed_image e.path)

unfoldable pub check_directory_form : JournalDirectory → Result Detail (Unit {0})
unfolding validate_realization_directory_path
check_directory_form d = do
  fail_if
      (is_empty d.path
        || not d.git_exclusion && not (is_ok (validate_realization_directory_path d.path)))
      (invalid_directory d.path)
  fail_if (d.device == 0 || d.inode == 0) (unidentified_directory d.path)

unfoldable pub check_each :
    {A : Type 0} → (A → Result Detail (Unit {0})) → List A → Result Detail (Unit {0})
check_each check [] = ok tt
check_each check (a ∷ rest) = check a >> check_each check rest

unfoldable pub find_journal : Bytes → List (Bytes × Journal) → Option Journal
unfolding equal
find_journal id [] = none
find_journal id ((name, j) ∷ ts) = if equal name id then some j else find_journal id ts

abbrev pub conflict {ℓ} : {A : Type ℓ} → Bytes → Result Detail A → Result JournalError A
conflict id (ok a) = ok a
conflict id (err detail) = err (recovery_conflict id detail)

abbrev pub or_conflict {ℓ} : {A : Type ℓ} → Bytes → Detail → Option A → Result JournalError A
or_conflict id detail none = err (recovery_conflict id detail)
or_conflict id detail (some a) = ok a

abbrev manifest_of : Option Journal → Option Bytes
manifest_of none = none
manifest_of (some j) = j.manifest_file

-- `decode` is the strict decoder with the end-of-file check behind it.
module _ (decode : Bytes → Option JournalManifest) where
  unfoldable pub load_journal : Bytes → World → Result JournalError JournalManifest
  unfolding find_journal check_each check_entry_form check_directory_form equal
  load_journal id w = do
    data_read ← or_conflict id no_readable_manifest (manifest_of (find_journal id w.transactions))
    manifest ← or_conflict id undecodable_manifest (decode data_read)
    fail_if (not (manifest.schema_version == journal_schema_version))
        (unsupported_journal_version manifest.schema_version)
    fail_if (not (equal manifest.id id)) (recovery_conflict id disagreeing_id)
    conflict id (check_each check_entry_form manifest.entries)
    conflict id (check_each check_directory_form manifest.directories)
    ok manifest

  is_staging : Bytes → Bool
  unfolding has_prefix
  is_staging name = has_prefix name (codes ".staging-")

  staging_names : List (Bytes × Journal) → List Bytes
  unfolding is_staging
  staging_names [] = []
  staging_names ((name, _) ∷ ts) =
      if is_staging name
      then (transaction_directory ++ (b'/' ∷ name)) ∷ staging_names ts
      else staging_names ts

  unfoldable pub pending_names : List (Bytes × Journal) → List Bytes
  unfolding has_prefix
  pending_names [] = []
  pending_names ((name, _) ∷ ts) =
      if has_prefix name (codes ".") then pending_names ts else name ∷ pending_names ts

  -- The notes name the stale staging directories.
  unfoldable pub inspect_pending : World → List Bytes → Result JournalError (List Bytes)
  unfolding load_journal staging_names
  inspect_pending w [] = ok (sort less (staging_names w.transactions))
  inspect_pending w (id ∷ []) =
      load_journal id w >>= λ manifest. err (pending_transaction id manifest.schema_version)
  inspect_pending w (_ ∷ _ ∷ _) = err (recovery_conflict [] multiple_journals)

  -- Whether the directory is there.
  unfoldable pub parent_state : Item → Result JournalError Bool
  parent_state absent = ok false
  parent_state (folder _ _) = ok true
  parent_state unreadable = err transaction_parent_unreadable
  parent_state _ = err transaction_parent_invalid

  unfoldable pub inspect_transactions : World → Result JournalError (List Bytes)
  unfolding inspect_pending pending_names parent_state lookup
  inspect_transactions w = do
    agents ← parent_state (lookup w.store (record { root = []; path = codes ".agents" }))
    let directory = lookup w.store (record { root = []; path = transaction_directory })
    let found = inspect_pending w (sort less (pending_names w.transactions))
    if agents then (parent_state directory >>= λ root. if root then found else ok []) else ok []

  -- `cleanStagingTransactions`: it leaves the canonical journals.
  unfoldable pub clean_staging : List (Bytes × Journal) → List (Bytes × Journal)
  unfolding is_staging
  clean_staging [] = []
  clean_staging ((name, j) ∷ ts) =
      if is_staging name then clean_staging ts else (name, j) ∷ clean_staging ts
