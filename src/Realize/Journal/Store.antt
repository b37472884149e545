-- ===== src/Realize/Journal/Store.antt =====
-- internal/realize: the file system below the project root and below Git's exclusion directory, with
-- what the transactions read and write there (filesystem.go, transaction.go, file_transaction.go).
-- A location's root is empty for the project, and an absolute path otherwise.
use agentic_context_registry.Base.{
  ℕ, Bool, true, false, not, ◌&&◌, List, [], ◌∷◌, ◌++◌, Bytes, codes, equal, has_prefix, split,
  if◌then◌else◌, is_empty, any, Result, ok, err, ◌>>=◌, ◌>>◌,
}
use agentic_context_registry.Realize.RealizationPath.{clean}
use agentic_context_registry.Realize.Filesystem.{
  Node, missing, inspect_fails, special, directory, regular, Disk, SnapshotError, FileSnapshot,
  snapshot_file, validate_parent_directories, path_dir,
}

-- A directory carries its device and its inode, a symbolic link its mode and its target.
pub data Item : Type 0 where
  absent unreadable other : Item
  folder : ℕ → ℕ → Item
  link : ℕ → Bytes → Item
  file : Bytes → ℕ → Item

pub record Location : Type 0 where
  pub root : Bytes
  pub path : Bytes

-- The last write stands first.
abbrev pub Store : Type 0
Store = List (Location × Item)

unfoldable pub same_location : Location → Location → Bool
unfolding equal
same_location a b = equal a.root b.root && equal a.path b.path

unfoldable pub lookup : Store → Location → Item
unfolding same_location
lookup [] l = absent
lookup ((k, i) ∷ s) l = if same_location k l then i else lookup s l

abbrev pub put : Location → Item → Store → Store
put l i s = (l, i) ∷ s

abbrev pub node : Item → Node
node absent = missing
node unreadable = inspect_fails
node other = special
node (folder _ _) = directory
node (link _ _) = special
node (file content perm) = regular content perm

unfoldable pub disk_at : Store → Bytes → Disk
unfolding lookup
disk_at s root path = node (lookup s (record { root = root; path = path }))

abbrev is_absent : Item → Bool
is_absent absent = true
is_absent _ = false

-- Something stands below the directory, so `rmdir` answers ENOTEMPTY.
unfoldable pub occupied : Store → Location → Bool
unfolding lookup equal has_prefix
occupied s l =
    any
      (λ (e : Location × Item).
        equal e.0.root l.root
        && has_prefix e.0.path (l.path ++ codes "/")
        && not (is_absent (lookup s e.0)))
      s

pub data FileError : Type 0 where
  snapshot_error : SnapshotError → FileError
  link_unreadable target_special parent_special parent_missing destination_special : FileError
  write_fault : FileError

pub record JournalFileSnapshot : Type 0 where
  pub exists : Bool
  pub content : Bytes
  pub mode_bits : ℕ
  pub hash : Bytes
  pub symlink_target : Bytes

abbrev pub no_journal_file : JournalFileSnapshot
no_journal_file = record {
  exists = false;
  content = [];
  mode_bits = 0;
  hash = [];
  symlink_target = [];
}

abbrev pub file_result {ℓ} : {A : Type ℓ} → Result SnapshotError A → Result FileError A
file_result (ok a) = ok a
file_result (err e) = err (snapshot_error e)

abbrev pub of_file : FileSnapshot → JournalFileSnapshot
of_file s = record {
  exists = s.exists;
  content = s.content;
  mode_bits = s.mode_bits;
  hash = s.hash;
  symlink_target = [];
}

module _ (content_hash : Bytes → Bytes) where
  -- Behind the parents' check.
  unfoldable pub inspect_item : Disk → Bytes → Item → Result FileError JournalFileSnapshot
  unfolding snapshot_file
  inspect_item disk path absent = ok no_journal_file
  inspect_item disk path unreadable = err link_unreadable
  inspect_item disk path (link perm target) = ok (record {
    exists = true;
    content = target;
    mode_bits = perm;
    hash = content_hash target;
    symlink_target = target;
  })
  inspect_item disk path other = err target_special
  inspect_item disk path (folder _ _) = err target_special
  inspect_item disk path (file _ _) =
      file_result (snapshot_file content_hash disk path) >>= λ s. ok (of_file s)

  unfoldable pub snapshot_journal_file : Store → Location → Result FileError JournalFileSnapshot
  unfolding inspect_item disk_at validate_parent_directories
  snapshot_journal_file s l = do
    file_result (validate_parent_directories (disk_at s l.root) l.path)
    inspect_item (disk_at s l.root) l.path (lookup s l)

abbrev pub in_root : Location → Bytes → Location
in_root l path = record l { path = path }

-- `writeFileAtomic`: the new content replaces a regular file or nothing, below a directory.
unfoldable pub check_directory : Item → Result FileError (Unit {0})
check_directory absent = err parent_missing
check_directory (folder _ _) = ok tt
check_directory _ = err parent_special

unfoldable pub check_destination : Item → Result FileError (Unit {0})
check_destination absent = ok tt
check_destination (file _ _) = ok tt
check_destination _ = err destination_special

-- The checks before the temporary file is written.
unfoldable pub check_write : Store → Location → Result FileError (Unit {0})
unfolding check_directory check_destination disk_at validate_parent_directories path_dir equal
check_write s l = do
  file_result (validate_parent_directories (disk_at s l.root) l.path)
  if equal (path_dir l.path) (codes ".")
      then ok tt
      else check_directory (lookup s (in_root l (path_dir l.path)))
  check_destination (lookup s l)

-- The temporary file replaces the destination, or one of the writes fails.
unfoldable pub replace_file : Bool → Store → Location → Bytes → ℕ → Result FileError Store
replace_file fault s l content perm =
    if fault then err write_fault else ok (put l (file content perm) s)

unfoldable pub write_file_atomic : Bool → Store → Location → Bytes → ℕ → Result FileError Store
unfolding check_write replace_file
write_file_atomic fault s l content perm = do check_write s l; replace_file fault s l content perm

-- `ensureParentDirectories`: the store with the new directories, those that were made, last first,
-- and the failure that ended the loop. `identity` is the device and the inode that a new one gets.
pub record Parents : Type 0 where
  pub store : Store
  pub created : List (Location × (ℕ × ℕ))
  pub failure : Bool

module _ (identity : Location → ℕ × ℕ) (l : Location) where
  unfoldable pub parent_step : Parents → Bytes → Item → Parents
  parent_step p path (folder _ _) = p
  parent_step p path absent = record {
    store =
        put (in_root l path) (folder (identity (in_root l path)).0 (identity (in_root l path)).1)
          p.store;
    created = (in_root l path, identity (in_root l path)) ∷ p.created;
    failure = false;
  }
  parent_step p path _ = record p { failure = true }

  unfoldable pub make_parents : Parents → Bytes → List Bytes → Parents
  unfolding parent_step lookup clean
  make_parents p current [] = p
  make_parents p current (component ∷ components) =
      let next = if is_empty current then component else clean (current ++ (b'/' ∷ component)) in
      let q = parent_step p next (lookup p.store (in_root l next)) in
      let rest = make_parents q next components in if q.failure then q else rest

  unfoldable pub ensure_parent_directories : Store → Parents
  unfolding make_parents path_dir split equal
  ensure_parent_directories s =
      let (part, parts) = split b'/' (path_dir l.path) in
      let none_yet : Parents = record { store = s; created = []; failure = false } in
      if equal (path_dir l.path) (codes ".")
      then none_yet
      else make_parents none_yet [] (part ∷ parts)
