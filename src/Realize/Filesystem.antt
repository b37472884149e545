-- ===== src/Realize/Filesystem.antt =====
-- internal/realize/filesystem.go: the snapshot of one file below a project root. A disk that stays
-- as it is between the calls of one plan: the tests for a file that changes while it is read pass.
use agentic_context_registry.Base.{
  ℕ, Bool, true, false, List, [], ◌∷◌, ◌++◌, Bytes, codes, equal, split, ltb, if◌then◌else◌, length,
  is_empty, Result, ok, err, ◌>>◌,
}
use agentic_context_registry.Realize.RealizationPath.{clean}

-- What `Lstat`, and for a regular file a read of it, find at a path.
pub data Node : Type 0 where
  missing inspect_fails special directory : Node
  regular : Bytes → ℕ → Node

abbrev pub Disk : Type 0
Disk = Bytes → Node

pub data SnapshotError : Type 0 where
  parent_unreadable parent_not_directory file_unreadable not_regular file_too_large : SnapshotError

pub record FileSnapshot : Type 0 where
  pub exists : Bool
  pub content : Bytes
  pub mode_bits : ℕ
  pub hash : Bytes

abbrev pub no_file : FileSnapshot
no_file = record { exists = false; content = []; mode_bits = 0; hash = [] }

abbrev pub max_target_bytes : ℕ
max_target_bytes = 33554432

-- `path.Dir` of a relative path: what stands before the last slash, cleaned.
before_last_slash : Bytes → Bytes → List Bytes → Bytes
before_last_slash acc part [] = acc
before_last_slash acc part (next ∷ parts) =
    before_last_slash (if is_empty acc then part else acc ++ (b'/' ∷ part)) next parts

unfoldable pub path_dir : Bytes → Bytes
unfolding before_last_slash split clean
path_dir filename =
    let (part, parts) = split b'/' filename in clean (before_last_slash [] part parts)

-- The loop over the components, from `current` on.
unfoldable pub check_parents : Disk → Bytes → List Bytes → Result SnapshotError (Unit {0})
check_parents disk current [] = ok tt
check_parents disk current (component ∷ components) =
    let next = if is_empty current then component else clean (current ++ (b'/' ∷ component)) in
    let rest = check_parents disk next components in
    elim (disk next) [
      | missing ↦ ok tt
      | inspect_fails ↦ err parent_unreadable
      | directory ↦ rest
      | _ ↦ err parent_not_directory
    ]

unfoldable pub validate_parent_directories : Disk → Bytes → Result SnapshotError (Unit {0})
unfolding check_parents path_dir equal
validate_parent_directories disk filename =
    if equal (path_dir filename) (codes ".")
    then ok tt
    else let (part, parts) = split b'/' (path_dir filename) in check_parents disk [] (part ∷ parts)

module _ (content_hash : Bytes → Bytes) where
  unfoldable pub read_node : Node → Result SnapshotError FileSnapshot
  read_node missing = ok no_file
  read_node inspect_fails = err file_unreadable
  read_node special = err not_regular
  read_node directory = err not_regular
  read_node (regular content perm) =
      if ltb max_target_bytes (length content)
      then err file_too_large
      else ok (record {
        exists = true;
        content = content;
        mode_bits = perm;
        hash = content_hash content;
      })

  unfoldable pub snapshot_file : Disk → Bytes → Result SnapshotError FileSnapshot
  unfolding read_node validate_parent_directories
  snapshot_file disk filename = do
    validate_parent_directories disk filename
    read_node (disk filename)
