-- ===== src/Realize/Journal/Recovery/Checks.antt =====
-- internal/realize/journal.go: the loop that checks the entries, for a journal of a realization whose
-- targets hold their before-state or their after-state.
use agentic_context_registry.Base.{
  ℕ, Bool, true, false, [], Bytes, equal_refl, length, ltb, ==_refl, ◌≡◌, ◌⊎◌, inl, inr, refl, sym,
  ◌∙◌, Bool-cases, true≢false, ok,
}
use agentic_context_registry.Realize.Filesystem.{
  max_target_bytes, read_node, snapshot_file, validate_parent_directories,
}
use agentic_context_registry.Realize.Journal.Store.{
  Item, absent, file, Location, Store, lookup, disk_at, JournalFileSnapshot, no_journal_file,
  inspect_item, snapshot_journal_file,
}
use agentic_context_registry.Realize.Journal.Parents.{
  IsFolder, IsOpen, Above, validate_parent_directories-IsOpen,
}
use agentic_context_registry.Realize.Journal.Manifest.{JournalEntry}
use agentic_context_registry.Realize.Journal.Machine.{Machine}
use agentic_context_registry.Realize.Journal.Recovery.{
  image, entry_location, read_before, matches_before, matches_after,
}

-- The item is what an entry says of a state: a regular file that is not too large to read, by its hash
-- and its mode, or nothing.
abbrev pub Shows : (Bytes → Bytes) → Item → Bool → Bytes → ℕ → Type 0
Shows content_hash (file content perm) true hash mode_bits =
    (content_hash content ≡ hash)
    × (perm ≡ mode_bits)
    × (ltb max_target_bytes (length content) ≡ false)
Shows content_hash absent false hash mode_bits = Unit
Shows _ _ _ _ _ = ⊥

-- The before-image is in the journal, and the target's directories are there.
pub record Kept (images start s : Store) (e : JournalEntry) (l : Location) : Type 0 where
  pub content : Bytes
  pub image_mode : ℕ
  pub found : lookup images (image e.before_image) ≡ file content image_mode
  pub same : lookup start l ≡ file content e.before_mode
  pub size : length content ≡ e.before_size
  pub above_start : Above IsFolder start l
  pub above : Above IsFolder s l

-- An entry whose target holds the item of the start, or the one that the transaction writes.
pub record EntryInFlight (m : Machine) (exclusion : Bytes × Bytes) (images start s : Store)
    (e : JournalEntry) : Type 0 where
  pub location : Location
  pub located : entry_location m exclusion e ≡ ok location
  pub realized : (e.operation ≡ []) × (e.symlink_target ≡ [])
  pub above : Above IsOpen s location
  pub before :
      Shows m.content_hash (lookup start location) e.before_exists e.before_hash e.before_mode
  pub image_kept : (e.before_exists ≡ false) ⊎ Kept images start s e location
  pub current :
      (lookup s location ≡ lookup start location)
      ⊎ Shows m.content_hash (lookup s location) e.after_exists e.after_hash e.after_mode

-- What a snapshot of such an item says.
abbrev Describes : JournalFileSnapshot → Bool → Bytes → ℕ → Type 0
Describes c exists hash mode_bits =
    (c.exists ≡ exists)
    × ((exists ≡ false) ⊎ ((c.hash ≡ hash) × (c.mode_bits ≡ mode_bits)))
    × (c.symlink_target ≡ [])

module _ (content_hash : Bytes → Bytes) (s : Store) (l : Location) where
  pub snapshot_journal_file-Shows :
      (exists : Bool) (hash : Bytes) (mode_bits : ℕ)
      → Above IsOpen s l
      → Shows content_hash (lookup s l) exists hash mode_bits
      → (c : JournalFileSnapshot) × (snapshot_journal_file content_hash s l ≡ ok c)
        × Describes c exists hash mode_bits
  unfolding snapshot_journal_file inspect_item snapshot_file read_node disk_at
  snapshot_journal_file-Shows exists hash mode_bits above h = by_item (lookup s l) refl exists h
    where
      passed : validate_parent_directories (disk_at s l.root) l.path ≡ ok tt
      passed = validate_parent_directories-IsOpen s l above

      read_file :
          (content : Bytes) (perm : ℕ)
          → lookup s l ≡ file content perm
          → ltb max_target_bytes (length content) ≡ false
          → snapshot_file content_hash (disk_at s l.root) l.path
            ≡ ok (record {
              exists = true;
              content = content;
              mode_bits = perm;
              hash = content_hash content;
            })
      read_file content perm e small = rw (passed, disk_at, e, read_node, small) refl

      by_item :
          (i : Item)
          → lookup s l ≡ i
          → (exists : Bool) → Shows content_hash i exists hash mode_bits
          → (c : JournalFileSnapshot) × (snapshot_journal_file content_hash s l ≡ ok c)
            × Describes c exists hash mode_bits
      by_item absent e false h = (no_journal_file, rw (passed, e) refl, (refl, inl refl, refl))
      by_item (file content perm) e true h = (
        record {
          exists = true;
          content = content;
          mode_bits = perm;
          hash = content_hash content;
          symlink_target = [];
        },
        rw (passed, e, inspect_item, read_file content perm e h.2) refl,
        (refl, inr (h.0, h.1), refl),
      )
      by_item _ e _ h = absurd h

pub matches_before-Describes :
    (e : JournalEntry) (c : JournalFileSnapshot)
    → e.symlink_target ≡ []
    → Describes c e.before_exists e.before_hash e.before_mode
    → matches_before e c ≡ true
unfolding matches_before
matches_before-Describes e c plain (x, told, z) = elim (Bool-cases e.before_exists) [
  | inr b ↦ rw (x, b) refl
  | inl b ↦ elim told [
    | inl b' ↦ absurd (true≢false (sym b ∙ b'))
    | inr (h, p) ↦ rw (x, b, h, p, z, plain, equal_refl e.before_hash, ==_refl e.before_mode) refl
  ]
]

pub matches_after-Describes :
    (e : JournalEntry) (c : JournalFileSnapshot)
    → Describes c e.after_exists e.after_hash e.after_mode
    → matches_after e c ≡ true
unfolding matches_after
matches_after-Describes e c (x, told, z) = elim (Bool-cases e.after_exists) [
  | inr b ↦ rw (x, b) refl
  | inl b ↦ elim told [
    | inl b' ↦ absurd (true≢false (sym b ∙ b'))
    | inr (h, p) ↦ rw (x, b, h, p, z, equal_refl e.after_hash, ==_refl e.after_mode) refl
  ]
]

pub read_before-Kept :
    (m : Machine) (images start s : Store) (e : JournalEntry) (l : Location)
    (k : Kept images start s e l)
    → Shows m.content_hash (lookup start l) e.before_exists e.before_hash e.before_mode
    → e.before_exists ≡ true
    → read_before m.content_hash images e ≡ ok k.content
unfolding read_before
read_before-Kept m images start s e l k shown there =
    let hash : m.content_hash k.content ≡ e.before_hash = (rw (k.same, there) at shown).0 in
    rw (there, k.found, k.size, hash, equal_refl e.before_hash, ==_refl e.before_size) refl
