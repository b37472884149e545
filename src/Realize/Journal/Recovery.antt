-- ===== src/Realize/Journal/Recovery.antt =====
-- internal/realize/journal.go: recoverPendingTransaction. The first pass checks every entry and
-- changes nothing; the second restores the targets that hold their after-state.
pub mod Step
pub mod Loops
pub mod Checks
pub mod Passes
pub mod Restored
pub mod Refused
use agentic_context_registry.Base.{
  ℕ, Bool, true, false, not, ◌&&◌, ◌||◌, List, [], ◌∷◌, ◌++◌, Option, none, some, Bytes, codes,
  equal, if◌then◌else◌, length, any, is_empty, ltb, ◌==◌, Result, ok, err, ◌>>=◌, ◌>>◌, fail_if,
  sort, suc,
}
use agentic_context_registry.Realize.Journal.Store.{
  Item, absent, unreadable, folder, link, file, Location, Store, lookup, put, occupied,
  JournalFileSnapshot, FileError, snapshot_journal_file, write_file_atomic,
  ensure_parent_directories,
}
use agentic_context_registry.Realize.Journal.Manifest.{
  JournalEntry, JournalDirectory, JournalManifest, Journal, World, Detail, before_image_corrupt,
  matches_neither, target_unreadable, JournalError, pending_transaction, recovery_conflict,
  parents_not_recreated, target_not_removed, target_not_restored, directory_unreadable,
  is_file_transaction_removal, find_journal, conflict, load_journal, inspect_transactions,
}
use agentic_context_registry.Realize.Journal.Machine.{
  Machine, Outcome, done, failed, after, store_step, remove_item, set_journal, retire_journal,
  recovery_git_exclusion, journal_location,
}

pub record Recovery : Type 0 where
  pub entry : JournalEntry
  pub location : Location
  pub before : Bytes
  pub restore : Bool

unfoldable pub matches_before : JournalEntry → JournalFileSnapshot → Bool
unfolding equal
matches_before e current =
    if current.exists
    then e.before_exists
      && equal current.hash e.before_hash
      && current.mode_bits == e.before_mode
      && equal current.symlink_target e.symlink_target
    else not e.before_exists

unfoldable pub matches_after : JournalEntry → JournalFileSnapshot → Bool
unfolding equal
matches_after e current =
    if current.exists
    then e.after_exists
      && equal current.hash e.after_hash
      && current.mode_bits == e.after_mode
      && is_empty current.symlink_target
    else not e.after_exists

abbrev pub image : Bytes → Location
image name = record { root = []; path = name }

unfoldable pub read_before : (Bytes → Bytes) → Store → JournalEntry → Result Detail Bytes
unfolding lookup equal
read_before content_hash images e =
    let read : Result Detail Bytes = elim (lookup images (image e.before_image)) [
      | file content _ ↦
          if length content == e.before_size && equal (content_hash content) e.before_hash
          then ok content
          else err (before_image_corrupt e.path)
      | _ ↦ err (before_image_corrupt e.path)
    ] in
    if e.before_exists then read else ok []

abbrev pub readable {ℓ} : {A : Type ℓ} → Result FileError A → Result Detail A
readable (ok a) = ok a
readable (err e) = err (target_unreadable e)

abbrev pub entry_location : Machine → Bytes × Bytes → JournalEntry → Result Detail Location
entry_location m exclusion e =
    journal_location m exclusion e.git_exclusion e.path e.physical_root e.physical_path

-- One turn of the first loop.
unfoldable pub check_entry :
    Machine → Bytes × Bytes → Store → Store → JournalEntry → Result Detail Recovery
unfolding journal_location snapshot_journal_file read_before matches_before matches_after
check_entry m exclusion images s e = do
  location ← entry_location m exclusion e
  current ← readable (snapshot_journal_file m.content_hash s location)
  before ← read_before m.content_hash images e
  fail_if (not (matches_before e current) && not (matches_after e current)) (matches_neither e.path)
  ok (record { entry = e; location = location; before = before; restore = matches_after e current })

unfoldable pub check_entries :
    Machine → Bytes × Bytes → Store → Store → List JournalEntry → Result Detail (List Recovery)
unfolding check_entry
check_entries m exclusion images s [] = ok []
check_entries m exclusion images s (e ∷ es) = do
  r ← check_entry m exclusion images s e
  rs ← check_entries m exclusion images s es
  ok (r ∷ rs)

-- The removed file is in the journal still, as it was.
removed_intact : JournalEntry → Result FileError JournalFileSnapshot → Bool
unfolding equal
removed_intact e (err _) = false
removed_intact e (ok state) =
    state.exists
    && equal state.hash e.before_hash
    && state.mode_bits == e.before_mode
    && equal state.symlink_target e.symlink_target

unfoldable pub removed_is_intact : Machine → Store → Recovery → Bool
unfolding is_file_transaction_removal removed_intact snapshot_journal_file
removed_is_intact m images r =
    is_file_transaction_removal r.entry.operation
    && not (is_empty r.entry.removed_image)
    && removed_intact r.entry
        (snapshot_journal_file m.content_hash images (image r.entry.removed_image))
    && not (m.rename_fails r.location)

abbrev pub images_of : Bytes → World → Store
images_of id w = elim (find_journal id w.transactions) [ none ↦ [] | some j ↦ j.images ]

abbrev set_images : Bytes → Store → World → World
set_images id images w = elim (find_journal id w.transactions) [
  | none ↦ w
  | some j ↦ record w {
    transactions = set_journal id (record j { images = images }) w.transactions;
  }
]

rename_back : Bytes → Recovery → World → World
unfolding lookup find_journal set_journal
rename_back id r w =
    let name = image r.entry.removed_image in
    set_images id (put name absent (images_of id w))
      (record w { store = put r.location (lookup (images_of id w) name) w.store })

-- The symbolic link, once nothing stands at its place.
place_link : Machine → Recovery → Store → Option Store
unfolding lookup
place_link m r s = elim (lookup s r.location) [
  | absent ↦
      if m.restore_fails r.location
      then none
      else some (put r.location (link m.link_mode r.entry.symlink_target) s)
  | _ ↦ none
]

unfoldable pub write_back : Machine → Recovery → World → Outcome
unfolding remove_item place_link write_file_atomic
write_back m r w =
    if is_empty r.entry.symlink_target
    then elim (write_file_atomic (m.restore_fails r.location) w.store r.location r.before
        r.entry.before_mode) [
          | ok s ↦ done (record w { store = s })
          | err _ ↦ failed w (target_not_restored r.entry.path)
        ]
    else after
        (store_step w (target_not_removed r.entry.path)
          (remove_item (m.restore_fails r.location) w.store r.location))
        (λ v. store_step v (target_not_restored r.entry.path) (place_link m r v.store))

-- One turn of the second loop.
unfoldable pub restore_target : Machine → Bytes → World → Recovery → Outcome
unfolding remove_item write_back rename_back removed_is_intact ensure_parent_directories
    find_journal
restore_target m id w r =
    let parents = ensure_parent_directories m.identity r.location w.store in
    let placed = record w { store = parents.store } in
    if not r.restore
    then done w
    else if not r.entry.before_exists
    then store_step w (target_not_removed r.entry.path)
        (remove_item (m.restore_fails r.location) w.store r.location)
    else if parents.failure
    then failed placed (parents_not_recreated r.entry.path)
    else if removed_is_intact m (images_of id w) r
    then done (rename_back id r placed)
    else write_back m r placed

unfoldable pub restore_targets : Machine → Bytes → List Recovery → World → Outcome
unfolding restore_target
restore_targets m id [] w = done w
restore_targets m id (r ∷ rs) w = after (restore_target m id w r) (restore_targets m id rs)

slashes : Bytes → ℕ
slashes [] = 0
slashes (c ∷ s) = if c == b'/' then suc (slashes s) else slashes s

-- The deepest first.
unfoldable pub by_depth : JournalDirectory → JournalDirectory → Bool
unfolding slashes
by_depth a b = ltb (slashes b.path) (slashes a.path)

-- A directory goes when it is the one that was made, and empty.
unfoldable pub remove_if_made : JournalDirectory → Location → World → Outcome
unfolding lookup occupied
remove_if_made d l w = elim (lookup w.store l) [
  | unreadable ↦ failed w (directory_unreadable d.path)
  | folder device inode ↦
      if device == d.device && inode == d.inode && not (occupied w.store l)
      then done (record w { store = put l absent w.store })
      else done w
  | _ ↦ done w
]

unfoldable pub remove_directories :
    Machine → Bytes → Bytes × Bytes → List JournalDirectory → World → Outcome
unfolding journal_location remove_if_made
remove_directories m id exclusion [] w = done w
remove_directories m id exclusion (d ∷ ds) w =
    let here : Outcome =
      elim (journal_location m exclusion d.git_exclusion d.path d.physical_root d.physical_path) [
        | err detail ↦ failed w (recovery_conflict id detail)
        | ok l ↦ remove_if_made d l w
      ] in
    after here (remove_directories m id exclusion ds)

unfoldable pub uses_exclusion : JournalManifest → Bool
uses_exclusion manifest =
    any (λ (e : JournalEntry). e.git_exclusion) manifest.entries
    || any (λ (d : JournalDirectory). d.git_exclusion) manifest.directories

-- Both loops, the directories and the end of the journal.
unfoldable pub restore_all :
    Machine → Bytes → Bytes × Bytes → JournalManifest → List Recovery → World → Outcome
unfolding restore_targets remove_directories by_depth retire_journal
restore_all m id exclusion manifest recoveries w =
    after
      (after (restore_targets m id recoveries w)
        (remove_directories m id exclusion (sort by_depth manifest.directories)))
      (retire_journal m id)

-- What is found out before anything changes.
unfoldable pub check_recovery :
    Machine
    → Bytes
    → World
    → Result JournalError (JournalManifest × (Bytes × Bytes) × List Recovery)
unfolding load_journal recovery_git_exclusion uses_exclusion check_entries find_journal
check_recovery m id w = do
  manifest ← load_journal m.decode id w
  exclusion ← conflict id (recovery_git_exclusion m (uses_exclusion manifest))
  recoveries ← conflict id (check_entries m exclusion (images_of id w) w.store manifest.entries)
  ok (manifest, exclusion, recoveries)

unfoldable pub recover_journal : Machine → Bytes → World → Outcome
unfolding check_recovery restore_all
recover_journal m id w = elim (check_recovery m id w) [
  | err e ↦ failed w e
  | ok checked ↦ restore_all m id checked.1 checked.0 checked.2 w
]

unfoldable pub recover_pending_transaction : Machine → World → Outcome
unfolding inspect_transactions recover_journal
recover_pending_transaction m w = elim (inspect_transactions m.decode w) [
  | ok _ ↦ done w
  | err (pending_transaction id _) ↦ recover_journal m id w
  | err e ↦ failed w e
]
