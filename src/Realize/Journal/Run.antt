-- ===== src/Realize/Journal/Run.antt =====
-- internal/realize/journal.go and transaction.go: the writes of applyPlanJournaled, the end of the
-- journal, and the recovery when one of them fails.
pub mod Images
pub mod Placed
pub mod Changed
pub mod Opened
pub mod Flight
pub mod Atomic
pub mod Success
use agentic_context_registry.Base.{
  ℕ, Bool, true, false, not, ◌&&◌, ◌||◌, List, [], ◌∷◌, ◌++◌, Option, none, some, Bytes, codes,
  if◌then◌else◌, is_empty, map, ◌==◌, Result, ok, err, ◌>>=◌, ◌>>◌, fail_if, less, sort,
}
use agentic_context_registry.Realize.Model.{Ledger, Operation, Plan}
use agentic_context_registry.Realize.Journal.Store.{
  Item, absent, Location, Store, lookup, write_file_atomic, Parents, ensure_parent_directories,
}
use agentic_context_registry.Realize.Journal.Manifest.{
  JournalDirectory, JournalManifest, Journal, World, JournalError, target_changed,
  journal_not_synced, journal_not_written, parents_not_created, write_failed, ledger_not_persisted,
  rolled_back, incomplete_recovery, find_journal, load_journal,
}
use agentic_context_registry.Realize.Journal.Machine.{
  Machine, Outcome, done, failed, after, store_step, remove_item, set_journal, retire_journal,
}
use agentic_context_registry.Realize.Journal.Recovery.{recover_pending_transaction}
use agentic_context_registry.Realize.Journal.Apply.{
  PreparedOperation, matches_before_state, snapshot_at, prepare_operations, create_journal,
  marshal_journal,
}

-- `Root.Remove` fails on what is not there.
unfoldable pub remove_present : Bool → Store → Location → Option Store
unfolding remove_item lookup
remove_present fault s l = elim (lookup s l) [ absent ↦ none | _ ↦ remove_item fault s l ]

unfoldable pub perform : Machine → Store → PreparedOperation → Result JournalError Store
unfolding remove_present write_file_atomic
perform m s p =
    let fault = m.write_fails p.location in
    let o = p.operation in
    if o.deletes
    then elim (remove_present fault s p.location) [
      | none ↦ err (write_failed o.path)
      | some after ↦ ok after
    ]
    else elim (write_file_atomic fault s p.location o.content o.mode_bits) [
      | err _ ↦ err (write_failed o.path)
      | ok after ↦ ok after
    ]

unfoldable pub write_operation : Machine → Store → PreparedOperation → Result JournalError Store
unfolding snapshot_at matches_before_state perform
write_operation m s p = do
  current ← snapshot_at m s p.location
  fail_if (not (matches_before_state p.operation current)) (target_changed p.operation.path)
  perform m s p

-- The journal's record of one directory that was made.
journal_directory : PreparedOperation → Location × (ℕ × ℕ) → JournalDirectory
journal_directory p made = record {
  path =
      if p.operation.git_exclusion
      then p.operation.path ++ (codes ":parent:" ++ made.0.path)
      else made.0.path;
  git_exclusion = p.operation.git_exclusion;
  physical_root = p.operation.physical_root;
  physical_path = made.0.path;
  device = made.1.0;
  inode = made.1.1;
}

directory_less : JournalDirectory → JournalDirectory → Bool
unfolding less
directory_less a b = less a.path b.path

set_manifest : Machine → Bytes → JournalManifest → World → World
unfolding find_journal set_journal
set_manifest m id manifest w = elim (find_journal id w.transactions) [
  | none ↦ w
  | some j ↦ record w {
    transactions =
        set_journal id (record j { manifest_file = some (marshal_journal m manifest) })
          w.transactions;
  }
]

unfoldable pub record_created_directories :
    Machine → Bytes → PreparedOperation → List (Location × (ℕ × ℕ)) → World → Outcome
unfolding load_journal set_manifest directory_less journal_directory
record_created_directories m id p created w =
    let written = elim (load_journal m.decode id w) as (λ _. Outcome) [
      | err e ↦ failed w e
      | ok manifest ↦
          if m.rewrite_fails id
          then failed w journal_not_written
          else done (
              set_manifest m id
                (record manifest {
                  directories =
                      sort directory_less
                        (manifest.directories ++ map (journal_directory p) created);
                })
                w)
    ] in
    if is_empty created then done w else written

unfoldable pub write_step : Machine → PreparedOperation → World → Outcome
unfolding write_operation
write_step m p w = elim (write_operation m w.store p) [
  | err e ↦ failed w e
  | ok s ↦ done (record w { store = s })
]

-- One turn of the loop over the mutations. What was created before a failure stays for the recovery.
unfoldable pub apply_mutation : Machine → Bytes → World → PreparedOperation → Outcome
unfolding ensure_parent_directories record_created_directories write_step
apply_mutation m id w p =
    let parents = ensure_parent_directories m.identity p.location w.store in
    let placed = record w { store = parents.store } in
    if p.operation.deletes
    then write_step m p w
    else if parents.failure
    then failed placed (parents_not_created p.operation.path)
    else after (record_created_directories m id p parents.created placed) (write_step m p)

unfoldable pub apply_mutations : Machine → Bytes → List PreparedOperation → World → Outcome
unfolding apply_mutation
apply_mutations m id [] w = done w
apply_mutations m id (p ∷ ps) w = after (apply_mutation m id w p) (apply_mutations m id ps)

-- The finalizer is transactional: when it fails, the store is as before.
abbrev pub Finalizer : Type 0
Finalizer = Ledger → Store → Option Store

unfoldable pub finalize_step : Option Finalizer → Ledger → World → Outcome
finalize_step none ledger w = done w
finalize_step (some finalize) ledger w = store_step w ledger_not_persisted (finalize ledger w.store)

unfoldable pub recover_apply_failure : Machine → World → JournalError → Outcome
unfolding recover_pending_transaction
recover_apply_failure m w e =
    let recovered = recover_pending_transaction m w in
    elim recovered.failure [
      | none ↦ failed recovered.world (rolled_back e)
      | some r ↦ failed recovered.world (incomplete_recovery e r)
    ]

-- The end: the journal goes, or the project goes back.
unfoldable pub settle : Machine → Bytes → Outcome → Outcome
unfolding recover_apply_failure retire_journal
settle m id written = elim written.failure [
  | none ↦ retire_journal m id written.world
  | some e ↦ recover_apply_failure m written.world e
]

-- The sync of the directory behind the rename that publishes the journal, which stays if this fails.
unfoldable pub publish_journal : Machine → Bytes → World → Outcome
publish_journal m id w = if m.publish_fails id then failed w journal_not_synced else done w

-- Behind the rename that publishes the journal.
unfoldable pub run_transaction :
    Machine → Bytes → List PreparedOperation → Option Finalizer → Ledger → World → Outcome
unfolding publish_journal apply_mutations finalize_step settle
run_transaction m id ps finalize ledger w =
    after (publish_journal m id w)
      (λ v. settle m id (after (apply_mutations m id ps v) (finalize_step finalize ledger)))

unfoldable pub apply_plan_journaled : Machine → Plan → Option Finalizer → World → Outcome
unfolding prepare_operations create_journal run_transaction
apply_plan_journaled m plan finalize w = elim (prepare_operations m w.store plan.operations) [
  | err e ↦ failed w e
  | ok ps ↦ elim (create_journal m ps w) [
    | err e ↦ failed w e
    | ok (id, opened) ↦ run_transaction m id ps finalize plan.next_ledger opened
  ]
]
