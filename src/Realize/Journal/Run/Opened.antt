-- ===== src/Realize/Journal/Run/Opened.antt =====
-- internal/realize/journal.go: the journal that createJournal leaves, and that the project is in
-- flight under it, however far the writes have got.
use agentic_context_registry.Base.{
  false, ◌||◌, List, ◌∷◌, ◌++◌, some, Bytes, codes, has_prefix, contains_byte, length, ltb,
  is_empty, is_some, ◌≡◌, ◌⊎◌, inl, inr, refl, sym, ap, ◌∙◌, subst, Bool-cases, Option-cases,
  Result, ok, err, ◌>>◌, >>-eq-ok, ok-injective, ok-subst, err≢ok, fail_if, fail_if-eq-ok,
  ||-eq-false,
}
use agentic_context_registry.Realize.Filesystem.{
  SnapshotError, FileSnapshot, max_target_bytes, read_node, snapshot_file,
}
use agentic_context_registry.Realize.Journal.Store.{
  Item, absent, file, Location, Store, lookup, disk_at, node,
}
use agentic_context_registry.Realize.Journal.Parents.{
  IsFolder, IsPlain, Above, validate_parent_directories-IsOpen,
}
use agentic_context_registry.Realize.Journal.Manifest.{
  Journal, World, JournalError, transaction_id_invalid, journal_not_written, snapshot_failed,
  staging_not_created, find_journal,
}
use agentic_context_registry.Realize.Journal.Machine.{Machine}
use agentic_context_registry.Realize.Journal.Recovery.Step.{IsFolder-IsOpen}
use agentic_context_registry.Realize.Journal.Recovery.Checks.{Shows}
use agentic_context_registry.Realize.Journal.Apply.{
  PreparedOperation, snapshot_at, journal_images, marshal_journal, new_manifest, open_journal,
  create_journal,
}

abbrev pub new_journal : Machine → Bytes → List PreparedOperation → Journal
new_journal m id ps = record {
  manifest_file = some (marshal_journal m (new_manifest id ps));
  images = journal_images 0 ps;
}

-- The project with the new journal, and a store.
abbrev pub opened : Machine → Bytes → List PreparedOperation → World → Store → World
opened m id ps w s = record { store = s; transactions = (id, new_journal m id ps) ∷ w.transactions }

pub create_journal-eq-ok :
    (m : Machine) (ps : List PreparedOperation) (w v : World) (id : Bytes)
    → create_journal m ps w ≡ ok (id, v)
    → (has_prefix id (codes ".") ≡ false) × (v ≡ opened m id ps w w.store)
unfolding create_journal open_journal
create_journal-eq-ok m ps w v id e = elim (Option-cases m.transaction_id) [
  | inl none_given ↦ absurd (err≢ok (rw (create_journal, none_given) at e))
  | inr (given, named) ↦
      let invalid = is_empty given || contains_byte given b'/' in
      let (allowed, fresh) =
        >>-eq-ok (fail_if (invalid || has_prefix given (codes ".")) transaction_id_invalid)
          (fail_if (is_some (find_journal (codes ".staging-" ++ given) w.transactions))
              staging_not_created
            >> (fail_if (m.journal_fails given || is_some (find_journal given w.transactions))
                  journal_not_written
                >> ok (given, opened m given ps w w.store)))
          (rw (create_journal, named) at e) in
      let (_, unused) =
        >>-eq-ok
          (fail_if (is_some (find_journal (codes ".staging-" ++ given) w.transactions))
            staging_not_created)
          (fail_if (m.journal_fails given || is_some (find_journal given w.transactions))
              journal_not_written
            >> ok (given, opened m given ps w w.store))
          fresh in
      let (_, made) =
        >>-eq-ok
          (fail_if (m.journal_fails given || is_some (find_journal given w.transactions))
            journal_not_written)
          (ok (given, opened m given ps w w.store)) unused in
      let pair : (given, opened m given ps w w.store) ≡ (id, v) = ok-injective made in
      let name : given ≡ id = ap (λ (q : Bytes × World). q.0) pair in
      let world : opened m given ps w w.store ≡ v = ap (λ (q : Bytes × World). q.1) pair in
      let visible =
        (||-eq-false invalid (has_prefix given (codes ".")) (
          fail_if-eq-ok (invalid || has_prefix given (codes ".")) transaction_id_invalid
            allowed)).1 in
      (
        subst (λ (n : Bytes). has_prefix n (codes ".") ≡ false) name visible,
        sym world ∙ ap (λ (n : Bytes). opened m n ps w w.store) name,
      )
]

read_node-Shows :
    (content_hash : Bytes → Bytes) (i : Item) (snapshot : FileSnapshot)
    → IsPlain i
    → read_node content_hash (node i) ≡ ok snapshot
    → Shows content_hash i snapshot.exists snapshot.hash snapshot.mode_bits
      × ((snapshot.exists ≡ false) ⊎ (i ≡ file snapshot.content snapshot.mode_bits))
unfolding read_node
read_node-Shows content_hash absent snapshot plain e =
    ok-subst
      (λ (r : FileSnapshot).
        Shows content_hash absent r.exists r.hash r.mode_bits
        × ((r.exists ≡ false) ⊎ (absent ≡ file r.content r.mode_bits)))
      e (tt, inl refl)
read_node-Shows content_hash (file content perm) snapshot plain e =
    elim (Bool-cases (ltb max_target_bytes (length content))) [
      | inl large ↦ absurd (err≢ok (rw (read_node, large) at e))
      | inr small ↦
          ok-subst
            (λ (r : FileSnapshot).
              Shows content_hash (file content perm) r.exists r.hash r.mode_bits
              × ((r.exists ≡ false) ⊎ (file content perm ≡ file r.content r.mode_bits)))
            (rw (read_node, small) at e) ((refl, refl, small), inr refl)
    ]
read_node-Shows content_hash _ snapshot plain e = absurd plain

-- The item that a snapshot was taken of.
pub snapshot_at-Shows :
    (m : Machine) (s : Store) (l : Location) (snapshot : FileSnapshot)
    → IsPlain (lookup s l)
    → Above IsFolder s l
    → snapshot_at m s l ≡ ok snapshot
    → Shows m.content_hash (lookup s l) snapshot.exists snapshot.hash snapshot.mode_bits
      × ((snapshot.exists ≡ false) ⊎ (lookup s l ≡ file snapshot.content snapshot.mode_bits))
unfolding snapshot_at snapshot_file disk_at
snapshot_at-Shows m s l snapshot plain above e =
    let passed = validate_parent_directories-IsOpen s l (IsFolder-IsOpen s l above) in
    read_node-Shows m.content_hash (lookup s l) snapshot plain (
      unwrap (read_node m.content_hash (node (lookup s l)))
        (rw (snapshot_at, snapshot_file, passed) at e))
  where
    unwrap :
        (r : Result SnapshotError FileSnapshot)
        → elim r as (λ _. Result JournalError FileSnapshot) [
          | ok snapshot ↦ ok snapshot
          | err x ↦ err (snapshot_failed x)
        ]
          ≡ ok snapshot
        → r ≡ ok snapshot
    unwrap (ok _) h = cc
    unwrap (err _) h = cc
