-- ===== src/Realize/Journal/Recovery/Restored.antt =====
-- internal/realize/journal.go: what recoverPendingTransaction makes of a project whose transaction was
-- cut off, and of a target that somebody else has changed.
use agentic_context_registry.Base.{
  ℕ, false, List, none, Bytes, ◌≡◌, ◌⊎◌, inl, inr, refl, ◌∙◌, All, All-In, All-intro, In, Result,
  ok, err, sort, sort-In,
}
use agentic_context_registry.Realize.Journal.Store.{Location, Store, lookup}
use agentic_context_registry.Realize.Journal.Manifest.{
  JournalEntry, JournalManifest, World, Detail, pending_transaction, load_journal,
  inspect_transactions,
}
use agentic_context_registry.Realize.Journal.Machine.{
  Machine, gone, done, drop_journal, Retirement, stays, left_in_staging, retire_journal,
  recovery_git_exclusion,
}
use agentic_context_registry.Realize.Journal.Recovery.{
  Recovery, entry_location, images_of, restore_all, check_recovery, uses_exclusion, recover_journal,
  recover_pending_transaction, by_depth, restore_targets,
}
use agentic_context_registry.Realize.Journal.Recovery.Step.{Ready}
use agentic_context_registry.Realize.Journal.Recovery.Loops.{
  Returned, Made, restore_targets-Toward, remove_directories-Returned,
}
use agentic_context_registry.Realize.Journal.Recovery.Checks.{EntryInFlight}
use agentic_context_registry.Realize.Journal.Recovery.Passes.{LocatedAt, check_entries-Ready}

-- The journal of a realization is on disk; every target holds its item of the start or the one that
-- the transaction writes there, and nothing else has changed but for new directories.
pub record InFlight (m : Machine) (start : Store) (id : Bytes) (w : World) : Type 0 where
  pub manifest : JournalManifest
  pub loaded : load_journal m.decode id w ≡ ok manifest
  pub exclusion : Bytes × Bytes
  pub resolved : recovery_git_exclusion m (uses_exclusion manifest) ≡ ok exclusion
  pub entries : All (EntryInFlight m exclusion (images_of id w) start w.store) manifest.entries
  pub directories : All (Made m exclusion start) manifest.directories
  pub others :
      (l : Location)
      → Returned start w.store l
        ⊎ ((e : JournalEntry) × In e manifest.entries × (entry_location m exclusion e ≡ ok l))

module _ (m : Machine) (start : Store) (id : Bytes) (w : World)
    (faultless : (l : Location) → m.restore_fails l ≡ false) (flight : InFlight m start id w) where
  restore_targets-Returned :
      (rs : List Recovery)
      → All (Ready start w.store) rs
      → ((e : JournalEntry)
          → In e flight.manifest.entries
          → LocatedAt m flight.exclusion (images_of id w) start w.store rs e)
      → (s : Store) × (restore_targets m id rs w ≡ done (record w { store = s }))
        × ((l : Location) → Returned start s l)
  restore_targets-Returned rs ready located =
      let (s, ran, toward, back) = restore_targets-Toward m id start faultless rs w ready in
      (
        s,
        ran,
        λ l. elim (flight.others l) [
          | inl r ↦ elim (toward l) [
            | inl e ↦ elim r [ inl f ↦ inl (e ∙ f) | inr (f, folder) ↦ inr (f, rw e folder) ]
            | inr e ↦ inl e
          ]
          | inr (e, i, place) ↦
              let (r, j, there) = located e i in
              inl (
                rw (same_place place there) (
                  All-In (λ (q : Recovery). lookup s q.location ≡ lookup start q.location) r rs back
                    j))
        ],
      )
    where
      same_place : {o : Result Detail Location} {l k : Location} → o ≡ ok l → o ≡ ok k → l ≡ k
      same_place p q = cc

  recover_journal-Returned :
      (s : Store) × (recover_journal m id w ≡ retire_journal m id (record w { store = s }))
      × ((l : Location) → Returned start s l)
  unfolding recover_journal check_recovery restore_all
  recover_journal-Returned =
      let (rs, checked, ready, located) =
        check_entries-Ready m flight.exclusion (images_of id w) start w.store
          flight.manifest.entries flight.entries in
      let (s, ran, back) = restore_targets-Returned rs ready located in
      let made : All (Made m flight.exclusion start) (sort by_depth flight.manifest.directories) =
        All-intro (Made m flight.exclusion start) (sort by_depth flight.manifest.directories)
          (λ d i.
            All-In (Made m flight.exclusion start) d flight.manifest.directories flight.directories
              (sort-In by_depth d flight.manifest.directories i)) in
      let (t, cleared, returned) =
        remove_directories-Returned m id flight.exclusion start
          (sort by_depth flight.manifest.directories) (record w { store = s }) made back in
      (
        t,
        rw
            (
              recover_journal, check_recovery, flight.loaded, flight.resolved, checked, restore_all,
              ran, cleared,
            )
            refl,
        returned,
      )

-- Recovery of a realization that was cut off anywhere succeeds, when no system call fails: every
-- location holds what it held at the start, but that a directory may stand where there was nothing,
-- and the journal is gone.
pub recover_pending_transaction-Returned :
    (m : Machine) (start : Store) (id : Bytes) (version : ℕ) (w : World)
    → ((l : Location) → m.restore_fails l ≡ false)
    → m.retirement id ≡ gone
    → inspect_transactions m.decode w ≡ err (pending_transaction id version)
    → InFlight m start id w
    → ((recover_pending_transaction m w).failure ≡ none)
      × ((l : Location) → Returned start (recover_pending_transaction m w).world.store l)
      × ((recover_pending_transaction m w).world.transactions ≡ drop_journal id w.transactions)
unfolding recover_pending_transaction retire_journal
recover_pending_transaction-Returned m start id version w faultless retires pending flight =
    let (s, recovered, returned) = recover_journal-Returned m start id w faultless flight in
    rw (recover_pending_transaction, pending, recovered, retire_journal, retires)
      (refl, returned, refl)

retire_journal-store :
    (m : Machine) (id : Bytes) (w : World) → (retire_journal m id w).world.store ≡ w.store
unfolding retire_journal
retire_journal-store m id w = by_retirement (m.retirement id) refl
  where
    by_retirement :
        (r : Retirement) → m.retirement id ≡ r → (retire_journal m id w).world.store ≡ w.store
    by_retirement stays e = rw (retire_journal, e) refl
    by_retirement left_in_staging e = rw (retire_journal, e) refl
    by_retirement gone e = rw (retire_journal, e) refl

-- The same store, whatever becomes of the journal.
pub recover_pending_transaction-Restores :
    (m : Machine) (start : Store) (id : Bytes) (version : ℕ) (w : World)
    → ((l : Location) → m.restore_fails l ≡ false)
    → inspect_transactions m.decode w ≡ err (pending_transaction id version)
    → InFlight m start id w
    → (l : Location) → Returned start (recover_pending_transaction m w).world.store l
unfolding recover_pending_transaction
recover_pending_transaction-Restores m start id version w faultless pending flight =
    let (s, recovered, returned) = recover_journal-Returned m start id w faultless flight in
    rw (recover_pending_transaction, pending, recovered)
      (rw (retire_journal-store m id (record w { store = s })) returned)
