-- ===== src/Realize/Journal/Recovery/Refused.antt =====
-- internal/realize/journal.go: recoverPendingTransaction when a target is in neither of its two
-- states, as after somebody else's write.
use agentic_context_registry.Base.{
  ℕ, false, List, [], ◌∷◌, Bytes, ◌≡◌, inl, inr, refl, In, subst, Result, ok, err, Result-cases,
}
use agentic_context_registry.Realize.Journal.Store.{
  Location, Store, JournalFileSnapshot, snapshot_journal_file,
}
use agentic_context_registry.Realize.Journal.Manifest.{
  JournalEntry, JournalManifest, World, Detail, matches_neither, pending_transaction,
  recovery_conflict, load_journal, inspect_transactions,
}
use agentic_context_registry.Realize.Journal.Machine.{Machine, failed, recovery_git_exclusion}
use agentic_context_registry.Realize.Journal.Recovery.{
  entry_location, matches_before, matches_after, read_before, images_of, check_entry, check_entries,
  check_recovery, uses_exclusion, recover_journal, recover_pending_transaction,
}

module _ (m : Machine) (exclusion : Bytes × Bytes) (images s : Store) where
  -- The entry's target can be read, and is in neither state.
  pub record Mismatch (e : JournalEntry) : Type 0 where
    pub location : Location
    pub snapshot : JournalFileSnapshot
    pub located : entry_location m exclusion e ≡ ok location
    pub read : snapshot_journal_file m.content_hash s location ≡ ok snapshot
    pub not_before : matches_before e snapshot ≡ false
    pub not_after : matches_after e snapshot ≡ false

  abbrev Refused {ℓ} : {A : Type ℓ} → Result Detail A → Type ℓ
  Refused r = (d : Detail) × (r ≡ err d)

  check_entry-Mismatch :
      (e : JournalEntry) → Mismatch e → Refused (check_entry m exclusion images s e)
  unfolding check_entry
  check_entry-Mismatch e x = elim (Result-cases (read_before m.content_hash images e)) [
    | inr (d, lost) ↦ (d, rw (check_entry, x.located, x.read, lost) refl)
    | inl (_, kept) ↦ (
      matches_neither e.path,
      rw (check_entry, x.located, x.read, kept, x.not_before, x.not_after) refl,
    )
  ]

  pub check_entries-Mismatch :
      (e : JournalEntry) (es : List JournalEntry)
      → In e es
      → Mismatch e
      → Refused (check_entries m exclusion images s es)
  unfolding check_entries
  check_entries-Mismatch e [] among x = absurd among
  check_entries-Mismatch e (d ∷ es) (inl same) x =
      let (detail, refused) = check_entry-Mismatch d (subst Mismatch same x) in
      (detail, rw (check_entries, refused) refl)
  check_entries-Mismatch e (d ∷ es) (inr among) x =
      elim (Result-cases (check_entry m exclusion images s d)) [
        | inr (detail, refused) ↦ (detail, rw (check_entries, refused) refl)
        | inl (r, passed) ↦
            let (detail, refused) = check_entries-Mismatch e es among x in
            (detail, rw (check_entries, passed, refused) refl)
      ]

-- When the target of an entry of the pending journal is in neither the journal's before-state nor its
-- after-state, the recovery ends with a conflict and changes nothing: no file, and not the journal.
pub recover_pending_transaction-refuses :
    (m : Machine) (w : World) (id : Bytes) (version : ℕ) (manifest : JournalManifest)
    (exclusion : Bytes × Bytes) (e : JournalEntry)
    → inspect_transactions m.decode w ≡ err (pending_transaction id version)
    → load_journal m.decode id w ≡ ok manifest
    → recovery_git_exclusion m (uses_exclusion manifest) ≡ ok exclusion
    → In e manifest.entries
    → Mismatch m exclusion (images_of id w) w.store e
    → (d : Detail) × (recover_pending_transaction m w ≡ failed w (recovery_conflict id d))
unfolding recover_pending_transaction recover_journal check_recovery
recover_pending_transaction-refuses m w id version manifest exclusion e pending loaded resolved
      among x =
    let (d, refused) =
      check_entries-Mismatch m exclusion (images_of id w) w.store e manifest.entries among x in
    (
      d,
      rw
          (
            recover_pending_transaction, pending, recover_journal, check_recovery, loaded, resolved,
            refused,
          )
          refl,
    )
