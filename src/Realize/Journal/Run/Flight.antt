-- ===== src/Realize/Journal/Run/Flight.antt =====
-- internal/realize/journal.go: a project whose targets are being written, under a journal that
-- createJournal has made, is in flight.
use agentic_context_registry.Base.{
  ℕ, suc, ◌+◌, ◌≤◌, true, false, List, [], ◌∷◌, some, Bytes, codes, equal_refl, has_prefix, length,
  ◌≡◌, ◌⊎◌, inl, inr, refl, ap, ◌∙◌, subst, All, All-In, In, Bool-cases, ok, err, sort, arith,
}
use agentic_context_registry.Realize.Journal.Store.{Item, folder, file, Store, lookup}
use agentic_context_registry.Realize.Journal.Parents.{IsFolder}
use agentic_context_registry.Realize.Journal.Manifest.{
  transaction_directory, journal_schema_version, JournalEntry, World, pending_transaction,
  find_journal, check_each, check_entry_form, load_journal, inspect_transactions, inspect_pending,
  pending_names, parent_state,
}
use agentic_context_registry.Realize.Journal.Machine.{Machine, recovery_git_exclusion}
use agentic_context_registry.Realize.Journal.Recovery.{
  image, entry_location, images_of, uses_exclusion,
}
use agentic_context_registry.Realize.Journal.Recovery.Step.{IsFolder-IsOpen}
use agentic_context_registry.Realize.Journal.Recovery.Checks.{EntryInFlight}
use agentic_context_registry.Realize.Journal.Recovery.Restored.{InFlight}
use agentic_context_registry.Realize.Journal.Apply.{
  PreparedOperation, snapshot_at, image_name, journal_entry, journal_entries, journal_images,
  marshal_journal, new_manifest,
}
use agentic_context_registry.Realize.Journal.Run.Images.{Found, journal_images-Found}
use agentic_context_registry.Realize.Journal.Run.Changed.{Changed, Above-Changed, IsFolder-Changed}
use agentic_context_registry.Realize.Journal.Run.Placed.{Written, Checked}
use agentic_context_registry.Realize.Journal.Run.Opened.{opened, new_journal, snapshot_at-Shows}

-- What a realization with an acceptable journal comes with: targets of their own, below directories
-- that are there, and a project that no other transaction waits for.
pub record Undertaking (m : Machine) (w : World) (id : Bytes) (ps : List PreparedOperation)
    : Type 0 where
  pub checked : All (Checked m w.store) ps
  pub read : All (λ p. snapshot_at m w.store p.location ≡ ok p.snapshot) ps
  pub distinct : (p q : PreparedOperation) → In p ps → In q ps → p.location ≡ q.location → p ≡ q
  pub exclusion : Bytes × Bytes
  pub resolved : recovery_git_exclusion m (uses_exclusion (new_manifest id ps)) ≡ ok exclusion
  pub located : All (λ p. entry_location m exclusion (journal_entry 0 p) ≡ ok p.location) ps
  pub accepted : check_each check_entry_form (journal_entries 0 ps) ≡ ok tt
  pub decodes : m.decode (marshal_journal m (new_manifest id ps)) ≡ some (new_manifest id ps)
  pub few : length ps ≤ 1000000
  pub agents : IsFolder (lookup w.store (record { root = []; path = codes ".agents" }))
  pub directory : IsFolder (lookup w.store (record { root = []; path = transaction_directory }))
  pub idle : pending_names m.decode w.transactions ≡ []

module _ (m : Machine) (w : World) (id : Bytes) (ps : List PreparedOperation)
    (under : Undertaking m w id ps) (s : Store)
    (changed : Changed m.content_hash ps w.store s) where
  found : find_journal id (opened m id ps w s).transactions ≡ some (new_journal m id ps)
  unfolding find_journal
  found = rw (find_journal, equal_refl id) refl

  loaded : load_journal m.decode id (opened m id ps w s) ≡ ok (new_manifest id ps)
  unfolding load_journal new_manifest check_each
  loaded = rw (load_journal, found, under.decodes, equal_refl id, under.accepted) refl

  entry_in_flight :
      (i : ℕ) (p : PreparedOperation) (images : Store)
      → In p ps
      → (p.snapshot.exists ≡ false)
        ⊎ (lookup images (image (image_name i)) ≡ file p.snapshot.content 0o600)
      → EntryInFlight m under.exclusion images w.store s (journal_entry i p)
  unfolding journal_entry
  entry_in_flight i p images among held =
      let this = All-In (Checked m w.store) p ps under.checked among in
      let read =
        All-In (λ (q : PreparedOperation). snapshot_at m w.store q.location ≡ ok q.snapshot) p ps
          under.read among in
      let (shown, item) =
        snapshot_at-Shows m w.store p.location p.snapshot this.plain this.above read in
      let above = Above-Changed m ps w.store under.checked s p.location changed this.above in
      record {
        location = p.location;
        located =
            All-In
              (λ (q : PreparedOperation).
                entry_location m under.exclusion (journal_entry 0 q) ≡ ok q.location)
              p ps under.located among;
        realized = (refl, refl);
        above = IsFolder-IsOpen s p.location above;
        before = shown;
        image_kept = elim held [
          | inl e ↦ inl e
          | inr e ↦ elim item [
            | inl f ↦ inl f
            | inr f ↦ elim (Bool-cases p.snapshot.exists) [
              | inr g ↦ inl g
              | inl g ↦ inr (record {
                content = p.snapshot.content;
                image_mode = 0o600;
                found = rw g e;
                same = f;
                size = refl;
                above_start = this.above;
                above = above;
              })
            ]
          ]
        ];
        current = elim (changed p.location) [
          | inl e ↦ inl e
          | inr (q, j, at, written) ↦ inr (
              subst (λ (r : PreparedOperation). Written m.content_hash r (lookup s p.location))
                (under.distinct q p j among at) written)
        ];
      }

  entries_in_flight :
      (i : ℕ) (qs : List PreparedOperation) (images : Store)
      → ((q : PreparedOperation) → In q qs → In q ps)
      → Found images i qs
      → All (EntryInFlight m under.exclusion images w.store s) (journal_entries i qs)
  unfolding journal_entries
  entries_in_flight i [] images among h = tt
  entries_in_flight i (q ∷ qs) images among (h, k) = (
    entry_in_flight i q images (among q (inl refl)) h,
    entries_in_flight (suc i) qs images (λ r j. among r (inr j)) k,
  )

  -- The entry of an operation.
  entry_of :
      (i : ℕ) (p : PreparedOperation) (qs : List PreparedOperation)
      → In p qs
      → (e : JournalEntry) × In e (journal_entries i qs)
        × (entry_location m under.exclusion e
            ≡ entry_location m under.exclusion (journal_entry 0 p))
  unfolding journal_entries journal_entry
  entry_of i p [] among = absurd among
  entry_of i p (q ∷ qs) (inl e) = (journal_entry i q, inl refl, rw e refl)
  entry_of i p (q ∷ qs) (inr j) = let (e, k, l) = entry_of (suc i) p qs j in (e, inr k, l)

  pub opened-InFlight : InFlight m w.store id (opened m id ps w s)
  unfolding new_manifest
  opened-InFlight = record {
    manifest = new_manifest id ps;
    loaded = loaded;
    exclusion = under.exclusion;
    resolved = under.resolved;
    entries =
        let same : journal_images 0 ps ≡ images_of id (opened m id ps w s) =
          rw (images_of, found) refl in
        let few : 0 + length ps ≤ 1000000 = let n = under.few in omega arith in
        subst
          (λ (images : Store).
            All (EntryInFlight m under.exclusion images w.store s) (journal_entries 0 ps))
          same
          (entries_in_flight 0 ps (journal_images 0 ps) (λ q j. j) (journal_images-Found 0 ps few));
    directories = tt;
    others = λ l. elim (changed l) [
      | inl e ↦ inl (inl e)
      | inr (p, among, at, _) ↦
          let (e, j, place) = entry_of 0 p ps among in
          inr (
            e,
            j,
            place
                ∙ All-In
                    (λ (q : PreparedOperation).
                      entry_location m under.exclusion (journal_entry 0 q) ≡ ok q.location)
                    p ps under.located among
                ∙ ap ok at,
          )
    ];
  }

  parent_state-IsFolder : (i : Item) → IsFolder i → parent_state m.decode i ≡ ok true
  unfolding parent_state
  parent_state-IsFolder (folder _ _) f = refl
  parent_state-IsFolder _ f = absurd f

  -- The journal is the one that is pending.
  pub opened-pending :
      has_prefix id (codes ".") ≡ false
      → inspect_transactions m.decode (opened m id ps w s)
        ≡ err (pending_transaction id journal_schema_version)
  unfolding inspect_transactions inspect_pending pending_names new_manifest sort
  opened-pending visible =
      let stays = IsFolder-Changed m ps w.store under.checked s in
      let agents =
        parent_state-IsFolder (lookup s (record { root = []; path = codes ".agents" }))
          (stays (record { root = []; path = codes ".agents" }) changed under.agents) in
      let directory =
        parent_state-IsFolder (lookup s (record { root = []; path = transaction_directory }))
          (stays (record { root = []; path = transaction_directory }) changed under.directory) in
      rw
        (
          inspect_transactions, agents, directory, pending_names, visible, under.idle, sort,
          inspect_pending, loaded,
        )
        refl
