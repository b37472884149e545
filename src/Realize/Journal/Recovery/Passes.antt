-- ===== src/Realize/Journal/Recovery/Passes.antt =====
-- internal/realize/journal.go: the check of the entries passes while a realization is in flight, and
-- what it leaves to the loop that restores the targets.
use agentic_context_registry.Base.{
  ℕ, Bool, true, false, not, ◌&&◌, List, [], ◌∷◌, Bytes, ◌≡◌, ◌⊎◌, inl, inr, refl, sym, ◌∙◌, All,
  In, Bool-cases, true≢false, ok,
}
use agentic_context_registry.Realize.Journal.Store.{
  Item, absent, file, Store, lookup, JournalFileSnapshot, snapshot_journal_file,
}
use agentic_context_registry.Realize.Journal.Parents.{IsFolder, IsPlain, Above}
use agentic_context_registry.Realize.Journal.Manifest.{JournalEntry}
use agentic_context_registry.Realize.Journal.Machine.{Machine}
use agentic_context_registry.Realize.Journal.Recovery.{
  Recovery, entry_location, read_before, matches_before, matches_after, check_entry, check_entries,
}
use agentic_context_registry.Realize.Journal.Recovery.Step.{Ready}
use agentic_context_registry.Realize.Journal.Recovery.Checks.{
  Shows, EntryInFlight, snapshot_journal_file-Shows, matches_before-Describes,
  matches_after-Describes, read_before-Kept,
}

Shows-IsPlain :
    (content_hash : Bytes → Bytes) (i : Item) (exists : Bool) (hash : Bytes) (mode_bits : ℕ)
    → Shows content_hash i exists hash mode_bits
    → IsPlain i
Shows-IsPlain content_hash (file _ _) true hash mode_bits h = tt
Shows-IsPlain content_hash absent false hash mode_bits h = tt
Shows-IsPlain _ _ _ _ _ h = absurd h

Shows-absent :
    (content_hash : Bytes → Bytes) (i : Item) (hash : Bytes) (mode_bits : ℕ)
    → Shows content_hash i false hash mode_bits
    → i ≡ absent
Shows-absent content_hash absent _ _ h = refl
Shows-absent content_hash _ _ _ h = absurd h

neither : (b a : Bool) → (b ≡ true) ⊎ (a ≡ true) → (not b && not a) ≡ false
neither true a h = refl
neither false true h = refl
neither false false (inl h) = cc
neither false false (inr h) = cc

module _ (m : Machine) (exclusion : Bytes × Bytes) (images start s : Store) (e : JournalEntry)
    (flight : EntryInFlight m exclusion images start s e) where
  -- The before-image that the check reads.
  earlier-In :
      (before : Bytes) × (read_before m.content_hash images e ≡ ok before)
      × (((e.before_exists ≡ true)
            × (lookup start flight.location ≡ file before e.before_mode)
            × Above IsFolder start flight.location
            × Above IsFolder s flight.location)
          ⊎ ((e.before_exists ≡ false) × (lookup start flight.location ≡ absent)))
  unfolding read_before
  earlier-In = elim (Bool-cases e.before_exists) [
    | inr b ↦ (
      [],
      rw (read_before, b) refl,
      inr (
        b,
        Shows-absent m.content_hash (lookup start flight.location) _ _ (rw b at flight.before),
      ),
    )
    | inl b ↦ elim flight.image_kept [
      | inl b' ↦ absurd (true≢false (sym b ∙ b'))
      | inr k ↦ (
        k.content,
        read_before-Kept m images start s e flight.location k flight.before b,
        inl (b, k.same, k.above_start, k.above),
      )
    ]
  ]

  -- The snapshot matches one of the two states, and it is the later one where the item has changed.
  current-In :
      (c : JournalFileSnapshot) × (snapshot_journal_file m.content_hash s flight.location ≡ ok c)
      × IsPlain (lookup s flight.location)
      × ((matches_before e c ≡ true) ⊎ (matches_after e c ≡ true))
      × ((matches_after e c ≡ true) ⊎ (lookup s flight.location ≡ lookup start flight.location))
  current-In = elim flight.current [
    | inl same ↦
        let shown : Shows m.content_hash (lookup s flight.location) e.before_exists e.before_hash
            e.before_mode =
          rw same flight.before in
        let (c, read, told) =
          snapshot_journal_file-Shows m.content_hash s flight.location e.before_exists e.before_hash
            e.before_mode flight.above shown in
        (
          c,
          read,
          Shows-IsPlain m.content_hash (lookup s flight.location) e.before_exists e.before_hash
              e.before_mode shown,
          inl (matches_before-Describes e c flight.realized.1 told),
          inr same,
        )
    | inr shown ↦
        let (c, read, told) =
          snapshot_journal_file-Shows m.content_hash s flight.location e.after_exists e.after_hash
            e.after_mode flight.above shown in
        let fits = matches_after-Describes e c told in
        (
          c,
          read,
          Shows-IsPlain m.content_hash (lookup s flight.location) e.after_exists e.after_hash
              e.after_mode shown,
          inr fits,
          inl fits,
        )
  ]

  check_entry-Ready :
      (r : Recovery) × (check_entry m exclusion images s e ≡ ok r)
      × (r.location ≡ flight.location)
      × Ready start s r
  unfolding check_entry
  check_entry-Ready =
      let (before, kept, earlier) = earlier-In in
      let (c, read, plain, one, turn) = current-In in
      (
        record {
          entry = e;
          location = flight.location;
          before = before;
          restore = matches_after e c;
        },
        rw
            (
              check_entry,
              flight.located,
              read,
              kept,
              neither (matches_before e c) (matches_after e c) one,
            )
            refl,
        refl,
        record { realized = flight.realized; plain = plain; earlier = earlier; turn = turn },
      )

module _ (m : Machine) (exclusion : Bytes × Bytes) (images start s : Store) where
  -- The location of an entry is the one that its recovery has.
  abbrev pub LocatedAt : List Recovery → JournalEntry → Type 0
  LocatedAt rs e = (r : Recovery) × In r rs × (entry_location m exclusion e ≡ ok r.location)

  pub check_entries-Ready :
      (es : List JournalEntry)
      → All (EntryInFlight m exclusion images start s) es
      → (rs : List Recovery) × (check_entries m exclusion images s es ≡ ok rs)
        × All (Ready start s) rs
        × ((e : JournalEntry) → In e es → LocatedAt rs e)
  unfolding check_entries
  check_entries-Ready [] h = ([], refl, tt, λ e i. absurd i)
  check_entries-Ready (e ∷ es) (flight, h) =
      let (r, passed, place, ready) = check_entry-Ready m exclusion images start s e flight in
      let (rs, all_passed, all_ready, located) = check_entries-Ready es h in
      (
        r ∷ rs,
        rw (passed, all_passed) refl,
        (ready, all_ready),
        λ d i. elim i [
          | inl same ↦ (r, inl refl, rw (same, place) flight.located)
          | inr j ↦ let (q, k, l) = located d j in (q, inr k, l)
        ],
      )
