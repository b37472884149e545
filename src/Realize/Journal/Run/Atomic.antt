-- ===== src/Realize/Journal/Run/Atomic.antt =====
-- internal/realize/journal.go: applyPlanJournaled either writes the whole plan or leaves the project as
-- it was, and so does a crash at any point of it with the next recovery.
use agentic_context_registry.Base.{
  ◌⊎◌, ◌≢◌, ◌∙◌, some-injective, Bool-cases, sym, ℕ, zero, suc, false, List, [], ◌∷◌, Option, none,
  some, Bytes, ◌≡◌, inl, inr, refl, In, Option-cases, Result-cases, ok, none≢some, take,
}
use agentic_context_registry.Realize.Model.{Ledger, Plan}
use agentic_context_registry.Realize.Journal.Store.{Location, Store}
use agentic_context_registry.Realize.Journal.Manifest.{
  journal_schema_version, journal_not_retired, World, JournalError,
}
use agentic_context_registry.Realize.Journal.Machine.{
  Machine, Retirement, stays, left_in_staging, gone, Outcome, after, retire_journal,
}
use agentic_context_registry.Realize.Journal.Recovery.{recover_pending_transaction}
use agentic_context_registry.Realize.Journal.Recovery.Loops.{Returned}
use agentic_context_registry.Realize.Journal.Recovery.Restored.{
  recover_pending_transaction-Restores, recover_pending_transaction-Returned,
}
use agentic_context_registry.Realize.Journal.Apply.{
  PreparedOperation, prepare_operations, create_journal,
}
use agentic_context_registry.Realize.Journal.Run.{
  Finalizer, publish_journal, apply_mutations, finalize_step, recover_apply_failure, settle,
  run_transaction, apply_plan_journaled,
}
use agentic_context_registry.Realize.Journal.Run.Changed.{Changed, apply_mutations-ChangesStore}
use agentic_context_registry.Realize.Journal.Run.Opened.{opened, create_journal-eq-ok}
use agentic_context_registry.Realize.Journal.Run.Flight.{
  Undertaking, opened-InFlight, opened-pending,
}

recover_apply_failure-world :
    (m : Machine) (v : World) (x : JournalError)
    → (recover_apply_failure m v x).world ≡ (recover_pending_transaction m v).world
unfolding recover_apply_failure
recover_apply_failure-world m v x = elim (Option-cases (recover_pending_transaction m v).failure) [
  | inl e ↦ rw (recover_apply_failure, e) refl
  | inr (_, e) ↦ rw (recover_apply_failure, e) refl
]

retire_journal-fails :
    (m : Machine) (id : Bytes) (w : World) (e : JournalError)
    → (retire_journal m id w).failure ≡ some e
    → (m.retirement id ≢ gone) × (e ≡ journal_not_retired)
unfolding retire_journal
retire_journal-fails m id w e h = by_retirement (m.retirement id) refl
  where
    by_retirement :
        (r : Retirement)
        → m.retirement id ≡ r
        → (m.retirement id ≢ gone) × (e ≡ journal_not_retired)
    by_retirement stays k =
        (λ g. cc (sym k ∙ g), sym (some-injective (rw (retire_journal, k) at h)))
    by_retirement left_in_staging k =
        (λ g. cc (sym k ∙ g), sym (some-injective (rw (retire_journal, k) at h)))
    by_retirement gone k = absurd (none≢some (rw (retire_journal, k) at h))

module _ (m : Machine) (w : World) (id : Bytes) (ps : List PreparedOperation)
    (faultless : (l : Location) → m.restore_fails l ≡ false) (under : Undertaking m w id ps) where
  abbrev ReturnsOn : JournalError → Outcome → Type 0
  ReturnsOn e o = o.failure ≡ some e → (l : Location) → Returned w.store o.world.store l

  abbrev ReturnsAfter : World → Type 0
  ReturnsAfter v =
      ((recover_pending_transaction m v).failure ≡ none)
      × ((l : Location) → Returned w.store (recover_pending_transaction m v).world.store l)

  abbrev Reached : World → Type 0
  Reached v = (s : Store) × (v ≡ opened m id ps w s) × Changed m.content_hash ps w.store s

  -- Recovery from wherever the writes have got.
  recover-opened :
      (v : World)
      → m.retirement id ≡ gone
      → create_journal m ps w ≡ ok (id, v)
      → (s : Store) → Changed m.content_hash ps w.store s
      → ReturnsAfter (opened m id ps w s)
  recover-opened v retires created s changed =
      let (recovered, returned, _) =
        recover_pending_transaction-Returned m w.store id journal_schema_version
          (opened m id ps w s) faultless retires
          (opened-pending m w id ps under s changed (create_journal-eq-ok m ps w v id created).0)
          (opened-InFlight m w id ps under s changed) in
      (recovered, returned)

  settle-Returned :
      (v : World)
      → create_journal m ps w ≡ ok (id, v)
      → (o : Outcome) (e : JournalError) → (m.retirement id ≡ gone) ⊎ (e ≢ journal_not_retired)
      → ((x : JournalError) → o.failure ≡ some x → Reached o.world)
      → ReturnsOn e (settle m id o)
  unfolding settle
  settle-Returned v created o e kept reached = elim (Option-cases o.failure) [
    | inl finished ↦
        rw (settle, finished)
          (λ fails.
            let (left, lost) = retire_journal-fails m id o.world e fails in
            elim kept [ inl g ↦ absurd (left g) | inr other ↦ absurd (other lost) ])
    | inr (x, failure) ↦
        let (s, same, changed) = reached x failure in
        let there : (l : Location)
            → Returned w.store (recover_pending_transaction m o.world).world.store l =
          rw same (
            recover_pending_transaction-Restores m w.store id journal_schema_version
              (opened m id ps w s) faultless
              (opened-pending m w id ps under s changed
                (create_journal-eq-ok m ps w v id created).0)
              (opened-InFlight m w id ps under s changed)) in
        rw (settle, failure, recover_apply_failure-world m o.world x) (λ _. there)
  ]

  written-Reached :
      (v : World) (finalize : Option Finalizer) (ledger : Ledger)
      → create_journal m ps w ≡ ok (id, v)
      → (x : JournalError)
      → (after (apply_mutations m id ps v) (finalize_step finalize ledger)).failure ≡ some x
      → Reached (after (apply_mutations m id ps v) (finalize_step finalize ledger)).world
  unfolding finalize_step
  written-Reached v finalize ledger created x fails =
      let same = (create_journal-eq-ok m ps w v id created).1 in
      let (s, reached, changed) =
        apply_mutations-ChangesStore m ps w.store under.checked ps (opened m id ps w w.store) id
          (λ q i. i) (λ l. inl refl) in
      let there : (apply_mutations m id ps v).world ≡ opened m id ps w s = rw same reached in
      elim (Option-cases (apply_mutations m id ps v).failure) [
        | inr (_, e) ↦ by_failure (apply_mutations m id ps v) e (s, there, changed)
        | inl e ↦ by_finalizer finalize (apply_mutations m id ps v) e (s, there, changed) fails
      ]
    where
      by_failure :
          {y : JournalError} (o : Outcome)
          → o.failure ≡ some y
          → Reached o.world
          → Reached (after o (finalize_step finalize ledger)).world
      by_failure o e r = rw e r

      by_finalizer :
          (f : Option Finalizer) (o : Outcome)
          → o.failure ≡ none
          → Reached o.world
          → (after o (finalize_step f ledger)).failure ≡ some x
          → Reached (after o (finalize_step f ledger)).world
      by_finalizer none o e r h = rw e r
      by_finalizer (some f) o e r h = elim (Option-cases (f ledger o.world.store)) [
        | inl k ↦ rw (e, finalize_step, k) r
        | inr (_, k) ↦ absurd (none≢some (rw (e, finalize_step, k) at h))
      ]

-- A crash after any number of the writes of a realization loses nothing: the next recovery succeeds,
-- and every location then holds what it held before the transaction, but that a directory may stand
-- where there was nothing. The targets differ, stand below directories that are there, and the
-- system calls of the recovery succeed.
pub apply_mutations-Returned :
    (m : Machine) (w v : World) (id : Bytes) (ps : List PreparedOperation) (n : ℕ)
    → ((l : Location) → m.restore_fails l ≡ false)
    → m.retirement id ≡ gone
    → Undertaking m w id ps
    → create_journal m ps w ≡ ok (id, v)
    → ((recover_pending_transaction m (apply_mutations m id (take n ps) v).world).failure ≡ none)
      × ((l : Location)
          → Returned w.store
              (recover_pending_transaction m (apply_mutations m id (take n ps) v).world).world.store
              l)
apply_mutations-Returned m w v id ps n faultless retires under created =
    let same = (create_journal-eq-ok m ps w v id created).1 in
    let (s, reached, changed) =
      apply_mutations-ChangesStore m ps w.store under.checked (take n ps) (opened m id ps w w.store)
        id (In-take n ps) (λ l. inl refl) in
    rw (same, reached) (recover-opened m w id ps faultless under v retires created s changed)
  where
    In-take :
        (n : ℕ) (ps : List PreparedOperation) (p : PreparedOperation) → In p (take n ps) → In p ps
    In-take zero ps p i = absurd i
    In-take (suc n) [] p i = absurd i
    In-take (suc n) (q ∷ ps) p (inl e) = inl e
    In-take (suc n) (q ∷ ps) p (inr i) = inr (In-take n ps p i)

-- Where the error is not that the journal of a plan that is applied stays, no retirement is needed.
pub apply_plan_journaled-Restores :
    (m : Machine) (w : World) (plan : Plan) (finalize : Option Finalizer) (e : JournalError)
    → ((l : Location) → m.restore_fails l ≡ false)
    → ((id : Bytes) → (m.retirement id ≡ gone) ⊎ (e ≢ journal_not_retired))
    → ((ps : List PreparedOperation) (id : Bytes) (v : World)
        → prepare_operations m w.store plan.operations ≡ ok ps
        → create_journal m ps w ≡ ok (id, v)
        → Undertaking m w id ps)
    → (apply_plan_journaled m plan finalize w).failure ≡ some e
    → (l : Location) → Returned w.store (apply_plan_journaled m plan finalize w).world.store l
unfolding apply_plan_journaled run_transaction publish_journal
apply_plan_journaled-Restores m w plan finalize e faultless kept under fails =
    elim (Result-cases (prepare_operations m w.store plan.operations)) [
      | inr (x, unprepared) ↦ rw (apply_plan_journaled, unprepared) (λ l. inl refl)
      | inl (ps, prepared) ↦ elim (Result-cases (create_journal m ps w)) [
        | inr (x, unopened) ↦ rw (apply_plan_journaled, prepared, unopened) (λ l. inl refl)
        | inl ((id, v), created) ↦ elim (Bool-cases (m.publish_fails id)) [
          | inl lost ↦
              let same = (create_journal-eq-ok m ps w v id created).1 in
              rw (apply_plan_journaled, prepared, created, run_transaction, publish_journal, lost)
                (rw same (λ l. inl refl))
          | inr published ↦
              rw
                (
                  apply_plan_journaled, prepared, created, run_transaction, publish_journal,
                  published,
                )
                (settle-Returned m w id ps faultless (under ps id v prepared created) v created
                  (after (apply_mutations m id ps v) (finalize_step finalize plan.next_ledger)) e
                  (kept id)
                  (written-Reached m w id ps faultless (under ps id v prepared created) v finalize
                    plan.next_ledger created)
                  (rw
                    (
                      apply_plan_journaled, prepared, created, run_transaction, publish_journal,
                      published,
                    )
                    at fails))
        ]
      ]
    ]

-- A plan is applied whole or not at all: when applying it fails, every location holds what it
-- held before, but that a directory may stand where there was nothing. The targets of the journal
-- that it opens differ and stand below directories that are there, and the system calls of the
-- recovery succeed, the retirement of the journal among them.
pub apply_plan_journaled-Returned :
    (m : Machine) (w : World) (plan : Plan) (finalize : Option Finalizer) (e : JournalError)
    → ((l : Location) → m.restore_fails l ≡ false)
    → ((id : Bytes) → m.retirement id ≡ gone)
    → ((ps : List PreparedOperation) (id : Bytes) (v : World)
        → prepare_operations m w.store plan.operations ≡ ok ps
        → create_journal m ps w ≡ ok (id, v)
        → Undertaking m w id ps)
    → (apply_plan_journaled m plan finalize w).failure ≡ some e
    → (l : Location) → Returned w.store (apply_plan_journaled m plan finalize w).world.store l
apply_plan_journaled-Returned m w plan finalize e faultless retires under fails =
    apply_plan_journaled-Restores m w plan finalize e faultless (λ id. inl (retires id)) under fails
