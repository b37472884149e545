-- ===== src/Realize/Journal/Run/Success.antt =====
-- internal/realize/journal.go: what applyPlanJournaled leaves when it succeeds.
use agentic_context_registry.Base.{
  false, Bool-cases, if_elim, List, [], ◌∷◌, none, some, Bytes, ◌≡◌, ◌⊎◌, inl, inr, refl, sym, ap,
  ◌∙◌, subst, All, All-In, In, Option-cases, Result-cases, ok, none≢some,
}
use agentic_context_registry.Realize.Model.{Ledger, Plan}
use agentic_context_registry.Realize.Journal.Store.{Item, Store, lookup}
use agentic_context_registry.Realize.Journal.Parents.{ensure_parent_directories-IsFolder}
use agentic_context_registry.Realize.Journal.Manifest.{World, JournalError}
use agentic_context_registry.Realize.Journal.Machine.{
  Machine, gone, Outcome, done, after, retire_journal,
}
use agentic_context_registry.Realize.Journal.Recovery.{recover_pending_transaction}
use agentic_context_registry.Realize.Journal.Recovery.Step.{Writes}
use agentic_context_registry.Realize.Journal.Apply.{
  PreparedOperation, prepare_operations, create_journal,
}
use agentic_context_registry.Realize.Journal.Run.{
  publish_journal, write_operation, write_step, apply_mutation, apply_mutations,
  record_created_directories, finalize_step, recover_apply_failure, settle, run_transaction,
  apply_plan_journaled,
}
use agentic_context_registry.Realize.Journal.Run.Placed.{Written, Checked, write_operation-Writes}
use agentic_context_registry.Realize.Journal.Run.Changed.{Changed, Above-Changed, Changed-Writes}
use agentic_context_registry.Realize.Journal.Run.Opened.{create_journal-eq-ok}
use agentic_context_registry.Realize.Journal.Run.Flight.{Undertaking}

module _ (m : Machine) (ps : List PreparedOperation) (start : Store)
    (checked : All (Checked m start) ps)
    (distinct : (p q : PreparedOperation)
      → In p ps
      → In q ps
      → p.location ≡ q.location
      → p ≡ q) where
  -- A write has failed, or the target holds its after-state and no other location has changed.
  abbrev Effect : World → PreparedOperation → Outcome → Type 0
  Effect w p o =
      ((e : JournalError) × (o.failure ≡ some e))
      ⊎ ((s : Store) × (o ≡ done (record w { store = s }))
          × (i : Item) × Writes p.location i w.store s
          × Written m.content_hash p i)

  write_step-Effect : (p : PreparedOperation) (w : World) → In p ps → Effect w p (write_step m p w)
  unfolding write_step
  write_step-Effect p w among = elim (Result-cases (write_operation m w.store p)) [
    | inr (e, failed) ↦ rw (write_step, failed) (inl (e, refl))
    | inl (s, ran) ↦
        let this = All-In (Checked m start) p ps checked among in
        let (i, writes, written) = write_operation-Writes m start p w.store s this ran in
        rw (write_step, ran) (inr (s, refl, i, writes, written))
  ]

  apply_mutation-Effect :
      (p : PreparedOperation) (w : World) (id : Bytes)
      → In p ps
      → Changed m.content_hash ps start w.store
      → Effect w p (apply_mutation m id w p)
  unfolding apply_mutation record_created_directories
  apply_mutation-Effect p w id among changed =
      let this = All-In (Checked m start) p ps checked among in
      let above = Above-Changed m ps start checked w.store p.location changed this.above in
      if_elim (Effect w p) p.operation.deletes (λ _. write_step-Effect p w among)
        (λ _.
          rw (ensure_parent_directories-IsFolder w.store p.location m.identity above)
            (write_step-Effect p w among))

  abbrev Holds : Store → PreparedOperation → Type 0
  Holds s p = Written m.content_hash p (lookup s p.location)

  -- A target that holds its after-state keeps it: no other operation writes there.
  Holds-Writes :
      (p q : PreparedOperation) (i : Item) (s t : Store)
      → In p ps
      → In q ps
      → Writes q.location i s t
      → Written m.content_hash q i
      → Holds s p
      → Holds t p
  Holds-Writes p q i s t among other (here, elsewhere) written held = elim (elsewhere p.location) [
    | inr e ↦ rw e held
    | inl e ↦
        subst (λ (r : PreparedOperation). Holds t r) (sym (distinct p q among other e))
          (rw here written)
  ]

  -- Every target of the operations holds its after-state, and those that held it before do.
  abbrev Ends : List PreparedOperation → Store → Outcome → Type 0
  Ends qs s o =
      All (Holds o.world.store) qs
      × ((p : PreparedOperation) → In p ps → Holds s p → Holds o.world.store p)

  apply_mutations-Holds :
      (qs : List PreparedOperation) (w : World) (id : Bytes)
      → ((q : PreparedOperation) → In q qs → In q ps)
      → Changed m.content_hash ps start w.store
      → (apply_mutations m id qs w).failure ≡ none
      → Ends qs w.store (apply_mutations m id qs w)
  unfolding apply_mutations
  apply_mutations-Holds [] w id among changed succeeds = (tt, λ p i h. h)
  apply_mutations-Holds (q ∷ qs) w id among changed succeeds =
      elim (apply_mutation-Effect q w id (among q (inl refl)) changed) [
        | inl (e, failed) ↦
            absurd (none≢some (sym succeeds ∙ still_failed (apply_mutation m id w q) failed))
        | inr (s, ran, i, writes, written) ↦
            let this = among q (inl refl) in
            let onward =
              Changed-Writes m ps start checked w.store s q i this changed writes written in
            let (all, keeps) =
              apply_mutations-Holds qs (record w { store = s }) id (λ r j. among r (inr j)) onward
                (rw (apply_mutations, ran) at succeeds) in
            let whole : apply_mutations m id qs (record w { store = s })
                ≡ apply_mutations m id (q ∷ qs) w =
              rw (apply_mutations, ran) refl in
            subst (Ends (q ∷ qs) w.store) whole (
              (keeps q this (rw writes.0 written), all),
              λ p j held. keeps p j (Holds-Writes p q i w.store s j this writes written held),
            )
      ]
    where
      still_failed :
          {e : JournalError} (o : Outcome)
          → o.failure ≡ some e
          → (after o (apply_mutations m id qs)).failure ≡ some e
      still_failed o f = rw f refl

-- After a failure there is one to report.
recover_apply_failure-fails :
    (m : Machine) (v : World) (e : JournalError) → (recover_apply_failure m v e).failure ≡ none → ⊥
unfolding recover_apply_failure
recover_apply_failure-fails m v e h =
    elim (Option-cases (recover_pending_transaction m v).failure) [
      | inl k ↦ none≢some (sym (rw (recover_apply_failure, k) at h))
      | inr (_, k) ↦ none≢some (sym (rw (recover_apply_failure, k) at h))
    ]

settle-succeeds :
    (m : Machine) (id : Bytes) (o : Outcome)
    → m.retirement id ≡ gone
    → (settle m id o).failure ≡ none
    → (o.failure ≡ none) × ((settle m id o).world.store ≡ o.world.store)
unfolding settle retire_journal
settle-succeeds m id o retires h = elim (Option-cases o.failure) [
  | inl e ↦ (e, rw (settle, e, retire_journal, retires) refl)
  | inr (x, e) ↦ absurd (recover_apply_failure-fails m o.world x (rw (settle, e) at h))
]

run_transaction-published :
    (m : Machine) (id : Bytes) (ps : List PreparedOperation) (ledger : Ledger) (w : World)
    → (run_transaction m id ps none ledger w).failure ≡ none
    → m.publish_fails id ≡ false
unfolding run_transaction publish_journal
run_transaction-published m id ps ledger w h = elim (Bool-cases (m.publish_fails id)) [
  | inl lost ↦ absurd (none≢some (sym (rw (run_transaction, publish_journal, lost) at h)))
  | inr published ↦ published
]

-- When applying a plan that needs no finalizer succeeds, every target that was to change is in its
-- planned after-state: a file with the planned hash and mode, or nothing where the operation removes.
-- The targets differ and stand below directories that are there, and the journal retires.
pub apply_plan_journaled-Written :
    (m : Machine) (w v : World) (plan : Plan) (id : Bytes) (ps : List PreparedOperation)
    → m.retirement id ≡ gone
    → prepare_operations m w.store plan.operations ≡ ok ps
    → create_journal m ps w ≡ ok (id, v)
    → Undertaking m w id ps
    → (apply_plan_journaled m plan none w).failure ≡ none
    → All
        (λ p.
          Written m.content_hash p
            (lookup (apply_plan_journaled m plan none w).world.store p.location))
        ps
unfolding apply_plan_journaled run_transaction publish_journal finalize_step
apply_plan_journaled-Written m w v plan id ps retires prepared created under succeeds =
    let same = (create_journal-eq-ok m ps w v id created).1 in
    let written = after (apply_mutations m id ps v) (finalize_step none plan.next_ledger) in
    let published =
      run_transaction-published m id ps plan.next_ledger v
        (rw (apply_plan_journaled, prepared, created) at succeeds) in
    let settled : (settle m id written).failure ≡ none =
      rw (apply_plan_journaled, prepared, created, run_transaction, publish_journal, published) at
        succeeds in
    let (finished, kept) = settle-succeeds m id written retires settled in
    let plain = unfinalized (apply_mutations m id ps v) in
    let from_start : Changed m.content_hash ps w.store v.store = rw same (λ l. inl refl) in
    let (all, _) =
      apply_mutations-Holds m ps w.store under.checked under.distinct ps v id (λ q i. i) from_start
        (ap (λ (o : Outcome). o.failure) (sym plain) ∙ finished) in
    let end : (settle m id written).world.store ≡ (apply_mutations m id ps v).world.store =
      kept ∙ ap (λ (o : Outcome). o.world.store) plain in
    rw (apply_plan_journaled, prepared, created, run_transaction, publish_journal, published)
      (subst (λ (s : Store). All (λ p. Written m.content_hash p (lookup s p.location)) ps) (sym end)
        all)
  where
    unfinalized : (o : Outcome) → after o (finalize_step none plan.next_ledger) ≡ o
    unfinalized o = elim (Option-cases o.failure) [
      | inl e ↦ rw (e, finalize_step) refl
      | inr (_, e) ↦ rw e refl
    ]
