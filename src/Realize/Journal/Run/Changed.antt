-- ===== src/Realize/Journal/Run/Changed.antt =====
-- internal/realize/journal.go: what the writes of applyPlanJournaled can change, however far they
-- get, below directories that are there.
use agentic_context_registry.Base.{
  Option-cases, List, [], ◌∷◌, Bytes, ◌≡◌, ◌⊎◌, inl, inr, refl, sym, ◌∙◌, All, All-In, In, if_elim,
  ok, Result-cases,
}
use agentic_context_registry.Realize.Journal.Store.{Item, folder, Location, Store, lookup, in_root}
use agentic_context_registry.Realize.Journal.Parents.{
  IsFolder, IsPlain, Above, parents, ensure_parent_directories-IsFolder,
}
use agentic_context_registry.Realize.Journal.Manifest.{World}
use agentic_context_registry.Realize.Journal.Machine.{Machine, Outcome, after}
use agentic_context_registry.Realize.Journal.Recovery.Step.{Writes}
use agentic_context_registry.Realize.Journal.Apply.{PreparedOperation}
use agentic_context_registry.Realize.Journal.Run.{
  write_operation, write_step, record_created_directories, apply_mutation, apply_mutations,
}
use agentic_context_registry.Realize.Journal.Run.Placed.{Written, Checked, write_operation-Writes}

-- Every location is as it was at the start, or is the target of an operation and in its after-state.
abbrev pub Changed : (Bytes → Bytes) → List PreparedOperation → Store → Store → Type 0
Changed content_hash ps start s =
    (l : Location)
    → (lookup s l ≡ lookup start l)
      ⊎ ((p : PreparedOperation) × In p ps × (p.location ≡ l) × Written content_hash p (lookup s l))

module _ (m : Machine) (ps : List PreparedOperation) (start : Store)
    (checked : All (Checked m start) ps) where
  folder-not_plain : (i : Item) → IsFolder i → IsPlain i → ⊥
  folder-not_plain (folder _ _) f p = p
  folder-not_plain _ f p = f

  -- A directory stays: no target is one.
  pub IsFolder-Changed :
      (s : Store) (l : Location)
      → Changed m.content_hash ps start s
      → IsFolder (lookup start l)
      → IsFolder (lookup s l)
  IsFolder-Changed s l changed f = elim (changed l) [
    | inl e ↦ rw e f
    | inr (p, i, at, _) ↦ absurd (
        folder-not_plain (lookup start l) f
          (rw (← at) (All-In (Checked m start) p ps checked i).plain))
  ]

  pub Above-Changed :
      (s : Store) (l : Location)
      → Changed m.content_hash ps start s
      → Above IsFolder start l
      → Above IsFolder s l
  Above-Changed s l changed above = along (parents l.path) above
    where
      along :
          (paths : List Bytes)
          → All (λ path. IsFolder (lookup start (in_root l path))) paths
          → All (λ path. IsFolder (lookup s (in_root l path))) paths
      along [] h = tt
      along (path ∷ paths) (h, k) = (IsFolder-Changed s (in_root l path) changed h, along paths k)

  pub Changed-Writes :
      (s t : Store) (p : PreparedOperation) (i : Item)
      → In p ps
      → Changed m.content_hash ps start s
      → Writes p.location i s t
      → Written m.content_hash p i
      → Changed m.content_hash ps start t
  Changed-Writes s t p i among changed (here, elsewhere) written l = elim (elsewhere l) [
    | inl e ↦ inr (p, among, sym e, rw (e, here) written)
    | inr e ↦ elim (changed l) [ inl f ↦ inl (e ∙ f) | inr (q, j, at, w) ↦ inr (q, j, at, rw e w) ]
  ]

  write_operation-Changed :
      (p : PreparedOperation) (s t : Store)
      → In p ps
      → Changed m.content_hash ps start s
      → write_operation m s p ≡ ok t
      → Changed m.content_hash ps start t
  write_operation-Changed p s t among changed e =
      let this = All-In (Checked m start) p ps checked among in
      let (i, writes, written) = write_operation-Writes m start p s t this e in
      Changed-Writes s t p i among changed writes written

  -- An outcome that differs from a world in the store only, and there by the operations' writes.
  abbrev pub ChangesStore : World → Outcome → Type 0
  ChangesStore w o =
      (s : Store) × (o.world ≡ record w { store = s }) × Changed m.content_hash ps start s

  write_step-ChangesStore :
      (p : PreparedOperation) (w : World)
      → In p ps
      → Changed m.content_hash ps start w.store
      → ChangesStore w (write_step m p w)
  unfolding write_step
  write_step-ChangesStore p w among changed = elim (Result-cases (write_operation m w.store p)) [
    | inl (s, e) ↦ rw (write_step, e) (s, refl, write_operation-Changed p w.store s among changed e)
    | inr (_, e) ↦ rw (write_step, e) (w.store, refl, changed)
  ]

  apply_mutation-ChangesStore :
      (p : PreparedOperation) (w : World) (id : Bytes)
      → In p ps
      → Changed m.content_hash ps start w.store
      → ChangesStore w (apply_mutation m id w p)
  unfolding apply_mutation record_created_directories
  apply_mutation-ChangesStore p w id among changed =
      let above =
        Above-Changed w.store p.location changed
          (All-In (Checked m start) p ps checked among).above in
      if_elim (ChangesStore w) p.operation.deletes (λ _. write_step-ChangesStore p w among changed)
        (λ _.
          rw (ensure_parent_directories-IsFolder w.store p.location m.identity above)
            (write_step-ChangesStore p w among changed))

  after-ChangesStore :
      (w : World) (o : Outcome) (next : World → Outcome)
      → ChangesStore w o
      → ((s : Store)
          → Changed m.content_hash ps start s
          → ChangesStore (record w { store = s }) (next (record w { store = s })))
      → ChangesStore w (after o next)
  after-ChangesStore w o next (s, same, changed) further = elim (Option-cases o.failure) [
    | inr (_, e) ↦ rw e (s, same, changed)
    | inl e ↦ let (t, rest, onward) = further s changed in rw (e, same) (t, rest, onward)
  ]

  pub apply_mutations-ChangesStore :
      (qs : List PreparedOperation) (w : World) (id : Bytes)
      → ((q : PreparedOperation) → In q qs → In q ps)
      → Changed m.content_hash ps start w.store
      → ChangesStore w (apply_mutations m id qs w)
  unfolding apply_mutations
  apply_mutations-ChangesStore [] w id among changed = (w.store, refl, changed)
  apply_mutations-ChangesStore (q ∷ qs) w id among changed =
      after-ChangesStore w (apply_mutation m id w q) (apply_mutations m id qs)
        (apply_mutation-ChangesStore q w id (among q (inl refl)) changed)
        (λ s c.
          apply_mutations-ChangesStore qs (record w { store = s }) id (λ r i. among r (inr i)) c)
