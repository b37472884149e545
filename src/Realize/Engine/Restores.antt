-- ===== src/Realize/Engine/Restores.antt =====
-- internal/realize/transaction.go: an apply run that fails behind the recovery of older transactions.
use agentic_context_registry.Base.{
  Result, ◌≢◌, ap, Bool, false, not, List, Bytes, if_elim, ◌≡◌, ◌⊎◌, inl, inr, refl, sym, ◌∙◌,
  Option-cases, Result-cases, ok, err, err≢ok,
}
use agentic_context_registry.Realize.Model.{Plan}
use agentic_context_registry.Realize.Planner.Run.{has_changes}
use agentic_context_registry.Realize.Journal.Store.{Location}
use agentic_context_registry.Realize.Journal.Manifest.{World, JournalError, journal_not_retired}
use agentic_context_registry.Realize.Journal.Machine.{gone}
use agentic_context_registry.Realize.Journal.Recovery.Loops.{Returned}
use agentic_context_registry.Realize.Journal.Apply.{
  PreparedOperation, prepare_operations, create_journal,
}
use agentic_context_registry.Realize.Journal.Run.{apply_plan_journaled}
use agentic_context_registry.Realize.Journal.Run.Flight.{Undertaking}
use agentic_context_registry.Realize.Journal.Run.Atomic.{apply_plan_journaled-Restores}
use agentic_context_registry.Realize.Engine.{
  transactions_failed, Engine, Request, RunError, RunOutcome, guarded_plan, is_given, apply_outcome,
  apply_request,
}

-- An outcome that ends in the error has the world as it was, but for new directories.
abbrev FailsBack : World → RunError → RunOutcome → Type 0
FailsBack w e o = o.result ≡ err e → (l : Location) → Returned w.store o.world.store l

module _ (engine : Engine) (request : Request) (live : Bool) (w : World) (e : RunError)
    (faultless : (l : Location) → engine.machine.restore_fails l ≡ false)
    (kept : (id : Bytes)
      → (engine.machine.retirement id ≡ gone) ⊎ (e ≢ transactions_failed journal_not_retired))
    (under : (p : Plan) (ps : List PreparedOperation) (id : Bytes) (v : World)
      → guarded_plan engine request live w.store ≡ ok p
      → prepare_operations engine.machine w.store p.operations ≡ ok ps
      → create_journal engine.machine ps w ≡ ok (id, v)
      → Undertaking engine.machine w id ps) where
  applied-FailsBack :
      (p : Plan)
      → guarded_plan engine request live w.store ≡ ok p
      → FailsBack w e (apply_outcome p (apply_plan_journaled engine.machine p request.legacy w))
  unfolding apply_outcome
  applied-FailsBack p guarded =
      elim (Option-cases (apply_plan_journaled engine.machine p request.legacy w).failure) [
        | inl h ↦ rw (apply_outcome, h) (λ fails. absurd (err≢ok (sym fails)))
        | inr (x, h) ↦
            rw (apply_outcome, h)
              (λ fails.
                apply_plan_journaled-Restores engine.machine w p request.legacy x faultless
                  (retired x fails) (λ ps id v. under p ps id v guarded) h)
      ]
    where
      retired :
          (x : JournalError)
          → ◌≡◌ {A = Result RunError Plan} (err (transactions_failed x)) (err e)
          → (id : Bytes) → (engine.machine.retirement id ≡ gone) ⊎ (x ≢ journal_not_retired)
      retired x fails id = elim (kept id) [
        | inl g ↦ inl g
        | inr other ↦
            let same : transactions_failed x ≡ e = cc in
            inr (λ q. other (sym same ∙ ap transactions_failed q))
      ]

  pub apply_request-Restores : FailsBack w e (apply_request engine request live w)
  unfolding apply_request
  apply_request-Restores = elim (Result-cases (guarded_plan engine request live w.store)) [
    | inr (x, refused) ↦ rw (apply_request, refused) (λ _ l. inl refl)
    | inl (p, guarded) ↦
        rw (apply_request, guarded)
          (if_elim (FailsBack w e) (not (has_changes p)) (λ _ fails. absurd (err≢ok (sym fails)))
            (λ _.
              if_elim (FailsBack w e) (not (is_given request)) (λ _ _ l. inl refl)
                (λ _. applied-FailsBack p guarded)))
  ]

-- An apply run that fails once older transactions are recovered, whether in the planner, in a
-- state file, before Tessl's paths or in a write, leaves every location as it was, but that a
-- directory may stand where there was nothing. The targets of the journal differ and stand below
-- directories that are there, and the system calls of the recovery succeed, the retirement of the
-- journal among them.
pub apply_request-Returned :
    (engine : Engine) (request : Request) (live : Bool) (w : World) (e : RunError)
    → ((l : Location) → engine.machine.restore_fails l ≡ false)
    → ((id : Bytes) → engine.machine.retirement id ≡ gone)
    → ((p : Plan) (ps : List PreparedOperation) (id : Bytes) (v : World)
        → guarded_plan engine request live w.store ≡ ok p
        → prepare_operations engine.machine w.store p.operations ≡ ok ps
        → create_journal engine.machine ps w ≡ ok (id, v)
        → Undertaking engine.machine w id ps)
    → (apply_request engine request live w).result ≡ err e
    → (l : Location) → Returned w.store (apply_request engine request live w).world.store l
apply_request-Returned engine request live w e faultless retires under fails =
    apply_request-Restores engine request live w e faultless (λ id. inl (retires id)) under fails
