-- ===== src/Realize/Engine/Success.antt =====
-- internal/realize/transaction.go: what a project holds behind an apply run that succeeds.
use agentic_context_registry.Base.{
  Bool, true, false, not, List, none, Bytes, if_elim, ◌≡◌, ◌⊎◌, inl, inr, refl, sym, ap, ◌∙◌, subst,
  All, Bool-cases, Option-cases, Result-cases, ok, err≢ok, ok-injective, true≢false,
}
use agentic_context_registry.Realize.Model.{Plan}
use agentic_context_registry.Realize.Planner.Run.{has_changes}
use agentic_context_registry.Realize.Journal.Store.{lookup}
use agentic_context_registry.Realize.Journal.Manifest.{World}
use agentic_context_registry.Realize.Journal.Machine.{gone}
use agentic_context_registry.Realize.Journal.Apply.{
  PreparedOperation, prepare_operations, create_journal,
}
use agentic_context_registry.Realize.Journal.Run.{apply_plan_journaled}
use agentic_context_registry.Realize.Journal.Run.Flight.{Undertaking}
use agentic_context_registry.Realize.Journal.Run.Placed.{Written}
use agentic_context_registry.Realize.Journal.Run.Success.{apply_plan_journaled-Written}
use agentic_context_registry.Realize.Engine.{
  Engine, Request, RunOutcome, guarded_plan, is_given, apply_outcome, apply_request,
}
use agentic_context_registry.Realize.Engine.Guarded.{IsGuarded, guarded_plan-IsGuarded}

-- A world is as it was, behind a plan without changes, or the journalled writes of the plan succeeded
-- and left it.
abbrev Ends : Engine → Request → World → Plan → World → Type 0
Ends engine request w p end =
    ((has_changes p ≡ false) × (end ≡ w))
    ⊎ (((apply_plan_journaled engine.machine p request.legacy w).failure ≡ none)
        × (end ≡ (apply_plan_journaled engine.machine p request.legacy w).world))

-- An outcome that returns a plan returns this one, and its world is the end of it.
abbrev Delivers : Engine → Request → World → Plan → RunOutcome → Type 0
Delivers engine request w p o =
    (q : Plan) → o.result ≡ ok q → (p ≡ q) × Ends engine request w p o.world

module _ (engine : Engine) (request : Request) (live : Bool) (w : World) where
  applied-Delivers :
      (p : Plan)
      → Delivers engine request w p
          (apply_outcome p (apply_plan_journaled engine.machine p request.legacy w))
  unfolding apply_outcome
  applied-Delivers p q e =
      elim (Option-cases (apply_plan_journaled engine.machine p request.legacy w).failure) [
        | inl h ↦ (ok-injective (rw (apply_outcome, h) at e), inr (h, rw (apply_outcome, h) refl))
        | inr (x, h) ↦ absurd (err≢ok (rw (apply_outcome, h) at e))
      ]

  apply_request-Delivers :
      (p : Plan)
      → guarded_plan engine request live w.store ≡ ok p
      → Delivers engine request w p (apply_request engine request live w)
  unfolding apply_request
  apply_request-Delivers p guarded =
      rw (apply_request, guarded)
        (if_elim (Delivers engine request w p) (not (has_changes p))
          (λ e q h. (ok-injective h, inl (unchanged e, refl)))
          (λ _.
            if_elim (Delivers engine request w p) (not (is_given request))
              (λ _ q h. absurd (err≢ok h)) (λ _. applied-Delivers p)))
    where
      unchanged : not (has_changes p) ≡ true → has_changes p ≡ false
      unchanged h = elim (Bool-cases (has_changes p)) [
        | inl c ↦ absurd (true≢false (sym (rw c at h)))
        | inr c ↦ c
      ]

-- An apply run that succeeds behind recovery, with no finalizer but that of the state files, returns
-- a plan without conflicts, which stays outside of what Tessl owns where Tessl's manifest is live.
-- Either the plan has no changes and the project stays as it was, or every target that was to change,
-- the state files with them, is in its planned after-state. The targets of the journal differ and
-- stand below directories that are there, and the journal retires.
pub apply_request-Written :
    (engine : Engine) (request : Request) (live : Bool) (w v : World) (p : Plan) (id : Bytes)
    (ps : List PreparedOperation)
    → request.legacy ≡ none
    → engine.machine.retirement id ≡ gone
    → prepare_operations engine.machine w.store p.operations ≡ ok ps
    → create_journal engine.machine ps w ≡ ok (id, v)
    → Undertaking engine.machine w id ps
    → (apply_request engine request live w).result ≡ ok p
    → IsGuarded engine request live w.store p
      × (((has_changes p ≡ false) × ((apply_request engine request live w).world ≡ w))
          ⊎ All
              (λ q.
                Written engine.machine.content_hash q
                  (lookup (apply_request engine request live w).world.store q.location))
              ps)
unfolding apply_request
apply_request-Written engine request live w v p id ps plain retires prepared created under
      succeeds =
    elim (Result-cases (guarded_plan engine request live w.store)) [
      | inr (e, refused) ↦ absurd (err≢ok (rw (apply_request, refused) at succeeds))
      | inl (q, guarded) ↦
          let (same, end) = apply_request-Delivers engine request live w q guarded p succeeds in
          let this : guarded_plan engine request live w.store ≡ ok p = guarded ∙ ap ok same in
          (
            guarded_plan-IsGuarded engine request live w.store p this,
            delivered (
                subst
                  (λ (r : Plan).
                    Ends engine request w r (apply_request engine request live w).world)
                  same end),
          )
    ]
  where
    delivered :
        Ends engine request w p (apply_request engine request live w).world
        → ((has_changes p ≡ false) × ((apply_request engine request live w).world ≡ w))
          ⊎ All
              (λ q.
                Written engine.machine.content_hash q
                  (lookup (apply_request engine request live w).world.store q.location))
              ps
    delivered (inl idle) = inl idle
    delivered (inr (fine, left)) = inr (
        subst
          (λ (u : World).
            All (λ q. Written engine.machine.content_hash q (lookup u.store q.location)) ps)
          (sym (left ∙ ap (λ f. (apply_plan_journaled engine.machine p f w).world) plain))
          (apply_plan_journaled-Written engine.machine w v p id ps retires prepared created under
            (sym (ap (λ f. (apply_plan_journaled engine.machine p f w).failure) plain) ∙ fine)))
