-- ===== src/Realize/Engine/Guarded.antt =====
-- internal/realize/transaction.go: what holds of every plan that the engine returns.
use agentic_context_registry.Base.{
  Bool, true, false, ◌&&◌, List, [], ◌∷◌, some, ◌≡◌, ◌⊎◌, inl, inr, refl, ap, ◌∙◌, subst, All,
  Bool-cases, Option-cases, Result, ok, err, ◌>>=◌, ◌>>◌, >>=-eq-ok, >>-eq-ok, fail_if,
  fail_if-eq-ok, ok-injective, err≢ok,
}
use agentic_context_registry.Realize.Model.{Operation, Plan}
use agentic_context_registry.Realize.RealizationPath.{clean}
use agentic_context_registry.Realize.Planner.Run.{plan, has_conflicts, has_changes}
use agentic_context_registry.Realize.Journal.Store.{Store}
use agentic_context_registry.Realize.Journal.Manifest.{World, inspect_transactions}
use agentic_context_registry.Realize.Engine.State.{
  live_tessl_manifest, tessl_owned_target, validate_tessl_owned_targets,
}
use agentic_context_registry.Realize.Engine.{
  Engine, Request, RunError, mode_check, failing, environment, with_state, check_tessl, conflicts,
  changes, tessl_owned, planning_failed, transactions_failed, guarded_plan, preview, run_mode, run,
}

failing-eq-ok :
    {E A : Type 0} (f : E → RunError) (r : Result E A) {a : A} → failing f r ≡ ok a → r ≡ ok a
failing-eq-ok f (ok a) h = cc
failing-eq-ok f (err e) h = absurd (err≢ok h)

-- No operation goes to a path that Tessl owns.
abbrev pub IsOutsideTessl : List Operation → Type 0
IsOutsideTessl os = All (λ (o : Operation). tessl_owned_target (clean o.path) ≡ false) os

validate_tessl_owned_targets-IsOutsideTessl :
    (os : List Operation) → validate_tessl_owned_targets os ≡ ok tt → IsOutsideTessl os
unfolding validate_tessl_owned_targets
validate_tessl_owned_targets-IsOutsideTessl [] h = tt
validate_tessl_owned_targets-IsOutsideTessl (o ∷ os) h =
    let (first, rest) =
      >>-eq-ok (fail_if (tessl_owned_target (clean o.path)) (clean o.path))
        (validate_tessl_owned_targets os) h in
    (
      fail_if-eq-ok (tessl_owned_target (clean o.path)) (clean o.path) first,
      validate_tessl_owned_targets-IsOutsideTessl os rest,
    )

-- The plan of the planner for a store has no conflict, and the returned one is that plan with the
-- state files; in a project with a live Tessl manifest it stays outside of what Tessl owns.
pub record IsGuarded (engine : Engine) (request : Request) (live : Bool) (s : Store) (p : Plan)
    : Type 0 where
  pub planned : Plan
  pub from_planner :
      plan (environment engine s) [] request.current request.intents request.retained ≡ ok planned
  pub no_conflicts : has_conflicts planned ≡ false
  pub with_files : with_state engine s request.state planned ≡ ok p
  pub outside : (live ≡ false) ⊎ IsOutsideTessl p.operations

module _ (engine : Engine) (request : Request) (live : Bool) where
  pub guarded_plan-IsGuarded :
      (s : Store) (p : Plan)
      → guarded_plan engine request live s ≡ ok p
      → IsGuarded engine request live s p
  unfolding guarded_plan
  guarded_plan-IsGuarded s p e =
      let (planned, made, rest) =
        >>=-eq-ok
          (failing planning_failed
            (plan (environment engine s) [] request.current request.intents request.retained))
          _ e in
      let (calm, further) =
        >>-eq-ok (fail_if (has_conflicts planned) conflicts)
          (with_state engine s request.state planned >>= λ q. check_tessl live q >> ok q) rest in
      let (q, added, last) = >>=-eq-ok (with_state engine s request.state planned) _ further in
      let (checked, same) = >>-eq-ok (check_tessl live q) (ok q) last in
      let this : q ≡ p = ok-injective same in
      record {
        planned = planned;
        from_planner = failing-eq-ok planning_failed _ made;
        no_conflicts = fail_if-eq-ok (has_conflicts planned) conflicts calm;
        with_files = added ∙ ap ok this;
        outside =
            subst (λ (r : Plan). (live ≡ false) ⊎ IsOutsideTessl r.operations) this
              (outside_tessl q checked);
      }
    where
      outside_tessl :
          (q : Plan) → check_tessl live q ≡ ok tt → (live ≡ false) ⊎ IsOutsideTessl q.operations
      outside_tessl q h = elim (Bool-cases live) [
        | inr l ↦ inl l
        | inl l ↦ inr (
            validate_tessl_owned_targets-IsOutsideTessl q.operations (
              failing-eq-ok tessl_owned (validate_tessl_owned_targets q.operations)
                (rw (check_tessl, l) at h)))
      ]

  preview-IsGuarded :
      (checks : Bool) (w : World) (p : Plan)
      → preview engine request checks live w ≡ ok p
      → IsGuarded engine request live w.store p × ((checks && has_changes p) ≡ false)
  unfolding preview
  preview-IsGuarded checks w p e =
      let (_, _, rest) =
        >>=-eq-ok (failing transactions_failed (inspect_transactions engine.machine.decode w)) _
          e in
      let (q, guarded, last) = >>=-eq-ok (guarded_plan engine request live w.store) _ rest in
      let (quiet, same) = >>-eq-ok (fail_if (checks && has_changes q) changes) (ok q) last in
      let this : q ≡ p = ok-injective same in
      subst
        (λ (r : Plan).
          IsGuarded engine request live w.store r × ((checks && has_changes r) ≡ false))
        this
        (
          guarded_plan-IsGuarded w.store q guarded,
          fail_if-eq-ok (checks && has_changes q) changes quiet,
        )

-- A check that succeeds changes nothing and means that there is nothing to do: the planner's plan for
-- the project as it is has no conflict, and with the state files it has no changes.
pub run-IsGuarded :
    (engine : Engine) (request : Request) (w : World) (p : Plan)
    → (run engine request mode_check w).result ≡ ok p
    → ((run engine request mode_check w).world ≡ w)
      × (has_changes p ≡ false)
      × ((live : Bool) × (live_tessl_manifest w.store ≡ some live)
          × IsGuarded engine request live w.store p)
unfolding run run_mode
run-IsGuarded engine request w p e = elim (Option-cases (live_tessl_manifest w.store)) [
  | inl unknown ↦ absurd (err≢ok (rw (run, unknown) at e))
  | inr (live, known) ↦
      let (guarded, quiet) =
        preview-IsGuarded engine request live true w p (rw (run, known, run_mode) at e) in
      (rw (run, known, run_mode) refl, quiet, (live, known, guarded))
]
