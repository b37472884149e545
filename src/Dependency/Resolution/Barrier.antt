-- ===== src/Dependency/Resolution/Barrier.antt =====
-- No pass of `resolveState` crosses a rollback barrier.
use agentic_context_registry.Base.{
  Bool, true, List, [], ◌∷◌, Option, some, Bytes, Option-cases, ok, >>=-eq-ok, ok-subst, ◌≡◌, refl,
  sym, ap, subst, ◌∙◌, ◌⊎◌, inl, inr, In, In-append_cases, sort-In, less,
}
use agentic_context_registry.Realize.Model.{Ledger}
use agentic_context_registry.Dependency.Model.{Declaration, Hold, LockedDependency, State}
use agentic_context_registry.Dependency.Hold.{lock_matches_reference}
use agentic_context_registry.Dependency.Validate.{find_declaration, validate_state}
use agentic_context_registry.Dependency.Validate.Consistent.{IsDeclaration}
use agentic_context_registry.Dependency.Validate.Whole.{IsConsistent, validate_state-IsConsistent}
use agentic_context_registry.Dependency.Resolver.{Remote}
use agentic_context_registry.Dependency.Policy.{HoldPolicy}
use agentic_context_registry.Dependency.Resolution.{
  Sources, Progress, Refresh, resolve_turn, resolve_turns, resolve_state,
}
use agentic_context_registry.Dependency.Resolution.Held.{
  find_lock-In, Serves, AddsOne, Adds, resolve_turn-Adds,
}
use agentic_context_registry.Dependency.Resolution.Pass.{turn-Named}

module _ (decode : Bytes → Option Ledger) (remote : Remote) (policy : HoldPolicy)
    (sources : Sources) where
  -- Where a lock of the pass comes from: a declaration, at whose pin it is if that is held.
  abbrev FromOne : List Declaration → LockedDependency → Type 0
  FromOne ds l = (d : Declaration) × In d ds × Serves d l

  from_step :
      (P : LockedDependency → Type 0) (progress next : Progress) (l : LockedDependency)
      → AddsOne P progress next
      → In l next.locks
      → In l progress.locks ⊎ P l
  from_step P progress next l (inl e) m = inl (subst (λ ls. In l ls) e m)
  from_step P progress next l (inr (x, e, p)) m =
      elim (In-append_cases l progress.locks (x ∷ []) (subst (λ ls. In l ls) e m)) [
        | inl i ↦ inl i
        | inr i ↦ elim i [ inl q ↦ inr (rw q p) | inr n ↦ absurd n ]
      ]

  module _ (locks : List LockedDependency) (refresh : Refresh) (only_requested : Bool)
      (all_declared : List Declaration)
      (declared : (d : Declaration) → In d all_declared → IsDeclaration d)
      (held : (l : LockedDependency) (d : Declaration) (h : Hold)
        → In l locks
        → In d all_declared
        → d.source ≡ l.source
        → d.hold ≡ some h
        → lock_matches_reference l h.pin ≡ true) where
    turn_serves :
        (d : Declaration) (progress : Progress) {next : Progress}
        → In d all_declared
        → resolve_turn decode remote policy sources locks refresh only_requested d progress
          ≡ ok next
        → Adds d progress next
    turn_serves d progress {next} m k = elim (Option-cases d.hold) [
      | inl free ↦
          elim (turn-Named decode remote policy sources locks refresh only_requested d progress k) [
            | inl e ↦ inl e
            | inr (l, e, q) ↦
                inr (l, e, record { same_source = q; at_pin = λ h f. absurd (cc (sym free ∙ f)) })
          ]
      | inr (h, e) ↦
          resolve_turn-Adds decode remote policy sources locks refresh only_requested d h progress
            (declared d m) e
            (λ l f.
              let (i, s) = find_lock-In locks d.source f in
              record { same_source = s; at_pin = λ g q. held l d g i m (sym s) q })
            k
    ]

    turns_serve :
        (ds : List Declaration) (progress : Progress) {done : Progress}
        → ((d : Declaration) → In d ds → In d all_declared)
        → resolve_turns decode remote policy sources locks refresh only_requested ds progress
          ≡ ok done
        → (l : LockedDependency) → In l done.locks
        → In l progress.locks ⊎ FromOne all_declared l
    unfolding resolve_turns
    turns_serve [] progress among k l m =
        inl (ok-subst (λ p. In l p.locks → In l progress.locks) k (λ i. i) m)
    turns_serve (d ∷ ds) progress among k l m =
        let (next, a, b) =
          >>=-eq-ok
            (resolve_turn decode remote policy sources locks refresh only_requested d progress) _
            k in
        elim (turns_serve ds next (λ d i. among d (inr i)) b l m) [
          | inr p ↦ inr p
          | inl i ↦
              elim (from_step (Serves d) progress next l
                (turn_serves d progress (among d (inl refl)) a) i) [
                  | inl j ↦ inl j
                  | inr p ↦ inr (d, among d (inl refl), p)
                ]
        ]

  pub same_declaration :
      (state : State)
      → IsConsistent state.project state.lock
      → (c d : Declaration) → In c state.project.dependencies
      → In d state.project.dependencies
      → c.source ≡ d.source
      → c ≡ d
  same_declaration state whole c d m n e = some-injective (
      sym (whole.declared c m).1
      ∙ (ap (find_declaration state.project.dependencies) e ∙ (whole.declared d n).1))
    where
      some-injective : {a b : Declaration} → some a ≡ some b → a ≡ b
      some-injective h = cc

  -- From a state that passes validation, with any policy that stands by its holds: each lock of a
  -- resolution pass is of a declaration's source, and where the declaration of that source is held,
  -- the lock resolves the held pin. No barrier is crossed, whatever is refreshed and whatever the
  -- remote answers.
  pub resolve_state-stays_held :
      (state : State) (refresh : Refresh) (only_requested : Bool)
      {result : State × List Bytes × List Bytes}
      → validate_state decode state.project state.lock ≡ ok tt
      → resolve_state decode remote policy sources state refresh only_requested ≡ ok result
      → (l : LockedDependency) → In l result.0.lock.dependencies
      → ((d : Declaration) × In d state.project.dependencies × (l.source ≡ d.source))
        × ((d : Declaration) (h : Hold)
            → In d state.project.dependencies
            → l.source ≡ d.source
            → d.hold ≡ some h
            → lock_matches_reference l h.pin ≡ true)
  unfolding resolve_state
  resolve_state-stays_held state refresh only_requested {result} valid k l m =
      let whole = validate_state-IsConsistent decode state.project state.lock valid in
      let (done, turns, made) =
        >>=-eq-ok
          (resolve_turns decode remote policy sources state.lock.dependencies refresh only_requested
            state.project.dependencies _)
          _ k in
      let in_done =
        ok-subst
          (λ (r : State × List Bytes × List Bytes). In l r.0.lock.dependencies → In l done.locks)
          made (sort-In (λ x y. less x.source y.source) l done.locks) m in
      elim (turns_serve state.lock.dependencies refresh only_requested state.project.dependencies
        (λ d n. (whole.declared d n).0) whole.held state.project.dependencies _ (λ d n. n) turns l
        in_done) [
          | inl n ↦ absurd n
          | inr (c, n, s) ↦ (
            (c, n, s.same_source),
            λ d h i e f. s.at_pin h (
                subst (λ c. c.hold ≡ some h)
                  (sym (same_declaration state whole c d n i (sym s.same_source ∙ e))) f),
          )
        ]
