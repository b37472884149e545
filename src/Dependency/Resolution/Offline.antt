-- ===== src/Dependency/Resolution/Offline.antt =====
-- A pass with nothing to refresh needs no network: it hands the locks on as they are.
use agentic_context_registry.Base.{
  false, List, [], ◌∷◌, ◌++◌, append_assoc, append-nil, Option, none, some, Bytes, equal, equal_iff,
  Bool-cases, if_elim, if_true, if_false, Result, ok, ◌≡◌, ◌≢◌, refl, sym, ap, ◌∙◌, inl, inr, In,
  sort, less,
}
use agentic_context_registry.Realize.Model.{Ledger}
use agentic_context_registry.Dependency.Model.{
  Declaration, LockedDependency, State, DependencyError, requested_local,
}
use agentic_context_registry.Dependency.Source.{source_scheme}
use agentic_context_registry.Dependency.Validate.{find_lock, validate_state}
use agentic_context_registry.Dependency.Validate.Whole.{validate_state-IsConsistent}
use agentic_context_registry.Dependency.Resolver.{Remote}
use agentic_context_registry.Dependency.Policy.{HoldPolicy}
use agentic_context_registry.Dependency.Resolution.{
  Sources, Progress, Refresh, with_lock, is_vendor, resolve_vendor, resolve_github, is_current,
  resolve_turn, resolve_turns, resolve_state,
}
use agentic_context_registry.Dependency.Resolution.Held.{find_lock-In}
use agentic_context_registry.Dependency.Resolution.Barrier.{same_declaration}

-- The locks of the declarations, in their order.
pub data Kept (locks : List LockedDependency)
    : List Declaration → List LockedDependency → Type 0 where
  done : Kept locks [] []
  keeps :
      (d : Declaration) (l : LockedDependency) {ds : List Declaration} {ls : List LockedDependency}
      → find_lock locks d.source ≡ some l
      → Kept locks ds ls
      → Kept locks (d ∷ ds) (l ∷ ls)

-- The lock of a declaration that is not local serves its request.
pub record IsServed (locks : List LockedDependency) (d : Declaration) : Type 0 where
  pub lock : LockedDependency
  pub found : find_lock locks d.source ≡ some lock
  pub same_request : lock.requested ≡ d.requested
  pub not_local : d.requested ≢ requested_local

not-equal : (s t : Bytes) → s ≢ t → equal s t ≡ false
not-equal s t n = elim (Bool-cases (equal s t)) [
  | inl e ↦ absurd (n ((equal_iff s t).0 e))
  | inr e ↦ e
]

abbrev pub no_refresh : Refresh
no_refresh _ = none

module _ (decode : Bytes → Option Ledger) (remote : Remote) (policy : HoldPolicy)
    (sources : Sources) where
  vendor-keeps :
      (d : Declaration) (l : LockedDependency) (progress : Progress)
      → l.requested ≡ d.requested
      → resolve_vendor decode remote policy sources d (some l) progress ≡ ok (with_lock progress l)
  unfolding resolve_vendor
  vendor-keeps d l progress r =
      if_true (equal l.requested d.requested) _ _ ((equal_iff l.requested d.requested).1 r)

  github-keeps :
      (d : Declaration) (l : LockedDependency) (progress : Progress)
      → l.requested ≡ d.requested
      → resolve_github decode remote policy sources d (some l) false progress
        ≡ ok (with_lock progress l)
  unfolding resolve_github is_current
  github-keeps d l progress r =
      if_true (is_current decode remote policy sources d l false) _ _
        (rw ((equal_iff l.requested d.requested).1 r) refl)

  turn-keeps :
      (locks : List LockedDependency) (d : Declaration) (progress : Progress)
      (own : IsServed locks d)
      → resolve_turn decode remote policy sources locks no_refresh false d progress
        ≡ ok (with_lock progress own.lock)
  unfolding resolve_turn
  turn-keeps locks d progress own =
      if_false (equal d.requested requested_local) _ _
        (not-equal d.requested requested_local own.not_local)
      ∙ if_elim (λ (x : Result DependencyError Progress). x ≡ ok (with_lock progress own.lock))
          (is_vendor (source_scheme d.source))
          (λ _. rw own.found (vendor-keeps d own.lock progress own.same_request))
          (λ _. rw own.found (github-keeps d own.lock progress own.same_request))

  turns-keep :
      (locks : List LockedDependency) (ds : List Declaration) (progress : Progress)
      → ((d : Declaration) → In d ds → IsServed locks d)
      → (ls : List LockedDependency) × Kept locks ds ls
        × (resolve_turns decode remote policy sources locks no_refresh false ds progress
            ≡ ok (record progress { locks = progress.locks ++ ls }))
  unfolding resolve_turns
  turns-keep locks [] progress own =
      ([], done, ap (λ ls. ok (record progress { locks = ls })) (sym (append-nil progress.locks)))
  turns-keep locks (d ∷ ds) progress own =
      let first = own d (inl refl) in
      let (ls, kept, rest) =
        turns-keep locks ds (with_lock progress first.lock) (λ c m. own c (inr m)) in
      (
        first.lock ∷ ls,
        keeps d first.lock first.found kept,
        rw (turn-keeps locks d progress first) (
            rest
            ∙ ap (λ ls. ok (record progress { locks = ls }))
                (append_assoc progress.locks (first.lock ∷ []) ls)),
      )

  -- From a state that passes validation, in which no declaration is local and each is locked, a pass
  -- with nothing to refresh succeeds whatever the network and the policy would answer: it writes the
  -- locks of the declarations as they are, sorted, with no notice and nothing newly held.
  pub resolve_state-offline :
      (state : State)
      → validate_state decode state.project state.lock ≡ ok tt
      → ((d : Declaration)
          → In d state.project.dependencies
          → (d.requested ≢ requested_local)
            × (l : LockedDependency) × (find_lock state.lock.dependencies d.source ≡ some l))
      → (result : State) × (ls : List LockedDependency) × (resolve_state decode remote policy
            sources state no_refresh false
          ≡ ok (result, [], []))
        × Kept state.lock.dependencies state.project.dependencies ls
        × (result.lock.dependencies ≡ sort (λ a b. less a.source b.source) ls)
        × (result.lock.schema_version ≡ state.lock.schema_version)
  unfolding resolve_state sort
  resolve_state-offline state valid locked =
      let whole = validate_state-IsConsistent decode state.project state.lock valid in
      let start : Progress = record {
        project_version = state.project.schema_version;
        lock_version = state.lock.schema_version;
        locks = [];
        notices = [];
        held = [];
      } in
      let (ls, kept, e) =
        turns-keep state.lock.dependencies state.project.dependencies start (λ d m.
          let (other, l, found) = locked d m in
          let (i, same) = find_lock-In state.lock.dependencies d.source found in
          let (c, n, q, own) = whole.locked l i in
          record {
            lock = l;
            found = found;
            same_request =
                own.same_request
                ∙ ap (λ c. c.requested)
                    (same_declaration decode remote policy sources state whole c d n m (q ∙ same));
            not_local = other;
          }) in
      (
        record {
          project = record state.project {
            agents = sort less state.project.agents;
            dependencies = sort (λ a b. less a.source b.source) state.project.dependencies;
          };
          lock = record state.lock { dependencies = sort (λ a b. less a.source b.source) ls };
        },
        ls,
        rw e refl,
        kept,
        refl,
        refl,
      )
