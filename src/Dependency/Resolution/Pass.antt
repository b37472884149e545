-- ===== src/Dependency/Resolution/Pass.antt =====
-- The whole pass of `resolveState`.
use agentic_context_registry.Base.{
  Bool, not, ◌&&◌, List, [], ◌∷◌, ◌++◌, Option, none, some, Bytes, equal, equal_iff, is_some,
  if_elim, Option-cases, not-eq-false, Result, ok, fail_if, fail_if-eq-ok, >>=-eq-ok, >>-eq-ok,
  ok-subst, ◌≡◌, refl, ap, inl, inr,
}
use agentic_context_registry.Realize.Model.{Ledger}
use agentic_context_registry.Dependency.Model.{
  Declaration, LockedDependency, Release, DependencyError, latest, requested_local, skip_and_pin,
  local_source_changed,
}
use agentic_context_registry.Dependency.Source.{source_scheme, parse_source, parse_vendor_source}
use agentic_context_registry.Dependency.Validate.{find_lock}
use agentic_context_registry.Dependency.Resolver.{Remote, resolve_at, resolve_declaration}
use agentic_context_registry.Dependency.Resolver.Named.{
  resolve_at-source, resolve_declaration-source,
}
use agentic_context_registry.Dependency.Policy.{HoldPolicy}
use agentic_context_registry.Dependency.Resolution.{
  Sources, Progress, Outcome, Refresh, with_lock, is_vendor, validate_held_pin, skip_outcome,
  pin_outcome, resolve_latest, resolve_local, resolve_vendor, resolve_remote, resolve_github,
  keep_unselected, rebuild_vendor, rebuild_vendor_lock, resolve_turn, is_current,
}
use agentic_context_registry.Dependency.Resolution.Held.{
  find_lock-In, AddsOne, validate_held_pin-Serves,
}

abbrev pub Named : Declaration → LockedDependency → Type 0
Named d l = l.source ≡ d.source

abbrev KeepsName : Declaration → Option LockedDependency → Type 0
KeepsName d existing = (l : LockedDependency) → existing ≡ some l → l.source ≡ d.source

module _ (decode : Bytes → Option Ledger) (remote : Remote) (policy : HoldPolicy)
    (sources : Sources) where
  with_lock-Named :
      (d : Declaration) (progress from : Progress) (l : LockedDependency) {next : Progress}
      → from.locks ≡ progress.locks
      → l.source ≡ d.source
      → ◌≡◌ {A = Result DependencyError Progress} (ok (with_lock from l)) (ok next)
      → AddsOne (Named d) progress next
  with_lock-Named d progress from l e own k =
      ok-subst (AddsOne (Named d) progress) k (inr (l, ap (λ ls. ls ++ (l ∷ [])) e, own))

  local-Named :
      (d : Declaration) (existing : Option LockedDependency) (refreshed : Bool)
      (progress : Progress) {next : Progress}
      → KeepsName d existing
      → resolve_local decode remote policy sources d existing refreshed progress ≡ ok next
      → AddsOne (Named d) progress next
  unfolding resolve_local
  local-Named d existing refreshed progress {next} own k =
      let (root, _, k1) = >>=-eq-ok (sources.authorize_local d) _ k in
      let P =
        λ (x : Result DependencyError Progress). x ≡ ok next → AddsOne (Named d) progress next in
      if_elim P (is_some existing && not refreshed)
        (λ _ q. elim (Option-cases existing) [
          | inl e ↦ ok-subst (AddsOne (Named d) progress) (rw e at q) (inl refl)
          | inr (l, e) ↦ with_lock-Named d progress progress l refl (own l e) (rw e at q)
        ])
        (λ _ q.
          let (locked, _, q1) = >>=-eq-ok (sources.snapshot_local root) _ q in
          let (same, q2) =
            >>-eq-ok (fail_if (not (equal locked.source d.source)) local_source_changed) _ q1 in
          with_lock-Named d progress _ (record locked { path = d.path }) refl
            ((equal_iff locked.source d.source).0 (not-eq-false _ (fail_if-eq-ok _ _ same))) q2)
        k1

  rebuild-Named :
      (d : Declaration) (progress : Progress) {next : Progress}
      → rebuild_vendor decode remote policy sources d progress ≡ ok next
      → AddsOne (Named d) progress next
  unfolding rebuild_vendor rebuild_vendor_lock
  rebuild-Named d progress k =
      let (l, a, k1) = >>=-eq-ok (rebuild_vendor_lock decode remote policy sources d) _ k in
      let (identity, _, a1) = >>=-eq-ok (parse_vendor_source d.source) _ a in
      let (hash, _, a2) = >>=-eq-ok (sources.hash_vendor_tree identity) _ a1 in
      let (version, _, a3) = >>=-eq-ok (sources.vendor_version identity) _ a2 in
      with_lock-Named d progress _ l refl (ok-subst (λ l. l.source ≡ d.source) a3 refl) k1

  vendor-Named :
      (d : Declaration) (existing : Option LockedDependency) (progress : Progress) {next : Progress}
      → KeepsName d existing
      → resolve_vendor decode remote policy sources d existing progress ≡ ok next
      → AddsOne (Named d) progress next
  unfolding resolve_vendor
  vendor-Named d none progress own k = rebuild-Named d progress k
  vendor-Named d (some l) progress {next} own k =
      if_elim
        (λ (x : Result DependencyError Progress). x ≡ ok next → AddsOne (Named d) progress next)
        (equal l.requested d.requested)
        (λ _ q. with_lock-Named d progress progress l refl (own l refl) q)
        (λ _ q. rebuild-Named d progress q) k

  skip-Named :
      (d : Declaration) (existing : Option LockedDependency) (notices : List Bytes) {o : Outcome}
      → KeepsName d existing
      → skip_outcome decode remote policy sources d existing notices ≡ ok o
      → Named d o.locked
  unfolding skip_outcome
  skip-Named d none notices own k = cc
  skip-Named d (some l) notices own k = ok-subst (λ o. Named d o.locked) k (own l refl)

  pin-Named :
      (d : Declaration) (release : Release) (pin : Option LockedDependency) (notices : List Bytes)
      {o : Outcome}
      → pin_outcome decode remote policy sources d release pin notices ≡ ok o
      → Named d o.locked
  unfolding pin_outcome
  pin-Named d release (some p) notices k =
      let (a, b) = >>-eq-ok (validate_held_pin decode remote policy sources d p) _ k in
      ok-subst (λ o. Named d o.locked) b
        (validate_held_pin-Serves decode remote policy sources d p a).same_source
  pin-Named d release none notices k =
      let (l, a, b) = >>=-eq-ok (resolve_at remote d release) _ k in
      ok-subst (λ o. Named d o.locked) b (resolve_at-source remote d release a)

  latest-Named :
      (d : Declaration) (existing : Option LockedDependency) {o : Outcome}
      → KeepsName d existing
      → resolve_latest decode remote policy sources d existing ≡ ok o
      → Named d o.locked
  unfolding resolve_latest
  latest-Named d existing {o} own k =
      let (repository, _, k1) = >>=-eq-ok (parse_source d.source) _ k in
      let (release, _, k2) = >>=-eq-ok (remote.latest_release repository) _ k1 in
      let (decision, _, k3) = >>=-eq-ok (policy.resolve d existing release) _ k2 in
      let (_, k4) = >>-eq-ok (fail_if (decision.skip && is_some decision.pin) skip_and_pin) _ k3 in
      if_elim (λ (x : Result DependencyError Outcome). x ≡ ok o → Named d o.locked) decision.skip
        (λ _ q. skip-Named d existing _ own q) (λ _ q. pin-Named d release decision.pin _ q) k4

  remote-Named :
      (d : Declaration) (existing : Option LockedDependency) (progress : Progress) {next : Progress}
      → KeepsName d existing
      → resolve_remote decode remote policy sources d existing progress ≡ ok next
      → AddsOne (Named d) progress next
  unfolding resolve_remote
  remote-Named d existing progress {next} own k =
      if_elim
        (λ (x : Result DependencyError Progress). x ≡ ok next → AddsOne (Named d) progress next)
        (equal d.requested latest)
        (λ _ q.
          let (o, a, b) = >>=-eq-ok (resolve_latest decode remote policy sources d existing) _ q in
          ok-subst (AddsOne (Named d) progress) b
            (inr (o.locked, refl, latest-Named d existing own a)))
        (λ _ q.
          let (l, a, b) = >>=-eq-ok (resolve_declaration remote d) _ q in
          with_lock-Named d progress progress l refl (resolve_declaration-source remote d a) b)
        k

  github-Named :
      (d : Declaration) (existing : Option LockedDependency) (refreshed : Bool)
      (progress : Progress) {next : Progress}
      → KeepsName d existing
      → resolve_github decode remote policy sources d existing refreshed progress ≡ ok next
      → AddsOne (Named d) progress next
  unfolding resolve_github
  github-Named d none refreshed progress own k = remote-Named d none progress own k
  github-Named d (some l) refreshed progress {next} own k =
      if_elim
        (λ (x : Result DependencyError Progress). x ≡ ok next → AddsOne (Named d) progress next)
        (is_current decode remote policy sources d l refreshed)
        (λ _ q. with_lock-Named d progress progress l refl (own l refl) q)
        (λ _ q. remote-Named d (some l) progress own q) k

  unselected-Named :
      (d : Declaration) (existing : Option LockedDependency) (progress : Progress)
      → KeepsName d existing
      → AddsOne (Named d) progress (keep_unselected decode remote policy sources existing progress)
  unfolding keep_unselected
  unselected-Named d none progress own = inl refl
  unselected-Named d (some l) progress own = inr (l, refl, own l refl)

  pub turn-Named :
      (locks : List LockedDependency) (refresh : Refresh) (only_requested : Bool) (d : Declaration)
      (progress : Progress) {next : Progress}
      → resolve_turn decode remote policy sources locks refresh only_requested d progress ≡ ok next
      → AddsOne (Named d) progress next
  unfolding resolve_turn
  turn-Named locks refresh only_requested d progress {next} =
      let existing = find_lock locks d.source in
      let own : KeepsName d existing = λ l e. (find_lock-In locks d.source e).1 in
      let P =
        λ (x : Result DependencyError Progress). x ≡ ok next → AddsOne (Named d) progress next in
      if_elim P (only_requested && not (is_some (refresh d.source)))
        (λ _ q. ok-subst (AddsOne (Named d) progress) q (unselected-Named d existing progress own))
        (λ _.
          if_elim P (equal d.requested requested_local)
            (λ _ q. local-Named d existing _ progress own q)
            (λ _.
              if_elim P (is_vendor (source_scheme d.source))
                (λ _ q. vendor-Named d existing progress own q)
                (λ _ q. github-Named d existing _ progress own q)))
