-- ===== src/Dependency/Resolution/Held.antt =====
-- A resolution pass keeps each held dependency at its pin.
use agentic_context_registry.Base.{
  Bool, true, not, ◌&&◌, List, [], ◌∷◌, ◌++◌, Option, none, some, Bytes, equal, equal_iff, is_some,
  is_ok, if_true, if_false, if_elim, Result-cases, not-eq-false, Result, ok, err, fail_if,
  fail_if-eq-ok, >>=-eq-ok, >>-eq-ok, ok-subst, ◌≡◌, refl, sym, ap, subst, ◌∙◌, ◌⊎◌, inl, inr, In,
  false≢true,
}
use agentic_context_registry.Realize.Model.{Ledger}
use agentic_context_registry.Dependency.Model.{
  Declaration, Hold, LockedDependency, Release, DependencyError, Scheme, scheme_vendor,
  scheme_github, latest, requested_local, vendored, vendored_required, skip_and_pin,
}
use agentic_context_registry.Dependency.Source.{
  source_scheme, parse_source, validate_requested_for_scheme,
}
use agentic_context_registry.Dependency.Hold.{lock_matches_reference}
use agentic_context_registry.Dependency.Validate.{find_lock, validate_state}
use agentic_context_registry.Dependency.Validate.Consistent.{IsDeclaration}
use agentic_context_registry.Dependency.Validate.Whole.{
  validate_state-IsConsistent, latest-not_local, latest-not_vendored,
}
use agentic_context_registry.Dependency.Resolver.{Remote}
use agentic_context_registry.Dependency.Policy.{HoldPolicy}
use agentic_context_registry.Dependency.Resolution.{
  Sources, Progress, Outcome, Refresh, with_lock, is_vendor, validate_held_pin, skip_outcome,
  pin_outcome, resolve_latest, resolve_remote, resolve_github, pinned_project, pinned_lock,
  keep_unselected, resolve_turn, is_current,
}

-- The lock of a source is one of the list, and of that source.
pub find_lock-In :
    (ls : List LockedDependency) (source : Bytes) {l : LockedDependency}
    → find_lock ls source ≡ some l
    → In l ls × (l.source ≡ source)
unfolding find_lock
find_lock-In [] source {l} e = cc
find_lock-In (c ∷ ls) source {l} k =
    if_elim (λ r. r ≡ some l → In l (c ∷ ls) × (l.source ≡ source)) (equal c.source source)
      (λ e q.
        subst (λ l. In l (c ∷ ls) × (l.source ≡ source)) (some-injective q)
          (inl refl, (equal_iff c.source source).0 e))
      (λ _ q. let (m, e) = find_lock-In ls source q in (inr m, e)) k
  where
    some-injective : {a b : LockedDependency} → some a ≡ some b → a ≡ b
    some-injective h = cc

-- A lock that a declaration may get: of its source, and at its pin if it is held.
pub record Serves (d : Declaration) (l : LockedDependency) : Type 0 where
  pub same_source : l.source ≡ d.source
  pub at_pin : (h : Hold) → d.hold ≡ some h → lock_matches_reference l h.pin ≡ true

-- What the turn of a declaration adds.
abbrev pub AddsOne : (LockedDependency → Type 0) → Progress → Progress → Type 0
AddsOne P progress next =
    (next.locks ≡ progress.locks)
    ⊎ ((l : LockedDependency) × (next.locks ≡ progress.locks ++ (l ∷ [])) × P l)

abbrev pub Adds : Declaration → Progress → Progress → Type 0
Adds d = AddsOne (Serves d)

vendor-requested :
    (d : Declaration)
    → IsDeclaration d
    → is_vendor (source_scheme d.source) ≡ true
    → d.requested ≡ vendored
unfolding validate_requested_for_scheme
vendor-requested d own e = elim (Result-cases (source_scheme d.source)) [
  | inr (x, q) ↦ absurd (false≢true (rw q at e))
  | inl (s, q) ↦ by_scheme s q (rw q at e)
]
  where
    by_scheme :
        (s : Scheme)
        → source_scheme d.source ≡ ok s
        → is_vendor (ok s) ≡ true
        → d.requested ≡ vendored
    by_scheme scheme_github q f = absurd (false≢true f)
    by_scheme scheme_vendor q f =
        (equal_iff d.requested vendored).0
          (not-eq-false _ (fail_if-eq-ok _ vendored_required (own.request_fits scheme_vendor q)))

module _ (decode : Bytes → Option Ledger) (remote : Remote) (policy : HoldPolicy)
    (sources : Sources) where
  -- A pin that passes the validation is of the declaration, and at its pin.
  pub validate_held_pin-Serves :
      (d : Declaration) (l : LockedDependency)
      → validate_held_pin decode remote policy sources d l ≡ ok tt
      → Serves d l
  unfolding validate_held_pin
  validate_held_pin-Serves d l k =
      let e = not-eq-false _ (fail_if-eq-ok _ _ k) in
      let whole =
        validate_state-IsConsistent decode (pinned_project d) (pinned_lock l)
          (is_ok-true (validate_state decode (pinned_project d) (pinned_lock l)) e) in
      let (c, m, same, _) = whole.locked l (inl refl) in
      let q : d.source ≡ l.source = elim m [
        | inl r ↦ sym (ap (λ c. c.source) r) ∙ same
        | inr n ↦ absurd n
      ] in
      record { same_source = sym q; at_pin = λ h e. whole.held l d h (inl refl) (inl refl) q e }
    where
      is_ok-true : (m : Result DependencyError (Unit {0})) → is_ok m ≡ true → m ≡ ok tt
      is_ok-true (ok _) e = refl
      is_ok-true (err x) e = absurd (false≢true e)

  skip_outcome-Serves :
      (d : Declaration) (existing : Option LockedDependency) (l : LockedDependency)
      (notices : List Bytes) {o : Outcome}
      → existing ≡ some l
      → l.source ≡ d.source
      → ((h : Hold) → d.hold ≡ some h → lock_matches_reference l h.pin ≡ true)
      → skip_outcome decode remote policy sources d existing notices ≡ ok o
      → Serves d o.locked
  unfolding skip_outcome lock_matches_reference
  skip_outcome-Serves d existing l notices q s m k =
      ok-subst (λ o. Serves d o.locked) (rw q at k) (record { same_source = s; at_pin = m })

  pin_outcome-Serves :
      (d : Declaration) (release : Release) (pin : Option LockedDependency) (p : LockedDependency)
      (notices : List Bytes) {o : Outcome}
      → pin ≡ some p
      → pin_outcome decode remote policy sources d release pin notices ≡ ok o
      → Serves d o.locked
  unfolding pin_outcome
  pin_outcome-Serves d release pin p notices q k =
      let (a, b) = >>-eq-ok (validate_held_pin decode remote policy sources d p) _ (rw q at k) in
      ok-subst (λ o. Serves d o.locked) b (validate_held_pin-Serves d p a)

  -- The turn of a held declaration that resolves latest.
  resolve_latest-Serves :
      (d : Declaration) (h : Hold) (existing : Option LockedDependency) {o : Outcome}
      → d.hold ≡ some h
      → ((l : LockedDependency) → existing ≡ some l → l.source ≡ d.source)
      → resolve_latest decode remote policy sources d existing ≡ ok o
      → Serves d o.locked
  unfolding resolve_latest
  resolve_latest-Serves d h existing {o} e s k =
      let (repository, _, k1) = >>=-eq-ok (parse_source d.source) _ k in
      let (release, _, k2) = >>=-eq-ok (remote.latest_release repository) _ k1 in
      let (decision, answer, k3) = >>=-eq-ok (policy.resolve d existing release) _ k2 in
      let (_, k4) = >>-eq-ok (fail_if (decision.skip && is_some decision.pin) skip_and_pin) _ k3 in
      elim (policy.stands d existing release answer h e) [
        | inl (t, l, q, m) ↦
            skip_outcome-Serves d existing l _ q (s l q)
              (λ g f.
                subst (λ g. lock_matches_reference l g.pin ≡ true) (some-injective (sym e ∙ f)) m)
              (sym (if_true decision.skip _ _ t) ∙ k4)
        | inr (t, p, q) ↦
            pin_outcome-Serves d release decision.pin p _ q
              (sym (if_false decision.skip _ _ t) ∙ k4)
      ]
    where
      some-injective : {a b : Hold} → some a ≡ some b → a ≡ b
      some-injective h = cc

  -- What a lock of the state promises the declarations of its source.
  abbrev Kept : Declaration → Option LockedDependency → Type 0
  Kept d existing = (l : LockedDependency) → existing ≡ some l → Serves d l

  with_lock-Adds :
      (d : Declaration) (progress from : Progress) (l : LockedDependency) {next : Progress}
      → from.locks ≡ progress.locks
      → Serves d l
      → ◌≡◌ {A = Result DependencyError Progress} (ok (with_lock from l)) (ok next)
      → Adds d progress next
  with_lock-Adds d progress from l e own k =
      ok-subst (Adds d progress) k (inr (l, ap (λ ls. ls ++ (l ∷ [])) e, own))

  keep_unselected-Adds :
      (d : Declaration) (existing : Option LockedDependency) (progress : Progress)
      → Kept d existing
      → Adds d progress (keep_unselected decode remote policy sources existing progress)
  unfolding keep_unselected
  keep_unselected-Adds d none progress own = inl refl
  keep_unselected-Adds d (some l) progress own = inr (l, refl, own l refl)

  -- A held declaration requests latest, so that its turn is neither that of a local nor that of a
  -- vendored package.
  resolve_remote-Adds :
      (d : Declaration) (h : Hold) (existing : Option LockedDependency) (progress : Progress)
      {next : Progress}
      → d.hold ≡ some h
      → d.requested ≡ latest
      → Kept d existing
      → resolve_remote decode remote policy sources d existing progress ≡ ok next
      → Adds d progress next
  unfolding resolve_remote
  resolve_remote-Adds d h existing progress {next} e r own k =
      let (o, q, k1) =
        >>=-eq-ok (resolve_latest decode remote policy sources d existing) _
          (sym (if_true (equal d.requested latest) _ _ ((equal_iff d.requested latest).1 r)) ∙ k) in
      ok-subst (Adds d progress) k1 (
        inr (o.locked, refl, resolve_latest-Serves d h existing e (λ l f. (own l f).same_source) q))

  resolve_github-Adds :
      (d : Declaration) (h : Hold) (existing : Option LockedDependency) (refreshed : Bool)
      (progress : Progress) {next : Progress}
      → d.hold ≡ some h
      → d.requested ≡ latest
      → Kept d existing
      → resolve_github decode remote policy sources d existing refreshed progress ≡ ok next
      → Adds d progress next
  unfolding resolve_github
  resolve_github-Adds d h none refreshed progress e r own k =
      resolve_remote-Adds d h none progress e r own k
  resolve_github-Adds d h (some l) refreshed progress {next} e r own k =
      if_elim (λ (x : Result DependencyError Progress). x ≡ ok next → Adds d progress next)
        (is_current decode remote policy sources d l refreshed)
        (λ _ q. with_lock-Adds d progress progress l refl (own l refl) q)
        (λ _ q. resolve_remote-Adds d h (some l) progress e r own q) k

  -- The turn of a held declaration of a valid state adds at most one lock: one of its source, that
  -- resolves the held pin.
  pub resolve_turn-Adds :
      (locks : List LockedDependency) (refresh : Refresh) (only_requested : Bool) (d : Declaration)
      (h : Hold) (progress : Progress) {next : Progress}
      → IsDeclaration d
      → d.hold ≡ some h
      → Kept d (find_lock locks d.source)
      → resolve_turn decode remote policy sources locks refresh only_requested d progress ≡ ok next
      → Adds d progress next
  unfolding resolve_turn
  resolve_turn-Adds locks refresh only_requested d h progress {next} valid e own =
      let existing = find_lock locks d.source in
      let r = (valid.hold_fits h e).on_latest in
      let P = λ (x : Result DependencyError Progress). x ≡ ok next → Adds d progress next in
      if_elim P (only_requested && not (is_some (refresh d.source)))
        (λ _ q. ok-subst (Adds d progress) q (keep_unselected-Adds d existing progress own))
        (λ _.
          if_elim P (equal d.requested requested_local)
            (λ f _. absurd (latest-not_local (sym r ∙ (equal_iff d.requested requested_local).0 f)))
            (λ _.
              if_elim P (is_vendor (source_scheme d.source))
                (λ f _. absurd (latest-not_vendored (sym r ∙ vendor-requested d valid f)))
                (λ _ q. resolve_github-Adds d h existing _ progress e r own q)))
