-- ===== src/Dependency/Validate/Whole.antt =====
-- A valid state as a whole, and what it says of held dependencies.
use agentic_context_registry.Base.{
  true, not, [], Option, some, Bytes, equal, equal_iff, if_true, if_false, ok, fail_if, >>-eq-ok,
  ◌≡◌, ◌≢◌, refl, sym, ap, subst, true≢false, ◌∙◌, inl, inr, In,
}
use agentic_context_registry.Realize.Model.{Ledger}
use agentic_context_registry.Dependency.Model.{
  Declaration, Hold, LockedDependency, ResolutionKind, resolution_local, resolution_vendor,
  resolution_release, resolution_commit, unsupported, Project, Lockfile, latest, requested_local,
  vendored,
}
use agentic_context_registry.Dependency.Source.{is_commit_request}
use agentic_context_registry.Dependency.Hold.{lock_matches_reference}
use agentic_context_registry.Dependency.Hold.Accepted.{IsHold}
use agentic_context_registry.Dependency.Validate.{
  resolved_reference, find_declaration, validate_declarations, validate_agents, validate_state,
  decode_ledger, is_policy, is_supported_version,
}
use agentic_context_registry.Dependency.Validate.Consistent.{
  FitsKind, IsLockOf, IsDeclaration, find_declaration-In, validate_declarations-valid,
  validate_locks-IsLockOf,
}

-- A latest request is neither that of a local nor that of a vendored package.
pub latest-not_local : latest ≢ requested_local
unfolding equal
latest-not_local e = true≢false (sym ((equal_iff latest requested_local).1 e))

pub latest-not_vendored : latest ≢ vendored
unfolding equal
latest-not_vendored e = true≢false (sym ((equal_iff latest vendored).1 e))

FitsKind-matches :
    (kind : ResolutionKind) (pin : Bytes) (l : LockedDependency)
    → l.kind ≡ kind
    → l.requested ≡ latest
    → pin ≢ latest
    → FitsKind kind pin l
    → lock_matches_reference l pin ≡ true
unfolding lock_matches_reference
FitsKind-matches resolution_local pin l k r f fits = absurd (latest-not_local (sym r ∙ fits.0))
FitsKind-matches resolution_vendor pin l k r f fits = absurd (latest-not_vendored (sym r ∙ fits.0))
FitsKind-matches (unsupported _) pin l k r f fits = absurd fits
FitsKind-matches resolution_commit pin l k r f (_, _, asks, starts) =
    if_true (is_commit_request pin) _ _ asks ∙ (rw (k, starts) refl)
FitsKind-matches resolution_release pin l k r f (_, _, asks, same) =
    if_false (is_commit_request pin) _ _ asks
    ∙ elim same [ inl e ↦ absurd (f e) | inr e ↦ rw k ((equal_iff l.tag pin).1 e) ]

-- A lock that serves a held declaration resolves the held pin.
pub IsLockOf-matches :
    (d : Declaration) (l : LockedDependency) (h : Hold)
    → d.hold ≡ some h
    → IsHold h d.requested
    → IsLockOf d l
    → lock_matches_reference l h.pin ≡ true
unfolding resolved_reference
IsLockOf-matches d l h e hold own =
    FitsKind-matches l.kind h.pin l refl (own.same_request ∙ hold.on_latest) hold.pin_fixed
      (rw e at own.fits)

-- What a valid state promises.
pub record IsConsistent (project : Project) (lock : Lockfile) : Type 0 where
  pub declared :
      (d : Declaration)
      → In d project.dependencies
      → IsDeclaration d × (find_declaration project.dependencies d.source ≡ some d)
  pub locked :
      (l : LockedDependency)
      → In l lock.dependencies
      → (d : Declaration) × In d project.dependencies × (d.source ≡ l.source) × IsLockOf d l
  pub held :
      (l : LockedDependency) (d : Declaration) (h : Hold)
      → In l lock.dependencies
      → In d project.dependencies
      → d.source ≡ l.source
      → d.hold ≡ some h
      → lock_matches_reference l h.pin ≡ true

module _ (decode : Bytes → Option Ledger) where
  -- In a state that passes validation, each declared hold is well-formed and a source determines
  -- its declaration; each lock serves a declaration of its source (its path, its request, its
  -- barrier, and what its kind demands); and the lock of a held declaration resolves the held pin.
  pub validate_state-IsConsistent :
      (project : Project) (lock : Lockfile)
      → validate_state decode project lock ≡ ok tt
      → IsConsistent project lock
  unfolding validate_state
  validate_state-IsConsistent project lock k =
      let (_, k1) = >>-eq-ok (fail_if (not (is_supported_version project.schema_version)) _) _ k in
      let (_, k2) = >>-eq-ok (fail_if (not (is_supported_version lock.schema_version)) _) _ k1 in
      let (_, k3) = >>-eq-ok (decode_ledger decode lock.realization) _ k2 in
      let (_, k4) = >>-eq-ok (validate_agents [] project.agents) _ k3 in
      let (_, k5) = >>-eq-ok (fail_if (not (is_policy project.freshness)) _) _ k4 in
      let (a, b) = >>-eq-ok (validate_declarations [] project.dependencies) _ k5 in
      let locked = validate_locks-IsLockOf project.dependencies [] lock.dependencies b in
      record {
        declared = λ d m.
            let (is_d, _, found) = validate_declarations-valid [] project.dependencies a d m in
            (is_d, found);
        locked = λ l m.
            let (d, found, own) = locked l m in
            let (i, e) = find_declaration-In project.dependencies l.source found in (d, i, e, own);
        held = λ l d h m i same e.
            let (c, found, own) = locked l m in
            let (is_d, _, here) = validate_declarations-valid [] project.dependencies a d i in
            let q : c ≡ d =
              some-injective
                (sym found ∙ (sym (ap (find_declaration project.dependencies) same) ∙ here)) in
            IsLockOf-matches d l h e (is_d.hold_fits h e) (subst (λ c. IsLockOf c l) q own);
      }
    where
      some-injective : {a b : Declaration} → some a ≡ some b → a ≡ b
      some-injective h = cc
