-- ===== src/Dependency/Policy/Stands.antt =====
-- The project's policy never lets a held declaration resolve latest.
use agentic_context_registry.Base.{
  [], Bool, true, false, not, ◌&&◌, ◌||◌, Option, none, some, Bytes, equal, equal_refl, is_some,
  is_empty, if_elim, not-eq-false, Result, ok, >>=-eq-ok, ok-subst, ◌≡◌, refl, sym, ap₂, equal_iff,
  Option-cases, Result-cases, ||-eq-false, not-eq-true, ◌∙◌, ◌⊎◌, inl, inr, true≢false,
}
use agentic_context_registry.Dependency.Model.{
  latest, ℤ, pos, is_positive, Hold, LockHold, Declaration, LockedDependency, Release, Repository,
  DependencyError,
}
use agentic_context_registry.Dependency.Source.{parse_source, is_full_commit}
use agentic_context_registry.Dependency.Hold.{Semver, lock_matches_reference, validate_lock_hold}
use agentic_context_registry.Dependency.Resolver.{Remote, resolve_declaration}
use agentic_context_registry.Dependency.Resolver.Named.{
  Names, by_commit, by_release, resolve_declaration-Names, resolve_declaration-source,
}
use agentic_context_registry.Dependency.Policy.{
  HoldDecision, HoldPolicy, tag_only, repair_held_lock, with_commit, barrier_record,
  resolve_held_pin, pin_decision, held_decision, project_holds_resolve,
}

-- To repair a repaired lock changes nothing, and asks for no rewrite.
pub repair_held_lock_idem :
    (declaration : Declaration) (hold : Hold) (existing : LockedDependency)
    → repair_held_lock declaration hold (repair_held_lock declaration hold existing).0
      ≡ ((repair_held_lock declaration hold existing).0, false)
unfolding repair_held_lock
repair_held_lock_idem declaration hold existing = elim (Option-cases existing.hold) [
  | inl e ↦ rw (e, equal_refl declaration.requested) refl
  | inr (h, e) ↦ rw (e, equal_refl declaration.requested) refl
]

&&-false : (b : Bool) → (b && false) ≡ false
&&-false true = refl
&&-false false = refl

||-true : (b : Bool) → (b || true) ≡ true
||-true true = refl
||-true false = refl

repair_held_lock_same :
    (declaration : Declaration) (hold : Hold) (l : LockedDependency)
    → (repair_held_lock declaration hold l).1 ≡ false
    → repair_held_lock declaration hold l ≡ (l, false)
unfolding repair_held_lock
repair_held_lock_same declaration hold l e = elim (Option-cases l.hold) [
  | inl n ↦
      absurd (true≢false (sym (rw n (||-true (not (equal declaration.requested l.requested)))) ∙ e))
  | inr (h, n) ↦
      let (same, _) =
        ||-eq-false (not (equal declaration.requested l.requested)) (not (is_some l.hold)) e in
      let q = (equal_iff declaration.requested l.requested).0 (not-eq-false _ same) in
      rw (e) (ap₂ (λ r x. (record l { requested = r; hold = x }, false)) q (rw n refl))
]

module _ (semver : Semver) (remote : Remote) where
  -- The lock is the declaration's, with its barrier, and is of what the remote has under the held pin.
  pub record IsPinned (declaration : Declaration) (hold : Hold) (p : LockedDependency)
      : Type 0 where
    pub source : p.source ≡ declaration.source
    pub requested : p.requested ≡ declaration.requested
    pub barrier : p.hold ≡ some (barrier_record semver remote declaration.source hold)
    pub repository : Repository
    pub parsed : parse_source declaration.source ≡ ok repository
    pub names : Names remote repository hold.pin p

  resolve_held_pin-IsPinned :
      (declaration : Declaration) (hold : Hold) (p : LockedDependency)
      → equal hold.pin latest ≡ false
      → resolve_held_pin semver remote declaration hold ≡ ok p
      → IsPinned declaration hold p
  unfolding resolve_held_pin
  resolve_held_pin-IsPinned declaration hold p fixed h =
      let pinned : Declaration = record {
        source = declaration.source;
        requested = hold.pin;
        path = [];
        hold = none;
      } in
      let (l, e, k) = >>=-eq-ok (resolve_declaration remote pinned) _ h in
      let (repository, parsed, named) = resolve_declaration-Names remote pinned fixed e in
      ok-subst (IsPinned declaration hold) k (record {
        source = resolve_declaration-source remote pinned e;
        requested = refl;
        barrier = refl;
        repository = repository;
        parsed = parsed;
        names = renamed repository hold.pin l named;
      })
    where
      renamed :
          (repository : Repository) (reference : Bytes) (l : LockedDependency)
          → Names remote repository reference l
          → Names remote repository reference (record l {
            requested = declaration.requested;
            hold = some (barrier_record semver remote declaration.source hold);
          })
      renamed repository reference l (by_commit c kind at) = by_commit c kind at
      renamed repository reference l (by_release release c found kind same at) =
          by_release release c found kind same at

  -- What the policy does with a held declaration, the barrier's notice aside; `Pinned` is what it
  -- says of a lock that it makes for the pin.
  pub data Decides (Pinned : LockedDependency → Type 0) (declaration : Declaration) (hold : Hold)
      : Option LockedDependency → HoldDecision → Type 0 where
    skips :
        (l : LockedDependency) (notice : Bytes)
        → lock_matches_reference l hold.pin ≡ true
        → repair_held_lock declaration hold l ≡ (l, false)
        → Decides Pinned declaration hold
            (some l)
            (record { skip = true; pin = none; notice = notice })
    repairs :
        (l : LockedDependency) (notice : Bytes)
        → lock_matches_reference l hold.pin ≡ true
        → (repair_held_lock declaration hold l).1 ≡ true
        → Decides Pinned declaration hold (some l) (record {
          skip = false;
          pin = some (repair_held_lock declaration hold l).0;
          notice = notice;
        })
    pins :
        (existing : Option LockedDependency) (p : LockedDependency) (notice : Bytes)
        → ((l : LockedDependency) → existing ≡ some l → lock_matches_reference l hold.pin ≡ false)
        → Pinned p
        → Decides Pinned declaration hold existing
            (record { skip = false; pin = some p; notice = notice })

  abbrev pub Resolved : Declaration → Hold → LockedDependency → Type 0
  Resolved declaration hold p = resolve_held_pin semver remote declaration hold ≡ ok p

  pin_decision-Decides :
      (declaration : Declaration) (hold : Hold) (existing : Option LockedDependency)
      (notice : Bytes) {decision : HoldDecision}
      → ((l : LockedDependency) → existing ≡ some l → lock_matches_reference l hold.pin ≡ false)
      → pin_decision semver remote notice declaration hold ≡ ok decision
      → Decides (Resolved declaration hold) declaration hold existing decision
  unfolding pin_decision
  pin_decision-Decides declaration hold existing notice {decision} other h =
      let (p, e, k) = >>=-eq-ok (resolve_held_pin semver remote declaration hold) _ h in
      ok-subst (Decides (Resolved declaration hold) declaration hold existing) k
        (pins existing p notice other e)

  held_decision-Decides :
      (declaration : Declaration) (hold : Hold) (existing : Option LockedDependency)
      (notice : Bytes) {decision : HoldDecision}
      → held_decision semver remote notice declaration hold existing ≡ ok decision
      → Decides (Resolved declaration hold) declaration hold existing decision
  unfolding held_decision
  held_decision-Decides declaration hold none notice {decision} =
      pin_decision-Decides declaration hold none notice (λ l e. cc)
  held_decision-Decides declaration hold (some l) notice {decision} =
      let P = λ (r : Result DependencyError HoldDecision).
        r ≡ ok decision → Decides (Resolved declaration hold) declaration hold (some l) decision in
      let (repaired, needs_rewrite) = repair_held_lock declaration hold l in
      if_elim P (not (lock_matches_reference l hold.pin))
        (λ e k.
          pin_decision-Decides declaration hold (some l) notice (λ m q. cc (not-eq-true _ e)) k)
        (λ e.
          if_elim P (not (repair_held_lock declaration hold l).1)
            (λ f k. ok-subst (Decides (Resolved declaration hold) declaration hold (some l)) k (
              skips l notice (not-eq-false _ e)
                (repair_held_lock_same declaration hold l (not-eq-true _ f))))
            (λ f k.
              ok-subst (Decides (Resolved declaration hold) declaration hold (some l)) k
                (repairs l notice (not-eq-false _ e) (not-eq-false _ f))))

  pub project_holds_resolve-Resolved :
      (declaration : Declaration) (hold : Hold) (existing : Option LockedDependency)
      (candidate : Release) {decision : HoldDecision}
      → declaration.hold ≡ some hold
      → project_holds_resolve semver remote declaration existing candidate ≡ ok decision
      → Decides (Resolved declaration hold) declaration hold existing decision
  unfolding project_holds_resolve
  project_holds_resolve-Resolved declaration hold existing candidate {decision} e h =
      held_decision-Decides declaration hold existing _ (rw e at h)

  Decides-map :
      {P Q : LockedDependency → Type 0} (declaration : Declaration) (hold : Hold)
      {existing : Option LockedDependency} {decision : HoldDecision}
      → ((p : LockedDependency) → P p → Q p)
      → Decides P declaration hold existing decision
      → Decides Q declaration hold existing decision
  Decides-map declaration hold f (skips l notice m r) = skips l notice m r
  Decides-map declaration hold f (repairs l notice m r) = repairs l notice m r
  Decides-map declaration hold f (pins existing p notice o r) = pins existing p notice o (f p r)

  -- For a held declaration whose pin is not latest, whatever the candidate, the policy either skips,
  -- with a lock that resolves the held pin already and needs no repair; or hands back that lock
  -- repaired, where it needs one; or, where the lock does not resolve the held pin, hands back a lock
  -- of the declaration, with its barrier, whose commit is the one that the remote has under the pin:
  -- the pin's own if it is a commit, else that of the release which the remote has under that tag.
  pub project_holds_resolve-Decides :
      (declaration : Declaration) (hold : Hold) (existing : Option LockedDependency)
      (candidate : Release) {decision : HoldDecision}
      → equal hold.pin latest ≡ false
      → declaration.hold ≡ some hold
      → project_holds_resolve semver remote declaration existing candidate ≡ ok decision
      → Decides (IsPinned declaration hold) declaration hold existing decision
  project_holds_resolve-Decides declaration hold existing candidate fixed e h =
      Decides-map declaration hold (λ p. resolve_held_pin-IsPinned declaration hold p fixed)
        (project_holds_resolve-Resolved declaration hold existing candidate e h)

  pub Decides-StandsBy :
      {Pinned : LockedDependency → Type 0} (declaration : Declaration) (hold : Hold)
      {existing : Option LockedDependency} {decision : HoldDecision}
      → Decides Pinned declaration hold existing decision
      → ((decision.skip ≡ true)
          × (l : LockedDependency) × (existing ≡ some l)
          × (lock_matches_reference l hold.pin ≡ true))
        ⊎ ((decision.skip ≡ false) × (p : LockedDependency) × (decision.pin ≡ some p))
  Decides-StandsBy declaration hold (skips l notice m _) = inl (refl, l, refl, m)
  Decides-StandsBy declaration hold (repairs l notice _ _) = inr (refl, _, refl)
  Decides-StandsBy declaration hold (pins existing p notice _ _) = inr (refl, p, refl)

  -- The project's policy, as the interface that a resolution takes.
  abbrev pub project_holds : HoldPolicy
  project_holds = record {
    resolve = project_holds_resolve semver remote;
    stands = λ declaration existing candidate h hold e.
        Decides-StandsBy declaration hold
          (project_holds_resolve-Resolved declaration hold existing candidate e h);
  }

  abbrev IsBarrier : Hold → LockHold → Type 0
  IsBarrier hold lock_hold = validate_lock_hold (some hold) (some lock_hold) ≡ ok tt

  tag_only-IsBarrier :
      (hold : Hold) (id : ℤ) → IsBarrier hold (record (tag_only hold) { rejected_release_id = id })
  unfolding validate_lock_hold
  tag_only-IsBarrier hold id = rw (equal_refl hold.rejected) refl

  with_commit-IsBarrier :
      (hold : Hold) (repository : Repository) (id : ℤ)
      → IsBarrier hold (
          with_commit semver remote hold repository
            (record (tag_only hold) { rejected_release_id = id }))
  unfolding with_commit validate_lock_hold
  with_commit-IsBarrier hold repository id =
      elim (Result-cases (remote.resolve_commit repository hold.rejected)) [
        | inr (e, q) ↦ rw (q, with_commit) (tag_only-IsBarrier hold id)
        | inl (commit, q) ↦
            rw (q, with_commit)
              (if_elim (IsBarrier hold) (is_full_commit commit)
                (λ full. rw (equal_refl hold.rejected, full, &&-false (not (is_empty commit))) refl)
                (λ _. tag_only-IsBarrier hold id))
      ]

  -- The barrier that a resolved pin carries passes the validation of a lock's barrier, whatever the
  -- remote answers.
  pub barrier_record-valid :
      (source : Bytes) (hold : Hold)
      → validate_lock_hold (some hold) (some (barrier_record semver remote source hold)) ≡ ok tt
  unfolding barrier_record
  barrier_record-valid source hold = elim (Result-cases (parse_source source)) [
    | inr (e, q) ↦ rw q (tag_only-IsBarrier hold (pos 0))
    | inl (repository, q) ↦ elim (Result-cases (remote.release_by_tag repository hold.rejected)) [
      | inr (e, r) ↦ rw (q, r) (tag_only-IsBarrier hold (pos 0))
      | inl (release, r) ↦
          rw (q, r)
            (if_elim (IsBarrier hold)
              (not (equal release.tag hold.rejected) || not (is_positive release.id))
              (λ _. tag_only-IsBarrier hold (pos 0))
              (λ _. with_commit-IsBarrier hold repository release.id))
    ]
  ]
