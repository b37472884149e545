-- ===== src/Dependency/Downgrade/Barrier.antt =====
-- internal/dependency/downgrade.go: what an explicit choice can do to a declaration and its hold.
use agentic_context_registry.Base.{
  Bool, true, false, not, ◌&&◌, [], ◌∷◌, Option, none, some, Bytes, equal, equal_iff, is_empty,
  is_some, if_elim, Result, ok, ◌≡◌, ◌≢◌, ◌⊎◌, inl, inr, refl, sym, ap, ◌∙◌, Bool-cases,
  not-eq-true, true≢false, false≢true, ok-subst,
}
use agentic_context_registry.Dependency.Model.{
  Hold, LockedDependency, Declaration, DependencyError, latest,
}
use agentic_context_registry.Dependency.Hold.{Semver, semver_comparable, tag_strictly_newer}
use agentic_context_registry.Dependency.Downgrade.{
  DowngradeChoice, downgrade_unset, downgrade_hold, downgrade_pin, locked_tag, advance_barrier,
  recorded_rejection_is_newer, rejects_requested_release, proven_not_newer_than_lock,
  requires_downgrade_choice, apply_downgrade_choice, apply_hold, standing_barrier, kept_reason,
  is_chosen,
}

module _ (semver : Semver) where
  -- A new rollback carries the barrier that stands, or the tag that the lock resolves, which is
  -- then strictly newer by semver or, where the two tags cannot be compared, by the release
  -- numbers that the lock records.
  pub advance_barrier-forward :
      (hold : Hold) (existing : Option LockedDependency)
      → hold.rejected ≢ []
      → (advance_barrier semver (some hold) existing ≡ hold.rejected)
        ⊎ ((advance_barrier semver (some hold) existing ≡ locked_tag existing)
            × ((tag_strictly_newer semver (locked_tag existing) hold.rejected ≡ true)
                ⊎ ((semver_comparable semver (locked_tag existing) hold.rejected ≡ false)
                    × (recorded_rejection_is_newer existing ≡ true))))
  unfolding advance_barrier standing_barrier
  advance_barrier-forward hold existing named =
      let P = λ (b : Bytes).
        (b ≡ hold.rejected)
        ⊎ ((b ≡ locked_tag existing)
            × ((tag_strictly_newer semver (locked_tag existing) hold.rejected ≡ true)
                ⊎ ((semver_comparable semver (locked_tag existing) hold.rejected ≡ false)
                    × (recorded_rejection_is_newer existing ≡ true)))) in
      if_elim P (is_empty hold.rejected) (λ e. absurd (named (empty-eq-nil hold.rejected e)))
        (λ _.
          if_elim P (is_empty (locked_tag existing)) (λ _. inl refl)
            (λ _.
              if_elim P (semver_comparable semver (locked_tag existing) hold.rejected)
                (λ _.
                  if_elim P (tag_strictly_newer semver (locked_tag existing) hold.rejected)
                    (λ e. inr (refl, inl e)) (λ _. inl refl))
                (λ c.
                  if_elim P (recorded_rejection_is_newer existing) (λ e. inr (refl, inr (c, e)))
                    (λ _. inl refl))))
    where
      empty-eq-nil : (s : Bytes) → is_empty s ≡ true → s ≡ []
      empty-eq-nil [] e = refl
      empty-eq-nil (c ∷ s) e = cc

  -- What a rollback with `--hold` writes.
  pub record IsHeldAt (previous : Declaration) (existing : Option LockedDependency)
      (declaration held : Declaration) (h : Hold) : Type 0 where
    pub holds : held.hold ≡ some h
    pub named : held.source ≡ declaration.source
    pub still_latest : held.requested ≡ previous.requested
    pub pinned : h.pin ≡ declaration.requested
    pub barrier : h.rejected ≡ advance_barrier semver previous.hold existing
    pub barrier_named : is_empty h.rejected ≡ false
    pub pins_another : h.pin ≢ h.rejected
    pub reason_kept : h.reason ≡ kept_reason semver previous.hold h.rejected

  differs :
      (existing : Option LockedDependency) (requested rejected : Bytes)
      → rejects_requested_release existing requested rejected ≡ false
      → requested ≢ rejected
  unfolding rejects_requested_release
  differs none requested rejected h e = cc ((equal_iff requested rejected).1 e)
  differs (some l) requested rejected h e = cc ((equal_iff requested rejected).1 e)

  apply_hold-IsHeldAt :
      (previous : Declaration) (existing : Option LockedDependency) (declaration : Declaration)
      {held : Declaration} {b : Bool}
      → apply_hold semver previous existing declaration ≡ ok (held, b)
      → (h : Hold) × IsHeldAt previous existing declaration held h
  unfolding apply_hold
  apply_hold-IsHeldAt previous existing declaration {held} {b} =
      let rejected = advance_barrier semver previous.hold existing in
      if_elim (λ r. r ≡ ok (held, b) → (h : Hold) × IsHeldAt previous existing declaration held h)
        (is_empty rejected) (λ _ k. cc)
        (λ named.
          if_elim
            (λ r. r ≡ ok (held, b) → (h : Hold) × IsHeldAt previous existing declaration held h)
            (rejects_requested_release existing declaration.requested rejected) (λ _ k. cc)
            (λ other k.
              ok-subst (λ r. (h : Hold) × IsHeldAt previous existing declaration r.0 h) k
                (
                  _,
                  record {
                    holds = refl;
                    named = refl;
                    still_latest = refl;
                    pinned = refl;
                    barrier = refl;
                    barrier_named = named;
                    pins_another = λ e. differs existing declaration.requested rejected other e;
                    reason_kept = refl;
                  },
                )))

  -- Over a standing hold on latest, only a request of latest needs no choice.
  requires-eq-false :
      (previous : Declaration) (existing : Option LockedDependency) (requested : Bytes)
      → previous.requested ≡ latest
      → is_some previous.hold ≡ true
      → requires_downgrade_choice semver previous existing requested ≡ false
      → equal requested latest ≡ true
  unfolding requires_downgrade_choice
  requires-eq-false previous existing requested l there h =
      elim (Bool-cases (equal requested latest)) [
        | inl e ↦ e
        | inr e ↦ absurd (true≢false (sym (rw (l, e, there) refl) ∙ h))
      ]

  held_stays :
      (previous : Declaration) (existing : Option LockedDependency) (declaration : Declaration)
      {next : Declaration} {b : Bool}
      → apply_downgrade_choice semver previous existing declaration downgrade_hold ≡ ok (next, b)
      → next.hold ≢ none
  unfolding apply_downgrade_choice is_chosen
  held_stays previous existing declaration {next} {b} =
      let P =
        λ (r : Result DependencyError (Declaration × Bool)). r ≡ ok (next, b) → next.hold ≢ none in
      if_elim P (not (requires_downgrade_choice semver previous existing declaration.requested))
        (λ _ k. cc)
        (λ _.
          if_elim P
            (is_some previous.hold
              && not (proven_not_newer_than_lock semver existing declaration.requested))
            (λ _ k. cc)
            (λ _ k g.
              let (h, at) = apply_hold-IsHeldAt previous existing declaration k in
              cc (sym at.holds ∙ g)))

  unset_stays :
      (previous : Declaration) (existing : Option LockedDependency) (declaration : Declaration)
      {next : Declaration} {b : Bool}
      → previous.requested ≡ latest
      → is_some previous.hold ≡ true
      → apply_downgrade_choice semver previous existing declaration downgrade_unset ≡ ok (next, b)
      → next.hold ≢ none
  unfolding apply_downgrade_choice is_chosen
  unset_stays previous existing declaration {next} {b} l there =
      let P =
        λ (r : Result DependencyError (Declaration × Bool)). r ≡ ok (next, b) → next.hold ≢ none in
      if_elim P (not (requires_downgrade_choice semver previous existing declaration.requested))
        (λ free.
          if_elim P (is_some previous.hold && equal declaration.requested latest)
            (λ _ k.
              ok-subst (λ r. r.0.hold ≢ none) k (λ g. false≢true (sym (ap is_some g) ∙ there)))
            (λ e k. absurd (
              false≢true (
                sym e
                ∙ (rw
                    (
                      there,
                      requires-eq-false previous existing declaration.requested l there
                          (not-eq-true _ free),
                    )
                    refl)))))
        (λ _.
          if_elim P
            (is_some previous.hold
              && not (proven_not_newer_than_lock semver existing declaration.requested))
            (λ _ k. cc) (λ _ k. cc))

  -- A declaration without a hold, installed over a standing hold on latest, is written without one
  -- only by the choice to pin.
  pub apply_downgrade_choice-keeps_hold :
      (previous : Declaration) (existing : Option LockedDependency) (declaration : Declaration)
      (choice : DowngradeChoice) {next : Declaration} {b : Bool}
      → previous.requested ≡ latest
      → is_some previous.hold ≡ true
      → apply_downgrade_choice semver previous existing declaration choice ≡ ok (next, b)
      → next.hold ≡ none
      → choice ≡ downgrade_pin
  unfolding apply_downgrade_choice is_chosen
  apply_downgrade_choice-keeps_hold previous existing declaration downgrade_pin l there h gone =
      refl
  apply_downgrade_choice-keeps_hold previous existing declaration downgrade_hold l there h gone =
      absurd (held_stays previous existing declaration h gone)
  apply_downgrade_choice-keeps_hold previous existing declaration downgrade_unset l there h gone =
      absurd (unset_stays previous existing declaration l there h gone)
