-- ===== src/Dependency/Policy.antt =====
-- internal/dependency/holds.go: the rollback barrier of agents.yaml, as the policy that is asked
-- before a latest declaration is resolved again.
pub mod Stands
use agentic_context_registry.Base.{
  Bool, true, false, not, ◌&&◌, ◌||◌, List, [], ◌∷◌, ◌++◌, Option, none, some, Bytes, codes, equal,
  is_some, if◌then◌else◌, Result, ok, err, ◌>>=◌, ◌≡◌, ◌⊎◌,
}
use agentic_context_registry.Dependency.Model.{
  pos, is_positive, Hold, LockHold, Declaration, LockedDependency, Release, Repository,
  DependencyError,
}
use agentic_context_registry.Dependency.Source.{parse_source, is_full_commit}
use agentic_context_registry.Dependency.Hold.{Semver, beyond_barrier, lock_matches_reference}
use agentic_context_registry.Dependency.Resolver.{Remote, resolve_declaration}

pub record HoldDecision : Type 0 where
  pub skip : Bool
  pub pin : Option LockedDependency
  pub notice : Bytes

abbrev pub no_decision : HoldDecision
no_decision = record { skip = false; pin = none; notice = [] }

-- A held declaration is decided by the lock that is there, which then resolves the held pin, or by
-- a lock of the policy's own.
abbrev pub StandsBy : Declaration → Option LockedDependency → HoldDecision → Type 0
StandsBy declaration existing decision =
    (h : Hold)
    → declaration.hold ≡ some h
    → ((decision.skip ≡ true)
        × (l : LockedDependency) × (existing ≡ some l)
        × (lock_matches_reference l h.pin ≡ true))
      ⊎ ((decision.skip ≡ false) × (p : LockedDependency) × (decision.pin ≡ some p))

-- The interface `HoldPolicy`, with what its clients rely on.
pub record HoldPolicy : Type 0 where
  pub resolve :
      Declaration → Option LockedDependency → Release → Result DependencyError HoldDecision
  pub stands :
      (declaration : Declaration) (existing : Option LockedDependency) (candidate : Release)
      {decision : HoldDecision}
      → resolve declaration existing candidate ≡ ok decision
      → StandsBy declaration existing decision

resume_suggestion : Bytes → Hold → Bytes → Bytes
resume_suggestion source hold tag =
    source
    ++ (codes " is held at "
        ++ (hold.pin
            ++ (codes " after "
                ++ (hold.rejected
                    ++ (codes " was rejected; "
                        ++ (tag
                            ++ (codes " is newer than the barrier. Review it, then run 'acr resume "
                                ++ (source ++ codes "' to resume latest."))))))))

-- The declared barrier, without the rejected release's identity.
abbrev pub tag_only : Hold → LockHold
tag_only hold = record {
  rejected_tag = hold.rejected;
  rejected_release_id = pos 0;
  rejected_commit = [];
}

unfoldable pub repair_held_lock : Declaration → Hold → LockedDependency → LockedDependency × Bool
unfolding equal
repair_held_lock declaration hold existing = (
  record existing {
    requested = declaration.requested;
    hold = elim existing.hold [ none ↦ some (tag_only hold) | some h ↦ some h ];
  },
  not (equal declaration.requested existing.requested) || not (is_some existing.hold),
)

module _ (semver : Semver) (remote : Remote) where
  with_commit : Hold → Repository → LockHold → LockHold
  unfolding is_full_commit
  with_commit hold repository lock_hold = elim (remote.resolve_commit repository hold.rejected) [
    | err _ ↦ lock_hold
    | ok commit ↦
        if is_full_commit commit then record lock_hold { rejected_commit = commit } else lock_hold
  ]

  unfoldable pub barrier_record : Bytes → Hold → LockHold
  unfolding parse_source equal with_commit
  barrier_record source hold = elim (parse_source source) [
    | err _ ↦ tag_only hold
    | ok repository ↦ elim (remote.release_by_tag repository hold.rejected) [
      | err _ ↦ tag_only hold
      | ok release ↦
          if not (equal release.tag hold.rejected) || not (is_positive release.id)
          then tag_only hold
          else with_commit hold repository
              (record (tag_only hold) { rejected_release_id = release.id })
    ]
  ]

  unfoldable pub resolve_held_pin : Declaration → Hold → Result DependencyError LockedDependency
  unfolding resolve_declaration barrier_record
  resolve_held_pin declaration hold = do
    locked ←
        resolve_declaration remote
          (record { source = declaration.source; requested = hold.pin; path = []; hold = none })
    ok (record locked {
      requested = declaration.requested;
      hold = some (barrier_record declaration.source hold);
    })

  pin_decision : Bytes → Declaration → Hold → Result DependencyError HoldDecision
  unfolding resolve_held_pin
  pin_decision notice declaration hold = do
    pinned ← resolve_held_pin declaration hold
    ok (record { skip = false; pin = some pinned; notice = notice })

  held_decision :
      Bytes → Declaration → Hold → Option LockedDependency → Result DependencyError HoldDecision
  unfolding pin_decision lock_matches_reference repair_held_lock
  held_decision notice declaration hold none = pin_decision notice declaration hold
  held_decision notice declaration hold (some existing) =
      let (repaired, needs_rewrite) = repair_held_lock declaration hold existing in
      if not (lock_matches_reference existing hold.pin)
      then pin_decision notice declaration hold
      else if not needs_rewrite
      then ok (record { skip = true; pin = none; notice = notice })
      else ok (record { skip = false; pin = some repaired; notice = notice })

  -- `projectHolds.Resolve`.
  unfoldable pub project_holds_resolve :
      Declaration → Option LockedDependency → Release → Result DependencyError HoldDecision
  unfolding held_decision beyond_barrier resume_suggestion
  project_holds_resolve declaration existing candidate = elim declaration.hold [
    | none ↦ ok no_decision
    | some hold ↦
        held_decision
          (if beyond_barrier semver candidate existing hold
            then resume_suggestion declaration.source hold candidate.tag
            else [])
          declaration hold existing
  ]
