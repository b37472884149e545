-- ===== src/Realize/Planner/Removal.antt =====
-- What planRemoval, planSharedRemoval and the preserve and remove branches do is what the relation
-- `Planned` allows; so is, then, every decision of the planner for one target.
use mathlib.Core.Path.{subst}
use agentic_context_registry.Base.{
  Bool, true, not, ◌&&◌, [], ◌∷◌, Option, none, some, Bytes, ◌≡◌, ◌≢◌, inl, inr, refl, In,
  Bool-cases, Option-cases, if_elim, ok, Result, arith, not-eq-true, not-eq-false,
}
use agentic_context_registry.Realize.Model.{
  shared, IntentAction, ensure, preserve, remove, default_action, unsupported_action, Target,
  Intent, same_ownership, same_ownership_iff, Reason, cannot_preserve_changed,
  refuse_absent_from_ledger,
}
use agentic_context_registry.Realize.Filesystem.{FileSnapshot}
use agentic_context_registry.Realize.Planner.Decide.{Delta, is_changed, refuse}
use agentic_context_registry.Realize.Planner.Remove.{
  is_proven_removal, retain, plan_removal, plan_omitted, shared_removal_refusal,
  plan_shared_removal, plan_preserve, plan_remove,
}
use agentic_context_registry.Realize.Planner.Spec.{
  IsBound, KeepsFile, Planned, absent, unknown, refused, preserved, released, cut_out, deleted,
}
use agentic_context_registry.Realize.Planner.Fragments.{
  preserves-contains, has_nonempty_fragment-eq-true, is_bound_merge-IsBound, KeepsFile-intro,
}
use agentic_context_registry.Realize.Planner.Run.{PlanError, plan_wanted, plan_path}
use agentic_context_registry.Realize.Planner.Ensure.{not_same, plan_ensure-Planned}

-- A removal that passes its tests is bound to the file and keeps a fragment of it.
is_proven_removal-IsBound :
    (i : Intent) (snapshot : FileSnapshot)
    → snapshot.exists ≡ true
    → is_proven_removal i snapshot ≡ true
    → IsBound i snapshot
      × KeepsFile i snapshot
      × ((f : Bytes) × In f i.preserved_content × (f ≢ []))
unfolding is_proven_removal
is_proven_removal-IsBound i snapshot there h = (
  is_bound_merge-IsBound i snapshot (ground (arith, h)),
  KeepsFile-intro i snapshot (ground (arith, h)) there,
  has_nonempty_fragment-eq-true i.preserved_content (ground (arith, h)),
)

module _ (content_hash : Bytes → Bytes) (snapshot : FileSnapshot) (tracked : Bool) where
  cut_out-Planned :
      (t : Target) (i : Intent) (reason : Reason)
      → snapshot.exists ≡ true
      → is_proven_removal i snapshot ≡ true
      → Planned content_hash snapshot tracked (some t) (some i) (record {
        targets = [];
        operations = retain content_hash t snapshot i.content reason ∷ [];
      })
  cut_out-Planned t i reason there e =
      let (bound, keeps, fragment) = is_proven_removal-IsBound i snapshot there e in
      cut_out t i reason refl refl bound keeps.own (inr fragment)

  plan_removal-Planned :
      (t : Target) (intent : Option Intent)
      → t.ownership ≢ shared
      → Planned content_hash snapshot tracked
          (some t)
          intent
          (plan_removal content_hash t intent snapshot tracked)
  unfolding plan_removal
  plan_removal-Planned t none ns =
      if_elim (Planned content_hash snapshot tracked (some t) none) (not snapshot.exists)
        (λ e. absent (not-eq-true snapshot.exists e))
        (λ there.
          if_elim (Planned content_hash snapshot tracked (some t) none)
            (tracked && not (is_changed snapshot t))
            (λ e. released t _ refl (ground (arith, e)) (ground (arith, e)))
            (λ e.
              if_elim (Planned content_hash snapshot tracked (some t) none) (is_changed snapshot t)
                (λ _. refused t.path _)
                (λ c.
                  deleted t _ refl ns (not-eq-false snapshot.exists there) c (ground (arith, e, c))
                    refl refl)))
  plan_removal-Planned t (some i) ns =
      let P = Planned content_hash snapshot tracked (some t) (some i) in
      if_elim P (not snapshot.exists) (λ e. absent (not-eq-true snapshot.exists e))
        (λ there.
          if_elim P (tracked && not (is_changed snapshot t))
            (λ e.
              if_elim P (not (is_proven_removal i snapshot)) (λ _. refused t.path _)
                (λ p.
                  cut_out-Planned t i _ (not-eq-false snapshot.exists there)
                    (not-eq-false (is_proven_removal i snapshot) p)))
            (λ e.
              if_elim P (is_changed snapshot t)
                (λ _.
                  if_elim P (is_proven_removal i snapshot)
                    (λ p. cut_out-Planned t i _ (not-eq-false snapshot.exists there) p)
                    (λ _. refused t.path _))
                (λ c.
                  deleted t _ refl ns (not-eq-false snapshot.exists there) c (ground (arith, e, c))
                    refl refl)))

  plan_omitted-Planned :
      (t : Target)
      → Planned content_hash snapshot tracked
          (some t)
          none
          (plan_omitted content_hash t snapshot tracked)
  unfolding plan_omitted
  plan_omitted-Planned t =
      if_elim (Planned content_hash snapshot tracked (some t) none)
        (same_ownership t.ownership shared) (λ _. refused t.path _)
        (λ s. plan_removal-Planned t none (not_same t.ownership shared s))

  plan_shared_removal-Planned :
      (t : Target) (i : Intent)
      → t.ownership ≡ shared
      → Planned content_hash snapshot tracked
          (some t)
          (some i)
          (plan_shared_removal content_hash t i snapshot)
  unfolding plan_shared_removal
  plan_shared_removal-Planned t i s = elim (Option-cases (shared_removal_refusal i snapshot)) [
    | inr (reason, e) ↦ rw (e, plan_shared_removal) (refused t.path reason)
    | inl e ↦
        rw (e, plan_shared_removal)
          (cut_out t i _ refl refl
            (is_bound_merge-IsBound i snapshot (unfold shared_removal_refusal in ground (arith, e)))
            (λ f m ne.
              preserves-contains snapshot.content f i.preserved_content
                (unfold shared_removal_refusal in ground (arith, e)) m ne)
            (inl s))
  ]

  plan_preserve-Planned :
      (path : Bytes) (previous : Option Target) (intent : Option Intent)
      → Planned content_hash snapshot tracked previous intent (plan_preserve path previous snapshot)
  unfolding plan_preserve refuse
  plan_preserve-Planned path none intent = preserved _ refl refl
  plan_preserve-Planned path (some t) intent =
      elim (Bool-cases (snapshot.exists && not (is_changed snapshot t))) [
        | inl e ↦ rw e (preserved _ refl refl)
        | inr e ↦ rw e (refused path cannot_preserve_changed)
      ]

  plan_remove-Planned :
      (previous : Option Target) (i : Intent)
      → Planned content_hash snapshot tracked previous
          (some i)
          (plan_remove content_hash previous i snapshot tracked)
  unfolding plan_remove refuse
  plan_remove-Planned none i =
      if_elim (Planned content_hash snapshot tracked none (some i)) snapshot.exists
        (λ _. refused i.path refuse_absent_from_ledger) (λ e. absent e)
  plan_remove-Planned (some t) i =
      if_elim (Planned content_hash snapshot tracked (some t) (some i))
        (same_ownership t.ownership shared)
        (λ s. plan_shared_removal-Planned t i ((same_ownership_iff t.ownership shared).0 s))
        (λ s. plan_removal-Planned t (some i) (not_same t.ownership shared s))

  of_ok :
      {previous : Option Target} {intent : Option Intent} {d d' : Delta}
      → ◌≡◌ {A = Result PlanError Delta} (ok d) (ok d')
      → Planned content_hash snapshot tracked previous intent d
      → Planned content_hash snapshot tracked previous intent d'
  of_ok {previous} {intent} {d} {d'} e p =
      let same : d ≡ d' = cc in subst (Planned content_hash snapshot tracked previous intent) same p

  plan_wanted-Planned :
      (previous : Option Target) (i : Intent) (action : IntentAction) {d : Delta}
      → plan_wanted content_hash previous i snapshot tracked action ≡ ok d
      → Planned content_hash snapshot tracked previous (some i) d
  unfolding plan_wanted
  plan_wanted-Planned previous i ensure h =
      of_ok h (plan_ensure-Planned content_hash snapshot tracked previous i)
  plan_wanted-Planned previous i preserve h =
      of_ok h (plan_preserve-Planned i.path previous (some i))
  plan_wanted-Planned previous i remove h = of_ok h (plan_remove-Planned previous i)
  plan_wanted-Planned previous i default_action h =
      of_ok h (plan_ensure-Planned content_hash snapshot tracked previous i)
  plan_wanted-Planned previous i (unsupported_action s) h = cc

  -- Whatever the planner decides for a path, without an error: the operations and the target that
  -- it hands on are one of the changes of the relation `Planned`, whose constructors carry the facts
  -- on the file, the recorded target and the intent that allow the change.
  pub plan_path-Planned :
      (previous : Option Target) (intent : Option Intent) {d : Delta}
      → plan_path content_hash previous intent snapshot tracked ≡ ok d
      → Planned content_hash snapshot tracked previous intent d
  unfolding plan_path
  plan_path-Planned previous (some i) h = plan_wanted-Planned previous i i.action h
  plan_path-Planned (some t) none h = of_ok h (plan_omitted-Planned t)
  plan_path-Planned none none h = of_ok h (unknown refl refl)
