-- ===== src/Realize/Planner/Places.antt =====
-- internal/realize/planner.go: every decision for a path speaks of that path, in its operations and
-- in the targets that it hands on.
use agentic_context_registry.Base.{
  Bool, not, ◌&&◌, ◌||◌, List, [], ◌∷◌, Option, none, some, Bytes, equal, ltb, ◌==◌, length, ◌≡◌,
  All, Option-cases, Bool-cases, inl, inr, ok, ok-subst, equal_iff, if_elim, is_ok, is_yes,
}
use agentic_context_registry.Realize.Model.{
  shared, IntentAction, ensure, preserve, remove, default_action, unsupported_action, Target,
  Intent, Operation, Reason, same_ownership, current_version, Target-discrete, target_too_large,
  invalid_next_target, missing_shared_target, unmanaged_needs_merge, refuse_modified_removal,
  tracked_removal_unproven, shared_removal_needs_intent,
}
use agentic_context_registry.Realize.Ledger.{canonical_target, canonical_ledger, validate_ledger}
use agentic_context_registry.Realize.Filesystem.{FileSnapshot, max_target_bytes}
use agentic_context_registry.Realize.Planner.Decide.{
  Delta, kept, refuse, commit, mutation, is_changed, owned_refusal, plan_owned, plan_missing,
  plan_unmanaged, plan_next, plan_ensure, next_target, preserves, has_unpreserved_content,
}
use agentic_context_registry.Realize.Planner.Remove.{
  is_proven_removal, retain, plan_removal, plan_omitted, shared_removal_refusal,
  plan_shared_removal, plan_preserve, plan_remove,
}
use agentic_context_registry.Realize.Planner.Run.{find_target, find_intent, plan_wanted, plan_path}

-- All that a decision hands on is of one path.
abbrev pub At : Bytes → Delta → Type 0
At path d =
    All (λ (o : Operation). o.path ≡ path) d.operations
    × All (λ (t : Target). t.path ≡ path) d.targets

abbrev pub RecordedAt : Bytes → Option Target → Type 0
RecordedAt path none = Unit {0}
RecordedAt path (some t) = t.path ≡ path

abbrev pub AskedAt : Bytes → Option Intent → Type 0
AskedAt path none = Unit {0}
AskedAt path (some i) = i.path ≡ path

module _ (path : Bytes) where
  kept-At :
      (previous : Option Target)
      → RecordedAt path previous
      → All (λ (t : Target). t.path ≡ path) (kept previous)
  kept-At none h = tt
  kept-At (some t) h = (h, tt)

  refuse-At :
      (p : Bytes) (previous : Option Target) (reason : Reason)
      → p ≡ path
      → RecordedAt path previous
      → At path (refuse p previous reason)
  unfolding refuse
  refuse-At p previous reason h r = ((h, tt), kept-At previous r)

  plan_owned-At :
      (t : Target) (i : Intent) (snapshot : FileSnapshot) (next : Target)
      → t.path ≡ path
      → i.path ≡ path
      → next.path ≡ path
      → At path (plan_owned t i snapshot next)
  unfolding plan_owned commit mutation
  plan_owned-At t i snapshot next h k n = elim (Option-cases (owned_refusal t i snapshot next)) [
    | inr (reason, e) ↦ rw (e, plan_owned) (refuse-At i.path (some t) reason k h)
    | inl e ↦
        rw (e, plan_owned)
          (if_elim (At path)
            (equal snapshot.hash next.output_hash
              && snapshot.mode_bits == next.mode_bits
              && is_yes (Target-discrete t next))
            (λ _. (tt, (n, tt))) (λ _. ((n, tt), (n, tt))))
  ]

  module _ (content_hash : Bytes → Bytes) (snapshot : FileSnapshot) where
    plan_next-At :
        (previous : Option Target) (i : Intent) (next : Target)
        → RecordedAt path previous
        → i.path ≡ path
        → next.path ≡ path
        → At path (plan_next content_hash previous i snapshot next)
    unfolding plan_next plan_missing plan_unmanaged commit mutation
    plan_next-At previous i next h k n =
        if_elim (At path) (not snapshot.exists)
          (λ _.
            if_elim (At path) (same_ownership next.ownership shared)
              (λ _. refuse-At i.path previous missing_shared_target k h) (λ _. ((n, tt), (n, tt))))
          (λ _. there previous h)
      where
        there :
            (p : Option Target)
            → RecordedAt path p
            → At path (elim p [
              | none ↦ plan_unmanaged i snapshot next
              | some owned ↦ plan_owned owned i snapshot next
            ])
        there none r =
            if_elim (At path)
              (not (same_ownership next.ownership shared)
                || not i.managed_intact
                || not (equal i.observed_hash snapshot.hash)
                || not (preserves i.content i.preserved_content)
                || has_unpreserved_content snapshot i)
              (λ _. refuse-At i.path none unmanaged_needs_merge k tt) (λ _. ((n, tt), (n, tt)))
        there (some t) r = plan_owned-At t i snapshot next r k n

    plan_ensure-At :
        (previous : Option Target) (i : Intent)
        → RecordedAt path previous
        → i.path ≡ path
        → At path (plan_ensure content_hash previous i snapshot)
    unfolding plan_ensure next_target canonical_target
    plan_ensure-At previous i h k =
        let next = next_target content_hash previous i snapshot in
        let entry =
          canonical_ledger (record { schema_version = current_version; targets = next ∷ [] }) in
        if_elim (At path) (ltb max_target_bytes (length i.content))
          (λ _. refuse-At i.path previous target_too_large k h)
          (λ _.
            if_elim (At path) (not (is_ok (validate_ledger entry)))
              (λ _. refuse-At i.path previous invalid_next_target k h)
              (λ _. plan_next-At previous i (canonical_target next) h k k))

    plan_removal-At :
        (t : Target) (intent : Option Intent) (tracked : Bool)
        → t.path ≡ path
        → At path (plan_removal content_hash t intent snapshot tracked)
    unfolding plan_removal retain
    plan_removal-At t none tracked h =
        if_elim (At path) (not snapshot.exists) (λ _. (tt, tt))
          (λ _.
            if_elim (At path) (tracked && not (is_changed snapshot t)) (λ _. ((h, tt), tt))
              (λ _.
                if_elim (At path) (is_changed snapshot t)
                  (λ _. refuse-At t.path (some t) refuse_modified_removal h h)
                  (λ _. ((h, tt), tt))))
    plan_removal-At t (some i) tracked h =
        if_elim (At path) (not snapshot.exists) (λ _. (tt, tt))
          (λ _.
            if_elim (At path) (tracked && not (is_changed snapshot t))
              (λ _.
                if_elim (At path) (not (is_proven_removal i snapshot))
                  (λ _. refuse-At t.path (some t) tracked_removal_unproven h h)
                  (λ _. ((h, tt), tt)))
              (λ _.
                if_elim (At path) (is_changed snapshot t)
                  (λ _.
                    if_elim (At path) (is_proven_removal i snapshot) (λ _. ((h, tt), tt))
                      (λ _. refuse-At t.path (some t) refuse_modified_removal h h))
                  (λ _. ((h, tt), tt))))

    plan_omitted-At :
        (t : Target) (tracked : Bool)
        → t.path ≡ path
        → At path (plan_omitted content_hash t snapshot tracked)
    unfolding plan_omitted
    plan_omitted-At t tracked h =
        if_elim (At path) (same_ownership t.ownership shared)
          (λ _. refuse-At t.path (some t) shared_removal_needs_intent h h)
          (λ _. plan_removal-At t none tracked h)

    plan_shared_removal-At :
        (t : Target) (i : Intent)
        → t.path ≡ path
        → At path (plan_shared_removal content_hash t i snapshot)
    unfolding plan_shared_removal retain
    plan_shared_removal-At t i h = elim (Option-cases (shared_removal_refusal i snapshot)) [
      | inr (reason, e) ↦ rw (e, plan_shared_removal) (refuse-At t.path (some t) reason h h)
      | inl e ↦ rw (e, plan_shared_removal) ((h, tt), tt)
    ]

    plan_remove-At :
        (previous : Option Target) (i : Intent) (tracked : Bool)
        → RecordedAt path previous
        → i.path ≡ path
        → At path (plan_remove content_hash previous i snapshot tracked)
    unfolding plan_remove
    plan_remove-At none i tracked h k =
        if_elim (At path) snapshot.exists (λ _. ((k, tt), tt)) (λ _. (tt, tt))
    plan_remove-At (some t) i tracked h k =
        if_elim (At path) (same_ownership t.ownership shared) (λ _. plan_shared_removal-At t i h)
          (λ _. plan_removal-At t (some i) tracked h)

    plan_preserve-At :
        (p : Bytes) (previous : Option Target)
        → RecordedAt path previous
        → p ≡ path
        → At path (plan_preserve p previous snapshot)
    unfolding plan_preserve
    plan_preserve-At p none h k = ((k, tt), tt)
    plan_preserve-At p (some t) h k =
        elim (Bool-cases (snapshot.exists && not (is_changed snapshot t))) [
          | inl e ↦ rw e ((k, tt), (h, tt))
          | inr e ↦ rw e ((k, tt), (h, tt))
        ]

    plan_wanted-At :
        (previous : Option Target) (i : Intent) (tracked : Bool) (action : IntentAction) {d : Delta}
        → RecordedAt path previous
        → i.path ≡ path
        → plan_wanted content_hash previous i snapshot tracked action ≡ ok d
        → At path d
    unfolding plan_wanted
    plan_wanted-At previous i tracked ensure h k e =
        ok-subst (At path) e (plan_ensure-At previous i h k)
    plan_wanted-At previous i tracked preserve h k e =
        ok-subst (At path) e (plan_preserve-At i.path previous h k)
    plan_wanted-At previous i tracked remove h k e =
        ok-subst (At path) e (plan_remove-At previous i tracked h k)
    plan_wanted-At previous i tracked default_action h k e =
        ok-subst (At path) e (plan_ensure-At previous i h k)
    plan_wanted-At previous i tracked (unsupported_action s) h k e = cc

    -- Where the recorded target and the intent are of a path, so is the decision.
    pub plan_path-At :
        (previous : Option Target) (intent : Option Intent) (tracked : Bool) {d : Delta}
        → RecordedAt path previous
        → AskedAt path intent
        → plan_path content_hash previous intent snapshot tracked ≡ ok d
        → At path d
    unfolding plan_path
    plan_path-At previous (some i) tracked h k e = plan_wanted-At previous i tracked i.action h k e
    plan_path-At (some t) none tracked h k e = ok-subst (At path) e (plan_omitted-At t tracked h)
    plan_path-At none none tracked h k e = ok-subst (At path) e (tt, tt)

pub find_target-RecordedAt :
    (path : Bytes) (ts : List Target) → RecordedAt path (find_target path ts)
unfolding find_target
find_target-RecordedAt path [] = tt
find_target-RecordedAt path (t ∷ ts) =
    if_elim (RecordedAt path) (equal t.path path) (λ e. (equal_iff t.path path).0 e)
      (λ _. find_target-RecordedAt path ts)

pub find_intent-AskedAt : (path : Bytes) (is : List Intent) → AskedAt path (find_intent path is)
unfolding find_intent
find_intent-AskedAt path [] = tt
find_intent-AskedAt path (i ∷ is) =
    if_elim (AskedAt path) (equal i.path path) (λ e. (equal_iff i.path path).0 e)
      (λ _. find_intent-AskedAt path is)
