-- ===== src/Realize/Planner/Ensure.antt =====
-- What planEnsure does is what the relation `Planned` allows.
use agentic_context_registry.Base.{
  Bool, true, false, not, ◌&&◌, ◌||◌, [], ◌∷◌, Option, none, some, Bytes, equal, equal_iff, ◌≡◌,
  ◌≢◌, ◌⊎◌, inl, inr, refl, In, Bool-cases, Option-cases, if_elim, arith, length, ltb, ◌==◌, is_ok,
  is_yes, is_yes-eq-true, not-eq-true, not-eq-false, &&-eq-true,
}
use agentic_context_registry.Realize.Model.{
  Ownership, generated, shared, Target, Intent, op_preserve, op_conflict, same_ownership,
  same_ownership_iff, current_version, Target-discrete, target_too_large, invalid_next_target,
  unmanaged_needs_merge, missing_shared_target,
}
use agentic_context_registry.Realize.Ledger.{canonical_target, canonical_ledger, validate_ledger}
use agentic_context_registry.Realize.Filesystem.{FileSnapshot, max_target_bytes}
use agentic_context_registry.Realize.Planner.Decide.{
  preserves, has_unpreserved_content, is_changed, plan_owned, plan_unmanaged, plan_missing,
  plan_next, plan_ensure, owned_refusal, owned_kind, next_target, shared_refusal, generated_refusal,
}
use agentic_context_registry.Realize.Planner.Spec.{
  IsBound, KeepsFile, Rewrites, steady, written, Planned, refused, created, merged, shared_rewrite,
  promoted, refreshed,
}
use agentic_context_registry.Realize.Planner.Fragments.{
  has_nonempty_fragment-eq-false, IsBound-intro, is_bound_merge-IsBound, KeepsFile-intro,
}

owned_kind-ne :
    (t next : Target)
    → ((owned_kind t next).0 ≢ op_conflict) × ((owned_kind t next).0 ≢ op_preserve)
unfolding owned_kind
owned_kind-ne t next = (ground arith, ground arith)

pub not_same : (a b : Ownership) → same_ownership a b ≡ false → a ≢ b
not_same a b h e = cc ((same_ownership_iff a b).1 e)

module _ (snapshot : FileSnapshot) (t : Target) (i : Intent) (next : Target) where
  -- What an owned target turns into once its tests have passed.
  plan_owned-Rewrites :
      owned_refusal t i snapshot next ≡ none
      → Rewrites snapshot t i next (plan_owned t i snapshot next)
  unfolding plan_owned
  plan_owned-Rewrites h =
      rw (h, plan_owned)
        (if_elim (Rewrites snapshot t i next) _
          (λ e.
            let hashes = equal snapshot.hash next.output_hash in
            let (hm, d) =
              &&-eq-true (hashes && snapshot.mode_bits == next.mode_bits)
                (is_yes (Target-discrete t next)) e in
            steady (is_yes-eq-true (Target-discrete t next) d) (
              (equal_iff snapshot.hash next.output_hash).0
                (&&-eq-true hashes (snapshot.mode_bits == next.mode_bits) hm).0))
          (λ _.
            written (owned_kind t next).0 (owned_kind t next).1 (owned_kind-ne t next).0
              (owned_kind-ne t next).1))

  shared_refusal-none :
      shared_refusal i snapshot next ≡ none
      → snapshot.exists ≡ true
      → IsBound i snapshot
        × (next.ownership ≡ shared → KeepsFile i snapshot)
        × (next.ownership ≡ generated
            → (i.explicit_demotion ≡ true) × ((f : Bytes) → In f i.preserved_content → f ≡ []))
  unfolding shared_refusal
  shared_refusal-none h there = (
    is_bound_merge-IsBound i snapshot (ground (arith, h)),
    λ e.
        KeepsFile-intro i snapshot (ground (arith, h, same_ownership_iff next.ownership shared))
          there,
    λ e. (
      ground (arith, h, same_ownership_iff next.ownership generated),
      λ f m.
          has_nonempty_fragment-eq-false f i.preserved_content
            (ground (arith, h, same_ownership_iff next.ownership generated)) m,
    ),
  )

  generated_refusal-none :
      generated_refusal i snapshot next ≡ none
      → snapshot.exists ≡ true
      → (next.ownership ≡ shared) × IsBound i snapshot × KeepsFile i snapshot
  unfolding generated_refusal
  generated_refusal-none h there = (
    (same_ownership_iff next.ownership shared).0 (ground (arith, h)),
    IsBound-intro i snapshot (ground (arith, h)) (ground (arith, h)) (ground (arith, h)),
    KeepsFile-intro i snapshot (ground (arith, h)) there,
  )

module _ (content_hash : Bytes → Bytes) (snapshot : FileSnapshot) (tracked : Bool) where
  plan_not_shared :
      (t : Target) (i : Intent) (next : Target)
      → snapshot.exists ≡ true
      → same_ownership t.ownership shared ≡ false
      → owned_refusal t i snapshot next ≡ none
      → let changed = same_ownership t.ownership generated && is_changed snapshot t in
        (changed ≡ true) ⊎ (changed ≡ false)
        → Planned content_hash snapshot tracked (some t) (some i) (plan_owned t i snapshot next)
  plan_not_shared t i next there s e (inl c) =
      let (to_shared, bound, keeps) =
        generated_refusal-none snapshot t i next (unfold owned_refusal in rw (s, c) at e) there in
      let (g, _) = &&-eq-true (same_ownership t.ownership generated) (is_changed snapshot t) c in
      promoted t i next _ refl refl ((same_ownership_iff t.ownership generated).0 g) to_shared bound
        keeps (plan_owned-Rewrites snapshot t i next e)
  plan_not_shared t i next there s e (inr c) =
      refreshed t i next _ refl refl (not_same t.ownership shared s)
        (λ g. ground (arith, c, same_ownership_iff t.ownership generated))
        (plan_owned-Rewrites snapshot t i next e)

  plan_owned-Planned :
      (t : Target) (i : Intent) (next : Target)
      → snapshot.exists ≡ true
      → Planned content_hash snapshot tracked (some t) (some i) (plan_owned t i snapshot next)
  plan_owned-Planned t i next there = elim (Option-cases (owned_refusal t i snapshot next)) [
    | inr (reason, e) ↦ unfold plan_owned in rw (e, plan_owned) (refused i.path reason)
    | inl e ↦ elim (Bool-cases (same_ownership t.ownership shared)) [
      | inl s ↦
          let (bound, keeps, demotes) =
            shared_refusal-none snapshot t i next (unfold owned_refusal in rw s at e) there in
          shared_rewrite t i next _ refl refl ((same_ownership_iff t.ownership shared).0 s) bound
            keeps demotes (plan_owned-Rewrites snapshot t i next e)
      | inr s ↦
          let changed = same_ownership t.ownership generated && is_changed snapshot t in
          plan_not_shared t i next there s e (Bool-cases changed)
    ]
  ]

  plan_unmanaged-Planned :
      (i : Intent) (next : Target)
      → snapshot.exists ≡ true
      → Planned content_hash snapshot tracked none (some i) (plan_unmanaged i snapshot next)
  unfolding plan_unmanaged
  plan_unmanaged-Planned i next there =
      if_elim (Planned content_hash snapshot tracked none (some i))
        (not (same_ownership next.ownership shared)
          || not i.managed_intact
          || not (equal i.observed_hash snapshot.hash)
          || not (preserves i.content i.preserved_content)
          || has_unpreserved_content snapshot i)
        (λ _. refused i.path unmanaged_needs_merge)
        (λ e.
          merged i next refl refl ((same_ownership_iff next.ownership shared).0 (ground (arith, e)))
            (IsBound-intro i snapshot (ground (arith, e)) (ground (arith, e)) (ground (arith, e)))
            (KeepsFile-intro i snapshot (ground (arith, e)) there))

  plan_missing-Planned :
      (previous : Option Target) (i : Intent) (next : Target)
      → snapshot.exists ≡ false
      → Planned content_hash snapshot tracked previous
          (some i)
          (plan_missing previous i snapshot next)
  unfolding plan_missing
  plan_missing-Planned previous i next gone =
      if_elim (Planned content_hash snapshot tracked previous (some i))
        (same_ownership next.ownership shared) (λ _. refused i.path missing_shared_target)
        (λ e. created i next refl gone (not_same next.ownership shared e))

  plan_next-Planned :
      (previous : Option Target) (i : Intent) (next : Target)
      → Planned content_hash snapshot tracked previous
          (some i)
          (plan_next content_hash previous i snapshot next)
  unfolding plan_next
  plan_next-Planned none i next =
      if_elim (Planned content_hash snapshot tracked none (some i)) (not snapshot.exists)
        (λ e. plan_missing-Planned none i next (not-eq-true snapshot.exists e))
        (λ e. plan_unmanaged-Planned i next (not-eq-false snapshot.exists e))
  plan_next-Planned (some t) i next =
      if_elim (Planned content_hash snapshot tracked (some t) (some i)) (not snapshot.exists)
        (λ e. plan_missing-Planned (some t) i next (not-eq-true snapshot.exists e))
        (λ e. plan_owned-Planned t i next (not-eq-false snapshot.exists e))

  pub plan_ensure-Planned :
      (previous : Option Target) (i : Intent)
      → Planned content_hash snapshot tracked previous
          (some i)
          (plan_ensure content_hash previous i snapshot)
  unfolding plan_ensure
  plan_ensure-Planned previous i =
      let next = next_target content_hash previous i snapshot in
      let next_ledger =
        canonical_ledger (record { schema_version = current_version; targets = next ∷ [] }) in
      if_elim (Planned content_hash snapshot tracked previous (some i))
        (ltb max_target_bytes (length i.content)) (λ _. refused i.path target_too_large)
        (λ _.
          if_elim (Planned content_hash snapshot tracked previous (some i))
            (not (is_ok (validate_ledger next_ledger))) (λ _. refused i.path invalid_next_target)
            (λ _. plan_next-Planned previous i (canonical_target next)))
