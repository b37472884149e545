-- ===== src/Realize/Planner/Steady.antt =====
-- internal/realize/planner.go: when planEnsure leaves a generated target alone.
use agentic_context_registry.Base.{
  true, false, not, ◌&&◌, [], ◌∷◌, Option, none, some, Bytes, equal, equal_refl, equal_iff, ==_refl,
  ◌==◌, ◌≡◌, refl, sym, ap, ◌∙◌, is_ok, is_yes, if_false, if_elim, is_yes_refl, is_yes-eq-true, ltb,
  length, arith, Option-cases, inl, inr, &&-eq-true, not-eq-false,
}
use agentic_context_registry.Realize.Model.{
  generated, shared, Target, Intent, Reason, current_version, same_ownership, Target-discrete,
  target_too_large, invalid_next_target, missing_shared_target,
}
use agentic_context_registry.Realize.Ledger.{canonical_ledger, canonical_target, validate_ledger}
use agentic_context_registry.Realize.Filesystem.{FileSnapshot, max_target_bytes}
use agentic_context_registry.Realize.Planner.Decide.{
  Delta, plan_ensure, plan_next, plan_missing, plan_owned, next_target, owned_refusal, is_changed,
  refuse, commit,
}

-- The file of an owned target holds the intent's content with the recorded permissions, and the
-- ledger records already what the intent would have it record, which is small enough and valid.
pub record IsSteady (content_hash : Bytes → Bytes) (t : Target) (i : Intent)
    (snapshot : FileSnapshot) : Type 0 where
  pub small : ltb max_target_bytes (length i.content) ≡ false
  pub valid :
      is_ok (
        validate_ledger (
          canonical_ledger (record {
            schema_version = current_version;
            targets = next_target content_hash (some t) i snapshot ∷ [];
          })))
      ≡ true
  pub recorded : canonical_target (next_target content_hash (some t) i snapshot) ≡ t
  pub there : snapshot.exists ≡ true
  pub holds : snapshot.hash ≡ content_hash i.content
  pub mode : snapshot.mode_bits ≡ t.mode_bits

unchanged_as_recorded :
    (t : Target) (snapshot : FileSnapshot)
    → snapshot.hash ≡ t.output_hash
    → snapshot.mode_bits ≡ t.mode_bits
    → is_changed snapshot t ≡ false
unfolding is_changed
unchanged_as_recorded t snapshot hash mode =
    rw (hash, mode) (ground (arith, equal_refl t.output_hash))

owned_refusal_steady :
    (t : Target) (i : Intent) (snapshot : FileSnapshot)
    → t.ownership ≡ generated
    → is_changed snapshot t ≡ false
    → owned_refusal t i snapshot t ≡ none
unfolding owned_refusal same_ownership
owned_refusal_steady t i snapshot own same =
    let unshared : same_ownership t.ownership shared ≡ false =
      ap (λ o. same_ownership o shared) own in
    let off = same_ownership t.ownership generated && is_changed snapshot t in
    let unchanged : off ≡ false = ground (arith, same) in
    if_false (same_ownership t.ownership shared) _ _ unshared ∙ if_false off _ _ unchanged

plan_owned_steady :
    (t : Target) (i : Intent) (snapshot : FileSnapshot)
    → t.ownership ≡ generated
    → snapshot.hash ≡ t.output_hash
    → snapshot.mode_bits ≡ t.mode_bits
    → plan_owned t i snapshot t ≡ record { targets = t ∷ []; operations = [] }
unfolding plan_owned
plan_owned_steady t i snapshot own hash mode =
    rw
      (
        owned_refusal_steady t i snapshot own (unchanged_as_recorded t snapshot hash mode),
        plan_owned,
      )
      (rw (hash, equal_refl, mode, ==_refl, is_yes_refl (Target-discrete t t) refl) refl)

plan_ensure_unchanged :
    (content_hash : Bytes → Bytes) (t : Target) (i : Intent) (snapshot : FileSnapshot)
    → t.ownership ≡ generated
    → IsSteady content_hash t i snapshot
    → plan_ensure content_hash (some t) i snapshot ≡ record { targets = t ∷ []; operations = [] }
unfolding plan_ensure plan_next next_target canonical_target
plan_ensure_unchanged content_hash t i snapshot own s =
    let next = next_target content_hash (some t) i snapshot in
    let entry =
      canonical_ledger (record { schema_version = current_version; targets = next ∷ [] }) in
    let hash : content_hash i.content ≡ t.output_hash =
      ap (λ (u : Target). u.output_hash) s.recorded in
    if_false (ltb max_target_bytes (length i.content)) _ _ s.small
    ∙ if_false (not (is_ok (validate_ledger entry))) _ _ (ap not s.valid)
    ∙ if_false (not snapshot.exists) _ _ (ap not s.there)
    ∙ ap (plan_owned t i snapshot) s.recorded
    ∙ plan_owned_steady t i snapshot own (s.holds ∙ hash) s.mode

-- There is nothing to do.
abbrev IsIdle : Delta → Type 0
IsIdle d = d.operations ≡ []

refuse_busy :
    (path : Bytes) (previous : Option Target) (reason : Reason)
    → IsIdle (refuse path previous reason)
    → ⊥
unfolding refuse
refuse_busy path previous reason h = cc

plan_missing_busy :
    (previous : Option Target) (i : Intent) (snapshot : FileSnapshot) (next : Target)
    → IsIdle (plan_missing previous i snapshot next)
    → ⊥
unfolding plan_missing commit
plan_missing_busy previous i snapshot next =
    if_elim (λ d. IsIdle d → ⊥) (same_ownership next.ownership shared)
      (λ _. refuse_busy i.path previous missing_shared_target) (λ _ h. cc)

plan_owned_idle :
    (t : Target) (i : Intent) (snapshot : FileSnapshot) (next : Target)
    → IsIdle (plan_owned t i snapshot next)
    → (snapshot.hash ≡ next.output_hash) × (snapshot.mode_bits ≡ next.mode_bits) × (t ≡ next)
unfolding plan_owned commit
plan_owned_idle t i snapshot next h = elim (Option-cases (owned_refusal t i snapshot next)) [
  | inr (reason, e) ↦ absurd (refuse_busy i.path (some t) reason (rw (plan_owned, e) at h))
  | inl e ↦
      let hashes = equal snapshot.hash next.output_hash in
      let modes = snapshot.mode_bits == next.mode_bits in
      if_elim
        (λ d.
          IsIdle d
          → (snapshot.hash ≡ next.output_hash) × (snapshot.mode_bits ≡ next.mode_bits) × (t ≡ next))
        (hashes && modes && is_yes (Target-discrete t next))
        (λ c _.
          let (both, same) = &&-eq-true (hashes && modes) (is_yes (Target-discrete t next)) c in
          let (hash, mode) = &&-eq-true hashes modes both in
          (
            (equal_iff snapshot.hash next.output_hash).0 hash,
            ground (arith, mode),
            is_yes-eq-true (Target-discrete t next) same,
          ))
        (λ _ k. absurd (cc k)) (rw (plan_owned, e) at h)
]

plan_ensure_idle :
    (content_hash : Bytes → Bytes) (t : Target) (i : Intent) (snapshot : FileSnapshot)
    → IsIdle (plan_ensure content_hash (some t) i snapshot)
    → IsSteady content_hash t i snapshot
unfolding plan_ensure plan_next next_target canonical_target
plan_ensure_idle content_hash t i snapshot =
    let next = next_target content_hash (some t) i snapshot in
    let entry =
      canonical_ledger (record { schema_version = current_version; targets = next ∷ [] }) in
    let Goal = λ (d : Delta). IsIdle d → IsSteady content_hash t i snapshot in
    if_elim Goal (ltb max_target_bytes (length i.content))
      (λ _ h. absurd (refuse_busy i.path (some t) target_too_large h))
      (λ small.
        if_elim Goal (not (is_ok (validate_ledger entry)))
          (λ _ h. absurd (refuse_busy i.path (some t) invalid_next_target h))
          (λ valid.
            if_elim Goal (not snapshot.exists)
              (λ _ h. absurd (plan_missing_busy (some t) i snapshot (canonical_target next) h))
              (λ there h.
                let (hash, mode, same) = plan_owned_idle t i snapshot (canonical_target next) h in
                record {
                  small = small;
                  valid = not-eq-false _ valid;
                  recorded = sym same;
                  there = not-eq-false snapshot.exists there;
                  holds = hash;
                  mode = mode ∙ ap (λ (u : Target). u.mode_bits) (sym same);
                })))

pub plan_ensure-IsSteady_iff :
    (content_hash : Bytes → Bytes) (t : Target) (i : Intent) (snapshot : FileSnapshot)
    → t.ownership ≡ generated
    → ((plan_ensure content_hash (some t) i snapshot).operations ≡ []
        → IsSteady content_hash t i snapshot)
      × (IsSteady content_hash t i snapshot
          → plan_ensure content_hash (some t) i snapshot
            ≡ record { targets = t ∷ []; operations = [] })
plan_ensure-IsSteady_iff content_hash t i snapshot own = (
  plan_ensure_idle content_hash t i snapshot,
  plan_ensure_unchanged content_hash t i snapshot own,
)
