-- ===== src/Realize/Planner/Ownership.antt =====
-- What becomes of ownership: a conflict keeps it, and a shared file stays shared.
use agentic_context_registry.Base.{
  Bool, true, [], ◌∷◌, Option, some, Bytes, ◌≡◌, ◌≢◌, ◌⊎◌, inl, inr, refl, sym, ◌∙◌, ap, In, All,
  All-In, ok,
}
use agentic_context_registry.Realize.Model.{
  generated, shared, Target, Intent, Operation, op_conflict,
}
use agentic_context_registry.Realize.Filesystem.{FileSnapshot}
use agentic_context_registry.Realize.Planner.Decide.{Delta, refuse, commit, kept}
use agentic_context_registry.Realize.Planner.Remove.{retain}
use agentic_context_registry.Realize.Planner.Run.{plan_path}
use agentic_context_registry.Realize.Planner.Spec.{
  Rewrites, steady, written, Planned, absent, unknown, refused, preserved, created, merged,
  shared_rewrite, promoted, refreshed, released, cut_out, deleted,
}
use agentic_context_registry.Realize.Planner.Removal.{plan_path-Planned}

Rewrites-next :
    {snapshot : FileSnapshot} {t : Target} {i : Intent} {next : Target} {d : Delta}
    → Rewrites snapshot t i next d
    → (d.targets ≡ next ∷ []) × All (λ o. o.kind ≢ op_conflict) d.operations
unfolding commit
Rewrites-next (steady _ _) = (refl, tt)
Rewrites-next (written kind reason ne _) = (refl, (ne, tt))

-- A decision that holds a conflict keeps what the ledger has.
abbrev KeepsOnConflict : Option Target → Delta → Type 0
KeepsOnConflict previous d =
    All (λ o. o.kind ≢ op_conflict) d.operations ⊎ (d.targets ≡ kept previous)

module _ {content_hash : Bytes → Bytes} {snapshot : FileSnapshot} {tracked : Bool}
    {previous : Option Target} {intent : Option Intent} where
  Planned-KeepsOnConflict :
      {d : Delta}
      → Planned content_hash snapshot tracked previous intent d
      → KeepsOnConflict previous d
  unfolding refuse commit retain
  Planned-KeepsOnConflict (absent _) = inl tt
  Planned-KeepsOnConflict (unknown _ _) = inl tt
  Planned-KeepsOnConflict (refused path reason) = inr refl
  Planned-KeepsOnConflict (preserved o _ _) = inr refl
  Planned-KeepsOnConflict (created i next _ _ _) = inl (λ e. cc, tt)
  Planned-KeepsOnConflict (merged i next _ _ _ _ _) = inl (λ e. cc, tt)
  Planned-KeepsOnConflict (shared_rewrite t i next d _ _ _ _ _ _ r) = inl (Rewrites-next r).1
  Planned-KeepsOnConflict (promoted t i next d _ _ _ _ _ _ r) = inl (Rewrites-next r).1
  Planned-KeepsOnConflict (refreshed t i next d _ _ _ _ r) = inl (Rewrites-next r).1
  Planned-KeepsOnConflict (released t reason _ _ _) = inl (λ e. cc, tt)
  Planned-KeepsOnConflict (cut_out t i reason _ _ _ _ _) = inl (λ e. cc, tt)
  Planned-KeepsOnConflict (deleted t o _ _ _ _ _ k _) = inl (λ e. cc, tt)

-- Whatever the planner decides for a path whose target the ledger lists: if an operation of the
-- decision is a conflict, the next ledger gets exactly the target as it was.
pub plan_path-keeps_on_conflict :
    (content_hash : Bytes → Bytes) (t : Target) (intent : Option Intent) (snapshot : FileSnapshot)
    (tracked : Bool) {d : Delta}
    → plan_path content_hash (some t) intent snapshot tracked ≡ ok d
    → (o : Operation) → In o d.operations
    → o.kind ≡ op_conflict
    → d.targets ≡ t ∷ []
plan_path-keeps_on_conflict content_hash t intent snapshot tracked {d} h o m k =
    elim (Planned-KeepsOnConflict
      (plan_path-Planned content_hash snapshot tracked (some t) intent h)) [
        | inl free ↦ absurd (All-In (λ o. o.kind ≢ op_conflict) o d.operations free m k)
        | inr e ↦ e
      ]

abbrev pub DemotedOnRequest : Option Intent → Type 0
DemotedOnRequest intent =
    (i : Intent) × (intent ≡ some i)
    × (i.explicit_demotion ≡ true)
    × ((f : Bytes) → In f i.preserved_content → f ≡ [])

abbrev pub StaysShared : Option Intent → Delta → Type 0
StaysShared intent d = All (λ next. next.ownership ≡ generated → DemotedOnRequest intent) d.targets

module _ {content_hash : Bytes → Bytes} {snapshot : FileSnapshot} {tracked : Bool} {t : Target}
    {intent : Option Intent} (s : t.ownership ≡ shared) where
  Planned-StaysShared :
      {d : Delta}
      → snapshot.exists ≡ true
      → Planned content_hash snapshot tracked (some t) intent d
      → StaysShared intent d
  unfolding refuse commit retain
  Planned-StaysShared there (absent _) = tt
  Planned-StaysShared there (unknown _ _) = tt
  Planned-StaysShared there (refused path reason) = (λ g. absurd (cc (sym s ∙ g)), tt)
  Planned-StaysShared there (preserved o _ _) = (λ g. absurd (cc (sym s ∙ g)), tt)
  Planned-StaysShared there (created i next _ gone _) = absurd (cc (sym there ∙ gone))
  Planned-StaysShared there (merged i next _ e _ _ _) = absurd (cc e)
  Planned-StaysShared there (shared_rewrite t' i next d e _ _ _ _ demotes r) =
      rw (Rewrites-next r).0 (λ g. let (x, y) = demotes g in (i, e, x, y), tt)
  Planned-StaysShared there (promoted t' i next d _ owned g _ _ _ r) =
      let same : t ≡ t' = cc in absurd (cc (sym s ∙ ap (λ x. x.ownership) same ∙ g))
  Planned-StaysShared there (refreshed t' i next d _ owned ns _ r) =
      let same : t ≡ t' = cc in absurd (ns (sym (ap (λ x. x.ownership) same) ∙ s))
  Planned-StaysShared there (released t' reason _ _ _) = tt
  Planned-StaysShared there (cut_out t' i reason _ _ _ _ _) = tt
  Planned-StaysShared there (deleted t' o _ _ _ _ _ _ _) = tt

-- Whatever the planner decides for a path whose target the ledger lists as shared, while its file is
-- there: if the next ledger lists the path as generated, then an intent asked for the demotion
-- explicitly, and names no fragment that is not empty.
pub plan_path-stays_shared :
    (content_hash : Bytes → Bytes) (t : Target) (intent : Option Intent) (snapshot : FileSnapshot)
    (tracked : Bool) {d : Delta}
    → t.ownership ≡ shared
    → snapshot.exists ≡ true
    → plan_path content_hash (some t) intent snapshot tracked ≡ ok d
    → (next : Target) → In next d.targets
    → next.ownership ≡ generated
    → DemotedOnRequest intent
plan_path-stays_shared content_hash t intent snapshot tracked {d} s there h next m =
    All-In (λ next. next.ownership ≡ generated → DemotedOnRequest intent) next d.targets
      (Planned-StaysShared s there
        (plan_path-Planned content_hash snapshot tracked (some t) intent h))
      m
