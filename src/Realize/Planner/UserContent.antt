-- ===== src/Realize/Planner/UserContent.antt =====
-- What a plan may do to bytes that acr did not write, what becomes of ownership under a conflict,
-- and how long a shared file stays shared.
use mathlib.Core.Path.{subst}
use agentic_context_registry.Base.{
  Bool, true, false, List, Option, none, some, Bytes, ◌≡◌, ◌⊎◌, inl, inr, refl, sym, ◌∙◌, In, All,
  All-In, ok,
}
use agentic_context_registry.Realize.Model.{
  generated, Target, Ledger, Intent, Operation, op_conflict, op_preserve, Plan,
}
use agentic_context_registry.Realize.Ledger.{canonical_ledger}
use agentic_context_registry.Realize.Filesystem.{Disk, FileSnapshot, snapshot_file}
use agentic_context_registry.Realize.Planner.Decide.{Delta, refuse, commit, kept, is_changed}
use agentic_context_registry.Realize.Planner.Remove.{retain}
use agentic_context_registry.Realize.Planner.Run.{Environment, find_target, plan}
use agentic_context_registry.Realize.Planner.Spec.{
  IsBound, KeepsFile, Rewrites, steady, written, Planned, absent, unknown, refused, preserved,
  created, merged, shared_rewrite, promoted, refreshed, released, cut_out, deleted,
}
use agentic_context_registry.Realize.Planner.Trace.{IsExclusion, plan-Traced}
use agentic_context_registry.Realize.Planner.Safety.{find_intent-In}

-- Bytes that acr did not write: the file is not in the ledger, or it is a generated one that is
-- not as the ledger records it.
abbrev pub HasUserBytes : Option Target → FileSnapshot → Type 0
HasUserBytes none snapshot = snapshot.exists ≡ true
HasUserBytes (some t) snapshot =
    (snapshot.exists ≡ true) × (t.ownership ≡ generated) × (is_changed snapshot t ≡ true)

-- The operation writes the content of an intent that names fragments of the very file that is
-- there, at least one unless the file is empty, and that holds all of them.
pub record WritesMerge (is : List Intent) (snapshot : FileSnapshot) (o : Operation) : Type 0 where
  pub intent : Intent
  pub asked : In intent is
  pub stays : o.deletes ≡ false
  pub writes : o.content ≡ intent.content
  pub bound : IsBound intent snapshot
  pub keeps : KeepsFile intent snapshot

abbrev pub Harmless : List Intent → FileSnapshot → Operation → Type 0
Harmless is snapshot o = (o.kind ≡ op_conflict) ⊎ (o.kind ≡ op_preserve) ⊎ WritesMerge is snapshot o

Rewrites-writes :
    {snapshot : FileSnapshot} {t : Target} {i : Intent} {next : Target} {d : Delta}
    (is : List Intent)
    → Rewrites snapshot t i next d
    → In i is
    → IsBound i snapshot
    → KeepsFile i snapshot
    → All (Harmless is snapshot) d.operations
unfolding commit
Rewrites-writes is (steady _ _) m b k = tt
Rewrites-writes {i = i} is (written kind reason _ _) m b k = (
  inr (inr (record { intent = i; asked = m; stays = refl; writes = refl; bound = b; keeps = k })),
  tt,
)

user_bytes_of :
    {previous : Option Target} (snapshot : FileSnapshot) (t : Target)
    → previous ≡ some t
    → HasUserBytes previous snapshot
    → (t.ownership ≡ generated) × (is_changed snapshot t ≡ true) × (snapshot.exists ≡ true)
user_bytes_of {previous} snapshot t e u =
    let (a, b, c) = subst (λ p. HasUserBytes p snapshot) e u in (b, c, a)

module _ {content_hash : Bytes → Bytes} {snapshot : FileSnapshot} {tracked : Bool}
    {previous : Option Target} {intent : Option Intent} (is : List Intent)
    (asked : (i : Intent) → intent ≡ some i → In i is) where
  Planned-Harmless :
      {d : Delta}
      → HasUserBytes previous snapshot
      → Planned content_hash snapshot tracked previous intent d
      → All (Harmless is snapshot) d.operations
  unfolding refuse commit retain
  Planned-Harmless u (absent _) = tt
  Planned-Harmless u (unknown _ _) = tt
  Planned-Harmless u (refused path reason) = (inl refl, tt)
  Planned-Harmless u (preserved o k _) = (inr (inl k), tt)
  Planned-Harmless u (created i next _ gone _) = absurd (gone_has_none previous gone u)
    where
      gone_has_none : (p : Option Target) → snapshot.exists ≡ false → HasUserBytes p snapshot → ⊥
      gone_has_none none g u = cc (sym g ∙ u)
      gone_has_none (some t) g u = cc (sym g ∙ u.0)
  Planned-Harmless u (merged i next e _ _ b k) = (
    inr (
        inr (record {
          intent = i;
          asked = asked i e;
          stays = refl;
          writes = refl;
          bound = b;
          keeps = k;
        })),
    tt,
  )
  Planned-Harmless u (shared_rewrite t i next d _ owned s _ _ _ _) =
      let (g, _, _) = user_bytes_of snapshot t owned u in absurd (cc (sym g ∙ s))
  Planned-Harmless u (promoted t i next d e _ _ _ b k r) = Rewrites-writes is r (asked i e) b k
  Planned-Harmless u (refreshed t i next d _ owned _ same _) =
      let (g, c, _) = user_bytes_of snapshot t owned u in absurd (cc (sym (same g) ∙ c))
  Planned-Harmless u (released t reason owned same _) =
      let (_, c, _) = user_bytes_of snapshot t owned u in absurd (cc (sym same ∙ c))
  Planned-Harmless u (deleted t o owned _ _ same _ _ _) =
      let (_, c, _) = user_bytes_of snapshot t owned u in absurd (cc (sym same ∙ c))
  Planned-Harmless u (cut_out t i reason e owned b own kept) = (
    inr (
        inr (record {
          intent = i;
          asked = asked i e;
          stays = refl;
          writes = refl;
          bound = b;
          keeps = record {
            own = own;
            some_fragment = λ _. elim kept [
              | inl s ↦ let (g, _, _) = user_bytes_of snapshot t owned u in absurd (cc (sym g ∙ s))
              | inr f ↦ f
            ];
          };
        })),
    tt,
  )

-- Whenever a plan is made, each of its operations either is the exclusion block's, or the file at its
-- path was read from the project's disk. If that file holds bytes that acr did not write (the ledger
-- does not list the path, or lists it as generated and the file is not as recorded), the operation is
-- a conflict, preserves the file, or writes the content of an intent that was observed on this very
-- file, whose fragments stand both in the file and in what is written, one at least unless the file
-- is empty.
pub plan-keeps_user_content :
    (env : Environment) (project : Bytes) (ledger : Ledger) (intents : List Intent)
    (retained : List Ledger) {p : Plan}
    → plan env project ledger intents retained ≡ ok p
    → (o : Operation) → In o p.operations
    → IsExclusion o
      ⊎ ((root : Disk) × (snapshot : FileSnapshot) × (env.open_root project ≡ some root)
          × (snapshot_file env.content_hash root o.path ≡ ok snapshot)
          × (HasUserBytes (find_target o.path (canonical_ledger ledger).targets) snapshot
              → Harmless intents snapshot o))
plan-keeps_user_content env project ledger intents retained h o m =
    elim (plan-Traced env project ledger intents retained h o m) [
      | inl x ↦ inl x
      | inr s ↦
          let harmless : HasUserBytes (find_target s.origin.path (canonical_ledger ledger).targets)
                s.origin.snapshot
              → Harmless intents s.origin.snapshot o =
            λ u.
              All-In (Harmless intents s.origin.snapshot) o s.origin.delta.operations
                (Planned-Harmless intents (λ i e. find_intent-In s.origin.path intents e) u
                  s.origin.decided)
                s.origin.member in
          inr (
            s.root,
            s.origin.snapshot,
            s.opened,
            rw s.origin.here s.origin.read,
            subst
                (λ (path : Bytes).
                  HasUserBytes (find_target path (canonical_ledger ledger).targets)
                    s.origin.snapshot
                  → Harmless intents s.origin.snapshot o)
                (sym s.origin.here) harmless,
          )
    ]
