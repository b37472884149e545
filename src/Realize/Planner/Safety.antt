-- ===== src/Realize/Planner/Safety.antt =====
-- When a plan deletes a file of the project.
use agentic_context_registry.Base.{
  Bool, true, false, List, [], ◌∷◌, Option, some, Bytes, equal, equal_iff, ◌≡◌, ◌≢◌, ◌⊎◌, inl, inr,
  refl, sym, ◌∙◌, ap, In, All, All-In, Bool-cases, ok, arith,
}
use agentic_context_registry.Realize.Model.{shared, Target, Ledger, Intent, Operation, Plan}
use agentic_context_registry.Realize.Ledger.{canonical_ledger}
use agentic_context_registry.Realize.Filesystem.{Disk, FileSnapshot, snapshot_file}
use agentic_context_registry.Realize.Git.{GitContext}
use agentic_context_registry.Realize.Planner.Decide.{Delta, refuse, commit, is_changed}
use agentic_context_registry.Realize.Planner.Remove.{retain}
use agentic_context_registry.Realize.Planner.Run.{Environment, find_intent, find_target, plan}
use agentic_context_registry.Realize.Planner.Spec.{
  Rewrites, steady, written, Planned, absent, unknown, refused, preserved, created, merged,
  shared_rewrite, promoted, refreshed, released, cut_out, deleted,
}
use agentic_context_registry.Realize.Planner.Trace.{Origin, plan-Traced}

pub find_target-In :
    (path : Bytes) (ts : List Target) {t : Target}
    → find_target path ts ≡ some t
    → In t ts × (t.path ≡ path)
unfolding find_target
find_target-In path [] h = absurd (cc h)
find_target-In path (s ∷ ts) {t} h = elim (Bool-cases (equal s.path path)) [
  | inl e ↦
      let same : t ≡ s = ground (arith, h, e) in
      (inl same, ap (λ x. x.path) same ∙ (equal_iff s.path path).0 e)
  | inr e ↦ let (m, p) = find_target-In path ts {t = t} (ground (arith, h, e)) in (inr m, p)
]

pub find_intent-In :
    (path : Bytes) (is : List Intent) {i : Intent} → find_intent path is ≡ some i → In i is
unfolding find_intent
find_intent-In path [] h = absurd (cc h)
find_intent-In path (j ∷ is) {i} h = elim (Bool-cases (equal j.path path)) [
  | inl e ↦ inl (ground (arith, h, e))
  | inr e ↦ inr (find_intent-In path is {i = i} (ground (arith, h, e)))
]

-- The file at the operation's path is one that the ledger lists as wholly generated, exactly as
-- the ledger records it.
pub record IsRecorded (content_hash : Bytes → Bytes) (root : Disk) (targets : List Target)
    (o : Operation) : Type 0 where
  pub target : Target
  pub listed : In target targets
  pub at_path : o.path ≡ target.path
  pub not_shared : target.ownership ≢ shared
  pub snapshot : FileSnapshot
  pub read : snapshot_file content_hash root target.path ≡ ok snapshot
  pub exists : snapshot.exists ≡ true
  pub unchanged : is_changed snapshot target ≡ false

abbrev IsDeletion : Option Target → FileSnapshot → Bool → Operation → Type 0
IsDeletion previous snapshot tracked o =
    (t : Target) × (previous ≡ some t)
    × (t.ownership ≢ shared)
    × (snapshot.exists ≡ true)
    × (is_changed snapshot t ≡ false)
    × (tracked ≡ false)
    × (o.path ≡ t.path)

abbrev Keeps : List Operation → Type 0
Keeps = All (λ o. o.deletes ≡ false)

not_deleted : (o : Operation) (os : List Operation) → Keeps os → In o os → o.deletes ≡ true → ⊥
not_deleted o os k m e = cc (sym (All-In (λ o. o.deletes ≡ false) o os k m) ∙ e)

Rewrites-Keeps :
    {snapshot : FileSnapshot} {t : Target} {i : Intent} {next : Target} {d : Delta}
    → Rewrites snapshot t i next d
    → Keeps d.operations
unfolding commit
Rewrites-Keeps (steady _ _) = tt
Rewrites-Keeps (written kind reason _ _) = (refl, tt)

module _ {content_hash : Bytes → Bytes} {snapshot : FileSnapshot} {tracked : Bool}
    {previous : Option Target} {intent : Option Intent} where
  -- All that `Planned` allows but a deletion leaves the file there.
  Planned-cases :
      {d : Delta}
      → Planned content_hash snapshot tracked previous intent d
      → Keeps d.operations
        ⊎ ((t : Target) × (previous ≡ some t)
            × (t.ownership ≢ shared)
            × (snapshot.exists ≡ true)
            × (is_changed snapshot t ≡ false)
            × (tracked ≡ false)
            × All (λ o. o.path ≡ t.path) d.operations)
  unfolding refuse commit retain
  Planned-cases (deleted t o owned ns there same free k at) =
      inr (t, owned, ns, there, same, free, (at, tt))
  Planned-cases (absent _) = inl tt
  Planned-cases (unknown _ _) = inl tt
  Planned-cases (refused path reason) = inl (refl, tt)
  Planned-cases (preserved o _ f) = inl (f, tt)
  Planned-cases (created i next _ _ _) = inl (refl, tt)
  Planned-cases (merged i next _ _ _ _ _) = inl (refl, tt)
  Planned-cases (shared_rewrite t i next d _ _ _ _ _ _ r) = inl (Rewrites-Keeps r)
  Planned-cases (promoted t i next d _ _ _ _ _ _ r) = inl (Rewrites-Keeps r)
  Planned-cases (refreshed t i next d _ _ _ _ r) = inl (Rewrites-Keeps r)
  Planned-cases (released t reason _ _ _) = inl (refl, tt)
  Planned-cases (cut_out t i reason _ _ _ _ _) = inl (refl, tt)

Origin-IsRecorded :
    {content_hash : Bytes → Bytes} {root : Disk} {git : GitContext} {current : List Target}
    {intents : List Intent} {inspected : List Bytes} {o : Operation}
    → Origin content_hash root git current intents inspected o
    → o.deletes ≡ true
    → IsRecorded content_hash root current o × (git.tracked o.path ≡ false) × In o.path inspected
Origin-IsRecorded {content_hash} {root} {git} {current} {intents} {inspected} {o} origin e =
    elim (Planned-cases origin.decided) [
      | inl k ↦ absurd (not_deleted o origin.delta.operations k origin.member e)
      | inr (t, owned, ns, there, same, free, paths) ↦
          let (listed, at) = find_target-In origin.path current owned in
          let here = All-In (λ o. o.path ≡ t.path) o origin.delta.operations paths origin.member in
          (
            record {
              target = t;
              listed = listed;
              at_path = here;
              not_shared = ns;
              snapshot = origin.snapshot;
              read = rw at origin.read;
              exists = there;
              unchanged = same;
            },
            rw (here ∙ at) free,
            rw (here ∙ at) origin.among,
          )
    ]

-- Whenever a plan is made, a file that it deletes is one that the ledger lists as not shared; the
-- project's disk holds it, with the hash and the permissions that the ledger records; and the Git
-- inspector, asked about it among other paths, answered that it is not tracked.
pub plan-deletes-IsRecorded :
    (env : Environment) (project : Bytes) (ledger : Ledger) (intents : List Intent)
    (retained : List Ledger) {p : Plan}
    → plan env project ledger intents retained ≡ ok p
    → (o : Operation) → In o p.operations
    → o.deletes ≡ true
    → (root : Disk) × (git : GitContext) × (inspected : List Bytes) × (env.open_root project
        ≡ some root)
      × (env.inspect project inspected ≡ ok git)
      × IsRecorded env.content_hash root (canonical_ledger ledger).targets o
      × (git.tracked o.path ≡ false)
      × In o.path inspected
plan-deletes-IsRecorded env project ledger intents retained h o m e =
    elim (plan-Traced env project ledger intents retained h o m) [
      | inl x ↦ absurd (cc (sym x.keeps_file ∙ e))
      | inr s ↦
          let (recorded, free, asked) = Origin-IsRecorded s.origin e in
          (s.root, s.git, s.inspected, s.opened, s.answered, recorded, free, asked)
    ]
