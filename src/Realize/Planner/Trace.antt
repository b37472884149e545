-- ===== src/Realize/Planner/Trace.antt =====
-- Where an operation of a whole plan comes from: a decision for one path about the file that is
-- there, or the Git exclusion block.
use mathlib.Core.Path.{subst}
use agentic_context_registry.Base.{
  false, not, List, [], ◌∷◌, ◌++◌, Option, none, some, Bytes, equal, ◌≡◌, ◌⊎◌, inl, inr, refl, sym,
  any, map, In, In-append_cases, In-append_left, All, All-In, if_elim, Bool-cases, Result, ok, err,
  >>=-eq-ok, >>-eq-ok, ok-subst, ok-injective, less, sort, sort-In, In-sort,
}
use agentic_context_registry.Realize.Model.{
  Target, Ledger, Intent, Operation, op_merge, op_conflict, Plan, current_version,
}
use agentic_context_registry.Realize.Ledger.{canonical_ledger, validate_ledger}
use agentic_context_registry.Realize.Filesystem.{Disk, FileSnapshot, snapshot_file}
use agentic_context_registry.Realize.Git.{
  GitContext, GitError, git_exclude_path, rewrite_git_exclude,
}
use agentic_context_registry.Realize.Planner.Decide.{Delta}
use agentic_context_registry.Realize.Planner.Run.{
  PlanError, Environment, wrap, or_fail, find_intent, find_target, plan_path, plan_turn, plan_paths,
  finish_plan, plan_git_exclusions, operation_less, plan, snapshot_failed, append, resolve_retained,
  synchronize, exclusion_operation, exclusion_file, project_unavailable, git_failed, check_intents,
  check_retained, excluded_paths, omitted_paths, planned_ledger_invalid, current_ledger_invalid,
}
use agentic_context_registry.Realize.Planner.Spec.{Planned}
use agentic_context_registry.Realize.Planner.Places.{
  At, plan_path-At, find_target-RecordedAt, find_intent-AskedAt,
}
use agentic_context_registry.Realize.Planner.Removal.{plan_path-Planned}

pub wrap-eq-ok : {E F A : Type 0} (f : E → F) (m : Result E A) {a : A} → wrap f m ≡ ok a → m ≡ ok a
wrap-eq-ok f (ok a) h = cc
wrap-eq-ok f (err e) h = cc

pub or_fail-eq-ok : {E A : Type 0} (e : E) (o : Option A) {a : A} → or_fail e o ≡ ok a → o ≡ some a
or_fail-eq-ok e none h = cc
or_fail-eq-ok e (some a) h = cc

-- The decision that an operation belongs to.
pub record Origin (content_hash : Bytes → Bytes) (disk : Disk) (git : GitContext)
    (current : List Target) (intents : List Intent) (paths : List Bytes) (o : Operation)
    : Type 0 where
  pub path : Bytes
  pub among : In path paths
  pub snapshot : FileSnapshot
  pub delta : Delta
  pub read : snapshot_file content_hash disk path ≡ ok snapshot
  pub decided :
      Planned content_hash snapshot
        (git.tracked path)
        (find_target path current)
        (find_intent path intents)
        delta
  pub member : In o delta.operations
  pub here : o.path ≡ path

module _ (content_hash : Bytes → Bytes) (disk : Disk) (git : GitContext) (current : List Target)
    (intents : List Intent) where
  -- The same decision, looked for among other paths.
  Origin-among :
      (o : Operation) (paths others : List Bytes)
      (origin : Origin content_hash disk git current intents paths o)
      → In origin.path others
      → Origin content_hash disk git current intents others o
  Origin-among o paths others origin m = record {
    path = origin.path;
    among = m;
    snapshot = origin.snapshot;
    delta = origin.delta;
    read = origin.read;
    decided = origin.decided;
    member = origin.member;
    here = origin.here;
  }

  plan_turn-inv :
      (path : Bytes) (rest : Result PlanError Delta) {d : Delta}
      → plan_turn content_hash disk git current intents path rest ≡ ok d
      → (snapshot : FileSnapshot) × (delta : Delta) × (later : Delta) × (snapshot_file content_hash
            disk path
          ≡ ok snapshot)
        × Planned content_hash snapshot
            (git.tracked path)
            (find_target path current)
            (find_intent path intents)
            delta
        × (rest ≡ ok later)
        × (append delta later ≡ d)
        × At path delta
  unfolding plan_turn
  plan_turn-inv path rest h =
      let (snapshot, s, h1) =
        >>=-eq-ok (wrap snapshot_failed (snapshot_file content_hash disk path)) _ h in
      let (delta, e, h2) =
        >>=-eq-ok
          (plan_path content_hash (find_target path current) (find_intent path intents) snapshot
            (git.tracked path))
          _ h1 in
      let (later, r, h3) = >>=-eq-ok rest _ h2 in
      (
        snapshot,
        delta,
        later,
        wrap-eq-ok snapshot_failed _ s,
        plan_path-Planned content_hash snapshot (git.tracked path) _ _ e,
        r,
        ok-injective h3,
        plan_path-At path content_hash snapshot (find_target path current)
            (find_intent path intents) (git.tracked path) (find_target-RecordedAt path current)
            (find_intent-AskedAt path intents) e,
      )

  plan_paths-Origin :
      (o : Operation) (seen paths : List Bytes) {d : Delta}
      → plan_paths content_hash disk git current intents seen paths ≡ ok d
      → In o d.operations
      → Origin content_hash disk git current intents paths o
  unfolding plan_paths
  plan_paths-Origin o seen [] h m = absurd (ok-subst (λ d. In o d.operations → ⊥) h (λ k. k) m)
  plan_paths-Origin o seen (path ∷ paths) {d} h m = elim (Bool-cases (any (equal path) seen)) [
    | inl e ↦
        let r = plan_paths-Origin o seen paths (rw (e, plan_paths) at h) m in
        Origin-among o paths (path ∷ paths) r (inr r.among)
    | inr e ↦
        let (snapshot, delta, later, read, decided, r, s, (here, _)) =
          plan_turn-inv path _ (rw (e, plan_paths) at h) in
        elim (In-append_cases o delta.operations later.operations
          (subst (λ d. In o d.operations) (sym s) m)) [
            | inl k ↦ record {
              path = path;
              among = inl refl;
              snapshot = snapshot;
              delta = delta;
              read = read;
              decided = decided;
              member = k;
              here = All-In (λ (q : Operation). q.path ≡ path) o delta.operations here k;
            }
            | inr k ↦
                let origin = plan_paths-Origin o (path ∷ seen) paths r k in
                Origin-among o paths (path ∷ paths) origin (inr origin.among)
          ]
  ]

  -- Every target that is handed on is of one of the paths.
  pub plan_paths-Among :
      (seen paths : List Bytes) {d : Delta}
      → plan_paths content_hash disk git current intents seen paths ≡ ok d
      → (t : Target) → In t d.targets
      → In t.path paths
  unfolding plan_paths
  plan_paths-Among seen [] h t m = absurd (ok-subst (λ d. In t d.targets → ⊥) h (λ k. k) m)
  plan_paths-Among seen (path ∷ paths) {d} h t m = elim (Bool-cases (any (equal path) seen)) [
    | inl e ↦ inr (plan_paths-Among seen paths (rw (e, plan_paths) at h) t m)
    | inr e ↦
        let (snapshot, delta, later, read, decided, r, s, (_, here)) =
          plan_turn-inv path _ (rw (e, plan_paths) at h) in
        elim (In-append_cases t delta.targets later.targets
          (subst (λ d. In t d.targets) (sym s) m)) [
            | inl k ↦ inl (All-In (λ (u : Target). u.path ≡ path) t delta.targets here k)
            | inr k ↦ inr (plan_paths-Among (path ∷ seen) paths r t k)
          ]
  ]

-- The exclusion block, or the refusal to touch it.
pub record IsExclusion (o : Operation) : Type 0 where
  pub at_block : o.path ≡ git_exclude_path
  pub keeps_file : o.deletes ≡ false
  pub kind_is : (o.kind ≡ op_merge) ⊎ (o.kind ≡ op_conflict)

synchronize-IsExclusion :
    (env : Environment) (git : GitContext) (snapshot : FileSnapshot) (r : Result GitError Bytes)
    → All IsExclusion (synchronize env git snapshot r)
unfolding synchronize exclusion_operation
synchronize-IsExclusion env git snapshot (err e) =
    (record { at_block = refl; keeps_file = refl; kind_is = inr refl }, tt)
synchronize-IsExclusion env git snapshot (ok updated) =
    if_elim (All IsExclusion) (equal snapshot.content updated) (λ _. tt)
      (λ _. (record { at_block = refl; keeps_file = refl; kind_is = inl refl }, tt))

plan_git_exclusions-IsExclusion :
    (env : Environment) (root : Disk) (git : GitContext) (targets retained : List Target)
    {d : Delta}
    → plan_git_exclusions env root git targets retained ≡ ok d
    → All IsExclusion d.operations
unfolding plan_git_exclusions
plan_git_exclusions-IsExclusion env root git targets retained h =
    elim (Bool-cases (not git.enabled)) [
      | inl e ↦ ok-subst (λ d. All IsExclusion d.operations) (rw (e, plan_git_exclusions) at h) tt
      | inr e ↦
          let k = rw (e, plan_git_exclusions) at h in
          let (file, _, h1) = >>=-eq-ok (exclusion_file env root git) _ k in
          let (snapshot, _, h2) =
            >>=-eq-ok (wrap snapshot_failed (snapshot_file env.content_hash file.0 file.1)) _ h1 in
          ok-subst (λ d. All IsExclusion d.operations) h2
            (synchronize-IsExclusion env git snapshot (
              rewrite_git_exclude snapshot.content
                (excluded_paths git targets ++ excluded_paths git retained)))
    ]

-- Every operation of a plan is the exclusion block's, or belongs to a decision for one path.
pub record Decided (env : Environment) (project : Bytes) (current : List Target)
    (intents : List Intent) (o : Operation) : Type 0 where
  pub root : Disk
  pub git : GitContext
  pub inspected : List Bytes
  pub opened : env.open_root project ≡ some root
  pub answered : env.inspect project inspected ≡ ok git
  pub origin : Origin env.content_hash root git current intents inspected o

abbrev pub Traced : Environment → Bytes → Ledger → List Intent → Operation → Type 0
Traced env project ledger intents o =
    IsExclusion o ⊎ Decided env project (canonical_ledger ledger).targets intents o

finish_plan-In :
    (env : Environment) (root : Disk) (git : GitContext) (current retained : Ledger)
    (planned : Delta) {p : Plan} (o : Operation)
    → finish_plan env root git current retained planned ≡ ok p
    → In o p.operations
    → IsExclusion o ⊎ In o planned.operations
unfolding finish_plan
finish_plan-In env root git current retained planned o h m =
    let before =
      canonical_ledger (record { schema_version = current_version; targets = planned.targets }) in
    let (exclusions, e, h1) =
      >>=-eq-ok (plan_git_exclusions env root git before.targets retained.targets) _ h in
    let next = canonical_ledger (record before { targets = exclusions.targets }) in
    let (_, h2) = >>-eq-ok (wrap planned_ledger_invalid (validate_ledger next)) _ h1 in
    let both = planned.operations ++ exclusions.operations in
    let k =
      sort-In operation_less o both (subst (λ p. In o p.operations) (sym (ok-injective h2)) m) in
    elim (In-append_cases o planned.operations exclusions.operations k) [
      | inl j ↦ inr j
      | inr j ↦ inl (
          All-In IsExclusion o exclusions.operations
            (plan_git_exclusions-IsExclusion env root git before.targets retained.targets e) j)
    ]

pub plan-Traced :
    (env : Environment) (project : Bytes) (ledger : Ledger) (intents : List Intent)
    (retained : List Ledger) {p : Plan}
    → plan env project ledger intents retained ≡ ok p
    → (o : Operation) → In o p.operations
    → Traced env project ledger intents o
unfolding plan
plan-Traced env project ledger intents retained h o m =
    let current = canonical_ledger ledger in
    let (_, h1) = >>-eq-ok (wrap current_ledger_invalid (validate_ledger current)) _ h in
    let (kept, _, h2) = >>=-eq-ok (resolve_retained retained) _ h1 in
    let (root, opened, h3) = >>=-eq-ok (or_fail project_unavailable (env.open_root project)) _ h2 in
    let (_, h4) = >>-eq-ok (check_intents [] intents) _ h3 in
    let (_, h5) = >>-eq-ok (check_retained intents current.targets kept.targets) _ h4 in
    let paths = sort less (map (λ i. i.path) intents ++ omitted_paths intents current.targets) in
    let inspected = sort less (paths ++ map (λ t. t.path) kept.targets) in
    let (git, answer, h6) = >>=-eq-ok (wrap git_failed (env.inspect project inspected)) _ h5 in
    let (planned, r, h7) =
      >>=-eq-ok (plan_paths env.content_hash root git current.targets intents [] paths) _ h6 in
    elim (finish_plan-In env root git current kept planned o h7 m) [
      | inl x ↦ inl x
      | inr k ↦
          let origin =
            plan_paths-Origin env.content_hash root git current.targets intents o [] paths r k in
          inr (record {
            root = root;
            git = git;
            inspected = inspected;
            opened = or_fail-eq-ok project_unavailable (env.open_root project) opened;
            answered = wrap-eq-ok git_failed (env.inspect project inspected) answer;
            origin =
                Origin-among env.content_hash root git current.targets intents o paths inspected
                  origin
                  (In-sort less origin.path (paths ++ map (λ t. t.path) kept.targets) (
                    In-append_left origin.path paths (map (λ t. t.path) kept.targets)
                      origin.among));
          })
    ]
