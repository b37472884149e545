-- ===== src/Realize/Planner/NextLedger.antt =====
-- The ledger that a plan hands on, and the plan of a project that is as it should be.
use mathlib.Core.Path.{subst}
use agentic_context_registry.Base.{
  ℕ, Bool, false, not, ◌&&◌, List, [], ◌∷◌, ◌++◌, Bytes, ◌≡◌, refl, sym, ap, ◌∙◌, map, In, ok,
  >>=-eq-ok, >>-eq-ok, ok-injective, ok-subst, is_yes, is_yes_refl, is_yes-eq-true, not-eq-false,
  less, sort, sort-In, In-sort, In-append_left, Bool-cases, inl, inr,
}
use agentic_context_registry.Realize.Model.{
  generated, Target, Ledger, Intent, Plan, current_version, same_ownership, Ledger-discrete,
}
use agentic_context_registry.Realize.Ledger.{
  canonical_ledger, canonical_target, validate_ledger, target_less,
}
use agentic_context_registry.Realize.Ledger.Valid.{IsValidLedger, validate_ledger-IsValidLedger}
use agentic_context_registry.Realize.Ledger.Sorted.{canonical_ledger_idem}
use agentic_context_registry.Realize.Filesystem.{Disk, snapshot_file}
use agentic_context_registry.Realize.Git.{GitContext}
use agentic_context_registry.Realize.Planner.Decide.{Delta}
use agentic_context_registry.Realize.Planner.Run.{
  Environment, wrap, or_fail, resolve_retained, check_intents, check_retained, omitted_paths,
  plan_paths, is_excluded, set_excluded, exclusion_file, plan_git_exclusions, finish_plan, plan,
  current_ledger_invalid, planned_ledger_invalid, project_unavailable, git_failed, snapshot_failed,
}
use agentic_context_registry.Realize.Planner.Trace.{wrap-eq-ok, plan_paths-Among}

plan_git_exclusions-targets :
    (env : Environment) (root : Disk) (git : GitContext) (targets retained : List Target)
    {d : Delta}
    → plan_git_exclusions env root git targets retained ≡ ok d
    → d.targets ≡ map (set_excluded git) targets
unfolding plan_git_exclusions
plan_git_exclusions-targets env root git targets retained h = elim (Bool-cases (not git.enabled)) [
  | inl e ↦ sym (ap (λ d. d.targets) (ok-injective (rw (e, plan_git_exclusions) at h)))
  | inr e ↦
      let k = rw (e, plan_git_exclusions) at h in
      let (file, _, h1) = >>=-eq-ok (exclusion_file env root git) _ k in
      let (snapshot, _, h2) =
        >>=-eq-ok (wrap snapshot_failed (snapshot_file env.content_hash file.0 file.1)) _ h1 in
      sym (ap (λ d. d.targets) (ok-injective h2))
]

-- Each target of a canonical ledger whose flags were set carries the flag of its own path.
abbrev Flagged : GitContext → Target → Type 0
Flagged git t =
    t.excluded ≡ (git.enabled && (same_ownership t.ownership generated && not (git.tracked t.path)))

Flagged-map :
    (git : GitContext) (ts : List Target) (t : Target)
    → In t (map canonical_target (map (set_excluded git) ts))
    → Flagged git t
unfolding canonical_target set_excluded is_excluded
Flagged-map git [] t m = absurd m
Flagged-map git (s ∷ ts) t (inl e) = rw e refl
Flagged-map git (s ∷ ts) t (inr m) = Flagged-map git ts t m

canonical-Flagged :
    (git : GitContext) (v : ℕ) (ts : List Target) (t : Target)
    → In t
        (canonical_ledger
          (record { schema_version = v; targets = map (set_excluded git) ts })).targets
    → Flagged git t
unfolding canonical_ledger
canonical-Flagged git v ts t m =
    Flagged-map git ts t
      (sort-In target_less t (map canonical_target (map (set_excluded git) ts)) m)

-- What a plan promises of the ledger that it hands on.
pub record IsSound (env : Environment) (project : Bytes) (ledger : Ledger) (p : Plan) : Type 0 where
  pub valid : IsValidLedger p.next_ledger
  pub canonical : canonical_ledger p.next_ledger ≡ p.next_ledger
  pub git : GitContext
  pub inspected : List Bytes
  pub answered : env.inspect project inspected ≡ ok git
  pub asked : (t : Target) → In t p.next_ledger.targets → In t.path inspected
  pub flags :
      (t : Target)
      → In t p.next_ledger.targets
      → t.excluded
        ≡ (git.enabled && (same_ownership t.ownership generated && not (git.tracked t.path)))
  pub changed_iff :
      (p.ledger_changed ≡ false → p.next_ledger ≡ canonical_ledger ledger)
      × (p.next_ledger ≡ canonical_ledger ledger → p.ledger_changed ≡ false)

-- Flags and the canonical form leave the paths of the targets as they are.
In-flagged_path :
    (git : GitContext) (ts : List Target) (t : Target)
    → In t (map canonical_target (map (set_excluded git) ts))
    → (s : Target) × In s ts × (t.path ≡ s.path)
unfolding canonical_target set_excluded
In-flagged_path git [] t m = absurd m
In-flagged_path git (s ∷ ts) t (inl e) = (s, inl refl, rw e refl)
In-flagged_path git (s ∷ ts) t (inr m) = let (u, k, e) = In-flagged_path git ts t m in (u, inr k, e)

In-canonical_path :
    (ts : List Target) (t : Target)
    → In t (map canonical_target ts)
    → (s : Target) × In s ts × (t.path ≡ s.path)
unfolding canonical_target
In-canonical_path [] t m = absurd m
In-canonical_path (s ∷ ts) t (inl e) = (s, inl refl, rw e refl)
In-canonical_path (s ∷ ts) t (inr m) = let (u, k, e) = In-canonical_path ts t m in (u, inr k, e)

In-finished_path :
    (git : GitContext) (v : ℕ) (ts : List Target) (t : Target)
    → In t
        (canonical_ledger (record {
          schema_version = v;
          targets =
              map
                (set_excluded git)
                (canonical_ledger
                  (record { schema_version = current_version; targets = ts })).targets;
        })).targets
    → (s : Target) × In s ts × (t.path ≡ s.path)
unfolding canonical_ledger
In-finished_path git v ts t m =
    let sorted = sort target_less (map canonical_target ts) in
    let (u, k, e) =
      In-flagged_path git sorted t
        (sort-In target_less t (map canonical_target (map (set_excluded git) sorted)) m) in
    let (s, n, f) = In-canonical_path ts u (sort-In target_less u (map canonical_target ts) k) in
    (s, n, e ∙ f)

record IsFinished (git : GitContext) (current : Ledger) (planned_targets : List Target) (p : Plan)
    : Type 0 where
  version : ℕ
  planned : List Target
  flagged :
      p.next_ledger
      ≡ canonical_ledger
          (record { schema_version = version; targets = map (set_excluded git) planned })
  planned_from :
      planned
      ≡ (canonical_ledger
          (record { schema_version = current_version; targets = planned_targets })).targets
  accepted : validate_ledger p.next_ledger ≡ ok tt
  compared : p.ledger_changed ≡ not (is_yes (Ledger-discrete current p.next_ledger))

finish_plan-IsFinished :
    (env : Environment) (root : Disk) (git : GitContext) (current retained : Ledger)
    (planned : Delta) {p : Plan}
    → finish_plan env root git current retained planned ≡ ok p
    → IsFinished git current planned.targets p
unfolding finish_plan
finish_plan-IsFinished env root git current retained planned h =
    let before =
      canonical_ledger (record { schema_version = current_version; targets = planned.targets }) in
    let (exclusions, e, h1) =
      >>=-eq-ok (plan_git_exclusions env root git before.targets retained.targets) _ h in
    let next = canonical_ledger (record before { targets = exclusions.targets }) in
    let (accepted, h2) = >>-eq-ok (wrap planned_ledger_invalid (validate_ledger next)) _ h1 in
    let flags = plan_git_exclusions-targets env root git before.targets retained.targets e in
    ok-subst (IsFinished git current planned.targets) h2 (record {
      version = before.schema_version;
      planned = before.targets;
      flagged =
          ap
            (λ ts.
              canonical_ledger (record { schema_version = before.schema_version; targets = ts }))
            flags;
      planned_from = refl;
      accepted = wrap-eq-ok planned_ledger_invalid (validate_ledger next) accepted;
      compared = refl;
    })

IsFinished-changed :
    (current next : Ledger) (b : Bool)
    → b ≡ not (is_yes (Ledger-discrete current next))
    → (b ≡ false → next ≡ current) × (next ≡ current → b ≡ false)
IsFinished-changed current next b e = (
  λ f. sym (is_yes-eq-true (Ledger-discrete current next) (not-eq-false _ (sym e ∙ f))),
  λ same. e ∙ ap not (is_yes_refl (Ledger-discrete current next) (sym same)),
)

-- Whenever a plan is made, the ledger that it hands on is valid and canonical; the Git inspector was
-- asked about the path of each of its targets, among others, and each is marked as excluded from Git
-- exactly if that answer says that Git is in use, the target is generated, and the answer says that it
-- is not tracked; and the plan reports a changed ledger exactly if that ledger differs from the
-- canonical form of the one it was given.
pub plan-IsSound :
    (env : Environment) (project : Bytes) (ledger : Ledger) (intents : List Intent)
    (retained : List Ledger) {p : Plan}
    → plan env project ledger intents retained ≡ ok p
    → IsSound env project ledger p
unfolding plan
plan-IsSound env project ledger intents retained {p} h =
    let current = canonical_ledger ledger in
    let (_, h1) = >>-eq-ok (wrap current_ledger_invalid (validate_ledger current)) _ h in
    let (kept, _, h2) = >>=-eq-ok (resolve_retained retained) _ h1 in
    let (root, _, h3) = >>=-eq-ok (or_fail project_unavailable (env.open_root project)) _ h2 in
    let (_, h4) = >>-eq-ok (check_intents [] intents) _ h3 in
    let (_, h5) = >>-eq-ok (check_retained intents current.targets kept.targets) _ h4 in
    let paths = sort less (map (λ i. i.path) intents ++ omitted_paths intents current.targets) in
    let inspected = sort less (paths ++ map (λ t. t.path) kept.targets) in
    let (git, answer, h6) = >>=-eq-ok (wrap git_failed (env.inspect project inspected)) _ h5 in
    let (planned, r, h7) =
      >>=-eq-ok (plan_paths env.content_hash root git current.targets intents [] paths) _ h6 in
    let done = finish_plan-IsFinished env root git current kept planned h7 in
    record {
      valid = validate_ledger-IsValidLedger p.next_ledger done.accepted;
      canonical =
          subst (λ l. canonical_ledger l ≡ l) (sym done.flagged) (canonical_ledger_idem _).0;
      git = git;
      inspected = inspected;
      answered = wrap-eq-ok git_failed (env.inspect project inspected) answer;
      asked = λ t m.
          let (u, k, e) = In-finished_path git done.version planned.targets t (
            subst
              (λ ts.
                In t
                  (canonical_ledger (record {
                    schema_version = done.version;
                    targets = map (set_excluded git) ts;
                  })).targets)
              done.planned_from (subst (λ l. In t l.targets) done.flagged m)) in
          let among =
            plan_paths-Among env.content_hash root git current.targets intents [] paths r u k in
          In-sort less t.path (paths ++ map (λ t. t.path) kept.targets)
            (In-append_left t.path paths (map (λ t. t.path) kept.targets) (rw e among));
      flags = λ t m.
          canonical-Flagged git done.version done.planned t
            (subst (λ l. In t l.targets) done.flagged m);
      changed_iff = IsFinished-changed current p.next_ledger p.ledger_changed done.compared;
    }
