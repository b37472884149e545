-- ===== src/Realize/Engine/Tests.antt =====
-- Runs of the engine that write one state file; the theorems of the engine there.
use agentic_context_registry.Base.{
  All, ◌⊎◌, Bool, true, false, List, [], ◌∷◌, none, some, Bytes, codes, equal, ◌≡◌, inl, inr, refl,
  sym, ap, ◌∙◌, subst, In, if◌then◌else◌, ok, err, ok-injective, arith, sort,
}
use agentic_context_registry.Realize.Model.{
  unset, Ledger, Operation, op_create, unstated, Plan, Ledger-discrete,
}
use agentic_context_registry.Realize.Ledger.{
  validate_ledger, canonical_ledger, canonical_version, required_ledger_schema_version,
  validate_targets,
}
use agentic_context_registry.Realize.Planner.Run.{has_changes}
use agentic_context_registry.Realize.Journal.Store.{Location, file, lookup}
use agentic_context_registry.Realize.Journal.Parents.{parents}
use agentic_context_registry.Realize.Journal.Manifest.{
  clean_staging, World, write_failed, rolled_back, check_each, check_entry_form, pending_names,
}
use agentic_context_registry.Realize.Journal.Machine.{recovery_git_exclusion, journal_location}
use agentic_context_registry.Realize.Journal.Recovery.{uses_exclusion}
use agentic_context_registry.Realize.Journal.Recovery.Loops.{Returned}
use agentic_context_registry.Realize.Journal.Apply.{
  PreparedOperation, snapshot_at, journal_entries, new_manifest, create_journal, prepare_operations,
}
use agentic_context_registry.Realize.Journal.Run.Opened.{opened}
use agentic_context_registry.Realize.Journal.Run.Flight.{Undertaking}
use agentic_context_registry.Realize.Journal.Run.Placed.{Written}
use agentic_context_registry.Realize.Journal.TestProject.{hash, at, machine, start, project}
use agentic_context_registry.Realize.Engine.State.{StateFile, live_tessl_manifest}
use agentic_context_registry.Realize.Engine.Aborts.{claimed_world}
use agentic_context_registry.Realize.Engine.Claim.{claim_transactions, lock_location, free}
use agentic_context_registry.Realize.Engine.{
  Engine, Request, transactions_failed, mode_check, guarded_plan, apply_request, run,
}
use agentic_context_registry.Realize.Engine.Guarded.{IsGuarded, run-IsGuarded}
use agentic_context_registry.Realize.Engine.Restores.{apply_request-Returned}
use agentic_context_registry.Realize.Engine.Success.{apply_request-Written}

abbrev settings : StateFile
settings = record { path = codes "agents.yaml"; content = codes "y"; mode_bits = 0o644 }

abbrev write_settings : Operation
write_settings = record {
  kind = op_create;
  path = codes "agents.yaml";
  ownership_before = unset;
  ownership_after = unset;
  before_hash = [];
  after_hash = hash (codes "y");
  reason = unstated;
  git_exclusion = false;
  mode_bits = 0o644;
  content = codes "y";
  deletes = false;
  before_exists = false;
  before_mode = 0;
  physical_root = [];
  physical_path = [];
  state_file = true;
}

abbrev prepared_settings : List PreparedOperation
prepared_settings =
    record {
      operation = write_settings;
      location = at (codes "agents.yaml");
      snapshot = record { exists = false; content = []; mode_bits = 0; hash = [] };
    }
    ∷ []

abbrev ledger : Ledger
ledger = record { schema_version = 1; targets = [] }

abbrev engine_with : (Location → Bool) → Engine
engine_with fails = record {
  machine = record machine {
    decode = λ text.
        if equal text (codes "{}\n")
        then some (new_manifest (codes "t1") prepared_settings)
        else none;
    write_fails = fails;
  };
  inspect = λ _ _.
      ok (record { enabled = false; tracked = λ _. false; exclude_root = []; exclude_path = [] });
  lock = free;
}

-- Every write fails.
abbrev engine : Engine
engine = engine_with (λ _. true)

abbrev sound_engine : Engine
sound_engine = engine_with (λ _. false)

abbrev request : Request
request = record {
  current = ledger;
  intents = [];
  retained = [];
  legacy = none;
  state = some (λ _. some (settings ∷ []));
}

abbrev final_plan : Plan
final_plan = record {
  operations = write_settings ∷ [];
  next_ledger = ledger;
  ledger_changed = false;
}

guarded_test : guarded_plan engine request false start ≡ ok final_plan
unfolding guarded_plan validate_ledger canonical_ledger canonical_version
    required_ledger_schema_version sort validate_targets Ledger-discrete
guarded_test = refl

prepared_test : prepare_operations engine.machine start final_plan.operations ≡ ok prepared_settings
unfolding prepare_operations
prepared_test = refl

abbrev begun : World
begun = opened engine.machine (codes "t1") prepared_settings project start

create_test : create_journal engine.machine prepared_settings project ≡ ok (codes "t1", begun)
unfolding create_journal
create_test = refl

only_one :
    (p q : PreparedOperation)
    → In p prepared_settings
    → In q prepared_settings
    → p.location ≡ q.location
    → p ≡ q
only_one p q (inl e) (inl f) h = e ∙ sym f
only_one p q (inl e) (inr i) h = absurd i
only_one p q (inr i) _ h = absurd i

undertaking :
    (fails : Location → Bool)
    → Undertaking (engine_with fails).machine project (codes "t1") prepared_settings
unfolding snapshot_at recovery_git_exclusion uses_exclusion new_manifest journal_entries check_each
    check_entry_form journal_location pending_names lookup parents
undertaking fails = record {
  checked = (record { plain = tt; above = tt; hash = inr refl; small = refl }, tt);
  read = (refl, tt);
  distinct = only_one;
  exclusion = ([], []);
  resolved = refl;
  located = (refl, tt);
  accepted = refl;
  decodes = refl;
  few = ground arith;
  agents = tt;
  directory = tt;
  idle = refl;
}

final-Undertaking :
    (w b : World) (live : Bool)
    → guarded_plan engine request live w.store ≡ ok final_plan
    → prepare_operations engine.machine w.store final_plan.operations ≡ ok prepared_settings
    → create_journal engine.machine prepared_settings w ≡ ok (codes "t1", b)
    → Undertaking engine.machine w (codes "t1") prepared_settings
    → (p : Plan) (ps : List PreparedOperation) (id : Bytes) (v : World)
    → guarded_plan engine request live w.store ≡ ok p
    → prepare_operations engine.machine w.store p.operations ≡ ok ps
    → create_journal engine.machine ps w ≡ ok (id, v)
    → Undertaking engine.machine w id ps
final-Undertaking w b live guarded prepared created under p ps id v g h c =
    let planned : final_plan ≡ p = ok-injective (sym guarded ∙ g) in
    let read : prepare_operations engine.machine w.store final_plan.operations ≡ ok ps =
      subst (λ (r : Plan). prepare_operations engine.machine w.store r.operations ≡ ok ps)
        (sym planned) h in
    let same : prepared_settings ≡ ps = ok-injective (sym prepared ∙ read) in
    let made : create_journal engine.machine prepared_settings w ≡ ok (id, v) =
      subst (λ (q : List PreparedOperation). create_journal engine.machine q w ≡ ok (id, v))
        (sym same) c in
    let named : codes "t1" ≡ id = ap (λ r. r.0) (ok-injective (sym created ∙ made)) in
    subst (λ (q : List PreparedOperation). Undertaking engine.machine w id q) same
      (subst (λ (i : Bytes). Undertaking engine.machine w i prepared_settings) named under)

failed_test :
    (apply_request engine request false project).result
    ≡ err (transactions_failed (rolled_back (write_failed (codes "agents.yaml"))))
unfolding apply_request validate_ledger canonical_ledger canonical_version
    required_ledger_schema_version sort validate_targets Ledger-discrete
failed_test = refl

apply_request-Returned_example :
    Returned start
      (apply_request engine request false project).world.store
      (at (codes "agents.yaml"))
apply_request-Returned_example =
    apply_request-Returned engine request false project
      (transactions_failed (rolled_back (write_failed (codes "agents.yaml")))) (λ _. refl)
      (λ _. refl)
      (final-Undertaking project begun false guarded_test prepared_test create_test
        (undertaking (λ _. true)))
      failed_test (at (codes "agents.yaml"))

-- The file is there as it should be.
abbrev settled : World
settled = record project { store = (at (codes "agents.yaml"), file (codes "y") 0o644) ∷ start }

abbrev settled_plan : Plan
settled_plan = record final_plan { operations = [] }

check_test : (run engine request mode_check settled).result ≡ ok settled_plan
unfolding run validate_ledger canonical_ledger canonical_version required_ledger_schema_version sort
    validate_targets Ledger-discrete
check_test = refl

run-IsGuarded_example :
    ((run engine request mode_check settled).world ≡ settled)
    × (has_changes settled_plan ≡ false)
    × ((live : Bool) × (live_tessl_manifest settled.store ≡ some live)
        × IsGuarded engine request live settled.store settled_plan)
run-IsGuarded_example = run-IsGuarded engine request settled settled_plan check_test

sound_prepared_test :
    prepare_operations sound_engine.machine start final_plan.operations ≡ ok prepared_settings
unfolding prepare_operations
sound_prepared_test = refl

abbrev sound_begun : World
sound_begun = opened sound_engine.machine (codes "t1") prepared_settings project start

sound_create_test :
    create_journal sound_engine.machine prepared_settings project ≡ ok (codes "t1", sound_begun)
unfolding create_journal
sound_create_test = refl

applied_test : (apply_request sound_engine request false project).result ≡ ok final_plan
unfolding apply_request validate_ledger canonical_ledger canonical_version
    required_ledger_schema_version sort validate_targets Ledger-discrete
applied_test = refl

written_test :
    lookup (apply_request sound_engine request false project).world.store (at (codes "agents.yaml"))
    ≡ file (codes "y") 0o644
unfolding apply_request lookup validate_ledger canonical_ledger canonical_version
    required_ledger_schema_version sort validate_targets Ledger-discrete
written_test = refl

apply_request-Written_example :
    IsGuarded sound_engine request false start final_plan
    × (((has_changes final_plan ≡ false)
          × ((apply_request sound_engine request false project).world ≡ project))
        ⊎ All
            (λ q.
              Written hash q
                (lookup (apply_request sound_engine request false project).world.store q.location))
            prepared_settings)
apply_request-Written_example =
    apply_request-Written sound_engine request false project sound_begun final_plan (codes "t1")
      prepared_settings refl refl sound_prepared_test sound_create_test (undertaking (λ _. false))
      applied_test

-- The project under the claim.
abbrev claimed : World
claimed = record project { store = (lock_location, file [] 0o600) ∷ start }

claimed_test : claimed_world engine project ≡ claimed
unfolding claim_transactions clean_staging
claimed_test = refl

abbrev claimed_begun : World
claimed_begun = opened engine.machine (codes "t1") prepared_settings claimed claimed.store
