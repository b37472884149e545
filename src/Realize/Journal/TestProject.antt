-- ===== src/Realize/Journal/TestProject.antt =====
-- A project whose plan changes one file and creates another, for the tests of the transactions.
use agentic_context_registry.Base.{
  Bool, true, false, List, [], ◌∷◌, none, some, Bytes, codes, equal, ◌≡◌, refl, sym, ap, inl, inr,
  In, if◌then◌else◌, ok, arith, ◌∙◌, equal_iff, false≢true,
}
use agentic_context_registry.Realize.Model.{
  generated, unmanaged, Operation, Plan, op_create, op_update, create_missing, update_generated,
}
use agentic_context_registry.Realize.Journal.Store.{folder, file, Location, Store, lookup}
use agentic_context_registry.Realize.Journal.Parents.{parents}
use agentic_context_registry.Realize.Journal.Manifest.{
  transaction_directory, World, check_each, check_entry_form, pending_names,
}
use agentic_context_registry.Realize.Journal.Machine.{
  Machine, gone, recovery_git_exclusion, journal_location,
}
use agentic_context_registry.Realize.Journal.Recovery.{uses_exclusion}
use agentic_context_registry.Realize.Journal.Apply.{
  PreparedOperation, snapshot_at, journal_entries, new_manifest, create_journal, prepare_operations,
}
use agentic_context_registry.Realize.Journal.Run.Opened.{opened}
use agentic_context_registry.Realize.Journal.Run.Flight.{Undertaking}

abbrev pub hash : Bytes → Bytes
hash content = b'h' ∷ content

abbrev pub at : Bytes → Location
at path = record { root = []; path = path }

abbrev pub update_mine : Operation
update_mine = record {
  kind = op_update;
  path = codes "mine";
  ownership_before = generated;
  ownership_after = generated;
  before_hash = hash (codes "u");
  after_hash = hash (codes "um");
  reason = update_generated;
  git_exclusion = false;
  mode_bits = 0o644;
  content = codes "um";
  deletes = false;
  before_exists = true;
  before_mode = 0o600;
  physical_root = [];
  physical_path = [];
  state_file = false;
}

abbrev pub create_new : Operation
create_new = record update_mine {
  kind = op_create;
  path = codes "new";
  ownership_before = unmanaged;
  before_hash = [];
  after_hash = hash (codes "n");
  reason = create_missing;
  content = codes "n";
  before_exists = false;
  before_mode = 0;
}

abbrev pub both_plan : Plan
both_plan = record {
  operations = update_mine ∷ create_new ∷ [];
  next_ledger = record { schema_version = 1; targets = [] };
  ledger_changed = true;
}

abbrev pub prepared_mine : PreparedOperation
prepared_mine = record {
  operation = update_mine;
  location = at (codes "mine");
  snapshot = record {
    exists = true;
    content = codes "u";
    mode_bits = 0o600;
    hash = hash (codes "u");
  };
}

abbrev pub prepared : List PreparedOperation
prepared =
    prepared_mine
    ∷ record {
      operation = create_new;
      location = at (codes "new");
      snapshot = record { exists = false; content = []; mode_bits = 0; hash = [] };
    }
    ∷ []

abbrev pub machine_with : (Location → Bool) → Machine
machine_with fails = record {
  content_hash = hash;
  encode = λ _. codes "{}";
  decode =
      λ text. if equal text (codes "{}\n") then some (new_manifest (codes "t1") prepared) else none;
  resolve_git_exclude = none;
  transaction_id = some (codes "t1");
  identity = λ _. (1, 2);
  link_mode = 0o777;
  opens = λ _. false;
  write_fails = fails;
  restore_fails = λ _. false;
  rename_fails = λ _. false;
  journal_fails = λ _. false;
  publish_fails = λ _. false;
  rewrite_fails = λ _. false;
  retirement = λ _. gone;
}

-- The write of the new file fails.
abbrev pub machine : Machine
machine = machine_with (λ l. equal l.path (codes "new"))

-- No write fails.
abbrev pub sound_machine : Machine
sound_machine = machine_with (λ _. false)

abbrev pub start : Store
start =
    (at (codes ".agents"), folder 1 10)
    ∷ (at transaction_directory, folder 1 11)
    ∷ (at (codes "mine"), file (codes "u") 0o600)
    ∷ []

abbrev pub project : World
project = record { store = start; transactions = [] }

pub prepared_test : prepare_operations machine start both_plan.operations ≡ ok prepared
unfolding prepare_operations
prepared_test = refl

unfoldable pub transaction : Bytes
transaction = codes "t1"

unfoldable pub begun : World
unfolding transaction
begun = opened machine transaction prepared project start

pub create_test : create_journal machine prepared project ≡ ok (transaction, begun)
unfolding create_journal begun transaction
create_test = refl

one_of_two :
    (p q : PreparedOperation) → In p prepared → In q prepared → p.location ≡ q.location → p ≡ q
unfolding equal
one_of_two p q (inl e) (inl f) h = e ∙ sym f
one_of_two p q (inr (inl e)) (inr (inl f)) h = e ∙ sym f
one_of_two p q (inl e) (inr (inl f)) h =
    let k : codes "mine" ≡ codes "new" =
      sym (ap (λ (r : PreparedOperation). r.location.path) e)
      ∙ ap (λ (l : Location). l.path) h
      ∙ ap (λ (r : PreparedOperation). r.location.path) f in
    absurd (false≢true ((equal_iff (codes "mine") (codes "new")).1 k))
one_of_two p q (inl e) (inr (inr i)) h = absurd i
one_of_two p q (inr (inl e)) (inr (inr i)) h = absurd i
one_of_two p q (inr (inr i)) _ h = absurd i
one_of_two p q (inr (inl e)) (inl f) h =
    let k : codes "new" ≡ codes "mine" =
      sym (ap (λ (r : PreparedOperation). r.location.path) e)
      ∙ ap (λ (l : Location). l.path) h
      ∙ ap (λ (r : PreparedOperation). r.location.path) f in
    absurd (false≢true ((equal_iff (codes "new") (codes "mine")).1 k))

pub undertaking :
    (fails : Location → Bool) → Undertaking (machine_with fails) project transaction prepared
unfolding transaction snapshot_at recovery_git_exclusion uses_exclusion new_manifest journal_entries
    check_each check_entry_form journal_location pending_names lookup parents
undertaking fails = record {
  checked = (
    record { plain = tt; above = tt; hash = inr refl; small = refl },
    (record { plain = tt; above = tt; hash = inr refl; small = refl }, tt),
  );
  read = (refl, (refl, tt));
  distinct = one_of_two;
  exclusion = ([], []);
  resolved = refl;
  located = (refl, (refl, tt));
  accepted = refl;
  decodes = refl;
  few = ground arith;
  agents = tt;
  directory = tt;
  idle = refl;
}
