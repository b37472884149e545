-- ===== src/Realize/Journal/Tests.antt =====
-- The theorems of the transactions at a small project, and what the definitions compute there.
use agentic_context_registry.Base.{
  All, true, List, [], ◌∷◌, none, some, Bytes, codes, ◌≡◌, refl, sym, ap, inl, inr, In, ok, err,
  take, sort, ◌∙◌, ok-injective, subst,
}
use agentic_context_registry.Realize.Journal.Store.{
  file, Location, Store, lookup, snapshot_journal_file,
}
use agentic_context_registry.Realize.Journal.Parents.{lookup-put_cases}
use agentic_context_registry.Realize.Journal.Manifest.{
  JournalEntry, World, Detail, write_failed, rolled_back, pending_transaction, recovery_conflict,
  load_journal, inspect_transactions,
}
use agentic_context_registry.Realize.Journal.Machine.{
  failed, drop_journal, recovery_git_exclusion, journal_location,
}
use agentic_context_registry.Realize.Journal.Recovery.{
  uses_exclusion, images_of, matches_before, matches_after, recover_pending_transaction,
}
use agentic_context_registry.Realize.Journal.Recovery.Loops.{Returned}
use agentic_context_registry.Realize.Journal.Recovery.Restored.{
  recover_pending_transaction-Returned,
}
use agentic_context_registry.Realize.Journal.Recovery.Refused.{
  Mismatch, recover_pending_transaction-refuses,
}
use agentic_context_registry.Realize.Journal.Apply.{
  PreparedOperation, journal_entry, new_manifest, create_journal, prepare_operations,
}
use agentic_context_registry.Realize.Journal.Run.{apply_mutations, apply_plan_journaled}
use agentic_context_registry.Realize.Journal.Run.Changed.{Changed}
use agentic_context_registry.Realize.Journal.Run.Opened.{opened}
use agentic_context_registry.Realize.Journal.Run.Flight.{Undertaking, opened-InFlight}
use agentic_context_registry.Realize.Journal.Run.Placed.{Written}
use agentic_context_registry.Realize.Journal.Run.Success.{apply_plan_journaled-Written}
use agentic_context_registry.Realize.Journal.Run.Atomic.{
  apply_mutations-Returned, apply_plan_journaled-Returned,
}
use agentic_context_registry.Realize.Journal.TestProject.{
  hash, at, both_plan, prepared_mine, prepared, machine, sound_machine, start, project,
  prepared_test, transaction, begun, create_test, undertaking,
}

rolled_back_test :
    (apply_plan_journaled machine both_plan none project).failure
    ≡ some (rolled_back (write_failed (codes "new")))
unfolding apply_plan_journaled sort
rolled_back_test = refl

restored_test :
    lookup (apply_plan_journaled machine both_plan none project).world.store (at (codes "mine"))
    ≡ file (codes "u") 0o600
unfolding lookup apply_plan_journaled sort
restored_test = refl

-- A crash behind the first write.
apply_mutations-Returned_example :
    ((recover_pending_transaction machine
        (apply_mutations machine transaction (take 1 prepared) begun).world).failure
      ≡ none)
    × ((l : Location)
        → Returned start
            (recover_pending_transaction machine
              (apply_mutations machine transaction (take 1 prepared) begun).world).world.store
            l)
apply_mutations-Returned_example =
    apply_mutations-Returned machine project begun transaction prepared 1 (λ _. refl) refl
      (undertaking machine.write_fails) create_test

opened-Undertaking :
    (ps : List PreparedOperation) (id : Bytes) (v : World)
    → prepare_operations machine start both_plan.operations ≡ ok ps
    → create_journal machine ps project ≡ ok (id, v)
    → Undertaking machine project id ps
opened-Undertaking ps id v p c =
    let same : prepared ≡ ps = ok-injective (sym prepared_test ∙ p) in
    let pair : (transaction, begun) ≡ (id, v) = ok-injective (sym create_test ∙ rw (← same) at c) in
    let name : transaction ≡ id = ap (λ (q : Bytes × World). q.0) pair in
    subst (λ (qs : List PreparedOperation). Undertaking machine project id qs) same
      (subst (λ (n : Bytes). Undertaking machine project n prepared) name
        (undertaking machine.write_fails))

apply_plan_journaled-Returned_example :
    Returned start
      (apply_plan_journaled machine both_plan none project).world.store
      (at (codes "mine"))
apply_plan_journaled-Returned_example =
    apply_plan_journaled-Returned machine project both_plan none
      (rolled_back (write_failed (codes "new"))) (λ _. refl) (λ _. refl) opened-Undertaking
      rolled_back_test (at (codes "mine"))

-- The project behind the first write, and behind somebody else's write of the same file.
abbrev halfway : Store
halfway = (at (codes "mine"), file (codes "um") 0o644) ∷ start

abbrev foreign : Store
foreign = (at (codes "mine"), file (codes "elsewhere") 0o644) ∷ start

halfway-Changed : Changed hash prepared start halfway
unfolding lookup
halfway-Changed l = elim (lookup-put_cases (at (codes "mine")) l (file (codes "um") 0o644) start) [
  | inl (here, e) ↦ inr (prepared_mine, inl refl, here, rw e (refl, refl, refl))
  | inr e ↦ inl e
]

pending_test :
    inspect_transactions machine.decode (opened machine transaction prepared project halfway)
    ≡ err (pending_transaction transaction 1)
unfolding inspect_transactions sort transaction new_manifest
pending_test = refl

recover_pending_transaction-Returned_example :
    ((recover_pending_transaction machine
        (opened machine transaction prepared project halfway)).failure
      ≡ none)
    × ((l : Location)
        → Returned start
            (recover_pending_transaction machine
              (opened machine transaction prepared project halfway)).world.store
            l)
    × ((recover_pending_transaction machine
          (opened machine transaction prepared project halfway)).world.transactions
        ≡ drop_journal transaction
            (opened machine transaction prepared project halfway).transactions)
recover_pending_transaction-Returned_example =
    recover_pending_transaction-Returned machine start transaction 1
      (opened machine transaction prepared project halfway) (λ _. refl) refl pending_test
      (opened-InFlight machine project transaction prepared (undertaking machine.write_fails)
        halfway halfway-Changed)

mine_entry : JournalEntry
unfolding journal_entry
mine_entry = journal_entry 0 prepared_mine

foreign_pending_test :
    inspect_transactions machine.decode (opened machine transaction prepared project foreign)
    ≡ err (pending_transaction transaction 1)
unfolding inspect_transactions sort transaction new_manifest
foreign_pending_test = refl

foreign_loaded_test :
    load_journal machine.decode transaction (opened machine transaction prepared project foreign)
    ≡ ok (new_manifest transaction prepared)
unfolding load_journal transaction new_manifest
foreign_loaded_test = refl

exclusion_test :
    recovery_git_exclusion machine (uses_exclusion (new_manifest transaction prepared))
    ≡ ok ([], [])
unfolding recovery_git_exclusion uses_exclusion new_manifest
exclusion_test = refl

mine_among : In mine_entry (new_manifest transaction prepared).entries
unfolding mine_entry new_manifest
mine_among = inl refl

mismatch :
    Mismatch machine
      ([], [])
      (images_of transaction (opened machine transaction prepared project foreign))
      foreign
      mine_entry
unfolding mine_entry snapshot_journal_file matches_before matches_after journal_location
mismatch = record {
  location = at (codes "mine");
  snapshot = record {
    exists = true;
    content = codes "elsewhere";
    mode_bits = 0o644;
    hash = hash (codes "elsewhere");
    symlink_target = [];
  };
  located = refl;
  read = refl;
  not_before = refl;
  not_after = refl;
}

recover_pending_transaction-refuses_example :
    (d : Detail) × (recover_pending_transaction machine
        (opened machine transaction prepared project foreign)
      ≡ failed
          (opened machine transaction prepared project foreign)
          (recovery_conflict transaction d))
recover_pending_transaction-refuses_example =
    recover_pending_transaction-refuses machine
      (opened machine transaction prepared project foreign) transaction 1
      (new_manifest transaction prepared) ([], []) mine_entry foreign_pending_test
      foreign_loaded_test exclusion_test mine_among mismatch

sound_prepared_test : prepare_operations sound_machine start both_plan.operations ≡ ok prepared
unfolding prepare_operations
sound_prepared_test = refl

sound_create_test : create_journal sound_machine prepared project ≡ ok (transaction, begun)
unfolding create_journal begun transaction
sound_create_test = refl

applied_test : (apply_plan_journaled sound_machine both_plan none project).failure ≡ none
unfolding apply_plan_journaled sort
applied_test = refl

apply_plan_journaled-Written_example :
    All
      (λ p.
        Written hash p (
          lookup
            (apply_plan_journaled sound_machine both_plan none project).world.store
            p.location))
      prepared
apply_plan_journaled-Written_example =
    apply_plan_journaled-Written sound_machine project begun both_plan transaction prepared refl
      sound_prepared_test sound_create_test (undertaking sound_machine.write_fails) applied_test
