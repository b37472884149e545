-- ===== src/Realize/Engine.antt =====
-- internal/realize/transaction.go: the engine, which plans and, in apply mode, writes the plan in one
-- transaction. The callers pass one of the two finalizers.
pub mod State
pub mod Claim
pub mod Guarded
pub mod Restores
pub mod Success
pub mod Aborts
mod Tests
use agentic_context_registry.Base.{
  ℕ, Bool, true, false, not, ◌&&◌, List, [], ◌∷◌, Option, none, some, Bytes, codes, if◌then◌else◌,
  Result, ok, err, ◌>>=◌, ◌>>◌, fail_if, is_empty, ◌||◌,
}
use agentic_context_registry.Realize.Model.{Ledger, Intent, Operation, Plan}
use agentic_context_registry.Realize.Git.{GitError, GitContext}
use agentic_context_registry.Realize.Planner.Run.{
  Environment, PlanError, plan, has_conflicts, has_changes,
}
use agentic_context_registry.Realize.Journal.Store.{Location, Store, disk_at}
use agentic_context_registry.Realize.Journal.Manifest.{
  World, JournalError, inspect_transactions, clean_staging,
}
use agentic_context_registry.Realize.Journal.Machine.{Machine, Outcome}
use agentic_context_registry.Realize.Journal.Recovery.{recover_pending_transaction}
use agentic_context_registry.Realize.Journal.Run.{Finalizer, apply_plan_journaled}
use agentic_context_registry.Realize.Engine.State.{
  StateFinalizer, StateError, append_state_operations, live_tessl_manifest,
  validate_tessl_owned_targets,
}
use agentic_context_registry.Realize.Engine.Claim.{
  Lock, Claimed, ClaimError, claim_transactions, close_claim,
}

pub data Mode : Type 0 where
  mode_dry_run mode_apply mode_check : Mode
  unsupported : Bytes → Mode

pub data RunError : Type 0 where
  unsupported_mode tessl_unreadable conflicts changes no_finalizer : RunError
  transactions_failed : JournalError → RunError
  planning_failed : PlanError → RunError
  state_failed : StateError → RunError
  tessl_owned : Bytes → RunError
  claim_refused : ClaimError → RunError

-- The machine below the engine, with the Git inspector of its planner and the answer of `flock`.
pub record Engine : Type 0 where
  pub machine : Machine
  pub inspect : Bytes → List Bytes → Result GitError GitContext
  pub lock : Lock

-- What one run is asked for.
pub record Request : Type 0 where
  pub current : Ledger
  pub intents : List Intent
  pub retained : List Ledger
  pub legacy : Option Finalizer
  pub state : Option StateFinalizer

pub record RunOutcome : Type 0 where
  pub world : World
  pub result : Result RunError Plan

abbrev pub failing {ℓ κ} :
    {E : Type ℓ} {A : Type κ} → (E → RunError) → Result E A → Result RunError A
failing f (ok a) = ok a
failing f (err e) = err (f e)

-- The project is the empty root; Git's directory is one that the machine can open.
unfoldable pub environment : Engine → Store → Environment
unfolding disk_at
environment engine s = record {
  content_hash = engine.machine.content_hash;
  open_root =
      λ root. if is_empty root || engine.machine.opens root then some (disk_at s root) else none;
  inspect = engine.inspect;
}

unfoldable pub with_state : Engine → Store → Option StateFinalizer → Plan → Result RunError Plan
unfolding append_state_operations
with_state engine s none p = ok p
with_state engine s (some finalize) p =
    failing state_failed (append_state_operations engine.machine s finalize p)

manifest_of : Option Bool → Result RunError Bool
manifest_of none = err tessl_unreadable
manifest_of (some live) = ok live

unfoldable pub check_tessl : Bool → Plan → Result RunError (Unit {0})
unfolding validate_tessl_owned_targets
check_tessl live p =
    let checked = failing tessl_owned (validate_tessl_owned_targets p.operations) in
    if live then checked else ok tt

-- The plan with its state operations, where nothing stands against it.
unfoldable pub guarded_plan : Engine → Request → Bool → Store → Result RunError Plan
unfolding plan environment with_state check_tessl has_conflicts
guarded_plan engine request live s = do
  planned ←
      failing planning_failed
        (plan (environment engine s) [] request.current request.intents request.retained)
  fail_if (has_conflicts planned) conflicts
  p ← with_state engine s request.state planned
  check_tessl live p
  ok p

-- The modes that change nothing.
unfoldable pub preview : Engine → Request → Bool → Bool → World → Result RunError Plan
unfolding inspect_transactions guarded_plan has_changes
preview engine request checks live w = do
  _ ← failing transactions_failed (inspect_transactions engine.machine.decode w)
  p ← guarded_plan engine request live w.store
  fail_if (checks && has_changes p) changes
  ok p

unfoldable pub is_given : Request → Bool
is_given request = elim request.legacy [
  | some _ ↦ true
  | none ↦ elim request.state [ some _ ↦ true | none ↦ false ]
]

unfoldable pub apply_outcome : Plan → Outcome → RunOutcome
apply_outcome p o = elim o.failure [
  | none ↦ record { world = o.world; result = ok p }
  | some e ↦ record { world = o.world; result = err (transactions_failed e) }
]

-- Behind recovery.
unfoldable pub apply_request : Engine → Request → Bool → World → RunOutcome
unfolding guarded_plan has_changes is_given apply_plan_journaled apply_outcome
apply_request engine request live w = elim (guarded_plan engine request live w.store) [
  | err e ↦ record { world = w; result = err e }
  | ok p ↦
      if not (has_changes p)
      then record { world = w; result = ok p }
      else if not (is_given request)
      then record { world = w; result = err no_finalizer }
      else apply_outcome p (apply_plan_journaled engine.machine p request.legacy w)
]

unfoldable pub recovered_run : Engine → Request → Bool → Outcome → RunOutcome
unfolding apply_request
recovered_run engine request live o = elim o.failure [
  | some e ↦ record { world = o.world; result = err (transactions_failed e) }
  | none ↦ apply_request engine request live o.world
]

-- Under the claim.
unfoldable pub run_claimed : Engine → Request → Bool → World → RunOutcome
unfolding recover_pending_transaction recovered_run clean_staging
run_claimed engine request live w =
    let cleaned = record w { transactions = clean_staging engine.machine.decode w.transactions } in
    recovered_run engine request live (recover_pending_transaction engine.machine cleaned)

unfoldable pub closed : Bool → RunOutcome → RunOutcome
unfolding close_claim
closed created o = record o { world = close_claim created o.world }

unfoldable pub run_apply : Engine → Request → Bool → World → RunOutcome
unfolding claim_transactions run_claimed closed
run_apply engine request live w =
    let claimed = claim_transactions engine.machine.identity engine.lock w.store in
    let there = record w { store = claimed.store } in
    elim claimed.failure [
      | some e ↦ record { world = there; result = err (claim_refused e) }
      | none ↦ closed claimed.created_parent (run_claimed engine request live there)
    ]

unfoldable pub run_mode : Engine → Request → Bool → World → Mode → RunOutcome
unfolding preview run_apply
run_mode engine request live w mode_dry_run = record {
  world = w;
  result = preview engine request false live w;
}
run_mode engine request live w mode_check = record {
  world = w;
  result = preview engine request true live w;
}
run_mode engine request live w mode_apply = run_apply engine request live w
run_mode engine request live w (unsupported _) = record { world = w; result = err unsupported_mode }

unfoldable pub run : Engine → Request → Mode → World → RunOutcome
unfolding live_tessl_manifest run_mode
run engine request (unsupported text) w = run_mode engine request false w (unsupported text)
run engine request mode w = elim (live_tessl_manifest w.store) [
  | none ↦ record { world = w; result = err tessl_unreadable }
  | some live ↦ run_mode engine request live w mode
]
