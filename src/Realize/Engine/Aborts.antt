-- ===== src/Realize/Engine/Aborts.antt =====
-- internal/realize/transaction.go: an apply run that fails, from the claim on the transactions to the
-- close of it.
use agentic_context_registry.Realize.Journal.Store.{Store}
use agentic_context_registry.Realize.Journal.Manifest.{World, clean_staging}
use agentic_context_registry.Realize.Engine.Claim.{claim_transactions}
use agentic_context_registry.Realize.Engine.{Engine}

-- The project as recovery finds it: under the claim, without staging directories.
abbrev pub claimed_world : Engine → World → World
claimed_world engine w = record {
  store = (claim_transactions engine.machine.identity engine.lock w.store).store;
  transactions = clean_staging engine.machine.decode w.transactions;
}
