-- ===== src/Lib.antt =====
-- The verification library of the agentic context registry (acr), a package manager for the rules,
-- skills and scripts of coding agents. It models three packages of the Go program, in which a
-- mistake costs a user's files or reinstalls a release that was rejected.
--
-- The planner of `internal/realize` compares what the adapters want in a project (the intents), what
-- acr recorded that it wrote there (the ownership ledger) and what is on the disk, and plans creates,
-- updates, merges, removals and conflicts together with the next ledger. The model:
--   Realize.Model            the types of model.go (Entry, Target, Ledger, Intent, Operation, Plan);
--   Realize.RealizationPath  the paths that acr may own and the formats of hashes and names (model.go);
--   Realize.Ledger           ValidateLedger, canonicalLedger and MergeLedgers (model.go);
--   Realize.Filesystem       snapshotFile and ValidateParentDirectories (filesystem.go);
--   Realize.Git              rewriteGitExclude and its helpers (git.go);
--   Realize.Planner.Decide   planEnsure (planner.go); where the source appends to the plan, a function
--                            here returns what it appends, a Delta;
--   Realize.Planner.Remove   planOmitted, planRemoval, planSharedRemoval and the preserve branch of
--                            Plan (planner.go);
--   Realize.Planner.Run      Plan itself, planGitExclusions and resolveRetained (planner.go);
--   Realize.Planner.Spec     the changes that the planner is meant to make, as a relation.
--
-- The transactions of the same package write a plan: a journal with the before-image of every target
-- is on disk before the first write, and recovery reads it after a failure or a crash. The model:
--   Realize.Journal.Store    the file system: snapshotJournalFile (file_transaction.go), writeFileAtomic
--                            and ensureParentDirectories (transaction.go);
--   Realize.Journal.Parents  when the checks of the directories above a file pass;
--   Realize.Journal.Manifest the manifest, loadJournal and inspectTransactions (journal.go);
--   Realize.Journal.Machine  what is asked of the machine, journalLocation and retireJournal;
--   Realize.Journal.Recovery recoverPendingTransaction (journal.go), both loops and the directories;
--   Realize.Journal.Apply    the checks of applyPlanJournaled, and createJournal (journal.go);
--   Realize.Journal.Run      the writes of applyPlanJournaled (journal.go), writeOperation
--                            (transaction.go) and recoverApplyFailure;
--   Realize.Engine           Engine.run with its modes (transaction.go), and below it
--   Realize.Engine.State     appendStateOperations (transaction.go) and the paths that Tessl owns
--                            (tessl_guard.go);
--   Realize.Engine.Claim     the claim on the transactions, taken and closed (journal.go).
-- A store is a list of writes, the last one first, read by location: a root and a path below it. A step
-- ends in an Outcome, the project as the step leaves it and the failure that ended it; a crash is a
-- list of writes that is cut off. A manifest has at most a million before-images, so that their names
-- have six digits.
--
-- `internal/packageref` finds the references that a package's files make to its own content and writes
-- the installed paths in their place. The model:
--   Packageref.Scanner       referenceScanner and its step (references.go);
--   Packageref.References    RebasePackageReferences and its matching (references.go);
--   Packageref.Files         RewriteFiles (exact.go);
--   Packageref.Spliced       what a rewriting may do to a content, as a relation.
--
-- `internal/dependency` resolves the declarations of agents.yaml into the locks of registry.lock. A
-- hold on a declaration that requests latest keeps it at a pin behind a rejected release. The model:
--   Dependency.Model         the types of model.go, hold.go and github.go;
--   Dependency.Source        the patterns and request formats of github.go and local.go;
--   Dependency.Hold          the validation of holds (hold.go) and the order on tags (holds.go);
--   Dependency.Downgrade     applyDowngradeChoice and what it calls (downgrade.go);
--   Dependency.Migrate       migrateState (migrate.go);
--   Dependency.Validate      validateState (model.go);
--   Dependency.Resolver      Candidate, ResolveAt and the metadata check (resolver.go);
--   Dependency.Policy        projectHolds (holds.go) and the interface HoldPolicy, a record of its
--                            operation and the law that its client relies on;
--   Dependency.Resolution    resolveState (service.go), over any HoldPolicy.
-- The two meet in registry.lock: validateState decodes and validates the ledger that it carries.
--
-- How the code is read. A text is the list of its bytes; a Go error is a constructor, without the
-- text of its message; a text that Go ranges over by runes is taken to be valid UTF-8. Maps are
-- association lists, searched the way the code looks keys up; the sorts are a stable insertion
-- sort. A mode is its permission bits. All functions are total by structural recursion; the two
-- loops of packageref run on fuel, the length of the content, and a theorem says that it is
-- enough, since every turn takes a byte. A nil pointer or an absent map entry is `none`; the zero
-- Intent that planOmitted passes on is `none` too. The ledger's schema version is a natural
-- number (a negative one is unsupported in the code as any other); those of the project and of
-- the lock, and release numbers, are integers, which are only compared. A downgrade choice is one
-- of the three that the callers pass.
--
-- Parameters. SHA-256, the opening of a directory and the Git commands are the fields of
-- Realize.Planner.Run.Environment; a disk is a function from paths to files that stays as it is
-- during one plan, so that the tests for a file that changes while it is read always pass. The GitHub
-- API, the verification of an archive, JSON and the comparison of a tag with a version are the fields
-- of Dependency.Resolver.Remote, which answers one question the same way each time;
-- golang.org/x/mod/semver is Dependency.Hold.Semver; the YAML of the ledger is the argument `decode`;
-- local and vendored trees are the fields of Dependency.Resolution.Sources.
--
-- SHA-256, the JSON of the manifest, `git rev-parse`, the random name of a transaction, the identity of
-- a new directory and the system calls that fail are the fields of Realize.Journal.Machine.Machine;
-- `flock` is the field of Realize.Engine.Engine, and the renderer of the state files is an argument.
--
-- Not modelled: other processes that change the project while the lock is taken or held, the notes
-- and the partial plans that Engine.run returns beside an error, and the edits of single files, all of
-- internal/realize; the inspection by Git commands; reading and writing of state files, archives and
-- credentials of internal/dependency; and the other packages (command line, adapters, publishing,
-- setup, migration from Tessl).
pub mod Base
pub mod Realize
pub mod Dependency
pub mod Packageref
