-- ===== src/Realize/Engine/Claim.antt =====
-- internal/realize/journal.go: the claim on the transactions of a project, which one process holds at
-- a time. Nothing else changes the directories while it is taken, so the first attempt decides.
pub mod Frame
use agentic_context_registry.Base.{
  ℕ, Bool, true, false, not, ◌&&◌, [], ◌++◌, Option, none, some, codes, if◌then◌else◌, is_empty,
  Result, ok, err,
}
use agentic_context_registry.Realize.Journal.Store.{
  absent, unreadable, folder, file, Location, Store, lookup, put, occupied,
}
use agentic_context_registry.Realize.Journal.Manifest.{transaction_directory, World}

-- What `flock` answers for the lock file.
pub data Lock : Type 0 where
  free busy unavailable : Lock

pub data ClaimError : Type 0 where
  directory_unreadable not_a_directory lock_unreadable lock_not_regular : ClaimError
  transaction_busy transaction_lock_unavailable : ClaimError

abbrev pub agents_location : Location
agents_location = record { root = []; path = codes ".agents" }

abbrev pub transactions_location : Location
transactions_location = record { root = []; path = transaction_directory }

abbrev pub lock_location : Location
lock_location = record { root = []; path = transaction_directory ++ codes "/.lock" }

-- `ensureDirectory`: the store with the directory, and whether it was made.
unfoldable pub ensure_directory :
    (Location → ℕ × ℕ) → Location → Store → Result ClaimError (Store × Bool)
unfolding lookup
ensure_directory identity l s = elim (lookup s l) [
  | folder _ _ ↦ ok (s, false)
  | absent ↦ ok (put l (folder (identity l).0 (identity l).1) s, true)
  | unreadable ↦ err directory_unreadable
  | _ ↦ err not_a_directory
]

-- An existing lock file must be a regular file; a missing one is made.
unfoldable open_lock : Store → Result ClaimError Store
unfolding lookup
open_lock s = elim (lookup s lock_location) [
  | absent ↦ ok (put lock_location (file [] 0o600) s)
  | file _ _ ↦ ok s
  | unreadable ↦ err lock_unreadable
  | _ ↦ err lock_not_regular
]

unfoldable take_lock : Lock → Result ClaimError (Unit {0})
take_lock free = ok tt
take_lock busy = err transaction_busy
take_lock unavailable = err transaction_lock_unavailable

-- The store behind the claim, and whether `.agents` was made for it. What a claim that fails has made
-- stays as inert residue.
pub record Claimed : Type 0 where
  pub store : Store
  pub created_parent : Bool
  pub failure : Option ClaimError

unfoldable claim_failed : Store → Bool → ClaimError → Claimed
claim_failed s created e = record { store = s; created_parent = created; failure = some e }

unfoldable pub claim_transactions : (Location → ℕ × ℕ) → Lock → Store → Claimed
unfolding ensure_directory open_lock take_lock claim_failed
claim_transactions identity lock s = elim (ensure_directory identity agents_location s) [
  | err e ↦ claim_failed s false e
  | ok (agents, created) ↦ elim (ensure_directory identity transactions_location agents) [
    | err e ↦ claim_failed agents created e
    | ok (root, _) ↦ elim (open_lock root) [
      | err e ↦ claim_failed root created e
      | ok locked ↦ elim (take_lock lock) [
        | err e ↦ claim_failed locked created e
        | ok _ ↦ record { store = locked; created_parent = created; failure = none }
      ]
    ]
  ]
]

-- `rmdir`, which leaves a directory that is not empty.
unfoldable remove_empty : Bool → Location → Store → Store
unfolding lookup occupied
remove_empty empty l s = elim (lookup s l) [
  | folder _ _ ↦ if empty && not (occupied s l) then put l absent s else s
  | _ ↦ s
]

-- `Close`: the lock file goes, and the directories that are empty then.
unfoldable pub close_claim : Bool → World → World
unfolding remove_empty
close_claim created w =
    let unlocked = put lock_location absent w.store in
    let cleared = remove_empty (is_empty w.transactions) transactions_location unlocked in
    record w { store = if created then remove_empty true agents_location cleared else cleared }
