-- ===== src/Realize/Journal/Machine.antt =====
-- internal/realize: what a transaction asks of the machine, and the outcome of its steps: the project
-- as they leave it, and the failure that ended them.
use agentic_context_registry.Base.{
  ℕ, Bool, not, ◌&&◌, ◌||◌, List, [], ◌∷◌, ◌++◌, Option, none, some, Bytes, codes, equal,
  has_prefix, if◌then◌else◌, Result, ok, err, ◌>>◌, fail_if, is_ok,
}
use agentic_context_registry.Realize.RealizationPath.{clean, validate_target_path}
use agentic_context_registry.Realize.Journal.Store.{
  absent, folder, Location, Store, lookup, put, occupied,
}
use agentic_context_registry.Realize.Journal.Manifest.{
  JournalManifest, Journal, World, Detail, JournalError, journal_not_retired,
  invalid_exclusion_root, invalid_exclusion_path, exclusion_elsewhere, root_unavailable,
  exclusion_unresolved,
}

-- How the two renames and removals of `retireJournal` end.
pub data Retirement : Type 0 where
  stays left_in_staging gone : Retirement

-- SHA-256, the JSON codec, `git rev-parse`, the transaction's random name, the identity of a new
-- directory, the mode of a new symbolic link, and the system calls that fail.
pub record Machine : Type 0 where
  pub content_hash : Bytes → Bytes
  pub encode : JournalManifest → Bytes
  pub decode : Bytes → Option JournalManifest
  pub resolve_git_exclude : Option (Bytes × Bytes)
  pub transaction_id : Option Bytes
  pub identity : Location → ℕ × ℕ
  pub link_mode : ℕ
  pub opens : Bytes → Bool
  pub write_fails : Location → Bool
  pub restore_fails : Location → Bool
  pub rename_fails : Location → Bool
  pub journal_fails : Bytes → Bool
  pub publish_fails : Bytes → Bool
  pub rewrite_fails : Bytes → Bool
  pub retirement : Bytes → Retirement

pub record Outcome : Type 0 where
  pub world : World
  pub failure : Option JournalError

abbrev pub done : World → Outcome
done w = record { world = w; failure = none }

abbrev pub failed : World → JournalError → Outcome
failed w e = record { world = w; failure = some e }

-- The next step, unless there was a failure.
abbrev pub after : Outcome → (World → Outcome) → Outcome
after o next = elim o.failure [ none ↦ next o.world | some _ ↦ o ]

-- A step that changes only the files, or fails and leaves them.
abbrev pub store_step : World → JournalError → Option Store → Outcome
store_step w e none = failed w e
store_step w e (some s) = done (record w { store = s })

-- `Root.Remove`: a directory goes only when it is empty, and what is not there is not removed.
unfoldable pub remove_item : Bool → Store → Location → Option Store
unfolding lookup occupied
remove_item fault s l = elim (lookup s l) [
  | absent ↦ some s
  | folder _ _ ↦ if fault || occupied s l then none else some (put l absent s)
  | _ ↦ if fault then none else some (put l absent s)
]

unfoldable pub set_journal : Bytes → Journal → List (Bytes × Journal) → List (Bytes × Journal)
unfolding equal
set_journal id j [] = []
set_journal id j ((name, k) ∷ ts) =
    if equal name id then (name, j) ∷ ts else (name, k) ∷ set_journal id j ts

unfoldable pub drop_journal : Bytes → List (Bytes × Journal) → List (Bytes × Journal)
unfolding equal
drop_journal id [] = []
drop_journal id ((name, k) ∷ ts) =
    if equal name id then drop_journal id ts else (name, k) ∷ drop_journal id ts

rename_journal : Bytes → Bytes → List (Bytes × Journal) → List (Bytes × Journal)
unfolding equal
rename_journal id next [] = []
rename_journal id next ((name, k) ∷ ts) =
    if equal name id then (next, k) ∷ ts else (name, k) ∷ rename_journal id next ts

unfoldable pub retire_journal : Machine → Bytes → World → Outcome
unfolding drop_journal rename_journal
retire_journal m id w = elim (m.retirement id) [
  | stays ↦ failed w journal_not_retired
  | left_in_staging ↦
      failed
        (record w {
          transactions = rename_journal id (codes ".staging-complete-" ++ id) w.transactions;
        })
        journal_not_retired
  | gone ↦ done (record w { transactions = drop_journal id w.transactions })
]

-- `filepath.IsAbs(root) && filepath.Clean(root) == root`.
unfoldable pub clean_absolute : Bytes → Bool
unfolding has_prefix clean equal
clean_absolute root = has_prefix root (codes "/") && equal (clean root) root

-- `recoveryGitExclusion`: the place of the exclusion file, when the journal uses it.
unfoldable pub recovery_git_exclusion : Machine → Bool → Result Detail (Bytes × Bytes)
recovery_git_exclusion m uses =
    if uses
    then elim m.resolve_git_exclude [ none ↦ err exclusion_unresolved | some place ↦ ok place ]
    else ok ([], [])

unfoldable pub journal_location :
    Machine → Bytes × Bytes → Bool → Bytes → Bytes → Bytes → Result Detail Location
unfolding clean_absolute validate_target_path equal
journal_location m exclusion git_exclusion path physical_root physical_path =
    let external = do
      fail_if (not (clean_absolute physical_root)) (invalid_exclusion_root path)
      fail_if (not (is_ok (validate_target_path physical_path))) (invalid_exclusion_path path)
      fail_if (not (equal physical_root exclusion.0) || not (equal physical_path exclusion.1))
          (exclusion_elsewhere path)
      fail_if (not (m.opens physical_root)) root_unavailable
      ok (record { root = physical_root; path = physical_path })
    in if git_exclusion then external else ok (record { root = []; path = path })
