-- ===== src/Realize/Journal/Recovery/Step.antt =====
-- internal/realize/journal.go: one turn of the loop that restores the targets, for an entry of a
-- realization: its target is a regular file or nothing, before and after.
use mathlib.Core.Path.{subst}
use agentic_context_registry.Base.{
  ℕ, true, false, List, [], ◌∷◌, some, Bytes, codes, equal, ◌≡◌, ◌⊎◌, inl, inr, refl, sym, ◌∙◌, All,
  Bool-cases, ok, true≢false,
}
use agentic_context_registry.Realize.Filesystem.{path_dir}
use agentic_context_registry.Realize.Journal.Store.{
  Item, absent, folder, file, Location, Store, lookup, put, in_root, write_file_atomic, check_write,
  replace_file, check_directory, check_destination,
}
use agentic_context_registry.Realize.Journal.Parents.{
  IsFolder, IsOpen, IsPlain, Above, parents, lookup-put_same, lookup-put_cases,
  validate_parent_directories-IsOpen, ensure_parent_directories-IsFolder,
}
use agentic_context_registry.Realize.Journal.Manifest.{World, is_file_transaction_removal}
use agentic_context_registry.Realize.Journal.Machine.{Machine, done, remove_item}
use agentic_context_registry.Realize.Journal.Recovery.{
  Recovery, restore_target, write_back, removed_is_intact,
}

-- `after` is `before`, with the item at one location.
abbrev pub Writes : Location → Item → Store → Store → Type 0
Writes l i before after =
    (lookup after l ≡ i) × ((k : Location) → (k ≡ l) ⊎ (lookup after k ≡ lookup before k))

pub put-Writes : (l : Location) (i : Item) (s : Store) → Writes l i s (put l i s)
put-Writes l i s = (
  lookup-put_same l i s,
  λ k. elim (lookup-put_cases l k i s) [ inl e ↦ inl (sym e.0) | inr e ↦ inr e ],
)

-- Every location is as it was, or as it was at the start.
abbrev pub Toward : Store → Store → Store → Type 0
Toward start before after =
    (l : Location) → (lookup after l ≡ lookup before l) ⊎ (lookup after l ≡ lookup start l)

pub Writes-Toward :
    (start before after : Store) (l : Location)
    → Writes l (lookup start l) before after
    → Toward start before after
Writes-Toward start before after l w k = elim (w.1 k) [
  | inl e ↦ inr (subst (λ (j : Location). lookup after j ≡ lookup start j) (sym e) w.0)
  | inr e ↦ inl e
]

pub remove_item-IsPlain :
    (s : Store) (l : Location)
    → IsPlain (lookup s l)
    → (after : Store) × (remove_item false s l ≡ some after) × Writes l absent s after
unfolding remove_item
remove_item-IsPlain s l h = by_item (lookup s l) refl h
  where
    by_item :
        (i : Item)
        → lookup s l ≡ i
        → IsPlain i
        → (after : Store) × (remove_item false s l ≡ some after) × Writes l absent s after
    by_item absent e h = (s, rw (e, remove_item) refl, (e, λ k. inr refl))
    by_item (file _ _) e h = (put l absent s, rw (e, remove_item) refl, put-Writes l absent s)
    by_item _ e h = absurd h

pub IsFolder-IsOpen : (s : Store) (l : Location) → Above IsFolder s l → Above IsOpen s l
IsFolder-IsOpen s l h = all (parents l.path) h
  where
    all :
        (paths : List Bytes)
        → All (λ path. IsFolder (lookup s (in_root l path))) paths
        → All (λ path. IsOpen (lookup s (in_root l path))) paths
    all [] h = tt
    all (path ∷ paths) (h, k) = (open_item (lookup s (in_root l path)) h, all paths k)
      where
        open_item : (i : Item) → IsFolder i → IsOpen i
        open_item (folder _ _) h = tt
        open_item _ h = absurd h

check_directory-IsFolder : (i : Item) → IsFolder i → check_directory i ≡ ok tt
unfolding check_directory
check_directory-IsFolder (folder _ _) h = refl
check_directory-IsFolder _ h = absurd h

check_destination-IsPlain : (i : Item) → IsPlain i → check_destination i ≡ ok tt
unfolding check_destination
check_destination-IsPlain absent h = refl
check_destination-IsPlain (file _ _) h = refl
check_destination-IsPlain _ h = absurd h

pub write_file_atomic-IsPlain :
    (s : Store) (l : Location) (content : Bytes) (perm : ℕ)
    → IsPlain (lookup s l)
    → Above IsFolder s l
    → write_file_atomic false s l content perm ≡ ok (put l (file content perm) s)
unfolding write_file_atomic check_write replace_file parents
write_file_atomic-IsPlain s l content perm plain above =
    let passed = validate_parent_directories-IsOpen s l (IsFolder-IsOpen s l above) in
    let written = check_destination-IsPlain (lookup s l) plain in
    elim (Bool-cases (equal (path_dir l.path) (codes "."))) [
      | inl e ↦ rw (passed, e, written) refl
      | inr e ↦
          rw
            (
              passed,
              e,
              check_directory-IsFolder (lookup s (in_root l (path_dir l.path))) (rw e at above).0,
              written,
            )
            refl
    ]

-- What the loop knows of an entry before its turn.
pub record Ready (start s : Store) (r : Recovery) : Type 0 where
  pub realized : (r.entry.operation ≡ []) × (r.entry.symlink_target ≡ [])
  pub plain : IsPlain (lookup s r.location)
  pub earlier :
      ((r.entry.before_exists ≡ true)
        × (lookup start r.location ≡ file r.before r.entry.before_mode)
        × Above IsFolder start r.location
        × Above IsFolder s r.location)
      ⊎ ((r.entry.before_exists ≡ false) × (lookup start r.location ≡ absent))
  pub turn : (r.restore ≡ true) ⊎ (lookup s r.location ≡ lookup start r.location)

-- The target holds what it held at the start, and no other location loses that.
pub restore_target-Toward :
    (m : Machine) (id : Bytes) (start : Store) (w : World) (r : Recovery)
    → ((l : Location) → m.restore_fails l ≡ false)
    → Ready start w.store r
    → (s : Store) × (restore_target m id w r ≡ done (record w { store = s }))
      × Toward start w.store s
      × (lookup s r.location ≡ lookup start r.location)
unfolding restore_target write_back removed_is_intact is_file_transaction_removal
restore_target-Toward m id start w r faultless ready = elim (Bool-cases r.restore) [
  | inr e ↦ elim ready.turn [
    | inl k ↦ absurd (true≢false (sym k ∙ e))
    | inr k ↦ (w.store, rw e refl, λ l. inl refl, k)
  ]
  | inl e ↦ elim ready.earlier [
    | inr gone ↦
        let (s, removed, writes) = remove_item-IsPlain w.store r.location ready.plain in
        (
          s,
          rw (e, gone.0, faultless r.location, removed) refl,
          Writes-Toward start w.store s r.location (rw gone.1 writes),
          writes.0 ∙ sym gone.1,
        )
    | inl there ↦
        let l = r.location in
        let s = put l (file r.before r.entry.before_mode) w.store in
        let writes = put-Writes l (file r.before r.entry.before_mode) w.store in
        let above = there.3 in
        (
          s,
          rw
              (
                e,
                there.0,
                ensure_parent_directories-IsFolder w.store l m.identity above,
                ready.realized.0,
                ready.realized.1,
                faultless l,
                write_file_atomic-IsPlain w.store l r.before r.entry.before_mode ready.plain above,
              )
              refl,
          Writes-Toward start w.store s l (rw there.1 writes),
          writes.0 ∙ sym there.1,
        )
  ]
]
