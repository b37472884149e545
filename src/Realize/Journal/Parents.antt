-- ===== src/Realize/Journal/Parents.antt =====
-- internal/realize/filesystem.go and transaction.go: the directories above a file, and when the checks
-- of them pass.
use agentic_context_registry.Base.{
  ℕ, true, false, List, [], ◌∷◌, ◌++◌, Bytes, codes, equal, equal_iff, split, if◌then◌else◌,
  is_empty, ◌≡◌, ◌⊎◌, inl, inr, refl, All, Bool-cases, ok, if_true, if_false, &&-eq-true,
}
use agentic_context_registry.Realize.RealizationPath.{clean}
use agentic_context_registry.Realize.Filesystem.{
  missing, directory, path_dir, check_parents, validate_parent_directories,
}
use agentic_context_registry.Realize.Journal.Store.{
  Item, absent, folder, file, node, Location, Store, lookup, put, same_location, disk_at, in_root,
  Parents, make_parents, parent_step, ensure_parent_directories,
}

abbrev pub IsFolder : Item → Type 0
IsFolder (folder _ _) = Unit
IsFolder _ = ⊥

-- A directory, or a place for one.
abbrev pub IsOpen : Item → Type 0
IsOpen (folder _ _) = Unit
IsOpen absent = Unit
IsOpen _ = ⊥

-- A regular file, or a place for one.
abbrev pub IsPlain : Item → Type 0
IsPlain (file _ _) = Unit
IsPlain absent = Unit
IsPlain _ = ⊥

unfoldable pub parent_chain : Bytes → List Bytes → List Bytes
parent_chain current [] = []
parent_chain current (component ∷ components) =
    let next = if is_empty current then component else clean (current ++ (b'/' ∷ component)) in
    next ∷ parent_chain next components

-- The directories that `ensureParentDirectories` looks at, and the one that holds the file.
unfoldable pub parents : Bytes → List Bytes
unfolding parent_chain path_dir split equal
parents path =
    let (part, parts) = split b'/' (path_dir path) in
    if equal (path_dir path) (codes ".") then [] else path_dir path ∷ parent_chain [] (part ∷ parts)

-- All of them satisfy a predicate.
abbrev pub Above : (Item → Type 0) → Store → Location → Type 0
Above P s l = All (λ path. P (lookup s (in_root l path))) (parents l.path)

pub same_location_iff_left : (a b : Location) → same_location a b ≡ true → a ≡ b
unfolding same_location
same_location_iff_left a b h =
    let both = &&-eq-true (equal a.root b.root) (equal a.path b.path) h in
    let p = (equal_iff a.root b.root).0 both.0 in let q = (equal_iff a.path b.path).0 both.1 in cc

pub same_location_refl : (a : Location) → same_location a a ≡ true
unfolding same_location
same_location_refl a = rw ((equal_iff a.root a.root).1 refl, (equal_iff a.path a.path).1 refl) refl

pub lookup-put_same : (l : Location) (i : Item) (s : Store) → lookup (put l i s) l ≡ i
unfolding lookup
lookup-put_same l i s = rw (same_location_refl l) refl

pub lookup-put_cases :
    (k l : Location) (i : Item) (s : Store)
    → ((k ≡ l) × (lookup (put k i s) l ≡ i)) ⊎ (lookup (put k i s) l ≡ lookup s l)
unfolding lookup
lookup-put_cases k l i s = elim (Bool-cases (same_location k l)) [
  | inl e ↦ inl (same_location_iff_left k l e, if_true (same_location k l) i (lookup s l) e)
  | inr e ↦ inr (if_false (same_location k l) i (lookup s l) e)
]

-- What an item shows of a directory.
node-IsFolder : (i : Item) → IsFolder i → node i ≡ directory
node-IsFolder (folder _ _) h = refl
node-IsFolder _ h = absurd h

node-IsOpen : (i : Item) → IsOpen i → (node i ≡ directory) ⊎ (node i ≡ missing)
node-IsOpen (folder _ _) h = inl refl
node-IsOpen absent h = inr refl
node-IsOpen _ h = absurd h

module _ (s : Store) (l : Location) where
  check_parents-IsOpen :
      (current : Bytes) (components : List Bytes)
      → All (λ path. IsOpen (lookup s (in_root l path))) (parent_chain current components)
      → check_parents (disk_at s l.root) current components ≡ ok tt
  unfolding check_parents parent_chain disk_at
  check_parents-IsOpen current [] h = refl
  check_parents-IsOpen current (component ∷ components) h =
      let next = if is_empty current then component else clean (current ++ (b'/' ∷ component)) in
      elim (node-IsOpen (lookup s (in_root l next)) h.0) [
        | inl e ↦ rw (e, check_parents) (check_parents-IsOpen next components h.1)
        | inr e ↦ rw (e, check_parents) refl
      ]

  pub validate_parent_directories-IsOpen :
      Above IsOpen s l → validate_parent_directories (disk_at s l.root) l.path ≡ ok tt
  unfolding validate_parent_directories parents
  validate_parent_directories-IsOpen h = elim (Bool-cases (equal (path_dir l.path) (codes "."))) [
    | inl e ↦ rw e refl
    | inr e ↦ rw e (
        check_parents-IsOpen []
          ((split b'/' (path_dir l.path)).0 ∷ (split b'/' (path_dir l.path)).1) (rw e at h).1)
  ]

  make_parents-IsFolder :
      (identity : Location → ℕ × ℕ) (current : Bytes) (components : List Bytes)
      → All (λ path. IsFolder (lookup s (in_root l path))) (parent_chain current components)
      → make_parents identity l
          (record { store = s; created = []; failure = false })
          current
          components
        ≡ record { store = s; created = []; failure = false }
  unfolding make_parents parent_step parent_chain
  make_parents-IsFolder identity current [] h = refl
  make_parents-IsFolder identity current (component ∷ components) h =
      let next = if is_empty current then component else clean (current ++ (b'/' ∷ component)) in
      let none_yet : Parents = record { store = s; created = []; failure = false } in
      let step : parent_step identity l none_yet next (lookup s (in_root l next)) ≡ none_yet =
        folder_step next (lookup s (in_root l next)) h.0 in
      rw (step, make_parents) (make_parents-IsFolder identity next components h.1)
    where
      folder_step :
          (next : Bytes) (i : Item)
          → IsFolder i
          → parent_step identity l (record { store = s; created = []; failure = false }) next i
            ≡ record { store = s; created = []; failure = false }
      folder_step next (folder _ _) k = refl
      folder_step next _ k = absurd k

  pub ensure_parent_directories-IsFolder :
      (identity : Location → ℕ × ℕ)
      → Above IsFolder s l
      → ensure_parent_directories identity l s ≡ record { store = s; created = []; failure = false }
  unfolding ensure_parent_directories parents
  ensure_parent_directories-IsFolder identity h =
      elim (Bool-cases (equal (path_dir l.path) (codes "."))) [
        | inl e ↦ rw e refl
        | inr e ↦ rw e (
            make_parents-IsFolder identity []
              ((split b'/' (path_dir l.path)).0 ∷ (split b'/' (path_dir l.path)).1) (rw e at h).1)
      ]
