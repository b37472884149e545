-- ===== src/Realize/Journal/Recovery/Loops.antt =====
-- internal/realize/journal.go: the loops that restore the targets and remove the directories.
use agentic_context_registry.Base.{
  false, not, ◌&&◌, List, [], ◌∷◌, Bytes, ◌==◌, ◌≡◌, ◌⊎◌, inl, inr, refl, sym, ◌∙◌, All, All-In,
  All-intro, Bool-cases, ok,
}
use agentic_context_registry.Realize.Journal.Store.{
  Item, absent, unreadable, other, folder, link, file, Location, Store, lookup, put, in_root,
  occupied,
}
use agentic_context_registry.Realize.Journal.Parents.{
  IsFolder, IsPlain, Above, parents, lookup-put_cases,
}
use agentic_context_registry.Realize.Journal.Manifest.{JournalDirectory, World}
use agentic_context_registry.Realize.Journal.Machine.{Machine, done, journal_location}
use agentic_context_registry.Realize.Journal.Recovery.{
  Recovery, restore_targets, remove_if_made, remove_directories,
}
use agentic_context_registry.Realize.Journal.Recovery.Step.{Toward, Ready, restore_target-Toward}

Toward-trans : (start a b c : Store) → Toward start a b → Toward start b c → Toward start a c
Toward-trans start a b c p q l = elim (q l) [
  | inl e ↦ elim (p l) [ inl f ↦ inl (e ∙ f) | inr f ↦ inr (e ∙ f) ]
  | inr e ↦ inr e
]

-- A predicate of the item that holds at the start and now keeps holding.
Toward-keeps :
    (P : Item → Type 0) (start a b : Store) (l : Location)
    → Toward start a b
    → P (lookup start l)
    → P (lookup a l)
    → P (lookup b l)
Toward-keeps P start a b l t p q = elim (t l) [ inl e ↦ rw e q | inr e ↦ rw e p ]

Above-Toward :
    (start a b : Store) (l : Location)
    → Toward start a b
    → Above IsFolder start l
    → Above IsFolder a l
    → Above IsFolder b l
Above-Toward start a b l t p q = along (parents l.path) p q
  where
    along :
        (paths : List Bytes)
        → All (λ path. IsFolder (lookup start (in_root l path))) paths
        → All (λ path. IsFolder (lookup a (in_root l path))) paths
        → All (λ path. IsFolder (lookup b (in_root l path))) paths
    along [] p q = tt
    along (path ∷ paths) (p, ps) (q, qs) =
        (Toward-keeps IsFolder start a b (in_root l path) t p q, along paths ps qs)

Ready-Toward :
    (start a b : Store) (r : Recovery) → Toward start a b → Ready start a r → Ready start b r
Ready-Toward start a b r t ready = record {
  realized = ready.realized;
  plain = Toward-keeps IsPlain start a b r.location t plain_at_start ready.plain;
  earlier = elim ready.earlier [
    | inl k ↦ inl (k.0, k.1, k.2, Above-Toward start a b r.location t k.2 k.3)
    | inr k ↦ inr k
  ];
  turn = elim ready.turn [
    | inl e ↦ inl e
    | inr e ↦ elim (t r.location) [ inl f ↦ inr (f ∙ e) | inr f ↦ inr f ]
  ];
}
  where
    plain_at_start : IsPlain (lookup start r.location)
    plain_at_start = elim ready.earlier [ inl k ↦ rw (k.1) tt | inr k ↦ rw (k.1) tt ]

module _ (m : Machine) (id : Bytes) (start : Store)
    (faultless : (l : Location) → m.restore_fails l ≡ false) where
  pub restore_targets-Toward :
      (rs : List Recovery) (w : World)
      → All (Ready start w.store) rs
      → (s : Store) × (restore_targets m id rs w ≡ done (record w { store = s }))
        × Toward start w.store s
        × All (λ r. lookup s r.location ≡ lookup start r.location) rs
  unfolding restore_targets
  restore_targets-Toward [] w h = (w.store, refl, λ l. inl refl, tt)
  restore_targets-Toward (r ∷ rs) w (ready, h) =
      let (s, first, toward, back) = restore_target-Toward m id start w r faultless ready in
      let next : All (Ready start s) rs =
        All-intro (Ready start s) rs
          (λ q i. Ready-Toward start w.store s q toward (All-In (Ready start w.store) q rs h i)) in
      let (t, rest, onward, all_back) = restore_targets-Toward rs (record w { store = s }) next in
      (
        t,
        rw (first, rest) refl,
        Toward-trans start w.store s t toward onward,
        (elim (onward r.location) [ inl e ↦ e ∙ back | inr e ↦ e ], all_back),
      )

-- As it was at the start, but that a directory may stand where there was nothing.
abbrev pub Returned : Store → Store → Location → Type 0
Returned start s l =
    (lookup s l ≡ lookup start l) ⊎ ((lookup start l ≡ absent) × IsFolder (lookup s l))

-- A directory of the manifest, in a place where there was nothing.
abbrev pub Made : Machine → Bytes × Bytes → Store → JournalDirectory → Type 0
Made m exclusion start d =
    (l : Location) × (journal_location m exclusion d.git_exclusion d.path d.physical_root
        d.physical_path
      ≡ ok l)
    × (lookup start l ≡ absent)

unreadable≢absent : ◌≡◌ {A = Item} unreadable absent → ⊥
unreadable≢absent e = cc

module _ (m : Machine) (id : Bytes) (exclusion : Bytes × Bytes) (start : Store) where
  remove_if_made-Returned :
      (d : JournalDirectory) (l : Location) (w : World)
      → lookup start l ≡ absent
      → ((k : Location) → Returned start w.store k)
      → (s : Store) × (remove_if_made d l w ≡ done (record w { store = s }))
        × ((k : Location) → Returned start s k)
  unfolding remove_if_made
  remove_if_made-Returned d l w e h = by_item (lookup w.store l) refl (h l)
    where
      by_item :
          (i : Item)
          → lookup w.store l ≡ i
          → Returned start w.store l
          → (s : Store) × (remove_if_made d l w ≡ done (record w { store = s }))
            × ((k : Location) → Returned start s k)
      by_item (folder device inode) f r =
          elim (Bool-cases (device == d.device && inode == d.inode && not (occupied w.store l))) [
            | inl t ↦ (
              put l absent w.store,
              rw (f, remove_if_made, t) refl,
              λ k. elim (lookup-put_cases l k absent w.store) [
                | inl g ↦ inl (g.1 ∙ sym e ∙ rw g.0 refl)
                | inr g ↦ elim (h k) [ inl n ↦ inl (g ∙ n) | inr n ↦ inr (n.0, rw g n.1) ]
              ],
            )
            | inr t ↦ (w.store, rw (f, remove_if_made, t) refl, h)
          ]
      by_item absent f r = (w.store, rw (f, remove_if_made) refl, h)
      by_item other f r = (w.store, rw (f, remove_if_made) refl, h)
      by_item (link _ _) f r = (w.store, rw (f, remove_if_made) refl, h)
      by_item (file _ _) f r = (w.store, rw (f, remove_if_made) refl, h)
      by_item unreadable f r = elim r [
        | inl k ↦ absurd (unreadable≢absent (sym f ∙ k ∙ e))
        | inr k ↦ absurd (rw f at k.1)
      ]

  pub remove_directories-Returned :
      (ds : List JournalDirectory) (w : World)
      → All (Made m exclusion start) ds
      → ((k : Location) → Returned start w.store k)
      → (s : Store) × (remove_directories m id exclusion ds w ≡ done (record w { store = s }))
        × ((k : Location) → Returned start s k)
  unfolding remove_directories
  remove_directories-Returned [] w made h = (w.store, refl, h)
  remove_directories-Returned (d ∷ ds) w ((l, found, nothing), made) h =
      let (s, first, back) = remove_if_made-Returned d l w nothing h in
      let (t, rest, all_back) = remove_directories-Returned ds (record w { store = s }) made back in
      (t, rw (found, first, rest) refl, all_back)
