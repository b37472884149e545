-- ===== src/Realize/Planner/Fragments.antt =====
-- The tests on preserved fragments, read as statements about the fragments.
use agentic_context_registry.Base.{
  true, false, not, ◌&&◌, ◌||◌, List, [], ◌∷◌, Bytes, contains, equal, equal_iff, is_empty, ◌≡◌,
  ◌≢◌, inl, inr, refl, ◌∙◌, In, arith, &&-eq-true, ||-eq-false, not-eq-false, Bool-cases,
}
use agentic_context_registry.Realize.Model.{Intent}
use agentic_context_registry.Realize.Filesystem.{FileSnapshot}
use agentic_context_registry.Realize.Planner.Decide.{
  preserves, has_nonempty_fragment, has_unpreserved_content, is_bound_merge,
}
use agentic_context_registry.Realize.Planner.Spec.{IsBound, KeepsFile}

is_empty-eq-true : (s : Bytes) → is_empty s ≡ true → s ≡ []
is_empty-eq-true [] h = refl
is_empty-eq-true (c ∷ s) h = cc

is_empty-eq-false : (s : Bytes) → is_empty s ≡ false → s ≢ []
is_empty-eq-false [] h = cc
is_empty-eq-false (c ∷ s) h = λ e. cc

pub is_empty-ne : (s : Bytes) → s ≢ [] → is_empty s ≡ false
is_empty-ne [] h = absurd (h refl)
is_empty-ne (c ∷ s) h = refl

pub preserves-contains :
    (rendered f : Bytes) (fs : List Bytes)
    → preserves rendered fs ≡ true
    → In f fs
    → f ≢ []
    → contains rendered f ≡ true
unfolding preserves
preserves-contains rendered f [] h m ne = absurd m
preserves-contains rendered f (g ∷ fs) h (inl e) ne =
    let first = (&&-eq-true (is_empty g || contains rendered g) (preserves rendered fs) h).0 in
    rw e (ground (arith, first, is_empty-ne g (λ z. ne (e ∙ z))))
preserves-contains rendered f (g ∷ fs) h (inr m) ne =
    preserves-contains rendered f fs
      (&&-eq-true (is_empty g || contains rendered g) (preserves rendered fs) h).1 m ne

pub has_nonempty_fragment-eq-true :
    (fs : List Bytes) → has_nonempty_fragment fs ≡ true → (f : Bytes) × In f fs × (f ≢ [])
unfolding has_nonempty_fragment
has_nonempty_fragment-eq-true [] h = absurd (cc h)
has_nonempty_fragment-eq-true (f ∷ fs) h = elim (Bool-cases (is_empty f)) [
  | inl e ↦ let (g, m, ne) = has_nonempty_fragment-eq-true fs (rw e at h) in (g, inr m, ne)
  | inr e ↦ (f, inl refl, is_empty-eq-false f e)
]

pub has_nonempty_fragment-eq-false :
    (f : Bytes) (fs : List Bytes) → has_nonempty_fragment fs ≡ false → In f fs → f ≡ []
unfolding has_nonempty_fragment
has_nonempty_fragment-eq-false f [] h m = absurd m
has_nonempty_fragment-eq-false f (g ∷ fs) h (inl e) =
    let (a, b) = ||-eq-false (not (is_empty g)) (has_nonempty_fragment fs) h in
    e ∙ is_empty-eq-true g (not-eq-false (is_empty g) a)
has_nonempty_fragment-eq-false f (g ∷ fs) h (inr m) =
    has_nonempty_fragment-eq-false f fs
      (||-eq-false (not (is_empty g)) (has_nonempty_fragment fs) h).1 m

pub IsBound-intro :
    (i : Intent) (snapshot : FileSnapshot)
    → i.managed_intact ≡ true
    → equal i.observed_hash snapshot.hash ≡ true
    → preserves i.content i.preserved_content ≡ true
    → IsBound i snapshot
IsBound-intro i snapshot a b c = record {
  intact = a;
  observed = (equal_iff i.observed_hash snapshot.hash).0 b;
  holds = λ f m ne. preserves-contains i.content f i.preserved_content c m ne;
}

pub is_bound_merge-IsBound :
    (i : Intent) (snapshot : FileSnapshot) → is_bound_merge i snapshot ≡ true → IsBound i snapshot
unfolding is_bound_merge
is_bound_merge-IsBound i snapshot h =
    let same = equal i.observed_hash snapshot.hash in
    let (ab, c) =
      &&-eq-true (i.managed_intact && same) (preserves i.content i.preserved_content) h in
    let (a, b) = &&-eq-true i.managed_intact same ab in IsBound-intro i snapshot a b c

pub KeepsFile-intro :
    (i : Intent) (snapshot : FileSnapshot)
    → has_unpreserved_content snapshot i ≡ false
    → snapshot.exists ≡ true
    → KeepsFile i snapshot
unfolding has_unpreserved_content
KeepsFile-intro i snapshot h there = record {
  own = λ f m ne.
      preserves-contains snapshot.content f i.preserved_content (ground (arith, h, there)) m ne;
  some_fragment = λ ne.
      has_nonempty_fragment-eq-true i.preserved_content
        (ground (arith, h, there, is_empty-ne snapshot.content ne));
}
