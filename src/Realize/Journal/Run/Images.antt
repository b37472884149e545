-- ===== src/Realize/Journal/Run/Images.antt =====
-- internal/realize/journal.go: the names of the before-images differ, so each entry finds its own.
use agentic_context_registry.Base.{
  subst, ℕ, suc, ◌+◌, ◌/◌, ◌%◌, ◌≤◌, ◌<◌, false, List, [], ◌∷◌, ◌++◌, Bytes, codes, index_digits,
  length, ◌≡◌, ◌⊎◌, inl, inr, refl, ◌∙◌, ap, Bool-cases, arith,
}
use agentic_context_registry.Realize.Journal.Store.{Item, file, Location, Store, lookup, put}
use agentic_context_registry.Realize.Journal.Parents.{lookup-put_same, lookup-put_cases}
use agentic_context_registry.Realize.Journal.Recovery.{image}
use agentic_context_registry.Realize.Journal.Apply.{PreparedOperation, image_name, journal_images}

pub index_digits-injective :
    (i j : ℕ) → i < 1000000 → j < 1000000 → index_digits i ≡ index_digits j → i ≡ j
unfolding index_digits
index_digits-injective i j p q e =
    let e5 : b'0' + i / 100000 % 10 ≡ b'0' + j / 100000 % 10 = cc in
    let e4 : b'0' + i / 10000 % 10 ≡ b'0' + j / 10000 % 10 = cc in
    let e3 : b'0' + i / 1000 % 10 ≡ b'0' + j / 1000 % 10 = cc in
    let e2 : b'0' + i / 100 % 10 ≡ b'0' + j / 100 % 10 = cc in
    let e1 : b'0' + i / 10 % 10 ≡ b'0' + j / 10 % 10 = cc in
    let e0 : b'0' + i % 10 ≡ b'0' + j % 10 = cc in omega arith

image_name-injective :
    (i j : ℕ) → i < 1000000 → j < 1000000 → image (image_name i) ≡ image (image_name j) → i ≡ j
unfolding image_name
image_name-injective i j p q e =
    index_digits-injective i j p q (same_tail (ap (λ (l : Location). l.path) e))
  where
    same_tail : {s t : Bytes} → codes "before/" ++ s ≡ codes "before/" ++ t → s ≡ t
    same_tail e = cc

-- Every operation from number `i` on whose target was there has its before-image.
abbrev pub Found : Store → ℕ → List PreparedOperation → Type 0
Found images i [] = Unit
Found images i (p ∷ ps) =
    ((p.snapshot.exists ≡ false)
      ⊎ (lookup images (image (image_name i)) ≡ file p.snapshot.content 0o600))
    × Found images (suc i) ps

Found-put :
    (images : Store) (i j : ℕ) (x : Item) (ps : List PreparedOperation)
    → i < j
    → j + length ps ≤ 1000000
    → Found images j ps
    → Found (put (image (image_name i)) x images) j ps
Found-put images i j x [] before few h = tt
Found-put images i j x (p ∷ ps) before few (h, k) = (
  elim h [
    | inl e ↦ inl e
    | inr e ↦ elim (lookup-put_cases (image (image_name i)) (image (image_name j)) x images) [
      | inl same ↦
          let equal_index = image_name-injective i j (omega arith) (omega arith) same.0 in
          absurd (omega arith)
      | inr other ↦ inr (other ∙ e)
    ]
  ],
  Found-put images i (suc j) x ps (omega arith) (omega arith) k,
)

pub journal_images-Found :
    (i : ℕ) (ps : List PreparedOperation)
    → i + length ps ≤ 1000000
    → Found (journal_images i ps) i ps
unfolding journal_images
journal_images-Found i [] few = tt
journal_images-Found i (p ∷ ps) few =
    let rest = journal_images-Found (suc i) ps (omega arith) in
    let x = file p.snapshot.content 0o600 in
    let others = journal_images (suc i) ps in
    elim (Bool-cases p.snapshot.exists) [
      | inr e ↦
          let same : others ≡ journal_images i (p ∷ ps) = rw (journal_images, e) refl in
          subst (λ (images : Store). Found images i (p ∷ ps)) same (inl e, rest)
      | inl e ↦
          let same : put (image (image_name i)) x others ≡ journal_images i (p ∷ ps) =
            rw (journal_images, e) refl in
          subst (λ (images : Store). Found images i (p ∷ ps)) same
            (
              inr (lookup-put_same (image (image_name i)) x others),
              Found-put others i (suc i) x ps (omega arith) (omega arith) rest,
            )
    ]
