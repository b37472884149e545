-- ===== src/Packageref/References/Same.antt =====
-- internal/packageref/references.go: when RebasePackageReferences leaves a content as it is.
use agentic_context_registry.Base.{
  true, false, true≢false, contains, has_prefix, has_prefix-append, ap₂, sym, ap, ◌∙◌, [], ◌∷◌,
  ◌++◌, some, Bytes, codes, ◌≡◌, inl, inr, refl, In, All, All-In, arith,
}
use agentic_context_registry.Packageref.References.{
  SkillRebase, SkillReferences, installed, rebase_package_references,
}
use agentic_context_registry.Packageref.Spliced.{Spliced, ended, byte_kept, reference}
use agentic_context_registry.Packageref.References.Rebased.{
  IsReference, source_path, native_path, rebase_package_references-Spliced,
}

-- What is found at the front of a text, or further on, is found in the text.
has_prefix-front : (s p q : Bytes) → has_prefix s (p ++ q) ≡ true → has_prefix s p ≡ true
unfolding has_prefix
has_prefix-front s [] q h = refl
has_prefix-front [] (b ∷ p) q h = cc
has_prefix-front (c ∷ s) (b ∷ p) q h = ground (arith, h, has_prefix-front s p q)

contains-front : (s p q : Bytes) → contains s (p ++ q) ≡ true → contains s p ≡ true
unfolding contains
contains-front [] [] q h = refl
contains-front [] (b ∷ p) q h = cc
contains-front (c ∷ s) p q h = ground (arith, h, has_prefix-front (c ∷ s) p q, contains-front s p q)

contains-behind : (p s old : Bytes) → contains s old ≡ true → contains (p ++ s) old ≡ true
unfolding contains
contains-behind [] s old h = h
contains-behind (c ∷ p) s old h = ground (arith, contains-behind p s old h)

contains-append : (old s : Bytes) → contains (old ++ s) old ≡ true
unfolding contains has_prefix
contains-append [] [] = refl
contains-append [] (c ∷ s) = refl
contains-append (c ∷ old) s = ground (arith, has_prefix-append (c ∷ old) s)

-- Where every reference that a text holds stands for itself, the text stays.
Spliced-contained :
    {R : Bytes → Bytes → Type 0} {s t : Bytes}
    → Spliced R s t
    → ((old new : Bytes) → R old new → contains s old ≡ true → old ≡ new)
    → s ≡ t
unfolding contains
Spliced-contained ended same = refl
Spliced-contained (byte_kept c {s} {t} rest) same =
    ap (λ u. c ∷ u)
      (Spliced-contained rest (λ old new r h. same old new r (contains-behind (c ∷ []) s old h)))
Spliced-contained (reference old new {s} {t} r rest) same =
    ap₂ (λ a b. a ++ b) (same old new r (contains-append old s))
      (Spliced-contained rest (λ o n q h. same o n q (contains-behind old s o h)))

-- Rebasing a package onto its own roots leaves a content as it is, where the content does not name
-- the place at which Tessl installed the package, under any of its identities.
pub rebase_package_references_same :
    (content : Bytes) (references : SkillReferences)
    → All (λ r. r.source_root ≡ r.native_root) references.rebases
    → All (λ identity. contains content (installed identity) ≡ false) references.identities
    → rebase_package_references content references ≡ some content
rebase_package_references_same content references all_same unnamed =
    let (result, ran, spliced) = rebase_package_references-Spliced content references in
    let same = Spliced-contained spliced itself in ran ∙ ap some (sym same)
  where
    rooted : (r : SkillRebase) → In r references.rebases → source_path r ≡ native_path r
    rooted r i =
        ap (λ s. s ++ codes "/")
          (All-In (λ (q : SkillRebase). q.source_root ≡ q.native_root) r references.rebases all_same
            i)

    itself :
        (old new : Bytes) → IsReference references old new → contains content old ≡ true → old ≡ new
    itself old new (r, i, written, inl e) h = e ∙ rooted r i ∙ sym written
    itself old new (r, i, written, inr (identity, j, e)) h =
        let absent =
          All-In (λ q. contains content (installed q) ≡ false) identity references.identities
            unnamed j in
        let named = contains-front content (installed identity) (source_path r) (rw e at h) in
        absurd (true≢false (sym named ∙ absent))
