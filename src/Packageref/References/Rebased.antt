-- ===== src/Packageref/References/Rebased.antt =====
-- internal/packageref/references.go: RebasePackageReferences ends, and changes references of the
-- package only.
use agentic_context_registry.Base.{
  ℕ, zero, suc, ◌+◌, ◌<◌, ◌≤◌, true, List, [], ◌∷◌, ◌++◌, some, Bytes, codes, has_prefix,
  has_prefix-eq-true, if_elim, leb, length, drop, drop-drop, length-append, append_assoc, is_empty,
  ◌≡◌, ◌⊎◌, inl, inr, refl, sym, ap, ◌∙◌, subst, In, Bool-cases, Option-cases, none≢some,
  some-injective, arith,
}
use agentic_context_registry.Packageref.Scanner.{
  ReferenceScanner, new_reference_scanner, at_reference_start,
}
use agentic_context_registry.Packageref.References.{
  SkillRebase, SkillReferences, Match, match_package_root, match_identity, installed, carried_width,
  match_reference, write_reference, rebase_turn, rebase_loop, rebase_package_references,
}
use agentic_context_registry.Packageref.Spliced.{
  Spliced, ended, byte_kept, Advances, Spliced-past, keep_byte-Advances, splice-Advances,
}

abbrev pub source_path : SkillRebase → Bytes
source_path r = r.source_root ++ codes "/"

abbrev pub native_path : SkillRebase → Bytes
native_path r = r.native_root ++ codes "/"

-- A path below one of the package's own roots, or below the place where Tessl installed the package
-- under one of its identities, and the installed path of the same root.
abbrev pub IsReference : SkillReferences → Bytes → Bytes → Type 0
IsReference references old new =
    (r : SkillRebase) × In r references.rebases
    × (new ≡ native_path r)
    × ((old ≡ source_path r)
        ⊎ ((identity : Bytes) × In identity references.identities
            × (old ≡ installed identity ++ source_path r)))

match_package_root-In :
    (rs : List SkillRebase) (rest : Bytes) (width : ℕ) (native : Bytes)
    → match_package_root rs rest ≡ some (width, native)
    → (r : SkillRebase) × In r rs
      × (native ≡ native_path r)
      × (width ≡ length (source_path r))
      × (rest ≡ source_path r ++ drop (length (source_path r)) rest)
unfolding match_package_root
match_package_root-In [] rest width native e = absurd (none≢some e)
match_package_root-In (r ∷ rs) rest width native e =
    elim (Bool-cases (has_prefix rest (source_path r))) [
      | inl p ↦
          let pair : (length (source_path r), native_path r) ≡ (width, native) =
            some-injective (rw (match_package_root, p) at e) in
          (
            r,
            inl refl,
            sym (ap (λ (q : ℕ × Bytes). q.1) pair),
            sym (ap (λ (q : ℕ × Bytes). q.0) pair),
            has_prefix-eq-true rest (source_path r) p,
          )
      | inr p ↦
          let (q, i, written, size, found) =
            match_package_root-In rs rest width native (rw (match_package_root, p) at e) in
          (q, inr i, written, size, found)
    ]

-- What a match finds: the old text stands in front.
abbrev Finds : SkillReferences → Bytes → ℕ → Bytes → Type 0
Finds references rest width native =
    (old : Bytes) × IsReference references old native
    × (width ≡ length old)
    × (0 < length old)
    × (rest ≡ old ++ drop (length old) rest)

source_path-nonempty : (p : Bytes) (r : SkillRebase) → 0 < length (p ++ source_path r)
source_path-nonempty p r =
    let whole = length-append p (source_path r) in
    let slash = length-append r.source_root (codes "/") in omega arith

module _ (references : SkillReferences) (rest : Bytes) (width : ℕ) (native : Bytes) where
  match_package_root-Finds :
      match_package_root references.rebases rest ≡ some (width, native)
      → Finds references rest width native
  match_package_root-Finds e =
      let (r, i, written, size, found) =
        match_package_root-In references.rebases rest width native e in
      (source_path r, (r, i, written, inl refl), size, source_path-nonempty [] r, found)

  match_identity-Finds :
      (identities : List Bytes)
      → ((identity : Bytes) → In identity identities → In identity references.identities)
      → match_identity references.rebases identities rest ≡ some (width, native)
      → Finds references rest width native
  unfolding match_identity
  match_identity-Finds [] among e = absurd (none≢some e)
  match_identity-Finds (identity ∷ identities) among e =
      elim (Bool-cases (has_prefix rest (installed identity))) [
        | inr p ↦
            match_identity-Finds identities (λ d i. among d (inr i)) (rw (match_identity, p) at e)
        | inl p ↦
            let behind = drop (length (installed identity)) rest in
            elim (Option-cases (match_package_root references.rebases behind)) [
              | inl m ↦
                  match_identity-Finds identities (λ d i. among d (inr i))
                    (rw (match_identity, p, m) at e)
              | inr ((w, n), m) ↦
                  let pair : (length (installed identity) + w, n) ≡ (width, native) =
                    some-injective (rw (match_identity, p, m) at e) in
                  let size = ap (λ (q : ℕ × Bytes). q.0) pair in
                  let (r, i, written, wide, found) =
                    match_package_root-In references.rebases behind w n m in
                  let front = has_prefix-eq-true rest (installed identity) p in
                  let old = installed identity ++ source_path r in
                  let long = length-append (installed identity) (source_path r) in
                  let skip : drop (length (source_path r)) behind ≡ drop (length old) rest =
                    drop-drop (length (installed identity)) (length (source_path r)) rest
                    ∙ ap (λ k. drop k rest) (sym long) in
                  let whole : rest ≡ old ++ drop (length old) rest =
                    front
                    ∙ ap (λ s. installed identity ++ s) (found ∙ ap (λ s. source_path r ++ s) skip)
                    ∙ sym (
                        append_assoc (installed identity) (source_path r)
                          (drop (length old) rest)) in
                  (
                    old,
                    (
                      r,
                      i,
                      sym (ap (λ (q : ℕ × Bytes). q.1) pair) ∙ written,
                      inr (identity, among identity (inl refl), refl),
                    ),
                    sym size ∙ ap (λ k. length (installed identity) + k) wide ∙ sym long,
                    source_path-nonempty (installed identity) r,
                    whole,
                  )
            ]
      ]

-- What stands behind the escape and the assignment of a match.
match_reference-Finds :
    (references : SkillReferences) (rest : Bytes) (m : Match)
    → match_reference references rest ≡ some m
    → Finds references (drop m.carried rest) m.width m.native
unfolding match_reference
match_reference-Finds references rest m e =
    let behind = drop (carried_width rest) rest in
    elim (Option-cases (match_package_root references.rebases behind)) [
      | inr ((width, native), found) ↦
          subst (λ (k : Match). Finds references (drop k.carried rest) k.width k.native)
            (some-injective (rw (match_reference, found) at e))
            (match_package_root-Finds references behind width native found)
      | inl missed ↦
          elim (Option-cases (match_identity references.rebases references.identities behind)) [
            | inl none_found ↦ absurd (none≢some (rw (match_reference, missed, none_found) at e))
            | inr ((width, native), found) ↦
                subst (λ (k : Match). Finds references (drop k.carried rest) k.width k.native)
                  (some-injective (rw (match_reference, missed, found) at e))
                  (match_identity-Finds references behind width native references.identities
                    (λ _ i. i) found)
          ]
    ]

module _ (references : SkillReferences) (content : Bytes) where
  -- While there is content left, a turn of the rewriting takes at least one byte and none that is not
  -- there, and what it writes stands for what it takes.
  pub rebase_turn-Advances :
      (scanner : ReferenceScanner)
      → scanner.index < length content
      → Advances
          (IsReference references)
          content
          scanner.index
          (rebase_turn references content scanner)
  unfolding rebase_turn write_reference
  rebase_turn-Advances scanner p =
      let R = IsReference references in
      let plain = keep_byte-Advances R content scanner p in
      let rest = drop scanner.index content in
      if_elim (Advances R content scanner.index) (at_reference_start scanner)
        (λ _. elim (Option-cases (match_reference references rest)) [
          | inl e ↦ rw e plain
          | inr (m, e) ↦
              let (old, r, size, nonempty, found) = match_reference-Finds references rest m e in
              rw (e, size)
                (splice-Advances R content scanner m.carried old m.native nonempty r found)
        ])
        (λ _. plain)

  rebase_loop-Spliced :
      (fuel : ℕ) (scanner : ReferenceScanner)
      → length content ≤ scanner.index + fuel
      → (result : Bytes) × (rebase_loop references content fuel scanner ≡ some result)
        × Spliced (IsReference references) (drop scanner.index content) result
  unfolding rebase_loop
  rebase_loop-Spliced zero scanner enough =
      let past : length content ≤ scanner.index = omega arith in
      let test : leb (length content) scanner.index ≡ true = ground arith in
      (
        [],
        rw (rebase_loop, test) refl,
        Spliced-past (IsReference references) content scanner.index past,
      )
  rebase_loop-Spliced (suc fuel) scanner enough =
      elim (Bool-cases (leb (length content) scanner.index)) [
        | inl test ↦
            let past : length content ≤ scanner.index = ground arith in
            (
              [],
              rw (rebase_loop, test) refl,
              Spliced-past (IsReference references) content scanner.index past,
            )
        | inr test ↦
            let before : scanner.index < length content = ground arith in
            let turn = rebase_turn references content scanner in
            let advances = rebase_turn-Advances scanner before in
            let onward = advances.onward in
            let (rest, ran, spliced) = rebase_loop-Spliced fuel turn.1 (omega arith) in
            (turn.0 ++ rest, rw (rebase_loop, test, ran) refl, advances.splices rest spliced)
      ]

-- The rewriting of references always ends with a result, within as many turns as the content has
-- bytes. The result is the content with some of the package's own references replaced by the installed
-- path of the same root; every other byte stays in its place.
pub rebase_package_references-Spliced :
    (content : Bytes) (references : SkillReferences)
    → (result : Bytes) × (rebase_package_references content references ≡ some result)
      × Spliced (IsReference references) content result
unfolding rebase_package_references
rebase_package_references-Spliced content references =
    elim (Bool-cases (is_empty references.rebases)) [
      | inl e ↦ (content, rw (rebase_package_references, e) refl, untouched content)
      | inr e ↦
          let (result, ran, spliced) =
            rebase_loop-Spliced references content (length content) new_reference_scanner
              (omega arith) in
          (result, rw (rebase_package_references, e) ran, spliced)
    ]
  where
    untouched : (s : Bytes) → Spliced (IsReference references) s s
    untouched [] = ended
    untouched (c ∷ s) = byte_kept c (untouched s)
