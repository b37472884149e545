-- ===== src/Packageref/Files/Rewritten.antt =====
-- internal/packageref/exact.go: RewriteFiles ends, and a result differs from the content in declared
-- file paths only.
use agentic_context_registry.Base.{
  ℕ, zero, suc, ◌+◌, ◌<◌, ◌≤◌, true, not, ◌&&◌, List, [], ◌∷◌, ◌++◌, none, some, Bytes, if_elim,
  leb, length, take, drop, take-append-drop, ◌≡◌, inl, inr, refl, sym, ap, ◌∙◌, subst, Bool-cases,
  Option-cases, Result, ok, err, Result-cases, none≢some, arith,
}
use agentic_context_registry.Packageref.Scanner.{
  ReferenceScanner, new_reference_scanner, at_reference_start, consume,
}
use agentic_context_registry.Packageref.References.{Turn, carried_width, write_reference}
use agentic_context_registry.Packageref.Spliced.{
  Spliced, Advances, Spliced-past, keep_byte-Advances, splice-Advances,
}
use agentic_context_registry.Packageref.Files.{
  RewriteError, path_byte, path_run, path_terminator, ends_or, owned_prefix, in_url, find_file,
  unsupported_position, rewrite_token, rewrite_turn, rewrite_loop, rewrite_files,
}

-- A declared path and what the files map it to.
abbrev pub IsDeclared : List (Bytes × Bytes) → Bytes → Bytes → Type 0
IsDeclared files old new = find_file old files ≡ some new

path_run-length : (s : Bytes) → length (take (path_run s) s) ≡ path_run s
unfolding path_run
path_run-length [] = refl
path_run-length (b ∷ s) = elim (Bool-cases (path_byte b)) [
  | inl e ↦ rw (path_run, e) (ap suc (path_run-length s))
  | inr e ↦ rw (path_run, e) refl
]

nonempty :
    (files : List (Bytes × Bytes)) (path : Bytes) {next : Bytes}
    → find_file [] files ≡ none
    → find_file path files ≡ some next
    → 0 < length path
nonempty files [] e f = absurd (none≢some (sym e ∙ f))
nonempty files (_ ∷ _) e f = omega arith

module _ (content : Bytes) (files : List (Bytes × Bytes)) (roots : List Bytes)
    (named : find_file [] files ≡ none) where
  -- The turns that succeed go on.
  Onward : ReferenceScanner → Result RewriteError Turn → Type 0
  Onward scanner (ok turn) = Advances (IsDeclared files) content scanner.index turn
  Onward scanner (err e) = Unit

  rewrite_token-Onward :
      (scanner : ReferenceScanner) → Onward scanner (rewrite_token content files roots scanner)
  unfolding rewrite_token write_reference Onward
  rewrite_token-Onward scanner =
      let rest = drop scanner.index content in
      let carried = carried_width rest in
      let token = drop carried rest in
      let end = path_run token in
      let old = take end token in
      let size = path_run-length token in
      elim (Option-cases (find_file old files)) [
        | inl e ↦ rw (rewrite_token, e) tt
        | inr (next, e) ↦ elim (Bool-cases (ends_or path_terminator token end)) [
          | inr f ↦ rw (rewrite_token, e, f) tt
          | inl f ↦
              let whole : token ≡ old ++ drop (length old) token =
                sym (take-append-drop end token) ∙ ap (λ n. old ++ drop n token) (sym size) in
              let advances =
                splice-Advances (IsDeclared files) content scanner carried old next
                  (nonempty files old named e) e whole in
              rw (rewrite_token, e, f)
                (subst
                  (λ n.
                    Advances (IsDeclared files) content scanner.index
                      (take carried rest ++ next, consume content (carried + n) scanner))
                  size advances)
        ]
      ]

  rewrite_turn-Onward :
      (scanner : ReferenceScanner)
      → scanner.index < length content
      → Onward scanner (rewrite_turn content files roots scanner)
  unfolding rewrite_turn Onward
  rewrite_turn-Onward scanner p =
      let rest = drop scanner.index content in
      if_elim (Onward scanner) (unsupported_position content files roots scanner) (λ _. tt)
        (λ _.
          if_elim (Onward scanner)
            (at_reference_start scanner
              && owned_prefix (drop (carried_width rest) rest) roots
              && not (in_url content scanner.index))
            (λ _. rewrite_token-Onward scanner)
            (λ _. keep_byte-Advances (IsDeclared files) content scanner p))

  -- The results that a text may be rewritten to.
  Good : Bytes → Result RewriteError Bytes → Type 0
  Good s (ok result) = Spliced (IsDeclared files) s result
  Good s (err e) = Unit

  rewrite_loop-Good :
      (fuel : ℕ) (scanner : ReferenceScanner)
      → length content ≤ scanner.index + fuel
      → (r : Result RewriteError Bytes) × (rewrite_loop content files roots fuel scanner ≡ some r)
        × Good (drop scanner.index content) r
  unfolding rewrite_loop Good Onward
  rewrite_loop-Good zero scanner enough =
      let past : length content ≤ scanner.index = omega arith in
      let test : leb (length content) scanner.index ≡ true = ground arith in
      (
        ok [],
        rw (rewrite_loop, test) refl,
        Spliced-past (IsDeclared files) content scanner.index past,
      )
  rewrite_loop-Good (suc fuel) scanner enough =
      elim (Bool-cases (leb (length content) scanner.index)) [
        | inl test ↦
            let past : length content ≤ scanner.index = ground arith in
            (
              ok [],
              rw (rewrite_loop, test) refl,
              Spliced-past (IsDeclared files) content scanner.index past,
            )
        | inr test ↦
            let before : scanner.index < length content = ground arith in
            elim (Result-cases (rewrite_turn content files roots scanner)) [
              | inr (e, failed) ↦ (err e, rw (rewrite_loop, test, failed) refl, tt)
              | inl (turn, took) ↦
                  let advances : Advances (IsDeclared files) content scanner.index turn =
                    subst (Onward scanner) took (rewrite_turn-Onward scanner before) in
                  let onward = advances.onward in
                  let (r, ran, good) = rewrite_loop-Good fuel turn.1 (omega arith) in
                  elim (Result-cases r) [
                    | inr (e, failed) ↦ (err e, rw (rewrite_loop, test, took, ran, failed) refl, tt)
                    | inl (result, done) ↦
                        let spliced : Spliced (IsDeclared files) (drop turn.1.index content)
                            result =
                          subst (Good (drop turn.1.index content)) done good in
                        (
                          ok (turn.0 ++ result),
                          rw (rewrite_loop, test, took, ran, done) refl,
                          advances.splices result spliced,
                        )
                  ]
            ]
      ]

-- The rewriting of files always ends, within as many turns as the content has bytes, with a result or a
-- refusal; a result is the content with some declared paths replaced by what they are mapped to, and
-- every other byte in its place. No file is declared by the empty path.
pub rewrite_files-Spliced :
    (content : Bytes) (files : List (Bytes × Bytes)) (roots : List Bytes)
    → find_file [] files ≡ none
    → (r : Result RewriteError Bytes) × (rewrite_files content files roots ≡ some r)
      × ((result : Bytes) → r ≡ ok result → Spliced (IsDeclared files) content result)
unfolding rewrite_files Good
rewrite_files-Spliced content files roots named =
    let (r, ran, good) =
      rewrite_loop-Good content files roots named (length content) new_reference_scanner
        (omega arith) in
    (r, ran, λ result e. subst (Good content files roots named content) e good)
