-- ===== src/Packageref/Scanner/Index.antt =====
-- internal/packageref/references.go: every step of the scanner takes one byte.
use agentic_context_registry.Base.{
  ℕ, zero, suc, ◌+◌, ◌<◌, ◌≤◌, Bool, true, false, not, ◌&&◌, List, [], ◌∷◌, some, Option-cases, inl,
  inr, Bytes, byte_at, ◌==◌, leb, if_elim, length, drop, ◌≡◌, refl, ◌∙◌, arith,
}
use agentic_context_registry.Packageref.Scanner.{
  ReferenceScanner, SwitchCase, line_end, space, emphasis, code_span, terminator, opening_quote,
  switch_case, mark, see_byte, label_start, bracket, label_end, word, open_argument, close_argument,
  close_label, switch, leave_argument, step_byte, step, consume, closing_quote, in_argument,
}

pub byte_at-lt :
    (s : Bytes) (i : ℕ)
    → i < length s
    → (c : ℕ) × (byte_at s i ≡ some c) × (drop i s ≡ c ∷ drop (suc i) s)
unfolding byte_at
byte_at-lt [] i p = absurd (omega arith)
byte_at-lt (c ∷ s) zero p = (c, refl, refl)
byte_at-lt (c ∷ s) (suc i) p = byte_at-lt s i (omega arith)

module _ (content : Bytes) where
  abbrev Stays : ℕ → ReferenceScanner → Type 0
  Stays index scanner = scanner.index ≡ index

  open_argument-index :
      (quote : ℕ) (scanner : ReferenceScanner)
      → Stays scanner.index (open_argument content quote scanner)
  unfolding open_argument
  open_argument-index quote scanner =
      elim (Option-cases (closing_quote quote false 0 (drop scanner.index content))) [
        | inl e ↦ rw (open_argument, e) refl
        | inr (_, e) ↦ rw (open_argument, e) refl
      ]

  close_label-index :
      (scanner : ReferenceScanner) → Stays scanner.index (close_label content scanner)
  unfolding close_label
  close_label-index scanner = by_labels scanner.labels
    where
      by_labels :
          (labels : List Bool)
          → Stays scanner.index (close_label content (record scanner { labels = labels }))
      by_labels [] = refl
      by_labels (_ ∷ _) = refl

  switch-index :
      (current : ℕ) (fresh : Bool) (scanner : ReferenceScanner) (taken : SwitchCase)
      → Stays scanner.index (switch content current fresh scanner taken)
  unfolding switch close_argument
  switch-index current fresh scanner line_end = refl
  switch-index current fresh scanner space = refl
  switch-index current fresh scanner emphasis = refl
  switch-index current fresh scanner code_span = refl
  switch-index current fresh scanner terminator = refl
  switch-index current fresh scanner opening_quote =
      open_argument-index current (record scanner { fresh = true })
  switch-index current fresh scanner label_start = refl
  switch-index current fresh scanner bracket = refl
  switch-index current fresh scanner label_end = close_label-index scanner
  switch-index current fresh scanner word = refl

  leave_argument-index :
      (scanner : ReferenceScanner) → Stays scanner.index (leave_argument content scanner)
  unfolding leave_argument
  leave_argument-index scanner =
      if_elim (Stays scanner.index)
        (not (scanner.argument_to == 0) && leb scanner.argument_to scanner.index)
        {x = record scanner { argument_from = 0; argument_to = 0 }} {y = scanner} (λ _. refl)
        (λ _. refl)

  step_byte-index :
      (current : ℕ) (scanner : ReferenceScanner)
      → Stays (suc scanner.index) (step_byte content current scanner)
  unfolding step_byte
  step_byte-index current scanner =
      let inside = in_argument scanner scanner.index in
      let lined = see_byte content current (mark content inside scanner) in
      let taken = switch_case content scanner.index current scanner.fresh inside lined in
      let moved = record lined { index = suc scanner.index } in
      leave_argument-index (switch content current scanner.fresh moved taken)
      ∙ switch-index current scanner.fresh moved taken

  step-index :
      (scanner : ReferenceScanner)
      → scanner.index < length content
      → (step content scanner).index ≡ suc scanner.index
  unfolding step
  step-index scanner p =
      let (current, e, _) = byte_at-lt content scanner.index p in
      rw (step, e) (step_byte-index current scanner)

  -- As many bytes as asked for, where there are as many.
  pub consume-index :
      (width : ℕ) (scanner : ReferenceScanner)
      → scanner.index + width ≤ length content
      → (consume content width scanner).index ≡ scanner.index + width
  unfolding consume
  consume-index zero scanner p = omega arith
  consume-index (suc width) scanner p =
      let one = step-index scanner (omega arith) in
      consume-index width (step content scanner) (omega arith) ∙ omega arith
