-- ===== src/Packageref/Spliced.antt =====
-- internal/packageref: what a rewriting of references may do to a content. Behind every turn of a
-- loop, the rest of the content is what the scanner has not read.
use agentic_context_registry.Base.{
  ℕ, suc, ◌+◌, ◌<◌, ◌≤◌, [], ◌∷◌, ◌++◌, Bytes, length, take, drop, take-append-drop, length-append,
  length-drop, drop-drop, drop_all, append_assoc, ◌≡◌, sym, ap, ◌∙◌, subst, arith,
}
use agentic_context_registry.Packageref.Scanner.{ReferenceScanner, consume}
use agentic_context_registry.Packageref.Scanner.Index.{byte_at-lt, consume-index}
use agentic_context_registry.Packageref.References.{Turn, keep_byte}

-- The second text is the first with some references replaced; every other byte stays.
pub data Spliced (R : Bytes → Bytes → Type 0) : Bytes → Bytes → Type 0 where
  ended : Spliced R [] []
  byte_kept : (c : ℕ) {s t : Bytes} → Spliced R s t → Spliced R (c ∷ s) (c ∷ t)
  reference :
      (old new : Bytes) {s t : Bytes} → R old new → Spliced R s t → Spliced R (old ++ s) (new ++ t)

module _ (R : Bytes → Bytes → Type 0) where
  -- Bytes that are carried through.
  pub Spliced-carried : (p : Bytes) {s t : Bytes} → Spliced R s t → Spliced R (p ++ s) (p ++ t)
  Spliced-carried [] h = h
  Spliced-carried (c ∷ p) h = byte_kept c (Spliced-carried p h)

  -- Nothing is left to read.
  pub Spliced-past :
      (content : Bytes) (index : ℕ) → length content ≤ index → Spliced R (drop index content) []
  Spliced-past content index p =
      let empty = drop_all index content p in subst (λ s. Spliced R s []) (sym empty) ended

  -- A turn takes at least a byte, and what it writes stands for what it takes.
  pub record Advances (content : Bytes) (index : ℕ) (turn : Turn) : Type 0 where
    pub onward : index < turn.1.index
    pub inside : turn.1.index ≤ length content
    pub splices :
        (t : Bytes)
        → Spliced R (drop turn.1.index content) t
        → Spliced R (drop index content) (turn.0 ++ t)

  pub keep_byte-Advances :
      (content : Bytes) (scanner : ReferenceScanner)
      → scanner.index < length content
      → Advances content scanner.index (keep_byte content scanner)
  unfolding keep_byte
  keep_byte-Advances content scanner p =
      let (c, _, rest) = byte_at-lt content scanner.index p in
      let moved = consume-index content 1 scanner (omega arith) in
      record {
        onward = omega arith;
        inside = omega arith;
        splices = λ t h.
            let at : scanner.index + 1 ≡ suc scanner.index = omega arith in
            let tail = subst (λ i. Spliced R (drop i content) t) (moved ∙ at) h in
            rw rest (byte_kept c tail);
      }

  -- Some bytes are carried through, and a reference behind them is replaced.
  pub splice-Advances :
      (content : Bytes) (scanner : ReferenceScanner) (carried : ℕ) (old new : Bytes)
      → 0 < length old
      → R old new
      → drop carried (drop scanner.index content)
        ≡ old ++ drop (length old) (drop carried (drop scanner.index content))
      → Advances content scanner.index (
        take carried (drop scanner.index content) ++ new,
        consume content (carried + length old) scanner,
      )
  splice-Advances content scanner carried old new nonempty r found =
      let rest = drop scanner.index content in
      let behind = drop (length old) (drop carried rest) in
      let size : length (drop carried rest) ≡ length old + length behind =
        ap length found ∙ length-append old behind in
      let here = length-drop scanner.index content in
      let there = length-drop carried rest in
      let moved = consume-index content (carried + length old) scanner (omega arith) in
      record {
        onward = omega arith;
        inside = omega arith;
        splices = λ t h.
            let place : drop (scanner.index + (carried + length old)) content ≡ behind =
              sym (drop-drop scanner.index (carried + length old) content)
              ∙ sym (drop-drop carried (length old) rest) in
            let tail : Spliced R behind t =
              subst (λ s. Spliced R s t) place
                (subst (λ i. Spliced R (drop i content) t) moved h) in
            let whole : take carried rest ++ (old ++ behind) ≡ rest =
              ap (λ s. take carried rest ++ s) (sym found) ∙ take-append-drop carried rest in
            let same : take carried rest ++ (new ++ t) ≡ (take carried rest ++ new) ++ t =
              sym (append_assoc (take carried rest) new t) in
            subst (λ u. Spliced R rest u) same
              (subst (λ s. Spliced R s (take carried rest ++ (new ++ t))) whole
                (Spliced-carried (take carried rest) (reference old new r tail)));
      }
