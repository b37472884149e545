-- ===== src/Packageref/Files.antt =====
-- internal/packageref/exact.go: RewriteFiles, which rewrites complete declared file paths and refuses
-- every other reference to what the package owns. The loop runs on the length of the content.
pub mod Rewritten
use agentic_context_registry.Base.{
  ℕ, zero, suc, ◌+◌, ◌-◌, Bool, true, false, not, ◌&&◌, ◌||◌, List, [], ◌∷◌, ◌++◌, Option, none,
  some, Bytes, codes, equal, has_prefix, contains, contains_byte, trim_suffix_byte, in_range,
  byte_at, ltb, leb, ◌==◌, if◌then◌else◌, length, take, drop, is_some, Result, ok, err, ◌>>=◌,
}
use agentic_context_registry.Packageref.Scanner.{
  ReferenceScanner, new_reference_scanner, at_reference_start, is_reference_space, consume,
}
use agentic_context_registry.Packageref.References.{
  Match, Turn, carried_width, keep_byte, write_reference,
}

-- The text of the messages is left out.
pub data RewriteError : Type 0 where
  unsupported_context incomplete_path : RewriteError

path_byte : ℕ → Bool
unfolding in_range contains_byte
path_byte b =
    in_range b'a' b'z' b
    || in_range b'A' b'Z' b
    || in_range b'0' b'9' b
    || contains_byte (codes "/._-") b

path_terminator : ℕ → Bool
unfolding is_reference_space contains_byte
path_terminator b = is_reference_space b || contains_byte (codes "\"'`)]>,;:#") b

-- How many path bytes stand in front.
path_run : Bytes → ℕ
unfolding path_byte
path_run [] = 0
path_run (b ∷ s) = if path_byte b then suc (path_run s) else 0

-- The text ends there, or a byte of it passes the test.
ends_or : (ℕ → Bool) → Bytes → ℕ → Bool
unfolding byte_at
ends_or test s at = elim (byte_at s at) [ none ↦ true | some b ↦ test b ]

unfoldable pub owned_prefix : Bytes → List Bytes → Bool
unfolding trim_suffix_byte has_prefix ends_or path_byte
owned_prefix token [] = false
owned_prefix token (root ∷ roots) =
    let trimmed = trim_suffix_byte b'/' root in
    has_prefix token trimmed && ends_or (λ b. b == b'/' || not (path_byte b)) token (length trimmed)
    || owned_prefix token roots

-- The bytes behind the last space.
last_word : Bytes → Bytes → Bytes
unfolding is_reference_space
last_word word [] = word
last_word word (b ∷ s) = last_word (if is_reference_space b then [] else word ++ (b ∷ [])) s

unfoldable pub in_url : Bytes → ℕ → Bool
unfolding last_word contains
in_url content index = contains (last_word [] (take index content)) (codes "://")

unfoldable pub find_file : Bytes → List (Bytes × Bytes) → Option Bytes
unfolding equal
find_file path [] = none
find_file path ((name, next) ∷ files) = if equal name path then some next else find_file path files

module _ (content : Bytes) (files : List (Bytes × Bytes)) (roots : List Bytes) where
  -- An owned reference in a place that the scanner does not offer.
  unsupported_position : ReferenceScanner → Bool
  unfolding at_reference_start path_byte owned_prefix in_url byte_at
  unsupported_position scanner =
      not (at_reference_start scanner)
      && ltb 0 scanner.index
      && not (ends_or path_byte content (scanner.index - 1))
      && owned_prefix (drop scanner.index content) roots
      && not (in_url content scanner.index)

  -- The reference at a place where one may begin.
  rewrite_token : ReferenceScanner → Result RewriteError Turn
  unfolding carried_width path_run find_file ends_or path_terminator write_reference
  rewrite_token scanner =
      let rest = drop scanner.index content in
      let carried = carried_width rest in
      let token = drop carried rest in
      let end = path_run token in
      elim (find_file (take end token) files) [
        | none ↦ err incomplete_path
        | some next ↦
            if ends_or path_terminator token end
            then ok (
                write_reference content scanner
                  (record { carried = carried; width = end; native = next }))
            else err incomplete_path
      ]

  unfoldable pub rewrite_turn : ReferenceScanner → Result RewriteError Turn
  unfolding unsupported_position at_reference_start carried_width owned_prefix in_url rewrite_token
      keep_byte
  rewrite_turn scanner =
      let rest = drop scanner.index content in
      if unsupported_position scanner
      then err unsupported_context
      else if at_reference_start scanner
          && owned_prefix (drop (carried_width rest) rest) roots
          && not (in_url content scanner.index)
      then rewrite_token scanner
      else ok (keep_byte content scanner)

  -- `none`: the fuel is used up.
  unfoldable pub rewrite_loop : ℕ → ReferenceScanner → Option (Result RewriteError Bytes)
  unfolding rewrite_turn
  rewrite_loop zero scanner = if leb (length content) scanner.index then some (ok []) else none
  rewrite_loop (suc fuel) scanner =
      let further = elim (rewrite_turn scanner) as (λ _. Option (Result RewriteError Bytes)) [
        | err e ↦ some (err e)
        | ok turn ↦ elim (rewrite_loop fuel turn.1) [
          | none ↦ none
          | some rest ↦ some (rest >>= λ result. ok (turn.0 ++ result))
        ]
      ] in
      if leb (length content) scanner.index then some (ok []) else further

  unfoldable pub rewrite_files : Option (Result RewriteError Bytes)
  unfolding rewrite_loop
  rewrite_files = rewrite_loop (length content) new_reference_scanner
