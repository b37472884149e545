-- ===== src/Packageref/Scanner.antt =====
-- internal/packageref/references.go: the scanner, which walks the content once and says where a
-- reference may begin. An offset that is -1 in the source is `none` here; labels stand last first.
pub mod Index
use agentic_context_registry.Base.{
  ℕ, zero, suc, ◌+◌, Bool, true, false, not, ◌&&◌, ◌||◌, List, [], ◌∷◌, Option, none, some, Bytes,
  codes, cut_prefix, in_range, byte_at, is_byte_at, ltb, leb, ◌==◌, if◌then◌else◌, length, take,
  drop, all, is_empty,
}

pub record ReferenceScanner : Type 0 where
  pub index : ℕ
  pub fresh : Bool
  pub blank_line : Bool
  pub argument_from : ℕ
  pub argument_to : ℕ
  pub argument_at : Option ℕ
  pub terminator_at : Option ℕ
  pub argument_empty : Bool
  pub labels : List Bool
  pub destination_at : Option ℕ

abbrev pub new_reference_scanner : ReferenceScanner
new_reference_scanner = record {
  index = 0;
  fresh = true;
  blank_line = true;
  argument_from = 0;
  argument_to = 0;
  argument_at = none;
  terminator_at = none;
  argument_empty = false;
  labels = [];
  destination_at = none;
}

-- `position == offset`, for an offset that may be -1.
abbrev at_offset : ℕ → Option ℕ → Bool
at_offset position none = false
at_offset position (some offset) = position == offset

unfoldable pub in_argument : ReferenceScanner → ℕ → Bool
in_argument scanner position =
    not (scanner.argument_to == 0)
    && leb scanner.argument_from position
    && ltb position scanner.argument_to

unfoldable pub at_reference_start : ReferenceScanner → Bool
unfolding in_argument
at_reference_start scanner =
    not (in_argument scanner scanner.index && not (scanner.index == scanner.argument_from))
    && (scanner.fresh || at_offset scanner.index scanner.destination_at)

unfoldable pub is_reference_space : ℕ → Bool
is_reference_space b = b == b' ' || b == b'\t' || b == b'\n' || b == b'\r' || b == 0x0b || b == 0x0c

is_letter : ℕ → Bool
unfolding in_range
is_letter b = in_range b'a' b'z' b || in_range b'A' b'Z' b

is_digit : ℕ → Bool
unfolding in_range
is_digit b = in_range b'0' b'9' b

is_assignment_name_byte : ℕ → Bool
unfolding is_letter is_digit
is_assignment_name_byte b = b == b'_' || b == b'-' || is_letter b || is_digit b

-- The first byte and the others satisfy a test of their own; so does the empty name.
named : (ℕ → Bool) → (ℕ → Bool) → Bytes → Bool
named first rest [] = true
named first rest (b ∷ s) = first b && all rest s

is_environment_name : Bytes → Bool
unfolding named is_letter is_digit
is_environment_name head =
    named (λ b. b == b'_' || is_letter b) (λ b. b == b'_' || is_letter b || is_digit b) head

option_name : Bytes → Bool
unfolding named is_letter is_digit
option_name name =
    not (is_empty name)
    && named (λ b. is_letter b || is_digit b) (λ b. is_letter b || is_digit b || b == b'-') name

-- Behind `--`, or behind `-`.
is_option_name : Bytes → Bool
unfolding cut_prefix option_name
is_option_name head = elim (cut_prefix head (codes "--")) [
  | some name ↦ option_name name
  | none ↦ elim (cut_prefix head (codes "-")) [ some name ↦ option_name name | none ↦ false ]
]

name_run : Bytes → ℕ
unfolding is_assignment_name_byte
name_run [] = 0
name_run (b ∷ s) = if is_assignment_name_byte b then suc (name_run s) else 0

unfoldable pub assignment_width : Bytes → ℕ
unfolding name_run is_environment_name is_option_name is_byte_at
assignment_width rest =
    let end = name_run rest in
    if end == 0 || not (is_byte_at rest end b'=')
    then 0
    else if is_environment_name (take end rest) || is_option_name (take end rest)
    then end + 1
    else 0

-- How many times the byte stands in front, up to a bound.
run_of : ℕ → ℕ → Bytes → ℕ
run_of b zero s = 0
run_of b (suc n) [] = 0
run_of b (suc n) (c ∷ s) = if c == b then suc (run_of b n s) else 0

opens_emphasized_code_span : Bytes → Bool
unfolding run_of is_byte_at
opens_emphasized_code_span [] = false
opens_emphasized_code_span (b ∷ s) =
    let end = 1 + run_of b 3 s in
    (b == b'*' || b == b'_') && leb end 3 && is_byte_at (b ∷ s) end b'`'

-- The offset of the quote that closes an argument. A backslash escapes in double quotes.
closing_quote : ℕ → Bool → ℕ → Bytes → Option ℕ
closing_quote quote escaped offset [] = none
closing_quote quote escaped offset (c ∷ s) =
    let escapes = not escaped && quote == b'"' && c == b'\\' in
    let rest = closing_quote quote escapes (suc offset) s in
    if not escaped && not escapes && c == quote then some offset else rest

-- The cases of the switch, in order.
pub data SwitchCase : Type 0 where
  line_end space emphasis code_span terminator opening_quote : SwitchCase
  label_start bracket label_end word : SwitchCase

module _ (content : Bytes) where
  open_argument : ℕ → ReferenceScanner → ReferenceScanner
  unfolding closing_quote
  open_argument quote scanner = elim (closing_quote quote false 0 (drop scanner.index content)) [
    | none ↦ record scanner { terminator_at = none }
    | some offset ↦ record scanner {
      argument_from = scanner.index;
      argument_to = scanner.index + offset;
      terminator_at = some (scanner.index + offset);
      argument_empty = offset == 0;
    }
  ]

  close_argument : Bool → ReferenceScanner → ReferenceScanner
  close_argument fresh scanner = record scanner {
    fresh = fresh && scanner.argument_empty;
    terminator_at = none;
  }

  close_label : ReferenceScanner → ReferenceScanner
  unfolding is_byte_at
  close_label scanner = elim scanner.labels [
    | [] ↦ scanner
    | opened ∷ labels ↦ record scanner {
      labels = labels;
      destination_at =
          if opened && is_byte_at content scanner.index b'('
          then some (scanner.index + 1)
          else scanner.destination_at;
    }
  ]

  is_quote : ℕ → Bool
  is_quote b = b == b'"' || b == b'\''

  -- Which case of the switch in `step` a byte at `position` takes.
  switch_case : ℕ → ℕ → Bool → Bool → ReferenceScanner → SwitchCase
  unfolding is_reference_space opens_emphasized_code_span is_quote
  switch_case position current fresh inside scanner =
      if current == b'\n'
      then line_end
      else if is_reference_space current
      then space
      else if fresh && not inside && opens_emphasized_code_span (drop position content)
      then emphasis
      else if current == b'`' && fresh
      then code_span
      else if is_quote current && at_offset position scanner.terminator_at
      then terminator
      else if is_quote current && not inside && (fresh || at_offset position scanner.argument_at)
      then opening_quote
      else if current == b'['
      then label_start
      else if current == b'(' || current == b'<' || current == b'{'
      then bracket
      else if current == b']'
      then label_end
      else word

  -- What the cases do, behind the increment.
  switch : ℕ → Bool → ReferenceScanner → SwitchCase → ReferenceScanner
  unfolding open_argument close_argument close_label
  switch current fresh scanner line_end = record scanner {
    labels = if scanner.blank_line then [] else scanner.labels;
    blank_line = true;
    fresh = true;
  }
  switch current fresh scanner space = record scanner { fresh = true }
  switch current fresh scanner emphasis = record scanner { fresh = true }
  switch current fresh scanner code_span = record scanner { fresh = true }
  switch current fresh scanner terminator = close_argument fresh scanner
  switch current fresh scanner opening_quote =
      open_argument current (record scanner { fresh = true })
  switch current fresh scanner label_start = record scanner {
    labels = fresh ∷ scanner.labels;
    fresh = fresh;
  }
  switch current fresh scanner bracket = record scanner { fresh = fresh }
  switch current fresh scanner label_end = record (close_label scanner) { fresh = false }
  switch current fresh scanner word = record scanner { fresh = false }

  -- `markArgumentAfterAssignment`.
  mark_argument_after_assignment : ReferenceScanner → ReferenceScanner
  unfolding assignment_width
  mark_argument_after_assignment scanner =
      let width = assignment_width (drop scanner.index content) in
      record scanner { argument_at = if width == 0 then none else some (scanner.index + width) }

  -- An argument that ends is no longer open.
  leave_argument : ReferenceScanner → ReferenceScanner
  leave_argument scanner =
      if not (scanner.argument_to == 0) && leb scanner.argument_to scanner.index
      then record scanner { argument_from = 0; argument_to = 0 }
      else scanner

  mark : Bool → ReferenceScanner → ReferenceScanner
  unfolding mark_argument_after_assignment
  mark inside scanner =
      if scanner.fresh && not inside then mark_argument_after_assignment scanner else scanner

  -- A line with this byte on it is not blank.
  see_byte : ℕ → ReferenceScanner → ReferenceScanner
  unfolding is_reference_space
  see_byte current scanner =
      if not (current == b'\n') && not (is_reference_space current)
      then record scanner { blank_line = false }
      else scanner

  step_byte : ℕ → ReferenceScanner → ReferenceScanner
  unfolding in_argument mark see_byte switch_case switch leave_argument
  step_byte current scanner =
      let inside = in_argument scanner scanner.index in
      let lined = see_byte current (mark inside scanner) in
      leave_argument (
        switch current scanner.fresh (record lined { index = suc scanner.index })
          (switch_case scanner.index current scanner.fresh inside lined))

  unfoldable pub step : ReferenceScanner → ReferenceScanner
  unfolding step_byte byte_at
  step scanner = elim (byte_at content scanner.index) [
    | none ↦ scanner
    | some current ↦ step_byte current scanner
  ]

  unfoldable pub consume : ℕ → ReferenceScanner → ReferenceScanner
  unfolding step
  consume zero scanner = scanner
  consume (suc width) scanner = consume width (step scanner)
