-- ===== src/Realize/Git.antt =====
-- internal/realize/git.go: the block of generated outputs in Git's local exclusion file.
use agentic_context_registry.Base.{
  ℕ, ◌+◌, ◌-◌, Bool, false, not, ◌&&◌, ◌||◌, List, [], ◌∷◌, ◌++◌, Option, none, some, Bytes, codes,
  equal, contains_byte, index, is_byte_at, ltb, leb, ◌==◌, if◌then◌else◌, length, take, drop,
  is_empty, is_some, Result, ok, err, ◌>>◌, fail_if, less, sort,
}

pub data GitError : Type 0 where
  duplicate_blocks incomplete_block marker_inside_line inspection_failed : GitError

abbrev pub git_exclude_path : Bytes
git_exclude_path = codes ".git/info/exclude"

abbrev pub exclude_begin : Bytes
exclude_begin = codes "# BEGIN ACR GENERATED OUTPUTS"

abbrev pub exclude_end : Bytes
exclude_end = codes "# END ACR GENERATED OUTPUTS"

abbrev exclude_join : Bytes
exclude_join = codes "# ACR ADDED SEPARATOR\n"

-- What Git says of the project: `tracked` is asked at a target's path.
pub record GitContext : Type 0 where
  pub enabled : Bool
  pub tracked : Bytes → Bool
  pub exclude_root : Bytes
  pub exclude_path : Bytes

-- A marker at `at` has another one of its text behind it.
repeats : Bytes → Bytes → Option ℕ → Bool
repeats content marker none = false
repeats content marker (some at) = is_some (index (drop (at + length marker) content) marker)

complete_marker_line : Bytes → ℕ → ℕ → Bool
complete_marker_line content at len =
    (at == 0 || is_byte_at content (at - 1) b'\n')
    && (at + len == length content
        || is_byte_at content (at + len) b'\n'
        || is_byte_at content (at + len) b'\r' && is_byte_at content (at + len + 1) b'\n')

unfoldable pub git_exclude_pattern : Bytes → Bytes
unfolding contains_byte
git_exclude_pattern target = b'/' ∷ escape target
  where
    escape : Bytes → Bytes
    escape [] = []
    escape (c ∷ cs) =
        if contains_byte (codes "?*[]!# ") c then b'\\' ∷ c ∷ escape cs else c ∷ escape cs

pattern_lines : List Bytes → Bytes
unfolding git_exclude_pattern
pattern_lines [] = []
pattern_lines (t ∷ ts) = git_exclude_pattern t ++ (b'\n' ∷ pattern_lines ts)

unfoldable pub exclusion_block : List Bytes → Bytes
unfolding pattern_lines
exclusion_block [] = []
exclusion_block (t ∷ ts) =
    exclude_begin ++ (b'\n' ∷ (pattern_lines (t ∷ ts) ++ (exclude_end ++ (b'\n' ∷ []))))

ends_with_newline : Bytes → Bool
ends_with_newline content = is_byte_at content (length content - 1) b'\n'

-- No block yet: the new one stands behind the content, on a line of its own.
append_block : Bytes → Bytes → Bytes
unfolding ends_with_newline is_byte_at
append_block content block =
    if is_empty block
    then content
    else if is_empty content || ends_with_newline content
    then content ++ block
    else (content ++ (b'\n' ∷ exclude_join)) ++ block

-- Where the text behind the block begins.
block_end : Bytes → ℕ → ℕ
block_end content at =
    let after_return = if is_byte_at content at b'\r' then at + 1 else at in
    if is_byte_at content after_return b'\n' then after_return + 1 else after_return

-- Where the text before the block ends: the separator goes with the last block.
block_start : Bytes → Bytes → ℕ → ℕ
block_start content block begin =
    let start = begin - length exclude_join in
    if is_empty block
      && leb (length exclude_join) begin
      && equal (take (length exclude_join) (drop start content)) exclude_join
    then (if ltb 0 start && is_byte_at content (start - 1) b'\n' then start - 1 else start)
    else begin

replace_block : Bytes → Bytes → ℕ → ℕ → Bytes
unfolding block_start block_end is_byte_at equal
replace_block content block begin end_at =
    take (block_start content block begin) content
    ++ (block ++ drop (block_end content (end_at + length exclude_end)) content)

-- The markers' places are both known or both unknown, and in order.
check_markers : Bytes → Bytes → Option ℕ → Option ℕ → Result GitError Bytes
unfolding complete_marker_line append_block replace_block is_byte_at
check_markers content block none none = ok (append_block content block)
check_markers content block (some begin) (some end_at) =
    if ltb end_at begin
    then err incomplete_block
    else if not (complete_marker_line content begin (length exclude_begin))
        || not (complete_marker_line content end_at (length exclude_end))
    then err marker_inside_line
    else ok (replace_block content block begin end_at)
check_markers content block _ _ = err incomplete_block

unfoldable pub rewrite_git_exclude : Bytes → List Bytes → Result GitError Bytes
unfolding repeats check_markers index exclusion_block
rewrite_git_exclude content targets = do
  let begin = index content exclude_begin
  let end_at = index content exclude_end
  fail_if (repeats content exclude_begin begin || repeats content exclude_end end_at)
      duplicate_blocks
  check_markers content (exclusion_block (sort less targets)) begin end_at
