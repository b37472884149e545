-- ===== src/Packageref/References.antt =====
-- internal/packageref/references.go and exact.go: the rewriting of a package's references to the
-- places where its content is installed. The loops run on fuel, the length of the content.
pub mod Rebased
pub mod Same
use agentic_context_registry.Base.{
  ℕ, zero, suc, ◌+◌, ◌-◌, Bool, true, false, not, ◌&&◌, ◌||◌, List, [], ◌∷◌, ◌++◌, Option, none,
  some, Bytes, codes, has_prefix, contains, contains_byte, trim_suffix_byte, in_range, byte_at,
  is_byte_at, equal, ltb, leb, ◌==◌, if◌then◌else◌, length, take, drop, any, is_empty, is_some,
  Result, ok, err,
}
use agentic_context_registry.Packageref.Scanner.{
  ReferenceScanner, new_reference_scanner, at_reference_start, is_reference_space, assignment_width,
  consume,
}

pub record SkillRebase : Type 0 where
  pub source_root : Bytes
  pub native_root : Bytes

pub record SkillReferences : Type 0 where
  pub rebases : List SkillRebase
  pub identities : List Bytes

abbrev pub tessl_installed_root : Bytes
tessl_installed_root = codes ".tessl/plugins/"

-- How many bytes in front are carried through, how many the reference spans, and what replaces it.
pub record Match : Type 0 where
  pub carried : ℕ
  pub width : ℕ
  pub native : Bytes

unfoldable pub match_package_root : List SkillRebase → Bytes → Option (ℕ × Bytes)
unfolding has_prefix
match_package_root [] rest = none
match_package_root (r ∷ rs) rest =
    let others = match_package_root rs rest in
    if has_prefix rest (r.source_root ++ codes "/")
    then some (length (r.source_root ++ codes "/"), r.native_root ++ codes "/")
    else others

abbrev pub installed : Bytes → Bytes
installed identity = tessl_installed_root ++ (identity ++ codes "/")

unfoldable pub match_identity : List SkillRebase → List Bytes → Bytes → Option (ℕ × Bytes)
unfolding has_prefix match_package_root
match_identity rebases [] rest = none
match_identity rebases (identity ∷ identities) rest =
    let others = match_identity rebases identities rest in
    if has_prefix rest (installed identity)
    then elim (match_package_root rebases (drop (length (installed identity)) rest)) [
      | some (width, native) ↦ some (length (installed identity) + width, native)
      | none ↦ others
    ]
    else others

-- An escape, and then a shell assignment.
unfoldable pub carried_width : Bytes → ℕ
unfolding assignment_width is_byte_at
carried_width rest =
    let escape = if is_byte_at rest 0 b'\\' then 1 else 0 in
    escape + assignment_width (drop escape rest)

unfoldable pub match_reference : SkillReferences → Bytes → Option Match
unfolding carried_width match_package_root match_identity
match_reference references rest =
    let carried = carried_width rest in
    elim (match_package_root references.rebases (drop carried rest)) [
      | some (width, native) ↦ some (record { carried = carried; width = width; native = native })
      | none ↦ elim (match_identity references.rebases references.identities (drop carried rest)) [
        | some (width, native) ↦ some (record { carried = carried; width = width; native = native })
        | none ↦ none
      ]
    ]

-- What one turn of a loop writes, and the scanner behind it.
abbrev pub Turn : Type 0
Turn = Bytes × ReferenceScanner

unfoldable pub keep_byte : Bytes → ReferenceScanner → Turn
unfolding consume
keep_byte content scanner = (take 1 (drop scanner.index content), consume content 1 scanner)

unfoldable pub write_reference : Bytes → ReferenceScanner → Match → Turn
unfolding consume
write_reference content scanner m = (
  take m.carried (drop scanner.index content) ++ m.native,
  consume content (m.carried + m.width) scanner,
)

unfoldable pub rebase_turn : SkillReferences → Bytes → ReferenceScanner → Turn
unfolding at_reference_start match_reference keep_byte write_reference
rebase_turn references content scanner =
    if at_reference_start scanner
    then elim (match_reference references (drop scanner.index content)) [
      | some m ↦ write_reference content scanner m
      | none ↦ keep_byte content scanner
    ]
    else keep_byte content scanner

-- `none`: the fuel is used up.
unfoldable pub rebase_loop : SkillReferences → Bytes → ℕ → ReferenceScanner → Option Bytes
unfolding rebase_turn
rebase_loop references content zero scanner =
    if leb (length content) scanner.index then some [] else none
rebase_loop references content (suc fuel) scanner =
    let (written, next) = rebase_turn references content scanner in
    let rest = rebase_loop references content fuel next in
    if leb (length content) scanner.index
    then some []
    else elim rest [ none ↦ none | some result ↦ some (written ++ result) ]

unfoldable pub rebase_package_references : Bytes → SkillReferences → Option Bytes
unfolding rebase_loop
rebase_package_references content references =
    if is_empty references.rebases
    then some content
    else rebase_loop references content (length content) new_reference_scanner

unfoldable pub rebase_skill_references : Bytes → Bytes → Bytes → Option Bytes
unfolding rebase_package_references trim_suffix_byte
rebase_skill_references content source_root native_root =
    rebase_package_references content (record {
      rebases =
          record {
            source_root = trim_suffix_byte b'/' source_root;
            native_root = trim_suffix_byte b'/' native_root;
          }
          ∷ [];
      identities = [];
    })
