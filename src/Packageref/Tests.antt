-- ===== src/Packageref/Tests.antt =====
-- A command line that runs a script of the package; the theorems of the rewriting there.
use agentic_context_registry.Base.{
  false, contains, has_prefix, List, [], ◌∷◌, none, some, Bytes, codes, ◌≡◌, refl, Result, ok, err,
  arith,
}
use agentic_context_registry.Packageref.Scanner.{new_reference_scanner}
use agentic_context_registry.Packageref.References.{
  installed, SkillRebase, SkillReferences, rebase_turn, rebase_package_references,
}
use agentic_context_registry.Packageref.References.Same.{rebase_package_references_same}
use agentic_context_registry.Packageref.References.Rebased.{
  IsReference, rebase_turn-Advances, rebase_package_references-Spliced,
}
use agentic_context_registry.Packageref.Spliced.{Spliced, Advances}
use agentic_context_registry.Packageref.Files.{
  RewriteError, unsupported_context, incomplete_path, find_file, rewrite_files,
}
use agentic_context_registry.Packageref.Files.Rewritten.{IsDeclared, rewrite_files-Spliced}

abbrev rebase : SkillRebase
rebase = record { source_root = codes "skills/a"; native_root = codes ".x/a" }

abbrev references : SkillReferences
references = record { rebases = rebase ∷ []; identities = codes "o/p" ∷ [] }

abbrev command : Bytes
command = codes "sh F=skills/a/x .tessl/plugins/o/p/skills/a/y http://h/skills/a/z"

rebased_test :
    rebase_package_references command references
    ≡ some (codes "sh F=.x/a/x .x/a/y http://h/skills/a/z")
unfolding rebase_package_references
rebased_test = refl

rebase_turn-Advances_example :
    Advances
      (IsReference references)
      command
      0
      (rebase_turn references command new_reference_scanner)
rebase_turn-Advances_example =
    rebase_turn-Advances references command new_reference_scanner (omega arith)

rebase_package_references-Spliced_example :
    (result : Bytes) × (rebase_package_references command references ≡ some result)
    × Spliced (IsReference references) command result
rebase_package_references-Spliced_example = rebase_package_references-Spliced command references

abbrev own_references : SkillReferences
own_references = record {
  rebases = record { source_root = codes "skills/a"; native_root = codes "skills/a" } ∷ [];
  identities = codes "q/r" ∷ [];
}

unnamed_test : contains command (installed (codes "q/r")) ≡ false
unfolding contains has_prefix
unnamed_test = refl

rebase_package_references_same_example :
    rebase_package_references command own_references ≡ some command
rebase_package_references_same_example =
    rebase_package_references_same command own_references (refl, tt) (unnamed_test, tt)

abbrev files : List (Bytes × Bytes)
files = (codes "skills/a/x", codes "b/x") ∷ []

rewritten_test :
    rewrite_files (codes "sh skills/a/x; cat c/y") files (codes "skills" ∷ [])
    ≡ some (ok (codes "sh b/x; cat c/y"))
unfolding rewrite_files
rewritten_test = refl

undeclared_test :
    rewrite_files (codes "sh skills/a/z") files (codes "skills" ∷ []) ≡ some (err incomplete_path)
unfolding rewrite_files
undeclared_test = refl

misplaced_test :
    rewrite_files (codes "sh >skills/a/x") files (codes "skills" ∷ [])
    ≡ some (err unsupported_context)
unfolding rewrite_files
misplaced_test = refl

unnamed : find_file [] files ≡ none
unfolding find_file
unnamed = refl

rewrite_files-Spliced_example :
    (r : Result RewriteError Bytes) × (rewrite_files
        (codes "sh skills/a/x")
        files
        (codes "skills" ∷ [])
      ≡ some r)
    × ((result : Bytes) → r ≡ ok result → Spliced (IsDeclared files) (codes "sh skills/a/x") result)
rewrite_files-Spliced_example =
    rewrite_files-Spliced (codes "sh skills/a/x") files (codes "skills" ∷ []) unnamed
