-- ===== src/Dependency/Source.antt =====
-- internal/dependency/github.go and local.go: the formats of sources, requests and paths.
use agentic_context_registry.Base.{
  ℕ, Bool, false, not, ◌&&◌, ◌||◌, List, [], ◌∷◌, Option, none, some, Bytes, codes, equal,
  cut_prefix, has_prefix, contains, contains_byte, split, is_hex_digit, in_range, leb, ◌==◌,
  if◌then◌else◌, length, any, all, is_empty, Result, ok, err, fail_if,
}
use agentic_context_registry.Realize.RealizationPath.{clean, matches_source}
use agentic_context_registry.Dependency.Model.{
  Scheme, scheme_github, scheme_vendor, Repository, VendorIdentity, DependencyError, invalid_source,
  local_reserved, invalid_requested, vendored_required, vendored_on_github, path_without_local,
  invalid_local_path, latest, requested_local, vendored,
}

-- `^[0-9a-fA-F]{7,40}$`
unfoldable pub is_commit_request : Bytes → Bool
unfolding is_hex_digit in_range
is_commit_request requested =
    leb 7 (length requested) && leb (length requested) 40 && all is_hex_digit requested

is_lower_hex_digit : ℕ → Bool
is_lower_hex_digit c = in_range b'0' b'9' c || in_range b'a' b'f' c

-- `^[0-9a-f]{40}$`
unfoldable pub is_full_commit : Bytes → Bool
unfolding is_lower_hex_digit in_range
is_full_commit commit = length commit == 40 && all is_lower_hex_digit commit

-- `^sha256:[0-9a-f]{64}$`
unfoldable pub is_content_hash : Bytes → Bool
unfolding is_lower_hex_digit in_range cut_prefix
is_content_hash value = elim (cut_prefix value (codes "sha256:")) [
  | none ↦ false
  | some digits ↦ length digits == 64 && all is_lower_hex_digit digits
]

reverse_onto : Bytes → Bytes → Bytes
reverse_onto acc [] = acc
reverse_onto acc (c ∷ s) = reverse_onto (c ∷ acc) s

-- `strings.HasSuffix`
unfoldable pub has_suffix : Bytes → Bytes → Bool
unfolding reverse_onto has_prefix
has_suffix s suffix = has_prefix (reverse_onto [] s) (reverse_onto [] suffix)

-- The encodings of the characters that `unicode.IsSpace` accepts.
abbrev spaces : List Bytes
spaces =
    (9 ∷ [])
    ∷ (10 ∷ [])
    ∷ (11 ∷ [])
    ∷ (12 ∷ [])
    ∷ (13 ∷ [])
    ∷ (32 ∷ [])
    ∷ (0xc2 ∷ 0x85 ∷ [])
    ∷ (0xc2 ∷ 0xa0 ∷ [])
    ∷ (0xe1 ∷ 0x9a ∷ 0x80 ∷ [])
    ∷ (0xe2 ∷ 0x80 ∷ 0x80 ∷ [])
    ∷ (0xe2 ∷ 0x80 ∷ 0x81 ∷ [])
    ∷ (0xe2 ∷ 0x80 ∷ 0x82 ∷ [])
    ∷ (0xe2 ∷ 0x80 ∷ 0x83 ∷ [])
    ∷ (0xe2 ∷ 0x80 ∷ 0x84 ∷ [])
    ∷ (0xe2 ∷ 0x80 ∷ 0x85 ∷ [])
    ∷ (0xe2 ∷ 0x80 ∷ 0x86 ∷ [])
    ∷ (0xe2 ∷ 0x80 ∷ 0x87 ∷ [])
    ∷ (0xe2 ∷ 0x80 ∷ 0x88 ∷ [])
    ∷ (0xe2 ∷ 0x80 ∷ 0x89 ∷ [])
    ∷ (0xe2 ∷ 0x80 ∷ 0x8a ∷ [])
    ∷ (0xe2 ∷ 0x80 ∷ 0xa8 ∷ [])
    ∷ (0xe2 ∷ 0x80 ∷ 0xa9 ∷ [])
    ∷ (0xe2 ∷ 0x80 ∷ 0xaf ∷ [])
    ∷ (0xe2 ∷ 0x81 ∷ 0x9f ∷ [])
    ∷ (0xe3 ∷ 0x80 ∷ 0x80 ∷ [])
    ∷ []

-- `strings.TrimSpace(s) != s`, of valid UTF-8: it begins or ends with a space.
unfoldable pub is_padded : Bytes → Bool
unfolding has_prefix has_suffix
is_padded s = any (has_prefix s) spaces || any (has_suffix s) spaces

unfoldable pub validate_requested : Bytes → Result DependencyError (Unit {0})
unfolding equal is_commit_request is_padded contains contains_byte has_prefix has_suffix
validate_requested requested =
    if equal requested requested_local
    then err local_reserved
    else if equal requested latest || is_commit_request requested
    then ok tt
    else fail_if
        (is_empty requested
          || is_padded requested
          || any (contains_byte requested) (codes "~^:?*@[\\")
          || contains requested (codes "..")
          || has_prefix requested (codes ".")
          || has_suffix requested (codes ".")
          || has_prefix requested (codes "/")
          || has_suffix requested (codes "/"))
        invalid_requested

unfoldable pub validate_requested_for_scheme : Scheme → Bytes → Result DependencyError (Unit {0})
unfolding equal validate_requested
validate_requested_for_scheme scheme_vendor requested =
    fail_if (not (equal requested vendored)) vendored_required
validate_requested_for_scheme scheme_github requested =
    if equal requested requested_local
    then ok tt
    else if equal requested vendored
    then err vendored_on_github
    else validate_requested requested

unfoldable pub validate_local_path : Bytes → Bytes → Result DependencyError (Unit {0})
unfolding equal clean has_prefix contains_byte
validate_local_path requested value =
    if not (equal requested requested_local)
    then fail_if (not (is_empty value)) path_without_local
    else fail_if
        (is_empty value
          || not (equal (clean value) value)
          || has_prefix value (codes "//")
          || contains_byte value b'\\'
          || contains_byte value 0
          || contains_byte value 13
          || contains_byte value 10)
        invalid_local_path

unfoldable pub source_scheme : Bytes → Result DependencyError Scheme
unfolding matches_source
source_scheme source =
    if matches_source (codes "github:") source
    then ok scheme_github
    else if matches_source (codes "vendor:") source
    then ok scheme_vendor
    else err invalid_source

-- The two groups of the pattern: a name holds no slash, so there is one slash.
repository_of : Option Bytes → Repository
unfolding split
repository_of none = record { owner = []; name = [] }
repository_of (some rest) =
    let (owner, parts) = split b'/' rest in
    record { owner = owner; name = elim parts [ [] ↦ [] | name ∷ _ ↦ name ] }

unfoldable pub parse_source : Bytes → Result DependencyError Repository
unfolding matches_source repository_of cut_prefix
parse_source source =
    if matches_source (codes "github:") source
    then ok (repository_of (cut_prefix source (codes "github:")))
    else err invalid_source

vendor_identity_of : Repository → VendorIdentity
vendor_identity_of parts = record { workspace = parts.owner; package_name = parts.name }

unfoldable pub parse_vendor_source : Bytes → Result DependencyError VendorIdentity
unfolding matches_source repository_of cut_prefix vendor_identity_of
parse_vendor_source source =
    if matches_source (codes "vendor:") source
    then ok (vendor_identity_of (repository_of (cut_prefix source (codes "vendor:"))))
    else err invalid_source
