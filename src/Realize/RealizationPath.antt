-- ===== src/Realize/RealizationPath.antt =====
-- internal/realize/model.go: which project paths the realization engine may own, and the formats
-- of hashes, artifact names and sources. `path.Clean` is that of Go's standard library.
use agentic_context_registry.Base.{
  ℕ, Bool, false, not, ◌&&◌, ◌||◌, List, [], ◌∷◌, ◌++◌, Option, none, some, Bytes, codes, equal,
  cut_prefix, has_prefix, contains_byte, split, in_range, is_hex_digit, to_lower_byte, ltb, leb,
  ◌==◌, if◌then◌else◌, length, any, all, is_empty, map, Result, ok, err, ◌>>◌, fail_if, is_ok,
}

pub data PathError : Type 0 where
  not_normalized control_character reserved_state_path not_shared_surface not_acr_entry : PathError

-- The components that `path.Clean` keeps, last first: "" and "." vanish, and ".." takes back the
-- component before it, if there is one that is not "..".
clean_step : Bool → List Bytes → Bytes → List Bytes
clean_step rooted kept c =
    if is_empty c || equal c (codes ".")
    then kept
    else if not (equal c (codes ".."))
    then c ∷ kept
    else elim kept [
      | [] ↦ if rooted then [] else codes ".." ∷ []
      | d ∷ rest ↦ if equal d (codes "..") then codes ".." ∷ d ∷ rest else rest
    ]

clean_components : Bool → List Bytes → List Bytes → List Bytes
clean_components rooted kept [] = kept
clean_components rooted kept (c ∷ cs) = clean_components rooted (clean_step rooted kept c) cs

-- The kept components, last first, with slashes between them.
join_components : Bytes → List Bytes → Bytes
join_components acc [] = acc
join_components acc (c ∷ cs) = join_components (if is_empty acc then c else c ++ (b'/' ∷ acc)) cs

unfoldable pub clean : Bytes → Bytes
unfolding clean_components clean_step join_components equal split has_prefix
clean value =
    let rooted = has_prefix value (codes "/") in
    let (part, parts) = split b'/' value in
    let joined = join_components [] (clean_components rooted [] (part ∷ parts)) in
    if rooted then b'/' ∷ joined else if is_empty joined then codes "." else joined

is_control : ℕ → Bool
is_control c = ltb c 0x20 || c == 0x7f

unfoldable pub validate_relative_path : Bytes → Result PathError (Unit {0})
unfolding clean is_control equal has_prefix contains_byte
validate_relative_path value = do
  fail_if
      (is_empty value
        || contains_byte value 0
        || contains_byte value b'\\'
        || has_prefix value (codes "/")
        || not (equal (clean value) value)
        || equal value (codes ".")
        || equal value (codes "..")
        || has_prefix value (codes "../"))
      not_normalized
  fail_if (any is_control value) control_character

unfoldable pub is_reserved_state : Bytes → Bool
unfolding equal has_prefix
is_reserved_state target =
    equal target (codes "agents.yaml")
    || equal target (codes ".agents")
    || has_prefix target (codes ".agents/")
    || equal target (codes ".git")
    || has_prefix target (codes ".git/")

unfoldable pub validate_target_path : Bytes → Result PathError (Unit {0})
unfolding validate_relative_path is_reserved_state
validate_target_path target = do
  validate_relative_path target
  fail_if (is_reserved_state target) reserved_state_path

abbrev shared_surface_root : Bytes
shared_surface_root = codes ".agents/skills"

abbrev shared_surface_prefix : Bytes
shared_surface_prefix = codes "acr__"

-- Behind the root: the entry is what stands before the first slash.
check_surface_entry : Option Bytes → Result PathError (Unit {0})
unfolding split has_prefix equal
check_surface_entry none = err not_shared_surface
check_surface_entry (some rest) =
    let (entry, _) = split b'/' rest in
    fail_if (not (has_prefix entry shared_surface_prefix) || equal entry shared_surface_prefix)
      not_acr_entry

unfoldable pub validate_shared_surface_path : Bytes → Result PathError (Unit {0})
unfolding validate_relative_path check_surface_entry cut_prefix
validate_shared_surface_path target = do
  validate_relative_path target
  check_surface_entry (cut_prefix target (shared_surface_root ++ codes "/"))

unfoldable pub validate_realization_path : Bytes → Result PathError (Unit {0})
unfolding validate_target_path validate_shared_surface_path
validate_realization_path target = do
  validate_relative_path target
  if is_ok (validate_target_path target) || is_ok (validate_shared_surface_path target)
      then ok tt
      else if has_prefix target (shared_surface_root ++ codes "/")
      then err not_acr_entry
      else err reserved_state_path

unfoldable pub validate_realization_directory_path : Bytes → Result PathError (Unit {0})
unfolding validate_realization_path
validate_realization_directory_path target =
    if equal target (codes ".agents") || equal target shared_surface_root
    then ok tt
    else validate_realization_path target

-- `hex.DecodeString` accepts an even number of hexadecimal digits, here 64.
unfoldable pub valid_hash : Bytes → Bool
unfolding cut_prefix is_hex_digit to_lower_byte equal
valid_hash value = elim (cut_prefix value (codes "sha256:")) [
  | none ↦ false
  | some digits ↦
      length digits == 64 && all is_hex_digit digits && equal (map to_lower_byte value) value
]

is_lower_alnum : ℕ → Bool
is_lower_alnum c = in_range b'a' b'z' c || in_range b'0' b'9' c

-- `[a-z0-9](?:inner*[a-z0-9])?`: the first and the last byte are letters or digits.
ends_alnum : Bytes → Bool
ends_alnum [] = false
ends_alnum (c ∷ []) = is_lower_alnum c
ends_alnum (c ∷ d ∷ s) = ends_alnum (d ∷ s)

pub matches_name : (ℕ → Bool) → Bytes → Bool
unfolding ends_alnum is_lower_alnum in_range
matches_name inner [] = false
matches_name inner (c ∷ s) = is_lower_alnum c && all inner (c ∷ s) && ends_alnum (c ∷ s)

is_owner_byte : ℕ → Bool
is_owner_byte c = is_lower_alnum c || c == b'-'

is_repository_byte : ℕ → Bool
is_repository_byte c = is_lower_alnum c || c == b'.' || c == b'_' || c == b'-'

-- `owner/name` behind the scheme; a name holds no slash, so there are two parts exactly.
pub matches_owner_name : Bytes → Bool
unfolding split matches_name is_owner_byte is_repository_byte
matches_owner_name rest =
    let (owner, parts) = split b'/' rest in
    elim parts [
      | [] ↦ false
      | name ∷ more ↦
          is_empty more
          && leb (length owner) 39
          && matches_name is_owner_byte owner
          && matches_name is_repository_byte name
    ]

-- `scheme:owner/name`.
unfoldable pub matches_source : Bytes → Bytes → Bool
unfolding cut_prefix matches_owner_name
matches_source scheme source = elim (cut_prefix source scheme) [
  | none ↦ false
  | some rest ↦ matches_owner_name rest
]

unfoldable pub matches_ledger_source : Bytes → Bool
unfolding matches_source
matches_ledger_source source =
    matches_source (codes "github:") source || matches_source (codes "vendor:") source

is_segment : Bytes → Bool
is_segment s = not (is_empty s) && all is_lower_alnum s

starts_with_letter : Bytes → Bool
starts_with_letter [] = false
starts_with_letter (c ∷ s) = in_range b'a' b'z' c

-- `^[a-z][a-z0-9]*(?:-[a-z0-9]+)*$`, the pattern of artifact and of adapter names.
unfoldable pub matches_kebab : Bytes → Bool
unfolding split is_segment starts_with_letter is_lower_alnum in_range
matches_kebab value =
    let (part, parts) = split b'-' value in
    starts_with_letter part && is_segment part && all is_segment parts
