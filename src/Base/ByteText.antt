-- ===== src/Base/ByteText.antt =====
-- Texts as lists of bytes, with the functions of Go's `strings` and `bytes` that the program calls.
use Prim.Native.Nat.{ℕ, zero, suc, ◌+◌, ◌/◌, ◌%◌}
use Prim.Native.Char.{code}
use Prim.Native.String.{String}
use mathlib.Core.Path.{◌≡◌, refl}
use mathlib.Core.Logic.{◌↔◌, inl, inr}
use mathlib.Core.Bool.{Bool, true, false, ◌||◌, ◌&&◌}
use mathlib.Core.Option.{Option, none, some}
use mathlib.Core.List.{List, [], ◌∷◌, ◌++◌}
use native.Mathlib.Omega.{arith}
use agentic_context_registry.Base.Tests.{◌==◌, leb, if◌then◌else◌, Bool-cases}
use agentic_context_registry.Base.Lists.{length, drop, is_empty}

abbrev pub Bytes : Type 0
Bytes = List ℕ

-- The bytes of an ASCII literal.
abbrev pub codes : String → Bytes
codes String.[] = []
codes (String.◌∷◌ c s) = code c ∷ codes s

unfoldable pub equal : Bytes → Bytes → Bool
equal [] [] = true
equal (a ∷ s) (b ∷ t) = a == b && equal s t
equal _ _ = false

pub equal_iff : (s t : Bytes) → (equal s t ≡ true) ↔ (s ≡ t)
unfolding equal
equal_iff (a ∷ s) (b ∷ t) = ground (arith, equal_iff s t)
equal_iff _ _ = ground arith

pub equal_refl : (s : Bytes) → equal s s ≡ true
equal_refl s = (equal_iff s s).1 refl

-- `strings.CutPrefix(s, prefix)`: the rest behind the prefix.
unfoldable pub cut_prefix : Bytes → Bytes → Option Bytes
cut_prefix s [] = some s
cut_prefix [] (p ∷ ps) = none
cut_prefix (c ∷ s) (p ∷ ps) = if c == p then cut_prefix s ps else none

pub cut_prefix-eq-some : (s p : Bytes) {r : Bytes} → cut_prefix s p ≡ some r → s ≡ p ++ r
unfolding cut_prefix
cut_prefix-eq-some s [] h = cc
cut_prefix-eq-some [] (p ∷ ps) h = cc
cut_prefix-eq-some (c ∷ s) (p ∷ ps) {r} h = elim (Bool-cases (c == p)) [
  | inl e ↦ ground (arith, cut_prefix-eq-some s ps {r = r} (rw e at h))
  | inr e ↦ absurd (ground arith)
]

unfoldable pub has_prefix : Bytes → Bytes → Bool
has_prefix s [] = true
has_prefix [] (p ∷ ps) = false
has_prefix (c ∷ s) (p ∷ ps) = c == p && has_prefix s ps

pub has_prefix-eq-true : (s p : Bytes) → has_prefix s p ≡ true → s ≡ p ++ drop (length p) s
unfolding has_prefix
has_prefix-eq-true s [] h = refl
has_prefix-eq-true [] (p ∷ ps) h = cc
has_prefix-eq-true (c ∷ s) (p ∷ ps) h = ground (arith, has_prefix-eq-true s ps)

pub has_prefix-append : (p r : Bytes) → has_prefix (p ++ r) p ≡ true
unfolding has_prefix
has_prefix-append [] r = refl
has_prefix-append (c ∷ p) r = ground (arith, has_prefix-append p r)

-- `bytes.Contains(s, sub)`.
unfoldable pub contains : Bytes → Bytes → Bool
contains [] sub = is_empty sub
contains (c ∷ s) sub = has_prefix (c ∷ s) sub || contains s sub

pub contains_self : (s : Bytes) → contains s s ≡ true
unfolding contains has_prefix
contains_self [] = refl
contains_self (c ∷ s) = ground (arith, has_prefix_self s)
  where
    has_prefix_self : (s : Bytes) → has_prefix s s ≡ true
    has_prefix_self [] = refl
    has_prefix_self (c ∷ s) = ground (arith, has_prefix_self s)

-- `strings.ContainsRune(s, c)` for an ASCII `c`.
unfoldable pub contains_byte : Bytes → ℕ → Bool
contains_byte [] c = false
contains_byte (d ∷ s) c = d == c || contains_byte s c

-- `strings.Split(s, sep)` for a one-byte separator: the first part, and the others.
unfoldable pub split : ℕ → Bytes → Bytes × List Bytes
split sep [] = ([], [])
split sep (c ∷ s) =
    let (part, parts) = split sep s in if c == sep then ([], part ∷ parts) else (c ∷ part, parts)

-- `strings.HasSuffix` and `strings.TrimSuffix` for a one-byte suffix.
unfoldable pub trim_suffix_byte : ℕ → Bytes → Bytes
trim_suffix_byte b [] = []
trim_suffix_byte b (c ∷ s) = if c == b && is_empty s then [] else c ∷ trim_suffix_byte b s

unfoldable pub in_range : ℕ → ℕ → ℕ → Bool
in_range lo hi c = leb lo c && leb c hi

unfoldable pub to_lower_byte : ℕ → ℕ
unfolding in_range
to_lower_byte c = if in_range b'A' b'Z' c then c + 32 else c

unfoldable pub is_hex_digit : ℕ → Bool
unfolding in_range
is_hex_digit c = in_range b'0' b'9' c || in_range b'a' b'f' c || in_range b'A' b'F' c

-- `bytes.Index(s, sub)`: where `sub` first stands.
unfoldable pub index : Bytes → Bytes → Option ℕ
unfolding has_prefix
index [] sub = if is_empty sub then some 0 else none
index (c ∷ s) sub =
    let rest = index s sub in
    if has_prefix (c ∷ s) sub then some 0 else elim rest [ none ↦ none | some i ↦ some (suc i) ]

unfoldable pub byte_at : Bytes → ℕ → Option ℕ
byte_at [] i = none
byte_at (c ∷ s) zero = some c
byte_at (c ∷ s) (suc i) = byte_at s i

-- `i < len(s) && s[i] == b`.
unfoldable pub is_byte_at : Bytes → ℕ → ℕ → Bool
unfolding byte_at
is_byte_at s i b = elim (byte_at s i) [ none ↦ false | some c ↦ c == b ]

-- `%06d` of a number below a million.
unfoldable pub index_digits : ℕ → Bytes
index_digits n =
    (b'0' + n / 100000 % 10)
    ∷ (b'0' + n / 10000 % 10)
    ∷ (b'0' + n / 1000 % 10)
    ∷ (b'0' + n / 100 % 10)
    ∷ (b'0' + n / 10 % 10)
    ∷ (b'0' + n % 10)
    ∷ []
