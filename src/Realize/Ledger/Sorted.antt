-- ===== src/Realize/Ledger/Sorted.antt =====
-- The canonical form of a ledger is sorted, and is its own canonical form.
use mathlib.Core.Path.{ap₂}
use agentic_context_registry.Base.{
  Bool, true, false, not, ◌||◌, List, [], ◌∷◌, ◌≡◌, refl, sym, ap, ◌∙◌, any, is_empty, map, In,
  if◌then◌else◌, ◌⊎◌, inl, inr, less_asymm, less_trans_le, insert_sorted, insert_all, sort, sort-In,
  sort_sorted, sort-IsSorted, IsSorted, arith,
}
use agentic_context_registry.Realize.Model.{
  Target, Ledger, baseline_version, shared_surface_version,
}
use agentic_context_registry.Realize.Ledger.{
  entry_key, entry_less, target_less, canonical_target, canonical_version, canonical_ledger,
  required_ledger_schema_version,
}

pub target_less_asymm : (a b : Target) → target_less a b ≡ true → target_less b a ≡ false
unfolding target_less
target_less_asymm a b h = less_asymm a.path b.path h

target_less_trans :
    (a b c : Target) → target_less b a ≡ false → target_less c b ≡ false → target_less c a ≡ false
unfolding target_less
target_less_trans a b c h k = less_trans_le a.path b.path c.path h k

canonical_target_idem : (t : Target) → canonical_target (canonical_target t) ≡ canonical_target t
unfolding canonical_target entry_less
canonical_target_idem t =
    ap (λ es. record t { entries = es })
      (sort_sorted entry_less
        (λ a b c h k. less_trans_le (entry_key a) (entry_key b) (entry_key c) h k)
        (sort entry_less t.entries)
        (sort-IsSorted entry_less (λ a b h. less_asymm (entry_key a) (entry_key b) h) t.entries))

-- A target of the list is its own canonical form.
abbrev AreCanonical : List Target → Type 0
AreCanonical ts = (t : Target) → In t ts → canonical_target t ≡ t

map_canonical : (ts : List Target) → AreCanonical (map canonical_target ts)
map_canonical (s ∷ ts) t (inl e) = rw e (canonical_target_idem s)
map_canonical (s ∷ ts) t (inr m) = map_canonical ts t m
map_canonical [] t m = absurd m

map_fixed : (ts : List Target) → AreCanonical ts → map canonical_target ts ≡ ts
map_fixed [] h = refl
map_fixed (t ∷ ts) h = ap₂ (λ x xs. x ∷ xs) (h t (inl refl)) (map_fixed ts (λ s m. h s (inr m)))

module _ {A : Type 0} (p : A → Bool) (lt : A → A → Bool) where
  any-insert_sorted : (x : A) (ys : List A) → any p (insert_sorted lt x ys) ≡ p x || any p ys
  unfolding insert_sorted
  any-insert_sorted x [] = refl
  any-insert_sorted x (y ∷ ys) = ground (arith, any-insert_sorted x ys)

  any-insert_all : (acc xs : List A) → any p (insert_all lt acc xs) ≡ any p acc || any p xs
  unfolding insert_all
  any-insert_all acc [] = ground arith
  any-insert_all acc (x ∷ xs) =
      any-insert_all (insert_sorted lt x acc) xs ∙ ground (arith, any-insert_sorted x acc)

  any-sort : (xs : List A) → any p (sort lt xs) ≡ any p xs
  unfolding sort
  any-sort xs = any-insert_all [] xs

any-map_owner :
    (ts : List Target)
    → any (λ t. not (is_empty t.owner)) (map canonical_target ts)
      ≡ any (λ t. not (is_empty t.owner)) ts
unfolding canonical_target
any-map_owner [] = refl
any-map_owner (t ∷ ts) = ap (λ b. not (is_empty t.owner) || b) (any-map_owner ts)

required-canonical :
    (l : Ledger)
    → required_ledger_schema_version (canonical_ledger l) ≡ required_ledger_schema_version l
unfolding required_ledger_schema_version canonical_ledger
required-canonical l =
    ap (λ b. if b then shared_surface_version else baseline_version)
      (any-sort (λ t. not (is_empty t.owner)) target_less (map canonical_target l.targets)
        ∙ any-map_owner l.targets)

required_cases :
    (l : Ledger)
    → (required_ledger_schema_version l ≡ baseline_version)
      ⊎ (required_ledger_schema_version l ≡ shared_surface_version)
unfolding required_ledger_schema_version
required_cases l = ground arith

version_field : (l : Ledger) → (canonical_ledger l).schema_version ≡ canonical_version l
unfolding canonical_ledger
version_field l = refl

canonical_version_idem : (l : Ledger) → canonical_version (canonical_ledger l) ≡ canonical_version l
unfolding canonical_version
canonical_version_idem l = ground (arith, required-canonical l, required_cases l, version_field l)

canonical_targets_idem :
    (l : Ledger)
    → sort target_less (map canonical_target (canonical_ledger l).targets)
      ≡ (canonical_ledger l).targets
unfolding canonical_ledger
canonical_targets_idem l =
    let ts = map canonical_target l.targets in
    let fixed =
      map_fixed (sort target_less ts)
        λ t m. map_canonical l.targets t (sort-In target_less t ts m) in
    rw fixed (
      sort_sorted target_less target_less_trans (sort target_less ts)
        (sort-IsSorted target_less target_less_asymm ts))

canonical_ledger-IsSorted : (l : Ledger) → IsSorted target_less (canonical_ledger l).targets
unfolding canonical_ledger
canonical_ledger-IsSorted l =
    sort-IsSorted target_less target_less_asymm (map canonical_target l.targets)

canonical_fields :
    (l : Ledger)
    → canonical_ledger l ≡ record {
      schema_version = canonical_version l;
      targets = sort target_less (map canonical_target l.targets);
    }
unfolding canonical_ledger
canonical_fields l = refl

-- Whatever a ledger holds, its canonical form is the canonical form of itself, and its targets are
-- sorted by their paths.
pub canonical_ledger_idem :
    (l : Ledger)
    → (canonical_ledger (canonical_ledger l) ≡ canonical_ledger l)
      × IsSorted target_less (canonical_ledger l).targets
canonical_ledger_idem l = (
  canonical_fields (canonical_ledger l)
      ∙ ap₂ (λ v ts. record { schema_version = v; targets = ts })
          (canonical_version_idem l ∙ sym (version_field l)) (canonical_targets_idem l),
  canonical_ledger-IsSorted l,
)
