-- ===== src/Realize/Ledger/Valid.antt =====
-- What a ledger that passes validation is like, and what a merge of two ledgers holds.
use mathlib.Core.Path.{subst}
use agentic_context_registry.Base.{
  ◌≤◌, true, false, not, ◌&&◌, ◌||◌, List, [], ◌∷◌, ◌++◌, Bytes, equal, equal_iff, ltb, ◌==◌, ◌≡◌,
  ◌≢◌, ◌⊎◌, inl, inr, refl, sym, ap, ◌∙◌, any, is_empty, map, In, All, In-append_right, arith, ok,
  fail_if, is_ok, >>-eq-ok, fail_if-eq-ok, ok-injective, sort-In, In-sort, not-eq-false,
  ||-eq-false,
}
use agentic_context_registry.Realize.Model.{
  generated, shared, Target, Ledger, baseline_version, shared_surface_version, current_version,
  same_ownership, same_ownership_iff,
}
use agentic_context_registry.Realize.RealizationPath.{validate_realization_path, valid_hash}
use agentic_context_registry.Realize.Ledger.{
  unsupported_schema, coordinator_under_baseline, target_path_invalid, duplicate_target,
  invalid_mode, unsupported_target_ownership, shared_excluded, invalid_output_hash, no_entries,
  merged_twice, required_ledger_schema_version, validate_target_owner, validate_entries,
  validate_target, validate_targets, validate_ledger, target_less, canonical_target,
  canonical_ledger, merge_targets, merge_ledgers,
}

not_seen :
    (s : Bytes) (seen : List Bytes) → any (equal s) seen ≡ false → (u : Bytes) → In u seen → s ≢ u
not_seen s [] h u m = absurd m
not_seen s (v ∷ seen) h u (inl e) = λ q.
    let differs = (||-eq-false (equal s v) (any (equal s) seen) h).0 in
    let same = (equal_iff s v).1 (q ∙ e) in cc (differs, same)
not_seen s (v ∷ seen) h u (inr m) =
    not_seen s seen (||-eq-false (equal s v) (any (equal s) seen) h).1 u m

-- What the loop over the targets checks of one of them.
pub record IsValidTarget (t : Target) : Type 0 where
  pub path_valid : is_ok (validate_realization_path t.path) ≡ true
  pub owner_valid : validate_target_owner t ≡ ok tt
  pub mode_ne_zero : t.mode_bits ≢ 0
  pub mode_le : t.mode_bits ≤ 0x1ff
  pub owned : (t.ownership ≡ generated) ⊎ (t.ownership ≡ shared)
  pub shared_visible : t.ownership ≡ shared → t.excluded ≡ false
  pub hash_valid : valid_hash t.output_hash ≡ true
  pub has_entries : t.entries ≢ []
  pub entries_valid : validate_entries [] t.entries ≡ ok tt

is_empty-ne-nil {ℓ} : {A : Type ℓ} (xs : List A) → is_empty xs ≡ false → xs ≢ []
is_empty-ne-nil [] h = cc
is_empty-ne-nil (x ∷ xs) h = λ e. cc

validate_target-IsValidTarget :
    (seen : List Bytes) (t : Target)
    → validate_target seen t ≡ ok tt
    → IsValidTarget t × (any (equal t.path) seen ≡ false)
unfolding validate_target
validate_target-IsValidTarget seen t h =
    let (a, h1) =
      >>-eq-ok (fail_if (not (is_ok (validate_realization_path t.path))) target_path_invalid) _ h in
    let (b, h2) = >>-eq-ok (validate_target_owner t) _ h1 in
    let (c, h3) = >>-eq-ok (fail_if (any (equal t.path) seen) duplicate_target) _ h2 in
    let (d, h4) =
      >>-eq-ok (fail_if (t.mode_bits == 0 || ltb 0x1ff t.mode_bits) invalid_mode) _ h3 in
    let supported = same_ownership t.ownership generated || same_ownership t.ownership shared in
    let (e, h5) = >>-eq-ok (fail_if (not supported) unsupported_target_ownership) _ h4 in
    let (f, h6) =
      >>-eq-ok (fail_if (same_ownership t.ownership shared && t.excluded) shared_excluded) _ h5 in
    let (g, h7) = >>-eq-ok (fail_if (not (valid_hash t.output_hash)) invalid_output_hash) _ h6 in
    let (k, h8) = >>-eq-ok (fail_if (is_empty t.entries) no_entries) _ h7 in
    let d' = fail_if-eq-ok (t.mode_bits == 0 || ltb 0x1ff t.mode_bits) invalid_mode d in
    let e' =
      not-eq-false supported (fail_if-eq-ok (not supported) unsupported_target_ownership e) in
    let f' = fail_if-eq-ok (same_ownership t.ownership shared && t.excluded) shared_excluded f in
    (
      record {
        path_valid =
            not-eq-false (is_ok (validate_realization_path t.path))
              (fail_if-eq-ok _ target_path_invalid a);
        owner_valid = b;
        mode_ne_zero = ground (arith, d');
        mode_le = ground (arith, d');
        owned = ground (
          arith,
          e',
          same_ownership_iff t.ownership generated,
          same_ownership_iff t.ownership shared,
        );
        shared_visible = λ s. ground (arith, f', s, same_ownership_iff t.ownership shared);
        hash_valid =
            not-eq-false (valid_hash t.output_hash) (fail_if-eq-ok _ invalid_output_hash g);
        has_entries = is_empty-ne-nil t.entries (fail_if-eq-ok (is_empty t.entries) no_entries k);
        entries_valid = h8;
      },
      fail_if-eq-ok (any (equal t.path) seen) duplicate_target c,
    )

-- No two targets have one path.
abbrev pub DistinctPaths : List Target → Type 0
DistinctPaths [] = Unit
DistinctPaths (t ∷ ts) = ((s : Target) → In s ts → s.path ≢ t.path) × DistinctPaths ts

abbrev Fresh : List Bytes → List Target → Type 0
Fresh seen ts = (s : Target) → In s ts → (u : Bytes) → In u seen → s.path ≢ u

validate_targets-valid :
    (seen : List Bytes) (ts : List Target)
    → validate_targets seen ts ≡ ok tt
    → All IsValidTarget ts × DistinctPaths ts × Fresh seen ts
unfolding validate_targets
validate_targets-valid seen [] h = (tt, tt, λ s m. absurd m)
validate_targets-valid seen (t ∷ ts) h =
    let (a, h1) = >>-eq-ok (validate_target seen t) _ h in
    let (valid, new) = validate_target-IsValidTarget seen t a in
    let (rest, distinct, fresh) = validate_targets-valid (t.path ∷ seen) ts h1 in
    (
      (valid, rest),
      (λ s m. fresh s m t.path (inl refl), distinct),
      λ s m u k. elim m [
        | inl e ↦ rw e (not_seen t.path seen new u k)
        | inr j ↦ fresh s j u (inr k)
      ],
    )

-- What a ledger must be to authorize writes.
pub record IsValidLedger (l : Ledger) : Type 0 where
  pub version_is :
      (l.schema_version ≡ baseline_version) ⊎ (l.schema_version ≡ shared_surface_version)
  pub version_expresses : required_ledger_schema_version l ≤ l.schema_version
  pub targets_valid : All IsValidTarget l.targets
  pub distinct : DistinctPaths l.targets

-- A ledger that passes validation has a supported version that can express its owners, every
-- target has a path that acr may own, a matching owner, permission bits only, one of the two
-- managed ownerships, a well-formed hash and valid entries, a shared target is not excluded from
-- Git, and no two targets have one path.
pub validate_ledger-IsValidLedger : (l : Ledger) → validate_ledger l ≡ ok tt → IsValidLedger l
unfolding validate_ledger
validate_ledger-IsValidLedger l h =
    let supported =
      l.schema_version == baseline_version || l.schema_version == shared_surface_version in
    let (a, h1) = >>-eq-ok (fail_if (not supported) unsupported_schema) _ h in
    let old = ltb l.schema_version (required_ledger_schema_version l) in
    let (b, h2) = >>-eq-ok (fail_if old coordinator_under_baseline) _ h1 in
    let (valid, distinct, _) = validate_targets-valid [] l.targets h2 in
    let a' = not-eq-false supported (fail_if-eq-ok (not supported) unsupported_schema a) in
    let b' = fail_if-eq-ok old coordinator_under_baseline b in
    record {
      version_is = ground (arith, a');
      version_expresses = ground (arith, b');
      targets_valid = valid;
      distinct = distinct;
    }

merge_targets-distinct :
    (seen : List Bytes) (ts : List Target)
    → merge_targets seen ts ≡ ok tt
    → DistinctPaths ts × Fresh seen ts
unfolding merge_targets
merge_targets-distinct seen [] h = (tt, λ s m. absurd m)
merge_targets-distinct seen (t ∷ ts) h =
    let (a, h1) = >>-eq-ok (fail_if (any (equal t.path) seen) merged_twice) _ h in
    let new = fail_if-eq-ok (any (equal t.path) seen) merged_twice a in
    let (distinct, fresh) = merge_targets-distinct (t.path ∷ seen) ts h1 in
    (
      (λ s m. fresh s m t.path (inl refl), distinct),
      λ s m u k. elim m [
        | inl e ↦ rw e (not_seen t.path seen new u k)
        | inr j ↦ fresh s j u (inr k)
      ],
    )

distinct_append :
    (xs ys : List Target) (s t : Target)
    → DistinctPaths (xs ++ ys)
    → In s xs
    → In t ys
    → s.path ≢ t.path
distinct_append (x ∷ xs) ys s t (h, d) (inl e) m =
    λ q. h t (In-append_right t xs ys m) (sym q ∙ ap (λ r. r.path) e)
distinct_append (x ∷ xs) ys s t (h, d) (inr k) m = distinct_append xs ys s t d k m
distinct_append [] ys s t d k m = absurd k

In-map_canonical :
    (t : Target) (ts : List Target)
    → In t (map canonical_target ts)
    → (s : Target) × In s ts × (t ≡ canonical_target s)
In-map_canonical t [] m = absurd m
In-map_canonical t (s ∷ ts) (inl e) = (s, inl refl, e)
In-map_canonical t (s ∷ ts) (inr m) = let (u, k, e) = In-map_canonical t ts m in (u, inr k, e)

map_canonical-In :
    (s : Target) (ts : List Target) → In s ts → In (canonical_target s) (map canonical_target ts)
map_canonical-In s (t ∷ ts) (inl e) = inl (ap canonical_target e)
map_canonical-In s (t ∷ ts) (inr m) = inr (map_canonical-In s ts m)
map_canonical-In s [] m = absurd m

-- When two ledgers merge, the merged ledger is valid, no path is recorded by both, and its targets
-- are exactly those of the two, each with its entries sorted.
pub merge_ledgers_exact :
    (base carried : Ledger) {m : Ledger}
    → merge_ledgers base carried ≡ ok m
    → IsValidLedger m
      × ((s t : Target) → In s base.targets → In t carried.targets → s.path ≢ t.path)
      × ((t : Target)
          → In t m.targets
          → (s : Target) × In s (base.targets ++ carried.targets) × (t ≡ canonical_target s))
      × ((s : Target) → In s (base.targets ++ carried.targets) → In (canonical_target s) m.targets)
unfolding merge_ledgers
merge_ledgers_exact base carried {m} h =
    let both = base.targets ++ carried.targets in
    let merged = canonical_ledger (record { schema_version = current_version; targets = both }) in
    let (a, h1) = >>-eq-ok (merge_targets [] both) _ h in
    let (b, h2) = >>-eq-ok (validate_ledger merged) _ h1 in
    let same : merged ≡ m = ok-injective h2 in
    let sorted = map canonical_target both in
    (
      subst IsValidLedger same (validate_ledger-IsValidLedger merged b),
      λ s t k j.
          distinct_append base.targets carried.targets s t (merge_targets-distinct [] both a).0 k j,
      λ t k. In-map_canonical t both (
          sort-In target_less t sorted
            (unfold canonical_ledger in subst (λ l. In t l.targets) (sym same) k)),
      λ s k.
          subst (λ l. In (canonical_target s) l.targets) same
            (unfold canonical_ledger in
              In-sort target_less (canonical_target s) sorted (map_canonical-In s both k)),
    )
