-- ===== src/Dependency/Validate/Consistent.antt =====
-- What a valid state promises of each lock.
use agentic_context_registry.Base.{
  true, false, not, ◌&&◌, ◌||◌, List, [], ◌∷◌, Option, none, some, Bytes, equal, equal_iff,
  equal_refl, is_empty, is_some, is_ok, any, if_elim, Bool-cases, Option-cases, not-eq-false,
  ||-eq-false, ok, ok-injective, subst, fail_if, fail_if-eq-ok, >>=-eq-ok, >>-eq-ok, ◌≡◌, refl, sym,
  ◌∙◌, ◌⊎◌, inl, inr, In, has_prefix, map, to_lower_byte, true≢false,
}
use agentic_context_registry.Dependency.Model.{
  is_positive, Declaration, Hold, LockedDependency, ResolutionKind, resolution_local,
  resolution_vendor, resolution_release, resolution_commit, unsupported, Scheme, requested_local,
  vendored, latest,
}
use agentic_context_registry.Dependency.Source.{
  is_commit_request, is_full_commit, source_scheme, validate_requested_for_scheme,
  validate_local_path, is_content_hash,
}
use agentic_context_registry.Dependency.Hold.{validate_hold, validate_lock_hold}
use agentic_context_registry.Dependency.Validate.{
  resolved_reference, validate_declaration, validate_declarations, find_declaration, validate_kind,
  validate_against, validate_declared, validate_locks,
}
use agentic_context_registry.Dependency.Hold.Accepted.{IsHold, validate_hold-IsHold}

empty-eq-nil : (s : Bytes) → is_empty s ≡ true → s ≡ []
empty-eq-nil [] e = refl
empty-eq-nil (c ∷ s) e = cc

equal-true : (s t : Bytes) → equal s t ≡ true → s ≡ t
equal-true s t e = (equal_iff s t).0 e

-- What the kind of a lock demands, given what its declaration resolves.
abbrev pub FitsKind : ResolutionKind → Bytes → LockedDependency → Type 0
FitsKind resolution_local resolved l =
    (l.requested ≡ requested_local) × (l.tag ≡ []) × (l.commit ≡ []) × (l.hold ≡ none)
FitsKind resolution_release resolved l =
    (is_full_commit l.commit ≡ true)
    × (is_positive l.release_id ≡ true)
    × (is_commit_request resolved ≡ false)
    × ((resolved ≡ latest) ⊎ (l.tag ≡ resolved))
FitsKind resolution_commit resolved l =
    (is_full_commit l.commit ≡ true)
    × (l.tag ≡ [])
    × (is_commit_request resolved ≡ true)
    × (has_prefix l.commit (map to_lower_byte resolved) ≡ true)
FitsKind resolution_vendor resolved l =
    (l.requested ≡ vendored) × (l.tag ≡ []) × (l.commit ≡ []) × (l.hold ≡ none)
FitsKind (unsupported _) resolved l = ⊥

is_some-eq-false : {A : Type 0} (o : Option A) → is_some o ≡ false → o ≡ none
is_some-eq-false none e = refl
is_some-eq-false (some a) e = cc

latest_or_same :
    (resolved tag : Bytes)
    → (not (equal resolved latest) && not (equal tag resolved)) ≡ false
    → (resolved ≡ latest) ⊎ (tag ≡ resolved)
latest_or_same resolved tag h = elim (Bool-cases (equal resolved latest)) [
  | inl e ↦ inl (equal-true resolved latest e)
  | inr e ↦ elim (Bool-cases (equal tag resolved)) [
    | inl f ↦ inr (equal-true tag resolved f)
    | inr f ↦ absurd (true≢false (sym (rw (e, f) refl) ∙ h))
  ]
]

validate_kind-FitsKind :
    (kind : ResolutionKind) (scheme : Scheme) (resolved : Bytes) (l : LockedDependency)
    → validate_kind kind scheme resolved l ≡ ok tt
    → FitsKind kind resolved l
unfolding validate_kind
validate_kind-FitsKind resolution_local scheme resolved l h =
    let (h1, free) = ||-eq-false _ _ (fail_if-eq-ok _ _ h) in
    let (h2, no_commit) = ||-eq-false _ _ h1 in
    let (h3, no_tag) = ||-eq-false _ _ h2 in
    let (h4, _) = ||-eq-false _ _ h3 in
    let (h5, _) = ||-eq-false _ _ h4 in
    let (_, own) = ||-eq-false _ _ h5 in
    (
      equal-true _ _ (not-eq-false _ own),
      empty-eq-nil _ (not-eq-false _ no_tag),
      empty-eq-nil _ (not-eq-false _ no_commit),
      is_some-eq-false _ free,
    )
validate_kind-FitsKind resolution_release scheme resolved l h =
    let (h1, tags) = ||-eq-false _ _ (fail_if-eq-ok _ _ h) in
    let (h2, no_commit) = ||-eq-false _ _ h1 in
    let (h3, _) = ||-eq-false _ _ h2 in
    let (h4, id) = ||-eq-false _ _ h3 in
    let (_, full) = ||-eq-false _ _ h4 in
    (not-eq-false _ full, not-eq-false _ id, no_commit, latest_or_same resolved l.tag tags)
validate_kind-FitsKind resolution_commit scheme resolved l h =
    let (h1, starts) = ||-eq-false _ _ (fail_if-eq-ok _ _ h) in
    let (h2, asks) = ||-eq-false _ _ h1 in
    let (h3, no_tag) = ||-eq-false _ _ h2 in
    let (h4, _) = ||-eq-false _ _ h3 in
    let (_, full) = ||-eq-false _ _ h4 in
    (
      not-eq-false _ full,
      empty-eq-nil _ (not-eq-false _ no_tag),
      not-eq-false _ asks,
      not-eq-false _ starts,
    )
validate_kind-FitsKind resolution_vendor scheme resolved l h =
    let (h1, free) = ||-eq-false _ _ (fail_if-eq-ok _ _ h) in
    let (h2, no_commit) = ||-eq-false _ _ h1 in
    let (h3, no_tag) = ||-eq-false _ _ h2 in
    let (h4, _) = ||-eq-false _ _ h3 in
    let (_, own) = ||-eq-false _ _ h4 in
    (
      equal-true _ _ (not-eq-false _ own),
      empty-eq-nil _ (not-eq-false _ no_tag),
      empty-eq-nil _ (not-eq-false _ no_commit),
      is_some-eq-false _ free,
    )
validate_kind-FitsKind (unsupported _) scheme resolved l h = cc

-- A lock that serves its declaration.
pub record IsLockOf (d : Declaration) (l : LockedDependency) : Type 0 where
  pub same_path : l.path ≡ d.path
  pub same_request : l.requested ≡ d.requested
  pub hashed : is_content_hash l.content_hash ≡ true
  pub barrier : validate_lock_hold d.hold l.hold ≡ ok tt
  pub fits : FitsKind l.kind (resolved_reference d) l

pub validate_against-IsLockOf :
    (scheme : Scheme) (d : Declaration) (l : LockedDependency)
    → validate_against scheme d l ≡ ok tt
    → IsLockOf d l
unfolding validate_against
validate_against-IsLockOf scheme d l h =
    let (a, h1) = >>-eq-ok (fail_if (not (equal l.path d.path)) _) _ h in
    let (b, h2) = >>-eq-ok (fail_if (not (equal l.requested d.requested)) _) _ h1 in
    let (c, h3) =
      >>-eq-ok
        (fail_if
          (not (is_ok (validate_requested_for_scheme scheme l.requested))
            || is_empty l.package_version
            || not (is_content_hash l.content_hash))
          _)
        _ h2 in
    let (e, h4) = >>-eq-ok (validate_lock_hold d.hold l.hold) _ h3 in
    let (_, h5) = >>-eq-ok (fail_if _ _) _ h4 in
    let (_, c1) = ||-eq-false _ _ (fail_if-eq-ok _ _ c) in
    record {
      same_path = equal-true _ _ (not-eq-false _ (fail_if-eq-ok _ _ a));
      same_request = equal-true _ _ (not-eq-false _ (fail_if-eq-ok _ _ b));
      hashed = not-eq-false _ c1;
      barrier = e;
      fits = validate_kind-FitsKind l.kind scheme (resolved_reference d) l h5;
    }

-- A declaration as validation accepts it, the ones before it aside.
pub record IsDeclaration (d : Declaration) : Type 0 where
  pub request_fits :
      (scheme : Scheme)
      → source_scheme d.source ≡ ok scheme
      → validate_requested_for_scheme scheme d.requested ≡ ok tt
  pub hold_fits : (h : Hold) → d.hold ≡ some h → IsHold h d.requested

validate_declaration-IsDeclaration :
    (seen : List Bytes) (d : Declaration)
    → validate_declaration seen d ≡ ok tt
    → IsDeclaration d × (any (equal d.source) seen ≡ false)
unfolding validate_declaration
validate_declaration-IsDeclaration seen d k =
    let (scheme, e, k1) = >>=-eq-ok (source_scheme d.source) _ k in
    let (a, k2) = >>-eq-ok (validate_requested_for_scheme scheme d.requested) _ k1 in
    let (_, k3) = >>-eq-ok (validate_local_path d.requested d.path) _ k2 in
    let (b, k4) = >>-eq-ok (validate_hold d.hold d.requested) _ k3 in
    (
      record {
        request_fits = λ s q.
            subst (λ s. validate_requested_for_scheme s d.requested ≡ ok tt)
              (ok-injective (sym e ∙ q)) a;
        hold_fits = λ h q. validate_hold-IsHold h d.requested (rw q at b);
      },
      fail_if-eq-ok _ _ k4,
    )

pub find_declaration-In :
    (ds : List Declaration) (source : Bytes) {d : Declaration}
    → find_declaration ds source ≡ some d
    → In d ds × (d.source ≡ source)
unfolding find_declaration
find_declaration-In [] source {d} e = cc
find_declaration-In (c ∷ ds) source {d} k =
    if_elim (λ r. r ≡ some d → In d (c ∷ ds) × (d.source ≡ source)) (equal c.source source)
      (λ e q.
        subst (λ d. In d (c ∷ ds) × (d.source ≡ source)) (some-injective q)
          (inl refl, equal-true c.source source e))
      (λ _ q. let (m, e) = find_declaration-In ds source q in (inr m, e)) k
  where
    some-injective : {a b : Declaration} → some a ≡ some b → a ≡ b
    some-injective h = cc

-- A source that was seen comes no second time.
any-seen : (seen : List Bytes) (s : Bytes) → any (equal s) seen ≡ false → In s seen → ⊥
any-seen [] s e m = absurd m
any-seen (x ∷ seen) s e (inl q) =
    let (f, _) = ||-eq-false (equal s x) _ e in true≢false (sym ((equal_iff s x).1 q) ∙ f)
any-seen (x ∷ seen) s e (inr m) = let (_, f) = ||-eq-false (equal s x) _ e in any-seen seen s f m

pub validate_declarations-valid :
    (seen : List Bytes) (ds : List Declaration)
    → validate_declarations seen ds ≡ ok tt
    → (d : Declaration) → In d ds
    → IsDeclaration d × (In d.source seen → ⊥) × (find_declaration ds d.source ≡ some d)
unfolding validate_declarations find_declaration
validate_declarations-valid seen (c ∷ ds) k d (inl q) =
    let (a, _) = >>-eq-ok (validate_declaration seen c) _ k in
    let (is_d, fresh) = validate_declaration-IsDeclaration seen c a in
    rw q (is_d, any-seen seen c.source fresh, rw (equal_refl c.source) refl)
validate_declarations-valid seen (c ∷ ds) k d (inr m) =
    let (_, b) = >>-eq-ok (validate_declaration seen c) _ k in
    let (is_d, fresh, found) = validate_declarations-valid (c.source ∷ seen) ds b d m in
    (
      is_d,
      λ i. fresh (inr i),
      elim (Bool-cases (equal c.source d.source)) [
        | inl e ↦ absurd (fresh (inl (sym (equal-true c.source d.source e))))
        | inr e ↦ rw e found
      ],
    )
validate_declarations-valid seen [] k d m = absurd m

pub validate_locks-IsLockOf :
    (ds : List Declaration) (seen : List Bytes) (ls : List LockedDependency)
    → validate_locks ds seen ls ≡ ok tt
    → (l : LockedDependency) → In l ls
    → (d : Declaration) × (find_declaration ds l.source ≡ some d) × IsLockOf d l
unfolding validate_locks validate_declared
validate_locks-IsLockOf ds seen (c ∷ ls) k l m =
    let (scheme, _, k1) = >>=-eq-ok (source_scheme c.source) _ k in
    let (_, k2) = >>-eq-ok (fail_if (any (equal c.source) seen) _) _ k1 in
    let (a, k3) = >>-eq-ok (validate_declared (find_declaration ds c.source) scheme c) _ k2 in
    elim m [
      | inr n ↦ validate_locks-IsLockOf ds (c.source ∷ seen) ls k3 l n
      | inl q ↦ elim (Option-cases (find_declaration ds c.source)) [
        | inl e ↦ absurd (cc (rw e at a))
        | inr (d, e) ↦ rw q (d, e, validate_against-IsLockOf scheme d c (rw e at a))
      ]
    ]
validate_locks-IsLockOf ds seen [] k l m = absurd m
