-- ===== src/Dependency/Resolver/Named.antt =====
-- A resolved lock is the declaration's.
use agentic_context_registry.Base.{
  Bytes, true, false, equal, sym, ◌∙◌, ok-injective, not, ◌&&◌, ◌||◌, is_empty, if_elim, Result, ok,
  fail_if, >>=-eq-ok, >>-eq-ok, ok-subst, ◌≡◌, refl,
}
use agentic_context_registry.Dependency.Model.{
  latest, Declaration, LockedDependency, Repository, Release, DependencyError, is_positive,
  release_unstable, version_mismatch, resolution_commit, resolution_release,
}
use agentic_context_registry.Dependency.Source.{parse_source, validate_requested, is_commit_request}
use agentic_context_registry.Dependency.Hold.{is_release}
use agentic_context_registry.Dependency.Resolver.{
  Remote, finish_resolution, verify_release_metadata, finish_release_resolution, resolve_at,
  candidate, resolve_declaration, unlocked,
}

module _ (remote : Remote) where
  -- The lock is of what the remote has under a reference: a commit, or the release of that tag.
  pub data Names (repository : Repository) (reference : Bytes) (l : LockedDependency) : Type 0 where
    by_commit :
        is_commit_request reference ≡ true
        → l.kind ≡ resolution_commit
        → remote.resolve_commit repository reference ≡ ok l.commit
        → Names repository reference l
    by_release :
        (release : Release)
        → is_commit_request reference ≡ false
        → remote.release_by_tag repository reference ≡ ok release
        → l.kind ≡ resolution_release
        → (l.tag ≡ release.tag) × (l.release_id ≡ release.id)
        → remote.resolve_commit repository release.tag ≡ ok l.commit
        → Names repository reference l

  -- The locks agree on what they name.
  abbrev SameName : LockedDependency → LockedDependency → Type 0
  SameName a b =
      (a.kind ≡ b.kind) × (a.tag ≡ b.tag) × (a.release_id ≡ b.release_id) × (a.commit ≡ b.commit)

  finish_resolution-SameName :
      (repository : Repository) (locked : LockedDependency) {l : LockedDependency}
      → finish_resolution remote repository locked ≡ ok l
      → SameName l locked
  unfolding finish_resolution
  finish_resolution-SameName repository locked k =
      let (verified, _, k1) = >>=-eq-ok (remote.verified_archive repository locked.commit) _ k in
      let (_, k2) =
        >>-eq-ok
          (fail_if
            (is_release locked.kind && not (remote.tag_matches_version locked.tag verified.version))
            version_mismatch)
          _ k1 in
      ok-subst (λ l. SameName l locked) k2 (refl, refl, refl, refl)

  finish_release_resolution-SameName :
      (repository : Repository) (release : Release) (locked : LockedDependency)
      {l : LockedDependency}
      → finish_release_resolution remote repository release locked ≡ ok l
      → SameName l locked
  unfolding finish_release_resolution
  finish_release_resolution-SameName repository release locked k =
      let (done, a, k1) = >>=-eq-ok (finish_resolution remote repository locked) _ k in
      let (_, k2) =
        >>-eq-ok (verify_release_metadata remote repository release done.commit done.content_hash) _
          k1 in
      ok-subst (λ l. SameName l locked) k2 (finish_resolution-SameName repository locked a)

  candidate-release :
      (d : Declaration) (repository : Repository) {release : Release}
      → equal d.requested latest ≡ false
      → is_commit_request d.requested ≡ false
      → parse_source d.source ≡ ok repository
      → candidate remote d ≡ ok release
      → remote.release_by_tag repository d.requested ≡ ok release
  unfolding candidate
  candidate-release d repository fixed tagged source k =
      let (own, from, k1) = >>=-eq-ok (parse_source d.source) _ k in
      let (_, k2) = >>-eq-ok (validate_requested d.requested) _ k1 in
      let same : own ≡ repository = ok-injective (sym from ∙ source) in
      rw same at (rw (fixed, tagged) at k2)

  -- A declaration that does not request latest resolves to what its request names.
  pub resolve_declaration-Names :
      (d : Declaration) {l : LockedDependency}
      → equal d.requested latest ≡ false
      → resolve_declaration remote d ≡ ok l
      → (repository : Repository) × (parse_source d.source ≡ ok repository)
        × Names repository d.requested l
  unfolding resolve_declaration resolve_at unlocked
  resolve_declaration-Names d {l} fixed k =
      let (release, chosen, k1) = >>=-eq-ok (candidate remote d) _ k in
      let (repository, source, k2) = >>=-eq-ok (parse_source d.source) _ k1 in
      let (_, k3) = >>-eq-ok (validate_requested d.requested) _ k2 in
      (
        repository,
        source,
        if_elim
            (λ (r : Result DependencyError LockedDependency).
              r ≡ ok l → Names repository d.requested l)
            (is_commit_request d.requested)
            (λ c q.
              let (commit, found, q1) =
                >>=-eq-ok (remote.resolve_commit repository d.requested) _ q in
              let (kind, _, _, at) =
                finish_resolution-SameName repository
                  (record (unlocked d) { kind = resolution_commit; commit = commit }) q1 in
              by_commit c kind (rw at found))
            (λ c q.
              let (_, q1) =
                >>-eq-ok
                  (fail_if
                    (not (is_positive release.id)
                      || is_empty release.tag
                      || release.draft
                      || release.prerelease)
                    release_unstable)
                  _ q in
              let (commit, found, q2) =
                >>=-eq-ok (remote.resolve_commit repository release.tag) _ q1 in
              let (kind, tag, id, at) =
                finish_release_resolution-SameName repository release
                  (record (unlocked d) {
                    kind = resolution_release;
                    release_id = release.id;
                    tag = release.tag;
                    commit = commit;
                  })
                  q2 in
              by_release release c (candidate-release d repository fixed c source chosen) kind
                (tag, id) (rw at found))
            k3,
      )

  finish_resolution-source :
      (repository : Repository) (locked : LockedDependency) {l : LockedDependency}
      → finish_resolution remote repository locked ≡ ok l
      → l.source ≡ locked.source
  unfolding finish_resolution
  finish_resolution-source repository locked k =
      let (verified, _, k1) = >>=-eq-ok (remote.verified_archive repository locked.commit) _ k in
      let (_, k2) =
        >>-eq-ok
          (fail_if
            (is_release locked.kind && not (remote.tag_matches_version locked.tag verified.version))
            version_mismatch)
          _ k1 in
      ok-subst (λ l. l.source ≡ locked.source) k2 refl

  finish_release_resolution-source :
      (repository : Repository) (release : Release) (locked : LockedDependency)
      {l : LockedDependency}
      → finish_release_resolution remote repository release locked ≡ ok l
      → l.source ≡ locked.source
  unfolding finish_release_resolution
  finish_release_resolution-source repository release locked k =
      let (done, a, k1) = >>=-eq-ok (finish_resolution remote repository locked) _ k in
      let (_, k2) =
        >>-eq-ok (verify_release_metadata remote repository release done.commit done.content_hash) _
          k1 in
      ok-subst (λ l. l.source ≡ locked.source) k2 (finish_resolution-source repository locked a)

  -- A lock that a declaration resolves to is of the declaration's source.
  pub resolve_at-source :
      (d : Declaration) (release : Release) {l : LockedDependency}
      → resolve_at remote d release ≡ ok l
      → l.source ≡ d.source
  unfolding resolve_at unlocked
  resolve_at-source d release {l} k =
      let (repository, _, k1) = >>=-eq-ok (parse_source d.source) _ k in
      let (_, k2) = >>-eq-ok (validate_requested d.requested) _ k1 in
      if_elim (λ (r : Result DependencyError LockedDependency). r ≡ ok l → l.source ≡ d.source)
        (is_commit_request d.requested)
        (λ _ q.
          let (commit, _, q1) = >>=-eq-ok (remote.resolve_commit repository d.requested) _ q in
          finish_resolution-source repository
            (record (unlocked d) { kind = resolution_commit; commit = commit }) q1)
        (λ _ q.
          let (_, q1) =
            >>-eq-ok
              (fail_if
                (not (is_positive release.id)
                  || is_empty release.tag
                  || release.draft
                  || release.prerelease)
                release_unstable)
              _ q in
          let (commit, _, q2) = >>=-eq-ok (remote.resolve_commit repository release.tag) _ q1 in
          finish_release_resolution-source repository release
            (record (unlocked d) {
              kind = resolution_release;
              release_id = release.id;
              tag = release.tag;
              commit = commit;
            })
            q2)
        k2

  pub resolve_declaration-source :
      (d : Declaration) {l : LockedDependency}
      → resolve_declaration remote d ≡ ok l
      → l.source ≡ d.source
  unfolding resolve_declaration
  resolve_declaration-source d k =
      let (release, _, q) = >>=-eq-ok (candidate remote d) _ k in resolve_at-source d release q
