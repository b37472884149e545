-- ===== src/Realize/Journal/Run/Placed.antt =====
-- internal/realize/transaction.go: what one write of a transaction puts on the disk.
use agentic_context_registry.Base.{
  ℕ, Bool, ◌||◌, Option-cases, true, false, not, none, some, Bytes, if◌then◌else◌, length, ltb, ◌≡◌,
  ◌⊎◌, inl, inr, refl, sym, ap, ◌∙◌, Bool-cases, ok, >>=-eq-ok, >>-eq-ok, ok-injective, err≢ok,
  none≢some, fail_if, Result-cases, subst, true≢false,
}
use agentic_context_registry.Realize.Filesystem.{max_target_bytes}
use agentic_context_registry.Realize.Journal.Store.{
  Item, absent, unreadable, other, folder, link, file, Location, Store, lookup, put, occupied,
  check_write, replace_file, write_file_atomic,
}
use agentic_context_registry.Realize.Journal.Parents.{IsFolder, IsPlain, Above}
use agentic_context_registry.Realize.Journal.Manifest.{target_changed}
use agentic_context_registry.Realize.Journal.Machine.{Machine, remove_item}
use agentic_context_registry.Realize.Journal.Recovery.Step.{Writes, put-Writes}
use agentic_context_registry.Realize.Journal.Recovery.Checks.{Shows}
use agentic_context_registry.Realize.Journal.Apply.{
  PreparedOperation, snapshot_at, matches_before_state,
}
use agentic_context_registry.Realize.Journal.Run.{perform, remove_present, write_operation}

-- The item at a location is the after-state of an operation.
abbrev pub Written : (Bytes → Bytes) → PreparedOperation → Item → Type 0
Written content_hash p i =
    Shows content_hash i (not p.operation.deletes) p.operation.after_hash p.operation.mode_bits

-- What the checks before the journal find out of an operation, and its target's place.
pub record Checked (m : Machine) (start : Store) (p : PreparedOperation) : Type 0 where
  pub plain : IsPlain (lookup start p.location)
  pub above : Above IsFolder start p.location
  pub hash :
      (p.operation.deletes ≡ true) ⊎ (m.content_hash p.operation.content ≡ p.operation.after_hash)
  pub small : ltb max_target_bytes (length p.operation.content) ≡ false

remove_present-Writes :
    (fault : Bool) (s t : Store) (l : Location)
    → remove_present fault s l ≡ some t
    → Writes l absent s t
unfolding remove_present remove_item
remove_present-Writes fault s t l e = by_item (lookup s l) refl
  where
    taken : (b : Bool) → (if b then none else some (put l absent s)) ≡ some t → Writes l absent s t
    taken true e = absurd (none≢some e)
    taken false e =
        let same : put l absent s ≡ t = cc in
        subst (λ (u : Store). Writes l absent s u) same (put-Writes l absent s)

    by_item : (i : Item) → lookup s l ≡ i → Writes l absent s t
    by_item absent f = absurd (none≢some (rw (remove_present, f) at e))
    by_item (folder _ _) f =
        taken (fault || occupied s l) (rw (remove_present, f, remove_item, f) at e)
    by_item (file _ _) f = taken fault (rw (remove_present, f, remove_item, f) at e)
    by_item (link _ _) f = taken fault (rw (remove_present, f, remove_item, f) at e)
    by_item other f = taken fault (rw (remove_present, f, remove_item, f) at e)
    by_item unreadable f = taken fault (rw (remove_present, f, remove_item, f) at e)

-- An atomic write that succeeds puts the file there.
write_file_atomic-eq-ok :
    (fault : Bool) (s t : Store) (l : Location) (content : Bytes) (perm : ℕ)
    → write_file_atomic fault s l content perm ≡ ok t
    → put l (file content perm) s ≡ t
unfolding write_file_atomic replace_file
write_file_atomic-eq-ok fault s t l content perm e =
    let replaced = (>>-eq-ok (check_write s l) (replace_file fault s l content perm) e).1 in
    elim (Bool-cases fault) [
      | inl f ↦ absurd (err≢ok (rw (replace_file, f) at replaced))
      | inr f ↦ ok-injective (rw (replace_file, f) at replaced)
    ]

-- A write that succeeds leaves the after-state at its target and changes nothing else.
pub write_operation-Writes :
    (m : Machine) (start : Store) (p : PreparedOperation) (s t : Store)
    → Checked m start p
    → write_operation m s p ≡ ok t
    → (i : Item) × Writes p.location i s t × Written m.content_hash p i
unfolding write_operation
write_operation-Writes m start p s t this e =
    let (current, read, rest) = >>=-eq-ok (snapshot_at m s p.location) _ e in
    let fault = m.write_fails p.location in
    let o = p.operation in
    let ran : perform m s p ≡ ok t =
      (>>-eq-ok (fail_if (not (matches_before_state o current)) (target_changed o.path))
        (perform m s p) rest).1 in
    elim (Bool-cases o.deletes) [
      | inl d ↦ elim (Option-cases (remove_present fault s p.location)) [
        | inl none_left ↦ absurd (err≢ok (rw (perform, d, none_left) at ran))
        | inr (u, removed) ↦
            let same : u ≡ t = ok-injective (rw (perform, d, removed) at ran) in
            (absent, remove_present-Writes fault s t p.location (removed ∙ ap some same), rw d tt)
      ]
      | inr d ↦ elim (Result-cases (write_file_atomic fault s p.location o.content o.mode_bits)) [
        | inr (_, failure) ↦ absurd (err≢ok (rw (perform, d, failure) at ran))
        | inl (u, placed) ↦
            let same : u ≡ t = ok-injective (rw (perform, d, placed) at ran) in
            let put_there =
              write_file_atomic-eq-ok fault s u p.location o.content o.mode_bits placed in
            let i = file o.content o.mode_bits in
            let hash : m.content_hash o.content ≡ o.after_hash = elim this.hash [
              | inl d' ↦ absurd (true≢false (sym d' ∙ d))
              | inr h ↦ h
            ] in
            (
              i,
              subst (λ (v : Store). Writes p.location i s v) (put_there ∙ same)
                  (put-Writes p.location i s),
              rw d (hash, refl, this.small),
            )
      ]
    ]
