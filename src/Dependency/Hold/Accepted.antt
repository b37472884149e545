-- ===== src/Dependency/Hold/Accepted.antt =====
-- What a declared hold that passes validation looks like.
use agentic_context_registry.Base.{
  false, not, some, Bytes, equal, equal_iff, if_elim, Result, ok, fail_if, fail_if-eq-ok, >>-eq-ok,
  not-eq-false, ◌≡◌, ◌≢◌, sym, ◌∙◌, true≢false,
}
use agentic_context_registry.Dependency.Model.{
  Hold, latest, DependencyError, hold_without_latest, hold_rejects_commit, hold_pins_rejected,
}
use agentic_context_registry.Dependency.Source.{is_commit_request}
use agentic_context_registry.Dependency.Hold.{validate_held_reference, validate_hold}

pub record IsHold (h : Hold) (requested : Bytes) : Type 0 where
  pub on_latest : requested ≡ latest
  pub pin_fixed : h.pin ≢ latest
  pub rejected_fixed : h.rejected ≢ latest
  pub rejects_tag : is_commit_request h.rejected ≡ false
  pub pins_another : h.pin ≢ h.rejected

not-equal : (s t : Bytes) → equal s t ≡ false → s ≢ t
not-equal s t h e = true≢false (sym ((equal_iff s t).1 e) ∙ h)

held_reference-fixed : (value : Bytes) → validate_held_reference value ≡ ok tt → value ≢ latest
unfolding validate_held_reference
held_reference-fixed value =
    if_elim (λ (r : Result DependencyError (Unit {0})). r ≡ ok tt → value ≢ latest)
      (equal value latest) (λ _ k. cc) (λ e _. not-equal value latest e)

-- A declared hold that passes validation stands on a latest declaration; its pin and its rejected
-- reference are neither latest nor one another, and what it rejects is no commit.
pub validate_hold-IsHold :
    (h : Hold) (requested : Bytes) → validate_hold (some h) requested ≡ ok tt → IsHold h requested
unfolding validate_hold
validate_hold-IsHold h requested k =
    let (a, k1) = >>-eq-ok (fail_if (not (equal requested latest)) hold_without_latest) _ k in
    let (b, k2) = >>-eq-ok (validate_held_reference h.pin) _ k1 in
    let (c, k3) = >>-eq-ok (validate_held_reference h.rejected) _ k2 in
    let (d, k4) = >>-eq-ok (fail_if (is_commit_request h.rejected) hold_rejects_commit) _ k3 in
    let (e, _) = >>-eq-ok (fail_if (equal h.pin h.rejected) hold_pins_rejected) _ k4 in
    record {
      on_latest = (equal_iff requested latest).0 (not-eq-false _ (fail_if-eq-ok _ _ a));
      pin_fixed = held_reference-fixed h.pin b;
      rejected_fixed = held_reference-fixed h.rejected c;
      rejects_tag = fail_if-eq-ok _ _ d;
      pins_another = not-equal h.pin h.rejected (fail_if-eq-ok _ _ e);
    }
