-- ===== src/Realize/Engine/Claim/Frame.antt =====
-- internal/realize/journal.go: the places that taking and closing the claim may change.
use agentic_context_registry.Base.{
  ℕ, Bool, true, not, ◌&&◌, [], if◌then◌else◌, if_elim, ◌≡◌, ◌⊎◌, inl, inr, refl, ◌∙◌, subst,
  is_empty, ok, Result-cases, err≢ok, ok-injective,
}
use agentic_context_registry.Realize.Journal.Store.{
  Item, absent, unreadable, other, folder, link, file, Location, Store, lookup, put, occupied,
}
use agentic_context_registry.Realize.Journal.Parents.{lookup-put_cases}
use agentic_context_registry.Realize.Journal.Manifest.{World}
use agentic_context_registry.Realize.Engine.Claim.{
  Lock, agents_location, transactions_location, lock_location, ensure_directory, open_lock,
  take_lock, claim_failed, claim_transactions, remove_empty, close_claim,
}

-- One of the three places that belong to the claim.
abbrev pub InClaim : Location → Type 0
InClaim l = (l ≡ agents_location) ⊎ ((l ≡ transactions_location) ⊎ (l ≡ lock_location))

-- The two stores agree outside of the claim.
abbrev pub Keeps : Store → Store → Type 0
Keeps s t = (l : Location) → InClaim l ⊎ (lookup t l ≡ lookup s l)

Keeps-refl : (s : Store) → Keeps s s
Keeps-refl s l = inr refl

Keeps-trans : (s t u : Store) → Keeps s t → Keeps t u → Keeps s u
Keeps-trans s t u a b l = elim (a l) [
  | inl i ↦ inl i
  | inr e ↦ elim (b l) [ inl i ↦ inl i | inr f ↦ inr (f ∙ e) ]
]

put-Keeps : (k : Location) (i : Item) (s : Store) → InClaim k → Keeps s (put k i s)
put-Keeps k i s claim l = elim (lookup-put_cases k l i s) [
  | inl (same, _) ↦ inl (subst InClaim same claim)
  | inr e ↦ inr e
]

ensure_directory-Keeps :
    (identity : Location → ℕ × ℕ) (k : Location) (s t : Store) (made : Bool)
    → InClaim k
    → ensure_directory identity k s ≡ ok (t, made)
    → Keeps s t
unfolding ensure_directory
ensure_directory-Keeps identity k s t made claim e = by_item (lookup s k) refl
  where
    agree : {r : Store × Bool} → Keeps s r.0 → r ≡ (t, made) → Keeps s t
    agree kept h = subst (λ (q : Store × Bool). Keeps s q.0) h kept

    by_item : (i : Item) → lookup s k ≡ i → Keeps s t
    by_item (folder device inode) h =
        agree (Keeps-refl s) (ok-injective (rw (ensure_directory, h) at e))
    by_item absent h =
        agree (put-Keeps k (folder (identity k).0 (identity k).1) s claim)
          (ok-injective (rw (ensure_directory, h) at e))
    by_item unreadable h = absurd (err≢ok (rw (ensure_directory, h) at e))
    by_item other h = absurd (err≢ok (rw (ensure_directory, h) at e))
    by_item (link target mode) h = absurd (err≢ok (rw (ensure_directory, h) at e))
    by_item (file content mode) h = absurd (err≢ok (rw (ensure_directory, h) at e))

open_lock-Keeps : (s t : Store) → open_lock s ≡ ok t → Keeps s t
unfolding open_lock
open_lock-Keeps s t e = by_item (lookup s lock_location) refl
  where
    agree : {r : Store} → Keeps s r → r ≡ t → Keeps s t
    agree kept h = subst (λ (q : Store). Keeps s q) h kept

    by_item : (i : Item) → lookup s lock_location ≡ i → Keeps s t
    by_item absent h =
        agree (put-Keeps lock_location (file [] 0o600) s (inr (inr refl)))
          (ok-injective (rw (open_lock, h) at e))
    by_item (file content mode) h = agree (Keeps-refl s) (ok-injective (rw (open_lock, h) at e))
    by_item unreadable h = absurd (err≢ok (rw (open_lock, h) at e))
    by_item other h = absurd (err≢ok (rw (open_lock, h) at e))
    by_item (link target mode) h = absurd (err≢ok (rw (open_lock, h) at e))
    by_item (folder device inode) h = absurd (err≢ok (rw (open_lock, h) at e))

pub claim_transactions-Keeps :
    (identity : Location → ℕ × ℕ) (lock : Lock) (s : Store)
    → Keeps s (claim_transactions identity lock s).store
unfolding claim_transactions claim_failed
claim_transactions-Keeps identity lock s =
    elim (Result-cases (ensure_directory identity agents_location s)) [
      | inr (_, a) ↦ rw (claim_transactions, a, claim_failed) (Keeps-refl s)
      | inl ((agents, made), a) ↦
          let to_agents =
            ensure_directory-Keeps identity agents_location s agents made (inl refl) a in
          elim (Result-cases (ensure_directory identity transactions_location agents)) [
            | inr (_, b) ↦ rw (claim_transactions, a, b, claim_failed) to_agents
            | inl ((root, below), b) ↦
                let to_root = Keeps-trans s agents root to_agents (
                  ensure_directory-Keeps identity transactions_location agents root below
                    (inr (inl refl)) b) in
                elim (Result-cases (open_lock root)) [
                  | inr (_, c) ↦ rw (claim_transactions, a, b, c, claim_failed) to_root
                  | inl (locked, c) ↦
                      let to_locked =
                        Keeps-trans s root locked to_root (open_lock-Keeps root locked c) in
                      elim (Result-cases (take_lock lock)) [
                        | inr (_, d) ↦ rw (claim_transactions, a, b, c, d, claim_failed) to_locked
                        | inl (_, d) ↦ rw (claim_transactions, a, b, c, d) to_locked
                      ]
                ]
          ]
    ]

remove_empty-Keeps :
    (empty : Bool) (k : Location) (s : Store) → InClaim k → Keeps s (remove_empty empty k s)
unfolding remove_empty
remove_empty-Keeps empty k s claim =
    elim (lookup s k)
      as (λ i. Keeps s (elim i [
        | folder _ _ ↦ if empty && not (occupied s k) then put k absent s else s
        | _ ↦ s
      ])) [
        | folder _ _ ↦
            if_elim (Keeps s) (empty && not (occupied s k)) (λ _. put-Keeps k absent s claim)
              (λ _. Keeps-refl s)
        | _ ↦ Keeps-refl s
      ]

pub close_claim-Keeps : (created : Bool) (w : World) → Keeps w.store (close_claim created w).store
unfolding close_claim
close_claim-Keeps created w =
    let unlocked = put lock_location absent w.store in
    let cleared = remove_empty (is_empty w.transactions) transactions_location unlocked in
    let to_cleared =
      Keeps-trans w.store unlocked cleared (put-Keeps lock_location absent w.store (inr (inr refl)))
        (remove_empty-Keeps (is_empty w.transactions) transactions_location unlocked
          (inr (inl refl))) in
    if_elim (Keeps w.store) created
      (λ _.
        Keeps-trans w.store cleared (remove_empty true agents_location cleared) to_cleared
          (remove_empty-Keeps true agents_location cleared (inl refl)))
      (λ _. to_cleared)
