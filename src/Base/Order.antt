-- ===== src/Base/Order.antt =====
-- Go's order on strings, byte by byte, and a stable insertion sort by a key of bytes.
use mathlib.Core.Path.{◌≡◌, refl}
use mathlib.Core.Bool.{Bool, true, false}
use mathlib.Core.List.{List, [], ◌∷◌}
use native.Mathlib.Omega.{arith}
use agentic_context_registry.Base.Tests.{◌==◌, ltb, if◌then◌else◌}
use agentic_context_registry.Base.ByteText.{Bytes}

-- `a < b` on strings.
unfoldable pub less : Bytes → Bytes → Bool
less [] [] = false
less [] (b ∷ t) = true
less (a ∷ s) [] = false
less (a ∷ s) (b ∷ t) = if a == b then less s t else ltb a b

pub less_irrefl : (s : Bytes) → less s s ≡ false
unfolding less
less_irrefl [] = refl
less_irrefl (a ∷ s) = ground (arith, less_irrefl s)

pub less_asymm : (s t : Bytes) → less s t ≡ true → less t s ≡ false
unfolding less
less_asymm [] [] h = refl
less_asymm [] (b ∷ t) h = refl
less_asymm (a ∷ s) [] h = cc
less_asymm (a ∷ s) (b ∷ t) h = ground (arith, less_asymm s t)

-- Not above is transitive.
pub less_trans_le : (s t u : Bytes) → less t s ≡ false → less u t ≡ false → less u s ≡ false
unfolding less
less_trans_le s t [] h k =
    elim s as (λ s. less t s ≡ false → less [] s ≡ false) [
      | [] ↦ λ _. refl
      | a ∷ s ↦ λ e.
          elim t as (λ t. less t (a ∷ s) ≡ false → less [] t ≡ false → less [] (a ∷ s) ≡ false) [
            | [] ↦ λ e _. e
            | b ∷ t ↦ λ _ e. cc
          ]
            e k
    ]
      h
less_trans_le [] t (c ∷ u) h k = refl
less_trans_le (a ∷ s) [] (c ∷ u) h k = cc
less_trans_le (a ∷ s) (b ∷ t) (c ∷ u) h k = ground (arith, less_trans_le s t u)

module _ {ℓ} {A : Type ℓ} (lt : A → A → Bool) where
  -- The place of `x` is before the first element that it is below.
  unfoldable pub insert_sorted : A → List A → List A
  insert_sorted x [] = x ∷ []
  insert_sorted x (y ∷ ys) = if lt x y then x ∷ y ∷ ys else y ∷ insert_sorted x ys

  unfoldable pub insert_all : List A → List A → List A
  insert_all acc [] = acc
  insert_all acc (x ∷ xs) = insert_all (insert_sorted x acc) xs

  unfoldable pub sort : List A → List A
  unfolding insert_all insert_sorted
  sort xs = insert_all [] xs
