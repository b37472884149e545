-- ===== src/Base/Sorting.antt =====
-- What the insertion sort gives: the same elements, in order, and an ordered list as it is.
use agentic_context_registry.Base.Tests.{Bool-cases}
use agentic_context_registry.Base.Lists.{In}
use agentic_context_registry.Base.Order.{insert_sorted, insert_all, sort}
use mathlib.Core.Path.{◌≡◌, refl, ap, ◌∙◌}
use mathlib.Core.Logic.{◌⊎◌, inl, inr}
use mathlib.Core.Bool.{Bool, true, false}
use mathlib.Core.List.{List, [], ◌∷◌, ◌++◌, append_assoc, append-nil}

module _ {A : Type 0} (lt : A → A → Bool) where
  insert_sorted-In : (a x : A) (ys : List A) → In a (insert_sorted lt x ys) → In a (x ∷ ys)
  unfolding insert_sorted
  insert_sorted-In a x [] m = m
  insert_sorted-In a x (y ∷ ys) m = elim (Bool-cases (lt x y)) [
    | inl e ↦ rw e at m
    | inr e ↦ elim (rw e at m) [
      | inl k ↦ inr (inl k)
      | inr k ↦ elim (insert_sorted-In a x ys k) [ inl j ↦ inl j | inr j ↦ inr (inr j) ]
    ]
  ]

  In-insert_sorted : (a x : A) (ys : List A) → In a (x ∷ ys) → In a (insert_sorted lt x ys)
  unfolding insert_sorted
  In-insert_sorted a x [] m = m
  In-insert_sorted a x (y ∷ ys) m = elim (Bool-cases (lt x y)) [
    | inl e ↦ rw e m
    | inr e ↦ rw e (elim m [
      | inl j ↦ inr (In-insert_sorted a x ys (inl j))
      | inr k ↦ elim k [ inl j ↦ inl j | inr j ↦ inr (In-insert_sorted a x ys (inr j)) ]
    ])
  ]

  insert_all-In : (a : A) (acc xs : List A) → In a (insert_all lt acc xs) → In a acc ⊎ In a xs
  unfolding insert_all
  insert_all-In a acc [] m = inl m
  insert_all-In a acc (x ∷ xs) m = elim (insert_all-In a (insert_sorted lt x acc) xs m) [
    | inl k ↦ elim (insert_sorted-In a x acc k) [ inl j ↦ inr (inl j) | inr j ↦ inl j ]
    | inr k ↦ inr (inr k)
  ]

  In-insert_all : (a : A) (acc xs : List A) → In a acc ⊎ In a xs → In a (insert_all lt acc xs)
  unfolding insert_all
  In-insert_all a acc [] (inl m) = m
  In-insert_all a acc [] (inr m) = absurd m
  In-insert_all a acc (x ∷ xs) (inl m) =
      In-insert_all a (insert_sorted lt x acc) xs (inl (In-insert_sorted a x acc (inr m)))
  In-insert_all a acc (x ∷ xs) (inr (inl e)) =
      In-insert_all a (insert_sorted lt x acc) xs (inl (In-insert_sorted a x acc (inl e)))
  In-insert_all a acc (x ∷ xs) (inr (inr m)) = In-insert_all a (insert_sorted lt x acc) xs (inr m)

  pub sort-In : (a : A) (xs : List A) → In a (sort lt xs) → In a xs
  unfolding sort
  sort-In a xs m = elim (insert_all-In a [] xs m) [ inl k ↦ absurd k | inr k ↦ k ]

  pub In-sort : (a : A) (xs : List A) → In a xs → In a (sort lt xs)
  unfolding sort
  In-sort a xs m = In-insert_all a [] xs (inr m)

  -- No element is below the one before it.
  abbrev pub IsSorted : List A → Type 0
  IsSorted [] = Unit
  IsSorted (x ∷ []) = Unit
  IsSorted (x ∷ y ∷ ys) = (lt y x ≡ false) × IsSorted (y ∷ ys)

  module _ (asymm : (a b : A) → lt a b ≡ true → lt b a ≡ false) where
    insert_sorted-IsSorted : (x : A) (ys : List A) → IsSorted ys → IsSorted (insert_sorted lt x ys)
    unfolding insert_sorted
    insert_sorted-IsSorted x [] s = tt
    insert_sorted-IsSorted x (y ∷ []) s = elim (Bool-cases (lt x y)) [
      | inl e ↦ rw e (asymm x y e, tt)
      | inr e ↦ rw e (e, tt)
    ]
    insert_sorted-IsSorted x (y ∷ z ∷ zs) (h, s) = elim (Bool-cases (lt x y)) [
      | inl e ↦ rw e (asymm x y e, (h, s))
      | inr e ↦ rw e (behind (Bool-cases (lt x z)) e (insert_sorted-IsSorted x (z ∷ zs) s))
    ]
      where
        behind :
            (lt x z ≡ true) ⊎ (lt x z ≡ false)
            → lt x y ≡ false
            → IsSorted (insert_sorted lt x (z ∷ zs))
            → IsSorted (y ∷ insert_sorted lt x (z ∷ zs))
        behind (inl k) e r = rw k (e, rw k at r)
        behind (inr k) e r = rw k (h, rw k at r)

    insert_all-IsSorted : (acc xs : List A) → IsSorted acc → IsSorted (insert_all lt acc xs)
    unfolding insert_all
    insert_all-IsSorted acc [] s = s
    insert_all-IsSorted acc (x ∷ xs) s =
        insert_all-IsSorted (insert_sorted lt x acc) xs (insert_sorted-IsSorted x acc s)

    pub sort-IsSorted : (xs : List A) → IsSorted (sort lt xs)
    unfolding sort
    sort-IsSorted xs = insert_all-IsSorted [] xs tt

  module _ (trans : (a b c : A) → lt b a ≡ false → lt c b ≡ false → lt c a ≡ false) where
    -- An element that is not below the last one goes behind it.
    insert_sorted_last :
        (x : A) (ys zs : List A)
        → IsSorted (ys ++ (x ∷ zs))
        → insert_sorted lt x ys ≡ ys ++ (x ∷ [])
    unfolding insert_sorted
    insert_sorted_last x [] zs s = refl
    insert_sorted_last x (y ∷ ys) zs s =
        rw (below y ys s) (ap (◌∷◌ y) (insert_sorted_last x ys zs (rest y ys s)))
      where
        rest : (y : A) (ys : List A) → IsSorted ((y ∷ ys) ++ (x ∷ zs)) → IsSorted (ys ++ (x ∷ zs))
        rest y [] s = s.1
        rest y (z ∷ ys) s = s.1

        below : (y : A) (ys : List A) → IsSorted ((y ∷ ys) ++ (x ∷ zs)) → lt x y ≡ false
        below y [] s = s.0
        below y (z ∷ ys) s = trans y z x s.0 (below z ys s.1)

    insert_all_sorted : (acc xs : List A) → IsSorted (acc ++ xs) → insert_all lt acc xs ≡ acc ++ xs
    unfolding insert_all
    insert_all_sorted acc [] s = rw append-nil
    insert_all_sorted acc (x ∷ xs) s =
        rw (insert_sorted_last x acc xs s) (
          insert_all_sorted (acc ++ (x ∷ [])) xs (rw append_assoc s) ∙ append_assoc acc (x ∷ []) xs)

    -- An ordered list stays as it is.
    pub sort_sorted : (xs : List A) → IsSorted xs → sort lt xs ≡ xs
    unfolding sort
    sort_sorted xs s = insert_all_sorted [] xs s
