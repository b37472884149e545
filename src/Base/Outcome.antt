-- ===== src/Base/Outcome.antt =====
-- Go's pair of a value and an error: exactly one of the two is meant.
use mathlib.Core.Path.{◌≡◌, refl, subst}
use mathlib.Core.Bool.{Bool, true, false}
use mathlib.Core.Logic.{◌⊎◌, inl, inr}

pub data Result {ℓ κ} (E : Type ℓ) (A : Type κ) : Type (ℓ ⊔ κ) where
  ok : A → Result E A
  err : E → Result E A

-- What `if err != nil { return err }` does between two calls.
infixl 5 ◌>>=◌ ◌>>◌
abbrev pub ◌>>=◌ {ℓ κ μ} :
    {E : Type ℓ} {V : Type κ} {W : Type μ} → Result E V → (V → Result E W) → Result E W
err failure >>= next = err failure
ok value >>= next = next value

abbrev pub ◌>>◌ {ℓ μ} : {E : Type ℓ} {W : Type μ} → Result E (Unit {0}) → Result E W → Result E W
first >> second = first >>= λ _. second

-- `if test { return err }`.
abbrev pub fail_if {ℓ} : {E : Type ℓ} → Bool → E → Result E (Unit {0})
fail_if true e = err e
fail_if false e = ok tt

abbrev pub is_ok {ℓ κ} : {E : Type ℓ} {A : Type κ} → Result E A → Bool
is_ok (ok _) = true
is_ok (err _) = false

pub >>=-eq-ok {ℓ κ μ} :
    {E : Type ℓ} {V : Type κ} {W : Type μ} (r : Result E V) (next : V → Result E W) {w : W}
    → (r >>= next) ≡ ok w
    → (v : V) × (r ≡ ok v) × (next v ≡ ok w)
>>=-eq-ok (err failure) next e = cc
>>=-eq-ok (ok value) next e = (value, refl, e)

pub >>-eq-ok {ℓ μ} :
    {E : Type ℓ} {B : Type μ} (m : Result E (Unit {0})) (k : Result E B) {b : B}
    → (m >> k) ≡ ok b
    → (m ≡ ok tt) × (k ≡ ok b)
>>-eq-ok (ok tt) k h = (refl, h)
>>-eq-ok (err e) k h = (cc, cc)

pub fail_if-eq-ok {ℓ} : {E : Type ℓ} (b : Bool) (e : E) → fail_if b e ≡ ok tt → b ≡ false
fail_if-eq-ok true e h = cc
fail_if-eq-ok false e h = refl

pub ok-injective {ℓ κ} :
    {E : Type ℓ} {A : Type κ} {a b : A} → ◌≡◌ {A = Result E A} (ok a) (ok b) → a ≡ b
ok-injective h = cc

-- What holds of the value that a function returns holds of the value that is named.
pub ok-subst {ℓ κ μ} :
    {E : Type ℓ} {A : Type κ} (P : A → Type μ) {a b : A}
    → ◌≡◌ {A = Result E A} (ok a) (ok b)
    → P a
    → P b
ok-subst P h p = subst P (ok-injective h) p

pub Result-cases {ℓ κ} :
    {E : Type ℓ} {A : Type κ} (m : Result E A) → ((a : A) × (m ≡ ok a)) ⊎ ((e : E) × (m ≡ err e))
Result-cases (ok a) = inl (a, refl)
Result-cases (err e) = inr (e, refl)

pub err≢ok {ℓ κ} :
    {E : Type ℓ} {A : Type κ} {e : E} {a : A} → ◌≡◌ {A = Result E A} (err e) (ok a) → ⊥
err≢ok h = cc
