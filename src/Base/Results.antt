-- ===== src/Base/Results.antt =====
-- Fallible code: a Go function that returns an error, panics or exits gives a value of `Result`.
use mathlib.Core.Path.{◌≡◌, refl}
use mathlib.Core.Logic.{◌⊎◌, inl, inr}

pub data Result {ℓ} (E : Type 0) (A : Type ℓ) : Type ℓ where
  ok : A → Result E A
  err : E → Result E A

module _ {ℓ κ} {E : Type 0} {A : Type ℓ} {B : Type κ} where
  infixl 5 ◌>>=◌
  abbrev pub ◌>>=◌ : Result E A → (A → Result E B) → Result E B
  err e >>= then_do = err e
  ok a >>= then_do = then_do a

  -- A chain succeeds only if both of its parts do.
  pub >>=-eq-ok :
      (first : Result E A) (then_do : A → Result E B) {b : B}
      → (first >>= then_do) ≡ ok b
      → (a : A) × (first ≡ ok a) × (then_do a ≡ ok b)
  >>=-eq-ok (err e) then_do eq = cc
  >>=-eq-ok (ok a) then_do eq = (a, refl, eq)

  -- The same where nothing after the first part fails.
  pub map-eq-ok :
      (first : Result E A) (g : A → B) {b : B}
      → (first >>= λ a. ok (g a)) ≡ ok b
      → (a : A) × (first ≡ ok a) × (g a ≡ b)
  map-eq-ok (err e) g eq = cc
  map-eq-ok (ok a) g eq = (a, refl, cc)

pub ok-injective {ℓ} :
    {E : Type 0} {A : Type ℓ} {a b : A} → ◌≡◌ {A = Result E A} (ok a) (ok b) → a ≡ b
ok-injective h = cc

-- A chain fails in its first part or in its second.
pub >>=-eq-err {ℓ κ} :
    {E : Type 0} {A : Type ℓ} {B : Type κ} (first : Result E A) (then_do : A → Result E B) {e : E}
    → (first >>= then_do) ≡ err e
    → (first ≡ err e) ⊎ ((a : A) × (first ≡ ok a) × (then_do a ≡ err e))
>>=-eq-err (err e) then_do eq = inl cc
>>=-eq-err (ok a) then_do eq = inr (a, refl, eq)

pub Result-cases {ℓ} :
    {E : Type 0} {A : Type ℓ} (r : Result E A) → ((e : E) × (r ≡ err e)) ⊎ ((a : A) × (r ≡ ok a))
Result-cases (err e) = inl (e, refl)
Result-cases (ok a) = inr (a, refl)
