-- ===== src/Base/Fallible.antt =====
-- Go's `(T, error)` results: a value, or the error that was returned in its place.
use mathlib.Core.Path.{◌≡◌, refl}
use mathlib.Core.Bool.{Bool, true, false}
use mathlib.Core.Logic.{◌⊎◌, inl, inr}

pub data Result {ℓ κ} (E : Type ℓ) (A : Type κ) : Type (ℓ ⊔ κ) where
  ok : A → Result E A
  err : E → Result E A

infixl 5 ◌>>◌
module _ {ℓ κ μ} {E : Type ℓ} {A : Type κ} {B : Type μ} where
  infixl 5 ◌>>=◌
  -- Go's `v, err := first(); if err != nil { return err }` before the rest.
  abbrev pub ◌>>=◌ : Result E A → (A → Result E B) → Result E B
  err fault >>= rest = err fault
  ok v >>= rest = rest v

  -- A successful sequence is a success of both parts.
  pub >>=-eq-ok :
      (first : Result E A) (rest : A → Result E B) {b : B}
      → (first >>= rest) ≡ ok b
      → (v : A) × (first ≡ ok v) × (rest v ≡ ok b)
  >>=-eq-ok (err fault) rest succeeded = cc
  >>=-eq-ok (ok v) rest succeeded = (v, refl, succeeded)

abbrev pub ◌>>◌ {ℓ κ} : {E : Type ℓ} {B : Type κ} → Result E (Unit {0}) → Result E B → Result E B
err fault >> rest = err fault
ok _ >> rest = rest

-- `if bad { return err }`.
abbrev pub reject_if {ℓ} : {E : Type ℓ} → Bool → E → Result E (Unit {0})
reject_if true e = err e
reject_if false e = ok tt

pub Result-cases {ℓ κ} :
    {E : Type ℓ} {A : Type κ} (r : Result E A) → ((a : A) × (r ≡ ok a)) ⊎ ((e : E) × (r ≡ err e))
Result-cases (ok a) = inl (a, refl)
Result-cases (err e) = inr (e, refl)

pub >>-eq-ok {ℓ κ} :
    {E : Type ℓ} {B : Type κ} (check : Result E (Unit {0})) (rest : Result E B) {b : B}
    → (check >> rest) ≡ ok b
    → (check ≡ ok tt) × (rest ≡ ok b)
>>-eq-ok (err fault) rest succeeded = cc
>>-eq-ok (ok _) rest succeeded = (refl, succeeded)

pub reject_if-eq-ok {ℓ} : {E : Type ℓ} (b : Bool) (e : E) → reject_if b e ≡ ok tt → b ≡ false
reject_if-eq-ok true e h = cc
reject_if-eq-ok false e h = refl

pub ok_injective {ℓ κ} :
    {E : Type ℓ} {A : Type κ} {a b : A} → ◌≡◌ {A = Result E A} (ok a) (ok b) → a ≡ b
ok_injective h = cc
