-- ===== src/Prelude/Results.antt =====
-- A call that may raise. A raise inside a transaction rolls the database back, so an operation
-- returns the new database only beside its value.
use mathlib.Core.Path.{◌≡◌, refl}
use mathlib.Core.Logic.{◌⊎◌, inl, inr}
use mathlib.Core.Bool.{Bool, true, false}
use mathlib.Core.Option.{Option, none, some}

pub data Result {ℓ} (E : Type 0) (A : Type ℓ) : Type ℓ where
  ok : A → Result E A
  err : E → Result E A

module _ {ℓ} {E : Type 0} {A : Type ℓ} where
  -- The call, then the rest with its value, unless it raised.
  infixl 5 ◌>>=◌ ◌>>◌
  abbrev pub ◌>>=◌ {κ} : {B : Type κ} → Result E A → (A → Result E B) → Result E B
  err raised >>= rest = err raised
  ok value >>= rest = rest value

  abbrev pub ◌>>◌ {κ} : {B : Type κ} → Result E A → Result E B → Result E B
  err raised >> rest = err raised
  ok value >> rest = rest

  -- `if value is None: raise error`
  abbrev pub or_raise : Option A → E → Result E A
  or_raise (some value) error = ok value
  or_raise none error = err error

  -- To split on a call and keep the equation.
  pub Result-cases : (call : Result E A) → ((e : E) × (call ≡ err e)) ⊎ ((a : A) × (call ≡ ok a))
  Result-cases (err e) = inl (e, refl)
  Result-cases (ok a) = inr (a, refl)

-- `if test: raise error`
abbrev pub raise_if : {E : Type 0} → Bool → E → Result E (Unit {0})
raise_if false error = ok tt
raise_if true error = err error

module _ {ℓ κ} {E : Type 0} {A : Type ℓ} {B : Type κ} where
  -- What a call and its rest return comes from what the call returned.
  pub bind_ok :
      (call : Result E A) (rest : A → Result E B) {b : B}
      → call >>= rest ≡ ok b
      → (a : A) × (call ≡ ok a) × (rest a ≡ ok b)
  bind_ok (ok a) rest h = (a, refl, h)
  bind_ok (err e) rest h = cc

pub or_raise-ok {ℓ} :
    {E : Type 0} {A : Type ℓ} (o : Option A) (error : E) {a : A}
    → or_raise o error ≡ ok a
    → o ≡ some a
or_raise-ok (some x) error h = cc
or_raise-ok none error h = cc
