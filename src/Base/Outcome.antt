-- ===== src/Base/Outcome.antt =====
-- Results of code that may raise: a value or the exception.
use mathlib.Core.Path.{◌≡◌, refl, ap}
use mathlib.Core.Logic.{◌⊎◌, inl, inr}
use mathlib.Core.Option.{Option, none, some}

pub data Fault : Type 0 where
  key_error index_error value_error attribute_error type_error name_error raised : Fault

pub data Outcome {ℓ} (A : Type ℓ) : Type ℓ where
  ok : A → Outcome A
  err : Fault → Outcome A

-- How a function without a value ends.
abbrev pub Ended : Type 0
Ended = Outcome (Unit {0})

module _ {ℓ κ} {A : Type ℓ} {B : Type κ} where
  -- An exception skips what follows.
  infixl 5 ◌>>=◌
  abbrev pub ◌>>=◌ : Outcome A → (A → Outcome B) → Outcome B
  err fault >>= next = err fault
  ok x >>= next = next x

  pub >>=-eq-ok :
      (first : Outcome A) (next : A → Outcome B) {y : B}
      → (first >>= next) ≡ ok y
      → (x : A) × (first ≡ ok x) × (next x ≡ ok y)
  >>=-eq-ok (err fault) next whole = cc
  >>=-eq-ok (ok x) next whole = (x, refl, whole)

-- A subscript `m[k]` raises where `m.get(k)` is `None`.
abbrev pub or_raise {ℓ} : {A : Type ℓ} → Fault → Option A → Outcome A
or_raise e none = err e
or_raise e (some a) = ok a

pub Outcome-cases {ℓ} :
    {A : Type ℓ} (o : Outcome A) (P : Outcome A → Type ℓ)
    → ((a : A) → P (ok a))
    → ((e : Fault) → P (err e))
    → P o
Outcome-cases (ok a) P f g = f a
Outcome-cases (err e) P f g = g e

pub Outcome-err {ℓ} :
    {A : Type ℓ} (o : Outcome A) → ((a : A) × (o ≡ ok a)) ⊎ ((e : Fault) × (o ≡ err e))
Outcome-err (ok a) = inl (a, refl)
Outcome-err (err e) = inr (e, refl)

abbrev value_or {ℓ} : {A : Type ℓ} → A → Outcome A → A
value_or d (ok a) = a
value_or d (err e) = d

pub ok-injective {ℓ} : {A : Type ℓ} {a b : A} → ok a ≡ ok b → a ≡ b
ok-injective {a = a} h = ap (value_or a) h
