-- ===== src/Outcome.antt =====
-- Panics as values: the panics that the code raises, and those of a closure of the user.
use trust_tee.Prelude.{◌≡◌, refl, ap}

pub data Panic : Type 0 where
  slot_overflow blocking_on_trustee not_owned already_locked : Panic
  not_serialized not_deserialized user_panic : Panic

pub data Outcome {ℓ} (A : Type ℓ) : Type ℓ where
  ok : A → Outcome A
  panic : Panic → Outcome A

infixl 5 ◌>>=◌
abbrev pub ◌>>=◌ {ℓ κ} : {A : Type ℓ} {B : Type κ} → Outcome A → (A → Outcome B) → Outcome B
ok a >>= f = f a
panic p >>= f = panic p

-- A result that came about by `>>=` came about in both steps.
pub >>=-ok {ℓ κ} :
    {A : Type ℓ} {B : Type κ} (m : Outcome A) (f : A → Outcome B) {b : B}
    → (m >>= f) ≡ ok b
    → (a : A) × (m ≡ ok a) × (f a ≡ ok b)
>>=-ok (ok a) f h = (a, refl, h)
>>=-ok (panic p) f h = cc

or_else {ℓ} : {A : Type ℓ} → A → Outcome A → A
or_else d (ok a) = a
or_else d (panic p) = d

pub ok-injective {ℓ} : {A : Type ℓ} {a b : A} → ok a ≡ ok b → a ≡ b
unfolding or_else
ok-injective {a} e = ap (or_else a) e

pub ok-ne-panic {ℓ} : {A : Type ℓ} {a : A} {p : Panic} → ok a ≡ panic p → ⊥
ok-ne-panic e = cc e
