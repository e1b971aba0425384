-- ===== src/Prelude/Lists.antt =====
-- Lists measured and indexed by native numbers, under the library's names, and iteration.
use Prim.Native.Nat.{ℕ, zero, suc, ◌+◌, ◌<◌}
use mathlib.Core.Path.{◌≡◌, refl, ap}
use mathlib.Core.Logic.{◌≢◌, ◌⊎◌, inl, inr}
use mathlib.Core.List.{List, [], ◌∷◌, ◌++◌}
use mathlib.Core.Option.{Option, none, some}
use native.Mathlib.Omega.{arith}
use trust_tee.Prelude.Tests.{nothing_below, ◌==◌, if◌then◌else◌}

module _ {ℓ} {A : Type ℓ} where
  abbrev pub length : List A → ℕ
  length [] = 0
  length (x ∷ xs) = suc (length xs)

  abbrev pub get_elem? : List A → ℕ → Option A
  get_elem? [] i = none
  get_elem? (x ∷ xs) zero = some x
  get_elem? (x ∷ xs) (suc i) = get_elem? xs i

  abbrev pub get_or : List A → ℕ → A → A
  get_or [] i d = d
  get_or (x ∷ xs) zero d = x
  get_or (x ∷ xs) (suc i) d = get_or xs i d

  abbrev pub set : List A → ℕ → A → List A
  set [] i v = []
  set (x ∷ xs) zero v = v ∷ xs
  set (x ∷ xs) (suc i) v = x ∷ set xs i v

  abbrev pub erase_idx : List A → ℕ → List A
  erase_idx [] i = []
  erase_idx (x ∷ xs) zero = xs
  erase_idx (x ∷ xs) (suc i) = x ∷ erase_idx xs i

  pub length-append : (xs ys : List A) → length (xs ++ ys) ≡ length xs + length ys
  length-append [] ys = omega arith
  length-append (x ∷ xs) ys = omega (arith, length-append xs ys)

  -- `f` applied `n` times.
  unfoldable pub iterate : ℕ → (A → A) → A → A
  iterate zero f a = a
  iterate (suc n) f a = iterate n f (f a)

pub length-set : {A : Type 0} (xs : List A) (i : ℕ) (v : A) → length (set xs i v) ≡ length xs
length-set [] i v = refl
length-set (x ∷ xs) zero v = refl
length-set (x ∷ xs) (suc i) v = ap suc (length-set xs i v)

pub get_elem?-lt :
    {A : Type 0} (xs : List A) (i : ℕ) → i < length xs → (x : A) × (get_elem? xs i ≡ some x)
get_elem?-lt [] i h = elim (nothing_below h) [ ]
get_elem?-lt (x ∷ xs) zero h = (x, refl)
get_elem?-lt (x ∷ xs) (suc i) h = get_elem?-lt xs i (omega arith)

pub get_elem?-below :
    {A : Type 0} (xs : List A) (i : ℕ) (x : A) → get_elem? xs i ≡ some x → i < length xs
get_elem?-below [] i x h = cc h
get_elem?-below (y ∷ ys) zero x h = omega arith
get_elem?-below (y ∷ ys) (suc i) x h = omega (arith, get_elem?-below ys i x h)

pub get_elem?-set :
    {A : Type 0} (xs : List A) (i j : ℕ) (v x : A)
    → get_elem? (set xs i v) j ≡ some x
    → ((i ≡ j) × (x ≡ v)) ⊎ ((i ≢ j) × (get_elem? xs j ≡ some x))
get_elem?-set [] i j v x h = cc h
get_elem?-set (y ∷ ys) zero zero v x h = inl (refl, cc h)
get_elem?-set (y ∷ ys) zero (suc j) v x h = inr (omega arith, h)
get_elem?-set (y ∷ ys) (suc i) zero v x h = inr (omega arith, h)
get_elem?-set (y ∷ ys) (suc i) (suc j) v x h = elim (get_elem?-set ys i j v x h) [
  | inl e ↦ inl (ap suc e.0, e.1)
  | inr e ↦ inr (omega (arith, e.0), e.1)
]

-- A list after one place has been set, and after one more item.
pub get_elem?-set_if :
    {A : Type 0} (xs : List A) (i j : ℕ) (v x : A)
    → get_elem? xs i ≡ some x
    → get_elem? (set xs i v) j ≡ (if i == j then some v else get_elem? xs j)
get_elem?-set_if [] i j v x h = cc h
get_elem?-set_if (y ∷ ys) zero zero v x h = refl
get_elem?-set_if (y ∷ ys) zero (suc j) v x h = ground arith
get_elem?-set_if (y ∷ ys) (suc i) zero v x h = ground arith
get_elem?-set_if (y ∷ ys) (suc i) (suc j) v x h = ground (arith, get_elem?-set_if ys i j v x h)

pub get_elem?-snoc :
    {A : Type 0} (xs : List A) (v : A) (j : ℕ)
    → get_elem? (xs ++ (v ∷ [])) j ≡ (if j == length xs then some v else get_elem? xs j)
get_elem?-snoc [] v zero = refl
get_elem?-snoc [] v (suc j) = ground arith
get_elem?-snoc (y ∷ ys) v zero = ground arith
get_elem?-snoc (y ∷ ys) v (suc j) = ground (arith, get_elem?-snoc ys v j)

pub get_elem?-snoc_cases :
    {A : Type 0} (xs : List A) (v : A) (j : ℕ) (x : A)
    → get_elem? (xs ++ (v ∷ [])) j ≡ some x
    → ((x ≡ v) × (j ≡ length xs)) ⊎ (get_elem? xs j ≡ some x)
get_elem?-snoc_cases [] v zero x h = inl (cc h, refl)
get_elem?-snoc_cases [] v (suc j) x h = cc h
get_elem?-snoc_cases (y ∷ ys) v zero x h = inr h
get_elem?-snoc_cases (y ∷ ys) v (suc j) x h = elim (get_elem?-snoc_cases ys v j x h) [
  | inl e ↦ inl (e.0, ap suc e.1)
  | inr e ↦ inr e
]
