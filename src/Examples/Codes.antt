-- ===== src/Examples/Codes.antt =====
-- Numbers as codes of values, to have representations and serializers of structured data at hand.
use mathlib.Core.Option
use trust_tee.Prelude.{
  ℕ, zero, suc, ◌+◌, ◌*◌, ◌/◌, ◌%◌, ◌≤◌, ◌<◌, ◌≡◌, refl, sym, ap, ◌∙◌, List, [], ◌∷◌, some, ◌==◌,
  if◌then◌else◌, get_or, arith,
}
use trust_tee.Memory.{Repr}
use trust_tee.Bincode.{Bincode}

-- `2^a * (2b + 1)`
pub pair : ℕ → ℕ → ℕ
pair zero b = 2 * b + 1
pair (suc a) b = 2 * pair a b

-- Enough fuel is one more than `a`.
unpair : ℕ → ℕ → ℕ × ℕ
unpair zero n = (0, 0)
unpair (suc fuel) n =
    let rest = unpair fuel (n / 2) in if n % 2 == 0 then (suc (rest.0), rest.1) else (0, n / 2)

unpair-pair : (fuel a b : ℕ) → a < fuel → unpair fuel (pair a b) ≡ (a, b)
unfolding unpair pair
unpair-pair zero a b h = absurd (omega arith)
unpair-pair (suc fuel) zero b h = ground arith
unpair-pair (suc fuel) (suc a) b h = rw (half, unpair-pair fuel a b (omega arith)) (ground arith)
  where
    half : 2 * pair a b / 2 ≡ pair a b
    half = omega arith

pair-bound : (a b : ℕ) → a + b < pair a b
unfolding pair
pair-bound zero b = omega arith
pair-bound (suc a) b = omega (arith, pair-bound a b)

parts : ℕ → ℕ × ℕ
parts n = unpair n n

parts-pair : (a b : ℕ) → parts (pair a b) ≡ (a, b)
unfolding parts
parts-pair a b = unpair-pair (pair a b) a b (omega (arith, pair-bound a b))

pub record Code (A : Type 0) : Type 0 where
  pub to : A → ℕ
  pub from : ℕ → A
  pub from_to : (a : A) → from (to a) ≡ a

abbrev pub number : Code ℕ
number = record { to = λ n. n; from = λ n. n; from_to = λ n. refl }

module _ {A : Type 0} (c : Code A) where
  pub both : {B : Type 0} → Code B → Code (A × B)
  both d = record {
    to = λ x. pair (c.to x.0) (d.to x.1);
    from = λ n. (c.from (parts n).0, d.from (parts n).1);
    from_to = λ x. rw (parts-pair (c.to (x.0)) (d.to (x.1)), c.from_to (x.0), d.from_to (x.1)) refl;
  }

  -- Through a type with the same values.
  pub through : {B : Type 0} (f : B → A) (g : A → B) → ((b : B) → g (f b) ≡ b) → Code B
  through f g same = record {
    to = λ b. c.to (f b);
    from = λ n. g (c.from n);
    from_to = λ b. ap g (c.from_to (f b)) ∙ same b;
  }

  list_to : List A → ℕ
  list_to [] = 0
  list_to (x ∷ xs) = pair (c.to x) (list_to xs)

  list_from : ℕ → ℕ → List A
  list_from zero n = []
  list_from (suc fuel) n =
      let rest = list_from fuel (parts n).1 in if n == 0 then [] else c.from (parts n).0 ∷ rest

  list_from-to : (fuel : ℕ) (xs : List A) → list_to xs ≤ fuel → list_from fuel (list_to xs) ≡ xs
  unfolding list_to list_from
  list_from-to zero [] h = refl
  list_from-to zero (x ∷ xs) h = absurd (omega (arith, pair-bound (c.to x) (list_to xs)))
  list_from-to (suc fuel) [] h = refl
  list_from-to (suc fuel) (x ∷ xs) h = rw (parts-pair (c.to x) (list_to xs)) (
      ground (
        arith,
        pair-bound (c.to x) (list_to xs),
        c.from_to x,
        list_from-to fuel xs (omega (arith, pair-bound (c.to x) (list_to xs))),
      ))

  pub list : Code (List A)
  list = record {
    to = list_to;
    from = λ n. list_from n n;
    from_to = λ xs. list_from-to (list_to xs) xs (omega arith);
  }

  abbrev pub repr_of : Repr A
  repr_of = record {
    size = 1;
    align_log = 0;
    encode = λ a. c.to a ∷ [];
    decode = λ bs. c.from (get_or bs 0 0);
    size_bound = omega arith;
    align_bound = omega arith;
    length-encode = λ a. refl;
    decode-encode = c.from_to;
  }

  abbrev pub bincode_of : Bincode A
  bincode_of = record {
    serialize = λ a. some (c.to a ∷ []);
    deserialize = λ bs. some (c.from (get_or bs 0 0));
    round_trip = λ a bs h.
        ap (λ cs. some (c.from (get_or cs 0 0))) (sym (Option.some_inj.0 h))
        ∙ ap some (c.from_to a);
  }
