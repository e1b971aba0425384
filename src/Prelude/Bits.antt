-- ===== src/Prelude/Bits.antt =====
-- `bit_and` with a mask and `bit_or` with a low bit, at variables, from the digit recursion that
-- the native operations stand for.
use Prim.Native.Nat.{
  ℕ, zero, suc, ◌+◌, ◌-◌, ◌*◌, ◌/◌, ◌%◌, ◌^◌, ◌≤◌, ◌<◌, min, max, bit_and, bit_or, digits,
  bit_and-bitwise, bit_or-bitwise,
}
use mathlib.Core.Path.{◌≡◌, refl, sym, ap, ◌∙◌}
use native.Mathlib.Nat.{
  div-div-eq-div-mul, div-add-mod, mul_comm, one-le-pow, pow-suc, mul-one, div-one, zero-add,
  suc-add,
}
use native.Mathlib.Omega.{arith}

-- More rounds of the digit recursion than there are digits change nothing.
module _ (rest : ℕ → ℕ) (op : ℕ → ℕ → ℕ) where
  digits_stable : (n m a b : ℕ) → a ≤ n → a ≤ m → digits rest op n a b ≡ digits rest op m a b
  digits_stable zero zero a b p q = refl
  digits_stable zero (suc m) zero b p q = refl
  digits_stable zero (suc m) (suc a) b p q = absurd (omega arith)
  digits_stable (suc n) zero zero b p q = refl
  digits_stable (suc n) zero (suc a) b p q = absurd (omega arith)
  digits_stable (suc n) (suc m) zero b p q = refl
  digits_stable (suc n) (suc m) (suc a) b p q =
      ap (λ t. t * 2 + op (suc a % 2) (b % 2))
        (digits_stable n m (suc a / 2) (b / 2) (omega arith) (omega arith))

bit_and_zero_left : (b : ℕ) → bit_and 0 b ≡ 0
bit_and_zero_left b = bit_and-bitwise 0 b

pub bit_or_zero_left : (b : ℕ) → bit_or 0 b ≡ b
bit_or_zero_left b = bit_or-bitwise 0 b

bit_and_digit : (a b : ℕ) → bit_and a b ≡ bit_and (a / 2) (b / 2) * 2 + min (a % 2) (b % 2)
bit_and_digit zero b = omega (arith, bit_and_zero_left b, bit_and_zero_left (b / 2))
bit_and_digit (suc a) b = omega (
  arith,
  bit_and-bitwise (suc a) b,
  bit_and-bitwise (suc a / 2) (b / 2),
  digits_stable (λ t. zero) min a (suc a / 2) (suc a / 2) (b / 2) (omega arith) (omega arith),
)

bit_or_digit : (a b : ℕ) → bit_or a b ≡ bit_or (a / 2) (b / 2) * 2 + max (a % 2) (b % 2)
bit_or_digit zero b = omega (arith, bit_or_zero_left b, bit_or_zero_left (b / 2))
bit_or_digit (suc a) b = omega (
  arith,
  bit_or-bitwise (suc a) b,
  bit_or-bitwise (suc a / 2) (b / 2),
  digits_stable (λ t. t) max a (suc a / 2) (suc a / 2) (b / 2) (omega arith) (omega arith),
)

bit_and_zero_bounded : (n a : ℕ) → a ≤ n → bit_and a 0 ≡ 0
bit_and_zero_bounded n zero h = bit_and_zero_left 0
bit_and_zero_bounded zero (suc a) h = absurd (omega arith)
bit_and_zero_bounded (suc n) (suc a) h =
    omega (arith, bit_and_digit (suc a) 0, bit_and_zero_bounded n (suc a / 2) (omega arith))

bit_or_zero_bounded : (n a : ℕ) → a ≤ n → bit_or a 0 ≡ a
bit_or_zero_bounded n zero h = bit_or_zero_left 0
bit_or_zero_bounded zero (suc a) h = absurd (omega arith)
bit_or_zero_bounded (suc n) (suc a) h =
    omega (arith, bit_or_digit (suc a) 0, bit_or_zero_bounded n (suc a / 2) (omega arith))

-- The lowest bit.
pub bit_and_one : (a : ℕ) → bit_and a 1 ≡ a % 2
bit_and_one a = omega (arith, bit_and_digit a 1, bit_and_zero_bounded (a / 2) (a / 2) (omega arith))

-- Setting the lowest bit of an even number.
pub bit_or_low : (a b : ℕ) → b ≤ 1 → bit_or (a * 2) b ≡ a * 2 + b
bit_or_low a b h = omega (arith, bit_or_digit (a * 2) b, bit_or_zero a, e)
  where
    bit_or_zero : (n : ℕ) → bit_or n 0 ≡ n
    bit_or_zero n = bit_or_zero_bounded n n (omega arith)

    half : b / 2 ≡ 0
    half = omega arith

    whole : a * 2 / 2 ≡ a
    whole = omega arith

    e : bit_or (a * 2 / 2) (b / 2) ≡ bit_or a 0
    e = rw (half, whole)

mod_double : (a p : ℕ) → a % (p * 2) ≡ a / 2 % p * 2 + a % 2
mod_double a p = rw (mul_comm p 2) (
    omega (
      arith,
      div-add-mod a (2 * p),
      ap (λ t. 2 * t) (div-add-mod (a / 2) p),
      ap (λ t. 2 * p * t) (div-div-eq-div-mul a 2 p),
    ))

pub pow-pos : (k : ℕ) → 0 < 2 ^ k
pow-pos k = one-le-pow k 2 (omega arith)

-- A mask of `k` low ones keeps the remainder.
pub bit_and_ones : (k a : ℕ) → bit_and a (2 ^ k - 1) ≡ a % 2 ^ k
bit_and_ones zero a = omega (arith, bit_and_zero_bounded a a (omega arith))
bit_and_ones (suc k) a = omega (
  arith,
  pow-suc 2 k,
  pow-pos k,
  bit_and_digit a (2 ^ suc k - 1),
  ap (bit_and (a / 2)) half,
  bit_and_ones k (a / 2),
  mod_double a (2 ^ k),
  ap (λ t. a % t) (pow-suc 2 k),
)
  where
    half : (2 ^ suc k - 1) / 2 ≡ 2 ^ k - 1
    half = omega (arith, pow-suc 2 k, pow-pos k)

-- `a & !(2^k - 1)` in a word of `k + j` bits clears the `k` low bits.
pub bit_and_high_ones : (k j a : ℕ) → bit_and a ((2 ^ j - 1) * 2 ^ k) ≡ a / 2 ^ k % 2 ^ j * 2 ^ k
bit_and_high_ones zero j a =
    ap (bit_and a) (mul-one (2 ^ j - 1))
    ∙ bit_and_ones j a
    ∙ sym (ap (λ t. t % 2 ^ j * 1) (div-one a) ∙ mul-one (a % 2 ^ j))
bit_and_high_ones (suc k) j a = rw (pow-suc 2 k) (
    omega (
      arith,
      bit_and_digit a ((2 ^ j - 1) * (2 ^ k * 2)),
      ap (bit_and (a / 2)) half,
      even,
      bit_and_high_ones k j (a / 2),
      ap (λ t. t % 2 ^ j * 2 ^ k * 2)
          (div-div-eq-div-mul a 2 (2 ^ k) ∙ ap (λ t. a / t) (mul_comm 2 (2 ^ k))),
    ))
  where
    half : (2 ^ j - 1) * (2 ^ k * 2) / 2 ≡ (2 ^ j - 1) * 2 ^ k
    half = omega arith

    even : (2 ^ j - 1) * (2 ^ k * 2) % 2 ≡ 0
    even = omega arith

pub pow-add : (k j : ℕ) → 2 ^ k * 2 ^ j ≡ 2 ^ (k + j)
pow-add zero j = rw zero-add (omega arith)
pow-add (suc k) j = rw (suc-add, pow-suc, pow-suc) (omega (arith, pow-add k j))
