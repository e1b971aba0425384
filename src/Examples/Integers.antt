-- ===== src/Examples/Integers.antt =====
-- Integers for the amounts of a bank.
use trust_tee.Prelude.{ℕ, suc, ◌+◌, ◌-◌, ◌*◌, ◌/◌, ◌%◌, ◌≡◌, Bool, if◌then◌else◌, ltb, ◌==◌, arith}
use trust_tee.Programs.Double.{Double}
use trust_tee.Examples.Codes.{Code, number, through}

-- `negsuc n` is -(n + 1).
pub data ℤ : Type 0 where
  pos : ℕ → ℤ
  negsuc : ℕ → ℤ

abbrev above : ℤ → ℕ
above (pos n) = n
above (negsuc n) = 0

abbrev below : ℤ → ℕ
below (pos n) = 0
below (negsuc n) = suc n

abbrev difference : ℕ → ℕ → ℤ
difference a b = if ltb a b then negsuc (b - a - 1) else pos (a - b)

infixl 65 ◌+ℤ◌ ◌-ℤ◌
unfoldable pub ◌+ℤ◌ : ℤ → ℤ → ℤ
a +ℤ b = difference (above a + above b) (below a + below b)

unfoldable pub ◌-ℤ◌ : ℤ → ℤ → ℤ
a -ℤ b = difference (above a + below b) (below a + above b)

unfoldable pub ltb_ℤ : ℤ → ℤ → Bool
ltb_ℤ a b = ltb (above a + below b) (above b + below a)

abbrev pub int_double : Double ℤ
int_double = record { of_ℕ = pos; add = ◌+ℤ◌; sub = ◌-ℤ◌; less = ltb_ℤ }

abbrev int_to : ℤ → ℕ
int_to (pos n) = 2 * n
int_to (negsuc n) = 2 * n + 1

abbrev int_from : ℕ → ℤ
int_from n = if n % 2 == 0 then pos (n / 2) else negsuc (n / 2)

pub integer : Code ℤ
integer = through number int_to int_from same_int
  where
    same_int : (x : ℤ) → int_from (int_to x) ≡ x
    same_int (pos n) = ground arith
    same_int (negsuc n) = ground arith
