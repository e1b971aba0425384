-- ===== src/Util/Affinity.antt =====
-- src/util/affinity.rs: the CPU set of `pin_current_thread` on Linux. `cpu_set_t` has 1024 bits, read as
-- sixteen words of 64 bits; the system calls that take it stand in Pinning.
pub mod Pinning
use trust_tee.Prelude.{
  ℕ, zero, suc, ◌+◌, ◌*◌, ◌/◌, ◌%◌, ◌^◌, ◌≤◌, ◌<◌, ◌≡◌, refl, sym, ap, ◌∙◌, bit_or, List, [], ◌∷◌,
  Option, none, some, length, length-set, get_or, set, ltb, nothing_below, lt→ltb, le→ltb, arith,
  if◌then◌else◌,
}
use trust_tee.Prelude.Bits.{pow-add, bit_or_zero_left}

abbrev pub cpu_words : ℕ
cpu_words = 16

unfoldable pub zeroed : ℕ → List ℕ
zeroed zero = []
zeroed (suc n) = 0 ∷ zeroed n

-- `*bits_ptr.add(idx) |= 1u64 << off`: `none` where the word lies outside the set.
unfoldable pub set_bit : List ℕ → ℕ → ℕ → Option (List ℕ)
set_bit words idx off =
    if ltb idx (length words)
    then some (set words idx (bit_or (get_or words idx 0) (2 ^ off)))
    else none

-- The set that pins the thread to `core`.
unfoldable pub cpu_set : ℕ → Option (List ℕ)
unfolding set_bit zeroed
cpu_set core = set_bit (zeroed cpu_words) (core / 64) (core % 64)

-- The number whose bits the words are, the lowest word first.
unfoldable pub bits_of : List ℕ → ℕ
bits_of [] = 0
bits_of (w ∷ ws) = w + 2 ^ 64 * bits_of ws

length-zeroed : (n : ℕ) → length (zeroed n) ≡ n
unfolding zeroed
length-zeroed zero = refl
length-zeroed (suc n) = ap suc (length-zeroed n)

bits_of-zeroed : (n : ℕ) → bits_of (zeroed n) ≡ 0
unfolding bits_of zeroed
bits_of-zeroed zero = refl
bits_of-zeroed (suc n) = omega (arith, bits_of-zeroed n)

shifted : (p v q : ℕ) → 2 ^ 64 * p ≡ q → 0 + 2 ^ 64 * (p * v) ≡ q * v
shifted p v q e = rw (sym e) (grind arith)

bits_of-set :
    (n i v : ℕ)
    → i < n
    → bits_of (set (zeroed n) i (bit_or (get_or (zeroed n) i 0) v)) ≡ 2 ^ (64 * i) * v
unfolding bits_of zeroed
bits_of-set zero i v h = elim (nothing_below h) [ ]
bits_of-set (suc n) zero v h = rw (bit_or_zero_left v, bits_of-zeroed n) (omega arith)
bits_of-set (suc n) (suc i) v h =
    ap (λ x. 0 + 2 ^ 64 * x) (bits_of-set n i v (omega arith))
    ∙ shifted (2 ^ (64 * i)) v (2 ^ (64 * suc i))
        (pow-add 64 (64 * i) ∙ ap (λ e. 2 ^ e) (omega arith))

-- The CPU set for a core below 1024 is sixteen words, of which the bit of that core is set, and no other.
pub cpu_set_lem :
    (core : ℕ)
    → core < 1024
    → (words : List ℕ) × (cpu_set core ≡ some words)
      × (length words ≡ cpu_words)
      × (bits_of words ≡ 2 ^ core)
unfolding cpu_set set_bit
cpu_set_lem core small = (
  set (zeroed cpu_words) (core / 64)
      (bit_or (get_or (zeroed cpu_words) (core / 64) 0) (2 ^ (core % 64))),
  rw (lt→ltb (core / 64) (length (zeroed cpu_words)) (omega (arith, length-zeroed cpu_words))),
  length-set (zeroed cpu_words) (core / 64) _ ∙ length-zeroed cpu_words,
  bits_of-set cpu_words (core / 64) (2 ^ (core % 64)) (omega arith)
      ∙ pow-add (64 * (core / 64)) (core % 64)
      ∙ ap (λ e. 2 ^ e) (omega arith),
)

-- For a core from 1024 on, nothing checks it, and the write goes outside the sixteen words.
pub cpu_set-outside : (core : ℕ) → 1024 ≤ core → cpu_set core ≡ none
unfolding cpu_set set_bit
cpu_set-outside core large =
    rw (le→ltb (core / 64) (length (zeroed cpu_words)) (omega (arith, length-zeroed cpu_words)))
