-- ===== src/Slots/Boundary.antt =====
-- src/runtime/slots.rs: `next_boundary_offset`, for an alignment that is a power of two.
use Prim.Native.Nat.{max}
use native.Mathlib.Nat.{
  div-add-mod, mul-mod_left, mod-lt, pow-le-pow_right, mod-eq_of_lt, div-lt_iff_lt-mul, mul-suc,
  mul-le-mul_right,
}
use trust_tee.Prelude.{
  ℕ, zero, suc, ◌+◌, ◌-◌, ◌*◌, ◌/◌, ◌%◌, ◌^◌, ◌≤◌, ◌<◌, ◌≡◌, ap, ◌∙◌, ◌⊎◌, inl, inr, arith,
  Bool-cases, ltb, ◌&&◌, if◌then◌else◌,
}
use trust_tee.Prelude.Bits.{bit_and_high_ones, pow-pos, pow-add}
use trust_tee.Slots.{primary_bytes, usize_mod, align_up, next_boundary_offset}

-- `offset` rounded up to a multiple of `p`.
abbrev round_up : ℕ → ℕ → ℕ
round_up offset p = (offset + (p - 1)) / p * p

complement_of : (n a b : ℕ) → a * b ≡ n → 0 < a → 0 < b → n - 1 - (a - 1) ≡ (b - 1) * a
complement_of n a zero e pa pb = elim pb [ ]
complement_of n a (suc b) e pa pb =
    let less_one : suc b - 1 ≡ b = omega arith in rw less_one (omega (arith, mul-suc a b))

module _ (k : ℕ) (small : k < 64) where
  split_word : 2 ^ k * 2 ^ (64 - k) ≡ usize_mod
  split_word = pow-add k (64 - k) ∙ ap (λ (t : ℕ). 2 ^ t) whole
    where
      whole : k + (64 - k) ≡ 64
      whole = omega arith

  complement : usize_mod - 1 - (2 ^ k - 1) ≡ (2 ^ (64 - k) - 1) * 2 ^ k
  complement =
      complement_of usize_mod (2 ^ k) (2 ^ (64 - k)) split_word (pow-pos k) (pow-pos (64 - k))

  align_up_lem :
      (offset : ℕ)
      → offset + 2 ^ k ≤ usize_mod
      → align_up offset (2 ^ k - 1) ≡ round_up offset (2 ^ k)
  unfolding align_up
  align_up_lem offset fits =
      rw (complement, bit_and_high_ones, no_wrap) (ap (λ t. t * 2 ^ k) (mod-eq_of_lt quotient))
    where
      no_wrap : (offset + (2 ^ k - 1)) % usize_mod ≡ offset + (2 ^ k - 1)
      no_wrap = mod-eq_of_lt (omega (arith, pow-pos k))

      quotient : (offset + (2 ^ k - 1)) / 2 ^ k < 2 ^ (64 - k)
      quotient = (div-lt_iff_lt-mul (pow-pos k)).1 (omega (arith, split_word, pow-pos k))

-- Rounding up gives the least multiple that is not below.
module _ (offset p : ℕ) (pos : 0 < p) where
  round_up-mod : round_up offset p % p ≡ 0
  round_up-mod = mul-mod_left _ p

  le-round_up : offset ≤ round_up offset p
  le-round_up = omega (arith, div-add-mod (offset + (p - 1)) p, mod-lt (offset + (p - 1)) pos)

  round_up-lt : round_up offset p < offset + p
  round_up-lt = omega (arith, div-add-mod (offset + (p - 1)) p)

  round_up-least : (q : ℕ) → offset ≤ q * p → round_up offset p ≤ q * p
  round_up-least q h = ground (
    arith,
    (div-lt_iff_lt-mul {x = offset + (p - 1)} {y = q + 1} pos).1 (omega arith),
    mul-le-mul_right {m = (offset + (p - 1)) / p} {n = q} p,
  )

  round_up-le : (q : ℕ) → offset ≤ q → q % p ≡ 0 → round_up offset p ≤ q
  round_up-le q h e =
      omega (arith, div-add-mod q p, round_up-least (q / p) (omega (arith, div-add-mod q p)))

-- `[offset, offset + size)` does not cross from the primary block into the trailing one.
abbrev pub IsWhole : ℕ → ℕ → Type 0
IsWhole offset size = (offset + size ≤ primary_bytes) ⊎ (primary_bytes ≤ offset)

-- The place of an allocation: the least multiple of `align` at or after `cursor` where it is whole.
pub record IsPlace (cursor size align offset : ℕ) : Type 0 where
  pub after : cursor ≤ offset
  pub aligned : offset % align ≡ 0
  pub whole : IsWhole offset size
  pub least : (q : ℕ) → cursor ≤ q → q % align ≡ 0 → IsWhole q size → offset ≤ q

module _ (k cursor size : ℕ) (small : k < 64) (fits : cursor + 2 ^ k + size ≤ usize_mod) where
  abbrev start : ℕ
  start = round_up cursor (2 ^ k)

  abbrev trailing : ℕ
  trailing = round_up primary_bytes (2 ^ k)

  half_word : 2 ^ k ≤ 2 ^ 63
  half_word = pow-le-pow_right {n = 2} (omega arith) {j = 63} (omega arith)

  next_boundary_offset_lem :
      next_boundary_offset cursor size (2 ^ k)
      ≡ (if ltb start primary_bytes && ltb primary_bytes (start + size) then trailing else start)
  unfolding next_boundary_offset
  next_boundary_offset_lem = rw (
    mask,
    align_up_lem k small cursor (omega arith),
    align_up_lem k small primary_bytes (omega (arith, half_word)),
    no_wrap,
  )
    where
      mask : max (2 ^ k) 1 - 1 ≡ 2 ^ k - 1
      mask = omega (arith, pow-pos k)

      no_wrap : (start + size) % usize_mod ≡ start + size
      no_wrap = mod-eq_of_lt (omega (arith, round_up-lt cursor (2 ^ k) (pow-pos k)))

  -- With an alignment `2 ^ k`, and no overflow of a `usize`, the offset is the least multiple of the
  -- alignment at or after the cursor at which the allocation does not cross the block boundary.
  pub next_boundary_offset-IsPlace :
      IsPlace cursor size (2 ^ k) (next_boundary_offset cursor size (2 ^ k))
  next_boundary_offset-IsPlace =
      rw next_boundary_offset_lem
        (elim (Bool-cases (ltb start primary_bytes && ltb primary_bytes (start + size))) [
          | inl crosses ↦ rw crosses (record {
            after = ground (arith, le-round_up primary_bytes (2 ^ k) (pow-pos k));
            aligned = round_up-mod primary_bytes (2 ^ k) (pow-pos k);
            whole = inr (le-round_up primary_bytes (2 ^ k) (pow-pos k));
            least = λ q h e w. ground (
              arith,
              round_up-le cursor (2 ^ k) (pow-pos k) q h e,
              round_up-le primary_bytes (2 ^ k) (pow-pos k) q,
            );
          })
          | inr stays ↦ rw stays (record {
            after = le-round_up cursor (2 ^ k) (pow-pos k);
            aligned = round_up-mod cursor (2 ^ k) (pow-pos k);
            whole = ground arith;
            least = λ q h e w. round_up-le cursor (2 ^ k) (pow-pos k) q h e;
          })
        ])

  pub next_boundary_offset-lt :
      next_boundary_offset cursor size (2 ^ k) < cursor + primary_bytes + 2 ^ k
  next_boundary_offset-lt = omega (
    arith,
    next_boundary_offset-IsPlace.least (round_up (cursor + primary_bytes) (2 ^ k))
        (omega (arith, le-round_up (cursor + primary_bytes) (2 ^ k) (pow-pos k)))
        (round_up-mod (cursor + primary_bytes) (2 ^ k) (pow-pos k))
        (inr (omega (arith, le-round_up (cursor + primary_bytes) (2 ^ k) (pow-pos k)))),
    round_up-lt (cursor + primary_bytes) (2 ^ k) (pow-pos k),
  )
