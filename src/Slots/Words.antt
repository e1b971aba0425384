-- ===== src/Slots/Words.antt =====
-- src/runtime/slots.rs: the header word of a slot.
use trust_tee.Prelude.{
  ℕ, ◌≤◌, ◌∙◌, not, ◌==◌, ◌+◌, ◌*◌, ◌/◌, ◌%◌, ◌^◌, ◌<◌, ◌≡◌, bit_and, Bool, true, false, arith,
}
use trust_tee.Prelude.Bits.{bit_and_one, bit_or_low, bit_and_high_ones}
use trust_tee.Slots.{pack_ready_count, ready, count, count_mask, bool_to_u32, u32_mod}

bit_and-count_mask : (a : ℕ) → bit_and a count_mask ≡ a / 2 % 2 ^ 31 * 2
bit_and-count_mask a = bit_and_high_ones 1 31 a

-- The packed word as a number: the count, less its top bit, above the ready bit.
pub pack_ready_count_lem :
    (r : Bool) (c : ℕ) → pack_ready_count r c ≡ c % 2 ^ 31 * 2 + bool_to_u32 r
unfolding pack_ready_count
pack_ready_count_lem r c = rw bit_and-count_mask (bit_or_low _ _ small ∙ omega arith)
  where
    small : bool_to_u32 r ≤ 1
    small = ground arith

    kept : c * 2 % 2 ^ 32 / 2 % 2 ^ 31 ≡ c % 2 ^ 31
    kept = omega arith

pub count_lem : (w : ℕ) → count w ≡ w / 2 % 2 ^ 31
unfolding count
count_lem w = omega (arith, bit_and-count_mask w)

pub ready_lem : (w : ℕ) → ready w ≡ not (w % 2 == 0)
unfolding ready
ready_lem w = rw bit_and_one

pub bit-ready : (w : ℕ) → bool_to_u32 (ready w) ≡ w % 2
bit-ready w = rw ready_lem (ground arith)

pub ready-pack : (r : Bool) (c : ℕ) → ready (pack_ready_count r c) ≡ r
ready-pack true c = rw ready_lem (ground (arith, pack_ready_count_lem true c))
ready-pack false c = rw ready_lem (ground (arith, pack_ready_count_lem false c))

pub count-pack : (r : Bool) (c : ℕ) → count (pack_ready_count r c) ≡ c % 2 ^ 31
count-pack true c = omega (arith, count_lem (pack_ready_count true c), pack_ready_count_lem true c)
count-pack false c =
    omega (arith, count_lem (pack_ready_count false c), pack_ready_count_lem false c)

pack-lt : (r : Bool) (c : ℕ) → pack_ready_count r c < u32_mod
pack-lt true c = omega (arith, pack_ready_count_lem true c)
pack-lt false c = omega (arith, pack_ready_count_lem false c)

pack-unpack : (w : ℕ) → w < u32_mod → pack_ready_count (ready w) (count w) ≡ w
pack-unpack w h = omega (arith, pack_ready_count_lem (ready w) (count w), count_lem w, bit-ready w)

-- A header word and its two parts determine one another: unpacking a packed word gives the ready
-- bit and the count, for a count below 2 ^ 31, and packing the parts of any u32 gives the word back.
pub header_round_trip :
    (r : Bool) (c w : ℕ)
    → c < 2 ^ 31
    → w < u32_mod
    → (ready (pack_ready_count r c) ≡ r)
      × (count (pack_ready_count r c) ≡ c)
      × (pack_ready_count r c < u32_mod)
      × (pack_ready_count (ready w) (count w) ≡ w)
header_round_trip r c w hc hw =
    (ready-pack r c, omega (arith, count-pack r c), pack-lt r c, pack-unpack w hw)
