-- ===== src/Serialization/Alloc.antt =====
-- src/runtime/serialization.rs: `alloc_aligned`, for an alignment that is a power of two.
use native.Mathlib.Nat.{mod-eq_of_lt}
use trust_tee.Prelude.{
  ℕ, ◌+◌, ◌%◌, ◌^◌, ◌≤◌, ◌<◌, ◌≡◌, ◌⊎◌, inl, inr, arith, Bool-cases, leb, leb→le,
}
use trust_tee.Outcome.{Panic, ok, panic}
use trust_tee.Slots.{primary_bytes, usize_mod, next_boundary_offset}
use trust_tee.Slots.Boundary.{
  IsPlace, IsWhole, next_boundary_offset-IsPlace, next_boundary_offset-lt,
}
use trust_tee.Serialization.{SlotWriter, alloc_aligned}

-- The place that an allocation of `size` bytes at alignment `align` got.
pub record Allocated (w : SlotWriter) (size align pos : ℕ) : Type 0 where
  pub place : IsPlace w.cursor size align pos
  pub fits : pos + size ≤ w.len
  pub result : alloc_aligned w size align ≡ ok (w.base + pos, record w { cursor = pos + size })

-- No place for the allocation ends within the slot.
pub record Refused (w : SlotWriter) (size align : ℕ) : Type 0 where
  pub too_long : (q : ℕ) → w.cursor ≤ q → q % align ≡ 0 → IsWhole q size → w.len < q + size
  pub result : alloc_aligned w size align ≡ panic Panic.slot_overflow

-- Every allocation, with an alignment `2 ^ k` and without overflow of a `usize`, is placed at the least
-- fitting offset, or refused because no place in the slot fits.
pub alloc_aligned_lem :
    (w : SlotWriter) (size k : ℕ)
    → k < 64
    → w.cursor + primary_bytes + 2 ^ k + size ≤ usize_mod
    → ((pos : ℕ) × Allocated w size (2 ^ k) pos) ⊎ Refused w size (2 ^ k)
unfolding alloc_aligned
alloc_aligned_lem w size k small fits = elim (Bool-cases (leb (pos + size) w.len)) [
  | inl inside ↦ inl (
    pos,
    record {
      place = place;
      fits = leb→le (pos + size) w.len inside;
      result = rw (alloc_aligned, no_wrap, inside);
    },
  )
  | inr outside ↦ inr (record {
    too_long = λ q h e v. ground (arith, place.least q h e v);
    result = rw (alloc_aligned, no_wrap, outside);
  })
]
  where
    pos : ℕ
    pos = next_boundary_offset w.cursor size (2 ^ k)

    place : IsPlace w.cursor size (2 ^ k) pos
    place = next_boundary_offset-IsPlace k w.cursor size small (omega arith)

    no_wrap : (pos + size) % usize_mod ≡ pos + size
    no_wrap =
        mod-eq_of_lt (omega (arith, next_boundary_offset-lt k w.cursor size small (omega arith)))
