-- ===== src/Runtime/Worker/Indices.antt =====
-- src/runtime/runtime.rs: the index of the client that a turn of the worker loop visits.
use trust_tee.Prelude.{ℕ, ◌≢◌, ◌+◌, ◌-◌, ◌<◌, ◌≡◌, refl, true, false, leb, arith}
use trust_tee.Runtime.Worker.{slot_index}

pub slot_index-lt : (start offs n : ℕ) → start < n → offs < n → slot_index start offs n < n
unfolding slot_index
slot_index-lt start offs n p q = ground arith

-- Every client is visited: `offs` at which the index is `i`.
pub slot_index-onto :
    (start i n : ℕ) → start < n → i < n → (j : ℕ) × (j < n) × (slot_index start j n ≡ i)
unfolding slot_index
slot_index-onto start i n p q =
    elim (leb start i) as (λ b. leb start i ≡ b → (j : ℕ) × (j < n) × (slot_index start j n ≡ i)) [
      | true ↦ λ h. (i - start, ground arith, ground arith)
      | false ↦ λ h. (i + n - start, ground arith, ground arith)
    ]
      refl

-- Two turns of a round visit different clients, as long as the round begins at the same one.
pub slot_index-ne :
    (start i j n : ℕ) → start < n → i < j → j < n → slot_index start i n ≢ slot_index start j n
unfolding slot_index
slot_index-ne start i j n p q r = ground arith
