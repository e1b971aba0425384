-- ===== src/Bincode.antt =====
-- The serializer of the `bincode` crate at one type: a parameter of the operations that use it.
use trust_tee.Prelude.{ℕ, ◌≡◌, List, Option, some}

pub record Bincode (V : Type 0) : Type 0 where
  pub serialize : V → Option (List ℕ)
  pub deserialize : List ℕ → Option V
  -- What was serialized is read back.
  pub round_trip : (v : V) (bs : List ℕ) → serialize v ≡ some bs → deserialize bs ≡ some v
