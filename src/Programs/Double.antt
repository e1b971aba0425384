-- ===== src/Programs/Double.antt =====
-- What the programs do with an `f64`: operations of which nothing is assumed, since they round.
use trust_tee.Prelude.{ℕ, Bool}

pub record Double (W : Type 0) : Type 0 where
  pub of_ℕ : ℕ → W
  pub add : W → W → W
  pub sub : W → W → W
  pub less : W → W → Bool

abbrev pub nought : {W : Type 0} → Double W → W
nought d = d.of_ℕ 0
