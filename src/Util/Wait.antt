-- ===== src/Util/Wait.antt =====
-- src/util/wait.rs: the budget of a waiting loop: a bounded number of spins, then of yields, then spins
-- again without end.
use trust_tee.Prelude.{
  ℕ, zero, suc, ◌+◌, ◌-◌, ◌%◌, ◌^◌, ◌≤◌, ◌<◌, min, ◌≡◌, refl, ap, ◌∙◌, Bool, true, false, ltb, List,
  [], ◌∷◌, ◌++◌, Option, none, some, iterate, arith, if◌then◌else◌,
}
use trust_tee.Slots.{u32_mod}

pub record WaitBudget : Type 0 where
  pub spins : ℕ
  pub yields : ℕ
  pub spin_cap : ℕ
  pub yield_cap : ℕ

abbrev pub hot : WaitBudget
hot = record { spins = 0; yields = 0; spin_cap = 128; yield_cap = 8 }

-- `WaitBudget::default()`
abbrev pub default : WaitBudget
default = record { spins = 0; yields = 0; spin_cap = 64; yield_cap = 4 }

unfoldable pub reset : WaitBudget → WaitBudget
reset b = record b { spins = 0; yields = 0 }

-- What a step asks of the machine.
pub data Pause : Type 0 where
  spin_loop yield_now : Pause

unfoldable pub step : WaitBudget → Pause × WaitBudget
step b =
    if ltb b.spins b.spin_cap
    then (spin_loop, record b { spins = (b.spins + 1) % u32_mod })
    else if ltb b.yields b.yield_cap
    then (yield_now, record b { yields = (b.yields + 1) % u32_mod })
    else (spin_loop, b)

-- The waiting loop on the results of its attempts, `true` for `Ok`: how often it stepped the budget,
-- and the budget; `none` where no attempt of the list succeeds.
unfoldable pub acquire : List Bool → WaitBudget → Option (ℕ × WaitBudget)
unfolding step
acquire [] b = none
acquire (true ∷ rest) b = some (0, b)
acquire (false ∷ rest) b = elim (acquire rest (step b).1) [
  | none ↦ none
  | some (n, b') ↦ some (n + 1, b')
]

unfoldable pub acquire_lock_with_budget : List Bool → Option (ℕ × WaitBudget)
unfolding acquire
acquire_lock_with_budget attempts = acquire attempts hot

-- A budget within its caps.
pub record IsBudget (b : WaitBudget) : Type 0 where
  pub spun : b.spins ≤ b.spin_cap
  pub yielded : b.yields ≤ b.yield_cap
  pub spin_fits : b.spin_cap < 2 ^ 32
  pub yield_fits : b.yield_cap < 2 ^ 32

-- The budget after `n` steps.
abbrev pub spent : ℕ → WaitBudget → WaitBudget
spent n b = record b {
  spins = min (b.spins + n) b.spin_cap;
  yields = min (b.yields + (b.spins + n - b.spin_cap)) b.yield_cap;
}

step-IsBudget : (b : WaitBudget) → IsBudget b → IsBudget (step b).1
unfolding step
step-IsBudget b is = record {
  spun = ground arith;
  yielded = ground arith;
  spin_fits = ground arith;
  yield_fits = ground arith;
}

spent-step : (n : ℕ) (b : WaitBudget) → IsBudget b → spent n (step b).1 ≡ spent (suc n) b
unfolding step
spent-step n b is = ground arith

-- After any number of steps, a budget within its caps has spun as often as its first cap allows
-- and yielded for the rest, up to its second cap: neither counter passes its cap, or wraps around.
pub iterate-step : (n : ℕ) (b : WaitBudget) → IsBudget b → iterate n (λ c. (step c).1) b ≡ spent n b
unfolding iterate step
iterate-step zero b is = ground arith
iterate-step (suc n) b is = iterate-step n (step b).1 (step-IsBudget b is) ∙ spent-step n b is

-- `n` attempts that fail.
abbrev pub failures : ℕ → List Bool
failures zero = []
failures (suc n) = false ∷ failures n

step_count : Option (ℕ × WaitBudget) → Option (ℕ × WaitBudget)
step_count none = none
step_count (some (n, b)) = some (n + 1, b)

acquire-failures :
    (n : ℕ) (rest : List Bool) (b : WaitBudget)
    → acquire (failures n ++ (true ∷ rest)) b ≡ some (n, iterate n (λ c. (step c).1) b)
unfolding acquire iterate
acquire-failures zero rest b = refl
acquire-failures (suc n) rest b =
    ap (λ o. elim o [ none ↦ none | some (m, c) ↦ some (m + 1, c) ])
      (acquire-failures n rest (step b).1)
    ∙ ap (λ m. some (m, iterate n (λ c. (step c).1) (step b).1)) (omega arith)

-- The lock is acquired by the first attempt that succeeds, after one step for each that failed: at most 128
-- spins and 8 yields, and spins for the rest.
pub acquire_lock_lem :
    (n : ℕ) (rest : List Bool)
    → acquire_lock_with_budget (failures n ++ (true ∷ rest))
      ≡ some (n, record hot { spins = min n 128; yields = min (n - 128) 8 })
unfolding acquire_lock_with_budget
acquire_lock_lem n rest =
    acquire-failures n rest hot
    ∙ ap (λ b. some (n, b))
        (iterate-step n hot (record {
          spun = omega arith;
          yielded = omega arith;
          spin_fits = omega arith;
          yield_fits = omega arith;
        })
          ∙ spent_hot)
  where
    spent_hot : spent n hot ≡ record hot { spins = min n 128; yields = min (n - 128) 8 }
    spent_hot = ground arith
