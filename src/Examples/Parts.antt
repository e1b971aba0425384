-- ===== src/Examples/Parts.antt =====
-- The wait budget.
use trust_tee.Prelude.{◌++◌, ◌≡◌, true, false, [], ◌∷◌, some, arith, iterate}
use trust_tee.Util.Wait.{
  hot, step, failures, acquire_lock_with_budget, iterate-step, acquire_lock_lem,
}

iterate-step_example :
    iterate 130 (λ c. (step c).1) hot
    ≡ record { spins = 128; yields = 2; spin_cap = 128; yield_cap = 8 }
iterate-step_example = iterate-step 130 hot (record {
  spun = omega arith;
  yielded = omega arith;
  spin_fits = omega arith;
  yield_fits = omega arith;
})

acquire_lock_lem_example :
    acquire_lock_with_budget (failures 2 ++ (true ∷ false ∷ []))
    ≡ some (2, record { spins = 2; yields = 0; spin_cap = 128; yield_cap = 8 })
acquire_lock_lem_example = acquire_lock_lem 2 (false ∷ [])
