-- ===== src/Programs/Recursion.antt =====
-- src/examples/recursive_apply.rs: closures that run on the trustee's thread and apply closures to the same trust.
-- The property is a `usize`, its 64 bits.
pub mod Delegated
use mathlib.Core.Option
use trust_tee.Prelude.{
  ℕ, zero, suc, ◌+◌, ◌-◌, ◌^◌, ◌%◌, ◌<◌, ◌≡◌, refl, ap, ◌∙◌, Bool, true, ◌&&◌, ◌==◌, List, Option,
  none, some, if◌then◌else◌, arith,
}
use trust_tee.Memory.{Repr}
use trust_tee.Outcome.{Outcome, ok, ◌>>=◌}
use trust_tee.Closures.{Ran, returned, panicked, VTables}
use trust_tee.Channel.{Link, Event}
use trust_tee.Remote.Client.{Thread, Remote, Closure, on_trustee, direct}
use trust_tee.Remote.Operations.{apply}

-- `|v| *v += 1`
unfoldable pub add_one : Bool → Unit {0} → ℕ → Ran ℕ (Unit {0})
add_one overflow_checks f v =
    if overflow_checks && v == 2 ^ 64 - 1 then panicked v else returned ((v + 1) % 2 ^ 64) tt

abbrev pub with_prop : Link ℕ → ℕ → Link ℕ
with_prop l t = record l { port = record l.port { prop = t } }

module _ (vtables : VTables ℕ) (repr : Repr ℕ) (events : List (Event ℕ)) (thread : Thread)
    (remote : Remote) (inner : Closure (Unit {0}) ℕ (Unit {0})) where
  -- What follows an `apply` of the inner closure.
  abbrev pub inner_apply : Link ℕ → Outcome (Option (Unit {0} × Link ℕ))
  inner_apply l = apply vtables repr events inner tt thread remote l

  -- The outer closure of the test: `*val += 1`, the recursive call, and `*val`.
  unfoldable pub recursive : Bool → Link ℕ → Outcome (Option (ℕ × Link ℕ))
  unfolding direct
  recursive overflow_checks l = do
    counted ← direct l (add_one overflow_checks tt l.port.prop)
    elim counted [
      | none ↦ ok none
      | some (u, l1) ↦ do done ← inner_apply l1; ok (Option.map (λ x. (x.1.port.prop, x.1)) done)
    ]

  -- The loop of the benchmark.
  unfoldable pub benchmark : ℕ → Link ℕ → Outcome (Option (Unit {0} × Link ℕ))
  benchmark zero l = ok (some (tt, l))
  benchmark (suc iters) l = do
    done ← inner_apply l
    elim done [ none ↦ ok none | some (u, l1) ↦ benchmark iters l1 ]

  module _ (overflow_checks : Bool) (here : on_trustee thread remote ≡ true)
      (runs : (t : ℕ) → inner.run tt t ≡ add_one overflow_checks tt t) where
    no_overflow : (t : ℕ) → t + 1 < 2 ^ 64 → add_one overflow_checks tt t ≡ returned (t + 1) tt
    unfolding add_one
    no_overflow t h = ground arith

    applied :
        (l : Link ℕ)
        → l.port.prop + 1 < 2 ^ 64
        → inner_apply l ≡ ok (some (tt, with_prop l (l.port.prop + 1)))
    unfolding apply direct
    applied l h = rw (here, runs l.port.prop ∙ no_overflow l.port.prop h) refl

    pub recursive_lem :
        (l : Link ℕ)
        → l.port.prop + 2 < 2 ^ 64
        → recursive overflow_checks l ≡ ok (some (l.port.prop + 2, with_prop l (l.port.prop + 2)))
    unfolding recursive direct
    recursive_lem l h =
        ap
          (λ r. direct l r >>= (λ o. elim o [
            | none ↦ ok none
            | some (u, l1) ↦
                inner_apply l1 >>= (λ done. ok (Option.map (λ x. (x.1.port.prop, x.1)) done))
          ]))
          (no_overflow l.port.prop (omega arith))
        ∙ ap (λ o. o >>= (λ done. ok (Option.map (λ x. (x.1.port.prop, x.1)) done)))
            (applied (with_prop l (l.port.prop + 1)) (omega arith))
        ∙ ap (λ t. ok (some (t, with_prop l t))) twice
      where
        twice : l.port.prop + 1 + 1 ≡ l.port.prop + 2
        twice = omega arith

    benchmark_lem :
        (iters : ℕ) (l : Link ℕ)
        → l.port.prop + iters < 2 ^ 64
        → benchmark iters l ≡ ok (some (tt, with_prop l (l.port.prop + iters)))
    unfolding benchmark
    benchmark_lem zero l k = ap (λ t. ok (some (tt, with_prop l t))) plain
      where
        plain : l.port.prop ≡ l.port.prop + 0
        plain = omega arith
    benchmark_lem (suc iters) l k =
        ap (λ o. o >>= (λ done. elim done [ none ↦ ok none | some (u, l1) ↦ benchmark iters l1 ]))
          (applied l (omega arith))
        ∙ benchmark_lem iters (with_prop l (l.port.prop + 1)) (omega arith)
        ∙ ap (λ t. ok (some (tt, with_prop l t))) shifted
      where
        shifted : l.port.prop + 1 + iters ≡ l.port.prop + suc iters
        shifted = omega arith

    -- On the thread of the worker the recursive call returns at once: the test gives two more than there was,
    -- and the benchmark adds its number of rounds, whatever events there are, and without one of them.
    pub recursion_returns :
        (l : Link ℕ) (iters : ℕ)
        → l.port.prop + 2 < 2 ^ 64
        → l.port.prop + iters < 2 ^ 64
        → (recursive overflow_checks l ≡ ok (some (l.port.prop + 2, with_prop l (l.port.prop + 2))))
          × (benchmark iters l ≡ ok (some (tt, with_prop l (l.port.prop + iters))))
    recursion_returns l iters h k = (recursive_lem l h, benchmark_lem iters l k)
