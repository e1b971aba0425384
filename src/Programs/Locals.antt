-- ===== src/Programs/Locals.antt =====
-- src/examples/local_trustee.rs and src/examples/latch.rs: programs on one thread. A program that runs through is
-- `ok`; an assertion that fails panics.
use trust_tee.Prelude.{ℕ, ◌+◌, ◌^◌, ◌%◌, Bool, List, [], ◌∷◌, ◌++◌, length, ◌==◌, if◌then◌else◌}
use trust_tee.Outcome.{Outcome, Panic, ok, panic, ◌>>=◌}
use trust_tee.Closures.{Ran, returned, panicked}
use trust_tee.Local
use trust_tee.Latch
use trust_tee.Programs.Counter.{incr}
use trust_tee.Programs.Recursion.{add_one}

-- `assert_eq!`
abbrev pub assert_eq : ℕ → ℕ → Outcome (Unit {0})
assert_eq v w = if v == w then ok tt else panic Panic.user_panic

abbrev read : {T : Type 0} → T → Ran T T
read c = returned c c

-- `|c| { *c += 1; *c }`
abbrev incr_read : Bool → ℕ → Ran ℕ ℕ
incr_read overflow_checks c = elim (incr overflow_checks tt c) [
  | returned c' u ↦ returned c' c'
  | panicked c' ↦ panicked c'
]

-- What the program prints as the final value.
unfoldable pub local_trustee : Bool → Outcome ℕ
unfolding incr Local.entrust Local.apply Local.apply_then
local_trustee overflow_checks = do
  (u1, c1) ← Local.apply (incr overflow_checks tt) (Local.entrust 17)
  (u2, c2) ← Local.apply (incr overflow_checks tt) c1
  (v, c3) ← Local.apply read c2
  u3 ← assert_eq v 19
  (done, c4) ← Local.apply_then (incr_read overflow_checks) (λ v. assert_eq v 20) c3
  u4 ← done
  (final_v, c5) ← Local.apply read c4
  ok final_v

-- A critical section as a closure on the latch.
abbrev section : {U R : Type 0} → (U → Ran U R) → Latch.Latch U → Ran (Latch.Latch U) R
section f l =
    let r = Latch.lock_apply f l in elim r.0 [ ok v ↦ returned r.1 v | panic p ↦ panicked r.1 ]

abbrev extend : List ℕ → List ℕ → Ran (List ℕ) ℕ
extend more v = returned (v ++ more) (length (v ++ more))

-- The sum of bytes as a `u32`, without overflow checks.
abbrev sum : List ℕ → ℕ
sum [] = 0
sum (x ∷ xs) = (x + sum xs) % 2 ^ 32

unfoldable pub latch : Bool → Outcome (Unit {0})
unfolding add_one Local.entrust Local.apply Latch.new Latch.lock_apply Latch.lock_apply_then
    Latch.lock_apply_with Latch.lock_with
latch overflow_checks = do
  (u1, l1) ← Local.apply (section (add_one overflow_checks tt)) (Local.entrust (Latch.new 0))
  (v, l2) ← Local.apply (section read) l1
  u2 ← assert_eq v 1
  len ← (Latch.lock_apply (λ v. extend (20 ∷ []) (v ++ (10 ∷ []))) (Local.entrust (Latch.new []))).0
  u3 ← assert_eq len 2
  let then_observed =
      Latch.lock_apply_then (extend (1 ∷ 2 ∷ 3 ∷ 4 ∷ [])) (λ l. l) (Local.entrust (Latch.new []))
  observed ← then_observed.0
  u4 ← assert_eq observed 4
  let with_pushed = Latch.lock_apply_with (λ v to_add. extend to_add v) (9 ∷ 9 ∷ []) then_observed.1
  pushed ← with_pushed.0
  u5 ← assert_eq pushed 6
  total ← (Latch.lock_with (λ v. returned v (sum v)) with_pushed.1).0
  assert_eq total 28
