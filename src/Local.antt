-- ===== src/Local.antt =====
-- src/trust/local.rs: the trust whose property is used on the caller's thread. An operation takes the
-- property and returns it as the operation leaves it.
pub mod Agree
use trust_tee.Prelude.{ℕ}
use trust_tee.Outcome.{Panic, Outcome, ok, panic, ◌>>=◌}
use trust_tee.Closures.{Ran, returned, panicked}
use trust_tee.Remote.Client.{run_repeated}

module _ {T : Type 0} where
  -- A closure that was called with the property; its panic unwinds into the caller.
  unfoldable pub called : {R : Type 0} → Ran T R → Outcome (R × T)
  called (returned t r) = ok (r, t)
  called (panicked t) = panic Panic.user_panic

  unfoldable pub apply : {R : Type 0} → (T → Ran T R) → T → Outcome (R × T)
  unfolding called
  apply f t = called (f t)

  unfoldable pub apply_then : {R E : Type 0} → (T → Ran T R) → (R → E) → T → Outcome (E × T)
  unfolding apply
  apply_then f next t = do (r, t') ← apply f t; ok (next r, t')

  -- The argument is not serialized.
  unfoldable pub apply_with : {V R : Type 0} → (T → V → Ran T R) → V → T → Outcome (R × T)
  unfolding called
  apply_with f w t = called (f t w)

  unfoldable pub with : {R : Type 0} → (T → Ran T R) → T → Outcome (R × T)
  unfolding called
  with f t = called (f t)

  unfoldable pub apply_batch_mut : (T → Ran T (Unit {0})) → ℕ → T → Outcome (Unit {0} × T)
  unfolding called
  apply_batch_mut f n t = called (run_repeated f n t)

  -- The closure runs on a scoped fiber, which is joined at once; the join of a fiber that panicked panics.
  unfoldable pub launch : {R : Type 0} → (T → Ran T R) → T → Outcome (R × T)
  unfolding called
  launch f t = called (f t)

  unfoldable pub launch_then : {R E : Type 0} → (T → Ran T R) → (R → E) → T → Outcome (E × T)
  unfolding launch
  launch_then f next t = do (r, t') ← launch f t; ok (next r, t')

  unfoldable pub entrust : T → T
  entrust value = value

  pub into_inner : T → T
  into_inner t = t
