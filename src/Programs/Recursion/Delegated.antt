-- ===== src/Programs/Recursion/Delegated.antt =====
-- src/examples/recursive_apply.rs: the call of the test, from the thread of `main`.
use mathlib.Core.Option
use trust_tee.Prelude.{ℕ, ◌+◌, ◌^◌, ◌<◌, ◌≡◌, ap, ◌∙◌, Bool, true, false, List, some}
use trust_tee.Memory.{Repr}
use trust_tee.Outcome.{ok}
use trust_tee.Closures.{returned, VTables}
use trust_tee.Channel.{Link, Event, first_served}
use trust_tee.Remote.Client.{Thread, Remote, Closure, on_trustee}
use trust_tee.Remote.Operations.{apply}
use trust_tee.Remote.Delegate.{IsReady, outcome_of, observed}
use trust_tee.Remote.Linearize.{IsDeliverable, apply_linearizes}
use trust_tee.Programs.Recursion.{add_one, with_prop, recursive, recursive_lem}

module _ {F : Type 0} (vtables : VTables ℕ) (repr : Repr ℕ) (events inner_events : List (Event ℕ))
    (worker client : Thread) (remote : Remote) (inner : Closure (Unit {0}) ℕ (Unit {0}))
    (outer : Closure F ℕ ℕ) (f : F) (inner_link l : Link ℕ) (overflow_checks : Bool) where
  -- A closure that `main` delegates, and that applies another one to the same trust on the worker's thread, does
  -- not lock the worker up: if the worker comes to the call, then it is answered, with both increments,
  -- from what the property was then; the inner call needs no event. The sum must not overflow.
  pub recursive_apply_lem :
      (t : ℕ)
      → on_trustee worker remote ≡ true
      → ((u : ℕ) → inner.run tt u ≡ add_one overflow_checks tt u)
      → ((v : ℕ) (l' : Link ℕ)
          → recursive vtables repr inner_events worker remote inner overflow_checks
              (with_prop inner_link t)
            ≡ ok (some (v, l'))
          → outer.run f t ≡ returned l'.port.prop v)
      → on_trustee client remote ≡ false
      → client.is_trustee ≡ false
      → IsDeliverable vtables outer l.port.chan
      → IsReady l
      → first_served events l.port.prop ≡ some t
      → t + 2 < 2 ^ 64
      → observed (apply vtables repr events outer f client remote l) ≡ ok (some (t + 2, t + 2))
  unfolding outcome_of Option.bind
  recursive_apply_lem t here runs body away blocking d r turn few =
      let ran = body (t + 2) (with_prop inner_link (t + 2)) (
        recursive_lem vtables repr inner_events worker remote inner overflow_checks here runs
          (with_prop inner_link t) few) in
      apply_linearizes vtables repr events outer f client remote l away blocking d r
      ∙ ap (λ o. ok (Option.bind o (λ u. outcome_of (outer.run f u)))) turn
      ∙ ap (λ x. ok (outcome_of x)) ran
