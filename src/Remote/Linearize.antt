-- ===== src/Remote/Linearize.antt =====
-- src/trust/remote.rs: `apply` and `with`, as the client sees them.
use mathlib.Core.Option
use trust_tee.Prelude.{◌-◌, ◌≤◌, ◌≡◌, refl, true, false, List, Option, none, some, arith}
use trust_tee.Memory.{Repr}
use trust_tee.Outcome.{Outcome, panic, ok}
use trust_tee.Slots.{PropertyPtr, ChannelPair, slot_bytes, trailing_bytes, header_bytes}
use trust_tee.Serialization.{vtable_gen}
use trust_tee.Closures.{VTables}
use trust_tee.Channel.{Link, Event, serve, run_event, first_served}
use trust_tee.Remote.Client.{Thread, Remote, Closure, Request, on_trustee, write_result, delegate}
use trust_tee.Remote.Operations.{request, apply, with}
use trust_tee.Remote.Post.{IsPlaced, InSlot, post-fits, posted-decode}
use trust_tee.Remote.Delegate.{
  IsReady, outcome_of, delegate_lem, observed, observed-delegate, result_link, result_link-IsReady,
  waiting, after_run,
}
use trust_tee.Remote.Executes.{visited-out}

-- The closure fits the trailing block of the request slot and its result the response slot, and the
-- vtable at its address is the one that the compiler generates for the closure that wraps it.
pub record IsDeliverable {F T R : Type 0} (vtables : VTables T) (k : Closure F T R)
    (c : ChannelPair) : Type 0 where
  pub aligned : k.repr.align_log ≤ 7
  pub small : k.repr.size ≤ trailing_bytes
  pub result_small : k.result.size ≤ slot_bytes - header_bytes
  pub placed : IsPlaced c k.vtable
  pub compiled :
      vtables.call_mut_out k.vtable ≡ vtable_gen k.repr (λ f t. write_result k.result (k.run f t))

-- A call from `l` does not panic, and leaves a ready link over the same memory if it returns.
abbrev pub StaysReady : {T R : Type 0} → Link T → Outcome (Option (R × Link T)) → Type 0
StaysReady l (ok none) = Unit {0}
StaysReady l (ok (some (x, l'))) = IsReady l' × (l'.port.chan.base ≡ l.port.chan.base)
StaysReady l (panic p) = ⊥

module _ {F T R : Type 0} (vtables : VTables T) (repr : Repr T) (events : List (Event T))
    (k : Closure F T R) (f : F) (thread : Thread) (remote : Remote) (l : Link T) where
  abbrev out_request : Request F
  out_request = request vtables repr events k f thread remote PropertyPtr.call_mut_out_ptr

  in_slot : IsDeliverable vtables k l.port.chan → InSlot out_request l.port.chan
  in_slot d = post-fits out_request l.port.chan d.aligned (omega (arith, d.small))

  visited :
      (d : IsDeliverable vtables k l.port.chan) (r : IsReady l) (t : T)
      → run_event vtables repr serve
          (waiting vtables repr out_request k.result (k.run f) true l (in_slot d) r t)
        ≡ after_run vtables repr out_request k.result (k.run f) true l (in_slot d) r (k.run f t)
  visited d r =
      visited-out vtables repr out_request l (in_slot d) r d.placed (omega arith) k.result (k.run f)
        refl
        (λ t.
          posted-decode out_request l.port.chan (in_slot d) vtables.call_mut_out
            (λ g u. write_result k.result (k.run g u)) t d.compiled)

  delegated :
      (d : IsDeliverable vtables k l.port.chan) (r : IsReady l)
      → delegate vtables repr events out_request k.result l
        ≡ ok (
            Option.map
              (result_link vtables repr out_request k.result (k.run f) true l (in_slot d) r)
              (Option.bind (first_served events l.port.prop) (λ t. outcome_of (k.run f t))))
  delegated d r =
      delegate_lem vtables repr out_request k.result (k.run f) true l (in_slot d) r (visited d r)
        events

  observed-delegated :
      IsDeliverable vtables k l.port.chan
      → IsReady l
      → observed (delegate vtables repr events out_request k.result l)
        ≡ ok (Option.bind (first_served events l.port.prop) (λ t. outcome_of (k.run f t)))
  observed-delegated d r =
      observed-delegate vtables repr out_request k.result (k.run f) true l (in_slot d) r
        (visited d r) events

  -- Away from any trustee thread, on a ready link, and for a closure that fits the slots with its
  -- result, `apply` gives the result of the closure on the property as it stands when the worker
  -- first visits the channel, and leaves the property as the closure did, whatever the other
  -- clients do before; without a visit, or if the closure panics, it waits.
  pub apply_linearizes :
      on_trustee thread remote ≡ false
      → thread.is_trustee ≡ false
      → IsDeliverable vtables k l.port.chan
      → IsReady l
      → observed (apply vtables repr events k f thread remote l)
        ≡ ok (Option.bind (first_served events l.port.prop) (λ t. outcome_of (k.run f t)))
  unfolding apply
  apply_linearizes away blocking d r = rw (away, blocking, observed-delegated d r)

  -- Off the trustee's own thread, also on the thread of another trustee, on a ready link, and for
  -- a closure that fits the slots with its result, `with` gives the result of the closure on the
  -- property as it stands when the worker first visits the channel; without a visit, or if the
  -- closure panics, it waits.
  pub with_linearizes :
      on_trustee thread remote ≡ false
      → IsDeliverable vtables k l.port.chan
      → IsReady l
      → observed (with vtables repr events k f thread remote l)
        ≡ ok (Option.bind (first_served events l.port.prop) (λ t. outcome_of (k.run f t)))
  unfolding with
  with_linearizes away d r = rw (away, observed-delegated d r)

  -- Away from any trustee thread, on a ready link, and for a closure that fits the slots with its
  -- result, `apply` does not panic, and if it returns, its link is ready for the next operation,
  -- over the same memory.
  pub apply-IsReady :
      on_trustee thread remote ≡ false
      → thread.is_trustee ≡ false
      → IsDeliverable vtables k l.port.chan
      → IsReady l
      → StaysReady l (apply vtables repr events k f thread remote l)
  unfolding apply
  apply-IsReady away blocking d r =
      rw (away, blocking, delegated d r)
        (go (Option.bind (first_served events l.port.prop) (λ t. outcome_of (k.run f t))))
    where
      go :
          (o : Option (R × T))
          → StaysReady l (
              ok (
                Option.map
                  (result_link vtables repr out_request k.result (k.run f) true l (in_slot d) r)
                  o))
      go none = tt
      go (some (y, t)) =
          let s =
            result_link-IsReady vtables repr out_request k.result (k.run f) true l (in_slot d) r y t
              refl in
          (s.0, s.1)
