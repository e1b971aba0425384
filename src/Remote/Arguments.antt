-- ===== src/Remote/Arguments.antt =====
-- src/trust/remote.rs: `apply_with`, a closure and a serialized argument.
use mathlib.Core.Option
use trust_tee.Prelude.{ℕ, ◌+◌, ◌-◌, ◌≤◌, ◌≡◌, refl, ap, ◌∙◌, true, false, List, length, some, arith}
use trust_tee.Memory.{Repr}
use trust_tee.Bincode.{Bincode}
use trust_tee.Outcome.{ok}
use trust_tee.Slots.{PropertyPtr, ChannelPair, slot_bytes, trailing_bytes, header_bytes}
use trust_tee.Serialization.{vtable_gen}
use trust_tee.Closures.{VTables}
use trust_tee.Runtime.Records.{args_of}
use trust_tee.Channel.{Link, Event, serve, run_event, first_served}
use trust_tee.Remote.Client.{
  Thread, Remote, ArgClosure, Request, on_trustee, expect, write_result, write_result_with,
}
use trust_tee.Remote.Operations.{apply_with}
use trust_tee.Remote.Post.{
  IsPlaced, InSlot, post-fits, posted-decode, posted-args, record_header, posted,
}
use trust_tee.Remote.Delegate.{IsReady, outcome_of, observed, observed-delegate, waiting, after_run}
use trust_tee.Remote.Executes.{visited-args_out}

-- The closure and the serialized argument fit the trailing block of the request slot together, and
-- the result the response slot.
pub record IsDeliverableWith {F V T R : Type 0} (vtables : VTables T) (bincode : Bincode V)
    (k : ArgClosure F V T R) (c : ChannelPair) (bytes : List ℕ) : Type 0 where
  pub aligned : k.repr.align_log ≤ 7
  pub small : k.repr.size + length bytes ≤ trailing_bytes
  pub result_small : k.result.size ≤ slot_bytes - header_bytes
  pub placed : IsPlaced c k.vtable
  pub compiled :
      vtables.call_mut_args_out k.vtable
      ≡ vtable_gen k.repr (write_result_with bincode k.result k.run)

module _ {F V T R : Type 0} (vtables : VTables T) (repr : Repr T) (events : List (Event T))
    (bincode : Bincode V) (k : ArgClosure F V T R) (f : F) (thread : Thread) (remote : Remote)
    (w : V) (bytes : List ℕ) (l : Link T) (serialized : bincode.serialize w ≡ some bytes)
    (d : IsDeliverableWith vtables bincode k l.port.chan bytes) (r : IsReady l) where
  abbrev with_request : Request F
  with_request = record {
    property = PropertyPtr.call_mut_args_out_ptr;
    repr = k.repr;
    vtable = k.vtable;
    value = f;
    args = bytes;
    repeat = 1;
  }

  in_slot : InSlot with_request l.port.chan
  in_slot = post-fits with_request l.port.chan d.aligned d.small

  decoded :
      (t : T)
      → write_result_with bincode k.result k.run f (
        t,
        args_of
            (posted with_request l.port.chan in_slot)
            (record_header with_request l.port.chan in_slot),
      )
        ≡ write_result k.result (k.run f t w)
  unfolding write_result_with
  decoded t =
      ap (λ bs. write_result_with bincode k.result k.run f (t, bs))
        (posted-args with_request l.port.chan in_slot)
      ∙ rw (write_result_with, bincode.round_trip w bytes serialized)

  visited :
      (t : T)
      → run_event vtables repr serve
          (waiting vtables repr with_request k.result (λ t. k.run f t w) true l in_slot r t)
        ≡ after_run vtables repr with_request k.result
            (λ t. k.run f t w)
            true
            l
            in_slot
            r
            (k.run f t w)
  visited =
      visited-args_out vtables repr with_request l in_slot r d.placed (omega arith) k.result
        (λ t. k.run f t w) refl
        (λ t.
          posted-decode with_request l.port.chan in_slot vtables.call_mut_args_out
            (write_result_with bincode k.result k.run) _ d.compiled
          ∙ decoded t)

  -- Away from any trustee thread, on a ready link, for an argument that the serializer accepts,
  -- and a closure that fits the slots together with the serialized argument, `apply_with` gives
  -- the result of the closure on the argument, as it was before it was serialized, and on the
  -- property as it stands when the worker first visits; without a visit, or if the closure panics,
  -- it waits.
  pub apply_with_linearizes :
      on_trustee thread remote ≡ false
      → thread.is_trustee ≡ false
      → observed (apply_with vtables repr events bincode k f thread remote w l)
        ≡ ok (Option.bind (first_served events l.port.prop) (λ t. outcome_of (k.run f t w)))
  unfolding apply_with expect
  apply_with_linearizes away blocking = rw (
    away,
    blocking,
    serialized,
    observed-delegate vtables repr with_request k.result (λ t. k.run f t w) true l in_slot r visited
        events,
  )
