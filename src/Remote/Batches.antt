-- ===== src/Remote/Batches.antt =====
-- src/trust/remote.rs: `apply_batch_mut`, a function that is applied many times by one request.
use mathlib.Core.Option
use trust_tee.Prelude.{ℕ, zero, suc, ◌^◌, ◌≤◌, ◌<◌, ◌≡◌, refl, true, false, List, [], arith}
use trust_tee.Memory.{Repr, unit_repr}
use trust_tee.Outcome.{ok}
use trust_tee.Slots.{PropertyPtr, RequestRecordHeader, ChannelPair, trailing_bytes}
use trust_tee.Memory.{Memory}
use trust_tee.Serialization.{vtable_gen, decode_and_call}
use trust_tee.Closures.{Ran, returned, panicked, VTables}
use trust_tee.Runtime.Records.{call_repeated}
use trust_tee.Channel.{Link, Event, serve, run_event, first_served}
use trust_tee.Remote.Client.{Thread, Remote, Closure, Request, on_trustee, run_repeated}
use trust_tee.Remote.Operations.{apply_batch_mut}
use trust_tee.Remote.Post.{IsPlaced, InSlot, post-fits, posted-decode, record_header, posted}
use trust_tee.Remote.Delegate.{IsReady, outcome_of, observed, observed-delegate, waiting, after_run}
use trust_tee.Remote.Executes.{visited-unit}

-- The function pointer fits the trailing block.
pub record IsDeliverableUnit {F T : Type 0} (vtables : VTables T) (k : Closure F T (Unit {0}))
    (c : ChannelPair) : Type 0 where
  pub aligned : k.repr.align_log ≤ 7
  pub small : k.repr.size ≤ trailing_bytes
  pub placed : IsPlaced c k.vtable
  pub compiled : vtables.call_mut k.vtable ≡ vtable_gen k.repr k.run

-- The trustee's loop over the vtable call is the loop over the function.
call_repeated-run_repeated :
    {T : Type 0} (vtables : VTables T) (hdr : RequestRecordHeader) (m : Memory)
    (g : T → Ran T (Unit {0}))
    → ((t : T) → decode_and_call vtables.call_mut hdr m t ≡ g t)
    → (n : ℕ) (t : T) → call_repeated vtables hdr m n t ≡ run_repeated g n t
unfolding call_repeated run_repeated
call_repeated-run_repeated vtables hdr m g once zero t = refl
call_repeated-run_repeated {T} vtables hdr m g once (suc n) t =
    rw (call_repeated, once t) (step (call_repeated-run_repeated vtables hdr m g once n) (g t))
  where
    step :
        ((u : T) → call_repeated vtables hdr m n u ≡ run_repeated g n u)
        → (ran : Ran T (Unit {0}))
        → (elim ran [
          | returned t' _ ↦ call_repeated vtables hdr m n t'
          | panicked t' ↦ panicked t'
        ])
          ≡ (elim ran [ returned t' _ ↦ run_repeated g n t' | panicked t' ↦ panicked t' ])
    step rest (returned t' u) = rest t'
    step rest (panicked t') = refl

module _ {F T : Type 0} (vtables : VTables T) (repr : Repr T) (events : List (Event T))
    (k : Closure F T (Unit {0})) (f : F) (thread : Thread) (remote : Remote) (n : ℕ) (l : Link T)
    (few : n < 2 ^ 32) (d : IsDeliverableUnit vtables k l.port.chan) (r : IsReady l) where
  abbrev batch_request : Request F
  batch_request = record {
    property = PropertyPtr.call_mut_ret_unit;
    repr = k.repr;
    vtable = k.vtable;
    value = f;
    args = [];
    repeat = n;
  }

  in_slot : InSlot batch_request l.port.chan
  in_slot = post-fits batch_request l.port.chan d.aligned (omega (arith, d.small))

  visited :
      (t : T)
      → run_event vtables repr serve (
          waiting vtables repr batch_request unit_repr
            (run_repeated (k.run f) n)
            true
            l
            in_slot
            r
            t)
        ≡ after_run vtables repr batch_request unit_repr
            (run_repeated (k.run f) n)
            true
            l
            in_slot
            r
            (run_repeated (k.run f) n t)
  visited =
      visited-unit vtables repr batch_request l in_slot r d.placed few (run_repeated (k.run f) n)
        refl
        (call_repeated-run_repeated vtables (record_header batch_request l.port.chan in_slot)
          (posted batch_request l.port.chan in_slot).bytes (k.run f)
          (λ t. posted-decode batch_request l.port.chan in_slot vtables.call_mut k.run t d.compiled)
          n)

  -- Away from any trustee thread, on a ready link, and for a function that fits the request slot,
  -- `apply_batch_mut` with a count below 2^32 applies the function that many times to the property
  -- as it stands when the worker first visits, with nothing in between; without a visit, or if a
  -- call panics, it waits.
  pub apply_batch_mut_linearizes :
      on_trustee thread remote ≡ false
      → thread.is_trustee ≡ false
      → observed (apply_batch_mut vtables repr events k f thread remote n l)
        ≡ ok (
            Option.bind
              (first_served events l.port.prop)
              (λ t. outcome_of (run_repeated (k.run f) n t)))
  unfolding apply_batch_mut
  apply_batch_mut_linearizes away blocking = rw (
    away,
    blocking,
    observed-delegate vtables repr batch_request unit_repr (run_repeated (k.run f) n) true l in_slot
        r visited events,
  )
