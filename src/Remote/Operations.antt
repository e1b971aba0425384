-- ===== src/Remote/Operations.antt =====
-- src/trust/remote.rs: the operations. Each takes the thread that calls it, the handle, the state that
-- it shares with the worker, and the events while it waits; its result is `none` if it still waits
-- when the events end.
use mathlib.Core.Option
use trust_tee.Prelude.{ℕ, List, [], Option, some, true, if◌then◌else◌}
use trust_tee.Memory.{Repr, unit_repr}
use trust_tee.Bincode.{Bincode}
use trust_tee.Outcome.{Panic, Outcome, ok, panic, ◌>>=◌}
use trust_tee.Slots.{PropertyPtr, new_channel}
use trust_tee.Closures.{VTables}
use trust_tee.Util.Affinity.Pinning.{PinConfig}
use trust_tee.Runtime.Worker.{Worker}
use trust_tee.Runtime.Handles.{spawn, spawn_with_pin, client_seat}
use trust_tee.Channel.{Link, Event}
use trust_tee.Remote.Client.{
  Thread, Remote, Closure, ArgClosure, Request, on_trustee, expect, run_repeated, direct, delegate,
}

module _ {T : Type 0} (vtables : VTables T) (repr_t : Repr T) (events : List (Event T)) where
  -- `FnOnce(&mut T, V) -> R`: the wrapping closure deserializes its argument on the trustee.
  module _ {F V R : Type 0} (bincode : Bincode V) (k : ArgClosure F V T R) (f : F) where
    unfoldable pub apply_with : Thread → Remote → V → Link T → Outcome (Option (R × Link T))
    unfolding on_trustee direct delegate expect
    apply_with thread remote w l =
        if on_trustee thread remote
        then direct l (k.run f l.port.prop w)
        else if thread.is_trustee
        then panic Panic.blocking_on_trustee
        else do
          args ← expect (bincode.serialize w) Panic.not_serialized
          delegate vtables repr_t events
              (record {
                property = PropertyPtr.call_mut_args_out_ptr;
                repr = k.repr;
                vtable = k.vtable;
                value = f;
                args = args;
                repeat = 1;
              })
              k.result l

  -- `f: fn(&mut T)`, and how often it is applied.
  unfoldable pub apply_batch_mut :
      {F : Type 0}
      → Closure F T (Unit {0})
      → F
      → Thread
      → Remote
      → ℕ
      → Link T
      → Outcome (Option (Unit {0} × Link T))
  unfolding on_trustee direct delegate run_repeated
  apply_batch_mut k f thread remote n l =
      if on_trustee thread remote
      then direct l (run_repeated (k.run f) n l.port.prop)
      else if thread.is_trustee
      then panic Panic.blocking_on_trustee
      else delegate vtables repr_t events
          (record {
            property = PropertyPtr.call_mut_ret_unit;
            repr = k.repr;
            vtable = k.vtable;
            value = f;
            args = [];
            repeat = n;
          })
          unit_repr l

  -- The closure that is encoded has no size and is never called.
  unfoldable pub into_inner : ℕ → Thread → Remote → Link T → Outcome (Option (T × Link T))
  unfolding delegate
  into_inner vtable thread remote l =
      if thread.is_trustee
      then panic Panic.blocking_on_trustee
      else if remote.owner
      then delegate vtables repr_t events
          (record {
            property = PropertyPtr.into_inner;
            repr = unit_repr;
            vtable = vtable;
            value = tt;
            args = [];
            repeat = 1;
          })
          repr_t l
      else panic Panic.not_owned

  -- The first handle of a runtime whose worker starts as `w`, on the channel at `base`.
  unfoldable pub first_link : Worker T → ℕ → Link T
  unfolding client_seat
  first_link w base =
      let first = client_seat (new_channel base) in
      record {
        port = record { client = first.client; chan = first.chan; prop = w.prop; jobs = w.jobs };
        running = true;
      }

  -- A runtime of its own, and its first handle.
  unfoldable pub entrust : ℕ → T → Link T
  unfolding spawn first_link
  entrust base value = first_link (spawn value base).0 base

  -- `Trust::<Remote<T>>::entrust_with_pin`
  unfoldable pub entrust_with_pin : ℕ → T → PinConfig → Link T
  unfolding spawn_with_pin first_link
  entrust_with_pin base value pin = first_link (spawn_with_pin value 64 (some pin) base).0 base

  module _ {F R : Type 0} (k : Closure F T R) (f : F) (thread : Thread) (remote : Remote) where
    abbrev pub request : PropertyPtr → Request F
    request property = record {
      property = property;
      repr = k.repr;
      vtable = k.vtable;
      value = f;
      args = [];
      repeat = 1;
    }

    unfoldable pub apply : Link T → Outcome (Option (R × Link T))
    unfolding on_trustee direct delegate
    apply l =
        if on_trustee thread remote
        then direct l (k.run f l.port.prop)
        else if thread.is_trustee
        then panic Panic.blocking_on_trustee
        else delegate vtables repr_t events (request PropertyPtr.call_mut_out_ptr) k.result l

    unfoldable pub with : Link T → Outcome (Option (R × Link T))
    unfolding on_trustee direct delegate
    with l =
        if on_trustee thread remote
        then direct l (k.run f l.port.prop)
        else delegate vtables repr_t events (request PropertyPtr.call_mut_out_ptr) k.result l

    unfoldable pub launch : Link T → Outcome (Option (R × Link T))
    unfolding delegate
    launch l = delegate vtables repr_t events (request PropertyPtr.launch) k.result l

    -- The continuation runs at once, on the caller's thread; its result stands for its effect.
    unfoldable pub apply_then : {E : Type 0} → (R → E) → Link T → Outcome (Option (E × Link T))
    unfolding apply
    apply_then next l = do done ← apply l; ok (Option.map (λ r. (next r.0, r.1)) done)

    unfoldable pub launch_then : {E : Type 0} → (R → E) → Link T → Outcome (Option (E × Link T))
    unfolding launch
    launch_then next l = do done ← launch l; ok (Option.map (λ r. (next r.0, r.1)) done)
