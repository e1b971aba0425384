-- ===== src/Remote/Moves.antt =====
-- src/trust/remote.rs: `into_inner`.
use mathlib.Core.Option
use trust_tee.Prelude.{
  ℕ, ◌-◌, ◌≤◌, ◌≡◌, refl, ap, Bool, true, false, List, [], Option, none, some, arith,
}
use trust_tee.Memory.{Repr, unit_repr}
use trust_tee.Outcome.{Outcome, ok, panic}
use trust_tee.Slots.{PropertyPtr, slot_bytes, header_bytes}
use trust_tee.Closures.{returned, VTables}
use trust_tee.Channel.{Link, Event, first_served}
use trust_tee.Remote.Client.{Thread, Remote, Request}
use trust_tee.Remote.Operations.{into_inner}
use trust_tee.Remote.Post.{IsPlaced, InSlot, post-fits}
use trust_tee.Remote.Delegate.{IsReady, outcome_of, delegate_lem, result_link, after_run}
use trust_tee.Remote.Executes.{visited-into_inner}

-- The result, and whether the worker still runs.
abbrev pub left_behind : {T : Type 0} → Outcome (Option (T × Link T)) → Outcome (Option (T × Bool))
left_behind (ok o) = ok (Option.map (λ x. (x.0, x.1.running)) o)
left_behind (panic p) = panic p

module _ {T : Type 0} (vtables : VTables T) (repr : Repr T) (events : List (Event T)) (vtable : ℕ)
    (thread : Thread) (remote : Remote) (l : Link T) (placed : IsPlaced l.port.chan vtable)
    (r : IsReady l) where
  abbrev move_request : Request (Unit {0})
  move_request = record {
    property = PropertyPtr.into_inner;
    repr = unit_repr;
    vtable = vtable;
    value = tt;
    args = [];
    repeat = 1;
  }

  in_slot : InSlot move_request l.port.chan
  in_slot = post-fits move_request l.port.chan (omega arith) (omega arith)

  seen_left :
      (o : Option T)
      → Option.map {B = T × Bool}
          (λ x. (x.0, x.1.running))
          (Option.map {B = T × Link T}
            (result_link vtables repr move_request repr (λ u. returned u u) false l in_slot r)
            (Option.bind o (λ t. outcome_of (returned t t))))
        ≡ Option.map {B = T × Bool} (λ t. (t, false)) o
  unfolding result_link outcome_of after_run Option.bind
  seen_left none = refl
  seen_left (some t) = refl

  -- Away from any trustee thread, on a ready link, and for a property that fits the response slot, `into_inner` of a handle that owns the
  -- worker returns the property as it stands when the worker first visits the channel, and then
  -- the worker has ended; without a visit, it waits.
  pub into_inner_moves :
      repr.size ≤ slot_bytes - header_bytes
      → thread.is_trustee ≡ false
      → remote.owner ≡ true
      → left_behind (into_inner vtables repr events vtable thread remote l)
        ≡ ok (Option.map (λ t. (t, false)) (first_served events l.port.prop))
  unfolding into_inner
  into_inner_moves small blocking owned =
      rw
        (
          blocking,
          owned,
          delegate_lem vtables repr move_request repr (λ u. returned u u) false l in_slot r
              (visited-into_inner vtables repr move_request l in_slot r placed (omega arith) refl)
              events,
        )
        (ap ok (seen_left (first_served events l.port.prop)))
