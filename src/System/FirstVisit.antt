-- ===== src/System/FirstVisit.antt =====
-- src/runtime/runtime.rs and src/trust/remote.rs: where the call of a client is visited first.
use trust_tee.Prelude.{ℕ, ◌≡◌, sym, ap, ◌∙◌, inl, inr, Bool, false, [], some}
use trust_tee.Memory.{Repr}
use trust_tee.Outcome.{ok}
use trust_tee.Slots.{PropertyPtr, ChannelPair}
use trust_tee.Closures.{returned, VTables}
use trust_tee.Runtime.Worker.{Seat}
use trust_tee.Channel.{Link, Event, run_event, first_served}
use trust_tee.Remote.Client
use trust_tee.Remote.Client.{
  hdr_offset, payload_writer, Thread, Remote, Closure, Request, on_trustee, post, delegate,
  await_result, read_result,
}
use trust_tee.Remote.Operations.{request}
use trust_tee.Remote.Delegate.{IsReady}
use trust_tee.Remote.Linearize.{IsDeliverable}
use trust_tee.System.{System, link_of, run_events}
use trust_tee.System.Watched.{Watched}
use trust_tee.System.Visited.{
  VisitedOn, at_prop, run_events-unserved, first_served-unserved, visited_once,
}

module _ {T : Type 0} (vtables : VTables T) (repr : Repr T) where
  module _ {F R : Type 0} (k : Closure F T R) (f : F) (thread : Thread) (remote : Remote) where
    -- The first visit that the client has seen.
    pub first_visit :
        {i : ℕ} (s s' : System T) (b : Seat) (l : Link T) (seen : Watched vtables repr i s s' b)
        (c : ChannelPair) (t : T) (x : R × T) (req_ready : Bool)
        → link_of s b ≡ record l { port = record l.port { chan = c } }
        → first_served seen.events l.port.prop ≡ some t
        → on_trustee thread remote ≡ false
        → thread.is_trustee ≡ false
        → IsDeliverable vtables k l.port.chan
        → IsReady l
        → Client.post
            (request vtables repr [] k f thread remote PropertyPtr.call_mut_out_ptr)
            l.port.chan
          ≡ ok (req_ready, c)
        → k.run f t ≡ returned x.1 x.0
        → VisitedOn vtables repr i s s' c t x.1
    first_visit {i} s s' b l seen c t x req_ready starts served away blocking d r posts ran =
        elim seen.visits [
          | inr quiet ↦
              cc (served, first_served-unserved vtables repr seen.events l.port.prop quiet)
          | inl v ↦
              let here : link_of v.before v.seat
                  ≡ at_prop vtables repr t (record l { port = record l.port { chan = c } }) =
                v.ran
                ∙ ap (run_events vtables repr v.earlier) starts
                ∙ run_events-unserved vtables repr v.earlier v.later
                    (record l { port = record l.port { chan = c } }) t v.unserved r.no_jobs
                    (ap (λ es. first_served es l.port.prop) (sym v.split) ∙ served) in
              record {
                before = v.before;
                after = v.after;
                until = v.until;
                visit = v.visit;
                since = v.since;
                seat = v.seat;
                at = v.at;
                asked = ap (λ y. y.port.chan) here;
                found = ap (λ y. y.port.prop) here;
                left =
                    v.left
                    ∙ ap (λ y. (run_event vtables repr Event.serve y).port.prop) here
                    ∙ visited_once vtables repr k f thread remote l c req_ready t x away blocking d
                        r posts ran;
              }
        ]
