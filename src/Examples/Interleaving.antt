-- ===== src/Examples/Interleaving.antt =====
-- A trustee of a Boolean, and a call of its first client.
mod Log
use trust_tee.Prelude.{
  ℕ, ◌≤◌, ◌≡◌, refl, ap, ◌∙◌, subst, inl, Bool, true, false, not, same, same_self, List, [], ◌∷◌,
  some, get_elem?, length, arith,
}
use trust_tee.Outcome.{ok}
use trust_tee.Slots.{ChannelPair, ready, count, new_channel}
use trust_tee.Slots.Words.{ready-pack}
use trust_tee.Closures.{returned}
use trust_tee.Runtime.Records.{respond}
use trust_tee.Runtime.Visit.{Port, progressed, visit}
use trust_tee.Runtime.Visit.Serve.{answer, visit-call_mut_out}
use trust_tee.Runtime.Worker.{
  Seat, Worker, port_at, slot_index, drain, turn, turn_at, after_visit, poll_registrations,
}
use trust_tee.Runtime.Handles.{spawn, register, client_seat}
use trust_tee.Channel.{Event, first_served}
use trust_tee.Remote.Client.{Request, write_result}
use trust_tee.Remote.Operations.{apply}
use trust_tee.Remote.Post.{
  InSlot, post-fits, post-posted, posted, posted-Requested, posted-property, posted-decode,
  record_header,
}
use trust_tee.Remote.Delegate.{observed}
use trust_tee.System
use trust_tee.System.{System, seats, own, of_turn, link_of, Step, Reach, Waits, run_events}
use trust_tee.System.Visited.{VisitedOn}
use trust_tee.System.Steps.{waiting_sees_events}
use trust_tee.System.Calls.{out_request, calling, one_launch_each, post-IsPost, answered_call_ran}
use trust_tee.Examples.Data.{
  bool_repr, bool_bytes, compare_with, bool_vtables, channel, client_thread, remote,
}
use trust_tee.Examples.Delegation.{away, deliverable}

-- The first client, and the trustee when it starts.
abbrev first : Seat
first = record {
  client = record { chan = 4096; pending_launch = false; launch_req_ready = false };
  chan = channel;
}

abbrev started : System Bool
started = record {
  worker = record {
    reg = first ∷ [];
    clients = [];
    prop = true;
    jobs = [];
    start_idx = 0;
    idle_rounds = 0;
    loop_counter = 0;
  };
  running = true;
}

started-Reach : Reach bool_vtables bool_repr true 4096 started
unfolding spawn register client_seat new_channel
started-Reach = System.Reach.spawned

one_launch_each_example :
    (◌≡◌ {A = ℕ} 0 0) × (count 0 ≤ 1) × (length (own 4096 started.worker.jobs) ≤ 1)
one_launch_each_example =
    one_launch_each bool_vtables bool_repr 0 0 first first started-Reach refl refl refl

abbrev call : Request Bool
call = out_request bool_vtables bool_repr compare_with false client_thread remote

in_slot : InSlot call channel
in_slot = post-fits call channel (omega arith) (omega arith)

abbrev asked : ChannelPair
asked = posted call channel in_slot

abbrev called : System Bool
called =
    calling bool_vtables bool_repr compare_with false client_thread remote started 0 first asked

-- The worker takes the client up.
abbrev taken_up : Worker Bool
taken_up = record called.worker {
  reg = [];
  clients = record first { chan = asked } ∷ [];
  loop_counter = 1;
}

taken_up-poll : poll_registrations called.worker ≡ taken_up
unfolding poll_registrations drain
taken_up-poll = refl

abbrev port : Port Bool
port = port_at taken_up (record first { chan = asked })

abbrev answered_port : Port Bool
answered_port = answer port false (respond asked (bool_bytes true))

visited : visit bool_vtables bool_repr port ≡ progressed answered_port
unfolding write_result
visited =
    visit-call_mut_out bool_vtables bool_repr port (record_header call channel in_slot)
      (posted-Requested call channel in_slot first.client true [] (inl refl) deliverable.placed
        (omega arith))
      (posted-property call channel in_slot)
      (posted-decode call channel in_slot bool_vtables.call_mut_out
        (λ g t. write_result bool_repr (compare_with.run g t)) true refl)

abbrev last : Seat
last = record { client = answered_port.client; chan = answered_port.chan }

abbrev over : System Bool
over = record { worker = record taken_up { clients = last ∷ []; prop = false }; running = true }

turned_over : of_turn (turn bool_vtables bool_repr 1 0 false taken_up) ≡ over
unfolding turn turn_at slot_index after_visit
turned_over = ap (λ v. of_turn (after_visit taken_up 1 0 false v)) visited

waits : Waits bool_vtables bool_repr 0 called over
waits =
    System.Waits.step
      (System.Waits.step System.Waits.here (
        subst (λ w. Step bool_vtables bool_repr called (record { worker = w; running = true }))
          taken_up-poll (System.Step.polled refl)))
      (subst (Step bool_vtables bool_repr (record { worker = taken_up; running = true }))
        turned_over (System.Step.turned 1 0 false refl))

called-Reach : Reach bool_vtables bool_repr true 4096 called
called-Reach = System.Reach.post 0 started-Reach (
    System.Post.posted first asked refl (same_self (ready 0)) (
      post-IsPost call channel asked (not (ready channel.response_flags))
        (post-posted call channel in_slot)))

waiting_sees_events_example :
    (es : List (Event Bool)) × (a' : Seat) × (get_elem? (seats over.worker) 0 ≡ some a')
    × (a'.client.chan ≡ 4096)
    × (link_of over a'
        ≡ run_events bool_vtables bool_repr es (link_of called (record first { chan = asked })))
waiting_sees_events_example =
    waiting_sees_events bool_vtables bool_repr (record first { chan = asked }) called-Reach waits
      refl

answers : same (ready last.chan.response_flags) (not (ready channel.response_flags)) ≡ true
answers =
    ap (λ r. same r (not (ready channel.response_flags)))
      (ready-pack (ready asked.request_flags) 1 ∙ ready-pack (not (ready channel.response_flags)) 1)
    ∙ same_self (not (ready channel.response_flags))

answered_call_ran_example :
    (es : List (Event Bool)) × (t : Bool) × (x : Bool × Bool) × (link_of over last
      ≡ run_events bool_vtables bool_repr es (link_of called (record first { chan = asked })))
    × (first_served es true ≡ some t)
    × (compare_with.run false t ≡ returned x.1 x.0)
    × (observed (
          apply bool_vtables bool_repr es compare_with false client_thread remote
            (link_of started first))
        ≡ ok (some x))
    × VisitedOn bool_vtables bool_repr 0 called over asked t x.1
answered_call_ran_example =
    answered_call_ran bool_vtables bool_repr compare_with false client_thread remote first last
      asked (not (ready channel.response_flags)) away refl started-Reach refl refl
      (same_self (ready 0)) deliverable (post-posted call channel in_slot) waits refl answers
