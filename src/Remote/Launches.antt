-- ===== src/Remote/Launches.antt =====
-- src/trust/remote.rs: `launch`, with the worker's and the fiber's part of it.
use mathlib.Core.Option
use trust_tee.Prelude.{
  ◌-◌, ◌≤◌, ◌≡◌, refl, ap, ◌∙◌, Bool, true, false, not, same, same_self, same-not, List, [], ◌∷◌,
  Option, none, some, arith,
}
use trust_tee.Memory.{Repr, read, read-encode}
use trust_tee.Outcome.{ok, ◌>>=◌}
use trust_tee.Slots.{
  PropertyPtr, ChannelPair, RequestRecordHeader, slot_bytes, header_bytes, trailing_bytes, ready,
  pack_ready_count,
}
use trust_tee.Slots.Words.{ready-pack}
use trust_tee.Serialization.{vtable_gen}
use trust_tee.Closures.{Ran, returned, panicked, VTables}
use trust_tee.Runtime.Records.{execute, respond, resp_data}
use trust_tee.Runtime.Visit.{complete_job, run_job}
use trust_tee.Runtime.Visit.Pending.{visit-in_progress}
use trust_tee.Runtime.Visit.Serve.{Requested, visit-launch}
use trust_tee.Channel.{
  Link, Event, idle, serve, fiber, gone, others, run_event, after_visit, answered, await,
}
use trust_tee.Channel.Launched.{first_launched, fiber_runs, launch_runs, launch_runs-first_launched}
use trust_tee.Channel.Await.{await-answered, await-Stuck}
use trust_tee.Remote.Client.{
  Thread, Remote, Closure, Request, write_result, read_result, delegate, await_result,
}
use trust_tee.Remote.Operations.{request, launch}
use trust_tee.Remote.Post.{
  IsPlaced, InSlot, post-fits, post-posted, posted, posted-decode, posted-Requested,
  posted-property, record_header,
}
use trust_tee.Remote.Delegate.{IsReady, observed}

-- The same conditions as for `apply`, without one on the result.
pub record IsLaunchable {F T R : Type 0} (vtables : VTables T) (k : Closure F T R) (c : ChannelPair)
    : Type 0 where
  pub aligned : k.repr.align_log ≤ 7
  pub small : k.repr.size ≤ trailing_bytes
  pub placed : IsPlaced c k.vtable
  pub result_small : k.result.size ≤ slot_bytes - header_bytes
  pub compiled :
      vtables.call_mut_out k.vtable ≡ vtable_gen k.repr (λ f t. write_result k.result (k.run f t))

-- What the client of a launch reads: the result, or, if the closure panicked, the bytes of its
-- response slot as they are.
abbrev pub launched_result : {T R : Type 0} → Repr R → ChannelPair → Ran T R → R × T
launched_result result c (returned t r) = (r, t)
launched_result result c (panicked t) = (result.decode (read (resp_data c) result.size c.bytes), t)

module _ {F T R : Type 0} (vtables : VTables T) (repr : Repr T) (events : List (Event T))
    (k : Closure F T R) (f : F) (thread : Thread) (remote : Remote) (l : Link T)
    (d : IsLaunchable vtables k l.port.chan) (r : IsReady l) where
  abbrev pub launch_request : Request F
  launch_request = request vtables repr events k f thread remote PropertyPtr.launch

  pub in_slot : InSlot launch_request l.port.chan
  in_slot = post-fits launch_request l.port.chan d.aligned (omega (arith, d.small))

  abbrev pub chan : ChannelPair
  chan = posted launch_request l.port.chan in_slot

  abbrev hdr : RequestRecordHeader
  hdr = record_header launch_request l.port.chan in_slot

  abbrev req_ready : Bool
  req_ready = not (ready l.port.chan.response_flags)

  abbrev stored_ready : Bool
  stored_ready = ready chan.request_flags

  abbrev waits : T → Link T
  waits t = record {
    port = record { client = l.port.client; chan = chan; prop = t; jobs = [] };
    running = true;
  }

  abbrev launched : Bool → T → Link T
  launched running t = record {
    port = record {
      client = record l.port.client { pending_launch = true; launch_req_ready = stored_ready };
      chan = chan;
      prop = t;
      jobs = execute hdr l.port.client.chan stored_ready ∷ [];
    };
    running = running;
  }

  abbrev after_job : Bool → T → Link T
  after_job running t = record {
    port =
        complete_job (record (launched running t).port { jobs = [] }) stored_ready
          (write_result k.result (k.run f t));
    running = running;
  }

  requested : (t : T) → Requested (waits t).port hdr
  requested t =
      posted-Requested launch_request l.port.chan in_slot l.port.client t [] r.settled d.placed
        (omega arith)

  unanswered : (t : T) → answered req_ready (waits t) ≡ false
  unanswered t = same-not (ready l.port.chan.response_flags)

  served : (t : T) → run_event vtables repr serve (waits t) ≡ launched true t
  unfolding run_event
  served t = ap after_visit (
      visit-launch vtables repr (waits t).port hdr (requested t)
        (posted-property launch_request l.port.chan in_slot))

  passed_over : (b : Bool) (t : T) → run_event vtables repr serve (launched b t) ≡ launched b t
  unfolding run_event
  passed_over true t =
      ap after_visit
        (visit-in_progress vtables repr (launched true t).port refl refl (requested t).unanswered)
  passed_over false t = refl

  ran : (b : Bool) (t : T) → run_event vtables repr fiber (launched b t) ≡ after_job b t
  unfolding run_event run_job complete_job
  ran b t =
      ap
        (λ x. record {
          port = complete_job (record (launched b t).port { jobs = [] }) stored_ready x;
          running = b;
        })
        (posted-decode launch_request l.port.chan in_slot vtables.call_mut_out
          (λ g u. write_result k.result (k.run g u)) t d.compiled)

  done : (b : Bool) (t : T) → answered req_ready (after_job b t) ≡ true
  unfolding write_result complete_job respond
  done b t = go (k.run f t)
    where
      word : same (ready (pack_ready_count stored_ready 1)) req_ready ≡ true
      word =
          ap (λ b. same b req_ready) (ready-pack stored_ready 1 ∙ ready-pack req_ready 1)
          ∙ same_self req_ready

      go :
          (x : Ran T R)
          → same
              (ready
                (complete_job
                  (record (launched true t).port { jobs = [] })
                  stored_ready
                  (write_result k.result x)).chan.response_flags)
              req_ready
            ≡ true
      go (returned u y) = word
      go (panicked u) = word

  -- The link that the job leaves, if a fiber runs it.
  abbrev job_link : Option (Bool × T) → Option (Link T)
  job_link o = Option.map (λ x. after_job x.0 x.1) o

  await-launched :
      (es : List (Event T)) (b : Bool) (t : T)
      → await vtables repr es req_ready (launched b t) ≡ job_link (fiber_runs es b t)
  unfolding await fiber_runs run_event
  await-launched [] b t = rw (unanswered t)
  await-launched (idle ∷ es) b t = rw (unanswered t) (await-launched es b t)
  await-launched (serve ∷ es) b t = rw (unanswered t, passed_over b t) (await-launched es b t)
  await-launched (fiber ∷ es) b t =
      rw (unanswered t, ran b t)
        (await-answered vtables repr req_ready es (after_job b t) (done b t))
  await-launched (gone ∷ es) b t = rw (unanswered t) (await-launched es false t)
  await-launched (others g ∷ es) b t = rw (unanswered t) (await-launched es b (g t))

  await-waits :
      (es : List (Event T)) (t : T)
      → await vtables repr es req_ready (waits t) ≡ job_link (launch_runs es t)
  unfolding await launch_runs run_event
  await-waits [] t = rw (unanswered t)
  await-waits (idle ∷ es) t = rw (unanswered t) (await-waits es t)
  await-waits (serve ∷ es) t = rw (unanswered t, served t) (await-launched es true t)
  await-waits (fiber ∷ es) t = rw (unanswered t) (await-waits es t)
  await-waits (gone ∷ es) t = rw (unanswered t) (
      await-Stuck vtables repr req_ready es (record (waits t) { running = false })
        (record { gone = refl; no_job = refl; unanswered = unanswered t }))
  await-waits (others g ∷ es) t = rw (unanswered t) (await-waits es (g t))

  same_link : record l { port = record l.port { chan = chan } } ≡ waits l.port.prop
  same_link = λ i. record {
    port = record { client = l.port.client; chan = chan; prop = l.port.prop; jobs = r.no_jobs i };
    running = r.running i;
  }

  read_back :
      (b : Bool) (t : T)
      → (read_result k.result (after_job b t), (after_job b t).port.prop)
        ≡ launched_result k.result chan (k.run f t)
  unfolding read_result write_result complete_job respond
  read_back b t = go (k.run f t)
    where
      go :
          (x : Ran T R)
          → (let p =
                complete_job
                  (record (launched true t).port { jobs = [] })
                  stored_ready
                  (write_result k.result x) in
              (k.result.decode (read (resp_data p.chan) k.result.size p.chan.bytes), p.prop))
            ≡ launched_result k.result chan x
      go (returned u y) = ap (λ z. (z, u)) (read-encode k.result (resp_data chan) y chan.bytes)
      go (panicked u) = refl

  read_all :
      (o : Option (Bool × T))
      → Option.map {B = R × T}
          (λ x. (x.0, x.1.port.prop))
          (Option.map {B = R × Link T} (λ l'. (read_result k.result l', l')) (job_link o))
        ≡ Option.map (λ t. launched_result k.result chan (k.run f t)) (Option.map (λ x. x.1) o)
  read_all none = refl
  read_all (some (b, t)) = ap some (read_back b t)

  -- On a ready link, and for a closure that fits the request slot, `launch` gives the result of
  -- the closure on the property as it stands when a fiber first runs after the worker's first
  -- visit, whatever visits and changes by other clients come between; if the closure panicked, it
  -- gives what the response slot holds; without such events, it waits.
  pub launch_linearizes :
      observed (launch vtables repr events k f thread remote l)
      ≡ ok (
          Option.map
            (λ t. launched_result k.result chan (k.run f t))
            (first_launched events l.port.prop))
  unfolding launch delegate await_result
  launch_linearizes =
      ap (λ m. observed (m >>= (λ p. ok (await_result vtables repr events k.result l p))))
        (post-posted launch_request l.port.chan in_slot)
      ∙ ap
          (λ w. observed (ok (Option.map {B = R × Link T} (λ l'. (read_result k.result l', l')) w)))
          (ap (await vtables repr events req_ready) same_link ∙ await-waits events l.port.prop)
      ∙ ap ok (read_all (launch_runs events l.port.prop))
      ∙ ap (λ o. ok (Option.map (λ t. launched_result k.result chan (k.run f t)) o))
          (launch_runs-first_launched events l.port.prop)
