-- ===== src/System/Visited.antt =====
-- src/runtime/runtime.rs and src/trust/remote.rs: the first visit of a client that has posted a call.
use mathlib.Core.Option
use trust_tee.Prelude.{
  ℕ, ◌+◌, ◌≡◌, refl, sym, ap, ◌∙◌, inl, inr, Bool, false, not, same, same-not, Bool-cases, List, [],
  ◌∷◌, ◌++◌, Option, none, some, get_elem?,
}
use trust_tee.Memory.{Memory, Repr}
use trust_tee.Outcome.{Outcome, ok, panic, ok-injective, ◌>>=◌}
use trust_tee.Serialization.{SlotWriter, encode_closure}
use trust_tee.Slots.{
  PropertyPtr, RequestRecordHeader, write_record, ChannelPair, ready, pack_ready_count,
}
use trust_tee.Closures.{returned, VTables}
use trust_tee.Runtime.Worker.{Seat}
use trust_tee.Channel.{Link, Event, run_event, first_job, answered, await, first_served}
use trust_tee.Remote.Client
use trust_tee.Remote.Client.{
  hdr_offset, payload_writer, Thread, Remote, Closure, Request, on_trustee, post, delegate,
  await_result, read_result,
}
use trust_tee.Remote.Operations.{request, apply}
use trust_tee.Remote.Delegate.{IsReady, outcome_of, observed}
use trust_tee.Remote.Linearize.{IsDeliverable, apply_linearizes}
use trust_tee.System.{System, seats, Waits, run_events}
use trust_tee.System.View.{IsVisit, NoServe}

-- A request asks by the other half of the response word.
pub post-ready :
    {F : Type 0} (q : Request F) (c c' : ChannelPair) (req_ready : Bool)
    → post q c ≡ ok (req_ready, c')
    → (req_ready ≡ not (ready c.response_flags)) × (c'.response_flags ≡ c.response_flags)
unfolding post
post-ready q c c' req_ready e =
    go (encode_closure (payload_writer c) q.property q.repr q.vtable q.value q.args c.bytes) e
  where
    stored_post : RequestRecordHeader → Memory → Bool × ChannelPair
    stored_post hdr m = (
      not (ready c.response_flags),
      record c {
        bytes = write_record (c.base + hdr_offset) (record hdr { repeat_count = q.repeat }) m;
        request_flags = pack_ready_count (not (ready c.response_flags)) 1;
      },
    )

    go :
        (o : Outcome (RequestRecordHeader × SlotWriter × Memory))
        → (o >>= (λ x. ok (stored_post x.0 x.2))) ≡ ok (req_ready, c')
        → (req_ready ≡ not (ready c.response_flags)) × (c'.response_flags ≡ c.response_flags)
    go (ok (hdr, w, m)) h =
        (sym (ap (λ x. x.0) (ok-injective h)), ap (λ x. x.1.response_flags) (sym (ok-injective h)))
    go (panic p) h = cc h

module _ {T : Type 0} (vtables : VTables T) (repr : Repr T) where
  -- A visit of the client `i` on the way from `s` to `s'`, with its request still on `c`, that finds the
  -- property at `t` and leaves it at `t'`.
  pub record VisitedOn (i : ℕ) (s s' : System T) (c : ChannelPair) (t t' : T) : Type 0 where
    pub before : System T
    pub after : System T
    pub until : Waits vtables repr i s before
    pub visit : IsVisit vtables repr i before after
    pub since : Waits vtables repr i after s'
    pub seat : Seat
    pub at : get_elem? (seats before.worker) i ≡ some seat
    pub asked : seat.chan ≡ c
    pub found : before.worker.prop ≡ t
    pub left : after.worker.prop ≡ t'

  abbrev pub at_prop : T → Link T → Link T
  at_prop t l = record l { port = record l.port { prop = t } }

  -- Before the first visit only the property changes.
  pub run_events-unserved :
      (es later : List (Event T)) (l : Link T) (t : T)
      → NoServe vtables repr es
      → l.port.jobs ≡ []
      → first_served (es ++ (Event.serve ∷ later)) l.port.prop ≡ some t
      → run_events vtables repr es l ≡ at_prop t l
  unfolding first_served run_event first_job
  run_events-unserved [] later l t h no_jobs e = ap (λ u. at_prop u l) (Option.some_inj.0 e)
  run_events-unserved (Event.idle ∷ es) later l t h no_jobs e =
      run_events-unserved es later l t h no_jobs e
  run_events-unserved (Event.serve ∷ es) later l t h no_jobs e = absurd h
  run_events-unserved (Event.fiber ∷ es) later l t h no_jobs e =
      ap (λ js. run_events vtables repr es (first_job vtables repr js l)) no_jobs
      ∙ run_events-unserved es later l t h no_jobs e
  run_events-unserved (Event.gone ∷ es) later l t h no_jobs e = cc e
  run_events-unserved (Event.others g ∷ es) later l t h no_jobs e =
      run_events-unserved es later (at_prop (g l.port.prop) l) t h no_jobs e

  pub first_served-unserved :
      (es : List (Event T)) (t : T) → NoServe vtables repr es → first_served es t ≡ none
  unfolding first_served
  first_served-unserved [] t h = refl
  first_served-unserved (Event.idle ∷ es) t h = first_served-unserved es t h
  first_served-unserved (Event.serve ∷ es) t h = absurd h
  first_served-unserved (Event.fiber ∷ es) t h = first_served-unserved es t h
  first_served-unserved (Event.gone ∷ es) t h = refl
  first_served-unserved (Event.others g ∷ es) t h = first_served-unserved es (g t) h

  await-served :
      {R : Type 0} (read : Link T → R) (req_ready : Bool) (l : Link T) (x : R × T)
      → answered req_ready l ≡ false
      → Option.map (λ y. (read y, y.port.prop)) (await vtables repr (Event.serve ∷ []) req_ready l)
        ≡ some x
      → (run_event vtables repr Event.serve l).port.prop ≡ x.1
  unfolding await
  await-served read req_ready l x open_request e =
      elim (Bool-cases (answered req_ready (run_event vtables repr Event.serve l))) [
        | inl done ↦ ap (λ y. y.1) (Option.some_inj.0 (rw (open_request, done) at e))
        | inr still ↦ cc (rw (open_request, still) at e)
      ]

  -- The visit of a call that is still there leaves the property as the closure does.
  pub visited_once :
      {F R : Type 0} (k : Closure F T R) (f : F) (thread : Thread) (remote : Remote) (l : Link T)
      (c : ChannelPair) (req_ready : Bool) (t : T) (x : R × T)
      → on_trustee thread remote ≡ false
      → thread.is_trustee ≡ false
      → IsDeliverable vtables k l.port.chan
      → IsReady l
      → Client.post
          (request vtables repr [] k f thread remote PropertyPtr.call_mut_out_ptr)
          l.port.chan
        ≡ ok (req_ready, c)
      → k.run f t ≡ returned x.1 x.0
      → (run_event vtables repr Event.serve
          (at_prop t (record l { port = record l.port { chan = c } }))).port.prop
        ≡ x.1
  unfolding apply delegate await_result first_served outcome_of Option.bind
  visited_once k f thread remote l c req_ready t x away blocking d r posts ran =
      await-served (read_result k.result) req_ready posted x asks
        (ok-injective (sym applied ∙ linear))
    where
      posted : Link T
      posted = at_prop t (record l { port = record l.port { chan = c } })

      asks : answered req_ready posted ≡ false
      asks =
          let (flipped, same_word) =
            post-ready (request vtables repr [] k f thread remote PropertyPtr.call_mut_out_ptr)
              l.port.chan c req_ready posts in
          ap (λ w. same (ready w) req_ready) same_word
          ∙ ap (same (ready l.port.chan.response_flags)) flipped
          ∙ same-not (ready l.port.chan.response_flags)

      linear :
          observed (apply vtables repr (Event.serve ∷ []) k f thread remote (at_prop t l))
          ≡ ok (some x)
      linear =
          apply_linearizes vtables repr (Event.serve ∷ []) k f thread remote (at_prop t l) away
            blocking d (record { running = r.running; settled = r.settled; no_jobs = r.no_jobs })
          ∙ ap (λ o. ok (outcome_of o)) ran

      applied :
          observed (apply vtables repr (Event.serve ∷ []) k f thread remote (at_prop t l))
          ≡ ok (
              Option.map
                (λ y. (read_result k.result y, y.port.prop))
                (await vtables repr (Event.serve ∷ []) req_ready posted))
      applied =
          rw (away, blocking)
            (ap
                (λ m. observed (
                  m >>= (λ p.
                    ok (await_result vtables repr (Event.serve ∷ []) k.result (at_prop t l) p))))
                posts
              ∙ read_all (await vtables repr (Event.serve ∷ []) req_ready posted))
        where
          read_all :
              (o : Option (Link T))
              → observed (ok (Option.map (λ y. (read_result k.result y, y)) o))
                ≡ ok (Option.map (λ y. (read_result k.result y, y.port.prop)) o)
          read_all none = refl
          read_all (some y) = refl
