-- ===== src/System/Calls.antt =====
-- src/runtime/runtime.rs and src/trust/remote.rs: a call of `apply` among everything else that happens.
use mathlib.Core.Option
use trust_tee.Prelude.{
  ℕ, ◌+◌, ◌≤◌, ◌≡◌, refl, sym, ap, ◌∙◌, subst, inl, inr, Bool, true, false, same, not, Bool-cases,
  List, [], ◌∷◌, Option, none, some, get_elem?, length, arith,
}
use trust_tee.Memory.{Memory, Repr}
use trust_tee.Outcome.{Outcome, ok, panic, ok-injective, ◌>>=◌}
use trust_tee.Serialization.{SlotWriter, encode_closure}
use trust_tee.Slots.{
  PropertyPtr, RequestRecordHeader, write_record, ChannelPair, ready, count, pack_ready_count,
}
use trust_tee.Slots.Words.{ready-pack, count-pack}
use trust_tee.Closures.{Ran, returned, panicked, VTables}
use trust_tee.Runtime.Worker.{Seat}
use trust_tee.Channel.{Link, Event, run_event, answered, await, first_served}
use trust_tee.Remote.Client
use trust_tee.Remote.Client.{
  hdr_offset, payload_writer, Thread, Remote, Closure, Request, on_trustee, post, delegate,
  await_result, read_result,
}
use trust_tee.Remote.Operations.{request, apply}
use trust_tee.Remote.Delegate.{IsReady, outcome_of, observed}
use trust_tee.Remote.Linearize.{IsDeliverable, apply_linearizes}
use trust_tee.System
use trust_tee.System.{System, seats, own, set_seat, IsPost, link_of, Post, Reach, Waits, run_events}
use trust_tee.System.Own.{seats-set_seat}
use trust_tee.System.Invariant.Reached.{Reach-IsSystem}
use trust_tee.System.View.{get_elem?-set_same}
use trust_tee.System.Visited.{VisitedOn}
use trust_tee.System.FirstVisit.{first_visit}
use trust_tee.System.Steps.{Waits-Watched}

-- What `post` does to a channel.
pub post-IsPost :
    {F : Type 0} (q : Request F) (c c' : ChannelPair) (req_ready : Bool)
    → post q c ≡ ok (req_ready, c')
    → IsPost c c'
unfolding post
post-IsPost q c c' req_ready e =
    go (encode_closure (payload_writer c) q.property q.repr q.vtable q.value q.args c.bytes) e
  where
    stored_post : RequestRecordHeader → Memory → Bool × ChannelPair
    stored_post hdr m = (
      not (ready c.response_flags),
      record c {
        bytes = write_record (c.base + hdr_offset) (record hdr { repeat_count = q.repeat }) m;
        request_flags = pack_ready_count (not (ready c.response_flags)) 1;
      },
    )

    go :
        (o : Outcome (RequestRecordHeader × SlotWriter × Memory))
        → (o >>= (λ x. ok (stored_post x.0 x.2))) ≡ ok (req_ready, c')
        → IsPost c c'
    go (ok (hdr, w, m)) h = subst (IsPost c) (ap (λ x. x.1) (ok-injective h)) (record {
      same_response = refl;
      one = count-pack (not (ready c.response_flags)) 1;
      flipped = ready-pack (not (ready c.response_flags)) 1;
    })
    go (panic p) h = cc h

module _ {T : Type 0} (vtables : VTables T) (repr : Repr T) where
  -- In a system that comes of a trustee, no two clients have the same channel, and on the channel of a client there
  -- is at most one request and at most one launched job.
  pub one_launch_each :
      {value : T} {base : ℕ} {s : System T} (i k : ℕ) (a b : Seat)
      → Reach vtables repr value base s
      → get_elem? (seats s.worker) i ≡ some a
      → get_elem? (seats s.worker) k ≡ some b
      → a.client.chan ≡ b.client.chan
      → (i ≡ k) × (count a.chan.request_flags ≤ 1) × (length (own a.client.chan s.worker.jobs) ≤ 1)
  one_launch_each i k a b r at_i at_k same_chan =
      let h = Reach-IsSystem vtables repr r in
      let fine = h.settled i a at_i in
      (
        h.distinct i k a b at_i at_k same_chan,
        fine.few,
        elim fine.job [
          | inl empty ↦ omega (arith, ap length empty)
          | inr (hdr, one, under_way) ↦ omega (arith, ap length one)
        ],
      )

  -- The link of a client whose last request has been answered is ready, while the worker runs.
  pub Reach-IsReady :
      {value : T} {base : ℕ} (i : ℕ) {s : System T} (a : Seat)
      → Reach vtables repr value base s
      → get_elem? (seats s.worker) i ≡ some a
      → s.running ≡ true
      → same (ready a.chan.request_flags) (ready a.chan.response_flags) ≡ true
      → IsReady (link_of s a)
  Reach-IsReady i a r at running done =
      let fine = (Reach-IsSystem vtables repr r).settled i a at in
      record {
        running = running;
        settled = elim fine.past [ inl open_request ↦ cc (done, open_request) | inr past ↦ past ];
        no_jobs = elim fine.job [
          | inl empty ↦ empty
          | inr (hdr, one, under_way) ↦ cc (done, under_way.open_request)
        ];
      }

  -- Where the answer stands after all events, the waiting loop has ended.
  await-run_events :
      (es : List (Event T)) (req_ready : Bool) (l : Link T)
      → answered req_ready (run_events vtables repr es l) ≡ true
      → (l' : Link T) × (await vtables repr es req_ready l ≡ some l')
  unfolding await
  await-run_events [] req_ready l done = (l, rw done)
  await-run_events (e ∷ es) req_ready l done = elim (Bool-cases (answered req_ready l)) [
    | inl before ↦ (l, rw before)
    | inr open_request ↦
        let (l', ended) = await-run_events es req_ready (run_event vtables repr e l) done in
        (l', rw (open_request, ended))
  ]

  module _ {F R : Type 0} (k : Closure F T R) (f : F) (thread : Thread) (remote : Remote) where
    abbrev pub out_request : Request F
    out_request = request vtables repr [] k f thread remote PropertyPtr.call_mut_out_ptr

    returns : (ran : Ran T R) (x : R × T) → outcome_of ran ≡ some x → ran ≡ returned x.1 x.0
    unfolding outcome_of
    returns (returned t r) x e = ap (λ y. returned y.1 y.0) (Option.some_inj.0 e)
    returns (panicked t) x e = cc e

    -- A result was there: the closure has returned, on the property at the first visit.
    ran_once :
        (o : Option T) (x : R × T)
        → Option.bind o (λ t. outcome_of (k.run f t)) ≡ some x
        → (t : T) × (o ≡ some t) × (k.run f t ≡ returned x.1 x.0)
    unfolding Option.bind
    ran_once none x e = cc e
    ran_once (some t) x e = (t, refl, returns (k.run f t) x e)

    -- The system in which the client `i`, at `a`, has posted a call on `c`.
    abbrev pub calling : System T → ℕ → Seat → ChannelPair → System T
    calling s i a c = record s { worker = set_seat s.worker i (record a { chan = c }) }

    -- The call has a result if its request is answered after the events.
    called :
        (es : List (Event T)) (l : Link T) (c : ChannelPair) (req_ready : Bool)
        → on_trustee thread remote ≡ false
        → thread.is_trustee ≡ false
        → Client.post out_request l.port.chan ≡ ok (req_ready, c)
        → answered req_ready
            (run_events vtables repr es (record l { port = record l.port { chan = c } }))
          ≡ true
        → (x : R × T) × (observed (apply vtables repr es k f thread remote l) ≡ ok (some x))
    unfolding apply delegate await_result
    called es l c req_ready away blocking posts done =
        let (l', ended) =
          await-run_events es req_ready (record l { port = record l.port { chan = c } }) done in
        (
          (read_result k.result l', l'.port.prop),
          rw (away, blocking)
              (ap (λ m. observed (m >>= (λ p. ok (await_result vtables repr es k.result l p))))
                  posts
                ∙ ap (λ o. observed (ok (Option.map (λ y. (read_result k.result y, y)) o))) ended),
        )

    -- A client of a trustee, whose last request has been answered, calls `apply` off any trustee thread while the
    -- worker runs, with a closure that fits the slots. Whatever happens then, in whatever order, to the
    -- worker, its fibers and the other clients: if the request is answered in the end, then the
    -- closure has returned, on the property as it stood when the worker first visited the channel
    -- with the request on it; that visit left the property as the closure did; and `apply` has its
    -- result, over the events that the client has seen.
    pub answered_call_ran :
        {value : T} {base i : ℕ} {s s' : System T} (a a' : Seat) (c : ChannelPair)
        (req_ready : Bool)
        → on_trustee thread remote ≡ false
        → thread.is_trustee ≡ false
        → Reach vtables repr value base s
        → get_elem? (seats s.worker) i ≡ some a
        → s.running ≡ true
        → same (ready a.chan.request_flags) (ready a.chan.response_flags) ≡ true
        → IsDeliverable vtables k a.chan
        → Client.post out_request a.chan ≡ ok (req_ready, c)
        → Waits vtables repr i (calling s i a c) s'
        → get_elem? (seats s'.worker) i ≡ some a'
        → same (ready a'.chan.response_flags) req_ready ≡ true
        → (es : List (Event T)) × (t : T) × (x : R × T) × (link_of s' a'
            ≡ run_events vtables repr es (link_of (calling s i a c) (record a { chan = c })))
          × (first_served es s.worker.prop ≡ some t)
          × (k.run f t ≡ returned x.1 x.0)
          × (observed (apply vtables repr es k f thread remote (link_of s a)) ≡ ok (some x))
          × VisitedOn vtables repr i (calling s i a c) s' c t x.1
    answered_call_ran {i} {s} {s'} a a' c req_ready away blocking r at running done d posts ws at'
          ends =
        let calls = Reach-IsSystem vtables repr (
          System.post i r
            (System.posted a c at done (post-IsPost out_request a.chan c req_ready posts))) in
        let seen =
          Waits-Watched vtables repr (record a { chan = c }) ws calls
            (ap (λ l. get_elem? l i) (seats-set_seat s.worker i (record a { chan = c }))
              ∙ get_elem?-set_same (seats s.worker) i (record a { chan = c }) a at) in
        let ran =
          subst
            (λ b.
              link_of s' b
              ≡ run_events vtables repr seen.events
                  (link_of (calling s i a c) (record a { chan = c })))
            (Option.some_inj.0 (sym seen.at ∙ at')) seen.ran in
        let (x, result) =
          called seen.events (link_of s a) c req_ready away blocking posts
            (ap (answered req_ready) (sym ran) ∙ ends) in
        let linear =
          apply_linearizes vtables repr seen.events k f thread remote (link_of s a) away blocking d
            (Reach-IsReady i a r at running done) in
        let (t, served, returned_it) =
          ran_once (first_served seen.events s.worker.prop) x
            (ok-injective (sym linear ∙ result)) in
        (
          seen.events,
          t,
          x,
          ran,
          served,
          returned_it,
          result,
          first_visit vtables repr k f thread remote (calling s i a c) s' (record a { chan = c })
              (link_of s a) seen c t x req_ready refl served away blocking d
              (Reach-IsReady i a r at running done) posts returned_it,
        )
