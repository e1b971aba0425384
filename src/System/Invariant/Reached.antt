-- ===== src/System/Invariant/Reached.antt =====
-- src/runtime/runtime.rs: the steps of the fibers and of the clients, and every state that is reached.
use mathlib.Core.List.{append_assoc}
use trust_tee.Prelude.{
  ℕ, erase_idx, ◌≤◌, ◌≡◌, refl, sym, ap, ◌∙◌, subst, inl, inr, Bool, not, same, not-same, [], ◌∷◌,
  some, length, get_elem?, arith,
}
use trust_tee.Memory.{Repr}
use trust_tee.Slots.{RequestRecordHeader, ready, count, new_channel}
use trust_tee.Serialization.{decode_and_call}
use trust_tee.Closures.{VTables}
use trust_tee.Runtime.Records.{ClientPair, execute}
use trust_tee.Runtime.Visit.{Port, run_job}
use trust_tee.Runtime.Worker.{Seat, Worker, poll_registrations}
use trust_tee.Runtime.Worker.Registers.{poll_keeps, poll_same}
use trust_tee.Runtime.Handles.{client_seat, spawn, register}
use trust_tee.System.{
  System, seats, own, job_port, put, Step, turned, polled, idled, fiber_ran, used, registered, Post,
  posted, Reach, spawned, step, post,
}
use trust_tee.System.Own.{own-erase_other, own-found, own-erase_only, seats-set_seat}
use trust_tee.System.Invariant.{
  IsSettled, IsSystem, IsSystem-set, IsSystem-snoc, completed, guard_bit,
}
use trust_tee.System.Invariant.Turns.{IsSystemAt, turn-IsSystem}

module _ {T : Type 0} (vtables : VTables T) (repr : Repr T) where
  no_clients : IsSystem [] []
  no_clients = record { distinct = λ i k a b h h' e. cc h; settled = λ i a h. cc h }

  -- What a job leaves, on its own channel.
  pub run_job-keeps :
      (hdr : RequestRecordHeader) (chan : ℕ) (req_ready : Bool) (p : Port T)
      → let p' = run_job vtables repr (execute hdr chan req_ready) p in
        (p'.client ≡ p.client)
        × (p'.jobs ≡ p.jobs)
        × (p'.chan.request_flags ≡ p.chan.request_flags)
        × (ready p'.chan.response_flags ≡ req_ready)
  unfolding run_job
  run_job-keeps hdr chan req_ready p =
      completed p req_ready (decode_and_call vtables.call_mut_out hdr p.chan.bytes p.prop)

  -- A job that runs is the only one of its channel, and answers the request of its launch.
  pub only_job :
      (w : Worker T) (k : ℕ) (a : Seat) (hdr : RequestRecordHeader) (req_ready : Bool)
      → get_elem? w.jobs k ≡ some (execute hdr a.client.chan req_ready)
      → IsSettled w.jobs a
      → (own a.client.chan w.jobs ≡ execute hdr a.client.chan req_ready ∷ [])
        × (own a.client.chan (erase_idx w.jobs k) ≡ [])
        × (a.client.launch_req_ready ≡ req_ready)
  unfolding guard_bit
  only_job w k a hdr req_ready found s = elim s.job [
    | inl empty ↦
        absurd
          (omega (arith, own-found hdr a.client.chan req_ready w.jobs k found, ap length empty))
    | inr (h, one, under_way) ↦
        let (it, none_left) =
          own-erase_only hdr a.client.chan req_ready w.jobs k
            (execute h a.client.chan a.client.launch_req_ready) found one in
        (one ∙ ap (λ j. j ∷ []) it, none_left, ap guard_bit it)
  ]

  fiber-IsSystem :
      (w : Worker T) (k i : ℕ) (hdr : RequestRecordHeader) (req_ready : Bool) (a : Seat)
      → get_elem? w.jobs k ≡ some (execute hdr a.client.chan req_ready)
      → get_elem? (seats w) i ≡ some a
      → IsSystem (seats w) w.jobs
      → let w' =
          put w i (run_job vtables repr (execute hdr a.client.chan req_ready) (job_port w k a)) in
        IsSystem (seats w') w'.jobs
  fiber-IsSystem w k i hdr req_ready a found at s =
      let c = a.client.chan in
      let (client, jobs, request, response) = run_job-keeps hdr c req_ready (job_port w k a) in
      let (one, none_left, guard) = only_job w k a hdr req_ready found (s.settled i a at) in
      let p = run_job vtables repr (execute hdr c req_ready) (job_port w k a) in
      let fine = s.settled i a at in
      subst (λ l. IsSystem l p.jobs)
        (sym (seats-set_seat w i (record { client = p.client; chan = p.chan })))
        (IsSystem-set (seats w) w.jobs p.jobs i a (record { client = p.client; chan = p.chan }) s at
          (ap (λ (x : ClientPair). x.chan) client)
          (record {
            few = subst (λ word. count word ≤ 1) (sym request) fine.few;
            job =
                inl
                  (ap (λ (x : ClientPair). own x.chan p.jobs) client ∙ ap (own c) jobs ∙ none_left);
            past =
                inr
                  (inr (ap (λ (x : ClientPair). x.launch_req_ready) client ∙ guard ∙ sym response));
          })
          (λ d ne. ap (own d) jobs ∙ own-erase_other hdr c req_ready d w.jobs k found ne))

  pub Step-IsSystem :
      {s s' : System T}
      → Step vtables repr s s'
      → IsSystemAt vtables repr s
      → IsSystemAt vtables repr s'
  unfolding client_seat
  Step-IsSystem {s} (turned n offs b running) h = turn-IsSystem vtables repr s.worker n offs b h
  Step-IsSystem {s} (polled running) h =
      subst (λ js. IsSystem (seats (poll_registrations s.worker)) js) (sym (poll_same s.worker).1)
        (subst (λ l. IsSystem l s.worker.jobs) (sym (poll_keeps s.worker).0) h)
  Step-IsSystem (idled k) h = h
  Step-IsSystem {s} (fiber_ran k i hdr req_ready a found at) h =
      fiber-IsSystem s.worker k i hdr req_ready a found at h
  Step-IsSystem (used g) h = h
  Step-IsSystem {s} (registered c fresh) h =
      subst (λ l. IsSystem l s.worker.jobs)
        (append_assoc s.worker.clients s.worker.reg (client_seat c ∷ []))
        (IsSystem-snoc (seats s.worker) s.worker.jobs (client_seat c) h fresh.no_client
          (record { few = fresh.request; job = inl fresh.no_job; past = inr (inl refl) }))

  pub Post-IsSystem :
      {i : ℕ} {s s' : System T}
      → Post vtables repr i s s'
      → IsSystemAt vtables repr s
      → IsSystemAt vtables repr s'
  Post-IsSystem {i} {s} (posted a c at answered p) h =
      let fine = h.settled i a at in
      subst (λ l. IsSystem l s.worker.jobs)
        (sym (seats-set_seat s.worker i (record a { chan = c })))
        (IsSystem-set (seats s.worker) s.worker.jobs s.worker.jobs i a (record a { chan = c }) h at
          refl
          (record {
            few = omega (arith, p.one);
            job = elim fine.job [
              | inl empty ↦ inl empty
              | inr (hdr, one, under_way) ↦ cc (answered, under_way.open_request)
            ];
            past = inl (
                ap (λ r. same r (ready c.response_flags)) p.flipped
                ∙ ap (λ word. same (not (ready a.chan.response_flags)) (ready word)) p.same_response
                ∙ not-same (ready a.chan.response_flags));
          })
          (λ d ne. refl))

  pub Reach-IsSystem :
      {value : T} {base : ℕ} {s : System T}
      → Reach vtables repr value base s
      → IsSystemAt vtables repr s
  unfolding spawn register client_seat count new_channel
  Reach-IsSystem {base} spawned =
      IsSystem-snoc [] [] (client_seat (new_channel base)) no_clients (λ i b h. cc h)
        (record { few = omega arith; job = inl refl; past = inr (inl refl) })
  Reach-IsSystem (step r m) = Step-IsSystem m (Reach-IsSystem r)
  Reach-IsSystem (post i r m) = Post-IsSystem m (Reach-IsSystem r)
