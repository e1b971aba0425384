-- ===== src/Runtime/Visit/Single.antt =====
-- src/runtime/runtime.rs: a visit to a channel whose request has at most one record, as clients post them.
use trust_tee.Prelude.{
  ℕ, zero, suc, ◌+◌, ◌≤◌, ◌≡◌, refl, sym, ap, ◌∙◌, subst, ◌⊎◌, inl, inr, Bool, true, false, same,
  Bool-cases, ◌∷◌, Option, none, some, if◌then◌else◌, arith,
}
use trust_tee.Memory.{Repr}
use trust_tee.Slots.{RequestRecordHeader, ChannelPair, record_size, ready, count}
use trust_tee.Closures.{VTables}
use trust_tee.Runtime.Records.{
  ClientPair, execute, Batch, Flow, continues, returns, unwinds, invalid, proceed, process_records,
}
use trust_tee.Runtime.Records.Jobs.{
  flow_batch, IsPlain, Executed, at_cursor, process_record-Executed,
}
use trust_tee.Runtime.Visit.{
  Port, Visit, skipped, batch_port, complete, finish, start_batch, visit_checked, visit,
}
use trust_tee.Runtime.Visit.Jobs.{visit_port, pending_check-chan, pending_check-pending}

-- A launch is under way: the worker has its mark, and the request is open.
pub record InProgress (client : ClientPair) (chan : ChannelPair) : Type 0 where
  pub pending : client.pending_launch ≡ true
  pub marked : client.launch_req_ready ≡ ready chan.request_flags
  pub open_request : same (ready chan.request_flags) (ready chan.response_flags) ≡ false

-- What a visit leaves: the same client and request, and the same jobs, or one more, of a launch. It changes
-- nothing, or leaves no mark of a launch, or the mark of one under way.
pub record Visited {T : Type 0} (p p' : Port T) : Type 0 where
  pub same_chan : p'.client.chan ≡ p.client.chan
  pub same_request : p'.chan.request_flags ≡ p.chan.request_flags
  pub job :
      (p'.jobs ≡ p.jobs)
      ⊎ ((hdr : RequestRecordHeader) × (p'.jobs
            ≡ execute hdr p.client.chan p'.client.launch_req_ready ∷ p.jobs)
          × InProgress p'.client p'.chan)
  pub past :
      (p' ≡ p)
      ⊎ ((p'.client.pending_launch ≡ false)
          ⊎ (same (ready p'.chan.request_flags) (ready p'.chan.response_flags) ≡ false))

module _ {T : Type 0} where
  complete-keeps :
      (req_ready : Bool) (b : Batch T)
      → ((complete req_ready b).client ≡ b.client)
        × ((complete req_ready b).jobs ≡ b.jobs)
        × ((complete req_ready b).chan.request_flags ≡ b.chan.request_flags)
  unfolding complete batch_port
  complete-keeps req_ready b = elim (Bool-cases b.deferred_response) [
    | inl deferred ↦ (rw deferred, rw deferred, rw deferred)
    | inr answers ↦ (rw answers, rw answers, rw answers)
  ]

  abbrev next_record : Batch T → Batch T
  next_record b = record b {
    header_cursor = b.header_cursor + record_size;
    processed = b.processed + 1;
  }

  -- The visit after one record.
  abbrev finished : Bool → Flow T → Visit T
  finished req_ready f = finish req_ready (proceed continues f)

  plain-Visited :
      (p : Port T) (cp : ClientPair) (req_ready : Bool) (f : Flow T)
      → cp.chan ≡ p.client.chan
      → cp.pending_launch ≡ false
      → IsPlain (start_batch p cp) (flow_batch f)
      → Visited p (visit_port (finished req_ready f))
  unfolding finish batch_port start_batch proceed
  plain-Visited p cp req_ready (continues b) at clear q =
      let (client, jobs, request) = complete-keeps req_ready (next_record b) in
      record {
        same_chan = ap (λ (c : ClientPair). c.chan) (client ∙ q.same_client) ∙ at;
        same_request = request ∙ q.same_request;
        job = inl (jobs ∙ q.same_jobs);
        past =
            inr (inl (ap (λ (c : ClientPair). c.pending_launch) (client ∙ q.same_client) ∙ clear));
      }
  plain-Visited p cp req_ready (returns b) at clear q = record {
    same_chan = ap (λ (c : ClientPair). c.chan) q.same_client ∙ at;
    same_request = q.same_request;
    job = inl q.same_jobs;
    past = inr (inl (ap (λ (c : ClientPair). c.pending_launch) q.same_client ∙ clear));
  }
  plain-Visited p cp req_ready (unwinds b) at clear q = record {
    same_chan = ap (λ (c : ClientPair). c.chan) q.same_client ∙ at;
    same_request = q.same_request;
    job = inl q.same_jobs;
    past = inr (inl (ap (λ (c : ClientPair). c.pending_launch) q.same_client ∙ clear));
  }
  plain-Visited p cp req_ready (invalid b) at clear q = record {
    same_chan = ap (λ (c : ClientPair). c.chan) q.same_client ∙ at;
    same_request = q.same_request;
    job = inl q.same_jobs;
    past = inr (inl (ap (λ (c : ClientPair). c.pending_launch) q.same_client ∙ clear));
  }

module _ {T : Type 0} (vtables : VTables T) (repr : Repr T) (p : Port T) where
  abbrev req_ready : Bool
  req_ready = ready p.chan.request_flags

  one_record :
      (cp : ClientPair) (f : Flow T)
      → cp.chan ≡ p.client.chan
      → cp.pending_launch ≡ false
      → same req_ready (ready p.chan.response_flags) ≡ false
      → Executed req_ready (at_cursor vtables repr req_ready (start_batch p cp)) f
      → Visited p (visit_port (finished req_ready f))
  unfolding finish complete batch_port start_batch proceed
  one_record cp f at clear asked (inl q) = plain-Visited p cp req_ready f at clear (record {
    same_client = q.same_client;
    same_jobs = q.same_jobs;
    same_request = q.same_request;
  })
  one_record cp f at clear asked (inr (hdr, e)) =
      subst (λ g. Visited p (visit_port (finished req_ready g))) (sym e)
        (record {
          same_chan = at;
          same_request = refl;
          job = inr (
            hdr,
            ap (λ c. execute hdr c req_ready ∷ p.jobs) at,
            record { pending = refl; marked = refl; open_request = asked },
          );
          past = inr (inr asked);
        })

  few_records :
      (cp : ClientPair) (n : ℕ)
      → cp.chan ≡ p.client.chan
      → cp.pending_launch ≡ false
      → same req_ready (ready p.chan.response_flags) ≡ false
      → n ≤ 1
      → Visited p (
          visit_port
            (finish req_ready (process_records vtables repr req_ready n (start_batch p cp))))
  unfolding process_records finish start_batch
  few_records cp zero at clear asked few =
      let (client, jobs, request) = complete-keeps req_ready (start_batch p cp) in
      record {
        same_chan = ap (λ (c : ClientPair). c.chan) client ∙ at;
        same_request = request;
        job = inl jobs;
        past = inr (inl (ap (λ (c : ClientPair). c.pending_launch) client ∙ clear));
      }
  few_records cp (suc zero) at clear asked few =
      one_record cp _ at clear asked
        (process_record-Executed vtables repr req_ready (start_batch p cp))
  few_records cp (suc (suc n)) at clear asked few = absurd (omega arith)

  -- The visit, after the tests on launches.
  abbrev answered_or_served : ClientPair → Bool → Visit T
  answered_or_served cp answered =
      if answered
      then skipped (record p { client = cp })
      else finish req_ready
          (process_records vtables repr req_ready (count p.chan.request_flags) (start_batch p cp))

  checked-Visited :
      (o : Option ClientPair)
      → ((cp : ClientPair) → o ≡ some cp → (cp.chan ≡ p.client.chan) × (cp.pending_launch ≡ false))
      → count p.chan.request_flags ≤ 1
      → Visited p (visit_port (visit_checked vtables repr p o))
  unfolding visit_checked
  checked-Visited none at few = record {
    same_chan = refl;
    same_request = refl;
    job = inl refl;
    past = inl refl;
  }
  checked-Visited (some cp) at few =
      let (same_chan, clear) = at cp refl in
      elim (Bool-cases (same req_ready (ready p.chan.response_flags))) [
        | inl answered ↦
            subst (λ b. Visited p (visit_port (answered_or_served cp b))) (sym answered)
              (record {
                same_chan = same_chan;
                same_request = refl;
                job = inl refl;
                past = inr (inl clear);
              })
        | inr asked ↦
            subst (λ b. Visited p (visit_port (answered_or_served cp b))) (sym asked)
              (few_records cp (count p.chan.request_flags) same_chan clear asked few)
      ]

  -- A visit to a request of at most one record adds at most one job, of a launch that is then under way.
  pub visit-Visited : count p.chan.request_flags ≤ 1 → Visited p (visit_port (visit vtables repr p))
  unfolding visit
  visit-Visited few =
      checked-Visited _
        (λ cp e. (
          pending_check-chan p.client cp req_ready (ready p.chan.response_flags) e,
          pending_check-pending p.client cp req_ready (ready p.chan.response_flags) e,
        ))
        few
