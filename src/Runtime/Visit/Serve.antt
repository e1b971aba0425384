-- ===== src/Runtime/Visit/Serve.antt =====
-- src/runtime/runtime.rs: a visit to a channel on which one request stands.
use trust_tee.Prelude.{
  ℕ, ◌+◌, ◌≡◌, ap, ◌∙◌, ◌⊎◌, inl, inr, Bool, Bool-cases, true, false, not, same, List, ◌∷◌, Option,
  none, some, if◌then◌else◌,
}
use trust_tee.Memory.{Repr}
use trust_tee.Slots.{
  PropertyPtr, RequestRecordHeader, ChannelPair, header_bytes, record_size, record_align,
  pack_ready_count, ready, count, next_boundary_offset, read_record,
}
use trust_tee.Serialization.{decode_and_call}
use trust_tee.Closures.{returned, panicked, VTables}
use trust_tee.Runtime.Records.{
  ClientPair, execute, respond, args_of, call_repeated, process_records,
}
use trust_tee.Runtime.Visit.{
  Port, skipped, progressed, exited, died, pending_check, visit_checked, finish, start_batch, visit,
}
use trust_tee.Runtime.Records.Execute.{
  process-call_mut, process-call_mut_out, process-call_mut_args_out, process-into_inner,
  process-launch, process-terminate,
}

-- The client without the mark of a launch.
abbrev pub cleared : ClientPair → ClientPair
cleared cp = record cp { pending_launch = false }

-- The port with a property and a channel whose response word answers the request.
abbrev pub answer : {T : Type 0} → Port T → T → ChannelPair → Port T
answer p t c = record p {
  client = cleared p.client;
  prop = t;
  chan = record c { response_flags = pack_ready_count (ready p.chan.request_flags) 1 };
}

-- A visit that ends before an answer.
abbrev pub unanswered_port : {T : Type 0} → Port T → T → Port T
unanswered_port p t = record p { client = cleared p.client; prop = t }

-- The channel of `p` holds one request that has not been answered, with the record `hdr`, and no launch is
-- under way.
pub record Requested {T : Type 0} (p : Port T) (hdr : RequestRecordHeader) : Type 0 where
  pub settled :
      pending_check p.client (ready p.chan.request_flags) (ready p.chan.response_flags)
      ≡ some (cleared p.client)
  pub unanswered : same (ready p.chan.request_flags) (ready p.chan.response_flags) ≡ false
  pub one : count p.chan.request_flags ≡ 1
  pub stored :
      read_record
        (p.chan.base + next_boundary_offset header_bytes record_size record_align)
        p.chan.bytes
      ≡ some hdr

pending_check-settled :
    (cp : ClientPair) (req_ready resp_ready : Bool)
    → cp.pending_launch ≡ false
    → pending_check cp req_ready resp_ready ≡ some (cleared cp)
unfolding pending_check
pending_check-settled cp req_ready resp_ready settled =
    ap (λ b. if not b then some cp else later b) settled
    ∙ (λ i. some (record cp { pending_launch = settled i }))
  where
    later : Bool → Option ClientPair
    later b =
        if same req_ready resp_ready
        then some (cleared cp)
        else if not (same req_ready cp.launch_req_ready)
        then some (cleared cp)
        else none

-- No mark of a launch stands, or that of one that the response word has answered.
abbrev pub Settled : ClientPair → ChannelPair → Type 0
Settled cp c = (cp.pending_launch ≡ false) ⊎ (cp.launch_req_ready ≡ ready c.response_flags)

-- Then a request under a flipped ready bit passes the tests on launches.
pub pending_check-cleared :
    (cp : ClientPair) (req_ready resp_ready : Bool)
    → same req_ready resp_ready ≡ false
    → (cp.pending_launch ≡ false) ⊎ (cp.launch_req_ready ≡ resp_ready)
    → pending_check cp req_ready resp_ready ≡ some (cleared cp)
unfolding pending_check
pending_check-cleared cp req_ready resp_ready asked (inl none_pending) =
    pending_check-settled cp req_ready resp_ready none_pending
pending_check-cleared cp req_ready resp_ready asked (inr past) =
    elim (Bool-cases cp.pending_launch) [
      | inl pending ↦ rw (pending, past, asked)
      | inr none_pending ↦ pending_check-settled cp req_ready resp_ready none_pending
    ]

module _ {T : Type 0} (vtables : VTables T) (repr : Repr T) (p : Port T) (hdr : RequestRecordHeader)
    (q : Requested p hdr) where
  open q use {settled, unanswered, one, stored}

  abbrev req_ready : Bool
  req_ready = ready p.chan.request_flags

  -- The visit executes the one record and finishes.
  visit-requested :
      visit vtables repr p
      ≡ finish req_ready
          (process_records vtables repr req_ready 1 (start_batch p (cleared p.client)))
  unfolding visit
  visit-requested =
      ap (visit_checked vtables repr p) settled
      ∙ ap
          (λ b.
            if b
            then skipped (record p { client = cleared p.client })
            else finish req_ready (
                process_records vtables repr req_ready (count p.chan.request_flags)
                  (start_batch p (cleared p.client))))
          unanswered
      ∙ ap
          (λ n.
            finish req_ready
              (process_records vtables repr req_ready n (start_batch p (cleared p.client))))
          one

  pub visit-call_mut_out :
      {t : T} {out : List ℕ}
      → hdr.property_ptr ≡ PropertyPtr.call_mut_out_ptr
      → decode_and_call vtables.call_mut_out hdr p.chan.bytes p.prop ≡ returned t out
      → visit vtables repr p ≡ progressed (answer p t (respond p.chan out))
  unfolding visit respond
  visit-call_mut_out tag ran =
      visit-requested
      ∙ ap (finish req_ready) (
          process-call_mut_out vtables repr req_ready (start_batch p (cleared p.client)) hdr stored
            tag ran)

  -- A panic of the closure on the worker leaves the request unanswered.
  pub visit-call_mut_out_panics :
      {t : T}
      → hdr.property_ptr ≡ PropertyPtr.call_mut_out_ptr
      → decode_and_call vtables.call_mut_out hdr p.chan.bytes p.prop ≡ panicked t
      → visit vtables repr p ≡ died (unanswered_port p t)
  unfolding visit respond
  visit-call_mut_out_panics tag ran =
      visit-requested
      ∙ ap (finish req_ready) (
          process-call_mut_out vtables repr req_ready (start_batch p (cleared p.client)) hdr stored
            tag ran)

  pub visit-call_mut_args_out :
      {t : T} {out : List ℕ}
      → hdr.property_ptr ≡ PropertyPtr.call_mut_args_out_ptr
      → decode_and_call vtables.call_mut_args_out hdr p.chan.bytes (p.prop, args_of p.chan hdr)
        ≡ returned t out
      → visit vtables repr p ≡ progressed (answer p t (respond p.chan out))
  unfolding visit respond
  visit-call_mut_args_out tag ran =
      visit-requested
      ∙ ap (finish req_ready) (
          process-call_mut_args_out vtables repr req_ready (start_batch p (cleared p.client)) hdr
            stored tag ran)

  pub visit-call_mut :
      {t : T}
      → hdr.property_ptr ≡ PropertyPtr.call_mut_ret_unit
      → call_repeated vtables hdr p.chan.bytes hdr.repeat_count p.prop ≡ returned t tt
      → visit vtables repr p ≡ progressed (answer p t p.chan)
  unfolding visit
  visit-call_mut tag ran =
      visit-requested
      ∙ ap (finish req_ready) (
          process-call_mut vtables repr req_ready (start_batch p (cleared p.client)) hdr stored tag
            ran)

  pub visit-call_mut_args_out_panics :
      {t : T}
      → hdr.property_ptr ≡ PropertyPtr.call_mut_args_out_ptr
      → decode_and_call vtables.call_mut_args_out hdr p.chan.bytes (p.prop, args_of p.chan hdr)
        ≡ panicked t
      → visit vtables repr p ≡ died (unanswered_port p t)
  unfolding visit respond
  visit-call_mut_args_out_panics tag ran =
      visit-requested
      ∙ ap (finish req_ready) (
          process-call_mut_args_out vtables repr req_ready (start_batch p (cleared p.client)) hdr
            stored tag ran)

  pub visit-call_mut_panics :
      {t : T}
      → hdr.property_ptr ≡ PropertyPtr.call_mut_ret_unit
      → call_repeated vtables hdr p.chan.bytes hdr.repeat_count p.prop ≡ panicked t
      → visit vtables repr p ≡ died (unanswered_port p t)
  unfolding visit
  visit-call_mut_panics tag ran =
      visit-requested
      ∙ ap (finish req_ready) (
          process-call_mut vtables repr req_ready (start_batch p (cleared p.client)) hdr stored tag
            ran)

  -- The value goes to the response, and the worker returns.
  pub visit-into_inner :
      hdr.property_ptr ≡ PropertyPtr.into_inner
      → visit vtables repr p ≡ exited (answer p p.prop (respond p.chan (repr.encode p.prop)))
  unfolding visit
  visit-into_inner tag =
      visit-requested
      ∙ ap (finish req_ready) (
          process-into_inner vtables repr req_ready (start_batch p (cleared p.client)) hdr stored
            tag)

  -- A launch is handed to a fiber: the response word stays as it is.
  pub visit-launch :
      hdr.property_ptr ≡ PropertyPtr.launch
      → visit vtables repr p
        ≡ progressed (record p {
          client = record p.client { pending_launch = true; launch_req_ready = req_ready };
          jobs = execute hdr p.client.chan req_ready ∷ p.jobs;
        })
  unfolding visit
  visit-launch tag =
      visit-requested
      ∙ ap (finish req_ready)
          (process-launch vtables repr req_ready (start_batch p (cleared p.client)) hdr stored tag)

  -- The worker returns, and the request is not answered.
  pub visit-terminate :
      hdr.property_ptr ≡ PropertyPtr.terminate
      → visit vtables repr p ≡ exited (unanswered_port p p.prop)
  unfolding visit
  visit-terminate tag =
      visit-requested
      ∙ ap (finish req_ready) (
          process-terminate vtables repr req_ready (start_batch p (cleared p.client)) hdr stored
            tag)
