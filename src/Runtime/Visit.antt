-- ===== src/Runtime/Visit.antt =====
-- src/runtime/runtime.rs: what the trustee does when it visits the channel of one client, and the
-- jobs that a launched fiber runs.
pub mod Serve
pub mod Pending
pub mod Jobs
pub mod Single
pub mod Data
pub mod Idle
use trust_tee.Prelude.{
  ℕ, ◌%◌, Bool, true, false, not, same, List, Option, none, some, if◌then◌else◌,
}
use trust_tee.Memory.{Repr}
use trust_tee.Slots.{ChannelPair, header_bytes, u32_mod, pack_ready_count, ready, count}
use trust_tee.Serialization.{decode_and_call}
use trust_tee.Closures.{Ran, returned, panicked, VTables}
use trust_tee.Runtime.Records.{
  ClientPair, Job, execute, shutdown, Batch, Flow, continues, returns, unwinds, invalid, respond,
  process_records,
}

-- One client, its channel, the property, and the jobs that wait for a fiber.
pub record Port (T : Type 0) : Type 0 where
  pub client : ClientPair
  pub chan : ChannelPair
  pub prop : T
  pub jobs : List Job

-- How a visit ends: `continue`, a response or a launch, `return` of the worker, or its end by a panic
-- or by a word that is no property.
pub data Visit (T : Type 0) : Type 0 where
  skipped : Port T → Visit T
  progressed : Port T → Visit T
  exited : Port T → Visit T
  died : Port T → Visit T
  undefined : Port T → Visit T

-- The tests on `pending_launch`: `none` where the launch is still in progress.
unfoldable pub pending_check : ClientPair → Bool → Bool → Option ClientPair
pending_check cp req_ready resp_ready =
    if not cp.pending_launch
    then some cp
    else if same req_ready resp_ready
    then some (record cp { pending_launch = false })
    else if not (same req_ready cp.launch_req_ready)
    then some (record cp { pending_launch = false })
    else none

module _ {T : Type 0} where
  batch_port : Batch T → Port T
  batch_port b = record { client = b.client; chan = b.chan; prop = b.prop; jobs = b.jobs }

  -- The response word, unless a launch answers later.
  complete : Bool → Batch T → Port T
  unfolding batch_port
  complete req_ready b =
      let p = batch_port b in
      if b.deferred_response then p else record p {
        chan = record b.chan {
          response_flags = pack_ready_count req_ready (b.processed % u32_mod);
        };
      }

  finish : Bool → Flow T → Visit T
  unfolding complete batch_port
  finish req_ready (continues b) = progressed (complete req_ready b)
  finish req_ready (returns b) = exited (batch_port b)
  finish req_ready (unwinds b) = died (batch_port b)
  finish req_ready (invalid b) = undefined (batch_port b)

  start_batch : Port T → ClientPair → Batch T
  start_batch p cp = record {
    client = cp;
    chan = p.chan;
    prop = p.prop;
    jobs = p.jobs;
    header_cursor = header_bytes;
    processed = 0;
    deferred_response = false;
  }

  -- The completion guard stores the response word when it drops, also when the closure panicked.
  unfoldable pub complete_job : Port T → Bool → Ran T (List ℕ) → Port T
  complete_job p req_ready (returned t out) = record p {
    prop = t;
    chan = record (respond p.chan out) { response_flags = pack_ready_count req_ready 1 };
  }
  complete_job p req_ready (panicked t) = record p {
    prop = t;
    chan = record p.chan { response_flags = pack_ready_count req_ready 1 };
  }

module _ {T : Type 0} (vtables : VTables T) (repr : Repr T) where
  visit_checked : Port T → Option ClientPair → Visit T
  unfolding finish start_batch process_records
  visit_checked p none = skipped p
  visit_checked p (some cp) =
      let req_ready = ready p.chan.request_flags in
      if same req_ready (ready p.chan.response_flags)
      then skipped (record p { client = cp })
      else finish req_ready
          (process_records vtables repr req_ready (count p.chan.request_flags) (start_batch p cp))

  -- The body of `for offs in 0..n`, at one client.
  unfoldable pub visit : Port T → Visit T
  unfolding visit_checked pending_check
  visit p =
      visit_checked p
        (pending_check p.client (ready p.chan.request_flags) (ready p.chan.response_flags))

  -- A fiber runs one job: the rest of its closure after the last time it waits. What the closure does to the
  -- property before is not part of the job.
  unfoldable pub run_job : Job → Port T → Port T
  unfolding complete_job respond
  run_job (execute hdr chan req_ready) p =
      complete_job p req_ready (decode_and_call vtables.call_mut_out hdr p.chan.bytes p.prop)
  run_job shutdown p = p
