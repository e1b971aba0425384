-- ===== src/Runtime/Records.antt =====
-- src/runtime/runtime.rs: how the trustee executes the records of one request.
pub mod Execute
pub mod Jobs
pub mod Data
use trust_tee.Prelude.{ℕ, zero, suc, ◌+◌, Bool, true, List, ◌∷◌, Option, none, some}
use trust_tee.Memory.{Memory, write, read, Repr}
use trust_tee.Slots.{
  PropertyPtr, RequestRecordHeader, ChannelPair, header_bytes, record_size, record_align,
  pack_ready_count, ready, next_boundary_offset, read_record, response_base,
}
use trust_tee.Serialization.{decode_and_call}
use trust_tee.Closures.{Ran, returned, panicked, VTables}

-- `chan` tells one channel from another.
pub record ClientPair : Type 0 where
  pub chan : ℕ
  pub pending_launch : Bool
  pub launch_req_ready : Bool

-- The closure of a `Job::Execute` holds a copy of the record header, the channel that it answers
-- on, and the ready bit that its completion guard stores.
pub data Job : Type 0 where
  execute : RequestRecordHeader → ℕ → Bool → Job
  shutdown : Job

-- Where the response of a channel begins.
abbrev pub resp_data : ChannelPair → ℕ
resp_data c = response_base c + header_bytes

-- A closure that got `resp_data` for its `out` pointer wrote `out` there, without a check of its length, as in the
-- source; beyond the slot it would write to memory that the model does not have.
unfoldable pub respond : ChannelPair → List ℕ → ChannelPair
respond c out = record c { bytes = write (resp_data c) out c.bytes }

-- The local variables of a batch, with what it shares: the property and the channel.
pub record Batch (T : Type 0) : Type 0 where
  pub client : ClientPair
  pub chan : ChannelPair
  pub prop : T
  pub jobs : List Job
  pub header_cursor : ℕ
  pub processed : ℕ
  pub deferred_response : Bool

-- How the work on a record, or on a batch of them, ends: the loop goes on, the worker returns, a
-- closure panics on the worker, or the record holds no valid property word.
pub data Flow (T : Type 0) : Type 0 where
  continues : Batch T → Flow T
  returns : Batch T → Flow T
  unwinds : Batch T → Flow T
  invalid : Batch T → Flow T

-- The bytes at `args_offset` of the request slot.
unfoldable pub args_of : ChannelPair → RequestRecordHeader → List ℕ
args_of c hdr = read (c.base + hdr.args_offset) hdr.args_len c.bytes

module _ {T : Type 0} where
  -- The closure of a record, called `n` times.
  unfoldable pub call_repeated : VTables T → RequestRecordHeader → Memory → ℕ → T → Ran T (Unit {0})
  call_repeated vtables hdr m zero t = returned t tt
  call_repeated vtables hdr m (suc n) t = elim (decode_and_call vtables.call_mut hdr m t) [
    | returned t' _ ↦ call_repeated vtables hdr m n t'
    | panicked t' ↦ panicked t'
  ]

  unfoldable pub after_unit : Batch T → Ran T (Unit {0}) → Flow T
  after_unit b (returned t _) = continues (record b { prop = t })
  after_unit b (panicked t) = unwinds (record b { prop = t })

  unfoldable pub after_out : Batch T → Ran T (List ℕ) → Flow T
  unfolding respond
  after_out b (returned t out) = continues (record b { prop = t; chan = respond b.chan out })
  after_out b (panicked t) = unwinds (record b { prop = t })

  -- The end of a round: the loop goes on with the next record, or is left.
  unfoldable pub proceed : (Batch T → Flow T) → Flow T → Flow T
  proceed next (continues b) =
      next (record b { header_cursor = b.header_cursor + record_size; processed = b.processed + 1 })
  proceed next (returns b) = returns b
  proceed next (unwinds b) = unwinds b
  proceed next (invalid b) = invalid b

module _ {T : Type 0} (vtables : VTables T) (repr : Repr T) where
  -- The `match` on the property word. `req_ready` was loaded before the batch.
  execute_record : PropertyPtr → RequestRecordHeader → Bool → Batch T → Flow T
  unfolding call_repeated after_unit after_out args_of respond
  execute_record PropertyPtr.call_mut_ret_unit hdr req_ready b =
      after_unit b (call_repeated vtables hdr b.chan.bytes hdr.repeat_count b.prop)
  execute_record PropertyPtr.call_mut_out_ptr hdr req_ready b =
      after_out b (decode_and_call vtables.call_mut_out hdr b.chan.bytes b.prop)
  execute_record PropertyPtr.call_mut_args_out_ptr hdr req_ready b =
      after_out b
        (decode_and_call vtables.call_mut_args_out hdr b.chan.bytes (b.prop, args_of b.chan hdr))
  execute_record PropertyPtr.into_inner hdr req_ready b =
      let c = respond b.chan (repr.encode b.prop) in
      returns (record b {
        chan = record c { response_flags = pack_ready_count (ready c.request_flags) 1 };
      })
  execute_record PropertyPtr.launch hdr req_ready b = continues (record b {
    deferred_response = true;
    client = record b.client { pending_launch = true; launch_req_ready = req_ready };
    jobs = execute hdr b.client.chan req_ready ∷ b.jobs;
  })
  execute_record PropertyPtr.terminate hdr req_ready b = returns b

  read_and_execute : Option RequestRecordHeader → Bool → Batch T → Flow T
  unfolding execute_record
  read_and_execute none req_ready b = invalid b
  read_and_execute (some hdr) req_ready b = execute_record hdr.property_ptr hdr req_ready b

  -- One round of `for _ in 0..req_count`, and the loop.
  pub process_record : Bool → Batch T → Flow T
  unfolding read_and_execute
  process_record req_ready b =
      let cursor = next_boundary_offset b.header_cursor record_size record_align in
      read_and_execute (read_record (b.chan.base + cursor) b.chan.bytes) req_ready
        (record b { header_cursor = cursor })

  unfoldable pub process_records : Bool → ℕ → Batch T → Flow T
  unfolding process_record proceed
  process_records req_ready zero b = continues b
  process_records req_ready (suc n) b =
      proceed (process_records req_ready n) (process_record req_ready b)
