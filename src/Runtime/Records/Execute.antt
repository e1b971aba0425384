-- ===== src/Runtime/Records/Execute.antt =====
-- src/runtime/runtime.rs: one record, by its property word.
use trust_tee.Prelude.{ℕ, zero, suc, ◌+◌, ◌≡◌, refl, ap, ◌∙◌, Bool, true, List, ◌∷◌, some, iterate}
use trust_tee.Memory.{Memory, Repr}
use trust_tee.Slots.{
  PropertyPtr, RequestRecordHeader, record_size, record_align, pack_ready_count, ready,
  next_boundary_offset, read_record,
}
use trust_tee.Serialization.{decode_and_call}
use trust_tee.Closures.{Ran, returned, VTables}
use trust_tee.Runtime.Records.{
  Batch, Flow, continues, returns, execute, respond, args_of, after_unit, after_out, call_repeated,
  execute_record, read_and_execute, proceed, process_records,
}

module _ {T : Type 0} (vtables : VTables T) (repr : Repr T) (req_ready : Bool) (b : Batch T)
    (hdr : RequestRecordHeader)
    (stored : read_record
        (b.chan.base + next_boundary_offset b.header_cursor record_size record_align)
        b.chan.bytes
      ≡ some hdr) where
  abbrev pub at_record : Batch T
  at_record = record b {
    header_cursor = next_boundary_offset b.header_cursor record_size record_align;
  }

  abbrev pub counted : Flow T → Flow T
  counted = proceed continues

  -- A batch of one record executes it, and then counts it.
  process-one :
      process_records vtables repr req_ready 1 b
      ≡ counted (execute_record vtables repr hdr.property_ptr hdr req_ready at_record)
  unfolding process_records
  process-one = ap (λ r. counted (read_and_execute vtables repr r req_ready at_record)) stored

  pub process-call_mut :
      {ran : Ran T (Unit {0})}
      → hdr.property_ptr ≡ PropertyPtr.call_mut_ret_unit
      → call_repeated vtables hdr b.chan.bytes hdr.repeat_count b.prop ≡ ran
      → process_records vtables repr req_ready 1 b ≡ counted (after_unit at_record ran)
  unfolding execute_record
  process-call_mut tag ran =
      process-one
      ∙ ap (λ t. counted (execute_record vtables repr t hdr req_ready at_record)) tag
      ∙ ap (λ r. counted (after_unit at_record r)) ran

  pub process-call_mut_out :
      {ran : Ran T (List ℕ)}
      → hdr.property_ptr ≡ PropertyPtr.call_mut_out_ptr
      → decode_and_call vtables.call_mut_out hdr b.chan.bytes b.prop ≡ ran
      → process_records vtables repr req_ready 1 b ≡ counted (after_out at_record ran)
  unfolding execute_record
  process-call_mut_out tag ran =
      process-one
      ∙ ap (λ t. counted (execute_record vtables repr t hdr req_ready at_record)) tag
      ∙ ap (λ r. counted (after_out at_record r)) ran

  pub process-call_mut_args_out :
      {ran : Ran T (List ℕ)}
      → hdr.property_ptr ≡ PropertyPtr.call_mut_args_out_ptr
      → decode_and_call vtables.call_mut_args_out hdr b.chan.bytes (b.prop, args_of b.chan hdr)
        ≡ ran
      → process_records vtables repr req_ready 1 b ≡ counted (after_out at_record ran)
  unfolding execute_record
  process-call_mut_args_out tag ran =
      process-one
      ∙ ap (λ t. counted (execute_record vtables repr t hdr req_ready at_record)) tag
      ∙ ap (λ r. counted (after_out at_record r)) ran

  pub process-into_inner :
      hdr.property_ptr ≡ PropertyPtr.into_inner
      → process_records vtables repr req_ready 1 b
        ≡ returns (record at_record {
          chan = record (respond b.chan (repr.encode b.prop)) {
            response_flags = pack_ready_count (ready b.chan.request_flags) 1;
          };
        })
  unfolding execute_record respond proceed
  process-into_inner tag =
      process-one ∙ ap (λ t. counted (execute_record vtables repr t hdr req_ready at_record)) tag

  pub process-launch :
      hdr.property_ptr ≡ PropertyPtr.launch
      → process_records vtables repr req_ready 1 b
        ≡ counted (
            continues (record at_record {
              deferred_response = true;
              client = record b.client { pending_launch = true; launch_req_ready = req_ready };
              jobs = execute hdr b.client.chan req_ready ∷ b.jobs;
            }))
  unfolding execute_record
  process-launch tag =
      process-one ∙ ap (λ t. counted (execute_record vtables repr t hdr req_ready at_record)) tag

  pub process-terminate :
      hdr.property_ptr ≡ PropertyPtr.terminate
      → process_records vtables repr req_ready 1 b ≡ returns at_record
  unfolding execute_record proceed
  process-terminate tag =
      process-one ∙ ap (λ t. counted (execute_record vtables repr t hdr req_ready at_record)) tag

-- A closure that returns is called as often as its record says.
pub call_repeated-iterate :
    {T : Type 0} (vtables : VTables T) (hdr : RequestRecordHeader) (m : Memory) (g : T → T)
    → ((t : T) → decode_and_call vtables.call_mut hdr m t ≡ returned (g t) tt)
    → (n : ℕ) (t : T) → call_repeated vtables hdr m n t ≡ returned (iterate n g t) tt
unfolding call_repeated iterate
call_repeated-iterate vtables hdr m g ran zero t = refl
call_repeated-iterate vtables hdr m g ran (suc n) t =
    rw (call_repeated, ran t) (call_repeated-iterate vtables hdr m g ran n (g t))
