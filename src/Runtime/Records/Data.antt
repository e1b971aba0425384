-- ===== src/Runtime/Records/Data.antt =====
-- src/runtime/runtime.rs: what the closures keep true of the property, through the record loop.
use trust_tee.Prelude.{ℕ, zero, suc, Bool, List, Option, none, some}
use trust_tee.Memory.{Memory, Repr}
use trust_tee.Slots.{PropertyPtr, RequestRecordHeader}
use trust_tee.Serialization.{decode_and_call}
use trust_tee.Closures.{Ran, returned, panicked, VTables}
use trust_tee.Runtime.Records.{
  Batch, Flow, continues, returns, unwinds, invalid, call_repeated, after_unit, after_out, args_of,
  execute_record, read_and_execute, process_record, proceed, process_records,
}
use trust_tee.Runtime.Records.Jobs.{flow_batch}

-- The property after a closure, which may have panicked half-way.
abbrev pub left : {T R : Type 0} → Ran T R → T
left (returned t r) = t
left (panicked t) = t

-- Whatever a vtable is called with, the closure keeps `P`, also where it panics.
pub record Respects {T : Type 0} (vtables : VTables T) (P : T → Type 0) : Type 0 where
  pub call_mut :
      (a env : ℕ) (m : Memory) (t : T)
      → P t
      → P (left ((vtables.call_mut a).call_once_in_place env m t))
  pub call_mut_out :
      (a env : ℕ) (m : Memory) (t : T)
      → P t
      → P (left ((vtables.call_mut_out a).call_once_in_place env m t))
  pub call_mut_args_out :
      (a env : ℕ) (m : Memory) (t : T) (args : List ℕ)
      → P t
      → P (left ((vtables.call_mut_args_out a).call_once_in_place env m (t, args)))

module _ {T : Type 0} (vtables : VTables T) (repr : Repr T) (P : T → Type 0)
    (respects : Respects vtables P) where
  call_repeated-keeps :
      (hdr : RequestRecordHeader) (m : Memory) (n : ℕ) (t : T)
      → P t
      → P (left (call_repeated vtables hdr m n t))
  unfolding call_repeated decode_and_call
  call_repeated-keeps hdr m zero t p = p
  call_repeated-keeps hdr m (suc n) t p =
      go (decode_and_call vtables.call_mut hdr m t) (call_repeated-keeps hdr m n)
        (respects.call_mut hdr.closure.vtable hdr.closure.data_ptr m t p)
    where
      go :
          (ran : Ran T (Unit {0}))
          → ((t' : T) → P t' → P (left (call_repeated vtables hdr m n t')))
          → P (left ran)
          → P (
              left (
                let r : Ran T (Unit {0}) = elim ran [
                  | returned t' _ ↦ call_repeated vtables hdr m n t'
                  | panicked t' ↦ panicked t'
                ] in
                r))
      go (returned t' _) rest q = rest t' q
      go (panicked t') rest q = q

  after_unit-keeps :
      (b : Batch T) (ran : Ran T (Unit {0})) → P (left ran) → P (flow_batch (after_unit b ran)).prop
  unfolding after_unit
  after_unit-keeps b (returned t _) p = p
  after_unit-keeps b (panicked t) p = p

  after_out-keeps :
      (b : Batch T) (ran : Ran T (List ℕ)) → P (left ran) → P (flow_batch (after_out b ran)).prop
  unfolding after_out
  after_out-keeps b (returned t out) p = p
  after_out-keeps b (panicked t) p = p

  execute_record-keeps :
      (q : PropertyPtr) (hdr : RequestRecordHeader) (req_ready : Bool) (b : Batch T)
      → P b.prop
      → P (flow_batch (execute_record vtables repr q hdr req_ready b)).prop
  unfolding execute_record decode_and_call
  execute_record-keeps PropertyPtr.call_mut_ret_unit hdr req_ready b p =
      after_unit-keeps b (call_repeated vtables hdr b.chan.bytes hdr.repeat_count b.prop)
        (call_repeated-keeps hdr b.chan.bytes hdr.repeat_count b.prop p)
  execute_record-keeps PropertyPtr.call_mut_out_ptr hdr req_ready b p =
      after_out-keeps b (decode_and_call vtables.call_mut_out hdr b.chan.bytes b.prop)
        (respects.call_mut_out hdr.closure.vtable hdr.closure.data_ptr b.chan.bytes b.prop p)
  execute_record-keeps PropertyPtr.call_mut_args_out_ptr hdr req_ready b p =
      after_out-keeps b
        (decode_and_call vtables.call_mut_args_out hdr b.chan.bytes (b.prop, args_of b.chan hdr))
        (respects.call_mut_args_out hdr.closure.vtable hdr.closure.data_ptr b.chan.bytes b.prop
          (args_of b.chan hdr) p)
  execute_record-keeps PropertyPtr.into_inner hdr req_ready b p = p
  execute_record-keeps PropertyPtr.launch hdr req_ready b p = p
  execute_record-keeps PropertyPtr.terminate hdr req_ready b p = p

  read-keeps :
      (o : Option RequestRecordHeader) (req_ready : Bool) (b : Batch T)
      → P b.prop
      → P (flow_batch (read_and_execute vtables repr o req_ready b)).prop
  unfolding read_and_execute
  read-keeps none req_ready b p = p
  read-keeps (some hdr) req_ready b p = execute_record-keeps hdr.property_ptr hdr req_ready b p

  pub process_records-keeps :
      (req_ready : Bool) (n : ℕ) (b : Batch T)
      → P b.prop
      → P (flow_batch (process_records vtables repr req_ready n b)).prop
  unfolding process_records process_record proceed
  process_records-keeps req_ready zero b p = p
  process_records-keeps req_ready (suc n) b p =
      go (process_record vtables repr req_ready b) (process_records-keeps req_ready n)
        (read-keeps _ req_ready _ p)
    where
      go :
          (f : Flow T)
          → ((b' : Batch T)
              → P b'.prop
              → P (flow_batch (process_records vtables repr req_ready n b')).prop)
          → P (flow_batch f).prop
          → P (flow_batch (proceed (process_records vtables repr req_ready n) f)).prop
      go (continues b') rest q = rest _ q
      go (returns b') rest q = q
      go (unwinds b') rest q = q
      go (invalid b') rest q = q
