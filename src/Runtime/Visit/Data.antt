-- ===== src/Runtime/Visit/Data.antt =====
-- src/runtime/runtime.rs: what the closures keep true of the property, through a visit and the job of a fiber.
use trust_tee.Prelude.{Bool, Bool-cases, inl, inr, same, List, ℕ, Option, none, some}
use trust_tee.Memory.{Repr}
use trust_tee.Slots.{ready, count}
use trust_tee.Serialization.{decode_and_call}
use trust_tee.Closures.{Ran, returned, panicked, VTables}
use trust_tee.Runtime.Records.{
  ClientPair, Job, execute, shutdown, Flow, continues, returns, unwinds, invalid, process_records,
}
use trust_tee.Runtime.Records.Jobs.{flow_batch}
use trust_tee.Runtime.Records.Data.{left, Respects, process_records-keeps}
use trust_tee.Runtime.Visit.{
  Port, complete, finish, complete_job, start_batch, visit_checked, visit, run_job, batch_port,
}
use trust_tee.Runtime.Visit.Jobs.{visit_port}

module _ {T : Type 0} (vtables : VTables T) (repr : Repr T) (P : T → Type 0)
    (respects : Respects vtables P) where
  finish-keeps :
      (req_ready : Bool) (f : Flow T)
      → P (flow_batch f).prop
      → P (visit_port (finish req_ready f)).prop
  unfolding finish complete batch_port
  finish-keeps req_ready (continues b) p = elim (Bool-cases b.deferred_response) [
    | inl deferred ↦ rw deferred p
    | inr answers ↦ rw answers p
  ]
  finish-keeps req_ready (returns b) p = p
  finish-keeps req_ready (unwinds b) p = p
  finish-keeps req_ready (invalid b) p = p

  visit_checked-keeps :
      (p : Port T) (o : Option ClientPair)
      → P p.prop
      → P (visit_port (visit_checked vtables repr p o)).prop
  unfolding visit_checked start_batch
  visit_checked-keeps p none h = h
  visit_checked-keeps p (some cp) h =
      elim (Bool-cases (same (ready p.chan.request_flags) (ready p.chan.response_flags))) [
        | inl answered ↦ rw answered h
        | inr asked ↦ rw asked (
            finish-keeps (ready p.chan.request_flags)
              (process_records vtables repr (ready p.chan.request_flags)
                (count p.chan.request_flags) (start_batch p cp))
              (process_records-keeps vtables repr P respects (ready p.chan.request_flags)
                (count p.chan.request_flags) (start_batch p cp) h))
      ]

  complete_job-keeps :
      (p : Port T) (req_ready : Bool) (ran : Ran T (List ℕ))
      → P (left ran)
      → P (complete_job p req_ready ran).prop
  unfolding complete_job
  complete_job-keeps p req_ready (returned t out) h = h
  complete_job-keeps p req_ready (panicked t) h = h

  pub run_job-keeps_data : (j : Job) (p : Port T) → P p.prop → P (run_job vtables repr j p).prop
  unfolding run_job decode_and_call
  run_job-keeps_data (execute hdr chan req_ready) p h =
      complete_job-keeps p req_ready (decode_and_call vtables.call_mut_out hdr p.chan.bytes p.prop)
        (respects.call_mut_out hdr.closure.vtable hdr.closure.data_ptr p.chan.bytes p.prop h)
  run_job-keeps_data shutdown p h = h

  pub visit-keeps : (p : Port T) → P p.prop → P (visit_port (visit vtables repr p)).prop
  unfolding visit
  visit-keeps p h = visit_checked-keeps p _ h
