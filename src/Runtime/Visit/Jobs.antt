-- ===== src/Runtime/Visit/Jobs.antt =====
-- src/runtime/runtime.rs: a visit and the list of jobs.
use trust_tee.Prelude.{
  ℕ, ◌≡◌, refl, sym, ap, ◌∙◌, subst, inl, inr, Bool, same, Bool-cases, false, List, Option, none,
  some, arith,
}
use trust_tee.Memory.{Repr}
use trust_tee.Slots.{ready, count}
use trust_tee.Closures.{Ran, returned, panicked, VTables}
use trust_tee.Runtime.Records.{
  ClientPair, Job, execute, shutdown, Batch, Flow, continues, returns, unwinds, invalid,
}
use trust_tee.Runtime.Records.Jobs.{on_batch, on_flow, Keeps, process_records-on}
use trust_tee.Runtime.Visit.{
  Port, Visit, skipped, progressed, exited, died, undefined, pending_check, batch_port, complete,
  finish, start_batch, complete_job, visit_checked, visit, run_job,
}

module _ {T : Type 0} where
  abbrev pub on_port : (List Job → List Job) → Port T → Port T
  on_port φ p = record p { jobs = φ p.jobs }

  abbrev pub on_visit : (List Job → List Job) → Visit T → Visit T
  on_visit φ (skipped p) = skipped (on_port φ p)
  on_visit φ (progressed p) = progressed (on_port φ p)
  on_visit φ (exited p) = exited (on_port φ p)
  on_visit φ (died p) = died (on_port φ p)
  on_visit φ (undefined p) = undefined (on_port φ p)

  abbrev pub visit_port : Visit T → Port T
  visit_port (skipped p) = p
  visit_port (progressed p) = p
  visit_port (exited p) = p
  visit_port (died p) = p
  visit_port (undefined p) = p

  complete-on :
      (φ : List Job → List Job) (req_ready : Bool) (b : Batch T)
      → complete req_ready (on_batch φ b) ≡ on_port φ (complete req_ready b)
  unfolding complete batch_port
  complete-on φ req_ready b = elim (Bool-cases b.deferred_response) [
    | inl deferred ↦ rw deferred
    | inr answers ↦ rw answers
  ]

  finish-on :
      (φ : List Job → List Job) (req_ready : Bool) (f : Flow T)
      → finish req_ready (on_flow φ f) ≡ on_visit φ (finish req_ready f)
  unfolding finish batch_port
  finish-on φ req_ready (continues b) = ap progressed (complete-on φ req_ready b)
  finish-on φ req_ready (returns b) = refl
  finish-on φ req_ready (unwinds b) = refl
  finish-on φ req_ready (invalid b) = refl

  pub complete_job-on :
      (φ : List Job → List Job) (p : Port T) (req_ready : Bool) (ran : Ran T (List ℕ))
      → complete_job (on_port φ p) req_ready ran ≡ on_port φ (complete_job p req_ready ran)
  unfolding complete_job
  complete_job-on φ p req_ready (returned t out) = refl
  complete_job-on φ p req_ready (panicked t) = refl

pub pending_check-chan :
    (cp cp' : ClientPair) (req_ready resp_ready : Bool)
    → pending_check cp req_ready resp_ready ≡ some cp'
    → cp'.chan ≡ cp.chan
unfolding pending_check
pending_check-chan cp cp' req_ready resp_ready h = ground arith

pub pending_check-pending :
    (cp cp' : ClientPair) (req_ready resp_ready : Bool)
    → pending_check cp req_ready resp_ready ≡ some cp'
    → cp'.pending_launch ≡ false
unfolding pending_check
pending_check-pending cp cp' req_ready resp_ready h = ground arith

module _ {T : Type 0} (vtables : VTables T) (repr : Repr T) where
  checked-on :
      (φ : List Job → List Job) (p : Port T) (o : Option ClientPair)
      → ((cp : ClientPair) → o ≡ some cp → Keeps φ cp.chan)
      → visit_checked vtables repr (on_port φ p) o ≡ on_visit φ (visit_checked vtables repr p o)
  unfolding visit_checked start_batch
  checked-on φ p none keeps = refl
  checked-on φ p (some cp) keeps =
      elim (Bool-cases (same (ready p.chan.request_flags) (ready p.chan.response_flags))) [
        | inl answered ↦ rw answered
        | inr asked ↦ rw asked (
            ap (finish (ready p.chan.request_flags)) (
              process_records-on vtables repr (ready p.chan.request_flags) φ
                (count p.chan.request_flags) (start_batch p cp) (keeps cp refl))
            ∙ finish-on φ (ready p.chan.request_flags) _)
      ]

  -- A visit to a channel, seen through a map that keeps its jobs.
  pub visit-on :
      (φ : List Job → List Job) (p : Port T)
      → Keeps φ p.client.chan
      → visit vtables repr (on_port φ p) ≡ on_visit φ (visit vtables repr p)
  unfolding visit
  visit-on φ p keeps = checked-on φ p _ (λ cp e.
      subst (Keeps φ)
        (sym (
          pending_check-chan p.client cp (ready p.chan.request_flags) (ready p.chan.response_flags)
            e))
        keeps)

  pub run_job-on :
      (φ : List Job → List Job) (j : Job) (p : Port T)
      → run_job vtables repr j (on_port φ p) ≡ on_port φ (run_job vtables repr j p)
  unfolding run_job
  run_job-on φ (execute hdr chan req_ready) p = complete_job-on φ p req_ready _
  run_job-on φ shutdown p = refl
