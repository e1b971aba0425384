-- ===== src/System/Data.antt =====
-- src/runtime/runtime.rs and src/trust/remote.rs together: what the closures of all clients keep true of the
-- property, whoever posts them and in whatever order the worker and its fibers run them.
use trust_tee.Prelude.{ℕ, sym, subst, Bool, Option, none, some, get_elem?}
use trust_tee.Memory.{Repr}
use trust_tee.Closures.{VTables}
use trust_tee.Runtime.Records.{execute}
use trust_tee.Runtime.Records.Data.{Respects}
use trust_tee.Runtime.Visit.{Visit, skipped, progressed, exited, died, undefined, visit}
use trust_tee.Runtime.Visit.Jobs.{visit_port}
use trust_tee.Runtime.Visit.Data.{visit-keeps, run_job-keeps_data}
use trust_tee.Runtime.Worker.{Seat, Worker, port_at, slot_index, after_visit, turn_at, turn}
use trust_tee.Runtime.Worker.Registers.{poll_same}
use trust_tee.Runtime.Handles.{spawn, register}
use trust_tee.System.{
  System, of_turn, job_port, Step, turned, polled, idled, fiber_ran, used, registered, Post, posted,
  Reach, spawned, step, post,
}

module _ {T : Type 0} (vtables : VTables T) (repr : Repr T) (P : T → Type 0) where
  -- A use of the property on the trustee's own thread keeps `P` too.
  abbrev pub StepKeeps : {s s' : System T} → Step vtables repr s s' → Type 0
  StepKeeps (used g) = (t : T) → P t → P (g t)
  StepKeeps (turned n offs b running) = Unit {0}
  StepKeeps (polled running) = Unit {0}
  StepKeeps (idled k) = Unit {0}
  StepKeeps (fiber_ran k i hdr req_ready a found place) = Unit {0}
  StepKeeps (registered c fresh) = Unit {0}

  abbrev pub ReachKeeps :
      {value : T} {base : ℕ} {s : System T} → Reach vtables repr value base s → Type 0
  ReachKeeps spawned = Unit {0}
  ReachKeeps (step r m) = ReachKeeps r × StepKeeps m
  ReachKeeps (post i r m) = ReachKeeps r

module _ {T : Type 0} (vtables : VTables T) (repr : Repr T) (P : T → Type 0)
    (respects : Respects vtables P) where
  after_visit-keeps :
      (w : Worker T) (n idx : ℕ) (b : Bool) (v : Visit T)
      → P (visit_port v).prop
      → P (of_turn (after_visit w n idx b v)).worker.prop
  unfolding after_visit
  after_visit-keeps w n idx b (skipped p) h = h
  after_visit-keeps w n idx b (progressed p) h = h
  after_visit-keeps w n idx b (exited p) h = h
  after_visit-keeps w n idx b (died p) h = h
  after_visit-keeps w n idx b (undefined p) h = h

  turn_at-keeps :
      (w : Worker T) (n idx : ℕ) (b : Bool) (o : Option Seat)
      → P w.prop
      → P (of_turn (turn_at vtables repr w n idx b o)).worker.prop
  unfolding turn_at
  turn_at-keeps w n idx b none h = h
  turn_at-keeps w n idx b (some a) h =
      after_visit-keeps w n idx b (visit vtables repr (port_at w a))
        (visit-keeps vtables repr P respects (port_at w a) h)

  Step-keeps :
      {s s' : System T} (m : Step vtables repr s s')
      → StepKeeps vtables repr P m
      → P s.worker.prop
      → P s'.worker.prop
  unfolding turn
  Step-keeps {s} (turned n offs b running) k h =
      turn_at-keeps s.worker n (slot_index s.worker.start_idx offs n) b
        (get_elem? s.worker.clients (slot_index s.worker.start_idx offs n)) h
  Step-keeps {s} (polled running) k h = subst P (sym (poll_same s.worker).0) h
  Step-keeps (idled n) k h = h
  Step-keeps {s} (fiber_ran n i hdr req_ready a found place) k h =
      run_job-keeps_data vtables repr P respects (execute hdr a.client.chan req_ready)
        (job_port s.worker n a) h
  Step-keeps {s} (used g) k h = k s.worker.prop h
  Step-keeps (registered c fresh) k h = h

  Post-keeps :
      {i : ℕ} {s s' : System T} → Post vtables repr i s s' → P s.worker.prop → P s'.worker.prop
  Post-keeps (posted a c place answered is_post) h = h

  -- What holds of the value that a trustee is given, and is kept by the closures of its clients, also where
  -- they panic, and by the uses on the trustee's own thread, holds of the property in every state that is
  -- reached, whatever clients register and post, and in whatever order the worker and its fibers
  -- run what was posted.
  pub data_invariant :
      {value : T} {base : ℕ} {s : System T} (r : Reach vtables repr value base s)
      → ReachKeeps vtables repr P r
      → P value
      → P s.worker.prop
  unfolding spawn register
  data_invariant spawned k h = h
  data_invariant (step r m) k h = Step-keeps m k.1 (data_invariant r k.0 h)
  data_invariant (post i r m) k h = Post-keeps m (data_invariant r k h)
