-- ===== src/System/Seen.antt =====
-- src/runtime/runtime.rs: a turn of the worker and the job of a fiber, as each client sees them.
use mathlib.Core.Option
use native.Mathlib.Decide.{ℕ_discrete}
use trust_tee.Prelude.{
  ℕ, erase_idx, ◌≡◌, ◌≢◌, refl, sym, ap, ◌∙◌, inr, subst, Bool, true, [], ◌∷◌, Option, none, some,
  get_elem?,
}
use trust_tee.Memory.{Repr}
use trust_tee.Slots.{RequestRecordHeader}
use trust_tee.Slots.{ready}
use trust_tee.Closures.{VTables}
use trust_tee.Runtime.Records.{ClientPair, Job, execute}
use trust_tee.Runtime.Visit.{Port, run_job}
use trust_tee.Runtime.Visit.Jobs.{on_port, run_job-on}
use trust_tee.Runtime.Worker.{Seat, Worker, slot_index, turn_at, turn}
use trust_tee.Channel.{fiber, gone, others, run_event, first_job}
use trust_tee.System.{System, seats, own, of_turn, job_port, put, link_of}
use trust_tee.System.Own.{own-erase_other, get_elem?-append, seats-set_seat}
use trust_tee.System.Invariant.{IsSystem}
use trust_tee.System.Invariant.Turns.{IsSystemAt}
use trust_tee.System.Invariant.Reached.{run_job-keeps, only_job}
use trust_tee.System.View.{Seen, visit_self, visit_other, get_elem?-set_same, get_elem?-set_other}

module _ {T : Type 0} (vtables : VTables T) (repr : Repr T) where
  pub turn-Seen :
      (w : Worker T) (n offs i : ℕ) (flag : Bool) (a : Seat)
      → IsSystem (seats w) w.jobs
      → get_elem? (seats w) i ≡ some a
      → Seen vtables repr i
          (record { worker = w; running = true })
          (of_turn (turn vtables repr n offs flag w))
          a
  unfolding turn turn_at run_event
  turn-Seen w n offs i flag a h at = go (get_elem? w.clients idx) refl
    where
      idx : ℕ
      idx = slot_index w.start_idx offs n

      go :
          (o : Option Seat)
          → get_elem? w.clients idx ≡ o
          → Seen vtables repr i
              (record { worker = w; running = true })
              (of_turn (turn_at vtables repr w n idx flag o))
              a
      go none found = record {
        events = gone ∷ [];
        seat = a;
        at = at;
        same_chan = refl;
        ran = refl;
        kind = inr tt;
      }
      go (some b) found = elim (ℕ_discrete idx i) [
        | no ne ↦ visit_other vtables repr w idx b found h i a at ne n flag _ refl
        | yes same_place ↦
            subst
              (λ k.
                Seen vtables repr k (record { worker = w; running = true })
                  (of_turn (turn_at vtables repr w n idx flag (some b))) a)
              same_place
              (subst
                (Seen vtables repr idx (record { worker = w; running = true })
                  (of_turn (turn_at vtables repr w n idx flag (some b))))
                (Option.some_inj.0 (
                  sym (get_elem?-append w.clients w.reg idx b found)
                  ∙ ap (get_elem? (seats w)) same_place
                  ∙ at))
                (visit_self vtables repr w idx b found h n flag _ refl))
      ]

  module _ (s : System T) (h : IsSystemAt vtables repr s) (k i : ℕ) (hdr : RequestRecordHeader)
      (req_ready : Bool) (b : Seat)
      (found : get_elem? s.worker.jobs k ≡ some (execute hdr b.client.chan req_ready))
      (place : get_elem? (seats s.worker) i ≡ some b) where
    abbrev pub job : Job
    job = execute hdr b.client.chan req_ready

    abbrev pub p : Port T
    p = run_job vtables repr job (job_port s.worker k b)

    abbrev pub after_fiber : System T
    after_fiber = record s { worker = put s.worker i p }

    kept :
        (p.client ≡ b.client)
        × (p.jobs ≡ erase_idx s.worker.jobs k)
        × (p.chan.request_flags ≡ b.chan.request_flags)
        × (ready p.chan.response_flags ≡ req_ready)
    kept = run_job-keeps vtables repr hdr b.client.chan req_ready (job_port s.worker k b)

    -- The job is the only one that the client sees.
    only :
        (own b.client.chan s.worker.jobs ≡ job ∷ [])
        × (own b.client.chan (erase_idx s.worker.jobs k) ≡ [])
        × (b.client.launch_req_ready ≡ req_ready)
    only = only_job vtables repr s.worker k b hdr req_ready found (h.settled i b place)

    pub fiber_self : Seen vtables repr i s after_fiber b
    unfolding run_event first_job
    fiber_self = record {
      events = fiber ∷ [];
      seat = record { client = p.client; chan = p.chan };
      at =
          ap (λ l. get_elem? l i)
            (seats-set_seat s.worker i (record { client = p.client; chan = p.chan }))
          ∙ get_elem?-set_same (seats s.worker) i (record { client = p.client; chan = p.chan }) b
              place;
      same_chan = ap (λ (c : ClientPair). c.chan) kept.0;
      ran =
          ap (λ c. record { port = on_port (own c) p; running = s.running })
            (ap (λ (c : ClientPair). c.chan) kept.0)
          ∙ ap (λ q. record { port = q; running = s.running })
              (sym (run_job-on vtables repr (own b.client.chan) job (job_port s.worker k b))
                ∙ ap (λ js. run_job vtables repr job (record (job_port s.worker k b) { jobs = js }))
                    only.1)
          ∙ sym (ap (λ js. first_job vtables repr js (link_of s b)) only.0);
      kind = inr tt;
    }

    pub fiber_other :
        (m : ℕ) (a : Seat)
        → get_elem? (seats s.worker) m ≡ some a
        → i ≢ m
        → Seen vtables repr m s after_fiber a
    unfolding run_event
    fiber_other m a at ne = record {
      events = others (λ _. p.prop) ∷ [];
      seat = a;
      at =
          ap (λ l. get_elem? l m)
            (seats-set_seat s.worker i (record { client = p.client; chan = p.chan }))
          ∙ get_elem?-set_other (seats s.worker) i m (record { client = p.client; chan = p.chan })
              ne
          ∙ at;
      same_chan = refl;
      ran = λ x. record {
        port = record { client = a.client; chan = a.chan; prop = p.prop; jobs = same_own x };
        running = s.running;
      };
      kind = inr tt;
    }
      where
        same_own : own a.client.chan p.jobs ≡ own a.client.chan s.worker.jobs
        same_own =
            ap (own a.client.chan) kept.1
            ∙ own-erase_other hdr b.client.chan req_ready a.client.chan s.worker.jobs k found
                (λ e. ne (h.distinct i m b a place at e))

  pub unseen :
      (i : ℕ) (s s' : System T) (a : Seat)
      → get_elem? (seats s'.worker) i ≡ some a
      → s'.worker.prop ≡ s.worker.prop
      → s'.worker.jobs ≡ s.worker.jobs
      → s'.running ≡ s.running
      → Seen vtables repr i s s' a
  unseen i s s' a at same_prop same_jobs same_running = record {
    events = [];
    seat = a;
    at = at;
    same_chan = refl;
    ran = λ x. record {
      port = record {
        client = a.client;
        chan = a.chan;
        prop = same_prop x;
        jobs = own a.client.chan (same_jobs x);
      };
      running = same_running x;
    };
    kind = inr tt;
  }
