-- ===== src/System.antt =====
-- src/runtime/runtime.rs and src/trust/remote.rs together: the worker, its fibers, and all its clients, one
-- step at a time and in any order. A client is numbered by its place in the order of registration.
pub mod Own
pub mod Invariant
pub mod View
pub mod Seen
pub mod Watched
pub mod Visited
pub mod FirstVisit
pub mod Steps
pub mod Calls
pub mod Data
pub mod Log
use trust_tee.Prelude.{
  ℕ, zero, suc, ◌+◌, ◌-◌, ◌≤◌, ◌≡◌, ◌≢◌, Bool, true, false, not, same, ltb, ◌==◌, List, [], ◌∷◌,
  ◌++◌, Option, none, some, length, get_elem?, set, erase_idx, if◌then◌else◌,
}
use trust_tee.Memory.{Repr}
use trust_tee.Slots.{RequestRecordHeader, ChannelPair, ready, count}
use trust_tee.Closures.{VTables}
use trust_tee.Runtime.Records.{ClientPair, Job, execute, shutdown}
use trust_tee.Runtime.Visit.{Port, run_job}
use trust_tee.Runtime.Worker.{
  Seat, Worker, Turn, goes_on, leaves, out_of_range, port_at, turn, poll_registrations,
}
use trust_tee.Runtime.Handles.{client_seat, spawn}
use trust_tee.Channel.{Link, Event, run_event}

-- The worker, and whether it is still in its loop.
pub record System (T : Type 0) : Type 0 where
  pub worker : Worker T
  pub running : Bool

-- All clients, those that the worker has taken up first.
abbrev pub seats : {T : Type 0} → Worker T → List Seat
seats w = w.clients ++ w.reg

-- The jobs that answer on the channel `c`.
abbrev pub own : ℕ → List Job → List Job
own c [] = []
own c (execute hdr chan req_ready ∷ jobs) =
    if chan == c then execute hdr chan req_ready ∷ own c jobs else own c jobs
own c (shutdown ∷ jobs) = own c jobs

-- A channel that a client has posted a request on: one record, under a flipped ready bit.
pub record IsPost (c c' : ChannelPair) : Type 0 where
  pub same_response : c'.response_flags ≡ c.response_flags
  pub one : count c'.request_flags ≡ 1
  pub flipped : ready c'.request_flags ≡ not (ready c.response_flags)

module _ {T : Type 0} where
  abbrev pub of_turn : Turn T → System T
  of_turn (goes_on b w) = record { worker = w; running = true }
  of_turn (leaves w) = record { worker = w; running = false }
  of_turn (out_of_range w) = record { worker = w; running = false }

  -- The place of a client changes, with the worker or in the queue of registrations.
  abbrev pub set_seat : Worker T → ℕ → Seat → Worker T
  set_seat w i a =
      let taken_up = ltb i (length w.clients) in
      record w {
        clients = if taken_up then set w.clients i a else w.clients;
        reg = if taken_up then w.reg else set w.reg (i - length w.clients) a;
      }

  -- The job `k` has left the list of jobs.
  abbrev pub job_port : Worker T → ℕ → Seat → Port T
  job_port w k a = record (port_at w a) { jobs = erase_idx w.jobs k }

  abbrev pub put : Worker T → ℕ → Port T → Worker T
  put w i p = record (set_seat w i (record { client = p.client; chan = p.chan })) {
    prop = p.prop;
    jobs = p.jobs;
  }

  -- No client and no job has the channel of a new client.
  pub record IsFresh (w : Worker T) (c : ChannelPair) : Type 0 where
    pub no_client : (i : ℕ) (a : Seat) → get_elem? (seats w) i ≡ some a → a.client.chan ≢ c.base
    pub no_job : own c.base w.jobs ≡ []
    pub request : count c.request_flags ≤ 1

  -- What a client sees of the system.
  abbrev pub link_of : System T → Seat → Link T
  link_of s a = record {
    port = record {
      client = a.client;
      chan = a.chan;
      prop = s.worker.prop;
      jobs = own a.client.chan s.worker.jobs;
    };
    running = s.running;
  }

module _ {T : Type 0} (vtables : VTables T) (repr : Repr T) where
  -- The worker takes a turn, polls registrations, or counts idle rounds; a fiber runs one of the
  -- jobs; a thread of the trustee uses the property itself; a client registers.
  pub data Step (s : System T) : System T → Type 0 where
    turned :
        (n offs : ℕ) (b : Bool)
        → s.running ≡ true
        → Step s (of_turn (turn vtables repr n offs b s.worker))
    polled : s.running ≡ true → Step s (record s { worker = poll_registrations s.worker })
    idled :
        (idle_rounds : ℕ)
        → Step s (record s { worker = record s.worker { idle_rounds = idle_rounds } })
    fiber_ran :
        (k i : ℕ) (hdr : RequestRecordHeader) (req_ready : Bool) (a : Seat)
        → get_elem? s.worker.jobs k ≡ some (execute hdr a.client.chan req_ready)
        → get_elem? (seats s.worker) i ≡ some a
        → Step s (record s {
          worker =
              put s.worker i (
                run_job vtables repr (execute hdr a.client.chan req_ready) (job_port s.worker k a));
        })
    used : (g : T → T) → Step s (record s { worker = record s.worker { prop = g s.worker.prop } })
    registered :
        (c : ChannelPair)
        → IsFresh s.worker c
        → Step s
            (record s { worker = record s.worker { reg = s.worker.reg ++ (client_seat c ∷ []) } })

  -- The client `i`, whose last request has been answered, posts a request.
  pub data Post (i : ℕ) (s : System T) : System T → Type 0 where
    posted :
        (a : Seat) (c : ChannelPair)
        → get_elem? (seats s.worker) i ≡ some a
        → same (ready a.chan.request_flags) (ready a.chan.response_flags) ≡ true
        → IsPost a.chan c
        → Post i s (record s { worker = set_seat s.worker i (record a { chan = c }) })

  -- What can come of a trustee that holds `value`, with its first handle on the channel at `base`.
  pub data Reach (value : T) (base : ℕ) : System T → Type 0 where
    spawned : Reach value base (record { worker = (spawn value base).0; running = true })
    step : {s s' : System T} → Reach value base s → Step s s' → Reach value base s'
    post : {s s' : System T} (i : ℕ) → Reach value base s → Post i s s' → Reach value base s'

  -- What happens while the client `i` posts nothing.
  pub data Waits (i : ℕ) (s : System T) : System T → Type 0 where
    here : Waits i s s
    step : {t t' : System T} → Waits i s t → Step t t' → Waits i s t'
    other : {t t' : System T} (k : ℕ) → Waits i s t → k ≢ i → Post k t t' → Waits i s t'

  abbrev pub run_events : List (Event T) → Link T → Link T
  run_events [] l = l
  run_events (e ∷ es) l = run_events es (run_event vtables repr e l)
