-- ===== src/System/Log.antt =====
-- src/runtime/runtime.rs and src/trust/remote.rs together: which calls have been posted, and which have run.
pub mod Places
pub mod Kept
pub mod Counts
pub mod Runs
use trust_tee.Prelude.{
  ℕ, ◌≡◌, Bool, true, false, same, List, [], ◌∷◌, Option, none, some, get_elem?, ◌==◌, ◌⊎◌,
  if◌then◌else◌,
}
use trust_tee.Memory.{Repr}
use trust_tee.Slots.{ChannelPair, ready}
use trust_tee.Closures.{VTables}
use trust_tee.Runtime.Records.{ClientPair, Job}
use trust_tee.Runtime.Visit.{Port, progressed, visit}
use trust_tee.Runtime.Visit.Serve.{cleared}
use trust_tee.Runtime.Worker.{Seat, Worker}
use trust_tee.Runtime.Handles.{spawn}
use trust_tee.System.{
  System, seats, set_seat, IsPost, Step, turned, polled, idled, fiber_ran, used, registered,
}

-- Calls, the last one first: the client, and what its closure does to the property.
abbrev pub Log : Type 0 → Type 0
Log T = List (ℕ × (T → T))

abbrev pub calls_of : {T : Type 0} → ℕ → Log T → List (T → T)
calls_of i [] = []
calls_of i ((k, g) ∷ l) = if k == i then g ∷ calls_of i l else calls_of i l

abbrev pub run_log : {T : Type 0} → Log T → T → T
run_log [] t = t
run_log ((k, g) ∷ l) t = g (run_log l t)

module _ {T : Type 0} (vtables : VTables T) (repr : Repr T) where
  -- A visit to the channel runs `g` and answers.
  pub record Holds (c : ChannelPair) (g : T → T) : Type 0 where
    pub runs :
        (cp : ClientPair) (t : T) (jobs : List Job)
        → cp.pending_launch ≡ false
        → (c' : ChannelPair) × (visit vtables repr
              (record { client = cp; chan = c; prop = t; jobs = jobs })
            ≡ progressed (record { client = cleared cp; chan = c'; prop = g t; jobs = jobs }))
          × (same (ready c'.request_flags) (ready c'.response_flags) ≡ true)

  -- No thread of the trustee uses the property itself, and a new client has a new channel.
  abbrev pub IsQuiet : {s s' : System T} → Step vtables repr s s' → Type 0
  IsQuiet (used g) = ⊥
  IsQuiet (registered c fresh) = same (ready c.request_flags) (ready c.response_flags) ≡ true
  IsQuiet (turned n offs b running) = Unit {0}
  IsQuiet (polled running) = Unit {0}
  IsQuiet (idled k) = Unit {0}
  IsQuiet (fiber_ran k i hdr req_ready a found place) = Unit {0}

  -- The states that are reached while clients post calls that run, with the calls that were posted.
  pub data Calls (value : T) (base : ℕ) : System T → Log T → Type 0 where
    spawned : Calls value base (record { worker = (spawn value base).0; running = true }) []
    stepped :
        {s s' : System T} {posts : Log T}
        → Calls value base s posts
        → (m : Step vtables repr s s') → IsQuiet m
        → Calls value base s' posts
    called :
        {s : System T} {posts : Log T} (i : ℕ) (g : T → T) (a : Seat) (c : ChannelPair)
        → Calls value base s posts
        → get_elem? (seats s.worker) i ≡ some a
        → same (ready a.chan.request_flags) (ready a.chan.response_flags) ≡ true
        → IsPost a.chan c
        → Holds c g
        → Calls value base
            (record s { worker = set_seat s.worker i (record a { chan = c }) })
            ((i, g) ∷ posts)

  -- A client has had all its calls run, or its last one stands in its channel.
  abbrev pub IsAnswered : ChannelPair → Type 0
  IsAnswered c = same (ready c.request_flags) (ready c.response_flags) ≡ true

  abbrev pub SeatAt : Log T → Log T → ℕ → Option Seat → Type 0
  SeatAt posts log i none = (calls_of i posts ≡ []) × (calls_of i log ≡ [])
  SeatAt posts log i (some a) =
      (a.client.pending_launch ≡ false)
      × ((IsAnswered a.chan × (calls_of i posts ≡ calls_of i log))
          ⊎ ((g : T → T) × (same (ready a.chan.request_flags) (ready a.chan.response_flags) ≡ false)
              × Holds a.chan g
              × (calls_of i posts ≡ g ∷ calls_of i log)))

  -- The property is what the calls that have run made of the first value.
  pub record Logged (value : T) (s : System T) (posts log : Log T) : Type 0 where
    pub no_jobs : s.worker.jobs ≡ []
    pub ran : s.worker.prop ≡ run_log log value
    pub at : (i : ℕ) → SeatAt posts log i (get_elem? (seats s.worker) i)
