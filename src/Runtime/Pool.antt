-- ===== src/Runtime/Pool.antt =====
-- src/runtime/runtime.rs: the fibers that run launched jobs, the pool in which they wait, and their
-- shutdown. A queue is the list of what stands in it, the first to be taken first; the sender of a
-- fiber's channel is the number of the fiber.
pub mod Invariant
pub mod Delivery
pub mod Shutdown
use trust_tee.Prelude.{
  ℕ, ◌≡◌, Bool, true, false, List, [], ◌∷◌, ◌++◌, Option, none, some, length, get_elem?, set,
  if◌then◌else◌,
}
use trust_tee.Slots.{RequestRecordHeader}
use trust_tee.Runtime.Records.{Job, execute, shutdown}

-- A fiber stands in `rx.recv()`, runs a job, or has left its loop.
pub data Phase : Type 0 where
  receiving : Phase
  running : Job → Phase
  ended : Phase

pub record Fiber : Type 0 where
  pub inbox : List Job
  pub phase : Phase

-- The fibers that the worker has spawned, and the pool.
pub record Fibers : Type 0 where
  pub fibers : List Fiber
  pub fiber_pool : List ℕ

abbrev pub no_fibers : Fibers
no_fibers = record { fibers = []; fiber_pool = [] }

abbrev pub has_ended : Phase → Bool
has_ended Phase.receiving = false
has_ended (Phase.running job) = false
has_ended Phase.ended = true

abbrev pub received_by : Job → Fiber → Fiber
received_by job f = record f { inbox = f.inbox ++ (job ∷ []) }

unfoldable pub delivered : List Fiber → ℕ → Job → Option Fiber → Option (List Fiber)
delivered fs tx job none = none
delivered fs tx job (some f) =
    if has_ended f.phase then none else some (set fs tx (received_by job f))

-- `tx.send(job)`: `none` where the fiber, and with it the receiver, is gone.
unfoldable pub send : ℕ → Job → List Fiber → Option (List Fiber)
unfolding delivered
send tx job fs = delivered fs tx job (get_elem? fs tx)

abbrev pub new_fiber : Job → Fiber
new_fiber job = record { inbox = job ∷ []; phase = Phase.receiving }

-- The match on what `send` gave.
abbrev pub after_send : List ℕ → Option (List Fiber) → Fibers → Fibers
after_send txs none next = next
after_send txs (some fs) next = record { fibers = fs; fiber_pool = txs }

-- The loop that hands over a job: to the fibers of the pool in turn, or to a new fiber.
unfoldable pub dispatch_to : Job → List ℕ → List Fiber → Fibers
unfolding send
dispatch_to job [] fs = record { fibers = fs ++ (new_fiber job ∷ []); fiber_pool = [] }
dispatch_to job (tx ∷ txs) fs = after_send txs (send tx job fs) (dispatch_to job txs fs)

unfoldable pub dispatch : Job → Fibers → Fibers
unfolding dispatch_to
dispatch job s = dispatch_to job s.fiber_pool s.fibers

-- `rx.recv()` and the match on its result: `none` where the fiber has to wait. It holds a sender of its
-- own channel, so `recv` gives no error.
unfoldable pub take : Fiber → List Job → Option Fiber
take f [] = none
take f (execute hdr chan req_ready ∷ rest) =
    some (record { inbox = rest; phase = Phase.running (execute hdr chan req_ready) })
take f (shutdown ∷ rest) = some (record { inbox = rest; phase = Phase.ended })

unfoldable pub receive : Fiber → Option Fiber
unfolding take
receive f = elim f.phase [
  | Phase.receiving ↦ take f f.inbox
  | Phase.running job ↦ none
  | Phase.ended ↦ none
]

-- The job has returned: the fiber is back in the pool.
unfoldable pub job_done : ℕ → Fiber → Fibers → Fibers
job_done i f s = record {
  fibers = set s.fibers i (record f { phase = Phase.receiving });
  fiber_pool = s.fiber_pool ++ (i ∷ []);
}

-- The job has panicked: the fiber ends.
unfoldable pub job_panicked : ℕ → Fiber → Fibers → Fibers
job_panicked i f s = record s { fibers = set s.fibers i (record f { phase = Phase.ended }) }

abbrev pub or_same : List Fiber → Option (List Fiber) → List Fiber
or_same fs none = fs
or_same fs (some fs') = fs'

-- `let _ = tx.send(Job::Shutdown)`
unfoldable pub shut : ℕ → List ℕ → Fibers → Fibers
unfolding send
shut tx txs s = record { fibers = or_same s.fibers (send tx shutdown s.fibers); fiber_pool = txs }

-- A round of the terminator, in its loop or in its last sweep: `none` where the pool is empty.
unfoldable pub terminate_round : Fibers → Option Fibers
unfolding shut
terminate_round s = elim s.fiber_pool [ [] ↦ none | tx ∷ txs ↦ some (shut tx txs s) ]

-- What the next message starts.
abbrev pub starts : List Job → List Job
starts [] = []
starts (execute hdr chan req_ready ∷ rest) = execute hdr chan req_ready ∷ []
starts (shutdown ∷ rest) = []

-- What the fibers and the terminator do, with the jobs that are started.
pub data Move (s : Fibers) : List Job → Fibers → Type 0 where
  received :
      (i : ℕ) (f f' : Fiber)
      → get_elem? s.fibers i ≡ some f
      → receive f ≡ some f'
      → Move s (starts f.inbox) (record s { fibers = set s.fibers i f' })
  done :
      (i : ℕ) (f : Fiber) (job : Job)
      → get_elem? s.fibers i ≡ some f
      → f.phase ≡ Phase.running job
      → Move s [] (job_done i f s)
  panicked :
      (i : ℕ) (f : Fiber) (job : Job)
      → get_elem? s.fibers i ≡ some f
      → f.phase ≡ Phase.running job
      → Move s [] (job_panicked i f s)
  swept : (s' : Fibers) → terminate_round s ≡ some s' → Move s [] s'

-- The states that the worker's fibers come to, with the jobs that it handed over and those that
-- have been started.
pub data Reach : List Job → List Job → Fibers → Type 0 where
  start : Reach [] [] no_fibers
  hand :
      {given begun : List Job} {s : Fibers} (hdr : RequestRecordHeader) (chan : ℕ)
      (req_ready : Bool)
      → Reach given begun s
      → Reach (execute hdr chan req_ready ∷ given) begun (dispatch (execute hdr chan req_ready) s)
  move :
      {given begun jobs : List Job} {s s' : Fibers}
      → Reach given begun s
      → Move s jobs s'
      → Reach given (jobs ++ begun) s'
