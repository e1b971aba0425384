-- ===== src/Channel.antt =====
-- What a client sees of the other side while it waits: its own channel, the property, and the events
-- that may happen between two polls of the response word.
pub mod Await
pub mod Launched
use trust_tee.Prelude.{Bool, true, false, same, List, [], ◌∷◌, Option, none, some, if◌then◌else◌}
use trust_tee.Memory.{Repr}
use trust_tee.Slots.{ready}
use trust_tee.Closures.{VTables}
use trust_tee.Runtime.Records.{Job}
use trust_tee.Runtime.Visit.{
  Port, Visit, skipped, progressed, exited, died, undefined, visit, run_job,
}

-- `running` is false when the worker loop has been left.
pub record Link (T : Type 0) : Type 0 where
  pub port : Port T
  pub running : Bool

-- The worker visits this client, a fiber runs a job of this channel, the worker leaves its loop for a
-- request of another client, other clients change the property, or nothing of this happens.
pub data Event (T : Type 0) : Type 0 where
  idle serve fiber gone : Event T
  others : (T → T) → Event T

module _ {T : Type 0} where
  -- `header::ready(resp_word_now) == req_ready`
  abbrev pub answered : Bool → Link T → Bool
  answered req_ready l = same (ready l.port.chan.response_flags) req_ready

  unfoldable pub after_visit : Visit T → Link T
  after_visit (skipped p) = record { port = p; running = true }
  after_visit (progressed p) = record { port = p; running = true }
  after_visit (exited p) = record { port = p; running = false }
  after_visit (died p) = record { port = p; running = false }
  after_visit (undefined p) = record { port = p; running = false }

module _ {T : Type 0} (vtables : VTables T) (repr : Repr T) where
  unfoldable pub first_job : List Job → Link T → Link T
  first_job [] l = l
  first_job (j ∷ js) l = record l { port = run_job vtables repr j (record l.port { jobs = js }) }

  unfoldable pub run_event : Event T → Link T → Link T
  unfolding after_visit first_job
  run_event Event.idle l = l
  run_event Event.serve l = if l.running then after_visit (visit vtables repr l.port) else l
  run_event Event.fiber l = first_job l.port.jobs l
  run_event Event.gone l = record l { running = false }
  run_event (Event.others g) l = record l { port = record l.port { prop = g l.port.prop } }

  -- The waiting loop: `none` where the client still waits when the schedule ends.
  unfoldable pub await : List (Event T) → Bool → Link T → Option (Link T)
  await [] req_ready l = if answered req_ready l then some l else none
  await (e ∷ es) req_ready l =
      let rest = await es req_ready (run_event e l) in if answered req_ready l then some l else rest

-- The value of the property when the worker first visits the channel, unless it has left before.
unfoldable pub first_served : {T : Type 0} → List (Event T) → T → Option T
first_served [] t = none
first_served (Event.idle ∷ es) t = first_served es t
first_served (Event.serve ∷ es) t = some t
first_served (Event.fiber ∷ es) t = first_served es t
first_served (Event.gone ∷ es) t = none
first_served (Event.others g ∷ es) t = first_served es (g t)
