-- ===== src/Channel/Await.antt =====
-- src/trust/remote.rs: the waiting loop of an operation.
use trust_tee.Prelude.{
  ◌≡◌, refl, ◌⊎◌, inl, inr, Bool, true, false, same, List, [], ◌∷◌, Option, none, some,
  if◌then◌else◌,
}
use trust_tee.Memory.{Repr}
use trust_tee.Slots.{ChannelPair, ready}
use trust_tee.Closures.{VTables}
use trust_tee.Runtime.Records.{ClientPair}
use trust_tee.Channel.{
  Link, Event, idle, serve, fiber, gone, others, run_event, answered, await, first_served,
}

-- The worker has gone, and no job is left that could answer.
pub record Stuck {T : Type 0} (req_ready : Bool) (l : Link T) : Type 0 where
  pub gone : l.running ≡ false
  pub no_job : l.port.jobs ≡ []
  pub unanswered : answered req_ready l ≡ false

-- What the loop does with the link that a visit leaves.
abbrev pub settle : {T : Type 0} → Bool → (T → Link T) → Option T → Option (Link T)
settle req_ready outcome none = none
settle req_ready outcome (some t) =
    if answered req_ready (outcome t) then some (outcome t) else none

module _ {T : Type 0} (vtables : VTables T) (repr : Repr T) (req_ready : Bool) where
  pub await-answered :
      (es : List (Event T)) (l : Link T)
      → answered req_ready l ≡ true
      → await vtables repr es req_ready l ≡ some l
  unfolding await
  await-answered [] l h = rw h
  await-answered (e ∷ es) l h = rw h

  Stuck-event :
      (e : Event T) (l : Link T) → Stuck req_ready l → Stuck req_ready (run_event vtables repr e l)
  unfolding run_event
  Stuck-event idle l s = s
  Stuck-event serve l s = simp s.gone s
  Stuck-event fiber l s = simp s.no_job s
  Stuck-event gone l s = record { gone = refl; no_job = s.no_job; unanswered = s.unanswered }
  Stuck-event (others g) l s = record {
    gone = s.gone;
    no_job = s.no_job;
    unanswered = s.unanswered;
  }

  pub await-Stuck :
      (es : List (Event T)) (l : Link T)
      → Stuck req_ready l
      → await vtables repr es req_ready l ≡ none
  unfolding await
  await-Stuck [] l s = rw s.unanswered
  await-Stuck (e ∷ es) l s =
      rw s.unanswered (await-Stuck es (run_event vtables repr e l) (Stuck-event e l s))

  -- A request that stands on `chan`, for every value of the property.
  module _ (client : ClientPair) (chan : ChannelPair)
      (unanswered : same (ready chan.response_flags) req_ready ≡ false) (outcome : T → Link T) where
    abbrev waiting : T → Link T
    waiting t = record {
      port = record { client = client; chan = chan; prop = t; jobs = [] };
      running = true;
    }

    pub await-settle :
        ((t : T) → run_event vtables repr serve (waiting t) ≡ outcome t)
        → ((t : T) → (answered req_ready (outcome t) ≡ true) ⊎ Stuck req_ready (outcome t))
        → (es : List (Event T)) (t : T)
        → await vtables repr es req_ready (waiting t) ≡ settle req_ready outcome (first_served es t)
    unfolding await first_served run_event
    await-settle visited settles [] t = rw unanswered
    await-settle visited settles (idle ∷ es) t = rw unanswered (await-settle visited settles es t)
    await-settle visited settles (serve ∷ es) t =
        rw (unanswered, visited t)
          (elim (settles t) [
            | inl done ↦ rw done (await-answered es (outcome t) done)
            | inr stuck ↦ rw stuck.unanswered (await-Stuck es (outcome t) stuck)
          ])
    await-settle visited settles (fiber ∷ es) t = rw unanswered (await-settle visited settles es t)
    await-settle visited settles (gone ∷ es) t = rw unanswered (
        await-Stuck es (record (waiting t) { running = false })
          (record { gone = refl; no_job = refl; unanswered = unanswered }))
    await-settle visited settles (others g ∷ es) t =
        rw unanswered (await-settle visited settles es (g t))
