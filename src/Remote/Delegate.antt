-- ===== src/Remote/Delegate.antt =====
-- src/trust/remote.rs: a delegated request, what the client gets, and what has become of the property and the channel,
-- for a request whose execution by a visit is known.
use mathlib.Core.Option
use trust_tee.Prelude.{
  ◌≡◌, refl, ap, ◌∙◌, ◌⊎◌, inl, inr, Bool, true, false, not, same, same-not, same_self, List, [],
  Option, none, some, if◌then◌else◌,
}
use trust_tee.Memory.{Repr, read-encode}
use trust_tee.Outcome.{Outcome, ok, panic, ◌>>=◌}
use trust_tee.Slots.{ChannelPair, ready}
use trust_tee.Slots.Words.{ready-pack}
use trust_tee.Closures.{Ran, returned, panicked, VTables}
use trust_tee.Runtime.Records.{respond, resp_data}
use trust_tee.Runtime.Visit.Serve.{answer, unanswered_port, Settled}
use trust_tee.Channel.{Link, Event, serve, run_event, answered, await, first_served}
use trust_tee.Channel.Await.{Stuck, settle, await-settle}
use trust_tee.Remote.Client.{Request, read_result, delegate, await_result}
use trust_tee.Remote.Post.{InSlot, posted, post-posted}

-- The worker runs, and no launch of this client is under way; the mark of one that has been answered may
-- still stand.
pub record IsReady {T : Type 0} (l : Link T) : Type 0 where
  pub running : l.running ≡ true
  pub settled : Settled l.port.client l.port.chan
  pub no_jobs : l.port.jobs ≡ []

-- The result and the property, unless the closure panics.
unfoldable pub outcome_of : {T R : Type 0} → Ran T R → Option (R × T)
outcome_of (returned t r) = some (r, t)
outcome_of (panicked t) = none

-- The result and the property, without the channel.
abbrev pub observed : {T R : Type 0} → Outcome (Option (R × Link T)) → Outcome (Option (R × T))
observed (ok o) = ok (Option.map (λ r. (r.0, r.1.port.prop)) o)
observed (panic p) = panic p

-- A request on the channel of `l`, and what its execution does: `run`. The worker goes on after it if
-- `keeps` is true.
module _ {F T R : Type 0} (vtables : VTables T) (repr : Repr T) (q : Request F) (result : Repr R)
    (run : T → Ran T R) (keeps : Bool) (l : Link T) (in_slot : InSlot q l.port.chan)
    (ready_link : IsReady l) where
  abbrev pub chan : ChannelPair
  chan = posted q l.port.chan in_slot

  abbrev pub req_ready : Bool
  req_ready = not (ready l.port.chan.response_flags)

  abbrev pub waiting : T → Link T
  waiting t = record {
    port = record { client = l.port.client; chan = chan; prop = t; jobs = [] };
    running = true;
  }

  -- The link after the closure has run.
  unfoldable pub after_run : Ran T R → Link T
  after_run (returned t r) = record {
    port = answer (waiting t).port t (respond chan (result.encode r));
    running = keeps;
  }
  after_run (panicked t) = record { port = unanswered_port (waiting t).port t; running = false }

  unanswered : same (ready chan.response_flags) req_ready ≡ false
  unanswered = same-not (ready l.port.chan.response_flags)

  answered_run : (t : T) (r : R) → answered req_ready (after_run (returned t r)) ≡ true
  unfolding after_run respond
  answered_run t r =
      ap (λ b. same b req_ready) (ready-pack (ready chan.request_flags) 1 ∙ ready-pack req_ready 1)
      ∙ same_self req_ready

  not_answered : (t : T) → answered req_ready (after_run (panicked t)) ≡ false
  unfolding after_run
  not_answered t = unanswered

  settles :
      (ran : Ran T R)
      → (answered req_ready (after_run ran) ≡ true) ⊎ Stuck req_ready (after_run ran)
  unfolding after_run
  settles (returned t r) = inl (answered_run t r)
  settles (panicked t) = inr (record { gone = refl; no_job = refl; unanswered = unanswered })

  -- The client reads what the closure returned.
  read_back : (t : T) (r : R) → read_result result (after_run (returned t r)) ≡ r
  unfolding read_result after_run respond
  read_back t r = read-encode result (resp_data chan) r chan.bytes

  -- The result of a call and the link that it leaves, from what the closure did.
  unfoldable pub result_link : R × T → R × Link T
  result_link (r, t) = (r, after_run (returned t r))

  read_settled :
      (ran : Ran T R)
      → Option.map
          (λ l'. (read_result result l', l'))
          (if answered req_ready (after_run ran) then some (after_run ran) else none)
        ≡ Option.map result_link (outcome_of ran)
  unfolding result_link outcome_of
  read_settled (returned t r) =
      ap
        (λ b.
          Option.map (λ l'. (read_result result l', l'))
            (if b then some (after_run (returned t r)) else none))
        (answered_run t r)
      ∙ ap (λ x. some (x, after_run (returned t r))) (read_back t r)
  read_settled (panicked t) =
      ap
        (λ b.
          Option.map (λ l'. (read_result result l', l'))
            (if b then some (after_run (panicked t)) else none))
        (not_answered t)

  read_served :
      (served : Option T)
      → Option.map
          (λ l'. (read_result result l', l'))
          (settle req_ready (λ t. after_run (run t)) served)
        ≡ Option.map result_link (Option.bind served (λ t. outcome_of (run t)))
  unfolding Option.bind
  read_served none = refl
  read_served (some t) = read_settled (run t)

  -- What the client sees of the link: the property.
  pub seen-result_link :
      (o : Option (R × T)) → Option.map (λ r. (r.0, r.1.port.prop)) (Option.map result_link o) ≡ o
  unfolding result_link after_run
  seen-result_link none = refl
  seen-result_link (some (r, t)) = refl

  module _ (visited : (t : T) → run_event vtables repr serve (waiting t) ≡ after_run (run t)) where
    await-delegated :
        (events : List (Event T))
        → await vtables repr events req_ready (record l { port = record l.port { chan = chan } })
          ≡ settle req_ready (λ t. after_run (run t)) (first_served events l.port.prop)
    await-delegated events =
        ap (await vtables repr events req_ready) same_link
        ∙ await-settle vtables repr req_ready l.port.client chan unanswered (λ t. after_run (run t))
            visited (λ t. settles (run t)) events l.port.prop
      where
        same_link : record l { port = record l.port { chan = chan } } ≡ waiting l.port.prop
        same_link = λ i. record {
          port = record {
            client = l.port.client;
            chan = chan;
            prop = l.port.prop;
            jobs = ready_link.no_jobs i;
          };
          running = ready_link.running i;
        }

    pub delegate_lem :
        (events : List (Event T))
        → delegate vtables repr events q result l
          ≡ ok (
              Option.map result_link
                (Option.bind (first_served events l.port.prop) (λ t. outcome_of (run t))))
    unfolding delegate
    delegate_lem events =
        ap (λ m. m >>= (λ p. ok (await_result vtables repr events result l p)))
          (post-posted q l.port.chan in_slot)
        ∙ ap ok (
            ap (Option.map (λ l'. (read_result result l', l'))) (await-delegated events)
            ∙ read_served (first_served events l.port.prop))

    pub observed-delegate :
        (events : List (Event T))
        → observed (delegate vtables repr events q result l)
          ≡ ok (Option.bind (first_served events l.port.prop) (λ t. outcome_of (run t)))
    observed-delegate events = ap observed (delegate_lem events) ∙ ap ok (seen-result_link _)

  -- The link can be used again, over the same memory.
  pub result_link-IsReady :
      (r : R) (t : T)
      → keeps ≡ true
      → IsReady (result_link (r, t)).1
        × ((result_link (r, t)).1.port.chan.base ≡ l.port.chan.base)
        × ((result_link (r, t)).1.port.prop ≡ t)
  unfolding result_link after_run respond
  result_link-IsReady r t kept =
      (record { running = kept; settled = inl refl; no_jobs = refl }, refl, refl)
