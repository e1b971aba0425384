-- ===== src/Runtime/Visit/Pending.antt =====
-- src/runtime/runtime.rs: visits that pass over a client.
use trust_tee.Prelude.{
  ◌≡◌, refl, ap, subst, ◌⊎◌, inl, inr, Bool, true, false, same, same_self, Option, none, some,
  arith, if◌then◌else◌,
}
use trust_tee.Memory.{Repr}
use trust_tee.Slots.{ChannelPair, ready, count}
use trust_tee.Closures.{VTables}
use trust_tee.Runtime.Records.{
  ClientPair, Flow, continues, returns, unwinds, invalid, process_records,
}
use trust_tee.Runtime.Visit.{
  Port, Visit, skipped, pending_check, finish, start_batch, visit_checked, visit,
}

pending_check-in_progress :
    (cp : ClientPair) (req_ready resp_ready : Bool)
    → cp.pending_launch ≡ true
    → cp.launch_req_ready ≡ req_ready
    → same req_ready resp_ready ≡ false
    → pending_check cp req_ready resp_ready ≡ none
unfolding pending_check
pending_check-in_progress cp req_ready resp_ready pending at open_request =
    rw (pending, open_request, at, same_self req_ready)

-- The worker passes over a client whose launch has not answered.
pub visit-in_progress :
    {T : Type 0} (vtables : VTables T) (repr : Repr T) (p : Port T)
    → p.client.pending_launch ≡ true
    → p.client.launch_req_ready ≡ ready p.chan.request_flags
    → same (ready p.chan.request_flags) (ready p.chan.response_flags) ≡ false
    → visit vtables repr p ≡ skipped p
unfolding visit visit_checked
visit-in_progress vtables repr p pending at open_request = ap (visit_checked vtables repr p) (
    pending_check-in_progress p.client (ready p.chan.request_flags) (ready p.chan.response_flags)
      pending at open_request)

-- Nothing is asked of the worker: a launch is under way, or the request has been answered.
abbrev pub Rests : ClientPair → ChannelPair → Type 0
Rests client chan =
    (client.pending_launch ≡ true)
    ⊎ (same (ready chan.request_flags) (ready chan.response_flags) ≡ true)

-- What a visit that passes over a client leaves.
pub record PassedOver {T : Type 0} (p p' : Port T) : Type 0 where
  pub same_chan : p'.chan ≡ p.chan
  pub same_prop : p'.prop ≡ p.prop
  pub same_jobs : p'.jobs ≡ p.jobs
  pub rests : Rests p'.client p'.chan

pending_of : {T : Type 0} → Port T → Visit T → Port T
pending_of d (skipped p) = p
pending_of d _ = d

finish-ne-skipped :
    {T : Type 0} (req_ready : Bool) (f : Flow T) (p : Port T) → finish req_ready f ≡ skipped p → ⊥
unfolding finish
finish-ne-skipped req_ready (continues b) p e = cc e
finish-ne-skipped req_ready (returns b) p e = cc e
finish-ne-skipped req_ready (unwinds b) p e = cc e
finish-ne-skipped req_ready (invalid b) p e = cc e

none-pending :
    (cp : ClientPair) (req_ready resp_ready : Bool)
    → pending_check cp req_ready resp_ready ≡ none
    → cp.pending_launch ≡ true
unfolding pending_check
none-pending cp req_ready resp_ready h = ground arith

module _ {T : Type 0} (vtables : VTables T) (repr : Repr T) (p : Port T) where
  checked-skipped :
      (o : Option ClientPair) (p' : Port T)
      → pending_check p.client (ready p.chan.request_flags) (ready p.chan.response_flags) ≡ o
      → visit_checked vtables repr p o ≡ skipped p'
      → PassedOver p p'
  unfolding visit_checked pending_of
  checked-skipped none p' at e = subst (PassedOver p) (ap (pending_of p) e) (record {
    same_chan = refl;
    same_prop = refl;
    same_jobs = refl;
    rests = inl (none-pending p.client _ _ at);
  })
  checked-skipped (some cp) p' at e =
      go (same (ready p.chan.request_flags) (ready p.chan.response_flags)) refl e
    where
      go :
          (b : Bool)
          → same (ready p.chan.request_flags) (ready p.chan.response_flags) ≡ b
          → (if b
              then skipped (record p { client = cp })
              else finish (ready p.chan.request_flags) (
                  process_records vtables repr
                    (ready p.chan.request_flags)
                    (count p.chan.request_flags)
                    (start_batch p cp)))
            ≡ skipped p'
          → PassedOver p p'
      go true answered h =
          subst (PassedOver p) (ap (pending_of p) h)
            (record { same_chan = refl; same_prop = refl; same_jobs = refl; rests = inr answered })
      go false answered h = elim (finish-ne-skipped (ready p.chan.request_flags) _ p' h) [ ]

  -- A visit passes over a client only if nothing is asked of the worker, and then it changes nothing
  -- but the mark of a launch.
  pub visit-skipped : (p' : Port T) → visit vtables repr p ≡ skipped p' → PassedOver p p'
  unfolding visit
  visit-skipped p' e = checked-skipped _ p' refl e
