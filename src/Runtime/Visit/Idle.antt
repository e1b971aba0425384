-- ===== src/Runtime/Visit/Idle.antt =====
-- src/runtime/runtime.rs: a visit to a client that has no request, and no launch under way.
use trust_tee.Prelude.{◌≡◌, ap, ◌∙◌, true, false, same, some}
use trust_tee.Memory.{Repr}
use trust_tee.Slots.{ready}
use trust_tee.Closures.{VTables}
use trust_tee.Runtime.Visit.{Port, skipped, pending_check, visit_checked, visit}

module _ {T : Type 0} (vtables : VTables T) (repr : Repr T) (p : Port T)
    (free : p.client.pending_launch ≡ false) where
  check-free :
      pending_check p.client (ready p.chan.request_flags) (ready p.chan.response_flags)
      ≡ some p.client
  unfolding pending_check
  check-free = rw free

  pub visit-idle :
      same (ready p.chan.request_flags) (ready p.chan.response_flags) ≡ true
      → visit vtables repr p ≡ skipped p
  unfolding visit visit_checked
  visit-idle answered = ap (visit_checked vtables repr p) check-free ∙ rw answered
