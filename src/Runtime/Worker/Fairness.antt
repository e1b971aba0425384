-- ===== src/Runtime/Worker/Fairness.antt =====
-- src/runtime/runtime.rs: which clients a round of the worker loop visits.
use trust_tee.Prelude.{◌≡◌, true, [], ◌∷◌}
use trust_tee.Memory.{Repr}
use trust_tee.Closures.{VTables}
use trust_tee.Runtime.Visit.{Port, skipped, progressed, visit}
use trust_tee.Runtime.Worker.{
  Seat, Worker, goes_on, port_at, turn_at, turn, after_turn, after_visit, slot_index, scan,
  end_round, round_over,
}

-- The seat that a visit leaves.
abbrev seat_of : {T : Type 0} → Port T → Seat
seat_of p = record { client = p.client; chan = p.chan }

module _ {T : Type 0} (vtables : VTables T) (repr : Repr T) (w : Worker T) (a b c : Seat)
    (pa pc pd : Port T) where
  -- The index of the next client moves while a round counts from it: with three clients and
  -- `start_idx` 0, if the visits of the first and the third progress, the second is not visited,
  -- the third is visited twice, and the next round begins at the first again (its second visit
  -- passes over the third).
  pub round_skips :
      w.clients ≡ a ∷ b ∷ c ∷ []
      → w.start_idx ≡ 0
      → visit vtables repr (port_at w a) ≡ progressed pa
      → visit vtables repr (record pa { client = c.client; chan = c.chan }) ≡ progressed pc
      → visit vtables repr pc ≡ skipped pd
      → round_over vtables repr w
        ≡ goes_on true (record w {
          clients = seat_of pa ∷ b ∷ seat_of pd ∷ [];
          prop = pd.prop;
          jobs = pd.jobs;
          start_idx = 0;
          idle_rounds = 0;
        })
  unfolding round_over scan turn turn_at after_visit after_turn slot_index end_round
  round_skips three first va vc vd = rw (three, first, va, vc, vd)
