-- ===== src/Examples/Worker.antt =====
-- Rounds of the worker loop over the Boolean property.
use trust_tee.Prelude.{
  ℕ, zero, suc, ◌≡◌, refl, subst, some, get_elem?, Bool, true, false, [], ◌∷◌, inr, arith, ◌+◌, ◌≤◌,
  ◌++◌, length,
}
use mathlib.Core.Option
use trust_tee.Runtime.Handles.{Runtime, register, drop_runtime}
use trust_tee.Runtime.Handles.Ends.{terminate_seat, LeavesAsIs, dropped_ends}
use trust_tee.Runtime.Records.{respond}
use trust_tee.Slots.{ready, pack_ready_count}
use trust_tee.Runtime.Visit.{Port, skipped, visit}
use trust_tee.Runtime.Worker.{
  Seat, port_at, Worker, goes_on, poll_registrations, round_over, loop_round,
}
use trust_tee.Runtime.Worker.Registers.{poll_keeps}
use trust_tee.Runtime.Worker.Bounds.{IsWorker, Keeps, loop_round-IsWorker}
use trust_tee.Runtime.Worker.Fairness.{round_skips}
use trust_tee.Examples.Requests.{seat, worker, flip_vtables, posted_seat, answered_port, visited}
use trust_tee.Examples.Data.{bool_repr, bool_vtables, client_pair}

worker-IsWorker : IsWorker worker
worker-IsWorker = record { start_in = inr refl; few_rounds = omega arith; counter_in = omega arith }

loop_round-IsWorker_example : Keeps IsWorker (loop_round bool_vtables bool_repr worker)
loop_round-IsWorker_example = loop_round-IsWorker bool_vtables bool_repr worker worker-IsWorker

abbrev waited : Worker Bool
waited = record worker { idle_rounds = 4; loop_counter = 7 }

-- Three clients: the first and the third have posted a closure.
abbrev three : Worker Bool
three = record worker { clients = posted_seat 4096 ∷ seat ∷ posted_seat 8192 ∷ [] }

round_skips_example :
    round_over flip_vtables bool_repr three
    ≡ goes_on true (record three {
      clients =
          record { client = client_pair; chan = (answered_port 4096 true).chan }
          ∷ seat
          ∷ record { client = client_pair; chan = (answered_port 8192 false).chan }
          ∷ [];
      prop = true;
      start_idx = 0;
      idle_rounds = 0;
    })
unfolding visit ready pack_ready_count respond
round_skips_example =
    round_skips flip_vtables bool_repr three (posted_seat 4096) seat (posted_seat 8192)
      (answered_port 4096 true) (answered_port 8192 false) (answered_port 8192 false) refl refl
      (visited 4096 true) (visited 8192 false) refl

-- The only handle that owns the runtime is dropped, while the client of another one rests.
abbrev runtime : Runtime
runtime = record {
  registrar = record { reg = []; trustee_id = 1; trustee_prop = true };
  worker = true;
}

abbrev resting : Worker Bool
resting = record worker { reg = terminate_seat 4096 ∷ []; loop_counter = 15 }

resting-IsWorker : IsWorker resting
resting-IsWorker = record {
  start_in = inr refl;
  few_rounds = omega arith;
  counter_in = omega arith;
}

seat_rests : visit bool_vtables bool_repr (port_at resting seat) ≡ skipped (port_at resting seat)
unfolding visit ready
seat_rests = refl

all_rest :
    (i : ℕ) (x : Seat)
    → get_elem? (seat ∷ []) i ≡ some x
    → (q : Port Bool) × (visit bool_vtables bool_repr (port_at resting x) ≡ skipped q)
all_rest zero x e = (
  port_at resting x,
  subst (λ y. visit bool_vtables bool_repr (port_at resting y) ≡ skipped (port_at resting y))
      (Option.some_inj.0 e) seat_rests,
)
all_rest (suc i) x e = cc e

dropped_ends_example :
    LeavesAsIs bool_vtables bool_repr 4096 resting (loop_round bool_vtables bool_repr resting)
unfolding drop_runtime register
dropped_ends_example =
    dropped_ends bool_vtables bool_repr 4096 runtime resting refl refl refl resting-IsWorker refl
      all_rest

poll_keeps_example :
    ((poll_registrations resting).clients ++ (poll_registrations resting).reg
      ≡ seat ∷ terminate_seat 4096 ∷ [])
    × (length (poll_registrations resting).clients ≤ 1 + 256)
poll_keeps_example = poll_keeps resting
