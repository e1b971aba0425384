-- ===== src/Examples/Service.antt =====
-- A round over a client that asks for nothing and one that has posted a request.
use mathlib.Core.Option
use trust_tee.Prelude.{zero, suc, ◌≡◌, refl, ap, subst, Bool, true, false, [], ◌∷◌, arith}
use trust_tee.Slots.{ready}
use trust_tee.Runtime.Visit.{Port, skipped, visit}
use trust_tee.Runtime.Worker.{Worker, port_at, slot_index, scan}
use trust_tee.Runtime.Worker.Service.{PassesOver, Served, serves_first}
use trust_tee.Examples.Data.{bool_repr}
use trust_tee.Examples.Requests.{seat, worker, flip_vtables, posted_seat, answered_port, visited}

abbrev two : Worker Bool
two = record worker { clients = seat ∷ posted_seat 8192 ∷ [] }

passes : PassesOver flip_vtables bool_repr 2 two 0 1
unfolding slot_index visit ready
passes zero x from below at =
    subst (λ y. (q : Port Bool) × (visit flip_vtables bool_repr (port_at two y) ≡ skipped q))
      (ap (λ o. Option.get_or o seat) at) (port_at two seat, refl)
passes (suc i) x from below at = absurd (omega arith)

serves_first_example :
    (w1 : Worker Bool) × (scan flip_vtables bool_repr 2 2 0 false two
      ≡ scan flip_vtables bool_repr 2 0 2 true w1)
    × Served flip_vtables bool_repr 2 w1 1 (answered_port 8192 true)
unfolding slot_index
serves_first_example =
    serves_first flip_vtables bool_repr 2 1 0 two (posted_seat 8192) (answered_port 8192 true) refl
      refl (omega arith) passes refl (visited 8192 true)
