-- ===== src/Runtime/Worker/Quiet.antt =====
-- src/runtime/runtime.rs: a round of the worker loop in which nothing progresses.
use trust_tee.Prelude.{ℕ, ◌≡◌, some, get_elem?}
use trust_tee.Runtime.Visit.Pending.{Rests}
use trust_tee.Runtime.Worker.{Seat, Worker}
use trust_tee.Runtime.Worker.Unmoved.{Unmoved}

-- Nothing has changed, and nothing is left to do.
abbrev Settled : {T : Type 0} → Worker T → Worker T → Type 0
Settled w w' =
    (w'.prop ≡ w.prop)
    × (w'.jobs ≡ w.jobs)
    × ((i : ℕ) (s : Seat) → get_elem? w'.clients i ≡ some s → Rests s.client s.chan)
