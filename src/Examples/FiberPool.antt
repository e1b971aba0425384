-- ===== src/Examples/FiberPool.antt =====
-- Two launched jobs, and the fibers that run them.
use mathlib.Core.List.{Perm}
use trust_tee.Prelude.{◌*◌, ◌≤◌, ◌≡◌, refl, ◌⊎◌, true, List, [], ◌∷◌, ◌++◌, length}
use trust_tee.Runtime.Records.{Job, execute}
use trust_tee.Runtime.Handles.{terminate_header}
use trust_tee.Runtime.Pool.{
  Phase, Fibers, dispatch, receive, send, job_done, terminate_round, Move, received, done, swept,
  Reach, start, hand, move,
}
use trust_tee.Runtime.Pool.Delivery.{pending, jobs_start_once}
use trust_tee.Runtime.Pool.Shutdown.{Moves, no_move, after, all_ended, terminate_ends}

abbrev first_launch : Job
first_launch = execute terminate_header 4096 true

abbrev second_launch : Job
second_launch = execute terminate_header 8192 true

-- A fiber runs the first job, and a second fiber has the other.
abbrev one_started : Fibers
one_started = record {
  fibers =
      record { inbox = []; phase = Phase.running first_launch }
      ∷ record { inbox = second_launch ∷ []; phase = Phase.receiving }
      ∷ [];
  fiber_pool = [];
}

one_started-Reach : Reach (second_launch ∷ first_launch ∷ []) (first_launch ∷ []) one_started
unfolding dispatch receive
one_started-Reach =
    move (hand terminate_header 8192 true (hand terminate_header 4096 true start))
      (received 0 _ _ refl refl)

jobs_start_once_example :
    Perm (second_launch ∷ first_launch ∷ []) ((first_launch ∷ []) ++ pending one_started.fibers)
jobs_start_once_example = jobs_start_once one_started-Reach

-- The first job returns, and the terminator sends its fiber the shutdown.
abbrev shutting : Fibers
shutting = record {
  fibers =
      record { inbox = Job.shutdown ∷ []; phase = Phase.receiving }
      ∷ record { inbox = second_launch ∷ []; phase = Phase.receiving }
      ∷ [];
  fiber_pool = [];
}

shutting-Moves : Moves 2 one_started shutting
unfolding job_done terminate_round send
shutting-Moves = after (done 0 _ first_launch refl refl) (after (swept _ refl) no_move)

terminate_ends_example :
    (2 ≤ 4 * length one_started.fibers)
    × (((jobs : List Job) × (s'' : Fibers) × Move shutting jobs s'')
        ⊎ ((all_ended shutting.fibers ≡ true) × (shutting.fiber_pool ≡ [])))
terminate_ends_example = terminate_ends one_started-Reach shutting-Moves
