-- ===== src/Examples/Interleaving/Log.antt =====
-- One call of the client of a Boolean property, from the start to its answer, with the log of its calls.
use trust_tee.Prelude.{
  ℕ, ◌≡◌, refl, subst, Bool, true, false, not, same, same_self, List, [], ◌∷◌, ◌++◌, length,
  get_elem?, arith,
}
use trust_tee.Slots.{ready, new_channel}
use trust_tee.Runtime.Handles.{spawn, register, client_seat}
use trust_tee.Remote.Post.{post-posted}
use trust_tee.System.{seats, polled, turned}
use trust_tee.System.Calls.{post-IsPost}
use trust_tee.System.Log.{Log, Calls, Holds, calls_of, run_log}
use trust_tee.System.Log
use trust_tee.System.Log.Runs.{unanswered, posted-Holds, calls_run_once}
use trust_tee.Examples.Data.{bool_repr, bool_vtables, compare_with, channel}
use trust_tee.Examples.Delegation.{deliverable}
use trust_tee.Examples.Interleaving.{
  first, started, call, in_slot, asked, called, taken_up-poll, turned_over, over,
}

started-Calls : Calls bool_vtables bool_repr true 4096 started []
unfolding spawn register client_seat new_channel
started-Calls = Log.Calls.spawned

abbrev flip : Bool → Bool
flip t = same false t

asked-Holds : Holds bool_vtables bool_repr asked flip
asked-Holds =
    posted-Holds bool_vtables bool_repr compare_with call channel in_slot flip (λ t. t) refl
      deliverable.result_small deliverable.placed (omega arith) refl (λ t. refl)

abbrev one_call : Log Bool
one_call = (0, flip) ∷ []

called-Calls : Calls bool_vtables bool_repr true 4096 called one_call
called-Calls =
    Log.Calls.called 0 flip first asked started-Calls refl (same_self (ready 0))
      (post-IsPost call channel asked (not (ready channel.response_flags))
        (post-posted call channel in_slot))
      asked-Holds

over-Calls : Calls bool_vtables bool_repr true 4096 over one_call
over-Calls =
    subst (λ s. Calls bool_vtables bool_repr true 4096 s one_call) turned_over
      (Log.Calls.stepped
        (subst
          (λ w.
            Calls bool_vtables bool_repr true 4096 (record { worker = w; running = true }) one_call)
          taken_up-poll (Log.Calls.stepped called-Calls (polled refl) tt))
        (turned 1 0 false refl) tt)

calls_run_once_example :
    (log : Log Bool) × (false ≡ run_log log true)
    × ((i : ℕ)
        → (waiting : List (Bool → Bool)) × (calls_of i one_call ≡ waiting ++ calls_of i log)
          × (length waiting ≡ unanswered (get_elem? (seats over.worker) i)))
calls_run_once_example = calls_run_once bool_vtables bool_repr over-Calls
