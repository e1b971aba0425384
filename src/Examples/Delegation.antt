-- ===== src/Examples/Delegation.antt =====
-- The operations of a client on the Boolean property.
use mathlib.Core.Option
use trust_tee.Prelude.{◌≡◌, refl, inl, Bool, true, false, not, [], ◌∷◌, some, arith}
use trust_tee.Outcome.{ok}
use trust_tee.Remote.Post.{IsPlaced}
use trust_tee.Remote.Client.{on_trustee, run_repeated}
use trust_tee.Remote.Operations.{
  apply, with, apply_then, apply_with, apply_batch_mut, into_inner, launch, with, launch_then,
}
use trust_tee.Remote.Delegate.{IsReady, observed, outcome_of}
use trust_tee.Remote.Linearize.{IsDeliverable, apply_linearizes, StaysReady, apply-IsReady}
use trust_tee.Remote.Arguments.{IsDeliverableWith, apply_with_linearizes}
use trust_tee.Remote.Batches.{IsDeliverableUnit, apply_batch_mut_linearizes}
use trust_tee.Remote.Moves.{left_behind, into_inner_moves}
use trust_tee.Remote.Ended.{NoResult, ended_gives_nothing}
use trust_tee.Channel.{Link}
use trust_tee.Channel.{first_served}
use trust_tee.Local.Agree.{local_delegated}
use trust_tee.Local
use trust_tee.Examples.Data.{
  bool_repr, bool_bincode, compare_with, compare_both, compare_only, bool_vtables, channel, link,
  client_thread, remote, schedule,
}

placed : IsPlaced channel 512
placed = record { slots = omega arith; static = omega arith }

pub link-IsReady : IsReady link
link-IsReady = record { running = refl; settled = inl refl; no_jobs = refl }

pub away : on_trustee client_thread remote ≡ false
unfolding on_trustee
away = refl

pub deliverable : IsDeliverable bool_vtables compare_with channel
deliverable = record {
  aligned = omega arith;
  small = omega arith;
  result_small = omega arith;
  placed = placed;
  compiled = refl;
}

pub deliverable_with : IsDeliverableWith bool_vtables bool_bincode compare_both channel (1 ∷ [])
deliverable_with = record {
  aligned = omega arith;
  small = omega arith;
  result_small = omega arith;
  placed = placed;
  compiled = refl;
}

pub deliverable_unit : IsDeliverableUnit bool_vtables compare_only channel
deliverable_unit = record {
  aligned = omega arith;
  small = omega arith;
  placed = placed;
  compiled = refl;
}

-- The other client has made the property false: the call returns that, and leaves true.
apply_linearizes_example :
    observed (apply bool_vtables bool_repr schedule compare_with false client_thread remote link)
    ≡ ok (some (false, true))
unfolding first_served outcome_of Option.bind
apply_linearizes_example =
    apply_linearizes bool_vtables bool_repr schedule compare_with false client_thread remote link
      away refl deliverable link-IsReady

apply_with_linearizes_example :
    observed (
      apply_with bool_vtables bool_repr schedule bool_bincode compare_both false client_thread
        remote true link)
    ≡ ok (some (false, true))
unfolding first_served outcome_of Option.bind
apply_with_linearizes_example =
    apply_with_linearizes bool_vtables bool_repr schedule bool_bincode compare_both false
      client_thread remote true (1 ∷ []) link refl deliverable_with link-IsReady away refl

apply_batch_mut_linearizes_example :
    observed (
      apply_batch_mut bool_vtables bool_repr schedule compare_only false client_thread remote 3
        link)
    ≡ ok (some (tt, true))
unfolding first_served outcome_of Option.bind run_repeated
apply_batch_mut_linearizes_example =
    apply_batch_mut_linearizes bool_vtables bool_repr schedule compare_only false client_thread
      remote 3 link (omega arith) deliverable_unit link-IsReady away refl

into_inner_moves_example :
    left_behind (into_inner bool_vtables bool_repr schedule 512 client_thread remote link)
    ≡ ok (some (false, false))
unfolding first_served
into_inner_moves_example =
    into_inner_moves bool_vtables bool_repr schedule 512 client_thread remote link placed
      link-IsReady (omega arith) refl refl

local_delegated_example :
    (observed (apply bool_vtables bool_repr schedule compare_with false client_thread remote link)
      ≡ ok (some (false, true)))
    × (observed (
          apply_with bool_vtables bool_repr schedule bool_bincode compare_both false client_thread
            remote true link)
        ≡ ok (some (false, true)))
    × (observed (
          apply_batch_mut bool_vtables bool_repr schedule compare_only false client_thread remote 3
            link)
        ≡ ok (some (tt, true)))
unfolding first_served Local.apply Local.apply_with Local.apply_batch_mut run_repeated Local.called
local_delegated_example =
    local_delegated bool_vtables bool_repr schedule client_thread remote link compare_with false
      bool_bincode compare_both true (1 ∷ []) compare_only 3 false away refl link-IsReady refl
      deliverable deliverable_with refl deliverable_unit (omega arith) (false, true) (false, true)
      (tt, true) refl refl refl

-- The worker has left its loop for another client.
abbrev ended : Link Bool
ended = record link { running = false }

ended_gives_nothing_example :
    NoResult (apply bool_vtables bool_repr schedule compare_with false client_thread remote ended)
    × NoResult (with bool_vtables bool_repr schedule compare_with false client_thread remote ended)
    × NoResult (
        apply_then bool_vtables bool_repr schedule compare_with false client_thread remote not
          ended)
    × NoResult (
        apply_with bool_vtables bool_repr schedule bool_bincode compare_both false client_thread
          remote true ended)
    × NoResult (
        apply_batch_mut bool_vtables bool_repr schedule compare_only false client_thread remote 3
          ended)
    × NoResult
        (launch bool_vtables bool_repr schedule compare_with false client_thread remote ended)
    × NoResult (
        launch_then bool_vtables bool_repr schedule compare_with false client_thread remote not
          ended)
    × NoResult (into_inner bool_vtables bool_repr schedule 512 client_thread remote ended)
ended_gives_nothing_example =
    ended_gives_nothing bool_vtables bool_repr schedule ended refl refl compare_with false
      bool_bincode compare_both true compare_only 3 client_thread remote 512 not away

apply-IsReady_example :
    StaysReady link
      (apply bool_vtables bool_repr schedule compare_with false client_thread remote link)
apply-IsReady_example =
    apply-IsReady bool_vtables bool_repr schedule compare_with false client_thread remote link away
      refl deliverable link-IsReady
