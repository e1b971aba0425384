-- ===== src/Trust/RemoteTrust.antt =====
-- src/trust/remote.rs as a trust of src/trust/common.rs.
use mathlib.Core.Option
use trust_tee.Prelude.{ℕ, arith, ◌≡◌, refl, ap, ◌∙◌, false, List, Option, some}
use trust_tee.Memory.{Repr}
use trust_tee.Outcome.{Outcome, ok, panic, ◌>>=◌}
use trust_tee.Closures.{Ran, returned, VTables}
use trust_tee.Channel.{Link, Event, first_served}
use trust_tee.Remote.Client.{Thread, Remote, Closure, on_trustee, run_repeated}
use trust_tee.Remote.Delegate.{IsReady, outcome_of, observed}
use trust_tee.Remote.Linearize.{IsDeliverable, apply_linearizes, with_linearizes}
use trust_tee.Remote.Arguments.{IsDeliverableWith, apply_with_linearizes}
use trust_tee.Remote.Batches.{IsDeliverableUnit, apply_batch_mut_linearizes}
use trust_tee.Remote.Launches.{IsLaunchable, launched_result, chan, launch_linearizes}
use trust_tee.Channel.Launched.{first_launched}
use trust_tee.Util.Affinity.Pinning.{PinConfig}
use trust_tee.Runtime.Handles.{spawn, spawn_with_pin}
use trust_tee.Remote.Operations
use trust_tee.Trust.{TrustLike, Promises, result_of, continued}

observed-result_of :
    {T R : Type 0} (o : Outcome (Option (R × Link T))) → result_of (λ l. l.port.prop) o ≡ observed o
observed-result_of (ok o) = refl
observed-result_of (panic p) = refl

bind-continued :
    {T R E : Type 0} (next : R → E) (o : Outcome (Option (R × Link T)))
    → (o >>= (λ d. ok (Option.map (λ x. (next x.0, x.1)) d))) ≡ continued next o
bind-continued next (ok o) = refl
bind-continued next (panic p) = refl

abbrev pub taken : {T : Type 0} → Outcome (Option (T × Link T)) → Outcome (Option T)
taken (ok o) = ok (Option.map (λ x. x.0) o)
taken (panic p) = panic p

module _ {T : Type 0} (vtables : VTables T) (repr : Repr T) (events : List (Event T)) (vtable : ℕ)
    (thread : Thread) (remote : Remote) where
  pub linear :
      {R : Type 0} (run : T → Ran T R) (l : Link T) (t t' : T) (r : R)
      (o : Outcome (Option (R × Link T)))
      → observed o ≡ ok (Option.bind (first_served events l.port.prop) (λ u. outcome_of (run u)))
      → first_served events l.port.prop ≡ some t
      → run t ≡ returned t' r
      → result_of (λ l'. l'.port.prop) o ≡ ok (some (r, t'))
  unfolding outcome_of Option.bind
  linear run l t t' r o seen at ran =
      observed-result_of o
      ∙ seen
      ∙ ap (λ x. ok (Option.bind x (λ u. outcome_of (run u)))) at
      ∙ ap (λ x. ok (outcome_of x)) ran

  pub remote_then :
      {F R E : Type 0} (k : Closure F T R) (f : F) (next : R → E) (l : Link T)
      → Operations.apply_then vtables repr events k f thread remote next l
        ≡ continued next (Operations.apply vtables repr events k f thread remote l)
  unfolding Operations.apply_then
  remote_then k f next l =
      bind-continued next (Operations.apply vtables repr events k f thread remote l)

  pub remote_launch_then :
      {F R E : Type 0} (k : Closure F T R) (f : F) (next : R → E) (l : Link T)
      → Operations.launch_then vtables repr events k f thread remote next l
        ≡ continued next (Operations.launch vtables repr events k f thread remote l)
  unfolding Operations.launch_then
  remote_launch_then k f next l =
      bind-continued next (Operations.launch vtables repr events k f thread remote l)

  pub launch_linear :
      {F R : Type 0} (k : Closure F T R) (f : F) (l : Link T) (t t' : T) (r : R)
      → IsLaunchable vtables k l.port.chan
      → IsReady l
      → first_launched events l.port.prop ≡ some t
      → k.run f t ≡ returned t' r
      → result_of (λ l'. l'.port.prop) (Operations.launch vtables repr events k f thread remote l)
        ≡ ok (some (r, t'))
  launch_linear k f l t t' r d ready_link at ran =
      observed-result_of (Operations.launch vtables repr events k f thread remote l)
      ∙ launch_linearizes vtables repr events k f thread remote l d ready_link
      ∙ ap
          (λ o. ok (
            Option.map
              (λ u.
                launched_result k.result (chan vtables repr events k f thread remote l d ready_link)
                  (k.run f u))
              o))
          at
      ∙ ap
          (λ x. ok (
            some (
              launched_result k.result (chan vtables repr events k f thread remote l d ready_link)
                x)))
          ran

  pub remote_entrust :
      (base : ℕ) (t : T) → (Operations.entrust vtables repr events base t).port.prop ≡ t
  unfolding Operations.entrust Operations.first_link spawn
  remote_entrust base t = refl

  -- The configuration for pinning changes nothing.
  pub unpinned :
      (base : ℕ) (t : T) (pin : PinConfig)
      → Operations.entrust_with_pin vtables repr events base t pin
        ≡ Operations.entrust vtables repr events base t
  unfolding Operations.entrust_with_pin Operations.entrust spawn spawn_with_pin
  unpinned base t pin = refl

  -- The operations of a remote trust, over the events that the client sees.
  abbrev pub remote_trust : ℕ → TrustLike T
  remote_trust base = record {
    Handle = Link T;
    apply = λ k f l. Operations.apply vtables repr events k f thread remote l;
    with = λ k f l. Operations.with vtables repr events k f thread remote l;
    apply_then = λ k f next l. Operations.apply_then vtables repr events k f thread remote next l;
    entrust = λ t. Operations.entrust vtables repr events base t;
    apply_with =
        λ bincode k f w l. Operations.apply_with vtables repr events bincode k f thread remote w l;
    apply_batch_mut =
        λ k f n l. Operations.apply_batch_mut vtables repr events k f thread remote n l;
    launch = λ k f l. Operations.launch vtables repr events k f thread remote l;
    launch_then = λ k f next l. Operations.launch_then vtables repr events k f thread remote next l;
    into_inner = λ l. taken (Operations.into_inner vtables repr events vtable thread remote l);
  }

  -- A remote trust of a client thread accepts the closures that fit its slots, on a ready link; its turn
  -- is the worker's first visit, and that of a launch the first run of its fiber after it.
  abbrev pub remote_trust-Promises : (base : ℕ) → Promises (remote_trust base)
  remote_trust-Promises base = record {
    value = λ l. l.port.prop;
    turn = λ l. first_served events l.port.prop;
    launch_turn = λ l. first_launched events l.port.prop;
    AcceptsWith = λ bincode k w l.
        (on_trustee thread remote ≡ false)
        × (thread.is_trustee ≡ false)
        × ((bytes : List ℕ) × (bincode.serialize w ≡ some bytes)
            × IsDeliverableWith vtables bincode k l.port.chan bytes)
        × IsReady l;
    AcceptsBatch = λ k l.
        (on_trustee thread remote ≡ false)
        × (thread.is_trustee ≡ false)
        × IsDeliverableUnit vtables k l.port.chan
        × IsReady l;
    AcceptsLaunch = λ k l. IsLaunchable vtables k l.port.chan × IsReady l;
    value-entrust = remote_entrust base;
    apply_with_acts =
        λ bincode k f w l t t' r (away, blocking, (bytes, serialized, d), ready_link) at ran.
          linear (λ u. k.run f u w) l t t' r _
            (apply_with_linearizes vtables repr events bincode k f thread remote w bytes l
              serialized d ready_link away blocking)
            at ran;
    apply_batch_mut_acts = λ k f n l t t' few (away, blocking, d, ready_link) at ran.
        linear (run_repeated (k.run f) n) l t t' tt _
          (apply_batch_mut_linearizes vtables repr events k f thread remote n l (omega (arith, few))
            d ready_link away blocking)
          at ran;
    launch_acts =
        λ k f l t t' r (d, ready_link) at ran. launch_linear k f l t t' r d ready_link at ran;
    launch_then_follows = remote_launch_then;
    Accepts = λ k l.
        (on_trustee thread remote ≡ false)
        × (thread.is_trustee ≡ false)
        × IsDeliverable vtables k l.port.chan
        × IsReady l;
    apply_acts = λ k f l t t' r (away, blocking, d, ready_link) at ran.
        linear (k.run f) l t t' r _
          (apply_linearizes vtables repr events k f thread remote l away blocking d ready_link) at
          ran;
    with_acts = λ k f l t t' r (away, blocking, d, ready_link) at ran.
        linear (k.run f) l t t' r _
          (with_linearizes vtables repr events k f thread remote l away d ready_link) at ran;
    then_follows = remote_then;
  }
