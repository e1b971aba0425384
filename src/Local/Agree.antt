-- ===== src/Local/Agree.antt =====
-- src/trust/local.rs and src/trust/remote.rs: the operations that both trusts have.
use mathlib.Core.Option
use trust_tee.Prelude.{ℕ, ◌^◌, ◌<◌, ◌≡◌, refl, ap, ◌∙◌, true, false, List, Option, some}
use trust_tee.Memory.{Repr}
use trust_tee.Bincode.{Bincode}
use trust_tee.Outcome.{Outcome, ok, panic, ok-injective}
use trust_tee.Closures.{Ran, returned, panicked, VTables}
use trust_tee.Channel.{Link, Event, first_served}
use trust_tee.Remote.Client.{Thread, Remote, Closure, ArgClosure, on_trustee, run_repeated, direct}
use trust_tee.Remote.Delegate.{IsReady, outcome_of, observed}
use trust_tee.Remote.Linearize.{IsDeliverable, apply_linearizes}
use trust_tee.Remote.Arguments.{IsDeliverableWith, apply_with_linearizes}
use trust_tee.Remote.Batches.{IsDeliverableUnit, apply_batch_mut_linearizes}
use trust_tee.Remote.Guards.{shortcut}
use trust_tee.Remote.Operations
use trust_tee.Local

-- What the client of a remote trust sees of a call that the worker serves.
abbrev pub seen : {T R : Type 0} → Outcome (R × T) → Outcome (Option (R × T))
seen (ok x) = ok (some x)
seen (panic p) = panic p

called-outcome_of :
    {T R : Type 0} (ran : Ran T R) (x : R × T) → Local.called ran ≡ ok x → outcome_of ran ≡ some x
unfolding Local.called outcome_of
called-outcome_of (returned t r) x e = ap some (ok-injective e)
called-outcome_of (panicked t) x e = cc e

observed-direct :
    {T R : Type 0} (l : Link T) (ran : Ran T R) → observed (direct l ran) ≡ seen (Local.called ran)
unfolding direct Local.called
observed-direct l (returned t r) = refl
observed-direct l (panicked t) = refl

module _ {T : Type 0} (vtables : VTables T) (repr : Repr T) (events : List (Event T))
    (thread : Thread) (remote : Remote) (l : Link T) where
  -- On the trustee's own thread, what the client of a remote trust sees of `apply`, `with`,
  -- `apply_with` and `apply_batch_mut` is what it sees of the operation of a local trust over the
  -- same property, panics included.
  pub local_shortcut :
      {F V R : Type 0} (k : Closure F T R) (f : F) (bincode : Bincode V) (ka : ArgClosure F V T R)
      (w : V) (ku : Closure F T (Unit {0})) (n : ℕ)
      → on_trustee thread remote ≡ true
      → (observed (Operations.apply vtables repr events k f thread remote l)
          ≡ seen (Local.apply (k.run f) l.port.prop))
        × (observed (Operations.with vtables repr events k f thread remote l)
            ≡ seen (Local.with (k.run f) l.port.prop))
        × (observed (Operations.apply_with vtables repr events bincode ka f thread remote w l)
            ≡ seen (Local.apply_with (ka.run f) w l.port.prop))
        × (observed (Operations.apply_batch_mut vtables repr events ku f thread remote n l)
            ≡ seen (Local.apply_batch_mut (ku.run f) n l.port.prop))
  unfolding Local.apply Local.with Local.apply_with Local.apply_batch_mut
  local_shortcut k f bincode ka w ku n here =
      let (a, b, c, d) = shortcut vtables repr events thread remote l k f bincode ka w ku n here in
      (
        ap observed a ∙ observed-direct l _,
        ap observed b ∙ observed-direct l _,
        ap observed c ∙ observed-direct l _,
        ap observed d ∙ observed-direct l _,
      )

  -- Away from any trustee thread, on a ready link, and for closures that fit the slots, if the
  -- worker first visits the channel while the property is `t`, and the closures do not panic on
  -- it, then `apply`, `apply_with` and `apply_batch_mut` give what the local operations over `t`
  -- give: the same result and the same property.
  pub local_delegated :
      {F V R : Type 0} (k : Closure F T R) (f : F) (bincode : Bincode V) (ka : ArgClosure F V T R)
      (w : V) (bytes : List ℕ) (ku : Closure F T (Unit {0})) (n : ℕ) (t : T)
      → on_trustee thread remote ≡ false
      → thread.is_trustee ≡ false
      → IsReady l
      → first_served events l.port.prop ≡ some t
      → IsDeliverable vtables k l.port.chan
      → IsDeliverableWith vtables bincode ka l.port.chan bytes
      → bincode.serialize w ≡ some bytes
      → IsDeliverableUnit vtables ku l.port.chan
      → n < 2 ^ 32
      → (x y : R × T) (z : Unit {0} × T) → Local.apply (k.run f) t ≡ ok x
      → Local.apply_with (ka.run f) w t ≡ ok y
      → Local.apply_batch_mut (ku.run f) n t ≡ ok z
      → (observed (Operations.apply vtables repr events k f thread remote l) ≡ seen (ok x))
        × (observed (Operations.apply_with vtables repr events bincode ka f thread remote w l)
            ≡ seen (ok y))
        × (observed (Operations.apply_batch_mut vtables repr events ku f thread remote n l)
            ≡ seen (ok z))
  unfolding Local.apply Local.apply_with Local.apply_batch_mut Option.bind
  local_delegated k f bincode ka w bytes ku n t away blocking r served d da serialized du few x y z
        hx hy hz =
      (
        apply_linearizes vtables repr events k f thread remote l away blocking d r
            ∙ ap (λ o. ok (Option.bind o (λ t. outcome_of (k.run f t)))) served
            ∙ ap ok (called-outcome_of (k.run f t) x hx),
        apply_with_linearizes vtables repr events bincode ka f thread remote w bytes l serialized da
              r away blocking
            ∙ ap (λ o. ok (Option.bind o (λ t. outcome_of (ka.run f t w)))) served
            ∙ ap ok (called-outcome_of (ka.run f t w) y hy),
        apply_batch_mut_linearizes vtables repr events ku f thread remote n l few du r away blocking
            ∙ ap (λ o. ok (Option.bind o (λ t. outcome_of (run_repeated (ku.run f) n t)))) served
            ∙ ap ok (called-outcome_of (run_repeated (ku.run f) n t) z hz),
      )
