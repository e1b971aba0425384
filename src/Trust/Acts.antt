-- ===== src/Trust/Acts.antt =====
-- src/trust/common.rs: what the operations of the wrapper do, whatever trust it holds.
use trust_tee.Bincode.{Bincode}
use trust_tee.Prelude.{ℕ, ◌^◌, ◌<◌, ◌≡◌, refl, ap, ◌∙◌, Option, none, some}
use trust_tee.Outcome.{Outcome, ok, panic}
use trust_tee.Closures.{returned}
use trust_tee.Remote.Client.{Closure, ArgClosure, run_repeated}
use trust_tee.Trust.{
  TrustLike, Promises, Trust, result_of, continued, trust_value, rewrap, apply, with, apply_then,
  apply_with, apply_batch_mut, launch, launch_then, entrust,
}

result_of-rewrap :
    {T : Type 0} (like : TrustLike T) (promises : Promises like) {R : Type 0}
    (o : Outcome (Option (R × like.Handle)))
    → result_of (trust_value promises) (rewrap {like = like} o) ≡ result_of promises.value o
unfolding rewrap
result_of-rewrap like promises (ok none) = refl
result_of-rewrap like promises (ok (some x)) = refl
result_of-rewrap like promises (panic p) = refl

pub result_of-continued :
    {H T R E : Type 0} (value : H → T) (next : R → E) (o : Outcome (Option (R × H))) (r : R)
    (t' : T)
    → result_of value o ≡ ok (some (r, t'))
    → result_of value (continued next o) ≡ ok (some (next r, t'))
result_of-continued value next (ok none) r t' e = cc e
result_of-continued value next (ok (some x)) r t' e = ap (continued next) e
result_of-continued value next (panic p) r t' e = cc e

module _ {T : Type 0} {like : TrustLike T} (promises : Promises like) where
  -- Whatever trust it holds, if that trust accepts a closure and comes to the call while the property is `t`,
  -- and the closure returns on `t`, then `apply` and `with` of the wrapper give the closure's result and leave
  -- the property as it did, and `apply_then` gives the result to its continuation.
  pub trust_acts :
      {F R E : Type 0} (k : Closure F T R) (f : F) (next : R → E) (tr : Trust like) (t t' : T)
      (r : R)
      → promises.Accepts k tr.inner
      → promises.turn tr.inner ≡ some t
      → k.run f t ≡ returned t' r
      → (result_of (trust_value promises) (apply k f tr) ≡ ok (some (r, t')))
        × (result_of (trust_value promises) (with k f tr) ≡ ok (some (r, t')))
        × (result_of (trust_value promises) (apply_then k f next tr) ≡ ok (some (next r, t')))
  unfolding apply with apply_then
  trust_acts k f next tr t t' r accepted at ran = (
    result_of-rewrap _ promises _ ∙ acted,
    result_of-rewrap _ promises _ ∙ promises.with_acts k f tr.inner t t' r accepted at ran,
    result_of-rewrap _ promises _
        ∙ ap (result_of promises.value) (promises.then_follows k f next tr.inner)
        ∙ result_of-continued promises.value next (like.apply k f tr.inner) r t' acted,
  )
    where
      acted : result_of promises.value (like.apply k f tr.inner) ≡ ok (some (r, t'))
      acted = promises.apply_acts k f tr.inner t t' r accepted at ran

  -- Likewise `apply_with`, `apply_batch_mut` with a count of a byte, `launch` and `launch_then` of the wrapper,
  -- if the trust accepts the call and its closure returns on the property at its turn; and a new
  -- trust holds the value that it was given.
  pub trust_acts_on :
      {F V R E : Type 0} (bincode : Bincode V) (ka : ArgClosure F V T R)
      (ku : Closure F T (Unit {0})) (k : Closure F T R) (f : F) (w : V) (n : ℕ) (next : R → E)
      (tr : Trust like) (t u t' t'' u' : T) (r r' : R)
      → n < 2 ^ 8
      → promises.AcceptsWith bincode ka w tr.inner
      → promises.AcceptsBatch ku tr.inner
      → promises.AcceptsLaunch k tr.inner
      → promises.turn tr.inner ≡ some t
      → promises.launch_turn tr.inner ≡ some u
      → ka.run f t w ≡ returned t' r
      → run_repeated (ku.run f) n t ≡ returned t'' tt
      → k.run f u ≡ returned u' r'
      → (result_of (trust_value promises) (apply_with bincode ka f w tr) ≡ ok (some (r, t')))
        × (result_of (trust_value promises) (apply_batch_mut ku f n tr) ≡ ok (some (tt, t'')))
        × (result_of (trust_value promises) (launch k f tr) ≡ ok (some (r', u')))
        × (result_of (trust_value promises) (launch_then k f next tr) ≡ ok (some (next r', u')))
        × (trust_value promises (entrust t) ≡ t)
  unfolding apply_with apply_batch_mut launch launch_then entrust
  trust_acts_on bincode ka ku k f w n next tr t u t' t'' u' r r' few accepts_with accepts_batch
        accepts_launch at at_launch ran ran_batch ran_launch =
      (
        result_of-rewrap _ promises _
            ∙ promises.apply_with_acts bincode ka f w tr.inner t t' r accepts_with at ran,
        result_of-rewrap _ promises _
            ∙ promises.apply_batch_mut_acts ku f n tr.inner t t'' few accepts_batch at ran_batch,
        result_of-rewrap _ promises _ ∙ launched,
        result_of-rewrap _ promises _
            ∙ ap (result_of promises.value) (promises.launch_then_follows k f next tr.inner)
            ∙ result_of-continued promises.value next (like.launch k f tr.inner) r' u' launched,
        promises.value-entrust t,
      )
    where
      launched : result_of promises.value (like.launch k f tr.inner) ≡ ok (some (r', u'))
      launched = promises.launch_acts k f tr.inner u u' r' accepts_launch at_launch ran_launch
