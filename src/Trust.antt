-- ===== src/Trust.antt =====
-- src/trust/common.rs: the interface of a trust, and the wrapper that forwards to the trust inside it. An
-- operation of a trust returns nothing where its caller still waits.
pub mod Acts
pub mod LocalTrust
pub mod RemoteTrust
pub mod Display
use mathlib.Core.Option
use trust_tee.Bincode.{Bincode}
use trust_tee.Prelude.{ℕ, ◌^◌, ◌<◌, ◌≡◌, refl, ap, ◌∙◌, Option, none, some}
use trust_tee.Outcome.{Outcome, ok, panic, ◌>>=◌}
use trust_tee.Closures.{Ran, returned}
use trust_tee.Remote.Client.{Closure, ArgClosure, run_repeated}

-- The value after a call that returned, with its result.
abbrev pub result_of :
    {H T R : Type 0} → (H → T) → Outcome (Option (R × H)) → Outcome (Option (R × T))
result_of value (ok o) = ok (Option.map (λ x. (x.0, value x.1)) o)
result_of value (panic p) = panic p

-- The result goes to a continuation.
abbrev pub continued :
    {H R E : Type 0} → (R → E) → Outcome (Option (R × H)) → Outcome (Option (E × H))
continued next (ok o) = ok (Option.map (λ x. (next x.0, x.1)) o)
continued next (panic p) = panic p

-- The operations that a kind of trust has.
pub record TrustLike (T : Type 0) : Type 1 where
  pub Handle : Type 0
  pub entrust : T → Handle
  pub apply : {F R : Type 0} → Closure F T R → F → Handle → Outcome (Option (R × Handle))
  pub with : {F R : Type 0} → Closure F T R → F → Handle → Outcome (Option (R × Handle))
  pub apply_then :
      {F R E : Type 0} → Closure F T R → F → (R → E) → Handle → Outcome (Option (E × Handle))
  pub apply_with :
      {F V R : Type 0}
      → Bincode V
      → ArgClosure F V T R
      → F
      → V
      → Handle
      → Outcome (Option (R × Handle))
  pub apply_batch_mut :
      {F : Type 0} → Closure F T (Unit {0}) → F → ℕ → Handle → Outcome (Option (Unit {0} × Handle))
  pub launch : {F R : Type 0} → Closure F T R → F → Handle → Outcome (Option (R × Handle))
  pub launch_then :
      {F R E : Type 0} → Closure F T R → F → (R → E) → Handle → Outcome (Option (E × Handle))
  pub into_inner : Handle → Outcome (Option T)

-- What a client may rely on with a kind of trust, beside its operations: a call that the trust accepts, and that
-- comes to its turn while the property is `t`, acts as its closure does on `t`.
pub record Promises {T : Type 0} (like : TrustLike T) : Type 1 where
  pub value : like.Handle → T
  pub turn : like.Handle → Option T
  pub launch_turn : like.Handle → Option T
  pub Accepts : {F R : Type 0} → Closure F T R → like.Handle → Type 0
  pub AcceptsWith : {F V R : Type 0} → Bincode V → ArgClosure F V T R → V → like.Handle → Type 0
  pub AcceptsBatch : {F : Type 0} → Closure F T (Unit {0}) → like.Handle → Type 0
  pub AcceptsLaunch : {F R : Type 0} → Closure F T R → like.Handle → Type 0
  pub value-entrust : (t : T) → value (like.entrust t) ≡ t
  pub apply_acts :
      {F R : Type 0} (k : Closure F T R) (f : F) (h : like.Handle) (t t' : T) (r : R)
      → Accepts k h
      → turn h ≡ some t
      → k.run f t ≡ returned t' r
      → result_of value (like.apply k f h) ≡ ok (some (r, t'))
  pub with_acts :
      {F R : Type 0} (k : Closure F T R) (f : F) (h : like.Handle) (t t' : T) (r : R)
      → Accepts k h
      → turn h ≡ some t
      → k.run f t ≡ returned t' r
      → result_of value (like.with k f h) ≡ ok (some (r, t'))
  pub then_follows :
      {F R E : Type 0} (k : Closure F T R) (f : F) (next : R → E) (h : like.Handle)
      → like.apply_then k f next h ≡ continued next (like.apply k f h)
  pub apply_with_acts :
      {F V R : Type 0} (bincode : Bincode V) (k : ArgClosure F V T R) (f : F) (w : V)
      (h : like.Handle) (t t' : T) (r : R)
      → AcceptsWith bincode k w h
      → turn h ≡ some t
      → k.run f t w ≡ returned t' r
      → result_of value (like.apply_with bincode k f w h) ≡ ok (some (r, t'))
  pub apply_batch_mut_acts :
      {F : Type 0} (k : Closure F T (Unit {0})) (f : F) (n : ℕ) (h : like.Handle) (t t' : T)
      → n < 2 ^ 8
      → AcceptsBatch k h
      → turn h ≡ some t
      → run_repeated (k.run f) n t ≡ returned t' tt
      → result_of value (like.apply_batch_mut k f n h) ≡ ok (some (tt, t'))
  pub launch_acts :
      {F R : Type 0} (k : Closure F T R) (f : F) (h : like.Handle) (t t' : T) (r : R)
      → AcceptsLaunch k h
      → launch_turn h ≡ some t
      → k.run f t ≡ returned t' r
      → result_of value (like.launch k f h) ≡ ok (some (r, t'))
  pub launch_then_follows :
      {F R E : Type 0} (k : Closure F T R) (f : F) (next : R → E) (h : like.Handle)
      → like.launch_then k f next h ≡ continued next (like.launch k f h)

-- `Trust<T>` holds a trust of the kind `like`.
pub record Trust {T : Type 0} (like : TrustLike T) : Type 0 where
  pub inner : like.Handle

module _ {T : Type 0} {like : TrustLike T} where
  -- The value that a trust is taken to have.
  abbrev pub trust_value : Promises like → Trust like → T
  trust_value promises t = promises.value t.inner

  rewrap : {R : Type 0} → Outcome (Option (R × like.Handle)) → Outcome (Option (R × Trust like))
  rewrap (ok o) = ok (Option.map (λ x. (x.0, record { inner = x.1 })) o)
  rewrap (panic p) = panic p

  pub new : like.Handle → Trust like
  new inner = record { inner = inner }

  unfoldable pub apply :
      {F R : Type 0} → Closure F T R → F → Trust like → Outcome (Option (R × Trust like))
  unfolding rewrap
  apply k f t = rewrap (like.apply k f t.inner)

  unfoldable pub with :
      {F R : Type 0} → Closure F T R → F → Trust like → Outcome (Option (R × Trust like))
  unfolding rewrap
  with k f t = rewrap (like.with k f t.inner)

  unfoldable pub apply_then :
      {F R E : Type 0}
      → Closure F T R
      → F
      → (R → E)
      → Trust like
      → Outcome (Option (E × Trust like))
  unfolding rewrap
  apply_then k f next t = rewrap (like.apply_then k f next t.inner)

  unfoldable pub apply_with :
      {F V R : Type 0}
      → Bincode V
      → ArgClosure F V T R
      → F
      → V
      → Trust like
      → Outcome (Option (R × Trust like))
  unfolding rewrap
  apply_with bincode k f w t = rewrap (like.apply_with bincode k f w t.inner)

  unfoldable pub apply_batch_mut :
      {F : Type 0}
      → Closure F T (Unit {0})
      → F
      → ℕ
      → Trust like
      → Outcome (Option (Unit {0} × Trust like))
  unfolding rewrap
  apply_batch_mut k f n t = rewrap (like.apply_batch_mut k f n t.inner)

  unfoldable pub launch :
      {F R : Type 0} → Closure F T R → F → Trust like → Outcome (Option (R × Trust like))
  unfolding rewrap
  launch k f t = rewrap (like.launch k f t.inner)

  unfoldable pub launch_then :
      {F R E : Type 0}
      → Closure F T R
      → F
      → (R → E)
      → Trust like
      → Outcome (Option (E × Trust like))
  unfolding rewrap
  launch_then k f next t = rewrap (like.launch_then k f next t.inner)

  -- `Trust::<Local<T>>::entrust` and `Trust::<Remote<T>>::entrust`
  unfoldable pub entrust : T → Trust like
  entrust value = record { inner = like.entrust value }

  pub into_inner : Trust like → Outcome (Option T)
  into_inner t = like.into_inner t.inner
