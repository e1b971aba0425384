-- ===== src/Trust/Display.antt =====
-- src/trust/common.rs, src/trust/local.rs, src/trust/remote.rs: `Display` and `Debug` of the trusts. A formatter
-- is the text that it has taken up, in bytes; the alternate form of `debug_tuple` is not modelled.
use trust_tee.Prelude.{◌≡◌, refl, List, [], ◌∷◌, ◌++◌, Option, some, Text}
use trust_tee.Memory.{Repr}
use trust_tee.Outcome.{Outcome, ok, ◌>>=◌}
use trust_tee.Closures.{returned, VTables}
use trust_tee.Channel.{Link, Event}
use trust_tee.Remote.Client.{Thread, Remote, Closure}
use trust_tee.Remote.Operations
use trust_tee.Local
use trust_tee.Trust.{TrustLike, Promises, Trust, result_of, continued}
use trust_tee.Trust.Acts.{result_of-continued}

-- `debug_tuple(name).field(&s).finish()`; the `Debug` of a string quotes it.
abbrev pub debug_tuple : (Text → Text) → Text → Text → Text → Text
debug_tuple quoted name s out = out ++ (name ++ (40 ∷ (quoted s ++ (41 ∷ []))))

-- "Local", "Remote" and "Trust"
abbrev pub local_name : Text
local_name = 76 ∷ 111 ∷ 99 ∷ 97 ∷ 108 ∷ []

abbrev pub remote_name : Text
remote_name = 82 ∷ 101 ∷ 109 ∷ 111 ∷ 116 ∷ 101 ∷ []

abbrev pub trust_name : Text
trust_name = 84 ∷ 114 ∷ 117 ∷ 115 ∷ 116 ∷ []

module _ {T : Type 0} (text : T → Text) (out : Text) where
  unfoldable pub local_display : T → Outcome (Text × T)
  local_display t = do (s, t') ← Local.with (λ u. returned u (text u)) t; ok (out ++ s, t')

  unfoldable pub local_debug : (Text → Text) → T → Outcome (Text × T)
  local_debug quoted t = do
    (s, t') ← Local.with (λ u. returned u (text u)) t
    ok (debug_tuple quoted local_name s out, t')

module _ {T : Type 0} (vtables : VTables T) (repr : Repr T) (events : List (Event T))
    (k : Closure (Unit {0}) T Text) (out : Text) (thread : Thread) (remote : Remote) where
  unfoldable pub remote_display : Link T → Outcome (Option (Text × Link T))
  remote_display l =
      continued (λ s. out ++ s) (Operations.with vtables repr events k tt thread remote l)

  unfoldable pub remote_debug : (Text → Text) → Link T → Outcome (Option (Text × Link T))
  remote_debug quoted l =
      continued (λ s. debug_tuple quoted remote_name s out)
        (Operations.with vtables repr events k tt thread remote l)

module _ {T : Type 0} (like : TrustLike T) (k : Closure (Unit {0}) T Text) (out : Text) where
  -- Of the wrapper: the trust inside is asked with `with`.
  unfoldable pub display : Trust like → Outcome (Option (Text × like.Handle))
  display tr = continued (λ s. out ++ s) (like.with k tt tr.inner)

  unfoldable pub debug : (Text → Text) → Trust like → Outcome (Option (Text × like.Handle))
  debug quoted tr = continued (λ s. debug_tuple quoted trust_name s out) (like.with k tt tr.inner)

  -- Whatever trust it holds: the wrapper prints the property as it stands at the turn of the trust, and
  -- leaves it as it is.
  pub prints_value :
      (promises : Promises like) (text : T → Text) (quoted : Text → Text) (tr : Trust like) (t : T)
      → promises.Accepts k tr.inner
      → promises.turn tr.inner ≡ some t
      → k.run tt t ≡ returned t (text t)
      → (result_of promises.value (display tr) ≡ ok (some (out ++ text t, t)))
        × (result_of promises.value (debug quoted tr)
            ≡ ok (some (debug_tuple quoted trust_name (text t) out, t)))
  unfolding display debug
  prints_value promises text quoted tr t accepts at ran =
      let acted = promises.with_acts k tt tr.inner t t (text t) accepts at ran in
      (
        result_of-continued promises.value (λ s. out ++ s) _ (text t) t acted,
        result_of-continued promises.value (λ s. debug_tuple quoted trust_name s out) _ (text t) t
            acted,
      )

-- A local trust prints its property.
pub local_prints :
    {T : Type 0} (text : T → Text) (quoted : Text → Text) (out : Text) (t : T)
    → (local_display text out t ≡ ok (out ++ text t, t))
      × (local_debug text out quoted t ≡ ok (debug_tuple quoted local_name (text t) out, t))
unfolding local_display local_debug Local.with Local.called
local_prints text quoted out t = (refl, refl)
