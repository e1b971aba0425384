-- ===== src/Trust/LocalTrust.antt =====
-- src/trust/local.rs as a trust of src/trust/common.rs.
use mathlib.Core.Option
use trust_tee.Prelude.{ℕ, ◌≡◌, refl, ap, ◌∙◌, Option, some}
use trust_tee.Outcome.{Outcome, ok, panic, ◌>>=◌}
use trust_tee.Closures.{Ran, returned}
use trust_tee.Remote.Client.{run_repeated}
use trust_tee.Local
use trust_tee.Trust.{TrustLike, Promises, result_of, continued}

-- A local operation returns or panics at once.
abbrev pub at_once : {H R : Type 0} → Outcome (R × H) → Outcome (Option (R × H))
at_once (ok x) = ok (some x)
at_once (panic p) = panic p

called_acts :
    {T R : Type 0} (run : T → Ran T R) (h t t' : T) (r : R)
    → some h ≡ some t
    → run t ≡ returned t' r
    → result_of (λ u. u) (at_once (Local.called (run h))) ≡ ok (some (r, t'))
unfolding Local.called
called_acts run h t t' r at ran =
    ap (λ x. result_of (λ u. u) (at_once (Local.called x)))
      (ap run (ap (λ o. Option.get_or o h) at) ∙ ran)

pub local_apply_acts :
    {T R : Type 0} (run : T → Ran T R) (h t t' : T) (r : R)
    → some h ≡ some t
    → run t ≡ returned t' r
    → result_of (λ u. u) (at_once (Local.apply run h)) ≡ ok (some (r, t'))
unfolding Local.apply
local_apply_acts run h t t' r at ran = called_acts run h t t' r at ran

pub local_with_acts :
    {T R : Type 0} (run : T → Ran T R) (h t t' : T) (r : R)
    → some h ≡ some t
    → run t ≡ returned t' r
    → result_of (λ u. u) (at_once (Local.with run h)) ≡ ok (some (r, t'))
unfolding Local.with
local_with_acts run h t t' r at ran = called_acts run h t t' r at ran

pub at_once-continued :
    {T R E : Type 0} (next : R → E) (o : Outcome (R × T))
    → at_once (o >>= (λ x. ok (next x.0, x.1))) ≡ continued next (at_once o)
at_once-continued next (ok x) = refl
at_once-continued next (panic p) = refl

pub local_then :
    {T R E : Type 0} (run : T → Ran T R) (next : R → E) (t : T)
    → at_once (Local.apply_then run next t) ≡ continued next (at_once (Local.apply run t))
unfolding Local.apply_then
local_then run next t = at_once-continued next (Local.apply run t)

pub local_batch_acts :
    {T : Type 0} (run : T → Ran T (Unit {0})) (n : ℕ) (h t t' : T)
    → some h ≡ some t
    → run_repeated run n t ≡ returned t' tt
    → result_of (λ u. u) (at_once (Local.apply_batch_mut run n h)) ≡ ok (some (tt, t'))
unfolding Local.apply_batch_mut
local_batch_acts run n h t t' at ran = called_acts (run_repeated run n) h t t' tt at ran

pub local_with_arg_acts :
    {V T R : Type 0} (run : T → V → Ran T R) (w : V) (h t t' : T) (r : R)
    → some h ≡ some t
    → run t w ≡ returned t' r
    → result_of (λ u. u) (at_once (Local.apply_with run w h)) ≡ ok (some (r, t'))
unfolding Local.apply_with
local_with_arg_acts run w h t t' r at ran = called_acts (λ u. run u w) h t t' r at ran

pub local_launch_acts :
    {T R : Type 0} (run : T → Ran T R) (h t t' : T) (r : R)
    → some h ≡ some t
    → run t ≡ returned t' r
    → result_of (λ u. u) (at_once (Local.launch run h)) ≡ ok (some (r, t'))
unfolding Local.launch
local_launch_acts run h t t' r at ran = called_acts run h t t' r at ran

pub local_launch_then :
    {T R E : Type 0} (run : T → Ran T R) (next : R → E) (t : T)
    → at_once (Local.launch_then run next t) ≡ continued next (at_once (Local.launch run t))
unfolding Local.launch_then
local_launch_then run next t = at_once-continued next (Local.launch run t)

pub local_entrust : {T : Type 0} (t : T) → Local.entrust t ≡ t
unfolding Local.entrust
local_entrust t = refl

-- The operations of a local trust.
abbrev pub local_trust : (T : Type 0) → TrustLike T
local_trust T = record {
  Handle = T;
  apply = λ k f t. at_once (Local.apply (k.run f) t);
  with = λ k f t. at_once (Local.with (k.run f) t);
  apply_then = λ k f next t. at_once (Local.apply_then (k.run f) next t);
  entrust = Local.entrust;
  apply_with = λ bincode k f w t. at_once (Local.apply_with (k.run f) w t);
  apply_batch_mut = λ k f n t. at_once (Local.apply_batch_mut (k.run f) n t);
  launch = λ k f t. at_once (Local.launch (k.run f) t);
  launch_then = λ k f next t. at_once (Local.launch_then (k.run f) next t);
  into_inner = λ t. ok (some (Local.into_inner t));
}

-- A local trust accepts every closure, and it is its turn at once.
abbrev pub local_trust-Promises : (T : Type 0) → Promises (local_trust T)
local_trust-Promises T = record {
  value = λ t. t;
  turn = some;
  launch_turn = some;
  Accepts = λ k h. Unit {0};
  AcceptsWith = λ bincode k w h. Unit {0};
  AcceptsBatch = λ k h. Unit {0};
  AcceptsLaunch = λ k h. Unit {0};
  value-entrust = local_entrust;
  apply_with_acts =
      λ bincode k f w h t t' r accepted at ran. local_with_arg_acts (k.run f) w h t t' r at ran;
  apply_batch_mut_acts =
      λ k f n h t t' few accepted at ran. local_batch_acts (k.run f) n h t t' at ran;
  launch_acts = λ k f h t t' r accepted at ran. local_launch_acts (k.run f) h t t' r at ran;
  launch_then_follows = λ k f next t. local_launch_then (k.run f) next t;
  apply_acts = λ k f h t t' r accepted at ran. local_apply_acts (k.run f) h t t' r at ran;
  with_acts = λ k f h t t' r accepted at ran. local_with_acts (k.run f) h t t' r at ran;
  then_follows = λ k f next t. local_then (k.run f) next t;
}
