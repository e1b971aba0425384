-- ===== src/Util/CondLatch/Waiters.antt =====
-- src/util/latch.rs: the threads that wait on a latch.
use mathlib.Core.Option
use trust_tee.Prelude.{
  ℕ, Bool, true, false, Option, none, some, ◌==◌, ◌≡◌, refl, ap, ◌∙◌, subst, sym, Bool-cases, inl,
  inr, arith,
}
use trust_tee.Util.CondLatch.{
  Latch, Phase, Step, Reach, locks, writes, drops_guard, unwinds, waits, tests, wakes, relocks,
  notifies, start, step, acquire, release, test_condition, notified, notify_all, holds, new,
}

abbrev pub held_by : Option ℕ → ℕ → Bool
held_by none u = false
held_by (some t) u = t == u

-- Asleep although its condition holds.
abbrev pub missed : {T : Type 0} → T → Phase T → Bool
missed v (Phase.asleep condition) = condition v
missed v Phase.idle = false
missed v Phase.guarding = false
missed v (Phase.testing condition) = false
missed v (Phase.woken condition) = false
missed v Phase.panicked = false

-- The mutex is held by the one thread that uses it, and, if the value was not written since the last
-- notification, no thread sleeps although its condition holds.
record IsConsistent {T : Type 0} (l : Latch T) (changed : Bool) : Type 0 where
  exact : (u : ℕ) → holds (l.phase u) ≡ held_by l.holder u
  attended : changed ≡ false → (u : ℕ) → missed l.value (l.phase u) ≡ false

module _ {T : Type 0} where
  acquire-IsConsistent :
      (l l' : Latch T) (changed : Bool) (t : ℕ) (next : Phase T)
      → IsConsistent l changed
      → holds (l.phase t) ≡ false
      → holds next ≡ true
      → missed l.value next ≡ false
      → acquire t next l ≡ some l'
      → IsConsistent l' changed
  unfolding acquire
  acquire-IsConsistent l l' changed t next is free holding not_asleep e =
      go l.holder l.poisoned is.exact e
    where
      go :
          (holder : Option ℕ) (poisoned : Bool)
          → ((u : ℕ) → holds (l.phase u) ≡ held_by holder u)
          → acquire t next (record l { holder = holder; poisoned = poisoned }) ≡ some l'
          → IsConsistent l' changed
      go (some u) poisoned exact e = cc e
      go none true exact e =
          subst (λ (x : Latch T). IsConsistent x changed) (Option.some_inj.0 e)
            (record {
              exact = λ u. ground (arith, exact u);
              attended = λ h u. ground (arith, is.attended h u);
            })
      go none false exact e =
          subst (λ (x : Latch T). IsConsistent x changed) (Option.some_inj.0 e)
            (record {
              exact = λ u. ground (arith, exact u, holding);
              attended = λ h u. ground (arith, is.attended h u, not_asleep);
            })

  release-IsConsistent :
      (l : Latch T) (changed : Bool) (t : ℕ) (next : Phase T)
      → IsConsistent l changed
      → holds (l.phase t) ≡ true
      → holds next ≡ false
      → missed l.value next ≡ false
      → IsConsistent (release t next l) changed
  unfolding release
  release-IsConsistent l changed t next is holding free not_asleep = record {
    exact = λ u. ground (arith, is.exact u, is.exact t, free);
    attended = λ e u. ground (arith, is.attended e u, not_asleep);
  }

  test-IsConsistent :
      (l : Latch T) (changed : Bool) (t : ℕ) (condition : T → Bool)
      → IsConsistent l changed
      → l.phase t ≡ Phase.testing condition
      → IsConsistent (test_condition t condition l) changed
  unfolding test_condition
  test-IsConsistent l changed t condition is at = elim (Bool-cases (condition l.value)) [
    | inl met ↦ rw met (release-IsConsistent l changed t Phase.idle is (ap holds at) refl refl)
    | inr unmet ↦
        rw unmet
          (release-IsConsistent l changed t (Phase.asleep condition) is (ap holds at) refl unmet)
  ]

  holds-notified : (p : Phase T) → holds (notified p) ≡ holds p
  holds-notified Phase.idle = refl
  holds-notified Phase.guarding = refl
  holds-notified (Phase.testing condition) = refl
  holds-notified (Phase.asleep condition) = refl
  holds-notified (Phase.woken condition) = refl
  holds-notified Phase.panicked = refl

  missed-notified : (v : T) (p : Phase T) → missed v (notified p) ≡ false
  missed-notified v Phase.idle = refl
  missed-notified v Phase.guarding = refl
  missed-notified v (Phase.testing condition) = refl
  missed-notified v (Phase.asleep condition) = refl
  missed-notified v (Phase.woken condition) = refl
  missed-notified v Phase.panicked = refl

  step-IsConsistent :
      {l l' : Latch T} {changed changed' : Bool}
      → Step l changed l' changed'
      → IsConsistent l changed
      → IsConsistent l' changed'
  unfolding notify_all
  step-IsConsistent (locks l l' changed t at e) is =
      acquire-IsConsistent l l' changed t Phase.guarding is (ap holds at) refl refl e
  step-IsConsistent (writes l changed t v at) is = record {
    exact = is.exact;
    attended = λ e u. cc e;
  }
  step-IsConsistent (drops_guard l changed t at) is =
      release-IsConsistent l changed t Phase.idle is (ap holds at) refl refl
  step-IsConsistent (unwinds l changed t holding) is =
      let r = release-IsConsistent l changed t Phase.panicked is holding refl refl in
      record { exact = r.exact; attended = r.attended }
  step-IsConsistent (waits l l' changed t condition at e) is =
      acquire-IsConsistent l l' changed t (Phase.testing condition) is (ap holds at) refl refl e
  step-IsConsistent (tests l changed t condition at) is =
      test-IsConsistent l changed t condition is at
  step-IsConsistent (wakes l changed t condition at) is = record {
    exact = λ u. ground (arith, is.exact u, is.exact t, ap holds at);
    attended = λ e u. ground (arith, is.attended e u);
  }
  step-IsConsistent (relocks l l' changed t condition at e) is =
      acquire-IsConsistent l l' changed t (Phase.testing condition) is (ap holds at) refl refl e
  step-IsConsistent (notifies l changed) is = record {
    exact = λ u. holds-notified (l.phase u) ∙ is.exact u;
    attended = λ e u. missed-notified l.value (l.phase u);
  }

  reach-IsConsistent :
      {val : T} {l : Latch T} {changed : Bool} → Reach val l changed → IsConsistent l changed
  unfolding new
  reach-IsConsistent start = record { exact = λ u. refl; attended = λ e u. refl }
  reach-IsConsistent (step reached s) = step-IsConsistent s (reach-IsConsistent reached)

  -- In every reachable state that was notified since its value was last written, a thread that sleeps in
  -- `wait` has a condition that does not hold; and the mutex is held by the thread with a guard or in the
  -- test of `wait`, and by no other.
  pub asleep_unmet :
      {val : T} {l : Latch T} (t : ℕ) (condition : T → Bool)
      → Reach val l false
      → l.phase t ≡ Phase.asleep condition
      → (condition l.value ≡ false) × ((u : ℕ) → holds (l.phase u) ≡ held_by l.holder u)
  asleep_unmet {l = l} t condition reached at =
      let is = reach-IsConsistent reached in
      (sym (ap (missed l.value) at) ∙ is.attended refl t, is.exact)
