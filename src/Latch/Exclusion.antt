-- ===== src/Latch/Exclusion.antt =====
-- src/single_thread/latch.rs: the guard excludes another one.
use mathlib.Core.Option
use trust_tee.Prelude.{◌≡◌, refl, ap, subst, Bool, true, false, none, some}
use trust_tee.Outcome.{Panic, panic}
use trust_tee.Latch.{Latch, try_lock, lock, drop_guard}

module _ {U : Type 0} where
  -- While a guard exists, no second one is given, by `lock` or by `try_lock`; after it drops the latch can be
  -- locked, over the same value.
  pub lock_excludes :
      (l g : Latch U)
      → try_lock l ≡ some g
      → (try_lock g ≡ none)
        × (lock g ≡ panic Panic.already_locked)
        × (try_lock (drop_guard g) ≡ some g)
        × (drop_guard g ≡ l)
  unfolding try_lock lock drop_guard
  lock_excludes l g h = go l.locked l.inner h
    where
      go :
          (b : Bool) (u : U)
          → try_lock (record { locked = b; inner = u }) ≡ some g
          → (try_lock g ≡ none)
            × (lock g ≡ panic Panic.already_locked)
            × (try_lock (drop_guard g) ≡ some g)
            × (drop_guard g ≡ record { locked = b; inner = u })
      go true u e = cc e
      go false u e =
          subst
            (λ (x : Latch U).
              (try_lock x ≡ none)
              × (lock x ≡ panic Panic.already_locked)
              × (try_lock (drop_guard x) ≡ some x)
              × (drop_guard x ≡ record { locked = false; inner = u }))
            (ap (λ o. Option.get_or o g) e) (refl, refl, refl, refl)
