-- ===== src/Util/CondLatch.antt =====
-- src/util/latch.rs: a value under a mutex, with a condition variable. The mutex of the standard library is
-- held by at most one thread, and poisoned once a thread unwinds while it holds it; `Condvar::wait`
-- releases it and sleeps in one step, and may wake without a notification.
pub mod Waiters
use trust_tee.Prelude.{ℕ, Bool, true, false, Option, none, some, ◌==◌, ◌≡◌, if◌then◌else◌}

-- What a thread does with the latch: it has a guard of `lock`; it is in `wait` for a condition, about to test
-- it under the mutex, asleep, or awake again; or it panicked.
pub data Phase (T : Type 0) : Type 0 where
  idle : Phase T
  guarding : Phase T
  testing : (T → Bool) → Phase T
  asleep : (T → Bool) → Phase T
  woken : (T → Bool) → Phase T
  panicked : Phase T

-- The mutex with its value, and the threads; a clone of a latch shares them.
pub record Latch (T : Type 0) : Type 0 where
  pub value : T
  pub holder : Option ℕ
  pub poisoned : Bool
  pub phase : ℕ → Phase T

abbrev pub set_phase : {T : Type 0} → ℕ → Phase T → (ℕ → Phase T) → ℕ → Phase T
set_phase t p phase u = if t == u then p else phase u

-- With a guard, or in the loop of `wait` under the mutex.
abbrev pub holds : {T : Type 0} → Phase T → Bool
holds Phase.idle = false
holds Phase.guarding = true
holds (Phase.testing condition) = true
holds (Phase.asleep condition) = false
holds (Phase.woken condition) = false
holds Phase.panicked = false

module _ {T : Type 0} where
  unfoldable pub new : T → Latch T
  new val = record { value = val; holder = none; poisoned = false; phase = λ t. Phase.idle }

  -- `self.lock.lock().unwrap()`, after which the thread is in the given phase; `none` while it blocks.
  unfoldable pub acquire : ℕ → Phase T → Latch T → Option (Latch T)
  acquire t next l = elim l.holder [
    | some u ↦ none
    | none ↦ some (
        if l.poisoned
        then record l { phase = set_phase t Phase.panicked l.phase }
        else record l { holder = some t; phase = set_phase t next l.phase })
  ]

  unfoldable pub release : ℕ → Phase T → Latch T → Latch T
  release t next l = record l { holder = none; phase = set_phase t next l.phase }

  abbrev pub poison : Latch T → Latch T
  poison l = record l { poisoned = true }

  -- One turn of the loop of `wait`, with the mutex.
  unfoldable pub test_condition : ℕ → (T → Bool) → Latch T → Latch T
  unfolding release
  test_condition t condition l =
      if condition l.value then release t Phase.idle l else release t (Phase.asleep condition) l

  abbrev pub notified : Phase T → Phase T
  notified (Phase.asleep condition) = Phase.woken condition
  notified Phase.idle = Phase.idle
  notified Phase.guarding = Phase.guarding
  notified (Phase.testing condition) = Phase.testing condition
  notified (Phase.woken condition) = Phase.woken condition
  notified Phase.panicked = Phase.panicked

  unfoldable pub notify_all : Latch T → Latch T
  notify_all l = record l { phase = λ u. notified (l.phase u) }

-- One step, and whether the value was written since the last notification.
pub data Step {T : Type 0} : Latch T → Bool → Latch T → Bool → Type 0 where
  locks :
      (l l' : Latch T) (changed : Bool) (t : ℕ)
      → l.phase t ≡ Phase.idle
      → acquire t Phase.guarding l ≡ some l'
      → Step l changed l' changed
  writes :
      (l : Latch T) (changed : Bool) (t : ℕ) (v : T)
      → l.phase t ≡ Phase.guarding
      → Step l changed (record l { value = v }) true
  drops_guard :
      (l : Latch T) (changed : Bool) (t : ℕ)
      → l.phase t ≡ Phase.guarding
      → Step l changed (release t Phase.idle l) changed
  unwinds :
      (l : Latch T) (changed : Bool) (t : ℕ)
      → holds (l.phase t) ≡ true
      → Step l changed (poison (release t Phase.panicked l)) changed
  waits :
      (l l' : Latch T) (changed : Bool) (t : ℕ) (condition : T → Bool)
      → l.phase t ≡ Phase.idle
      → acquire t (Phase.testing condition) l ≡ some l'
      → Step l changed l' changed
  tests :
      (l : Latch T) (changed : Bool) (t : ℕ) (condition : T → Bool)
      → l.phase t ≡ Phase.testing condition
      → Step l changed (test_condition t condition l) changed
  wakes :
      (l : Latch T) (changed : Bool) (t : ℕ) (condition : T → Bool)
      → l.phase t ≡ Phase.asleep condition
      → Step l changed (record l { phase = set_phase t (Phase.woken condition) l.phase }) changed
  relocks :
      (l l' : Latch T) (changed : Bool) (t : ℕ) (condition : T → Bool)
      → l.phase t ≡ Phase.woken condition
      → acquire t (Phase.testing condition) l ≡ some l'
      → Step l changed l' changed
  notifies : (l : Latch T) (changed : Bool) → Step l changed (notify_all l) false

-- The states of a new latch after any steps of its threads.
pub data Reach {T : Type 0} (val : T) : Latch T → Bool → Type 0 where
  start : Reach val (new val) false
  step :
      {l l' : Latch T} {changed changed' : Bool}
      → Reach val l changed
      → Step l changed l' changed'
      → Reach val l' changed'
