-- ===== src/Latch.antt =====
-- src/single_thread/latch.rs and src/single_thread/launch.rs: the latch of one thread, and the critical
-- sections of a local trust over a latch. An operation takes the latch and returns it; a guard is
-- the latch that it has locked.
pub mod Exclusion
use trust_tee.Prelude.{[], ◌∷◌, ◌++◌, Text, Bool, true, false, Option, none, some, if◌then◌else◌}
use trust_tee.Outcome.{Panic, Outcome, ok, panic}
use trust_tee.Util.Fiber.{enqueue_then}
use trust_tee.Closures.{Ran, returned, panicked}

pub record Latch (U : Type 0) : Type 0 where
  pub locked : Bool
  pub inner : U

abbrev pub map_ok : {R E : Type 0} → (R → E) → Outcome R → Outcome E
map_ok next (ok r) = ok (next r)
map_ok next (panic p) = panic p

module _ {U : Type 0} where
  unfoldable pub new : U → Latch U
  new value = record { locked = false; inner = value }

  -- The guard, and the latch.
  unfoldable pub try_lock : Latch U → Option (Latch U)
  try_lock l = if l.locked then none else some (record l { locked = true })

  unfoldable pub lock : Latch U → Outcome (Latch U)
  unfolding try_lock
  lock l = elim (try_lock l) [ none ↦ panic Panic.already_locked | some g ↦ ok g ]

  pub is_locked : Latch U → Bool
  is_locked l = l.locked

  pub into_inner : Latch U → U
  into_inner l = l.inner

  -- `LatchGuard::drop`
  unfoldable pub drop_guard : Latch U → Latch U
  drop_guard l = record l { locked = false }

  -- What `&mut self` and a guard point to; to write through them is to give the latch a new value.
  abbrev pub get_mut : Latch U → U × (U → Latch U)
  get_mut l = (l.inner, λ u. record l { inner = u })

  abbrev pub deref : Latch U → U
  deref g = g.inner

  abbrev pub deref_mut : Latch U → U × (U → Latch U)
  deref_mut g = (g.inner, λ u. record g { inner = u })

  -- A closure on what a guard points to; the guard drops when the closure returns or unwinds.
  unfoldable pub guarded : {R : Type 0} → Latch U → Ran U R → Outcome R × Latch U
  unfolding drop_guard
  guarded g (returned u r) = (ok r, drop_guard ((deref_mut g).1 u))
  guarded g (panicked u) = (panic Panic.user_panic, drop_guard ((deref_mut g).1 u))

  abbrev pub with_guard :
      {R : Type 0}
      → Outcome (Latch U)
      → Latch U
      → (Latch U → Outcome R × Latch U)
      → Outcome R × Latch U
  with_guard (ok g) l section = section g
  with_guard (panic p) l section = (panic p, l)

  unfoldable pub lock_apply : {R : Type 0} → (U → Ran U R) → Latch U → Outcome R × Latch U
  unfolding lock guarded
  lock_apply f l = with_guard (lock l) l (λ g. guarded g (f (deref_mut g).0))

  unfoldable pub lock_apply_then :
      {R E : Type 0} → (U → Ran U R) → (R → E) → Latch U → Outcome E × Latch U
  unfolding lock_apply
  lock_apply_then f next l = (map_ok (enqueue_then next) (lock_apply f l).0, (lock_apply f l).1)

  unfoldable pub lock_apply_with :
      {V R : Type 0} → (U → V → Ran U R) → V → Latch U → Outcome R × Latch U
  unfolding lock guarded
  lock_apply_with f w l = with_guard (lock l) l (λ g. guarded g (f (deref_mut g).0 w))

  unfoldable pub lock_with : {R : Type 0} → (U → Ran U R) → Latch U → Outcome R × Latch U
  unfolding lock guarded
  lock_with f l = with_guard (lock l) l (λ g. guarded g (f (deref g)))

abbrev bool_text : Bool → Text
bool_text true = 116 ∷ 114 ∷ 117 ∷ 101 ∷ []
bool_text false = 102 ∷ 97 ∷ 108 ∷ 115 ∷ 101 ∷ []

-- `Debug` and `Display` are the same: "Latch { locked: ", the flag, ", inner: ", and what a pointer to the
-- inner value is shown as, " }".
unfoldable pub latch_text : {U : Type 0} → Text → Latch U → Text
latch_text shown l =
    (76 ∷ 97 ∷ 116 ∷ 99 ∷ 104 ∷ 32 ∷ 123 ∷ 32 ∷ 108 ∷ 111 ∷ 99 ∷ 107 ∷ 101 ∷ 100 ∷ 58 ∷ 32 ∷ [])
    ++ (bool_text l.locked
        ++ ((44 ∷ 32 ∷ 105 ∷ 110 ∷ 110 ∷ 101 ∷ 114 ∷ 58 ∷ 32 ∷ []) ++ (shown ++ (32 ∷ 125 ∷ []))))
