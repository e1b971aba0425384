-- ===== src/Util/Fiber.antt =====
-- src/util/fiber.rs: the mark of the threads that run a trustee's loop, a flag for each thread of the
-- operating system. Fibers themselves are those of the may crate.
use trust_tee.Prelude.{ℕ, Bool, true, false, ◌==◌, if◌then◌else◌}

-- The thread-local cells `IS_TRUSTEE_THREAD`.
abbrev pub Marks : Type 0
Marks = ℕ → Bool

abbrev pub unmarked : Marks
unmarked t = false

unfoldable pub is_trustee_thread : ℕ → Marks → Bool
is_trustee_thread t marks = marks t

unfoldable pub set_mark : ℕ → Bool → Marks → Marks
set_mark t b marks u = if u == t then b else marks u

-- `TrusteeThreadGuard::enter`
unfoldable pub enter : ℕ → Marks → Marks
unfolding set_mark
enter t marks = set_mark t true marks

-- The drop of the guard.
unfoldable pub leave : ℕ → Marks → Marks
unfolding set_mark
leave t marks = set_mark t false marks

abbrev pub enqueue_then : {R E : Type 0} → (R → E) → R → E
enqueue_then next result = next result
