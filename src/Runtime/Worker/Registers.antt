-- ===== src/Runtime/Worker/Registers.antt =====
-- src/runtime/runtime.rs: what becomes of registrations.
use mathlib.Core.List.{append_assoc, append-nil}
use trust_tee.Prelude.{
  ℕ, zero, suc, ◌+◌, ◌%◌, ◌≤◌, ◌≡◌, refl, sym, ap, ◌∙◌, inl, inr, Bool, Bool-cases, true, false,
  ◌||◌, ◌==◌, List, [], ◌∷◌, ◌++◌, length, length-append, if◌then◌else◌, arith,
}
use trust_tee.Slots.{usize_mod}
use trust_tee.Runtime.Worker.{is_empty, Seat, Worker, drain, drain_limit, poll_registrations}

drain-keeps :
    (k : ℕ) (clients reg : List Seat)
    → (drain k clients reg).0 ++ (drain k clients reg).1 ≡ clients ++ reg
unfolding drain
drain-keeps zero clients reg = refl
drain-keeps (suc k) clients [] = refl
drain-keeps (suc k) clients (cp ∷ reg) =
    drain-keeps k (clients ++ (cp ∷ [])) reg ∙ append_assoc clients (cp ∷ []) reg

drain-length :
    (k : ℕ) (clients reg : List Seat) → length (drain k clients reg).0 ≤ length clients + k
unfolding drain
drain-length zero clients reg = omega arith
drain-length (suc k) clients [] = omega arith
drain-length (suc k) clients (cp ∷ reg) =
    omega (arith, drain-length k (clients ++ (cp ∷ [])) reg, length-append clients (cp ∷ []))

pub drain-all :
    (k : ℕ) (clients reg : List Seat) → length reg ≤ k → drain k clients reg ≡ (clients ++ reg, [])
unfolding drain
drain-all zero clients [] few = ap (λ c. (c, [])) (sym (append-nil clients))
drain-all zero clients (cp ∷ reg) few = absurd (omega arith)
drain-all (suc k) clients [] few = ap (λ c. (c, [])) (sym (append-nil clients))
drain-all (suc k) clients (cp ∷ reg) few =
    drain-all k (clients ++ (cp ∷ [])) reg (omega arith)
    ∙ ap (λ c. (c, [])) (append_assoc clients (cp ∷ []) reg)

module _ {T : Type 0} (w : Worker T) where
  -- It changes neither the property nor the jobs.
  pub poll_same : ((poll_registrations w).prop ≡ w.prop) × ((poll_registrations w).jobs ≡ w.jobs)
  unfolding poll_registrations
  poll_same =
      elim (Bool-cases (is_empty w.clients || ((w.loop_counter + 1) % usize_mod) % 16 == 0)) [
        | inl polls ↦ (rw polls, rw polls)
        | inr waits ↦ (rw waits, rw waits)
      ]

  -- Polling loses no registration and keeps their order: the clients followed by the queue stay the same,
  -- and at most 256 clients are added.
  pub poll_keeps :
      ((poll_registrations w).clients ++ (poll_registrations w).reg ≡ w.clients ++ w.reg)
      × (length (poll_registrations w).clients ≤ length w.clients + 256)
  unfolding poll_registrations
  poll_keeps = go (is_empty w.clients || ((w.loop_counter + 1) % usize_mod) % 16 == 0)
    where
      counted : Worker T
      counted = record w { loop_counter = (w.loop_counter + 1) % usize_mod }

      chosen : Bool → Worker T
      chosen b =
          if b
          then record counted {
            clients = (drain drain_limit w.clients w.reg).0;
            reg = (drain drain_limit w.clients w.reg).1;
          }
          else counted

      go :
          (b : Bool)
          → ((chosen b).clients ++ (chosen b).reg ≡ w.clients ++ w.reg)
            × (length (chosen b).clients ≤ length w.clients + 256)
      go true = (drain-keeps drain_limit w.clients w.reg, drain-length drain_limit w.clients w.reg)
      go false = (refl, omega arith)

  -- A worker without clients, and any worker in each sixteenth round, takes up all registrations of
  -- its queue, if there are at most 256.
  pub poll_takes_all :
      is_empty w.clients || ((w.loop_counter + 1) % usize_mod) % 16 == 0 ≡ true
      → length w.reg ≤ 256
      → ((poll_registrations w).clients ≡ w.clients ++ w.reg) × ((poll_registrations w).reg ≡ [])
  unfolding poll_registrations
  poll_takes_all polls few = (
    ap (λ b. (chosen b).clients) polls ∙ ap (λ d. d.0) all,
    ap (λ b. (chosen b).reg) polls ∙ ap (λ d. d.1) all,
  )
    where
      all : drain drain_limit w.clients w.reg ≡ (w.clients ++ w.reg, [])
      all = drain-all drain_limit w.clients w.reg few

      counted : Worker T
      counted = record w { loop_counter = (w.loop_counter + 1) % usize_mod }

      chosen : Bool → Worker T
      chosen b =
          if b
          then record counted {
            clients = (drain drain_limit w.clients w.reg).0;
            reg = (drain drain_limit w.clients w.reg).1;
          }
          else counted
