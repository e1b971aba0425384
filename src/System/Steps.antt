-- ===== src/System/Steps.antt =====
-- src/runtime/runtime.rs and src/trust/remote.rs: the steps of the system, as one client sees them.
use mathlib.Core.Option
use mathlib.Core.List.{append_assoc}
use native.Mathlib.Decide.{ℕ_discrete}
use trust_tee.Prelude.{ℕ, ◌≡◌, ◌≢◌, refl, sym, ap, ◌∙◌, inr, subst, List, [], ◌∷◌, some, get_elem?}
use trust_tee.Memory.{Repr}
use trust_tee.Closures.{VTables}
use trust_tee.Runtime.Worker.{Seat, turn}
use trust_tee.Runtime.Worker.Registers.{poll_keeps, poll_same}
use trust_tee.Runtime.Handles.{client_seat}
use trust_tee.Channel.{Event, others, run_event}
use trust_tee.System.{
  System, seats, of_turn, link_of, Step, turned, polled, idled, fiber_ran, used, registered, Post,
  posted, Reach, step, Waits, here, other, run_events,
}
use trust_tee.System.Own.{get_elem?-append, seats-set_seat}
use trust_tee.System.Invariant.Turns.{IsSystemAt}
use trust_tee.System.Invariant.Reached.{Step-IsSystem, Post-IsSystem, Reach-IsSystem}
use trust_tee.System.View.{Seen, get_elem?-set_other}
use trust_tee.System.Watched.{Watched, Watched-trans}
use trust_tee.System.Seen.{turn-Seen, after_fiber, fiber_self, fiber_other, unseen}

module _ {T : Type 0} (vtables : VTables T) (repr : Repr T) where
  -- Each step is a list of events for each client.
  pub Step-Seen :
      {s s' : System T} (i : ℕ) (a : Seat)
      → Step vtables repr s s'
      → IsSystemAt vtables repr s
      → get_elem? (seats s.worker) i ≡ some a
      → Seen vtables repr i s s' a
  unfolding run_event
  Step-Seen {s} i a (turned n offs flag running) h at =
      subst
        (λ r.
          Seen vtables repr i (record { worker = s.worker; running = r })
            (of_turn (turn vtables repr n offs flag s.worker)) a)
        (sym running) (turn-Seen vtables repr s.worker n offs i flag a h at)
  Step-Seen {s} i a (polled running) h at =
      unseen vtables repr i s _ a (ap (λ l. get_elem? l i) (poll_keeps s.worker).0 ∙ at)
        (poll_same s.worker).0 (poll_same s.worker).1 refl
  Step-Seen {s} i a (idled k) h at = unseen vtables repr i s _ a at refl refl refl
  Step-Seen {s} i a (fiber_ran k m hdr req_ready b found place) h at = elim (ℕ_discrete m i) [
    | no ne ↦ fiber_other vtables repr s h k m hdr req_ready b found place i a at ne
    | yes same_place ↦
        subst
          (λ x.
            Seen vtables repr x s (after_fiber vtables repr s h k m hdr req_ready b found place) a)
          same_place
          (subst
            (Seen vtables repr m s (after_fiber vtables repr s h k m hdr req_ready b found place))
            (Option.some_inj.0 (sym place ∙ ap (get_elem? (seats s.worker)) same_place ∙ at))
            (fiber_self vtables repr s h k m hdr req_ready b found place))
  ]
  Step-Seen {s} i a (used g) h at = record {
    events = others g ∷ [];
    seat = a;
    at = at;
    same_chan = refl;
    ran = refl;
    kind = inr tt;
  }
  Step-Seen {s} i a (registered c fresh) h at =
      unseen vtables repr i s _ a
        (ap (λ l. get_elem? l i)
            (sym (append_assoc s.worker.clients s.worker.reg (client_seat c ∷ [])))
          ∙ get_elem?-append (seats s.worker) (client_seat c ∷ []) i a at)
        refl refl refl

  -- So is a request that another client posts: it sees nothing of it.
  pub Post-Seen :
      (i k : ℕ) {s s' : System T} (a : Seat)
      → Post vtables repr k s s'
      → k ≢ i
      → get_elem? (seats s.worker) i ≡ some a
      → Seen vtables repr i s s' a
  Post-Seen i k {s} a (posted b c place answered is_post) ne at =
      unseen vtables repr i s _ a
        (ap (λ l. get_elem? l i) (seats-set_seat s.worker k (record b { chan = c }))
          ∙ get_elem?-set_other (seats s.worker) k i (record b { chan = c }) ne
          ∙ at)
        refl refl refl

  Waits-IsSystem :
      {i : ℕ} {s s' : System T}
      → Waits vtables repr i s s'
      → IsSystemAt vtables repr s
      → IsSystemAt vtables repr s'
  Waits-IsSystem here h = h
  Waits-IsSystem (step ws m) h = Step-IsSystem vtables repr m (Waits-IsSystem ws h)
  Waits-IsSystem (other k ws ne m) h = Post-IsSystem vtables repr m (Waits-IsSystem ws h)

  pub Waits-Watched :
      {i : ℕ} {s s' : System T} (a : Seat)
      → Waits vtables repr i s s'
      → IsSystemAt vtables repr s
      → get_elem? (seats s.worker) i ≡ some a
      → Watched vtables repr i s s' a
  Waits-Watched {i} {s} a here h at = record {
    events = [];
    seat = a;
    at = at;
    same_chan = refl;
    ran = refl;
    visits = inr tt;
  }
  Waits-Watched {i} {s} {s'} a (step {t} ws m) h at =
      let first = Waits-Watched a ws h at in
      Watched-trans vtables repr i s t s' a ws (λ u w. step w m) first
        (Step-Seen i first.seat m (Waits-IsSystem ws h) first.at)
  Waits-Watched {i} {s} {s'} a (other {t} k ws ne m) h at =
      let first = Waits-Watched a ws h at in
      Watched-trans vtables repr i s t s' a ws (λ u w. other k w ne m) first
        (Post-Seen i k first.seat m ne first.at)

  -- Whatever turns the worker takes, in whatever order fibers run, and whatever other clients register and post
  -- meanwhile: while a client of a trustee posts nothing, what it sees of the system (its channel, the
  -- property, the jobs on its channel, and whether the worker runs) changes as by a list of events of
  -- the waiting loop, and its channel stays the same.
  pub waiting_sees_events :
      {value : T} {base i : ℕ} {s s' : System T} (a : Seat)
      → Reach vtables repr value base s
      → Waits vtables repr i s s'
      → get_elem? (seats s.worker) i ≡ some a
      → (es : List (Event T)) × (a' : Seat) × (get_elem? (seats s'.worker) i ≡ some a')
        × (a'.client.chan ≡ a.client.chan)
        × (link_of s' a' ≡ run_events vtables repr es (link_of s a))
  waiting_sees_events a r ws at =
      let seen = Waits-Watched a ws (Reach-IsSystem vtables repr r) at in
      (seen.events, seen.seat, seen.at, seen.same_chan, seen.ran)
