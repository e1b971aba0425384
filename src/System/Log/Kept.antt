-- ===== src/System/Log/Kept.antt =====
-- src/runtime/runtime.rs and src/trust/remote.rs together: every step keeps the log of the calls that have run.
use mathlib.Core.List.{append_assoc}
use trust_tee.Prelude.{
  ℕ, zero, suc, ◌≡◌, refl, sym, ap, ◌∙◌, subst, inl, inr, Bool, true, false, not, same, not-same,
  List, [], ◌∷◌, ◌++◌, Option, none, some, length, get_elem?, get_elem?-snoc, get_elem?-set_if, set,
  ◌==◌, if◌then◌else◌, arith,
}
use trust_tee.Memory.{Repr}
use trust_tee.Slots.{ChannelPair, ready, new_channel}
use trust_tee.Closures.{VTables}
use trust_tee.Runtime.Visit.{visit}
use trust_tee.Runtime.Visit.Idle.{visit-idle}
use trust_tee.Runtime.Worker.{Seat, Worker, port_at, slot_index, after_visit, turn_at, turn}
use trust_tee.Runtime.Worker.Registers.{poll_keeps, poll_same}
use trust_tee.Runtime.Handles.{client_seat, spawn, register}
use trust_tee.System.{
  System, seats, set_seat, of_turn, IsPost, Step, turned, polled, idled, fiber_ran, used,
  registered,
}
use trust_tee.System.Own.{get_elem?-append, seats-set_seat}
use trust_tee.System.Log.{
  Log, calls_of, Holds, IsQuiet, Calls, spawned, stepped, called, IsAnswered, SeatAt, Logged,
}
use trust_tee.System.Log.Places.{calls_of_self, calls_of-other, get_elem?-served, SeatAt-set}

get_elem?-end : {A : Type 0} (xs : List A) → get_elem? xs (length xs) ≡ none
get_elem?-end [] = refl
get_elem?-end (x ∷ xs) = get_elem?-end xs

module _ {T : Type 0} (vtables : VTables T) (repr : Repr T) (value : T) (posts log : Log T) where
  -- The log after a step.
  abbrev Next : System T → Type 0
  Next s = (log' : Log T) × Logged vtables repr value s posts log'

  module _ (w : Worker T) (n idx : ℕ) (b : Bool) (a : Seat)
      (found : get_elem? w.clients idx ≡ some a)
      (l : Logged vtables repr value (record { worker = w; running = true }) posts log) where
    visited :
        SeatAt vtables repr posts log idx (some a)
        → Next (of_turn (after_visit w n idx b (visit vtables repr (port_at w a))))
    unfolding after_visit
    visited (free, inl (answered, same_calls)) =
        subst (λ v. Next (of_turn (after_visit w n idx b v)))
          (sym (visit-idle vtables repr (port_at w a) free answered))
          (
            log,
            record {
              no_jobs = l.no_jobs;
              ran = l.ran;
              at =
                  SeatAt-set vtables repr posts log posts log (seats w)
                    (set w.clients idx a ++ w.reg) idx a (get_elem?-served w idx a a found)
                    (free, inl (answered, same_calls)) (λ j ne. refl) (λ j ne. refl) l.at;
            },
          )
    visited (free, inr (g, asked, holds, one_more)) =
        let (c', runs, answered) = holds.runs a.client w.prop w.jobs free in
        let served : Seat = record {
          client = record a.client { pending_launch = false };
          chan = c';
        } in
        subst (λ v. Next (of_turn (after_visit w n idx b v))) (sym runs)
          (
            (idx, g) ∷ log,
            record {
              no_jobs = l.no_jobs;
              ran = ap g l.ran;
              at =
                  SeatAt-set vtables repr posts log posts ((idx, g) ∷ log) (seats w)
                    (set w.clients idx served ++ w.reg) idx served
                    (get_elem?-served w idx a served found)
                    (refl, inl (answered, one_more ∙ sym (calls_of_self idx g log))) (λ j ne. refl)
                    (λ j ne. calls_of-other idx j g log ne) l.at;
            },
          )

  turn-Logged :
      (w : Worker T) (n offs : ℕ) (b : Bool)
      → Logged vtables repr value (record { worker = w; running = true }) posts log
      → Next (of_turn (turn vtables repr n offs b w))
  unfolding turn turn_at
  turn-Logged w n offs b l = go (get_elem? w.clients idx) refl
    where
      idx : ℕ
      idx = slot_index w.start_idx offs n

      go :
          (o : Option Seat)
          → get_elem? w.clients idx ≡ o
          → Next (of_turn (turn_at vtables repr w n idx b o))
      go none found = (log, record { no_jobs = l.no_jobs; ran = l.ran; at = l.at })
      go (some a) found = visited w n idx b a found l (
          subst (SeatAt vtables repr posts log idx) (get_elem?-append w.clients w.reg idx a found)
            (l.at idx))

  registered-Logged :
      (s : System T) (c : ChannelPair)
      → IsAnswered vtables repr c
      → Logged vtables repr value s posts log
      → Logged vtables repr value
          (record s { worker = record s.worker { reg = s.worker.reg ++ (client_seat c ∷ []) } })
          posts
          log
  unfolding client_seat
  registered-Logged s c answered l = record {
    no_jobs = l.no_jobs;
    ran = l.ran;
    at =
        SeatAt-set vtables repr posts log posts log (seats s.worker)
          (s.worker.clients ++ (s.worker.reg ++ (client_seat c ∷ []))) (length (seats s.worker))
          (client_seat c)
          (λ j.
            ap (λ x. get_elem? x j)
              (sym (append_assoc s.worker.clients s.worker.reg (client_seat c ∷ [])))
            ∙ get_elem?-snoc (seats s.worker) (client_seat c) j
            ∙ turned_round j (length (seats s.worker)))
          (refl, inl (answered, new_one.0 ∙ sym new_one.1)) (λ j ne. refl) (λ j ne. refl) l.at;
  }
    where
      new_one : SeatAt vtables repr posts log (length (seats s.worker)) none
      new_one =
          subst (SeatAt vtables repr posts log (length (seats s.worker)))
            (get_elem?-end (seats s.worker)) (l.at (length (seats s.worker)))

      turned_round :
          (j k : ℕ)
          → (if j == k then some (client_seat c) else get_elem? (seats s.worker) j)
            ≡ (if k == j then some (client_seat c) else get_elem? (seats s.worker) j)
      turned_round j k = ground arith

  step-Logged :
      {s s' : System T} (m : Step vtables repr s s')
      → IsQuiet vtables repr m
      → Logged vtables repr value s posts log
      → Next s'
  step-Logged {s} (turned n offs b running) quiet l =
      turn-Logged s.worker n offs b (record { no_jobs = l.no_jobs; ran = l.ran; at = l.at })
  step-Logged {s} (polled running) quiet l = (
    log,
    record {
      no_jobs = (poll_same s.worker).1 ∙ l.no_jobs;
      ran = (poll_same s.worker).0 ∙ l.ran;
      at = λ i.
          subst (SeatAt vtables repr posts log i)
            (ap (λ x. get_elem? x i) (sym (poll_keeps s.worker).0)) (l.at i);
    },
  )
  step-Logged (idled k) quiet l = (log, record { no_jobs = l.no_jobs; ran = l.ran; at = l.at })
  step-Logged {s} (fiber_ran k i hdr req_ready a found place) quiet l =
      cc (ap (λ js. get_elem? js k) l.no_jobs, found)
  step-Logged (used g) quiet l = absurd quiet
  step-Logged {s} (registered c fresh) quiet l = (log, registered-Logged s c quiet l)

  -- A client that posts has had all its calls run.
  free_to_post :
      (i : ℕ) (a : Seat)
      → IsAnswered vtables repr a.chan
      → SeatAt vtables repr posts log i (some a)
      → (a.client.pending_launch ≡ false) × (calls_of i posts ≡ calls_of i log)
  free_to_post i a answered (free, inl (_, same_calls)) = (free, same_calls)
  free_to_post i a answered (free, inr (g, asked, _, _)) = cc (asked, answered)

  call-Logged :
      (s : System T) (i : ℕ) (g : T → T) (a : Seat) (c : ChannelPair)
      → get_elem? (seats s.worker) i ≡ some a
      → IsAnswered vtables repr a.chan
      → IsPost a.chan c
      → Holds vtables repr c g
      → Logged vtables repr value s posts log
      → Logged vtables repr value
          (record s { worker = set_seat s.worker i (record a { chan = c }) })
          ((i, g) ∷ posts)
          log
  call-Logged s i g a c place answered is_post holds l =
      let (free, same_calls) =
        free_to_post i a answered (subst (SeatAt vtables repr posts log i) place (l.at i)) in
      record {
        no_jobs = l.no_jobs;
        ran = l.ran;
        at =
            SeatAt-set vtables repr posts log ((i, g) ∷ posts) log (seats s.worker)
              (seats (set_seat s.worker i (record a { chan = c }))) i (record a { chan = c })
              (λ j.
                ap (λ x. get_elem? x j) (seats-set_seat s.worker i (record a { chan = c }))
                ∙ get_elem?-set_if (seats s.worker) i j (record a { chan = c }) a place)
              (
                free,
                inr (g, open_request, holds, calls_of_self i g posts ∙ ap (λ x. g ∷ x) same_calls),
              )
              (λ j ne. calls_of-other i j g posts ne) (λ j ne. refl) l.at;
      }
    where
      open_request : same (ready c.request_flags) (ready c.response_flags) ≡ false
      open_request =
          ap (λ r. same r (ready c.response_flags)) is_post.flipped
          ∙ ap (λ r. same (not (ready a.chan.response_flags)) (ready r)) is_post.same_response
          ∙ not-same (ready a.chan.response_flags)

module _ {T : Type 0} (vtables : VTables T) (repr : Repr T) where
  first_place :
      (value : T) (base : ℕ) (i : ℕ)
      → SeatAt vtables repr [] [] i (get_elem? (seats (spawn value base).0) i)
  unfolding spawn register client_seat new_channel ready
  first_place value base zero = (refl, inl (refl, refl))
  first_place value base (suc i) = (refl, refl)

  pub Calls-Logged :
      {value : T} {base : ℕ} {s : System T} {posts : Log T}
      → Calls vtables repr value base s posts
      → (log : Log T) × Logged vtables repr value s posts log
  unfolding spawn register client_seat new_channel
  Calls-Logged {value} {base} spawned =
      ([], record { no_jobs = refl; ran = refl; at = first_place value base })
  Calls-Logged {value} (stepped {posts = posts} cs m quiet) =
      let (log, l) = Calls-Logged cs in step-Logged vtables repr value posts log m quiet l
  Calls-Logged {value} (called {s} {posts} i g a c cs place answered is_post holds) =
      let (log, l) = Calls-Logged cs in
      (log, call-Logged vtables repr value posts log s i g a c place answered is_post holds l)
