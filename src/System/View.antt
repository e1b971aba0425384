-- ===== src/System/View.antt =====
-- src/runtime/runtime.rs and src/trust/remote.rs: what one client sees of the steps of the whole system.
use trust_tee.Prelude.{
  ℕ, zero, suc, ◌+◌, ◌%◌, ◌≡◌, ◌≢◌, refl, sym, ap, ◌∙◌, ◌⊎◌, inl, inr, Bool, true, false, List, [],
  ◌∷◌, some, get_elem?, get_elem?-below, set,
}
use trust_tee.Memory.{Repr}
use trust_tee.Closures.{VTables}
use trust_tee.Runtime.Visit.{Port, Visit, skipped, progressed, exited, died, undefined, visit}
use trust_tee.Runtime.Visit.Jobs.{on_port, on_visit, visit_port, visit-on}
use trust_tee.Runtime.Worker.{Seat, Worker, port_at, store, after_visit}
use trust_tee.Channel
use trust_tee.Channel.{Link, Event, serve, fiber, gone, others, run_event}
use trust_tee.System.{System, seats, own, of_turn, link_of, run_events}
use trust_tee.System.Own.{own-Keeps, get_elem?-append, set-append}
use trust_tee.System.Invariant.{IsSystem}
use trust_tee.System.Invariant.Turns.{IsVisited, visit-IsVisited}

pub get_elem?-set_same :
    {A : Type 0} (xs : List A) (i : ℕ) (v x : A)
    → get_elem? xs i ≡ some x
    → get_elem? (set xs i v) i ≡ some v
get_elem?-set_same [] i v x h = cc
get_elem?-set_same (y ∷ ys) zero v x h = refl
get_elem?-set_same (y ∷ ys) (suc i) v x h = get_elem?-set_same ys i v x h

pub get_elem?-set_other :
    {A : Type 0} (xs : List A) (i j : ℕ) (v : A) → i ≢ j → get_elem? (set xs i v) j ≡ get_elem? xs j
get_elem?-set_other [] i j v ne = refl
get_elem?-set_other (y ∷ ys) zero zero v ne = absurd (ne refl)
get_elem?-set_other (y ∷ ys) zero (suc j) v ne = refl
get_elem?-set_other (y ∷ ys) (suc i) zero v ne = refl
get_elem?-set_other (y ∷ ys) (suc i) (suc j) v ne =
    get_elem?-set_other ys i j v (λ e. ne (ap suc e))

module _ {T : Type 0} (vtables : VTables T) (repr : Repr T) where
  -- A turn of the running worker visits the client `i`.
  pub record IsVisit (i : ℕ) (s s' : System T) : Type 0 where
    pub n : ℕ
    pub flag : Bool
    pub visited_seat : Seat
    pub found : get_elem? s.worker.clients i ≡ some visited_seat
    pub running : s.running ≡ true
    pub after :
        s'
        ≡ of_turn
            (after_visit s.worker n i flag (visit vtables repr (port_at s.worker visited_seat)))

  -- No visit of the client is among the events.
  abbrev pub NoServe : List (Event T) → Type 0
  NoServe [] = Unit {0}
  NoServe (Event.idle ∷ es) = NoServe es
  NoServe (serve ∷ es) = ⊥
  NoServe (fiber ∷ es) = NoServe es
  NoServe (gone ∷ es) = NoServe es
  NoServe (others g ∷ es) = NoServe es

  -- The client `i`, which is `a` in `s`, sees the step to `s'` as a list of events: a visit, or none.
  pub record Seen (i : ℕ) (s s' : System T) (a : Seat) : Type 0 where
    pub events : List (Event T)
    pub seat : Seat
    pub at : get_elem? (seats s'.worker) i ≡ some seat
    pub same_chan : seat.client.chan ≡ a.client.chan
    pub ran : link_of s' seat ≡ run_events vtables repr events (link_of s a)
    pub kind : ((events ≡ serve ∷ []) × IsVisit i s s') ⊎ NoServe events

  abbrev visit_runs : Visit T → Bool
  visit_runs (skipped p) = true
  visit_runs (progressed p) = true
  visit_runs (exited p) = false
  visit_runs (died p) = false
  visit_runs (undefined p) = false

  -- A turn at another client.
  abbrev pub turn_events : T → Bool → List (Event T)
  turn_events t true = others (λ _. t) ∷ []
  turn_events t false = others (λ _. t) ∷ gone ∷ []

  unserved : (t : T) (running : Bool) → NoServe (turn_events t running)
  unserved t true = tt
  unserved t false = tt

  module _ (w : Worker T) (idx : ℕ) (b : Seat) (found : get_elem? w.clients idx ≡ some b)
      (h : IsSystem (seats w) w.jobs) where
    abbrev pub start : System T
    start = record { worker = w; running = true }

    -- What the visit leaves of the worker.
    abbrev left : Port T → ℕ → Bool → System T
    left p start_idx running = record {
      worker = record (store w idx p) { start_idx = start_idx };
      running = running;
    }

    served :
        (v : Visit T)
        → visit vtables repr (port_at w b) ≡ v
        → run_event vtables repr serve (link_of start b)
          ≡ Channel.after_visit (on_visit (own b.client.chan) v)
    unfolding run_event
    served v e = ap Channel.after_visit (
        visit-on vtables repr (own b.client.chan) (port_at w b) (own-Keeps b.client.chan)
        ∙ ap (on_visit (own b.client.chan)) e)

    visited :
        (p : Port T)
        → visit_port (visit vtables repr (port_at w b)) ≡ p
        → IsVisited vtables repr w b p
    visited p came =
        visit-IsVisited vtables repr w b p came
          (h.settled idx b (get_elem?-append w.clients w.reg idx b found))

    -- The client of the visit.
    self-Seen :
        (p : Port T) (start_idx : ℕ) (running : Bool)
        → visit_port (visit vtables repr (port_at w b)) ≡ p
        → run_event vtables repr serve (link_of start b)
          ≡ record { port = on_port (own b.client.chan) p; running = running }
        → IsVisit idx start (left p start_idx running)
        → Seen idx start (left p start_idx running) b
    self-Seen p start_idx running came ran is = record {
      events = serve ∷ [];
      seat = record { client = p.client; chan = p.chan };
      at =
          get_elem?-append (set w.clients idx (record { client = p.client; chan = p.chan })) w.reg
            idx (record { client = p.client; chan = p.chan })
            (get_elem?-set_same w.clients idx (record { client = p.client; chan = p.chan }) b
              found);
      same_chan = (visited p came).same_chan;
      ran =
          ap (λ c. record { port = on_port (own c) p; running = running })
            (visited p came).same_chan
          ∙ sym ran;
      kind = inl (refl, is);
    }

    is_visit :
        (n : ℕ) (flag : Bool) (v : Visit T)
        → visit vtables repr (port_at w b) ≡ v
        → IsVisit idx start (of_turn (after_visit w n idx flag v))
    is_visit n flag v e = record {
      n = n;
      flag = flag;
      visited_seat = b;
      found = found;
      running = refl;
      after = ap (λ x. of_turn (after_visit w n idx flag x)) (sym e);
    }

    pub visit_self :
        (n : ℕ) (flag : Bool) (v : Visit T)
        → visit vtables repr (port_at w b) ≡ v
        → Seen idx start (of_turn (after_visit w n idx flag v)) b
    unfolding after_visit Channel.after_visit
    visit_self n flag (skipped p) e =
        self-Seen p w.start_idx true (ap visit_port e) (served (skipped p) e)
          (is_visit n flag (skipped p) e)
    visit_self n flag (progressed p) e =
        self-Seen p ((idx + 1) % n) true (ap visit_port e) (served (progressed p) e)
          (is_visit n flag (progressed p) e)
    visit_self n flag (exited p) e =
        self-Seen p w.start_idx false (ap visit_port e) (served (exited p) e)
          (is_visit n flag (exited p) e)
    visit_self n flag (died p) e =
        self-Seen p w.start_idx false (ap visit_port e) (served (died p) e)
          (is_visit n flag (died p) e)
    visit_self n flag (undefined p) e =
        self-Seen p w.start_idx false (ap visit_port e) (served (undefined p) e)
          (is_visit n flag (undefined p) e)

    -- Another client.
    module _ (i : ℕ) (a : Seat) (at : get_elem? (seats w) i ≡ some a) (ne : idx ≢ i) where
      left_ran :
          (p : Port T) (running : Bool)
          → own a.client.chan p.jobs ≡ own a.client.chan w.jobs
          → record {
            port = record {
              client = a.client;
              chan = a.chan;
              prop = p.prop;
              jobs = own a.client.chan p.jobs;
            };
            running = running;
          }
            ≡ run_events vtables repr (turn_events p.prop running) (link_of start a)
      unfolding run_event
      left_ran p true e = λ x. record {
        port = record { client = a.client; chan = a.chan; prop = p.prop; jobs = e x };
        running = true;
      }
      left_ran p false e = λ x. record {
        port = record { client = a.client; chan = a.chan; prop = p.prop; jobs = e x };
        running = false;
      }

      other-Seen :
          (p : Port T) (start_idx : ℕ) (running : Bool)
          → visit_port (visit vtables repr (port_at w b)) ≡ p
          → Seen i start (left p start_idx running) a
      other-Seen p start_idx running came = record {
        events = turn_events p.prop running;
        seat = a;
        at =
            ap (λ l. get_elem? l i)
              (sym (
                set-append w.clients w.reg idx (record { client = p.client; chan = p.chan })
                  (get_elem?-below w.clients idx b found)))
            ∙ get_elem?-set_other (seats w) idx i (record { client = p.client; chan = p.chan }) ne
            ∙ at;
        same_chan = refl;
        ran = left_ran p running (
            (visited p came).others a.client.chan
              (λ e. ne (h.distinct idx i b a (get_elem?-append w.clients w.reg idx b found) at e)));
        kind = inr (unserved p.prop running);
      }

      pub visit_other :
          (n : ℕ) (flag : Bool) (v : Visit T)
          → visit vtables repr (port_at w b) ≡ v
          → Seen i start (of_turn (after_visit w n idx flag v)) a
      unfolding after_visit
      visit_other n flag (skipped p) e = other-Seen p w.start_idx true (ap visit_port e)
      visit_other n flag (progressed p) e = other-Seen p ((idx + 1) % n) true (ap visit_port e)
      visit_other n flag (exited p) e = other-Seen p w.start_idx false (ap visit_port e)
      visit_other n flag (died p) e = other-Seen p w.start_idx false (ap visit_port e)
      visit_other n flag (undefined p) e = other-Seen p w.start_idx false (ap visit_port e)
