-- ===== src/System/Invariant/Turns.antt =====
-- src/runtime/runtime.rs: a turn of the worker, and the channels of the clients.
use trust_tee.Prelude.{
  ℕ, ◌≤◌, ◌≡◌, ◌≢◌, refl, sym, ap, ◌∙◌, subst, ◌⊎◌, inl, inr, Bool, false, same, [], ◌∷◌, ◌++◌,
  Option, none, some, get_elem?, get_elem?-below, set,
}
use trust_tee.Memory.{Repr}
use trust_tee.Slots.{ready, count}
use trust_tee.Closures.{VTables}
use trust_tee.Runtime.Records.{execute}
use trust_tee.Runtime.Visit.{Port, Visit, skipped, progressed, exited, died, undefined, visit}
use trust_tee.Runtime.Visit.Serve.{Settled}
use trust_tee.Runtime.Visit.Pending.{visit-in_progress}
use trust_tee.Runtime.Visit.Jobs.{visit_port}
use trust_tee.Runtime.Visit.Single.{InProgress, Visited, visit-Visited}
use trust_tee.Runtime.Worker.{Seat, Worker, port_at, slot_index, after_visit, turn_at, turn}
use trust_tee.System.{System, seats, own, of_turn}
use trust_tee.System.Own.{own-Keeps, own-other, get_elem?-append, set-append}
use trust_tee.System.Invariant.{IsSettled, IsSystem, IsSystem-set}

module _ {T : Type 0} (vtables : VTables T) (repr : Repr T) where
  -- What a visit makes of its client and of the jobs.
  pub record IsVisited (w : Worker T) (a : Seat) (p : Port T) : Type 0 where
    pub settled : IsSettled p.jobs (record { client = p.client; chan = p.chan })
    pub others : (d : ℕ) → a.client.chan ≢ d → own d p.jobs ≡ own d w.jobs
    pub same_chan : p.client.chan ≡ a.client.chan

  module _ (w : Worker T) (a : Seat) (p : Port T)
      (came : visit_port (visit vtables repr (port_at w a)) ≡ p) (s : IsSettled w.jobs a) where
    v : Visited (port_at w a) p
    v = subst (Visited (port_at w a)) came (visit-Visited vtables repr (port_at w a) s.few)

    abbrev IsSettledPort : Port T → Type 0
    IsSettledPort q = IsSettled q.jobs (record { client = q.client; chan = q.chan })

    -- No job was on the channel.
    free-IsSettled : own a.client.chan w.jobs ≡ [] → IsSettledPort p
    free-IsSettled empty = record {
      few = subst (λ word. count word ≤ 1) (sym v.same_request) s.few;
      job = elim v.job [
        | inl same_jobs ↦
            inl (ap (λ c. own c p.jobs) v.same_chan ∙ ap (own a.client.chan) same_jobs ∙ empty)
        | inr (hdr, added, under_way) ↦ inr (
          hdr,
          ap (λ c. own c p.jobs) v.same_chan
              ∙ ap (own a.client.chan) added
              ∙ own-Keeps a.client.chan hdr p.client.launch_req_ready w.jobs
              ∙ ap (λ js. execute hdr a.client.chan p.client.launch_req_ready ∷ js) empty
              ∙ ap (λ c. execute hdr c p.client.launch_req_ready ∷ []) (sym v.same_chan),
          under_way,
        )
      ];
      past = elim v.past [
        | inl unchanged ↦
            subst
              (λ (q : Port T).
                (same (ready q.chan.request_flags) (ready q.chan.response_flags) ≡ false)
                ⊎ Settled q.client q.chan)
              (sym unchanged) s.past
        | inr (inl clear) ↦ inr (inl clear)
        | inr (inr open_request) ↦ inl open_request
      ];
    }

    -- A launch was under way: the visit passes over the client.
    under_way-IsSettled : InProgress a.client a.chan → IsSettledPort p
    under_way-IsSettled under_way =
        subst IsSettledPort
          (ap visit_port (
              sym (
                visit-in_progress vtables repr (port_at w a) under_way.pending under_way.marked
                  under_way.open_request))
            ∙ came)
          s

    pub visit-IsVisited : IsVisited w a p
    visit-IsVisited = record {
      settled = elim s.job [
        | inl empty ↦ free-IsSettled empty
        | inr (hdr, one, under_way) ↦ under_way-IsSettled under_way
      ];
      others = λ d ne. elim v.job [
        | inl same_jobs ↦ ap (own d) same_jobs
        | inr (hdr, added, under_way) ↦
            ap (own d) added ∙ own-other a.client.chan d hdr p.client.launch_req_ready w.jobs ne
      ];
      same_chan = v.same_chan;
    }

  pub placed :
      (w : Worker T) (idx : ℕ) (a : Seat) (p : Port T)
      → get_elem? w.clients idx ≡ some a
      → visit_port (visit vtables repr (port_at w a)) ≡ p
      → IsSystem (seats w) w.jobs
      → IsSystem (set w.clients idx (record { client = p.client; chan = p.chan }) ++ w.reg) p.jobs
  placed w idx a p at came s =
      let at_all = get_elem?-append w.clients w.reg idx a at in
      let v = visit-IsVisited w a p came (s.settled idx a at_all) in
      subst (λ l. IsSystem l p.jobs)
        (set-append w.clients w.reg idx (record { client = p.client; chan = p.chan })
          (get_elem?-below w.clients idx a at))
        (IsSystem-set (seats w) w.jobs p.jobs idx a (record { client = p.client; chan = p.chan }) s
          at_all v.same_chan v.settled v.others)

  abbrev pub IsSystemAt : System T → Type 0
  IsSystemAt s = IsSystem (seats s.worker) s.worker.jobs

  visit-IsSystem :
      (w : Worker T) (n idx : ℕ) (b : Bool) (a : Seat) (v : Visit T)
      → get_elem? w.clients idx ≡ some a
      → visit vtables repr (port_at w a) ≡ v
      → IsSystem (seats w) w.jobs
      → IsSystemAt (of_turn (after_visit w n idx b v))
  unfolding after_visit
  visit-IsSystem w n idx b a (skipped p) at e s = placed w idx a p at (ap visit_port e) s
  visit-IsSystem w n idx b a (progressed p) at e s = placed w idx a p at (ap visit_port e) s
  visit-IsSystem w n idx b a (exited p) at e s = placed w idx a p at (ap visit_port e) s
  visit-IsSystem w n idx b a (died p) at e s = placed w idx a p at (ap visit_port e) s
  visit-IsSystem w n idx b a (undefined p) at e s = placed w idx a p at (ap visit_port e) s

  pub turn-IsSystem :
      (w : Worker T) (n offs : ℕ) (b : Bool)
      → IsSystem (seats w) w.jobs
      → IsSystemAt (of_turn (turn vtables repr n offs b w))
  unfolding turn turn_at
  turn-IsSystem w n offs b s = go (get_elem? w.clients (slot_index w.start_idx offs n)) refl
    where
      go :
          (o : Option Seat)
          → get_elem? w.clients (slot_index w.start_idx offs n) ≡ o
          → IsSystemAt (of_turn (turn_at vtables repr w n (slot_index w.start_idx offs n) b o))
      go none at = s
      go (some a) at = visit-IsSystem w n (slot_index w.start_idx offs n) b a _ at refl s
