-- ===== src/System/Watched.antt =====
-- src/runtime/runtime.rs and src/trust/remote.rs: the steps that a client waits for, up to its first visit and after it.
use mathlib.Core.List.{append_assoc}
use trust_tee.Prelude.{
  ℕ, ◌≡◌, refl, sym, ap, ◌∙◌, ◌⊎◌, inl, inr, List, [], ◌∷◌, ◌++◌, some, get_elem?,
}
use trust_tee.Memory.{Repr}
use trust_tee.Closures.{VTables}
use trust_tee.Runtime.Worker.{Seat}
use trust_tee.Channel.{Link, Event, run_event}
use trust_tee.System.{System, seats, link_of, Waits, here, run_events}
use trust_tee.System.View.{Seen, IsVisit, NoServe}

module _ {T : Type 0} (vtables : VTables T) (repr : Repr T) where
  pub run_events-append :
      (es fs : List (Event T)) (l : Link T)
      → run_events vtables repr (es ++ fs) l
        ≡ run_events vtables repr fs (run_events vtables repr es l)
  run_events-append [] fs l = refl
  run_events-append (e ∷ es) fs l = run_events-append es fs (run_event vtables repr e l)

  NoServe-append :
      (es fs : List (Event T))
      → NoServe vtables repr es
      → NoServe vtables repr fs
      → NoServe vtables repr (es ++ fs)
  NoServe-append [] fs h k = k
  NoServe-append (Event.idle ∷ es) fs h k = NoServe-append es fs h k
  NoServe-append (Event.serve ∷ es) fs h k = h
  NoServe-append (Event.fiber ∷ es) fs h k = NoServe-append es fs h k
  NoServe-append (Event.gone ∷ es) fs h k = NoServe-append es fs h k
  NoServe-append (Event.others g ∷ es) fs h k = NoServe-append es fs h k

  -- The first visit of the client on the way from `s` to `s'`, and the events before and after it.
  pub record FirstVisit (i : ℕ) (s s' : System T) (a : Seat) (events : List (Event T))
      : Type 0 where
    pub before : System T
    pub after : System T
    pub until : Waits vtables repr i s before
    pub visit : IsVisit vtables repr i before after
    pub since : Waits vtables repr i after s'
    pub seat : Seat
    pub at : get_elem? (seats before.worker) i ≡ some seat
    pub earlier : List (Event T)
    pub later : List (Event T)
    pub split : events ≡ earlier ++ (Event.serve ∷ later)
    pub unserved : NoServe vtables repr earlier
    pub ran : link_of before seat ≡ run_events vtables repr earlier (link_of s a)
    pub left :
        after.worker.prop ≡ (run_event vtables repr Event.serve (link_of before seat)).port.prop

  -- What the client `i` sees of all steps from `s` to `s'`, with its first visit.
  pub record Watched (i : ℕ) (s s' : System T) (a : Seat) : Type 0 where
    pub events : List (Event T)
    pub seat : Seat
    pub at : get_elem? (seats s'.worker) i ≡ some seat
    pub same_chan : seat.client.chan ≡ a.client.chan
    pub ran : link_of s' seat ≡ run_events vtables repr events (link_of s a)
    pub visits : FirstVisit i s s' a events ⊎ NoServe vtables repr events

  more_visits :
      (i : ℕ) (s t t' : System T) (a : Seat)
      → Waits vtables repr i s t
      → ((u : System T) → Waits vtables repr i u t → Waits vtables repr i u t')
      → (first : Watched i s t a) → (next : Seen vtables repr i t t' first.seat)
      → FirstVisit i s t' a (first.events ++ next.events)
        ⊎ NoServe vtables repr (first.events ++ next.events)
  more_visits i s t t' a ws extend first next = elim first.visits [
    | inl v ↦ inl (record {
      before = v.before;
      after = v.after;
      until = v.until;
      visit = v.visit;
      since = extend v.after v.since;
      seat = v.seat;
      at = v.at;
      earlier = v.earlier;
      later = v.later ++ next.events;
      split =
          ap (λ l. l ++ next.events) v.split
          ∙ append_assoc v.earlier (Event.serve ∷ v.later) next.events;
      unserved = v.unserved;
      ran = v.ran;
      left = v.left;
    })
    | inr quiet ↦ elim next.kind [
      | inl (served, is) ↦ inl (record {
        before = t;
        after = t';
        until = ws;
        visit = is;
        since = here;
        seat = first.seat;
        at = first.at;
        earlier = first.events;
        later = [];
        split = ap (λ l. first.events ++ l) served;
        unserved = quiet;
        ran = first.ran;
        left =
            ap (λ l. l.port.prop) next.ran
            ∙ ap (λ l. (run_events vtables repr l (link_of t first.seat)).port.prop) served;
      })
      | inr none_now ↦ inr (NoServe-append first.events next.events quiet none_now)
    ]
  ]

  pub Watched-trans :
      (i : ℕ) (s t t' : System T) (a : Seat)
      → Waits vtables repr i s t
      → ((u : System T) → Waits vtables repr i u t → Waits vtables repr i u t')
      → (first : Watched i s t a) → Seen vtables repr i t t' first.seat
      → Watched i s t' a
  Watched-trans i s t t' a ws extend first later = record {
    events = first.events ++ later.events;
    seat = later.seat;
    at = later.at;
    same_chan = later.same_chan ∙ first.same_chan;
    ran =
        later.ran
        ∙ ap (run_events vtables repr later.events) first.ran
        ∙ sym (run_events-append first.events later.events (link_of s a));
    visits = more_visits i s t t' a ws extend first later;
  }
