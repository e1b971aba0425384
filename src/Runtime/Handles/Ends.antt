-- ===== src/Runtime/Handles/Ends.antt =====
-- src/runtime/runtime.rs: the terminate request and the worker.
use trust_tee.Prelude.{
  ℕ, ◌+◌, ◌-◌, ◌%◌, ◌<◌, ◌≡◌, ◌≢◌, refl, sym, ap, ◌∙◌, subst, inl, inr, zero, suc, Bool, true,
  false, not, not-same, same, List, [], ◌∷◌, ◌++◌, ◌||◌, ◌==◌, ==_self, some, length, length-set,
  length-append, get_elem?, get_elem?-lt, get_elem?-below, get_elem?-snoc, get_elem?-snoc_cases,
  arith,
}
use trust_tee.Memory.{Repr}
use trust_tee.Slots.{ChannelPair, new_channel, ready, usize_mod}
use trust_tee.Slots.Words.{ready-pack, count-pack}
use trust_tee.Slots.Records.{InRange, read_record-write_record}
use trust_tee.Closures.{VTables}
use trust_tee.Runtime.Visit.{Port, skipped, exited, pending_check, visit}
use trust_tee.Runtime.Visit.Serve.{Requested, visit-terminate}
use trust_tee.Runtime.Visit.Pending.{visit-skipped}
use trust_tee.Runtime.Worker.Indices.{slot_index-lt, slot_index-ne, slot_index-onto}
use trust_tee.Runtime.Worker.Registers.{drain-all}
use trust_tee.Runtime.Worker.Service.{PassesOver, turns, turns-eq, same_port, get_elem?-set_other}
use trust_tee.Runtime.Worker.{
  is_empty, drain_limit, Seat, Worker, Turn, leaves, port_at, store, slot_index, after_visit,
  turn_at, turn, after_turn, scan, end_round, round_over, poll_registrations, loop_round,
}
use trust_tee.Runtime.Worker.Bounds.{IsWorker}
use trust_tee.Runtime.Handles.{
  Runtime, drop_runtime, register, client_seat, post_terminate, terminate_header,
}

terminate_header-InRange : InRange terminate_header
terminate_header-InRange = record {
  env = omega arith;
  vtable = omega arith;
  captured = omega arith;
  args = omega arith;
  offset = omega arith;
  repeat = omega arith;
}

abbrev pub terminate_seat : ℕ → Seat
terminate_seat base = client_seat (post_terminate (new_channel base))

module _ {T : Type 0} (vtables : VTables T) (repr : Repr T) (base : ℕ) (w : Worker T) where
  terminate-Requested : Requested (port_at w (terminate_seat base)) terminate_header
  unfolding client_seat post_terminate pending_check
  terminate-Requested = record {
    settled = refl;
    unanswered =
        ap (λ r. same r (ready c.response_flags)) (ready-pack (not (ready c.response_flags)) 1)
        ∙ not-same (ready c.response_flags);
    one = count-pack (not (ready c.response_flags)) 1;
    stored = read_record-write_record _ terminate_header c.bytes terminate_header-InRange;
  }
    where
      c : ChannelPair
      c = new_channel base

  visit-terminate_seat :
      visit vtables repr (port_at w (terminate_seat base))
      ≡ exited (port_at w (terminate_seat base))
  unfolding client_seat
  visit-terminate_seat =
      visit-terminate vtables repr (port_at w (terminate_seat base)) terminate_header
        terminate-Requested refl

  -- The worker leaves its loop when its round comes to the channel of a dropped runtime, whatever other
  -- clients it has: it serves none of those that come later in the round.
  pub terminate_leaves :
      (n k offs : ℕ) (b : Bool)
      → get_elem? w.clients (slot_index w.start_idx offs n) ≡ some (terminate_seat base)
      → scan vtables repr n (suc k) offs b w
        ≡ leaves (store w (slot_index w.start_idx offs n) (port_at w (terminate_seat base)))
  unfolding scan turn turn_at after_visit after_turn
  terminate_leaves n k offs b found =
      ap (λ o. next (turn_at vtables repr w n idx b o)) found
      ∙ ap (λ v. next (after_visit w n idx b v)) visit-terminate_seat
    where
      idx : ℕ
      idx = slot_index w.start_idx offs n

      next : Turn T → Turn T
      next = after_turn (scan vtables repr n k (offs + 1))

some_client : (ss : List Seat) (k : ℕ) {s : Seat} → get_elem? ss k ≡ some s → is_empty ss ≡ false
some_client [] k e = cc e
some_client (x ∷ ss) k e = refl

module _ {T : Type 0} (vtables : VTables T) (repr : Repr T) (base : ℕ) where
  -- How a round ends, with nothing changed for those who use the property.
  abbrev pub LeavesAsIs : Worker T → Turn T → Type 0
  LeavesAsIs w rest = (w' : Worker T) × (rest ≡ leaves w') × (w'.prop ≡ w.prop) × (w'.jobs ≡ w.jobs)

  -- The rest of a round from `offs`, if the turn `j` comes to the terminate request.
  ends :
      (n m k offs j : ℕ) (w : Worker T)
      → offs + m ≡ j
      → j < n
      → length w.clients ≡ n
      → w.start_idx < n
      → PassesOver vtables repr n w offs j
      → get_elem? w.clients (slot_index w.start_idx j n) ≡ some (terminate_seat base)
      → LeavesAsIs w (scan vtables repr n (turns m k) offs false w)
  unfolding scan turn turn_at after_visit after_turn
  ends n zero k offs j w at within all start passes found =
      let here : offs ≡ j = omega arith in
      (
        store w (slot_index w.start_idx offs n) (port_at w (terminate_seat base)),
        terminate_leaves vtables repr base w n k offs false (
            subst
              (λ i. get_elem? w.clients (slot_index w.start_idx i n) ≡ some (terminate_seat base))
              (sym here) found),
        refl,
        refl,
      )
  ends n (suc m) k offs j w at within all start passes found =
      let (x, at_x) =
        get_elem?-lt w.clients idx
          (omega (arith, all, slot_index-lt w.start_idx offs n start (omega arith))) in
      let (q, over) = passes offs x (omega arith) (omega arith) at_x in
      let passed = visit-skipped vtables repr (port_at w x) q over in
      let (w', rest, same_prop, same_jobs) =
        ends n m k (offs + 1) j (store w idx q) (omega arith) within
          (length-set w.clients idx _ ∙ all) start
          (λ i y from below at_y.
            let (q', v) = passes i y (omega arith) below (
              sym (
                get_elem?-set_other w.clients idx (slot_index w.start_idx i n) _
                  (slot_index-ne w.start_idx offs i n start (omega arith) (omega arith)))
              ∙ at_y) in
            (q', ap (visit vtables repr) (same_port vtables repr n w idx x y q passed) ∙ v))
          (get_elem?-set_other w.clients idx (slot_index w.start_idx j n) _
              (slot_index-ne w.start_idx offs j n start (omega arith) within)
            ∙ found) in
      (
        w',
        ap (λ o. next (turn_at vtables repr w n idx false o)) at_x
            ∙ ap (λ v. next (after_visit w n idx false v)) over
            ∙ rest,
        same_prop ∙ passed.same_prop,
        same_jobs ∙ passed.same_jobs,
      )
    where
      idx : ℕ
      idx = slot_index w.start_idx offs n

      next : Turn T → Turn T
      next = after_turn (scan vtables repr n (turns m k) (offs + 1))

  round_ends :
      (w : Worker T) (k : ℕ)
      → w.start_idx < length w.clients
      → get_elem? w.clients k ≡ some (terminate_seat base)
      → ((i : ℕ) (x : Seat)
          → i ≢ k
          → get_elem? w.clients i ≡ some x
          → (q : Port T) × (visit vtables repr (port_at w x) ≡ skipped q))
      → LeavesAsIs w (round_over vtables repr w)
  unfolding round_over end_round
  round_ends w k start found rest =
      let n : ℕ = length w.clients in
      let (j, within, there) =
        slot_index-onto w.start_idx k n start
          (get_elem?-below w.clients k (terminate_seat base) found) in
      let (w', over, same_prop, same_jobs) =
        ends n j (n - j - 1) 0 j w (omega arith) within refl start
          (λ i x from below at.
            rest (slot_index w.start_idx i n) x
              (λ e. slot_index-ne w.start_idx i j n start below within (e ∙ sym there)) at)
          (subst (λ i. get_elem? w.clients i ≡ some (terminate_seat base)) (sym there) found) in
      let all_turns : n ≡ turns j (n - j - 1) = omega (arith, turns-eq j (n - j - 1), within) in
      (
        w',
        rw (some_client w.clients k found)
            (ap end_round (ap (λ t. scan vtables repr n t 0 false w) all_turns ∙ over)),
        same_prop,
        same_jobs,
      )

  -- The worker after it has registered the runtime's last channel.
  abbrev polled : Worker T → Worker T
  polled w = record w {
    reg = [];
    clients = w.clients ++ (terminate_seat base ∷ []);
    loop_counter = (w.loop_counter + 1) % usize_mod;
  }

  taken_up :
      (w : Worker T)
      → w.reg ≡ terminate_seat base ∷ []
      → ((w.loop_counter + 1) % usize_mod) % 16 ≡ 0
      → poll_registrations w ≡ polled w
  unfolding poll_registrations
  taken_up w only due =
      rw (due_now, only)
        (ap
          (λ x. record w {
            reg = x.1;
            clients = x.0;
            loop_counter = (w.loop_counter + 1) % usize_mod;
          })
          (drain-all drain_limit w.clients (terminate_seat base ∷ []) (omega arith)))
    where
      due_now : (is_empty w.clients || ((w.loop_counter + 1) % usize_mod) % 16 == 0) ≡ true
      due_now = ground (arith, due)

  start_in_polled :
      (w : Worker T) → IsWorker w → w.start_idx < length (w.clients ++ (terminate_seat base ∷ []))
  start_in_polled w is = elim is.start_in [
    | inl below ↦ omega (arith, below, length-append w.clients (terminate_seat base ∷ []))
    | inr zero_start ↦ omega (arith, zero_start, length-append w.clients (terminate_seat base ∷ []))
  ]

  -- If a runtime that owns its worker, with its queue drained, is dropped, and no client of the worker asks for
  -- anything, then the next round in which the worker polls its registrations ends it, with the property
  -- and the jobs as they were, wherever the round begins.
  pub dropped_ends :
      (rt : Runtime) (w : Worker T)
      → rt.worker ≡ true
      → rt.registrar.reg ≡ []
      → w.reg ≡ (drop_runtime base rt).registrar.reg
      → IsWorker w
      → ((w.loop_counter + 1) % usize_mod) % 16 ≡ 0
      → ((i : ℕ) (x : Seat)
          → get_elem? w.clients i ≡ some x
          → (q : Port T) × (visit vtables repr (port_at w x) ≡ skipped q))
      → LeavesAsIs w (loop_round vtables repr w)
  unfolding loop_round poll_registrations drop_runtime register
  dropped_ends rt w alive no_other queued is due rest =
      let only : w.reg ≡ terminate_seat base ∷ [] = queued ∙ rw (alive, no_other) refl in
      let taken : poll_registrations w ≡ polled w = taken_up w only due in
      subst (λ v. LeavesAsIs w (round_over vtables repr v)) (sym taken)
        (round_ends (polled w) (length w.clients) (start_in_polled w is)
          (get_elem?-snoc w.clients (terminate_seat base) (length w.clients)
            ∙ rw (==_self (length w.clients)) refl)
          (λ i x ne at. elim (get_elem?-snoc_cases w.clients (terminate_seat base) i x at) [
            | inl (same_seat, last) ↦ absurd (ne last)
            | inr before ↦ rest i x before
          ]))
