-- ===== src/Runtime/Worker/Bounds.antt =====
-- src/runtime/runtime.rs: the indices and counters of the worker loop.
use trust_tee.Prelude.{
  ℕ, zero, suc, ◌+◌, ◌%◌, ◌^◌, ◌≤◌, ◌<◌, ◌≡◌, refl, sym, ◌∙◌, subst, ◌⊎◌, inl, inr, Bool, true,
  false, ◌||◌, ◌==◌, List, [], ◌∷◌, ◌++◌, length, length-append, length-set, get_elem?-lt, arith,
  if◌then◌else◌,
}
use trust_tee.Memory.{Repr}
use trust_tee.Slots.{usize_mod}
use trust_tee.Closures.{VTables}
use trust_tee.Runtime.Visit.{Visit, skipped, progressed, exited, died, undefined, visit}
use trust_tee.Runtime.Worker.Indices.{slot_index-lt}
use trust_tee.Runtime.Worker.{
  is_empty, Seat, Worker, Turn, goes_on, leaves, out_of_range, slot_index, port_at, after_visit,
  drain, drain_limit, poll_registrations, idle_round, end_round, turn_at, turn, after_turn, scan,
  round_over, loop_round,
}

-- The counters are in range, and the next client to visit is one of the clients.
pub record IsWorker {T : Type 0} (w : Worker T) : Type 0 where
  pub start_in : (w.start_idx < length w.clients) ⊎ (w.start_idx ≡ 0)
  pub few_rounds : w.idle_rounds ≤ 8
  pub counter_in : w.loop_counter < 2 ^ 64

-- What holds of the worker after a step.
abbrev pub Keeps : {T : Type 0} → (Worker T → Type 0) → Turn T → Type 0
Keeps P (goes_on b w) = P w
Keeps P (leaves w) = Unit {0}
Keeps P (out_of_range w) = ⊥

-- The state in the middle of a round over `n` clients.
pub record IsScanning {T : Type 0} (n : ℕ) (w : Worker T) : Type 0 where
  pub all : length w.clients ≡ n
  pub start : w.start_idx < n
  pub few : w.idle_rounds ≤ 8
  pub counter : w.loop_counter < 2 ^ 64

drain-longer : (k : ℕ) (clients reg : List Seat) → length clients ≤ length (drain k clients reg).0
unfolding drain
drain-longer zero clients reg = omega arith
drain-longer (suc k) clients [] = omega arith
drain-longer (suc k) clients (cp ∷ reg) =
    omega (arith, drain-longer k (clients ++ (cp ∷ [])) reg, length-append clients (cp ∷ []))

pub empty_or_longer :
    (ss : List Seat) → (is_empty ss ≡ true) ⊎ ((is_empty ss ≡ false) × (0 < length ss))
empty_or_longer [] = inl refl
empty_or_longer (s ∷ ss) = inr (refl, omega arith)

start_within : {start n m : ℕ} → (start < n) ⊎ (start ≡ 0) → n ≤ m → (start < m) ⊎ (start ≡ 0)
start_within (inl h) longer = inl (omega arith)
start_within (inr h) longer = inr h

pub start_at : {start n : ℕ} → (start < n) ⊎ (start ≡ 0) → 0 < n → start < n
start_at (inl h) more = h
start_at (inr h) more = omega arith

module _ {T : Type 0} (vtables : VTables T) (repr : Repr T) where
  after_visit-IsScanning :
      (w : Worker T) (n idx : ℕ) (b : Bool) (v : Visit T)
      → IsScanning n w
      → Keeps (IsScanning n) (after_visit w n idx b v)
  unfolding after_visit
  after_visit-IsScanning w n idx b (skipped p) s = record {
    all = length-set w.clients idx _ ∙ s.all;
    start = s.start;
    few = s.few;
    counter = s.counter;
  }
  after_visit-IsScanning w n idx b (progressed p) s = record {
    all = length-set w.clients idx _ ∙ s.all;
    start = omega (arith, s.start);
    few = s.few;
    counter = s.counter;
  }
  after_visit-IsScanning w n idx b (exited p) s = tt
  after_visit-IsScanning w n idx b (died p) s = tt
  after_visit-IsScanning w n idx b (undefined p) s = tt

  turn-IsScanning :
      (w : Worker T) (n offs : ℕ) (b : Bool)
      → offs < n
      → IsScanning n w
      → Keeps (IsScanning n) (turn vtables repr n offs b w)
  unfolding turn turn_at
  turn-IsScanning w n offs b within s =
      let idx = slot_index w.start_idx offs n in
      let (seat, found) =
        get_elem?-lt w.clients idx
          (omega (arith, s.all, slot_index-lt w.start_idx offs n s.start within)) in
      subst (λ o. Keeps (IsScanning n) (turn_at vtables repr w n idx b o)) (sym found)
        (after_visit-IsScanning w n idx b (visit vtables repr (port_at w seat)) s)

  scan-IsScanning :
      (n k offs : ℕ) (b : Bool) (w : Worker T)
      → offs + k ≡ n
      → IsScanning n w
      → Keeps (IsScanning n) (scan vtables repr n k offs b w)
  unfolding scan after_turn
  scan-IsScanning n zero offs b w total s = s
  scan-IsScanning n (suc k) offs b w total s =
      go (λ b' w' s'. scan-IsScanning n k (offs + 1) b' w' (omega arith) s')
        (turn vtables repr n offs b w) (turn-IsScanning w n offs b (omega arith) s)
    where
      go :
          ((b' : Bool) (w' : Worker T)
            → IsScanning n w'
            → Keeps (IsScanning n) (scan vtables repr n k (offs + 1) b' w'))
          → (t : Turn T) → Keeps (IsScanning n) t
          → Keeps (IsScanning n) (after_turn (scan vtables repr n k (offs + 1)) t)
      go rest (goes_on b' w') s' = rest b' w' s'
      go rest (leaves w') s' = tt
      go rest (out_of_range w') s' = s'

  pub poll-IsWorker : (w : Worker T) → IsWorker w → IsWorker (poll_registrations w)
  unfolding poll_registrations
  poll-IsWorker w s = go (is_empty w.clients || ((w.loop_counter + 1) % usize_mod) % 16 == 0)
    where
      counted : Worker T
      counted = record w { loop_counter = (w.loop_counter + 1) % usize_mod }

      go :
          (b : Bool)
          → IsWorker (
              if b
              then record counted {
                clients = (drain drain_limit w.clients w.reg).0;
                reg = (drain drain_limit w.clients w.reg).1;
              }
              else counted)
      go true = record {
        start_in = start_within s.start_in (drain-longer drain_limit w.clients w.reg);
        few_rounds = s.few_rounds;
        counter_in = omega arith;
      }
      go false = record {
        start_in = s.start_in;
        few_rounds = s.few_rounds;
        counter_in = omega arith;
      }

  idle-IsWorker : (w : Worker T) → IsWorker w → IsWorker (idle_round w)
  unfolding idle_round
  idle-IsWorker w s = record {
    start_in = s.start_in;
    few_rounds = ground arith;
    counter_in = s.counter_in;
  }

  end_round-IsWorker : (n : ℕ) (t : Turn T) → Keeps (IsScanning n) t → Keeps IsWorker (end_round t)
  unfolding end_round
  end_round-IsWorker n (goes_on true w) s = record {
    start_in = inl (omega (arith, s.start, s.all));
    few_rounds = omega arith;
    counter_in = s.counter;
  }
  end_round-IsWorker n (goes_on false w) s = idle-IsWorker w (record {
    start_in = inl (omega (arith, s.start, s.all));
    few_rounds = s.few;
    counter_in = s.counter;
  })
  end_round-IsWorker n (leaves w) s = tt
  end_round-IsWorker n (out_of_range w) s = s

  round_over-IsWorker : (w : Worker T) → IsWorker w → Keeps IsWorker (round_over vtables repr w)
  unfolding round_over
  round_over-IsWorker w s = elim (empty_or_longer w.clients) [
    | inl e ↦
        subst (λ b. Keeps IsWorker (if b then goes_on false (idle_round w) else scanned)) (sym e)
          (idle-IsWorker w s)
    | inr more ↦
        subst (λ b. Keeps IsWorker (if b then goes_on false (idle_round w) else scanned))
          (sym more.0)
          (end_round-IsWorker (length w.clients)
            (scan vtables repr (length w.clients) (length w.clients) 0 false w)
            (scan-IsScanning (length w.clients) (length w.clients) 0 false w (omega arith)
              (scanning more.1)))
  ]
    where
      scanned : Turn T
      scanned = end_round (scan vtables repr (length w.clients) (length w.clients) 0 false w)

      scanning : 0 < length w.clients → IsScanning (length w.clients) w
      scanning some_client = record {
        all = refl;
        start = start_at s.start_in some_client;
        few = s.few_rounds;
        counter = s.counter_in;
      }

  -- A round of the worker loop, from a worker whose next client and counters are in range, never
  -- indexes its clients out of range, and leaves a worker in range again.
  pub loop_round-IsWorker : (w : Worker T) → IsWorker w → Keeps IsWorker (loop_round vtables repr w)
  unfolding loop_round
  loop_round-IsWorker w s = round_over-IsWorker (poll_registrations w) (poll-IsWorker w s)
