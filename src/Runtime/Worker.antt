-- ===== src/Runtime/Worker.antt =====
-- src/runtime/runtime.rs: the worker loop over its clients. A round is one run of the body of `loop`; what
-- clients and fibers do between turns is in System.
pub mod Indices
pub mod Bounds
pub mod Unmoved
pub mod Quiet
pub mod Fairness
pub mod Registers
pub mod Service
use trust_tee.Prelude.{
  ℕ, zero, suc, ◌+◌, ◌-◌, ◌%◌, Bool, true, false, ◌||◌, ltb, leb, ◌==◌, List, [], ◌∷◌, ◌++◌, Option,
  none, some, length, get_elem?, set, if◌then◌else◌,
}
use trust_tee.Memory.{Repr}
use trust_tee.Slots.{ChannelPair, usize_mod}
use trust_tee.Closures.{VTables}
use trust_tee.Runtime.Records.{ClientPair, Job}
use trust_tee.Runtime.Visit.{Port, Visit, skipped, progressed, exited, died, undefined, visit}

-- A client with the channel that it shares.
pub record Seat : Type 0 where
  pub client : ClientPair
  pub chan : ChannelPair

-- The local variables of the worker, the registration queue, the property, and the jobs that wait for
-- a fiber.
pub record Worker (T : Type 0) : Type 0 where
  pub reg : List Seat
  pub clients : List Seat
  pub prop : T
  pub jobs : List Job
  pub start_idx : ℕ
  pub idle_rounds : ℕ
  pub loop_counter : ℕ

-- How a step of the loop ends: it goes on, with what `progressed` says; the worker ends; or an index
-- is out of range.
pub data Turn (T : Type 0) : Type 0 where
  goes_on : Bool → Worker T → Turn T
  leaves : Worker T → Turn T
  out_of_range : Worker T → Turn T

-- `start_idx + offs`, wrapped once at `n`.
unfoldable pub slot_index : ℕ → ℕ → ℕ → ℕ
slot_index start offs n = let idx = start + offs in if leb n idx then idx - n else idx

-- Up to `k` registrations.
unfoldable pub drain : ℕ → List Seat → List Seat → List Seat × List Seat
drain zero clients reg = (clients, reg)
drain (suc k) clients [] = (clients, [])
drain (suc k) clients (cp ∷ reg) = drain k (clients ++ (cp ∷ [])) reg

abbrev pub drain_limit : ℕ
drain_limit = 256

abbrev pub is_empty : List Seat → Bool
is_empty [] = true
is_empty (s ∷ ss) = false

module _ {T : Type 0} where
  abbrev pub port_at : Worker T → Seat → Port T
  port_at w s = record { client = s.client; chan = s.chan; prop = w.prop; jobs = w.jobs }

  abbrev pub store : Worker T → ℕ → Port T → Worker T
  store w idx p = record w {
    clients = set w.clients idx (record { client = p.client; chan = p.chan });
    prop = p.prop;
    jobs = p.jobs;
  }

  unfoldable pub after_visit : Worker T → ℕ → ℕ → Bool → Visit T → Turn T
  after_visit w n idx b (skipped p) = goes_on b (store w idx p)
  after_visit w n idx b (progressed p) =
      goes_on true (record (store w idx p) { start_idx = (idx + 1) % n })
  after_visit w n idx b (exited p) = leaves (store w idx p)
  after_visit w n idx b (died p) = leaves (store w idx p)
  after_visit w n idx b (undefined p) = leaves (store w idx p)

  unfoldable pub after_turn : (Bool → Worker T → Turn T) → Turn T → Turn T
  after_turn next (goes_on b w) = next b w
  after_turn next (leaves w) = leaves w
  after_turn next (out_of_range w) = out_of_range w

  unfoldable pub poll_registrations : Worker T → Worker T
  unfolding drain
  poll_registrations w =
      let counted = record w { loop_counter = (w.loop_counter + 1) % usize_mod } in
      let polled = drain drain_limit w.clients w.reg in
      if is_empty w.clients || counted.loop_counter % 16 == 0
      then record counted { clients = polled.0; reg = polled.1 }
      else counted

  -- A spin, or a yield after eight spins.
  unfoldable pub idle_round : Worker T → Worker T
  idle_round w = record w { idle_rounds = if ltb w.idle_rounds 8 then w.idle_rounds + 1 else 0 }

  unfoldable pub end_round : Turn T → Turn T
  unfolding idle_round
  end_round (goes_on true w) = goes_on true (record w { idle_rounds = 0 })
  end_round (goes_on false w) = goes_on false (idle_round w)
  end_round (leaves w) = leaves w
  end_round (out_of_range w) = out_of_range w

module _ {T : Type 0} (vtables : VTables T) (repr : Repr T) where
  unfoldable pub turn_at : Worker T → ℕ → ℕ → Bool → Option Seat → Turn T
  unfolding after_visit
  turn_at w n idx b none = out_of_range w
  turn_at w n idx b (some s) = after_visit w n idx b (visit vtables repr (port_at w s))

  -- The body of `for offs in 0..n`, with the choice of the client.
  unfoldable pub turn : ℕ → ℕ → Bool → Worker T → Turn T
  unfolding slot_index turn_at
  turn n offs b w =
      let idx = slot_index w.start_idx offs n in turn_at w n idx b (get_elem? w.clients idx)

  -- `k` turns from `offs`.
  unfoldable pub scan : ℕ → ℕ → ℕ → Bool → Worker T → Turn T
  unfolding turn after_turn
  scan n zero offs b w = goes_on b w
  scan n (suc k) offs b w = after_turn (scan n k (offs + 1)) (turn n offs b w)

  unfoldable pub round_over : Worker T → Turn T
  unfolding scan idle_round end_round
  round_over w =
      let n = length w.clients in
      if is_empty w.clients then goes_on false (idle_round w) else end_round (scan n n 0 false w)

  unfoldable pub loop_round : Worker T → Turn T
  unfolding poll_registrations round_over
  loop_round w = round_over (poll_registrations w)
