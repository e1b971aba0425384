-- ===== src/Runtime/Worker/Service.antt =====
-- src/runtime/runtime.rs: which client a round of the worker loop serves first.
use trust_tee.Prelude.{
  ℕ, zero, suc, ◌+◌, ◌%◌, ◌≤◌, ◌<◌, ◌≡◌, ◌≢◌, refl, sym, ap, ◌∙◌, subst, true, false, List, [], ◌∷◌,
  some, length, length-set, get_elem?, get_elem?-lt, set, arith,
}
use trust_tee.Memory.{Repr}
use trust_tee.Closures.{VTables}
use trust_tee.Runtime.Visit.{Port, skipped, progressed, visit}
use trust_tee.Runtime.Visit.Pending.{PassedOver, visit-skipped}
use trust_tee.Runtime.Worker.{
  Seat, Worker, Turn, slot_index, port_at, store, after_visit, turn_at, turn, after_turn, scan,
}
use trust_tee.Runtime.Worker.Indices.{slot_index-lt, slot_index-ne}

get_elem?-set_self :
    {A : Type 0} (xs : List A) (i : ℕ) (v : A) → i < length xs → get_elem? (set xs i v) i ≡ some v
get_elem?-set_self [] i v h = absurd (omega arith)
get_elem?-set_self (x ∷ xs) zero v h = refl
get_elem?-set_self (x ∷ xs) (suc i) v h = get_elem?-set_self xs i v (omega arith)

pub get_elem?-set_other :
    {A : Type 0} (xs : List A) (i j : ℕ) (v : A) → i ≢ j → get_elem? (set xs i v) j ≡ get_elem? xs j
get_elem?-set_other [] i j v h = refl
get_elem?-set_other (x ∷ xs) zero zero v h = absurd (h refl)
get_elem?-set_other (x ∷ xs) zero (suc j) v h = refl
get_elem?-set_other (x ∷ xs) (suc i) zero v h = refl
get_elem?-set_other (x ∷ xs) (suc i) (suc j) v h = get_elem?-set_other xs i j v (λ e. h (ap suc e))

-- `m` turns, one more, and `k` after it.
abbrev pub turns : ℕ → ℕ → ℕ
turns zero k = suc k
turns (suc m) k = suc (turns m k)

pub turns-eq : (m k : ℕ) → turns m k ≡ m + k + 1
turns-eq zero k = omega arith
turns-eq (suc m) k = omega (arith, turns-eq m k)

module _ {T : Type 0} (vtables : VTables T) (repr : Repr T) (n : ℕ) where
  -- The worker passes over the clients that the turns from `offs` up to `j` visit.
  abbrev pub PassesOver : Worker T → ℕ → ℕ → Type 0
  PassesOver w offs j =
      (i : ℕ) (x : Seat)
      → offs ≤ i
      → i < j
      → get_elem? w.clients (slot_index w.start_idx i n) ≡ some x
      → (q : Port T) × (visit vtables repr (port_at w x) ≡ skipped q)

  -- The seat at `idx` has been served: it is as the visit left it, as is the property, and the turns
  -- that are left count from behind it.
  pub record Served (w1 : Worker T) (idx : ℕ) (p : Port T) : Type 0 where
    pub same_prop : w1.prop ≡ p.prop
    pub next_start : w1.start_idx ≡ (idx + 1) % n
    pub seat : get_elem? w1.clients idx ≡ some (record { client = p.client; chan = p.chan })

  -- What the rest of a round from `offs` comes to, if the client of turn `j` is served.
  abbrev Serves : ℕ → ℕ → Worker T → Port T → Turn T → Type 0
  Serves k j w p rest =
      (w1 : Worker T) × (rest ≡ scan vtables repr n k (j + 1) true w1)
      × Served w1 (slot_index w.start_idx j n) p

  serve_now :
      (k offs : ℕ) (w : Worker T) (s : Seat) (p : Port T)
      → slot_index w.start_idx offs n < length w.clients
      → get_elem? w.clients (slot_index w.start_idx offs n) ≡ some s
      → visit vtables repr (port_at w s) ≡ progressed p
      → Serves k offs w p
          (after_turn (scan vtables repr n k (offs + 1)) (turn vtables repr n offs false w))
  unfolding turn turn_at after_visit after_turn
  serve_now k offs w s p within found progress = (
    record (store w idx p) { start_idx = (idx + 1) % n },
    ap (λ o. next (turn_at vtables repr w n idx false o)) found
        ∙ ap (λ v. next (after_visit w n idx false v)) progress,
    record {
      same_prop = refl;
      next_start = refl;
      seat = get_elem?-set_self w.clients idx _ within;
    },
  )
    where
      idx : ℕ
      idx = slot_index w.start_idx offs n

      next : Turn T → Turn T
      next = after_turn (scan vtables repr n k (offs + 1))

  -- A seat that has not been visited yet is visited with the same property after a client was passed over.
  pub same_port :
      (w : Worker T) (idx : ℕ) (x y : Seat) (q : Port T)
      → PassedOver (port_at w x) q
      → port_at (store w idx q) y ≡ port_at w y
  same_port w idx x y q passed = λ i. record {
    client = y.client;
    chan = y.chan;
    prop = passed.same_prop i;
    jobs = passed.same_jobs i;
  }

  serves :
      (m k offs j : ℕ) (w : Worker T) (s : Seat) (p : Port T)
      → offs + m ≡ j
      → j < n
      → length w.clients ≡ n
      → w.start_idx < n
      → PassesOver w offs j
      → get_elem? w.clients (slot_index w.start_idx j n) ≡ some s
      → visit vtables repr (port_at w s) ≡ progressed p
      → Serves k j w p (scan vtables repr n (turns m k) offs false w)
  unfolding scan turn turn_at after_visit after_turn
  serves zero k offs j w s p at within all start passes found progress =
      subst (λ i. Serves k i w p (scan vtables repr n (suc k) offs false w)) here
        (serve_now k offs w s p
          (omega (arith, all, slot_index-lt w.start_idx offs n start (omega arith)))
          (subst (λ i. get_elem? w.clients (slot_index w.start_idx i n) ≡ some s) (sym here) found)
          progress)
    where
      here : offs ≡ j
      here = omega arith
  serves (suc m) k offs j w s p at within all start passes found progress =
      let (x, at_x) =
        get_elem?-lt w.clients idx
          (omega (arith, all, slot_index-lt w.start_idx offs n start (omega arith))) in
      let (q, over) = passes offs x (omega arith) (omega arith) at_x in
      let passed = visit-skipped vtables repr (port_at w x) q over in
      let rest =
        serves m k (offs + 1) j (store w idx q) s p (omega arith) within
          (length-set w.clients idx _ ∙ all) start
          (λ i y from below at_y.
            let (q', v) = passes i y (omega arith) below (
              sym (
                get_elem?-set_other w.clients idx (slot_index w.start_idx i n) _
                  (slot_index-ne w.start_idx offs i n start (omega arith) (omega arith)))
              ∙ at_y) in
            (q', ap (visit vtables repr) (same_port w idx x y q passed) ∙ v))
          (get_elem?-set_other w.clients idx (slot_index w.start_idx j n) _
              (slot_index-ne w.start_idx offs j n start (omega arith) within)
            ∙ found)
          (ap (visit vtables repr) (same_port w idx x s q passed) ∙ progress) in
      (
        rest.0,
        ap (λ o. next (turn_at vtables repr w n idx false o)) at_x
            ∙ ap (λ v. next (after_visit w n idx false v)) over
            ∙ rest.1,
        rest.2,
      )
    where
      idx : ℕ
      idx = slot_index w.start_idx offs n

      next : Turn T → Turn T
      next = after_turn (scan vtables repr n (turns m k) (offs + 1))

  -- A round over clients in range serves first the first client, counted from `start_idx`, whose
  -- visit progresses, if the visits before it pass over their clients: it is visited with the
  -- property as the round found it, and is left as that visit left it, and the next turn counts
  -- from behind it.
  pub serves_first :
      (j k : ℕ) (w : Worker T) (s : Seat) (p : Port T)
      → j + k + 1 ≡ n
      → length w.clients ≡ n
      → w.start_idx < n
      → PassesOver w 0 j
      → get_elem? w.clients (slot_index w.start_idx j n) ≡ some s
      → visit vtables repr (port_at w s) ≡ progressed p
      → (w1 : Worker T) × (scan vtables repr n n 0 false w ≡ scan vtables repr n k (j + 1) true w1)
        × Served w1 (slot_index w.start_idx j n) p
  serves_first j k w s p total all start passes found progress =
      subst (λ t. Serves k j w p (scan vtables repr n t 0 false w)) (turns-eq j k ∙ total)
        (serves j k 0 j w s p (omega arith) (omega arith) all start passes found progress)
