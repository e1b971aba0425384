-- ===== src/Runtime/Worker/Unmoved.antt =====
-- src/runtime/runtime.rs: turns of the worker that move nothing.
use trust_tee.Prelude.{
  ℕ, zero, suc, ◌+◌, ◌<◌, ◌≡◌, refl, sym, ap, ◌∙◌, subst, inl, inr, true, false, lt_suc-cases,
  get_elem?-set, get_elem?-lt, Option, none, some, length, length-set, get_elem?, arith,
}
use trust_tee.Memory.{Repr}
use trust_tee.Closures.{VTables}
use trust_tee.Runtime.Visit.{Port, Visit, skipped, progressed, exited, died, undefined, visit}
use trust_tee.Runtime.Visit.Pending.{Rests, PassedOver, visit-skipped}
use trust_tee.Runtime.Worker.{
  Seat, Worker, Turn, goes_on, slot_index, port_at, store, after_visit, turn_at, turn, after_turn,
  scan,
}
use trust_tee.Runtime.Worker.Indices.{slot_index-lt}

unfoldable pub worker_of : {T : Type 0} → Worker T → Turn T → Worker T
worker_of d (goes_on b w) = w
worker_of d _ = d

-- Of the clients that the first `m` turns of a round visit, none asks for anything.
abbrev pub Quiet : {T : Type 0} → ℕ → ℕ → Worker T → Type 0
Quiet n m w =
    (j : ℕ) (s : Seat)
    → j < m
    → get_elem? w.clients (slot_index w.start_idx j n) ≡ some s
    → Rests s.client s.chan

-- A round, or the rest of it, from `w` to `w'` in which nothing progressed.
pub record Unmoved {T : Type 0} (n : ℕ) (w w' : Worker T) : Type 0 where
  pub all : length w'.clients ≡ n
  pub same_start : w'.start_idx ≡ w.start_idx
  pub same_prop : w'.prop ≡ w.prop
  pub same_jobs : w'.jobs ≡ w.jobs
  pub quiet : Quiet n n w'

module _ {T : Type 0} (vtables : VTables T) (repr : Repr T) where
  -- Once something has progressed, the round says so.
  scan-progressed :
      (n k offs : ℕ) (w w' : Worker T) → scan vtables repr n k offs true w ≡ goes_on false w' → ⊥
  unfolding scan turn turn_at after_visit worker_of after_turn
  scan-progressed n zero offs w w' e = cc e
  scan-progressed n (suc k) offs w w' e =
      go (λ w1. scan-progressed n k (offs + 1) w1 w') (get_elem? w.clients idx) e
    where
      idx : ℕ
      idx = slot_index w.start_idx offs n

      on_visit :
          ((w1 : Worker T) → scan vtables repr n k (offs + 1) true w1 ≡ goes_on false w' → ⊥)
          → (v : Visit T)
          → after_turn (scan vtables repr n k (offs + 1)) (after_visit w n idx true v)
            ≡ goes_on false w'
          → ⊥
      on_visit rest (skipped p) h = rest _ h
      on_visit rest (progressed p) h = rest _ h
      on_visit rest (exited p) h = cc h
      on_visit rest (died p) h = cc h
      on_visit rest (undefined p) h = cc h

      go :
          ((w1 : Worker T) → scan vtables repr n k (offs + 1) true w1 ≡ goes_on false w' → ⊥)
          → (o : Option Seat)
          → after_turn (scan vtables repr n k (offs + 1)) (turn_at vtables repr w n idx true o)
            ≡ goes_on false w'
          → ⊥
      go rest none h = cc h
      go rest (some s) h = on_visit rest (visit vtables repr (port_at w s)) h

  store-Quiet :
      (n offs : ℕ) (w : Worker T) (s : Seat) (p : Port T)
      → Quiet n offs w
      → PassedOver (port_at w s) p
      → Quiet n (offs + 1) (store w (slot_index w.start_idx offs n) p)
  store-Quiet n offs w s p quiet passed j x below found =
      elim (get_elem?-set w.clients (slot_index w.start_idx offs n) (slot_index w.start_idx j n) _ x
        found) [
          | inl new ↦ subst (λ (y : Seat). Rests y.client y.chan) (sym new.1) passed.rests
          | inr old ↦ elim (lt_suc-cases j offs below) [
            | inl earlier ↦ quiet j x earlier old.1
            | inr this ↦ elim (old.0 (ap (λ m. slot_index w.start_idx m n) (sym this))) [ ]
          ]
        ]

  -- A turn that passes over its client moves nothing, if the rest of the round does not.
  passed-Unmoved :
      (n offs : ℕ) (w w' : Worker T) (s : Seat) (p : Port T)
      → PassedOver (port_at w s) p
      → Unmoved n (store w (slot_index w.start_idx offs n) p) w'
      → Unmoved n w w'
  passed-Unmoved n offs w w' s p passed u = record {
    all = u.all;
    same_start = u.same_start;
    same_prop = u.same_prop ∙ passed.same_prop;
    same_jobs = u.same_jobs ∙ passed.same_jobs;
    quiet = u.quiet;
  }

  -- What is shown of the rest of the round, behind the turn `offs`.
  abbrev Rest : ℕ → ℕ → ℕ → Worker T → Type 0
  Rest n k offs w' =
      (w1 : Worker T)
      → length w1.clients ≡ n
      → w1.start_idx < n
      → Quiet n (offs + 1) w1
      → scan vtables repr n k (offs + 1) false w1 ≡ goes_on false w'
      → Unmoved n w1 w'

  visit-Unmoved :
      (n k offs : ℕ) (w w' : Worker T) (s : Seat) (v : Visit T)
      → Rest n k offs w'
      → length w.clients ≡ n
      → w.start_idx < n
      → Quiet n offs w
      → visit vtables repr (port_at w s) ≡ v
      → after_turn
          (scan vtables repr n k (offs + 1))
          (after_visit w n (slot_index w.start_idx offs n) false v)
        ≡ goes_on false w'
      → Unmoved n w w'
  unfolding after_visit after_turn
  visit-Unmoved n k offs w w' s (skipped p) rest all start quiet at h =
      let passed = visit-skipped vtables repr (port_at w s) p at in
      passed-Unmoved n offs w w' s p passed (
        rest _ (length-set w.clients (slot_index w.start_idx offs n) _ ∙ all) start
          (store-Quiet n offs w s p quiet passed) h)
  visit-Unmoved n k offs w w' s (progressed p) rest all start quiet at h =
      elim (scan-progressed n k (offs + 1) _ w' h) [ ]
  visit-Unmoved n k offs w w' s (exited p) rest all start quiet at h = cc h
  visit-Unmoved n k offs w w' s (died p) rest all start quiet at h = cc h
  visit-Unmoved n k offs w w' s (undefined p) rest all start quiet at h = cc h

  pub scan-Quiet :
      (n k offs : ℕ) (w w' : Worker T)
      → offs + k ≡ n
      → length w.clients ≡ n
      → w.start_idx < n
      → Quiet n offs w
      → scan vtables repr n k offs false w ≡ goes_on false w'
      → Unmoved n w w'
  unfolding scan turn turn_at worker_of after_turn
  scan-Quiet n zero offs w w' total all start quiet e =
      subst (Unmoved n w) (ap (worker_of w) e) (record {
        all = all;
        same_start = refl;
        same_prop = refl;
        same_jobs = refl;
        quiet = λ j s below. quiet j s (omega arith);
      })
  scan-Quiet n (suc k) offs w w' total all start quiet e =
      let (s, found) =
        get_elem?-lt w.clients (slot_index w.start_idx offs n)
          (omega (arith, slot_index-lt w.start_idx offs n start (omega arith))) in
      visit-Unmoved n k offs w w' s _
        (λ w1 a b q. scan-Quiet n k (offs + 1) w1 w' (omega arith) a b q) all start quiet refl
        (ap
            (λ o.
              after_turn (scan vtables repr n k (offs + 1))
                (turn_at vtables repr w n (slot_index w.start_idx offs n) false o))
            (sym found)
          ∙ e)
