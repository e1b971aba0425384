-- ===== src/System/Log/Places.antt =====
-- src/runtime/runtime.rs: the places of the clients, when one of them changes.
use native.Mathlib.Decide.{ℕ_discrete}
use trust_tee.Prelude.{
  ℕ, ◌≡◌, ◌≢◌, sym, ap, ◌∙◌, subst, inl, inr, List, ◌++◌, ◌∷◌, Option, none, some, get_elem?,
  get_elem?-below, get_elem?-set_if, set, ◌==◌, ==_self, ne→==, if◌then◌else◌,
}
use trust_tee.Memory.{Repr}
use trust_tee.Closures.{VTables}
use trust_tee.Runtime.Worker.{Seat, Worker}
use trust_tee.System.{seats}
use trust_tee.System.Own.{get_elem?-append, set-append}
use trust_tee.System.Log.{Log, calls_of, SeatAt}

pub calls_of_self :
    {T : Type 0} (i : ℕ) (g : T → T) (l : Log T) → calls_of i ((i, g) ∷ l) ≡ g ∷ calls_of i l
calls_of_self i g l = rw (==_self i)

pub calls_of-other :
    {T : Type 0} (k i : ℕ) (g : T → T) (l : Log T) → k ≢ i → calls_of i ((k, g) ∷ l) ≡ calls_of i l
calls_of-other k i g l ne = rw (ne→== k i ne)

-- The place of a client that the worker has taken up.
pub get_elem?-served :
    {T : Type 0} (w : Worker T) (idx : ℕ) (a v : Seat)
    → get_elem? w.clients idx ≡ some a
    → (j : ℕ)
    → get_elem? (set w.clients idx v ++ w.reg) j
      ≡ (if idx == j then some v else get_elem? (seats w) j)
get_elem?-served w idx a v found j =
    ap (λ l. get_elem? l j)
      (sym (set-append w.clients w.reg idx v (get_elem?-below w.clients idx a found)))
    ∙ get_elem?-set_if (seats w) idx j v a (get_elem?-append w.clients w.reg idx a found)

module _ {T : Type 0} (vtables : VTables T) (repr : Repr T) where
  SeatAt-calls :
      (posts log posts' log' : Log T) (i : ℕ) (o : Option Seat)
      → calls_of i posts' ≡ calls_of i posts
      → calls_of i log' ≡ calls_of i log
      → SeatAt vtables repr posts log i o
      → SeatAt vtables repr posts' log' i o
  SeatAt-calls posts log posts' log' i none p q (e, f) = (p ∙ e, q ∙ f)
  SeatAt-calls posts log posts' log' i (some a) p q (free, inl (answered, e)) =
      (free, inl (answered, p ∙ e ∙ sym q))
  SeatAt-calls posts log posts' log' i (some a) p q (free, inr (g, asked, holds, e)) =
      (free, inr (g, asked, holds, p ∙ e ∙ ap (λ l. g ∷ l) (sym q)))

  -- One place changes, and with it what is logged of its client.
  pub SeatAt-set :
      (posts log posts' log' : Log T) (old new : List Seat) (idx : ℕ) (v : Seat)
      → ((j : ℕ) → get_elem? new j ≡ (if idx == j then some v else get_elem? old j))
      → SeatAt vtables repr posts' log' idx (some v)
      → ((j : ℕ) → idx ≢ j → calls_of j posts' ≡ calls_of j posts)
      → ((j : ℕ) → idx ≢ j → calls_of j log' ≡ calls_of j log)
      → ((j : ℕ) → SeatAt vtables repr posts log j (get_elem? old j))
      → (j : ℕ) → SeatAt vtables repr posts' log' j (get_elem? new j)
  SeatAt-set posts log posts' log' old new idx v changed here p q at j = elim (ℕ_discrete idx j) [
    | yes same_place ↦
        subst (SeatAt vtables repr posts' log' j)
          (sym (
            changed j
            ∙ ap (λ b. if b then some v else get_elem? old j)
                (ap (λ x. x == j) same_place ∙ ==_self j)))
          (subst (λ k. SeatAt vtables repr posts' log' k (some v)) same_place here)
    | no ne ↦
        subst (SeatAt vtables repr posts' log' j)
          (sym (changed j ∙ ap (λ b. if b then some v else get_elem? old j) (ne→== idx j ne)))
          (SeatAt-calls posts log posts' log' j (get_elem? old j) (p j ne) (q j ne) (at j))
  ]
