-- ===== src/System/Log/Counts.antt =====
-- Logs with the same calls of each client.
use trust_tee.Prelude.{
  ℕ, zero, suc, ◌+◌, ◌≤◌, ◌≡◌, refl, sym, ap, ◌∙◌, subst, inl, inr, Bool-cases, List, [], ◌∷◌, ◌==◌,
  ltb, if◌then◌else◌, arith,
}
use trust_tee.System.Log.{Log, calls_of}
use trust_tee.System.Log.Places.{calls_of_self}

-- The sum of the weights of calls, and of a log.
abbrev pub weight : {T : Type 0} → ((T → T) → ℕ) → List (T → T) → ℕ
weight v [] = 0
weight v (g ∷ gs) = v g + weight v gs

abbrev pub log_weight : {T : Type 0} → ((T → T) → ℕ) → Log T → ℕ
log_weight v [] = 0
log_weight v ((k, g) ∷ l) = v g + log_weight v l

module _ {T : Type 0} (v : (T → T) → ℕ) where
  -- That of the clients below `n`.
  weight_below : ℕ → Log T → ℕ
  weight_below zero l = 0
  weight_below (suc n) l = weight v (calls_of n l) + weight_below n l

  weight_below-cons :
      (n k : ℕ) (g : T → T) (l : Log T)
      → weight_below n ((k, g) ∷ l) ≡ weight_below n l + (if ltb k n then v g else 0)
  unfolding weight_below
  weight_below-cons zero k g l = ground arith
  weight_below-cons (suc n) k g l = ground (arith, weight_below-cons n k g l)

  weight_below-nil : (n : ℕ) → weight_below n [] ≡ 0
  unfolding weight_below
  weight_below-nil zero = refl
  weight_below-nil (suc n) = omega (arith, weight_below-nil n)

  -- Above the numbers of all clients in a log.
  top : Log T → ℕ
  top [] = 0
  top ((k, g) ∷ l) = suc k + top l

  weight_below-top : (n : ℕ) (l : Log T) → top l ≤ n → weight_below n l ≡ log_weight v l
  unfolding top
  weight_below-top n [] h = weight_below-nil n
  weight_below-top n ((k, g) ∷ l) h =
      ground (arith, weight_below-cons n k g l, weight_below-top n l)

  weight_below-eq :
      (n : ℕ) (l l' : Log T)
      → ((i : ℕ) → calls_of i l ≡ calls_of i l')
      → weight_below n l ≡ weight_below n l'
  unfolding weight_below
  weight_below-eq zero l l' h = refl
  weight_below-eq (suc n) l l' h = omega (arith, ap (weight v) (h n), weight_below-eq n l l' h)

  -- Logs with the same calls of each client have the same weight.
  pub log_weight-eq :
      (l l' : Log T) → ((i : ℕ) → calls_of i l ≡ calls_of i l') → log_weight v l ≡ log_weight v l'
  log_weight-eq l l' h =
      sym (weight_below-top (top l + top l') l (omega arith))
      ∙ weight_below-eq (top l + top l') l l' h
      ∙ weight_below-top (top l + top l') l' (omega arith)

-- Of every call of a list, and then of all clients in a log.
abbrev pub All : {T : Type 0} → ((T → T) → Type 0) → List (T → T) → Type 0
All P [] = Unit {0}
All P (g ∷ gs) = P g × All P gs

pub All-tail :
    {T : Type 0} (P : (T → T) → Type 0) (g : T → T) (k i : ℕ) (l : Log T)
    → All P (calls_of i ((k, g) ∷ l))
    → All P (calls_of i l)
All-tail P g k i l h = elim (Bool-cases (k == i)) [
  | inl mine ↦ (subst (λ b. All P (if b then g ∷ calls_of i l else calls_of i l)) mine h).1
  | inr other ↦ subst (λ b. All P (if b then g ∷ calls_of i l else calls_of i l)) other h
]

pub All-head :
    {T : Type 0} (P : (T → T) → Type 0) (g : T → T) (k : ℕ) (l : Log T)
    → All P (calls_of k ((k, g) ∷ l))
    → P g
All-head P g k l h = (subst (All P) (calls_of_self k g l) h).0
