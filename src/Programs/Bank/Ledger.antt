-- ===== src/Programs/Bank/Ledger.antt =====
-- src/examples/remote_complex.rs: what a list of transactions makes of a balance, in the arithmetic of the amounts,
-- which may round.
use trust_tee.Prelude.{
  ℕ, zero, suc, ◌≤◌, ◌≡◌, refl, ap₂, false, List, [], ◌∷◌, ◌++◌, some, get_elem?, ◌==◌,
  if◌then◌else◌, arith,
}
use trust_tee.Programs.Double.{Double, nought}
use trust_tee.Programs.Bank.{Transaction}

module _ {W : Type 0} (d : Double W) where
  -- The sum of the opening balances of the first `n` users, in the order of their ids.
  abbrev pub opened_total : (ℕ → W) → ℕ → W
  opened_total openings zero = nought d
  opened_total openings (suc n) = d.add (opened_total openings n) (openings (suc n))

  -- What a transaction does to the balance of the user `k`.
  abbrev pub effect : ℕ → Transaction W → W → W
  effect k t balance =
      let paid = if t.from == k then d.sub balance t.amount else balance in
      if t.to == k then d.add paid t.amount else paid

  abbrev pub replay : ℕ → List (Transaction W) → W → W
  replay k [] balance = balance
  replay k (t ∷ ts) balance = replay k ts (effect k t balance)

  pub replay-snoc :
      (k : ℕ) (ts : List (Transaction W)) (t : Transaction W) (balance : W)
      → replay k (ts ++ (t ∷ [])) balance ≡ effect k t (replay k ts balance)
  replay-snoc k [] t balance = refl
  replay-snoc k (u ∷ ts) t balance = replay-snoc k ts t (effect k u balance)

  pub replay_untouched :
      (k : ℕ) (ts : List (Transaction W)) (balance : W)
      → ((i : ℕ) (t : Transaction W)
          → get_elem? ts i ≡ some t
          → (t.from == k ≡ false) × (t.to == k ≡ false))
      → replay k ts balance ≡ balance
  replay_untouched k [] balance h = refl
  replay_untouched k (t ∷ ts) balance h =
      let (not_from, not_to) = h 0 t refl in
      rw (not_from, not_to) (replay_untouched k ts balance (λ i. h (suc i)))

  pub opened_total-eq :
      (o o' : ℕ → W) (n : ℕ) → ((k : ℕ) → k ≤ n → o k ≡ o' k) → opened_total o n ≡ opened_total o' n
  opened_total-eq o o' zero h = refl
  opened_total-eq o o' (suc n) h =
      ap₂ d.add (opened_total-eq o o' n (λ k below. h k (omega arith))) (h (suc n) (omega arith))
