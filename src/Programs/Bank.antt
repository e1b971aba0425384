-- ===== src/Programs/Bank.antt =====
-- src/examples/remote_complex.rs: a bank held by a remote trust, with users created and amounts transferred by
-- clients on several threads.
pub mod Ledger
pub mod Transfers
pub mod Served
use trust_tee.Prelude.{
  ℕ, ◌+◌, ◌^◌, ◌%◌, Bool, true, false, not, List, [], ◌∷◌, ◌++◌, Option, none, some, length, ltb,
  ◌==◌, ◌&&◌, if◌then◌else◌,
}
use trust_tee.Closures.{Ran, returned, panicked}
use trust_tee.Programs.HashMap.{HashMap, get, contains_key, insert, modify}
use trust_tee.Programs.Double.{Double, nought}

pub record User (W : Type 0) : Type 0 where
  pub id : ℕ
  pub name : List ℕ
  pub balance : W
  pub last_login : ℕ

pub record Transaction (W : Type 0) : Type 0 where
  pub from : ℕ
  pub to : ℕ
  pub amount : W
  pub timestamp : ℕ

pub record BankState (W : Type 0) : Type 0 where
  pub users : HashMap (User W)
  pub transactions : List (Transaction W)
  pub next_user_id : ℕ
  pub total_balance : W

-- The messages of the errors are not formatted.
pub data Transferred (W : Type 0) : Type 0 where
  done : Transferred W
  user_not_found : ℕ → Transferred W
  insufficient_balance : W → Transferred W

module _ {W : Type 0} (d : Double W) where
  unfoldable pub new : BankState W
  new = record { users = []; transactions = []; next_user_id = 1; total_balance = nought d }

  -- With overflow checks, as in a development build, the addition of the next id panics before anything
  -- has changed.
  unfoldable pub create_user : Bool → List ℕ → W → BankState W → Ran (BankState W) ℕ
  create_user overflow_checks name initial_balance b =
      let user_id = b.next_user_id in
      if overflow_checks && not (ltb (user_id + 1) (2 ^ 64))
      then panicked b
      else returned
          (record b {
            next_user_id = (user_id + 1) % 2 ^ 64;
            total_balance = d.add b.total_balance initial_balance;
            users =
                insert user_id
                  (record { id = user_id; name = name; balance = initial_balance; last_login = 0 })
                  b.users;
          })
          user_id

  abbrev pub debit : W → User W → User W
  debit amount u = record u { balance = d.sub u.balance amount }

  abbrev pub credit : W → User W → User W
  credit amount u = record u { balance = d.add u.balance amount }

  -- The balance of a user who is there and has less than the amount.
  unfoldable pub shortfall : W → Option (User W) → Option W
  shortfall amount none = none
  shortfall amount (some u) = if d.less u.balance amount then some u.balance else none

  unfoldable pub move_funds : ℕ → ℕ → W → BankState W → BankState W
  move_funds from to amount b = record b {
    users = modify to (credit amount) (modify from (debit amount) b.users);
    transactions =
        b.transactions
        ++ (record { from = from; to = to; amount = amount; timestamp = length b.transactions }
            ∷ []);
  }

  -- The result, and the bank.
  unfoldable pub transfer : ℕ → ℕ → W → BankState W → Transferred W × BankState W
  unfolding shortfall move_funds
  transfer from to amount b =
      if not (contains_key from b.users)
      then (user_not_found from, b)
      else if not (contains_key to b.users)
      then (user_not_found to, b)
      else elim (shortfall amount (get from b.users)) [
        | some balance ↦ (insufficient_balance balance, b)
        | none ↦ (done, move_funds from to amount b)
      ]
