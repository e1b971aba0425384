-- ===== src/Programs/Bank/Served.antt =====
-- src/examples/remote_complex.rs: the closures that `main` gives to `apply_with`, and the bank in the trustee.
use trust_tee.Prelude.{ℕ, Bool, true, false, List, Option, none, some, ◌==◌, if◌then◌else◌}
use trust_tee.Memory.{Memory, Repr, unit_repr}
use trust_tee.Bincode.{Bincode}
use trust_tee.Serialization.{ErasedVTable, vtable_gen}
use trust_tee.Closures.{Ran, returned, panicked, VTables}
use trust_tee.Runtime.Records.Data.{left, Respects}
use trust_tee.Remote.Client.{write_result, write_result_with}
use trust_tee.System.{System, Reach}
use trust_tee.System.Data.{ReachKeeps, data_invariant}
use trust_tee.Programs.Double.{Double}
use trust_tee.Programs.Bank.{BankState, Transferred, new, create_user, transfer}
use trust_tee.Programs.Bank.Transfers.{IsBank, new-IsBank, create_user-IsBank, transfer_lem}

-- The closure behind a vtable of `apply_with` keeps `P`, also if its argument cannot be read.
called_with-keeps :
    {V T R : Type 0} (P : T → Type 0) (bincode : Bincode V) (repr : Repr R)
    (run : Unit {0} → T → V → Ran T R)
    → ((t : T) (v : V) → P t → P (left (run tt t v)))
    → (env : ℕ) (m : Memory) (t : T) (args : List ℕ) → P t
    → P (
        left (
          (vtable_gen unit_repr (write_result_with bincode repr run)).call_once_in_place env m
            (t, args)))
unfolding vtable_gen write_result_with
called_with-keeps {V = V} {T = T} {R = R} P bincode repr run keeps env m t args p =
    go (bincode.deserialize args)
  where
    written : (ran : Ran T R) → P (left ran) → P (left (write_result repr ran))
    written (returned t' r) h = h
    written (panicked t') h = h

    go :
        (o : Option V)
        → P (
            left (
              let r : Ran T (List ℕ) = elim o [
                | none ↦ panicked t
                | some v ↦ write_result repr (run tt t v)
              ] in
              r))
    go none = p
    go (some v) = written (run tt t v) (keeps t v p)

-- What the compiler and the crates make of the types: representations, serializers, and where the vtables are.
pub record Build (W : Type 0) : Type 0 where
  pub id_repr : Repr ℕ
  pub transferred_repr : Repr (Transferred W)
  pub name : Bincode (List ℕ)
  pub named_balance : Bincode (List ℕ × W)
  pub order : Bincode (ℕ × ℕ × W)
  pub alice_at : ℕ
  pub bob_at : ℕ
  pub charlie_at : ℕ
  pub concurrent_at : ℕ

module _ {W : Type 0} (d : Double W) (build : Build W) where
  -- `|state, name| state.create_user(name, balance)`, for a constant balance.
  abbrev pub create_with : W → Unit {0} → BankState W → List ℕ → Ran (BankState W) ℕ
  create_with balance f b name = create_user d true name balance b

  -- `|state, (name, balance)| state.create_user(name, balance)`
  abbrev pub create_named : Unit {0} → BankState W → List ℕ × W → Ran (BankState W) ℕ
  create_named f b (name, balance) = create_user d true name balance b

  -- `|state, (from, to, amount)| state.transfer(from, to, amount)`
  abbrev pub transfer_order : Unit {0} → BankState W → ℕ × ℕ × W → Ran (BankState W) (Transferred W)
  transfer_order f b (from, to, amount) =
      returned (transfer d from to amount b).1 (transfer d from to amount b).0

  abbrev create_vtable : W → ErasedVTable (BankState W × List ℕ) (Ran (BankState W) (List ℕ))
  create_vtable balance =
      vtable_gen unit_repr (write_result_with build.name build.id_repr (create_with balance))

  -- The vtables of the closures of `main`; it gives none to the operations without an argument.
  unfoldable pub vtable_at : ℕ → ErasedVTable (BankState W × List ℕ) (Ran (BankState W) (List ℕ))
  vtable_at a =
      if a == build.alice_at
      then create_vtable (d.of_ℕ 1000)
      else if a == build.bob_at
      then create_vtable (d.of_ℕ 500)
      else if a == build.charlie_at
      then create_vtable (d.of_ℕ 200)
      else if a == build.concurrent_at
      then vtable_gen unit_repr (write_result_with build.named_balance build.id_repr create_named)
      else vtable_gen unit_repr
          (write_result_with build.order build.transferred_repr transfer_order)

  abbrev pub bank_vtables : VTables (BankState W)
  bank_vtables = record {
    call_mut = λ a. vtable_gen unit_repr (λ f b. panicked b);
    call_mut_out = λ a. vtable_gen unit_repr (λ f b. panicked b);
    call_mut_args_out = vtable_at;
  }

  vtable_at-IsBank :
      (a env : ℕ) (m : Memory) (b : BankState W) (args : List ℕ)
      → IsBank d b
      → IsBank d (left ((vtable_at a).call_once_in_place env m (b, args)))
  unfolding vtable_at
  vtable_at-IsBank a env m b args is =
      go (a == build.alice_at) (a == build.bob_at) (a == build.charlie_at)
        (a == build.concurrent_at)
    where
      created :
          (balance : W)
          → IsBank d (left ((create_vtable balance).call_once_in_place env m (b, args)))
      created balance =
          called_with-keeps (IsBank d) build.name build.id_repr (create_with balance)
            (λ b' name is'. create_user-IsBank d name balance b' is') env m b args is

      go :
          (alice bob charlie concurrent : Bool)
          → (let v : ErasedVTable (BankState W × List ℕ) (Ran (BankState W) (List ℕ)) =
                if alice
                then create_vtable (d.of_ℕ 1000)
                else if bob
                then create_vtable (d.of_ℕ 500)
                else if charlie
                then create_vtable (d.of_ℕ 200)
                else if concurrent
                then vtable_gen unit_repr
                    (write_result_with build.named_balance build.id_repr create_named)
                else vtable_gen unit_repr
                    (write_result_with build.order build.transferred_repr transfer_order) in
              IsBank d (left (v.call_once_in_place env m (b, args))))
      go true bob charlie concurrent = created (d.of_ℕ 1000)
      go false true charlie concurrent = created (d.of_ℕ 500)
      go false false true concurrent = created (d.of_ℕ 200)
      go false false false true =
          called_with-keeps (IsBank d) build.named_balance build.id_repr create_named
            (λ b' v is'. create_user-IsBank d v.0 v.1 b' is') env m b args is
      go false false false false =
          called_with-keeps (IsBank d) build.order build.transferred_repr transfer_order
            (λ b' v is'. (transfer_lem d v.0 v.1 v.2 b' is').0) env m b args is

  pub bank_vtables-Respects : Respects bank_vtables (IsBank d)
  unfolding vtable_gen
  bank_vtables-Respects = record {
    call_mut = λ a env m b is. is;
    call_mut_out = λ a env m b is. is;
    call_mut_args_out = λ a env m b args is. vtable_at-IsBank a env m b args is;
  }

  -- The bank that `main` entrusts is consistent in every state that is reached, whatever clients register and post
  -- on its closures, with whatever bytes for arguments, and in whatever order the worker runs them: the ids
  -- are those from one to the last one given, transactions are numbered in order, between users of the bank,
  -- and from opening balances that add up to the total each balance is what the transactions make of it, in
  -- order, in the arithmetic of the amounts, of which nothing is assumed; in a build with overflow checks, and
  -- provided that threads on the trustee keep the bank consistent too.
  pub served-IsBank :
      {base : ℕ} {s : System (BankState W)} (repr : Repr (BankState W))
      → (r : Reach bank_vtables repr (new d) base s) → ReachKeeps bank_vtables repr (IsBank d) r
      → IsBank d s.worker.prop
  served-IsBank repr r uses =
      data_invariant bank_vtables repr (IsBank d) bank_vtables-Respects r uses (new-IsBank d)
