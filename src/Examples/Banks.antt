-- ===== src/Examples/Banks.antt =====
-- The bank: a transfer by itself, and a request to a trustee that holds a bank.
use trust_tee.Prelude.{
  ℕ, ◌≡◌, refl, true, false, not, ◌==◌, if◌then◌else◌, same_self, [], ◌∷◌, arith,
}
use trust_tee.Memory.{unit_repr}
use trust_tee.Slots.{PropertyPtr, ChannelPair, ready, new_channel}
use trust_tee.Closures.{VTables}
use trust_tee.Runtime.Handles.{spawn, register, client_seat}
use trust_tee.Runtime.Worker.{Seat}
use trust_tee.Runtime.Records.Data.{left}
use trust_tee.Remote.Client.{Request}
use trust_tee.Remote.Post.{InSlot, post-fits, post-posted}
use trust_tee.Remote.Post
use trust_tee.System
use trust_tee.System.{System, of_turn, set_seat, Reach, polled, turned, used}
use trust_tee.System.Calls.{post-IsPost}
use trust_tee.System.Data.{ReachKeeps, data_invariant}
use trust_tee.Runtime.Worker.{turn, poll_registrations}
use trust_tee.Programs.Bank.{
  User, Transaction, BankState, Transferred, done, user_not_found, insufficient_balance, new,
  create_user,
}
use trust_tee.Programs.Bank.Transfers.{IsBank, new-IsBank, create_user-IsBank}
use trust_tee.Programs.Bank.Served.{Build, bank_vtables, bank_vtables-Respects, served-IsBank}
use trust_tee.Examples.Codes.{Code, number, both, through, list, repr_of, bincode_of}
use trust_tee.Examples.Integers.{ℤ, pos, int_double, integer}

abbrev Bank : Type 0
Bank = BankState ℤ

-- Alice has the id 1, Bob the id 2.
abbrev opened : Bank
opened = left (
    create_user int_double true (66 ∷ []) (pos 500)
      (left (create_user int_double true (65 ∷ []) (pos 1000) (new int_double))))

user : Code (User ℤ)
user =
    through (both (both number (list number)) (both integer number))
      (λ u. ((u.id, u.name), (u.balance, u.last_login)))
      (λ x. record { id = x.0.0; name = x.0.1; balance = x.1.0; last_login = x.1.1 }) (λ u. refl)

transaction : Code (Transaction ℤ)
transaction =
    through (both (both number number) (both integer number))
      (λ t. ((t.from, t.to), (t.amount, t.timestamp)))
      (λ x. record { from = x.0.0; to = x.0.1; amount = x.1.0; timestamp = x.1.1 }) (λ t. refl)

bank : Code Bank
bank =
    through (both (both (list (both number user)) (list transaction)) (both number integer))
      (λ b. ((b.users, b.transactions), (b.next_user_id, b.total_balance)))
      (λ x. record {
        users = x.0.0;
        transactions = x.0.1;
        next_user_id = x.1.0;
        total_balance = x.1.1;
      })
      (λ b. refl)

abbrev to_parts : Transferred ℤ → ℕ × (ℕ × ℤ)
to_parts done = (0, (0, pos 0))
to_parts (user_not_found k) = (1, (k, pos 0))
to_parts (insufficient_balance balance) = (2, (0, balance))

abbrev of_parts : ℕ × (ℕ × ℤ) → Transferred ℤ
of_parts (tag, (k, balance)) =
    if tag == 0 then done else if tag == 1 then user_not_found k else insufficient_balance balance

same_parts : (r : Transferred ℤ) → of_parts (to_parts r) ≡ r
same_parts done = refl
same_parts (user_not_found k) = refl
same_parts (insufficient_balance balance) = refl

transferred : Code (Transferred ℤ)
transferred = through (both number (both number integer)) to_parts of_parts same_parts

order : Code (ℕ × ℕ × ℤ)
order =
    through (both number (both number integer)) (λ x. (x.0, (x.1, x.2))) (λ x. (x.0, x.1.0, x.1.1))
      (λ x. refl)

abbrev build : Build ℤ
build = record {
  id_repr = repr_of number;
  transferred_repr = repr_of transferred;
  name = bincode_of (list number);
  named_balance = bincode_of (both (list number) integer);
  order = bincode_of order;
  alice_at = 16;
  bob_at = 32;
  charlie_at = 48;
  concurrent_at = 64;
}

-- A thread asks for 300 to be transferred from the user 1 to the user 2.
abbrev ask : Request (Unit {0})
ask = record {
  property = PropertyPtr.call_mut_args_out_ptr;
  repr = unit_repr;
  vtable = 80;
  value = tt;
  args = order.to (1, 2, pos 300) ∷ [];
  repeat = 1;
}

abbrev channel : ChannelPair
channel = record { base = 4096; request_flags = 0; response_flags = 0; bytes = λ a. 0 }

in_slot : InSlot ask channel
in_slot = post-fits ask channel (omega arith) (omega arith)

abbrev asked : ChannelPair
asked = Post.posted ask channel in_slot

abbrev client : Seat
client = record {
  client = record { chan = 4096; pending_launch = false; launch_req_ready = false };
  chan = channel;
}

abbrev holding : Bank → System Bank
holding b = record {
  worker = record {
    reg = client ∷ [];
    clients = [];
    prop = b;
    jobs = [];
    start_idx = 0;
    idle_rounds = 0;
    loop_counter = 0;
  };
  running = true;
}

abbrev vtables : VTables Bank
vtables = bank_vtables int_double build

-- A thread of the trustee opens two accounts; then the request is posted, and the worker takes the client
-- up and serves it.
opened_by_trustee : Bank → Bank
opened_by_trustee b = left (
    create_user int_double true (66 ∷ []) (pos 500)
      (left (create_user int_double true (65 ∷ []) (pos 1000) b)))

holding-Reach : Reach vtables (repr_of bank) (new int_double) 4096 (holding (new int_double))
unfolding spawn register client_seat new_channel
holding-Reach = System.Reach.spawned

abbrev served : System Bank
served = of_turn (
    turn vtables (repr_of bank) 1 0 false (
      poll_registrations (
        set_seat (holding (opened_by_trustee (new int_double))).worker 0
          (record client { chan = asked }))))

served-Reach : Reach vtables (repr_of bank) (new int_double) 4096 served
served-Reach =
    System.Reach.step
      (System.Reach.step
        (System.Reach.post 0 (System.Reach.step holding-Reach (used opened_by_trustee)) (
          System.Post.posted client asked refl (same_self (ready 0)) (
            post-IsPost ask channel asked (not (ready channel.response_flags))
              (post-posted ask channel in_slot))))
        (polled refl))
      (turned 1 0 false refl)

opened_by_trustee-IsBank :
    (b : Bank) → IsBank int_double b → IsBank int_double (opened_by_trustee b)
unfolding opened_by_trustee
opened_by_trustee-IsBank b is =
    create_user-IsBank int_double (66 ∷ []) (pos 500) _
      (create_user-IsBank int_double (65 ∷ []) (pos 1000) b is)

uses : ReachKeeps vtables (repr_of bank) (IsBank int_double) served-Reach
unfolding served-Reach holding-Reach
uses = (((tt, opened_by_trustee-IsBank), tt), tt)

served-IsBank_example : IsBank int_double served.worker.prop
served-IsBank_example = served-IsBank int_double build (repr_of bank) served-Reach uses

data_invariant_example : IsBank int_double served.worker.prop
data_invariant_example =
    data_invariant vtables (repr_of bank) (IsBank int_double)
      (bank_vtables-Respects int_double build) served-Reach uses (new-IsBank int_double)
