-- ===== src/Examples/Requests.antt =====
-- A client that asks for nothing, a worker over it, and clients that have posted a request.
use trust_tee.Prelude.{ℕ, ◌+◌, ◌≡◌, refl, Bool, true, not, [], ◌∷◌, arith}
use trust_tee.Memory.{unit_repr}
use trust_tee.Serialization.{vtable_gen, decode_and_call}
use trust_tee.Closures.{returned, VTables}
use trust_tee.Runtime.Records.{respond}
use trust_tee.Runtime.Visit.Serve.{Requested, answer, visit-call_mut_out}
use trust_tee.Slots.Records.{InRange, read_record-write_record}
use trust_tee.Slots.{
  PropertyPtr, RequestRecordHeader, ChannelPair, ready, count, write_record, next_boundary_offset,
}
use trust_tee.Runtime.Visit.{Port, progressed, pending_check, visit}
use trust_tee.Runtime.Worker.{Seat, Worker}
use trust_tee.Examples.Data.{bool_bytes, bool_repr, client_pair, channel}

abbrev pub seat : Seat
seat = record { client = client_pair; chan = channel }

abbrev pub worker : Worker Bool
worker = record {
  reg = [];
  clients = seat ∷ [];
  prop = true;
  jobs = [];
  start_idx = 0;
  idle_rounds = 3;
  loop_counter = 6;
}

-- A closure without captures that flips the property.
abbrev pub flip_vtables : VTables Bool
flip_vtables = record {
  call_mut = λ a. vtable_gen unit_repr (λ u t. returned (not t) tt);
  call_mut_out = λ a. vtable_gen unit_repr (λ u t. returned (not t) (bool_bytes t));
  call_mut_args_out = λ a. vtable_gen unit_repr (λ u x. returned (not x.0) (bool_bytes x.0));
}

abbrev pub flip_header : RequestRecordHeader
flip_header = record {
  closure = record { data_ptr = 1; vtable = 512 };
  property_ptr = PropertyPtr.call_mut_out_ptr;
  captured_len = 0;
  args_len = 0;
  args_offset = 48;
  repeat_count = 1;
}

pub flip_header-InRange : InRange flip_header
flip_header-InRange = record {
  env = omega arith;
  vtable = omega arith;
  captured = omega arith;
  args = omega arith;
  offset = omega arith;
  repeat = omega arith;
}

-- The request word has the ready bit and the count one.
abbrev pub posted_at : ℕ → ChannelPair
posted_at base = record {
  base = base;
  request_flags = 3;
  response_flags = 0;
  bytes = write_record (base + 8) flip_header (λ a. 0);
}

abbrev pub posted_port : ℕ → Bool → Port Bool
posted_port base t = record { client = client_pair; chan = posted_at base; prop = t; jobs = [] }

abbrev pub posted_seat : ℕ → Seat
posted_seat base = record { client = client_pair; chan = posted_at base }

abbrev pub answered_port : ℕ → Bool → Port Bool
answered_port base t = answer (posted_port base t) (not t) (respond (posted_at base) (bool_bytes t))

pub posted_port-Requested : (base : ℕ) (t : Bool) → Requested (posted_port base t) flip_header
unfolding ready count next_boundary_offset pending_check
posted_port-Requested base t = record {
  settled = refl;
  unanswered = refl;
  one = refl;
  stored = read_record-write_record (base + 8) flip_header (λ a. 0) flip_header-InRange;
}

pub visited :
    (base : ℕ) (t : Bool)
    → visit flip_vtables bool_repr (posted_port base t) ≡ progressed (answered_port base t)
unfolding decode_and_call vtable_gen
visited base t =
    visit-call_mut_out flip_vtables bool_repr (posted_port base t) flip_header
      (posted_port-Requested base t) refl refl
