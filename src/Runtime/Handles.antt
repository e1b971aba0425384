-- ===== src/Runtime/Handles.antt =====
-- src/runtime/runtime.rs and src/trust/remote.rs: how handles come about and end. A runtime shares its queue
-- of registrations with the worker; a channel stands at the address that the allocator gives.
pub mod Ends
pub mod Owners
pub mod Start
use trust_tee.Prelude.{
  ℕ, ◌+◌, Bool, true, false, not, Option, none, List, [], ◌∷◌, ◌++◌, if◌then◌else◌,
}
use trust_tee.Util.Affinity.Pinning.{PinConfig}
use trust_tee.Slots.{
  PropertyPtr, RequestRecordHeader, ChannelPair, header_bytes, record_size, record_align,
  pack_ready_count, ready, next_boundary_offset, write_record, new_channel,
}
use trust_tee.Runtime.Records.{ClientPair}
use trust_tee.Runtime.Worker.{Seat, Worker}

-- What the handles of one trustee share: the queue of registrations, and what the worker publishes.
pub record Registrar : Type 0 where
  pub reg : List Seat
  pub trustee_id : ℕ
  pub trustee_prop : Bool

-- `_worker` and `_owner` are set in the runtime and in the handles that keep it alive.
pub record Runtime : Type 0 where
  pub registrar : Registrar
  pub worker : Bool

pub record Handle : Type 0 where
  pub chan : ℕ
  pub owner : Bool

-- `ClientPair`, on the channel at `base`.
unfoldable pub client_seat : ChannelPair → Seat
client_seat c = record {
  client = record { chan = c.base; pending_launch = false; launch_req_ready = false };
  chan = c;
}

unfoldable pub register : ChannelPair → Registrar → Registrar
unfolding client_seat
register c r = record r { reg = r.reg ++ (client_seat c ∷ []) }

-- The worker before its loop, and the runtime with its first handle; the burst and the configuration for
-- pinning are not used.
unfoldable pub spawn_with_pin :
    {T : Type 0} → T → ℕ → Option PinConfig → ℕ → Worker T × Runtime × Handle
unfolding register
spawn_with_pin value burst pin base =
    let r =
      register (new_channel base) (record { reg = []; trustee_id = 0; trustee_prop = false }) in
    (
      record {
        reg = r.reg;
        clients = [];
        prop = value;
        jobs = [];
        start_idx = 0;
        idle_rounds = 0;
        loop_counter = 0;
      },
      record { registrar = r; worker = true },
      record { chan = base; owner = true },
    )

unfoldable pub spawn : {T : Type 0} → T → ℕ → Worker T × Runtime × Handle
unfolding spawn_with_pin
spawn value base = spawn_with_pin value 64 none base

-- `Clone` of a runtime: the same queue, without the worker, so that its drop asks for nothing.
unfoldable pub clone_runtime : Runtime → Runtime
clone_runtime rt = record rt { worker = false }

-- `Runtime::entrust`
unfoldable pub entrust : ℕ → Registrar → Registrar × Handle
unfolding register
entrust base r = (register (new_channel base) r, record { chan = base; owner = false })

-- `Clone` of a handle: a channel of its own, and the same owner.
unfoldable pub clone : Handle → ℕ → Registrar → Registrar × Handle
unfolding register
clone h base r = (register (new_channel base) r, record { chan = base; owner = h.owner })

-- `Clone` of a `Trust<Remote<T>>`, which holds the handle.
unfoldable pub clone_trust : Handle → ℕ → Registrar → Registrar × Handle
unfolding clone
clone_trust inner base r = clone inner base r

abbrev pub terminate_header : RequestRecordHeader
terminate_header = record {
  closure = record { data_ptr = 0; vtable = 0 };
  property_ptr = PropertyPtr.terminate;
  captured_len = 0;
  args_len = 0;
  args_offset = 0;
  repeat_count = 0;
}

-- The request that asks the worker to end, on a channel of its own.
unfoldable pub post_terminate : ChannelPair → ChannelPair
post_terminate c = record c {
  bytes =
      write_record (c.base + next_boundary_offset header_bytes record_size record_align)
        terminate_header c.bytes;
  request_flags = pack_ready_count (not (ready c.response_flags)) 1;
}

-- `Drop`, up to the `join`.
unfoldable pub drop_runtime : ℕ → Runtime → Runtime
unfolding register post_terminate
drop_runtime base rt =
    if rt.worker
    then record {
      registrar = register (post_terminate (new_channel base)) rt.registrar;
      worker = false;
    }
    else rt
