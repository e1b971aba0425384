-- ===== src/Remote/Client.antt =====
-- src/trust/remote.rs: what the operations of a client have in common: its handle, the request that it
-- posts, and how it waits for the response.
use trust_tee.Prelude.{ℕ, zero, suc, ◌+◌, Bool, not, ◌&&◌, ◌==◌, List, Option, none, some}
use mathlib.Core.Option
use trust_tee.Memory.{read, Repr}
use trust_tee.Bincode.{Bincode}
use trust_tee.Outcome.{Panic, Outcome, ok, panic, ◌>>=◌}
use trust_tee.Slots.{
  PropertyPtr, ChannelPair, header_bytes, record_size, record_align, slot_bytes, pack_ready_count,
  ready, next_boundary_offset, write_record,
}
use trust_tee.Serialization.{SlotWriter, encode_closure}
use trust_tee.Closures.{Ran, returned, panicked, VTables}
use trust_tee.Runtime.Records.{resp_data}
use trust_tee.Channel.{Link, Event, await}

-- The calling thread: `get_thread_id()` and `is_trustee_thread()`.
pub record Thread : Type 0 where
  pub id : ℕ
  pub is_trustee : Bool

-- What the handle knows: the published id of the trustee thread, whether the property pointer has
-- been published, and whether `_owner` is set.
pub record Remote : Type 0 where
  pub trustee_id : ℕ
  pub prop_published : Bool
  pub owner : Bool

-- A closure type `F` with what the compiler makes of it: its representation, that of its result, and
-- the address of the vtable of the closure that wraps it.
pub record Closure (F T R : Type 0) : Type 0 where
  pub repr : Repr F
  pub result : Repr R
  pub vtable : ℕ
  pub run : F → T → Ran T R

-- The same for a closure that takes an argument of type `V`.
pub record ArgClosure (F V T R : Type 0) : Type 0 where
  pub repr : Repr F
  pub result : Repr R
  pub vtable : ℕ
  pub run : F → T → V → Ran T R

-- `Option::expect`
unfoldable pub expect : {A : Type 0} → Option A → Panic → Outcome A
expect none p = panic p
expect (some a) p = ok a

-- `for _ in 0..n { f(p); }`
unfoldable pub run_repeated : {T : Type 0} → (T → Ran T (Unit {0})) → ℕ → T → Ran T (Unit {0})
run_repeated f zero t = returned t tt
run_repeated f (suc n) t = elim (f t) [
  | returned t' _ ↦ run_repeated f n t'
  | panicked t' ↦ panicked t'
]

-- Whether the caller is on the trustee thread and may use the property directly.
unfoldable pub on_trustee : Thread → Remote → Bool
on_trustee thread remote =
    not (remote.trustee_id == 0) && remote.trustee_id == thread.id && remote.prop_published

-- The wrapping closure writes the result through `out`.
unfoldable pub write_result : {T R : Type 0} → Repr R → Ran T R → Ran T (List ℕ)
write_result repr (returned t r) = returned t (repr.encode r)
write_result repr (panicked t) = panicked t

-- The wrapping closure of `apply_with`.
unfoldable pub write_result_with :
    {F V T R : Type 0}
    → Bincode V
    → Repr R
    → (F → T → V → Ran T R)
    → F
    → T × List ℕ
    → Ran T (List ℕ)
unfolding write_result
write_result_with bincode result run f (t, bytes) = elim (bincode.deserialize bytes) [
  | none ↦ panicked t
  | some v ↦ write_result result (run f t v)
]

abbrev pub hdr_offset : ℕ
hdr_offset = next_boundary_offset header_bytes record_size record_align

abbrev pub payload_offset : ℕ
payload_offset = hdr_offset + record_size

-- The writer over the request slot, behind the record header.
abbrev pub payload_writer : ChannelPair → SlotWriter
payload_writer c = record { base = c.base; len = slot_bytes; cursor = payload_offset }

-- What an operation puts into its channel: a closure under a property word, with the address of its
-- vtable, serialized arguments, and how often it is called.
pub record Request (F : Type 0) : Type 0 where
  pub property : PropertyPtr
  pub repr : Repr F
  pub vtable : ℕ
  pub value : F
  pub args : List ℕ
  pub repeat : ℕ

-- Encode the closure, write the record header, and flip the request word: the ready bit that was
-- stored, and the channel.
unfoldable pub post : {F : Type 0} → Request F → ChannelPair → Outcome (Bool × ChannelPair)
post q c = do
  (hdr, _, m) ← encode_closure (payload_writer c) q.property q.repr q.vtable q.value q.args c.bytes
  let req_ready = not (ready c.response_flags)
  ok (
    req_ready,
    record c {
      bytes = write_record (c.base + hdr_offset) (record hdr { repeat_count = q.repeat }) m;
      request_flags = pack_ready_count req_ready 1;
    },
  )

unfoldable pub read_result : {T R : Type 0} → Repr R → Link T → R
read_result repr l = repr.decode (read (resp_data l.port.chan) repr.size l.port.chan.bytes)

-- A closure on the property itself.
unfoldable pub direct : {T R : Type 0} → Link T → Ran T R → Outcome (Option (R × Link T))
direct l (returned t r) = ok (some (r, record l { port = record l.port { prop = t } }))
direct l (panicked t) = panic Panic.user_panic

module _ {T : Type 0} (vtables : VTables T) (repr_t : Repr T) (events : List (Event T)) where
  -- Wait for the response and read it.
  unfoldable pub await_result :
      {R : Type 0} → Repr R → Link T → Bool × ChannelPair → Option (R × Link T)
  unfolding read_result
  await_result repr l (req_ready, c) =
      Option.map (λ l'. (read_result repr l', l'))
        (await vtables repr_t events req_ready (record l { port = record l.port { chan = c } }))

  -- Post, wait, and read the result.
  unfoldable pub delegate :
      {F R : Type 0} → Request F → Repr R → Link T → Outcome (Option (R × Link T))
  unfolding await_result
  delegate q result l = do posted ← post q l.port.chan; ok (await_result result l posted)
