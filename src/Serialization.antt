-- ===== src/Serialization.antt =====
-- src/runtime/serialization.rs: closures in a slot. A closure is a value of its type `F`, with the
-- representation of `F` and the function that a call of it computes.
pub mod Alloc
pub mod Encode
pub mod RoundTrip
use trust_tee.Prelude.{ℕ, ◌+◌, ◌-◌, ◌%◌, List, [], ◌==◌, leb, length, if◌then◌else◌}
use trust_tee.Memory.{Memory, write, read, Repr, align_of}
use trust_tee.Outcome.{Panic, Outcome, ok, panic, ◌>>=◌}
use trust_tee.Slots.{
  PropertyPtr, RequestRecordHeader, slot_bytes, usize_mod, u32_mod, next_boundary_offset,
}

-- The calling function of a vtable takes the address of the environment and reads it from memory.
pub record ErasedVTable (Args Ret : Type 0) : Type 0 where
  pub call_once_in_place : ℕ → Memory → Args → Ret
  pub env_align : ℕ
  pub env_size : ℕ

-- `NonNull::<u8>::dangling()`
abbrev pub dangling : ℕ
dangling = 1

module _ {F Args Ret : Type 0} (repr : Repr F) (call : F → Args → Ret) where
  unfoldable pub call_once_shim : ℕ → Memory → Args → Ret
  call_once_shim env m args =
      if repr.size == 0
      then call (repr.decode []) args
      else call (repr.decode (read env repr.size m)) args

  unfoldable pub vtable_gen : ErasedVTable Args Ret
  unfolding call_once_shim
  vtable_gen = record {
    call_once_in_place = call_once_shim;
    env_align = align_of repr % u32_mod;
    env_size = repr.size % u32_mod;
  }

pub record SlotWriter : Type 0 where
  pub base : ℕ
  pub len : ℕ
  pub cursor : ℕ

-- `SlotWriter::new`, on a buffer at `base`.
pub new : ℕ → SlotWriter
new base = record { base = base; len = slot_bytes; cursor = 0 }

-- The pointer, and the writer with its cursor moved.
unfoldable pub alloc_aligned : SlotWriter → ℕ → ℕ → Outcome (ℕ × SlotWriter)
alloc_aligned w size align =
    let pos = next_boundary_offset w.cursor size align in
    let end = (pos + size) % usize_mod in
    if leb end w.len
    then ok (w.base + pos, record w { cursor = end })
    else panic Panic.slot_overflow

pub write_bytes : SlotWriter → List ℕ → Memory → Outcome (ℕ × SlotWriter × Memory)
write_bytes w bs m = do (p, w') ← alloc_aligned w (length bs) 1; ok (p, w', write p bs m)

-- The header of the record, the writer, and memory with the environment and the arguments in place.
-- `vtable` is the address of the static vtable of `F`.
unfoldable pub encode_closure :
    {F : Type 0}
    → SlotWriter
    → PropertyPtr
    → Repr F
    → ℕ
    → F
    → List ℕ
    → Memory
    → Outcome (RequestRecordHeader × SlotWriter × Memory)
encode_closure out property repr vtable f serialized_args m = do
  (env_in_slot, w) ← alloc_aligned out repr.size (align_of repr)
  let m' = if repr.size == 0 then m else write env_in_slot (repr.encode f) m
  (args_in_slot, w') ← alloc_aligned w (length serialized_args) 1
  ok (
    record {
      closure = record {
        data_ptr = if repr.size == 0 then dangling else env_in_slot;
        vtable = vtable;
      };
      property_ptr = property;
      captured_len = repr.size % u32_mod;
      args_len = length serialized_args % u32_mod;
      args_offset = (args_in_slot - out.base) % u32_mod;
      repeat_count = 1;
    },
    w',
    write args_in_slot serialized_args m',
  )

-- `vtables` is static memory: the vtable at an address, read at the type that the caller expects.
unfoldable pub decode_and_call :
    {Args Ret : Type 0} → (ℕ → ErasedVTable Args Ret) → RequestRecordHeader → Memory → Args → Ret
decode_and_call vtables hdr m args =
    (vtables hdr.closure.vtable).call_once_in_place hdr.closure.data_ptr m args
