-- ===== src/Examples/Slot.antt =====
-- Words, places, records and closures in a slot.
use trust_tee.Prelude.{
  ℕ, ◌+◌, ◌^◌, ◌≤◌, ◌≡◌, ◌⊎◌, refl, Bool, true, false, same, inl, [], ◌∷◌, arith,
}
use trust_tee.Memory.{Memory, write, read}
use trust_tee.Outcome.{ok}
use trust_tee.Slots.{
  PropertyPtr, RequestRecordHeader, next_boundary_offset, write_record, read_record,
}
use trust_tee.Slots.Boundary.{IsPlace, next_boundary_offset-IsPlace}
use trust_tee.Slots.Records.{InRange, read_record-write_record}
use trust_tee.Serialization.{
  SlotWriter, ErasedVTable, vtable_gen, alloc_aligned, encode_closure, decode_and_call,
}
use trust_tee.Serialization.Alloc.{Allocated, Refused, alloc_aligned_lem}
use trust_tee.Serialization.RoundTrip.{encode_closure_round_trip, encode_closure-outside}
use trust_tee.Prelude.{some}
use trust_tee.Examples.Data.{bool_repr}

next_boundary_offset-IsPlace_example : IsPlace 100 40 (2 ^ 3) (next_boundary_offset 100 40 (2 ^ 3))
next_boundary_offset-IsPlace_example =
    next_boundary_offset-IsPlace 3 100 40 (omega arith) (omega arith)

-- The record header is followed by a closure environment that does not fit the rest of the block.
abbrev writer : SlotWriter
writer = record { base = 4096; len = 1152; cursor = 48 }

alloc_aligned_lem_example :
    ((pos : ℕ) × Allocated writer 100 (2 ^ 3) pos) ⊎ Refused writer 100 (2 ^ 3)
alloc_aligned_lem_example = alloc_aligned_lem writer 100 3 (omega arith) (omega arith)

abbrev header : RequestRecordHeader
header = record {
  closure = record { data_ptr = 4144; vtable = 512 };
  property_ptr = PropertyPtr.call_mut_out_ptr;
  captured_len = 1;
  args_len = 2;
  args_offset = 49;
  repeat_count = 1;
}

header-InRange : InRange header
header-InRange = record {
  env = omega arith;
  vtable = omega arith;
  captured = omega arith;
  args = omega arith;
  offset = omega arith;
  repeat = omega arith;
}

abbrev empty : Memory
empty a = 0

read_record-write_record_example : read_record 4104 (write_record 4104 header empty) ≡ some header
read_record-write_record_example = read_record-write_record 4104 header empty header-InRange

abbrev vtables : ℕ → ErasedVTable Bool Bool
vtables a = vtable_gen bool_repr (λ f b. same f b)

-- What encoding the Boolean `true` with two bytes of arguments leaves.
abbrev encoded : RequestRecordHeader × SlotWriter × Memory
encoded =
    (header, record writer { cursor = 51 }, write 4145 (7 ∷ 8 ∷ []) (write 4144 (1 ∷ []) empty))

encoded_result :
    encode_closure writer PropertyPtr.call_mut_out_ptr bool_repr 512 true (7 ∷ 8 ∷ []) empty
    ≡ ok encoded
unfolding encode_closure alloc_aligned next_boundary_offset
encoded_result = refl

encode_closure_round_trip_example :
    (decode_and_call vtables header encoded.2 false ≡ false)
    × (read (4096 + 49) 2 encoded.2 ≡ 7 ∷ 8 ∷ [])
    × (51 ≤ 1152)
encode_closure_round_trip_example =
    encode_closure_round_trip writer PropertyPtr.call_mut_out_ptr bool_repr 512 true (7 ∷ 8 ∷ [])
      empty vtables (λ f b. same f b) false encoded encoded.2 (omega arith) (omega arith)
      (omega arith) refl encoded_result (λ i p q. refl)

encode_closure-outside_example : encoded.2 4000 ≡ 0
encode_closure-outside_example =
    encode_closure-outside writer PropertyPtr.call_mut_out_ptr bool_repr 512 true (7 ∷ 8 ∷ []) empty
      encoded 4000 (omega arith) (omega arith) (omega arith) encoded_result (inl (omega arith))
