-- ===== src/Slots.antt =====
-- src/runtime/slots.rs: the two-part request and response slots of a channel, the header word with
-- the ready bit and the request count, and the placement of records in a slot. A `usize` has 64 bits.
pub mod Words
pub mod Boundary
pub mod Records
use trust_tee.Prelude.{
  ℕ, ◌+◌, ◌-◌, ◌*◌, ◌/◌, ◌%◌, ◌^◌, bit_and, bit_or, Bool, true, false, not, ◌&&◌, ltb, ◌==◌,
  if◌then◌else◌, Option, none, some, List, [], ◌∷◌,
}
use trust_tee.Memory.{Memory, write, read, fields_bytes, fields_values, widths}
use mathlib.Core.Option
use Prim.Native.Nat.{max}

abbrev pub primary_bytes : ℕ
primary_bytes = 128

abbrev pub trailing_bytes : ℕ
trailing_bytes = 1024

abbrev pub slot_bytes : ℕ
slot_bytes = primary_bytes + trailing_bytes

abbrev pub header_bytes : ℕ
header_bytes = 4

abbrev pub ready_bit : ℕ
ready_bit = 1

abbrev pub count_shift : ℕ
count_shift = 1

abbrev pub count_mask : ℕ
count_mask = 0xFFFF_FFFE

abbrev pub usize_mod : ℕ
usize_mod = 2 ^ 64

abbrev pub u32_mod : ℕ
u32_mod = 2 ^ 32

-- `ready as u32`
abbrev pub bool_to_u32 : Bool → ℕ
bool_to_u32 true = 1
bool_to_u32 false = 0

unfoldable pub pack_ready_count : Bool → ℕ → ℕ
pack_ready_count ready count =
    bit_or (bit_and (count * 2 ^ count_shift % u32_mod) count_mask) (bool_to_u32 ready)

unfoldable pub ready : ℕ → Bool
ready word = not (bit_and word ready_bit == 0)

unfoldable pub count : ℕ → ℕ
count word = bit_and word count_mask / 2 ^ count_shift

-- `(offset + mask) & !mask`
align_up : ℕ → ℕ → ℕ
align_up offset mask = bit_and ((offset + mask) % usize_mod) (usize_mod - 1 - mask)

unfoldable pub next_boundary_offset : ℕ → ℕ → ℕ → ℕ
unfolding align_up
next_boundary_offset cursor size align =
    let mask = max align 1 - 1 in
    let start = align_up cursor mask in
    if ltb start primary_bytes && ltb primary_bytes ((start + size) % usize_mod)
    then align_up primary_bytes mask
    else start

-- What a request asks of the trustee.
pub data PropertyPtr : Type 0 where
  call_mut_ret_unit call_mut_out_ptr call_mut_args_out_ptr into_inner launch terminate : PropertyPtr

abbrev pub property_word : PropertyPtr → ℕ
property_word call_mut_ret_unit = 0
property_word call_mut_out_ptr = 1
property_word call_mut_args_out_ptr = 2
property_word into_inner = 3
property_word launch = 4
property_word terminate = 2 ^ 64 - 1

-- The variant of a discriminant; any other word is no value of the enum.
property_of_word : ℕ → Option PropertyPtr
property_of_word w =
    if w == 0
    then some call_mut_ret_unit
    else if w == 1
    then some call_mut_out_ptr
    else if w == 2
    then some call_mut_args_out_ptr
    else if w == 3
    then some into_inner
    else if w == 4
    then some launch
    else if w == 2 ^ 64 - 1
    then some terminate
    else none

-- Two addresses: of the captured environment (the field `data`), and of the vtable.
pub record FatClosurePtr : Type 0 where
  pub data_ptr : ℕ
  pub vtable : ℕ

pub record RequestRecordHeader : Type 0 where
  pub closure : FatClosurePtr
  pub property_ptr : PropertyPtr
  pub captured_len : ℕ
  pub args_len : ℕ
  pub args_offset : ℕ
  pub repeat_count : ℕ

-- `size_of` and `align_of` of `RequestRecordHeader`.
abbrev pub record_size : ℕ
record_size = 40

abbrev pub record_align : ℕ
record_align = 8

-- The fields in the order of `repr(C)`, with their widths in bytes.
abbrev pub record_fields : RequestRecordHeader → List (ℕ × ℕ)
record_fields h =
    (8, h.closure.data_ptr)
    ∷ (8, h.closure.vtable)
    ∷ (8, property_word h.property_ptr)
    ∷ (4, h.captured_len)
    ∷ (4, h.args_len)
    ∷ (4, h.args_offset)
    ∷ (4, h.repeat_count)
    ∷ []

abbrev record_widths : List ℕ
record_widths = 8 ∷ 8 ∷ 8 ∷ 4 ∷ 4 ∷ 4 ∷ 4 ∷ []

record_of_values : List ℕ → Option RequestRecordHeader
record_of_values (env ∷ vtable ∷ word ∷ captured ∷ args ∷ offset ∷ repeat ∷ rest) =
    Option.map
      (λ property. record {
        closure = record { data_ptr = env; vtable = vtable };
        property_ptr = property;
        captured_len = captured;
        args_len = args;
        args_offset = offset;
        repeat_count = repeat;
      })
      (property_of_word word)
record_of_values _ = none

-- `ptr::write_unaligned` and `ptr::read_unaligned` of a record header.
pub write_record : ℕ → RequestRecordHeader → Memory → Memory
write_record a h = write a (fields_bytes (record_fields h))

pub read_record : ℕ → Memory → Option RequestRecordHeader
unfolding record_of_values property_of_word
read_record a m = record_of_values (fields_values record_widths (read a record_size m))

-- The two header words of a channel, and the memory in which its slots stand: the request slot at
-- `base`, the response slot behind it.
pub record ChannelPair : Type 0 where
  pub base : ℕ
  pub request_flags : ℕ
  pub response_flags : ℕ
  pub bytes : Memory

abbrev pub response_base : ChannelPair → ℕ
response_base c = c.base + slot_bytes

-- `ChannelPair::default()`, at the address that the allocator gives.
unfoldable pub new_channel : ℕ → ChannelPair
new_channel base = record { base = base; request_flags = 0; response_flags = 0; bytes = λ _. 0 }
