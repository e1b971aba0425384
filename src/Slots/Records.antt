-- ===== src/Slots/Records.antt =====
-- src/runtime/slots.rs: record headers as bytes.
use trust_tee.Prelude.{ℕ, ◌<◌, ◌^◌, ◌≡◌, refl, sym, ap, ◌∙◌, subst, some, arith}
use trust_tee.Memory.{
  Memory, write, read, read-write, read-write-Apart, fields_bytes, fields_values, Fit,
  write_outside, fields_round_trip, length-fields_bytes, Apart,
}
use trust_tee.Slots.{
  PropertyPtr, RequestRecordHeader, property_word, property_of_word, record_fields, record_widths,
  record_of_values, record_size, write_record, read_record,
}

-- Every field is in the range of its Rust type.
pub record InRange (h : RequestRecordHeader) : Type 0 where
  pub env : h.closure.data_ptr < 2 ^ 64
  pub vtable : h.closure.vtable < 2 ^ 64
  pub captured : h.captured_len < 2 ^ 32
  pub args : h.args_len < 2 ^ 32
  pub offset : h.args_offset < 2 ^ 32
  pub repeat : h.repeat_count < 2 ^ 32

property_round_trip : (p : PropertyPtr) → property_of_word (property_word p) ≡ some p
unfolding property_of_word
property_round_trip PropertyPtr.call_mut_ret_unit = refl
property_round_trip PropertyPtr.terminate = refl
property_round_trip _ = refl

property_word-lt : (p : PropertyPtr) → property_word p < 2 ^ 64
property_word-lt PropertyPtr.call_mut_ret_unit = omega arith
property_word-lt PropertyPtr.terminate = omega arith
property_word-lt _ = omega arith

record_fields-Fit : (h : RequestRecordHeader) → InRange h → Fit (record_fields h)
record_fields-Fit h r = omega (arith, property_word-lt h.property_ptr)

-- A record header whose fields are in the range of their types is read back from the forty bytes that
-- were written, at any address.
pub read_record-write_record :
    (a : ℕ) (h : RequestRecordHeader) (m : Memory)
    → InRange h
    → read_record a (write_record a h m) ≡ some h
unfolding read_record write_record
read_record-write_record a h m r =
    ap (λ bs. record_of_values (fields_values record_widths bs)) stored
    ∙ ap record_of_values (fields_round_trip (record_fields h) (record_fields-Fit h r))
    ∙ rw property_round_trip
  where
    stored :
        read a record_size (write a (fields_bytes (record_fields h)) m)
        ≡ fields_bytes (record_fields h)
    stored =
        subst
          (λ n.
            read a n (write a (fields_bytes (record_fields h)) m) ≡ fields_bytes (record_fields h))
          (length-fields_bytes (record_fields h)) (read-write a (fields_bytes (record_fields h)) m)

-- Writing a record header changes its forty bytes only.
pub write_record-outside :
    (a : ℕ) (h : RequestRecordHeader) (m : Memory) (i : ℕ)
    → Apart i 1 a record_size
    → write_record a h m i ≡ m i
unfolding write_record
write_record-outside a h m i apart =
    write_outside a (fields_bytes (record_fields h)) m i
      (subst (Apart i 1 a) (sym (length-fields_bytes (record_fields h))) apart)

pub read-write_record-Apart :
    (a n b : ℕ) (h : RequestRecordHeader) (m : Memory)
    → Apart a n b record_size
    → read a n (write_record b h m) ≡ read a n m
unfolding write_record
read-write_record-Apart a n b h m apart =
    read-write-Apart a n b (fields_bytes (record_fields h)) m
      (subst (Apart a n b) (sym (length-fields_bytes (record_fields h))) apart)
