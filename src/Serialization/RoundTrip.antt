-- ===== src/Serialization/RoundTrip.antt =====
-- src/runtime/serialization.rs: `encode_closure` followed by `decode_and_call`.
use trust_tee.Prelude.{
  ℕ, ◌+◌, ◌-◌, ◌%◌, ◌^◌, ◌≤◌, ◌<◌, ◌≡◌, refl, sym, ap, ◌∙◌, subst, inl, inr, List, [], ◌∷◌, Bool,
  true, false, arith, Bool-cases, ◌==◌, length, if◌then◌else◌,
}
use trust_tee.Memory.{
  Memory, write, read, Repr, read-write, read-write-Apart, read-encode, read_agree, write_outside,
  Apart,
}
use trust_tee.Outcome.{ok, ok-injective, ok-ne-panic}
use trust_tee.Slots.{PropertyPtr, RequestRecordHeader, slot_bytes, u32_mod}
use trust_tee.Serialization.{
  ErasedVTable, SlotWriter, call_once_shim, vtable_gen, encode_closure, decode_and_call,
}
use trust_tee.Serialization.Encode.{stored_header, stored_memory, Encoded, encode_closure_lem}

module _ {F : Type 0} (out : SlotWriter) (property : PropertyPtr) (repr : Repr F) (vtable : ℕ)
    (f : F) (args : List ℕ) (m : Memory) (e : Encoded out property repr vtable f args m) where
  open e use {env_pos, args_pos, env_at, args_at}

  abbrev pub memory : Memory
  memory = stored_memory out property repr vtable f args m env_pos args_pos

  abbrev pub header : RequestRecordHeader
  header = stored_header out property repr vtable f args m env_pos args_pos

  zero_sized : repr.size ≡ 0 → repr.decode [] ≡ f
  zero_sized z =
      ap repr.decode (sym (empty (repr.encode f) (repr.length-encode f ∙ z))) ∙ repr.decode-encode f
    where
      empty : (bs : List ℕ) → length bs ≡ 0 → bs ≡ []
      empty [] h = refl
      empty (b ∷ bs) h = absurd (omega arith)

  args_stored : read (out.base + args_pos) (length args) memory ≡ args
  unfolding stored_memory
  args_stored = read-write (out.base + args_pos) args _

  env_stored :
      (repr.size == 0) ≡ false → repr.decode (read (out.base + env_pos) repr.size memory) ≡ f
  unfolding stored_memory
  env_stored occupied = rw occupied (
      ap repr.decode (
        read-write-Apart (out.base + env_pos) repr.size (out.base + args_pos) args _
          (omega (arith, args_at.place.after)))
      ∙ read-encode repr (out.base + env_pos) f m)

  -- Memory outside the reserved bytes is as it was.
  outside_stored :
      (i : ℕ)
      → Apart i 1 (out.base + out.cursor) (args_pos + length args - out.cursor)
      → memory i ≡ m i
  unfolding stored_memory
  outside_stored i apart =
      write_outside (out.base + args_pos) args _ i
        (omega (arith, args_at.place.after, env_at.place.after))
      ∙ env_outside (repr.size == 0)
    where
      env_outside :
          (z : Bool) → (if z then m else write (out.base + env_pos) (repr.encode f) m) i ≡ m i
      env_outside true = refl
      env_outside false =
          write_outside (out.base + env_pos) (repr.encode f) m i
            (omega (arith, repr.length-encode f, args_at.place.after, env_at.place.after))

  -- The reserved bytes, in a later memory that has kept them.
  module _ (m' : Memory)
      (kept : (i : ℕ)
        → out.base + out.cursor ≤ i
        → i < out.base + (args_pos + length args)
        → m' i ≡ memory i) where
    args_kept : read (out.base + args_pos) (length args) m' ≡ args
    args_kept =
        read_agree (out.base + args_pos) (length args) m' memory
          (λ i p q. kept i (omega (arith, args_at.place.after, env_at.place.after)) (omega arith))
        ∙ args_stored

    env_kept : (repr.size == 0) ≡ false → repr.decode (read (out.base + env_pos) repr.size m') ≡ f
    env_kept occupied =
        ap repr.decode (
          read_agree (out.base + env_pos) repr.size m' memory (λ i p q.
            kept i (omega (arith, env_at.place.after)) (omega (arith, args_at.place.after))))
        ∙ env_stored occupied

    shim-stored :
        {Args Ret : Type 0} (call : F → Args → Ret) (a : Args)
        → call_once_shim repr call header.closure.data_ptr m' a ≡ call f a
    unfolding call_once_shim stored_header
    shim-stored call a = elim (Bool-cases (repr.size == 0)) [
      | inl empty ↦ rw (call_once_shim, empty) (ap (λ g. call g a) (zero_sized (ground arith)))
      | inr occupied ↦ rw (call_once_shim, occupied) (ap (λ g. call g a) (env_kept occupied))
    ]

    pub args-stored :
        out.len ≤ slot_bytes → read (out.base + header.args_offset) header.args_len m' ≡ args
    unfolding stored_header
    args-stored short = rw (offset, count) args_kept
      where
        offset : (out.base + args_pos - out.base) % u32_mod ≡ args_pos
        offset = omega (arith, args_at.fits)

        count : length args % u32_mod ≡ length args
        count = omega (arith, args_at.fits)

    pub decode-stored :
        {Args Ret : Type 0} (vtables : ℕ → ErasedVTable Args Ret) (call : F → Args → Ret) (a : Args)
        → vtables vtable ≡ vtable_gen repr call
        → decode_and_call vtables header m' a ≡ call f a
    unfolding decode_and_call vtable_gen stored_header
    decode-stored vtables call a at =
        ap (λ v. v.call_once_in_place header.closure.data_ptr m' a) at ∙ shim-stored call a

-- What `encode_closure` returned is what it stored.
encode_closure-stored :
    {F : Type 0} (out : SlotWriter) (property : PropertyPtr) (repr : Repr F) (vtable : ℕ) (f : F)
    (args : List ℕ) (m : Memory) {t : RequestRecordHeader × SlotWriter × Memory}
    → out.cursor ≤ slot_bytes
    → out.len ≤ slot_bytes
    → length args < 2 ^ 63
    → encode_closure out property repr vtable f args m ≡ ok t
    → (e : Encoded out property repr vtable f args m) × ((
      header out property repr vtable f args m e,
      record out { cursor = e.args_pos + length args },
      memory out property repr vtable f args m e,
    )
        ≡ t)
encode_closure-stored out property repr vtable f args m start short few done =
    elim (encode_closure_lem out property repr vtable f args m start short few) [
      | inl e ↦ (e, ok-injective (sym e.result ∙ done))
      | inr refused ↦ absurd (ok-ne-panic (sym done ∙ refused))
    ]

module _ {F : Type 0} (out : SlotWriter) (property : PropertyPtr) (repr : Repr F) (vtable : ℕ)
    (f : F) (args : List ℕ) (m : Memory) where
  -- A closure that was encoded by a writer within its slot, with fewer than 2^63 bytes of
  -- arguments, and whose bytes have been kept since, is called by `decode_and_call` with the
  -- result that the closure itself has; the serialized arguments are read back at `args_offset`,
  -- and the writer stays within its slot.
  pub encode_closure_round_trip :
      {Args Ret : Type 0} (vtables : ℕ → ErasedVTable Args Ret) (call : F → Args → Ret) (a : Args)
      (t : RequestRecordHeader × SlotWriter × Memory) (m' : Memory)
      → out.cursor ≤ slot_bytes
      → out.len ≤ slot_bytes
      → length args < 2 ^ 63
      → vtables vtable ≡ vtable_gen repr call
      → encode_closure out property repr vtable f args m ≡ ok t
      → ((i : ℕ) → out.base + out.cursor ≤ i → i < out.base + t.1.cursor → m' i ≡ t.2 i)
      → (decode_and_call vtables t.0 m' a ≡ call f a)
        × (read (out.base + t.0.args_offset) t.0.args_len m' ≡ args)
        × (t.1.cursor ≤ out.len)
  encode_closure_round_trip {Args} {Ret} vtables call a t m' start short few at done kept =
      let (e, same) =
        encode_closure-stored out property repr vtable f args m start short few done in
      subst (λ u. Kept u → Decodes u) same (stored e) kept
    where
      Kept : RequestRecordHeader × SlotWriter × Memory → Type 0
      Kept u = (i : ℕ) → out.base + out.cursor ≤ i → i < out.base + u.1.cursor → m' i ≡ u.2 i

      Decodes : RequestRecordHeader × SlotWriter × Memory → Type 0
      Decodes u =
          (decode_and_call vtables u.0 m' a ≡ call f a)
          × (read (out.base + u.0.args_offset) u.0.args_len m' ≡ args)
          × (u.1.cursor ≤ out.len)

      stored :
          (e : Encoded out property repr vtable f args m)
          → Kept (
            header out property repr vtable f args m e,
            record out { cursor = e.args_pos + length args },
            memory out property repr vtable f args m e,
          )
          → Decodes (
            header out property repr vtable f args m e,
            record out { cursor = e.args_pos + length args },
            memory out property repr vtable f args m e,
          )
      stored e k = (
        decode-stored out property repr vtable f args m e m' k vtables call a at,
        args-stored out property repr vtable f args m e m' k short,
        e.args_at.fits,
      )

  -- Encoding by a writer within its slot, with fewer than 2^63 bytes of arguments, changes no byte
  -- outside those that the writer moved over.
  pub encode_closure-outside :
      (t : RequestRecordHeader × SlotWriter × Memory) (i : ℕ)
      → out.cursor ≤ slot_bytes
      → out.len ≤ slot_bytes
      → length args < 2 ^ 63
      → encode_closure out property repr vtable f args m ≡ ok t
      → Apart i 1 (out.base + out.cursor) (t.1.cursor - out.cursor)
      → t.2 i ≡ m i
  encode_closure-outside t i start short few done apart =
      let (e, same) =
        encode_closure-stored out property repr vtable f args m start short few done in
      subst (λ u. Apart i 1 (out.base + out.cursor) (u.1.cursor - out.cursor) → u.2 i ≡ m i) same
        (outside_stored out property repr vtable f args m e i) apart
