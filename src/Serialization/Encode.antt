-- ===== src/Serialization/Encode.antt =====
-- src/runtime/serialization.rs: where `encode_closure` puts a closure and its arguments.
use native.Mathlib.Nat.{mul-mod_left}
use trust_tee.Prelude.Bits.{pow-add}
use trust_tee.Prelude.{
  ℕ, ◌+◌, ◌-◌, ◌%◌, ◌^◌, ◌≤◌, ◌<◌, ◌≡◌, sym, ap, ◌∙◌, ◌⊎◌, inl, inr, List, arith, ◌==◌, length,
  if◌then◌else◌,
}
use trust_tee.Memory.{Memory, write, Repr, align_of, align_of-le}
use trust_tee.Outcome.{Panic, ok, panic}
use trust_tee.Slots.{
  PropertyPtr, RequestRecordHeader, primary_bytes, trailing_bytes, slot_bytes, u32_mod,
}
use trust_tee.Serialization.{SlotWriter, dangling, encode_closure}
use trust_tee.Serialization.Alloc.{Allocated, Refused, alloc_aligned_lem}

module _ {F : Type 0} (out : SlotWriter) (property : PropertyPtr) (repr : Repr F) (vtable : ℕ)
    (f : F) (args : List ℕ) (m : Memory) where
  -- The closure stands at `env_pos` of the slot, its arguments at `args_pos`.
  unfoldable pub stored_header : ℕ → ℕ → RequestRecordHeader
  stored_header env_pos args_pos = record {
    closure = record {
      data_ptr = if repr.size == 0 then dangling else out.base + env_pos;
      vtable = vtable;
    };
    property_ptr = property;
    captured_len = repr.size % u32_mod;
    args_len = length args % u32_mod;
    args_offset = (out.base + args_pos - out.base) % u32_mod;
    repeat_count = 1;
  }

  unfoldable pub stored_memory : ℕ → ℕ → Memory
  stored_memory env_pos args_pos =
      write (out.base + args_pos) args
        (if repr.size == 0 then m else write (out.base + env_pos) (repr.encode f) m)

  -- The writer behind the closure.
  abbrev pub after_env : ℕ → SlotWriter
  after_env env_pos = record out { cursor = env_pos + repr.size }

  pub record Encoded : Type 0 where
    pub env_pos : ℕ
    pub args_pos : ℕ
    pub env_at : Allocated out repr.size (align_of repr) env_pos
    pub args_at : Allocated (after_env env_pos) (length args) 1 args_pos
    pub result :
        encode_closure out property repr vtable f args m
        ≡ ok (
          stored_header env_pos args_pos,
          record out { cursor = args_pos + length args },
          stored_memory env_pos args_pos,
        )

  module _ (start : out.cursor ≤ slot_bytes) (short : out.len ≤ slot_bytes) where
    env_cases :
        ((pos : ℕ) × Allocated out repr.size (align_of repr) pos)
        ⊎ Refused out repr.size (align_of repr)
    env_cases =
        alloc_aligned_lem out repr.size repr.align_log (omega (arith, repr.align_bound))
          (omega (arith, align_of-le repr, repr.size_bound))

    args_cases :
        length args < 2 ^ 63
        → (env_pos : ℕ) → Allocated out repr.size (align_of repr) env_pos
        → ((pos : ℕ) × Allocated (after_env env_pos) (length args) 1 pos)
          ⊎ Refused (after_env env_pos) (length args) 1
    args_cases few env_pos env_at =
        alloc_aligned_lem (after_env env_pos) (length args) 0 (omega arith)
          (omega (arith, env_at.fits))

    encoded_at :
        (env_pos : ℕ) (env_at : Allocated out repr.size (align_of repr) env_pos) (args_pos : ℕ)
        → Allocated (after_env env_pos) (length args) 1 args_pos
        → Encoded
    unfolding encode_closure stored_header stored_memory
    encoded_at env_pos env_at args_pos args_at = record {
      env_pos = env_pos;
      args_pos = args_pos;
      env_at = env_at;
      args_at = args_at;
      result = rw (encode_closure, env_at.result, args_at.result);
    }

    pub encode_closure_lem :
        length args < 2 ^ 63
        → Encoded ⊎ (encode_closure out property repr vtable f args m ≡ panic Panic.slot_overflow)
    unfolding encode_closure
    encode_closure_lem few = elim env_cases [
      | inr refused ↦ inr (rw (encode_closure, refused.result))
      | inl (env_pos, env_at) ↦ elim (args_cases few env_pos env_at) [
        | inr refused ↦ inr (rw (encode_closure, env_at.result, refused.result))
        | inl (args_pos, args_at) ↦ inl (encoded_at env_pos env_at args_pos args_at)
      ]
    ]

    -- A closure and arguments of at most the trailing block's size, aligned to at most the primary
    -- block's, always fit a whole slot.
    pub encode_closure-fits :
        out.cursor ≤ primary_bytes
        → out.len ≡ slot_bytes
        → repr.align_log ≤ 7
        → repr.size + length args ≤ trailing_bytes
        → Encoded
    encode_closure-fits before whole aligned small = elim env_cases [
      | inr refused ↦
          absurd (omega (arith, refused.too_long primary_bytes before divides (inr (omega arith))))
      | inl (env_pos, env_at) ↦ elim (args_cases (omega arith) env_pos env_at) [
        | inr refused ↦ absurd (
            ground (
              arith,
              refused.too_long primary_bytes,
              refused.too_long (env_pos + repr.size),
              env_at.place.least primary_bytes before divides (inr (omega arith)),
            ))
        | inl (args_pos, args_at) ↦ encoded_at env_pos env_at args_pos args_at
      ]
    ]
      where
        divides : primary_bytes % align_of repr ≡ 0
        divides =
            ap (λ (t : ℕ). t % align_of repr)
              (sym (pow-add (7 - repr.align_log) repr.align_log ∙ ap (λ (t : ℕ). 2 ^ t) sum))
            ∙ mul-mod_left (2 ^ (7 - repr.align_log)) (align_of repr)
          where
            sum : 7 - repr.align_log + repr.align_log ≡ 7
            sum = omega arith
