-- ===== src/Remote/Post.antt =====
-- src/trust/remote.rs: a request that a client posts, as the trustee reads it.
use trust_tee.Prelude.{
  ℕ, ◌+◌, ◌*◌, ◌^◌, ◌≤◌, ◌<◌, ◌≡◌, refl, ap, ◌∙◌, ◌⊎◌, inl, inr, false, not, same, not-same, List,
  arith, length,
}
use trust_tee.Outcome.{Panic, ok, panic}
use trust_tee.Slots.{
  RequestRecordHeader, ChannelPair, slot_bytes, trailing_bytes, pack_ready_count, ready,
  next_boundary_offset, write_record,
}
use trust_tee.Slots.Words.{ready-pack, count-pack}
use trust_tee.Slots.Records.{InRange, read_record-write_record, write_record-outside}
use trust_tee.Serialization.{ErasedVTable, vtable_gen, decode_and_call}
use trust_tee.Serialization.Encode.{Encoded, stored_header, encode_closure_lem, encode_closure-fits}
use trust_tee.Serialization.RoundTrip.{header, memory, decode-stored, args-stored}
use trust_tee.Runtime.Records.{ClientPair, Job, args_of}
use trust_tee.Runtime.Visit.Serve.{Requested, Settled, pending_check-cleared}
use trust_tee.Remote.Client.{hdr_offset, payload_offset, payload_writer, Request, post}

pub hdr_offset-eq : hdr_offset ≡ 8
unfolding next_boundary_offset
hdr_offset-eq = refl

-- Both slots lie in the address space, and the vtable has an address.
pub record IsPlaced (c : ChannelPair) (vtable : ℕ) : Type 0 where
  pub slots : c.base + 2 * slot_bytes ≤ 2 ^ 64
  pub static : vtable < 2 ^ 64

module _ {F : Type 0} (q : Request F) (c : ChannelPair) where
  abbrev pub InSlot : Type 0
  InSlot = Encoded (payload_writer c) q.property q.repr q.vtable q.value q.args c.bytes

  module _ (e : InSlot) where
    abbrev pub record_header : RequestRecordHeader
    record_header =
        record (header (payload_writer c) q.property q.repr q.vtable q.value q.args c.bytes e) {
          repeat_count = q.repeat;
        }

    abbrev pub posted : ChannelPair
    posted = record c {
      bytes =
          write_record (c.base + hdr_offset) record_header
            (memory (payload_writer c) q.property q.repr q.vtable q.value q.args c.bytes e);
      request_flags = pack_ready_count (not (ready c.response_flags)) 1;
    }

    pub post-posted : post q c ≡ ok (not (ready c.response_flags), posted)
    unfolding post
    post-posted = rw (post, e.result)

    header-InRange : IsPlaced c q.vtable → q.repeat < 2 ^ 32 → InRange record_header
    unfolding stored_header
    header-InRange placed few = ground (arith, e.env_at.fits)

    posted-kept :
        (i : ℕ)
        → c.base + payload_offset ≤ i
        → posted.bytes i
          ≡ memory (payload_writer c) q.property q.repr q.vtable q.value q.args c.bytes e i
    posted-kept i h = write_record-outside (c.base + hdr_offset) record_header _ i (omega arith)

    pub posted-Requested :
        {T : Type 0} (client : ClientPair) (prop : T) (jobs : List Job)
        → Settled client c
        → IsPlaced c q.vtable
        → q.repeat < 2 ^ 32
        → Requested
            (record { client = client; chan = posted; prop = prop; jobs = jobs })
            record_header
    posted-Requested client prop jobs idle placed few = record {
      settled = pending_check-cleared client _ _ open_request idle;
      unanswered = open_request;
      one = count-pack (not (ready c.response_flags)) 1;
      stored =
          read_record-write_record (c.base + hdr_offset) record_header _
            (header-InRange placed few);
    }
      where
        open_request : same (ready posted.request_flags) (ready c.response_flags) ≡ false
        open_request =
            ap (λ r. same r (ready c.response_flags)) (ready-pack (not (ready c.response_flags)) 1)
            ∙ not-same (ready c.response_flags)

    pub posted-property : record_header.property_ptr ≡ q.property
    unfolding stored_header
    posted-property = refl

    pub posted-decode :
        {Args Ret : Type 0} (vtables : ℕ → ErasedVTable Args Ret) (call : F → Args → Ret) (a : Args)
        → vtables q.vtable ≡ vtable_gen q.repr call
        → decode_and_call vtables record_header posted.bytes a ≡ call q.value a
    unfolding decode_and_call
    posted-decode vtables call a at =
        decode-stored (payload_writer c) q.property q.repr q.vtable q.value q.args c.bytes e
          posted.bytes (λ i p q. posted-kept i p) vtables call a at

    pub posted-args : args_of posted record_header ≡ q.args
    unfolding args_of
    posted-args =
        args-stored (payload_writer c) q.property q.repr q.vtable q.value q.args c.bytes e
          posted.bytes (λ i p q. posted-kept i p) (omega arith)

  -- A post succeeds if the closure and its arguments fit the trailing block; any post that does not
  -- succeed panics, and then no request has been written.
  pub post-fits : q.repr.align_log ≤ 7 → q.repr.size + length q.args ≤ trailing_bytes → InSlot
  post-fits aligned small =
      encode_closure-fits (payload_writer c) q.property q.repr q.vtable q.value q.args c.bytes
        (omega (arith, hdr_offset-eq)) (omega arith) (omega (arith, hdr_offset-eq)) refl aligned
        small

  pub post-cases : length q.args < 2 ^ 63 → InSlot ⊎ (post q c ≡ panic Panic.slot_overflow)
  unfolding post
  post-cases few =
      elim (encode_closure_lem (payload_writer c) q.property q.repr q.vtable q.value q.args c.bytes
        (omega (arith, hdr_offset-eq)) (omega arith) few) [
          | inl e ↦ inl e
          | inr refused ↦ inr (rw (post, refused))
        ]
