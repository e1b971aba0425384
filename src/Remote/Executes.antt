-- ===== src/Remote/Executes.antt =====
-- src/runtime/runtime.rs: a visit to the request of each operation.
use trust_tee.Prelude.{◌^◌, ◌<◌, ◌≡◌, refl, ap, ◌∙◌, true, false, []}
use trust_tee.Memory.{Repr, write, unit_repr}
use trust_tee.Slots.{PropertyPtr, RequestRecordHeader}
use trust_tee.Serialization.{decode_and_call}
use trust_tee.Closures.{Ran, returned, panicked, VTables}
use trust_tee.Runtime.Records.{respond, args_of, call_repeated}
use trust_tee.Runtime.Visit.Serve.{
  Requested, visit-call_mut_out, visit-call_mut_out_panics, visit-call_mut_args_out,
  visit-call_mut_args_out_panics, visit-call_mut, visit-call_mut_panics, visit-into_inner,
}
use trust_tee.Channel.{Link, serve, run_event, after_visit}
use trust_tee.Remote.Client.{Request, write_result}
use trust_tee.Remote.Post.{IsPlaced, InSlot, posted-Requested, posted-property, record_header}
use trust_tee.Remote.Delegate.{IsReady, waiting, after_run}

module _ {F T : Type 0} (vtables : VTables T) (repr : Repr T) (q : Request F) (l : Link T)
    (in_slot : InSlot q l.port.chan) (ready_link : IsReady l)
    (placed : IsPlaced l.port.chan q.vtable) (few : q.repeat < 2 ^ 32) where
  abbrev pub hdr : RequestRecordHeader
  hdr = record_header q l.port.chan in_slot

  module _ {R : Type 0} (result : Repr R) (run : T → Ran T R) where
    abbrev waits : T → Link T
    waits = waiting vtables repr q result run true l in_slot ready_link

    abbrev after : Ran T R → Link T
    after = after_run vtables repr q result run true l in_slot ready_link

    requested : (t : T) → Requested (waits t).port hdr
    requested t =
        posted-Requested q l.port.chan in_slot l.port.client t [] ready_link.settled placed few

    pub visited-out :
        q.property ≡ PropertyPtr.call_mut_out_ptr
        → ((t : T)
            → decode_and_call vtables.call_mut_out hdr (waits t).port.chan.bytes t
              ≡ write_result result (run t))
        → (t : T) → run_event vtables repr serve (waits t) ≡ after (run t)
    unfolding run_event after_run write_result
    visited-out tag decoded t = go (run t) refl
      where
        tagged : hdr.property_ptr ≡ PropertyPtr.call_mut_out_ptr
        tagged = posted-property q l.port.chan in_slot ∙ tag

        go : (ran : Ran T R) → run t ≡ ran → run_event vtables repr serve (waits t) ≡ after ran
        go (returned t' r) e = ap after_visit (
            visit-call_mut_out vtables repr (waits t).port hdr (requested t) tagged
              (decoded t ∙ ap (write_result result) e))
        go (panicked t') e = ap after_visit (
            visit-call_mut_out_panics vtables repr (waits t).port hdr (requested t) tagged
              (decoded t ∙ ap (write_result result) e))

    pub visited-args_out :
        q.property ≡ PropertyPtr.call_mut_args_out_ptr
        → ((t : T)
            → decode_and_call vtables.call_mut_args_out hdr
                (waits t).port.chan.bytes
                (t, args_of (waits t).port.chan hdr)
              ≡ write_result result (run t))
        → (t : T) → run_event vtables repr serve (waits t) ≡ after (run t)
    unfolding run_event after_run write_result
    visited-args_out tag decoded t = go (run t) refl
      where
        tagged : hdr.property_ptr ≡ PropertyPtr.call_mut_args_out_ptr
        tagged = posted-property q l.port.chan in_slot ∙ tag

        go : (ran : Ran T R) → run t ≡ ran → run_event vtables repr serve (waits t) ≡ after ran
        go (returned t' r) e = ap after_visit (
            visit-call_mut_args_out vtables repr (waits t).port hdr (requested t) tagged
              (decoded t ∙ ap (write_result result) e))
        go (panicked t') e = ap after_visit (
            visit-call_mut_args_out_panics vtables repr (waits t).port hdr (requested t) tagged
              (decoded t ∙ ap (write_result result) e))

  -- Nothing is written for a closure without a result.
  pub visited-unit :
      (run : T → Ran T (Unit {0}))
      → q.property ≡ PropertyPtr.call_mut_ret_unit
      → ((t : T)
          → call_repeated vtables hdr (waits unit_repr run t).port.chan.bytes q.repeat t ≡ run t)
      → (t : T) → run_event vtables repr serve (waits unit_repr run t) ≡ after unit_repr run (run t)
  unfolding run_event after_run respond write
  visited-unit run tag repeated t = go (run t) refl
    where
      tagged : hdr.property_ptr ≡ PropertyPtr.call_mut_ret_unit
      tagged = posted-property q l.port.chan in_slot ∙ tag

      go :
          (ran : Ran T (Unit {0}))
          → run t ≡ ran
          → run_event vtables repr serve (waits unit_repr run t) ≡ after unit_repr run ran
      go (returned t' r) e = ap after_visit (
          visit-call_mut vtables repr (waits unit_repr run t).port hdr (requested unit_repr run t)
            tagged (repeated t ∙ e))
      go (panicked t') e = ap after_visit (
          visit-call_mut_panics vtables repr (waits unit_repr run t).port hdr
            (requested unit_repr run t) tagged (repeated t ∙ e))

  -- The property itself is the result, and the worker is gone.
  pub visited-into_inner :
      q.property ≡ PropertyPtr.into_inner
      → (t : T)
      → run_event vtables repr serve
          (waiting vtables repr q repr (λ u. returned u u) false l in_slot ready_link t)
        ≡ after_run vtables repr q repr
            (λ u. returned u u)
            false
            l
            in_slot
            ready_link
            (returned t t)
  unfolding run_event after_run
  visited-into_inner tag t = ap after_visit (
      visit-into_inner vtables repr (waits repr (λ u. returned u u) t).port hdr
        (requested repr (λ u. returned u u) t) (posted-property q l.port.chan in_slot ∙ tag))
